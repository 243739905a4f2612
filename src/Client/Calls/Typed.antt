-- ===== src/Client/Calls/Typed.antt =====
-- What a function of bcap_core/src/bCAPClient/bcap_client.c asks the service for, read off its
-- arguments instead of its format.
use denso_robot_ros.Prelude.{
  ℕ, ◌+◌, ◌-◌, ◌*◌, ◌≤◌, ◌≡◌, List, [], ◌∷◌, ◌++◌, Option, none, some, length, true, if◌then◌else◌,
}
use denso_robot_ros.Hresult.{Outcome, ok, failed, ◌>>=◌, e_invalidarg}
use denso_robot_ros.Device.{Chars, Libc, all_digits}
use denso_robot_ros.Variant.{Variants, plain, bstr, nil, cons, count_variants}
use denso_robot_ros.Client.{Conns}
use denso_robot_ros.Client.Invoke.{
  Kind, int32, float32, wide_string, variant, VaArg, int_arg, float_arg, bstr_arg, variant_arg,
  pointer_arg, Invocation, cut, Called, Host, exchange,
}
use denso_robot_ros.Client.Calls.{Wrapper, codes, calling, checked, releasing, released}

-- The number that digits stand for.
abbrev pub decimal : ℕ → Chars → ℕ
decimal acc [] = acc
decimal acc (c ∷ cs) = decimal (acc * 10 + (c - 48)) cs

-- atoi on up to nine digits.
abbrev pub ReadsDigits : Libc → Type 0
ReadsDigits libc = (s : Chars) → all_digits s ≡ true → length s ≤ 9 → libc.atoi s ≡ decimal 0 s

abbrev pub kind_code : Kind → ℕ
kind_code int32 = 3
kind_code float32 = 4
kind_code wide_string = 8
kind_code variant = 12

abbrev pub kind_text : Kind → Chars
kind_text int32 = codes "3"
kind_text float32 = codes "4"
kind_text wide_string = codes "8"
kind_text variant = codes "12"

-- The arguments up to the pointer for the return value, as VARIANTs.
unfoldable pub request_args : List VaArg → Variants
request_args [] = nil
request_args (int_arg n ∷ va) = cons (plain 3 n) (request_args va)
request_args (float_arg f ∷ va) = cons (plain 4 f) (request_args va)
request_args (bstr_arg s ∷ va) = cons (bstr s) (request_args va)
request_args (variant_arg v ∷ va) = cons v (request_args va)
request_args (pointer_arg k null ∷ va) = nil

-- From the pointer on.
unfoldable pub pointers : List VaArg → List VaArg
pointers [] = []
pointers (int_arg n ∷ va) = pointers va
pointers (float_arg f ∷ va) = pointers va
pointers (bstr_arg s ∷ va) = pointers va
pointers (variant_arg v ∷ va) = pointers va
pointers (pointer_arg k null ∷ va) = pointer_arg k null ∷ va

abbrev pub pointed : List VaArg → Option Kind
pointed (pointer_arg k null ∷ va) = some k
pointed va = none

-- The VARIANT type of the return value, and where it goes.
abbrev pub code_or_none : Option Kind → ℕ
code_or_none none = 0
code_or_none (some k) = kind_code k

abbrev pub text_or_none : Option Kind → Option Chars
text_or_none none = none
text_or_none (some k) = some (kind_text k)

abbrev pub destination : List VaArg → Option Kind
destination (pointer_arg k null ∷ va) = if null then none else some k
destination va = none

-- The types of the arguments up to the pointer, each behind a comma.
unfoldable pub spell_rest : List VaArg → Chars
spell_rest [] = []
spell_rest (int_arg n ∷ va) = codes ",3" ++ spell_rest va
spell_rest (float_arg f ∷ va) = codes ",4" ++ spell_rest va
spell_rest (bstr_arg s ∷ va) = codes ",8" ++ spell_rest va
spell_rest (variant_arg v ∷ va) = codes ",12" ++ spell_rest va
spell_rest (pointer_arg k null ∷ va) = []

-- With commas between them only.
unfoldable pub spell : List VaArg → Chars
unfolding spell_rest
spell [] = []
spell (int_arg n ∷ va) = codes "3" ++ spell_rest va
spell (float_arg f ∷ va) = codes "4" ++ spell_rest va
spell (bstr_arg s ∷ va) = codes "8" ++ spell_rest va
spell (variant_arg v ∷ va) = codes "12" ++ spell_rest va
spell (pointer_arg k null ∷ va) = []

-- The format and the count of an invocation say what its arguments are.
pub record IsTyped (v : Invocation) : Type 0 where
  pub format_eq : cut 58 v.format ≡ (spell v.va, text_or_none (pointed (pointers v.va)))
  pub argc_eq : v.argc ≡ count_variants (request_args v.va)
  pub argc_le : v.argc ≤ length v.format

module _ {W : Type 0} (host : Host W) (fuel : ℕ) (conns : Conns) (fd : ℕ) (w : W) where
  -- The request with the arguments in their order, and the return value by its pointer.
  unfoldable pub typed_call : Invocation → Outcome (Called W)
  typed_call v =
      exchange host fuel conns fd w
        (record { id = v.id; argc = count_variants (request_args v.va); format = []; va = [] })
        (request_args v.va) (code_or_none (pointed (pointers v.va))) (destination (pointers v.va))

  -- The three forms of the functions, over it.
  unfoldable pub request : Wrapper → Outcome (Called W × Option ℕ)
  unfolding typed_call
  request (calling v) = do c ← typed_call v; ok (c, none)
  request (checked null v) = if null then failed e_invalidarg else do c ← typed_call v; ok (c, none)
  request (releasing none f) = failed e_invalidarg
  request (releasing (some h) f) = do c ← typed_call (f h); ok (c, some (released c.hr h))
