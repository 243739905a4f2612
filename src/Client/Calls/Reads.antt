-- ===== src/Client/Calls/Reads.antt =====
-- How invoke_function of bcap_core/src/bCAPClient/bcap_client.c reads the format of a typed
-- invocation.
use denso_robot_ros.Prelude.{
  ℕ, zero, suc, ◌+◌, ◌<◌, ◌≡◌, refl, List, [], ◌∷◌, ◌++◌, Option, none, some, true, false, length,
  lt→ltb, le→leb, arith,
}
use denso_robot_ros.Hresult.{ok}
use denso_robot_ros.Device.{Chars, Libc, all_digits}
use denso_robot_ros.Variant.{Variant, plain, bstr, cons, count_variants}
use denso_robot_ros.Variant.Alloc.{variants_block}
use denso_robot_ros.Client.{Conns}
use denso_robot_ros.Client.Invoke.{
  Kind, int32, float32, wide_string, variant, VaArg, int_arg, float_arg, bstr_arg, variant_arg,
  pointer_arg, Invocation, cut, behind_or_end, is_end, next_arg, read_args, return_pointer,
  return_vt, Host, exchange, invoke_function,
}
use denso_robot_ros.Client.Calls.{codes}
use denso_robot_ros.Client.Calls.Typed.{
  ReadsDigits, request_args, pointers, pointed, code_or_none, text_or_none, destination, spell_rest,
  spell, IsTyped, typed_call,
}

-- The arguments that begin with an input.
abbrev behind : List VaArg → Option Chars
behind [] = none
behind (pointer_arg k null ∷ va) = none
behind (int_arg n ∷ va) = some (spell (int_arg n ∷ va))
behind (float_arg f ∷ va) = some (spell (float_arg f ∷ va))
behind (bstr_arg s ∷ va) = some (spell (bstr_arg s ∷ va))
behind (variant_arg v ∷ va) = some (spell (variant_arg v ∷ va))

cut-spell_rest : (va : List VaArg) → cut 44 (spell_rest va) ≡ ([], behind va)
unfolding cut spell_rest spell
cut-spell_rest [] = refl
cut-spell_rest (int_arg n ∷ va) = refl
cut-spell_rest (float_arg f ∷ va) = refl
cut-spell_rest (bstr_arg s ∷ va) = refl
cut-spell_rest (variant_arg v ∷ va) = refl
cut-spell_rest (pointer_arg k null ∷ va) = refl

behind-spell : (va : List VaArg) → behind_or_end (behind va) ≡ spell va
unfolding spell
behind-spell [] = refl
behind-spell (int_arg n ∷ va) = refl
behind-spell (float_arg f ∷ va) = refl
behind-spell (bstr_arg s ∷ va) = refl
behind-spell (variant_arg v ∷ va) = refl
behind-spell (pointer_arg k null ∷ va) = refl

module _ (libc : Libc) (reads : ReadsDigits libc) where
  -- A round of the loop over an argument whose type is `text`, with the number `vt`.
  read_args-round :
      (fuel argc i vt : ℕ) (text : Chars) (a : VaArg) (va : List VaArg) (v : Variant)
      → cut 44 (text ++ spell_rest va) ≡ (text, behind va)
      → libc.atoi text ≡ vt
      → is_end (text ++ spell_rest va) ≡ false
      → next_arg vt (a ∷ va) ≡ ok (v, va)
      → argc ≡ i + suc (count_variants (request_args va))
      → read_args libc fuel argc (i + 1) (spell va) va ≡ ok (request_args va, pointers va)
      → read_args libc (suc fuel) argc i (text ++ spell_rest va) (a ∷ va)
        ≡ ok (cons v (request_args va), pointers va)
  unfolding read_args
  read_args-round fuel argc i vt text a va v hc hv he hn ha ih =
      rw (he, hc, hv, hn, behind-spell va, lt→ltb i argc (omega (arith, ha)), ih) refl

  -- The loop gives the arguments in their order, and leaves the pointer.
  pub read_args-spell :
      (fuel argc i : ℕ) (va : List VaArg)
      → argc ≡ i + count_variants (request_args va)
      → count_variants (request_args va) < fuel
      → read_args libc fuel argc i (spell va) va ≡ ok (request_args va, pointers va)
  unfolding read_args cut spell next_arg request_args pointers count_variants all_digits
  read_args-spell zero argc i va ha hf = absurd (omega (arith, hf))
  read_args-spell (suc fuel) argc i [] ha hf = rw (le→leb argc i (omega (arith, ha))) refl
  read_args-spell (suc fuel) argc i (pointer_arg k null ∷ va) ha hf =
      rw (le→leb argc i (omega (arith, ha))) refl
  read_args-spell (suc fuel) argc i (int_arg n ∷ va) ha hf =
      read_args-round fuel argc i 3 (codes "3") (int_arg n) va (plain 3 n)
        (rw (cut-spell_rest va) refl) (reads (codes "3") refl (omega arith)) refl refl ha
        (read_args-spell fuel argc (i + 1) va (omega (arith, ha)) (omega (arith, hf)))
  read_args-spell (suc fuel) argc i (float_arg f ∷ va) ha hf =
      read_args-round fuel argc i 4 (codes "4") (float_arg f) va (plain 4 f)
        (rw (cut-spell_rest va) refl) (reads (codes "4") refl (omega arith)) refl refl ha
        (read_args-spell fuel argc (i + 1) va (omega (arith, ha)) (omega (arith, hf)))
  read_args-spell (suc fuel) argc i (bstr_arg s ∷ va) ha hf =
      read_args-round fuel argc i 8 (codes "8") (bstr_arg s) va (bstr s)
        (rw (cut-spell_rest va) refl) (reads (codes "8") refl (omega arith)) refl refl ha
        (read_args-spell fuel argc (i + 1) va (omega (arith, ha)) (omega (arith, hf)))
  read_args-spell (suc fuel) argc i (variant_arg v ∷ va) ha hf =
      read_args-round fuel argc i 12 (codes "12") (variant_arg v) va v (rw (cut-spell_rest va) refl)
        (reads (codes "12") refl (omega arith)) refl refl ha
        (read_args-spell fuel argc (i + 1) va (omega (arith, ha)) (omega (arith, hf)))

  return_vt-text_or_none : (k : Option Kind) → return_vt libc (text_or_none k) ≡ code_or_none k
  unfolding all_digits
  return_vt-text_or_none none = refl
  return_vt-text_or_none (some int32) = reads (codes "3") refl (omega arith)
  return_vt-text_or_none (some float32) = reads (codes "4") refl (omega arith)
  return_vt-text_or_none (some wide_string) = reads (codes "8") refl (omega arith)
  return_vt-text_or_none (some variant) = reads (codes "12") refl (omega arith)

return_pointer-pointers :
    (va : List VaArg)
    → return_pointer (text_or_none (pointed (pointers va))) (pointers va)
      ≡ ok (destination (pointers va))
unfolding pointers
return_pointer-pointers [] = refl
return_pointer-pointers (int_arg n ∷ va) = return_pointer-pointers va
return_pointer-pointers (float_arg f ∷ va) = return_pointer-pointers va
return_pointer-pointers (bstr_arg s ∷ va) = return_pointer-pointers va
return_pointer-pointers (variant_arg v ∷ va) = return_pointer-pointers va
return_pointer-pointers (pointer_arg k null ∷ va) = refl

module _ {W : Type 0} (host : Host W) (fuel : ℕ) (conns : Conns) (fd : ℕ) (w : W) where
  -- A typed invocation sends what its arguments say.
  pub invoke_function-IsTyped :
      (v : Invocation)
      → ReadsDigits host.libc
      → ((n : ℕ) → host.malloc n ≡ true)
      → IsTyped v
      → invoke_function host fuel conns fd w v ≡ typed_call host fuel conns fd w v
  unfolding invoke_function typed_call exchange
  invoke_function-IsTyped v reads memory typed =
      rw
        (
          memory (variants_block v.argc),
          typed.format_eq,
          read_args-spell host.libc reads (suc (length v.format)) v.argc 0 v.va
              (omega (arith, typed.argc_eq)) (omega (arith, typed.argc_le, typed.argc_eq)),
          return_pointer-pointers v.va,
          return_vt-text_or_none host.libc reads (pointed (pointers v.va)),
          typed.argc_eq,
        )
        (ground arith)
