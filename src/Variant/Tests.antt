-- ===== src/Variant/Tests.antt =====
-- Concrete VARIANTs, through the functions of bcap_core/src/dn_common.c.
use denso_robot_ros.Prelude.{
  ℕ, List, Bool, length, ◌==◌, ◌≡◌, ◌↔◌, refl, [], ◌∷◌, none, some, true, false, arith,
}
use denso_robot_ros.Prelude.Int.{pos}
use denso_robot_ros.Hresult.{ok, failed, s_ok, disp_e_overflow}
use denso_robot_ros.Variant.{
  Variant, Bstr, plain, bstr, scalar_array, variant_array, nil, cons, wcslen, count_variants, vt_of,
}
use denso_robot_ros.Variant.Change.{
  Number, FloatOps, change_number, number_of, int_number, sub_change_type,
}
use denso_robot_ros.Variant.Change.Exact.{i8, ui4, is_exact}
use denso_robot_ros.Variant.ChangeType.{TextOps, variant_change_type, change_from}
use denso_robot_ros.Variant.Changes.{KeepsValue, variant_change_type-is_exact}
use denso_robot_ros.Variant.Copy.{copies_elements, copies_value, variant_copy}
use denso_robot_ros.Variant.OptionValue.{get_option_value}
use denso_robot_ros.Variant.OptionValue.Plain.{IsOptions}
use denso_robot_ros.Variant.OptionValue.Search.{options_text, get_option_value-first}
use denso_robot_ros.Variant.Copy.Laws.{IsCopyable, IsText, variant_copy-IsCopyable}

-- An array with a number, a text and an array of numbers.
abbrev mixed : Variant
mixed = variant_array 0 (
    cons (plain 3 42)
      (cons (bstr (some (98 ∷ 45 ∷ []))) (cons (scalar_array 5 1 (7 ∷ 8 ∷ [])) nil)))

mixed-IsCopyable : IsCopyable mixed
unfolding copies_elements copies_value wcslen count_variants
mixed-IsCopyable = ((refl, ((refl, omega arith), ((refl, omega arith), tt))), omega arith)

variant_copy-IsCopyable_example : variant_copy (λ _. true) mixed ≡ ok (s_ok, mixed)
variant_copy-IsCopyable_example =
    variant_copy-IsCopyable (λ _. true) mixed (λ n. refl) mixed-IsCopyable

-- A machine whose only floating number is zero.
abbrev zero_number : Number
zero_number = record {
  size = 8;
  below = λ c. false;
  above = λ c. false;
  to_int = λ n. 0;
  to_r4 = 0;
  to_r8 = 0;
  beyond_r4 = false;
  truth = false;
}

abbrev pub no_floats : FloatOps
no_floats = record {
  r4 = λ b. zero_number;
  r8 = λ b. zero_number;
  int_r4 = λ z. 0;
  int_r8 = λ z. 0;
}

-- Every text is read as zero.
abbrev pub zero_text : TextOps
zero_text = record {
  strtol = λ s. (pos 0, [], false);
  strtoll = λ s. (pos 0, [], false);
  strtoul = λ s. (0, [], false);
  strtoull = λ s. (0, [], false);
  strtof = λ s. (0, [], false);
  strtod = λ s. (0, [], false);
  mb_len = λ s. none;
  date = λ s. none;
  print = λ vt bits. 48 ∷ [];
}

variant_change_type-is_exact_example :
    (is_exact i8 ui4 ≡ true) ↔ ((bits : ℕ) → KeepsValue no_floats zero_text (λ _. true) i8 ui4 bits)
variant_change_type-is_exact_example =
    variant_change_type-is_exact no_floats zero_text (λ _. true) i8 ui4 refl

-- 1 as VT_I8 is refused as VT_UI4, and 256 as VT_I4 is 0 as VT_UI1.
refuses_one :
    variant_change_type no_floats zero_text (λ _. true) false (plain 20 1) 19
    ≡ failed disp_e_overflow
unfolding variant_change_type change_from vt_of change_number number_of int_number sub_change_type
refuses_one = refl

loses_256 :
    variant_change_type no_floats zero_text (λ _. true) false (plain 3 256) 17 ≡ ok (plain 17 0)
unfolding variant_change_type change_from vt_of change_number number_of int_number sub_change_type
loses_256 = refl

-- "a=7,WDT=500": the second option, for names that are compared by their lengths.
abbrev wdt_options : List (List ℕ × List ℕ)
wdt_options = (b'W' ∷ b'D' ∷ b'T' ∷ [], b'5' ∷ b'0' ∷ b'0' ∷ []) ∷ []

abbrev by_length : List ℕ → Bstr → Bool
by_length s none = false
by_length s (some t) = length s == length t

wdt_options-IsOptions : IsOptions ((b'a' ∷ [], b'7' ∷ []) ∷ wdt_options)
wdt_options-IsOptions = (
  (refl, omega arith, omega arith),
  (refl, omega arith, omega arith),
  ((refl, omega arith, omega arith), (refl, omega arith, omega arith), tt),
)

wdt_options-IsText : IsText (some (options_text (b'a' ∷ []) (b'7' ∷ []) wdt_options))
unfolding wcslen
wdt_options-IsText = (refl, omega arith)

get_option_value-first_example :
    get_option_value no_floats zero_text
      (λ n. true)
      by_length
      (some (b'w' ∷ b'd' ∷ b't' ∷ []))
      19
      0
      (some (options_text (b'a' ∷ []) (b'7' ∷ []) wdt_options))
    ≡ variant_change_type no_floats zero_text
        (λ n. true)
        false
        (bstr (some (b'5' ∷ b'0' ∷ b'0' ∷ [])))
        19
get_option_value-first_example =
    get_option_value-first no_floats zero_text (λ n. true) by_length (b'w' ∷ b'd' ∷ b't' ∷ []) 19 0
      (b'a' ∷ []) (b'7' ∷ []) wdt_options (λ n. refl) wdt_options-IsOptions wdt_options-IsText
