-- ===== src/Variant/ChangeType.antt =====
-- VariantChangeType, with Variant2Bstr and Bstr2Variant, of bcap_core/src/dn_common.c. The
-- conversions of text of the C library are parameters.
use denso_robot_ros.Prelude.{
  ℕ, ◌+◌, ◌%◌, ◌^◌, List, [], ◌∷◌, Option, none, some, Bool, true, false, not, ◌==◌, ◌||◌,
  if◌then◌else◌,
}
use denso_robot_ros.Prelude.Int.{ℤ, to_bits}
use denso_robot_ros.Hresult.{
  Outcome, ok, failed, fault, ◌>>=◌, ◌>>◌, is_failed, e_outofmemory, disp_e_overflow,
}
use denso_robot_ros.Variant.{
  Variant, Bstr, plain, bstr, null_array, scalar_array, bstr_array, variant_array, vt_of, has_array,
  without_array,
}
use denso_robot_ros.Variant.Alloc.{sys_alloc_string}
use denso_robot_ros.Variant.Copy.{disp_e_badvartype, copies_elements, variant_copy}
use denso_robot_ros.Variant.Change.{FloatOps, disp_e_typemismatch, change_number}
use denso_robot_ros.Variant.Vt

-- The wide text functions: wcstol and wcstoll, wcstoul and wcstoull, wcstof and wcstod, each with
-- the text that it leaves and whether errno is ERANGE; the number of bytes of wcstombs; strptime of
-- all of the text with mktime; and swprintf or strftime with the format of a type.
pub record TextOps : Type 0 where
  pub strtol : List ℕ → ℤ × List ℕ × Bool
  pub strtoll : List ℕ → ℤ × List ℕ × Bool
  pub strtoul : List ℕ → ℕ × List ℕ × Bool
  pub strtoull : List ℕ → ℕ × List ℕ × Bool
  pub strtof : List ℕ → ℕ × List ℕ × Bool
  pub strtod : List ℕ → ℕ × List ℕ × Bool
  pub mb_len : List ℕ → Option ℕ
  pub date : List ℕ → Option ℕ
  pub print : ℕ → ℕ → List ℕ

-- `*wchRet` after an integer, where a decimal point ends it too, and after a floating number.
abbrev pub ends_integer : List ℕ → Bool
ends_integer [] = true
ends_integer (c ∷ cs) = c == b'.' || c == 0

abbrev pub ends_text : List ℕ → Bool
ends_text [] = true
ends_text (c ∷ cs) = c == 0

-- The tests behind a conversion of text.
abbrev pub check_text : Bool → Bool → Outcome (Unit {0})
check_text ends erange =
    if not ends
    then failed disp_e_typemismatch
    else if erange
    then failed disp_e_overflow
    else ok tt

abbrev pub is_minus : List ℕ → Bool
is_minus [] = false
is_minus (c ∷ cs) = c == b'-'

-- The eight bytes of the union, as far as a number is in them.
abbrev pub bits_of : Variant → ℕ
bits_of (plain vt bits) = bits
bits_of (bstr s) = 0
bits_of (null_array vt) = 0
bits_of (scalar_array vt lb xs) = 0
bits_of (bstr_array lb ss) = 0
bits_of (variant_array lb vs) = 0

module _ (fl : FloatOps) (tx : TextOps) (malloc : ℕ → Bool) where
  unfoldable pub text2date : List ℕ → Outcome ℕ
  text2date s = elim (tx.mb_len s) [
    | none ↦ failed disp_e_typemismatch
    | some n ↦
        if not (malloc (n + 1))
        then failed e_outofmemory
        else elim (tx.date s) [ none ↦ failed disp_e_typemismatch | some t ↦ ok (t % 2 ^ 64) ]
  ]

  -- Bstr2Variant behind its test on the first character: the eight bytes of the union.
  unfoldable pub text2bits : ℕ → List ℕ → Outcome ℕ
  unfolding text2date
  text2bits vt s =
      let (l, l_rest, l_range) = tx.strtol s in
      let (ll, ll_rest, ll_range) = tx.strtoll s in
      let (u, u_rest, u_range) = tx.strtoul s in
      let (ull, ull_rest, ull_range) = tx.strtoull s in
      let (f, f_rest, f_range) = tx.strtof s in
      let (d, d_rest, d_range) = tx.strtod s in
      if vt == 0 || vt == 1
      then ok 0
      else if vt == Vt.error
      then failed disp_e_typemismatch
      else if vt == Vt.i2 || vt == Vt.bool
      then check_text (ends_integer l_rest) l_range
        >> change_number fl Vt.i4 (to_bits 32 l) vt (to_bits 32 l)
      else if vt == Vt.i4
      then check_text (ends_integer l_rest) l_range >> ok (to_bits 32 l)
      else if vt == Vt.i8 || vt == Vt.cy
      then check_text (ends_integer ll_rest) ll_range >> ok (to_bits 64 ll)
      else if vt == Vt.r4
      then check_text (ends_text f_rest) f_range >> ok (f % 2 ^ 32)
      else if vt == Vt.r8
      then check_text (ends_text d_rest) d_range >> ok (d % 2 ^ 64)
      else if vt == Vt.ui1 || vt == Vt.ui2
      then check_text (ends_integer u_rest) u_range
        >> change_number fl Vt.ui4 (u % 2 ^ 32) vt (u % 2 ^ 32)
      else if vt == Vt.ui4
      then check_text (ends_integer u_rest) u_range
        >> (if is_minus s then failed disp_e_overflow else ok (u % 2 ^ 32))
      else if vt == Vt.ui8
      then check_text (ends_integer ull_rest) ull_range
        >> (if is_minus s then failed disp_e_overflow else ok (ull % 2 ^ 64))
      else if vt == Vt.date
      then text2date s
      else failed disp_e_badvartype

  -- Bstr2Variant
  unfoldable pub bstr2bits : ℕ → Bstr → Outcome ℕ
  unfolding text2bits
  bstr2bits vt none = fault
  bstr2bits vt (some []) = failed disp_e_typemismatch
  bstr2bits vt (some (c ∷ cs)) =
      if c == 0 then failed disp_e_typemismatch else text2bits vt (c ∷ cs)

  -- Variant2Bstr
  unfoldable pub variant2bstr : ℕ → ℕ → Outcome Bstr
  variant2bstr svt bits =
      if copies_elements svt
      then sys_alloc_string malloc (some (tx.print svt bits))
      else failed disp_e_badvartype

  -- The case VT_EMPTY: memset, and the type that is asked for.
  unfoldable pub from_empty : ℕ → Outcome Variant
  from_empty vt =
      if vt == Vt.bstr
      then (sys_alloc_string malloc (some []) >>= λ s. ok (bstr s))
      else if vt == Vt.error
      then failed disp_e_typemismatch
      else ok (if has_array vt then null_array (without_array vt) else plain vt 0)

  -- The `switch` on the type of the source; `old` are the bytes of the destination.
  unfoldable pub change_from : Variant → ℕ → ℕ → Outcome Variant
  unfolding bstr2bits variant2bstr from_empty
  change_from (plain svt bits) vt old =
      if svt == 0
      then from_empty vt
      else if svt == 1 || svt == Vt.error
      then failed disp_e_typemismatch
      else if vt == Vt.bstr
      then (variant2bstr svt bits >>= λ s. ok (bstr s))
      else change_number fl svt bits vt old >>= λ b. ok (plain vt b)
  change_from (bstr s) vt old = bstr2bits vt s >>= λ b. ok (plain vt b)
  change_from (null_array svt) vt old = failed disp_e_badvartype
  change_from (scalar_array svt lb xs) vt old = failed disp_e_badvartype
  change_from (bstr_array lb ss) vt old = failed disp_e_badvartype
  change_from (variant_array lb vs) vt old = failed disp_e_badvartype

  -- VariantChangeType: the destination after the call. `same` tells that it is the source; another
  -- one is cleared first.
  unfoldable pub variant_change_type : Bool → Variant → ℕ → Outcome Variant
  variant_change_type same src vt =
      let copied =
        variant_copy malloc src >>= λ (hr, v). if is_failed hr then failed hr else ok v in
      if vt == vt_of src
      then (if same then ok src else copied)
      else change_from src vt (if same then bits_of src else 0)
