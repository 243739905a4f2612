-- ===== src/Variant.antt =====
-- VARIANT, SAFEARRAY and BSTR of bcap_core/include/bcap_core/dn_common.h, with the functions of
-- bcap_core/src/dn_common.c that read them.
pub mod Vt
pub mod Alloc
pub mod Copy
pub mod Change
pub mod ChangeType
pub mod Changes
pub mod OptionValue
pub mod Tests
use denso_robot_ros.Prelude.{
  ℕ, zero, suc, ◌+◌, ◌-◌, ◌*◌, ◌/◌, ◌%◌, ◌^◌, ◌≡◌, Bool, List, [], ◌∷◌, Option, none, some, length,
  ltb, ◌==◌, ◌||◌, if◌then◌else◌,
}

-- The characters of the buffer in front of its last terminator, or NULL. A `wchar_t` is a number.
abbrev pub Bstr : Type 0
Bstr = Option (List ℕ)

abbrev pub chars : Bstr → List ℕ
chars none = []
chars (some s) = s

-- wcslen stops at the first NUL.
unfoldable pub wcslen : List ℕ → ℕ
wcslen [] = 0
wcslen (c ∷ cs) = if c == 0 then 0 else suc (wcslen cs)

unfoldable pub sys_string_len : Bstr → ℕ
sys_string_len none = 0
sys_string_len (some s) = wcslen s % 2 ^ 16

-- A constructor is the live member of the union, which `vt` selects:
-- `plain vt bits` for a `vt` with neither VT_ARRAY nor VT_BSTR, `bits` the eight bytes of the union;
-- the arrays with the element's type (VT_BSTR and VT_VARIANT have a constructor of their own), the
-- lower bound and the elements, whose number is `cElements`; `null_array` for `parray == NULL`.
mutual
  pub data Variant : Type 0 where
    plain : ℕ → ℕ → Variant
    bstr : Bstr → Variant
    null_array : ℕ → Variant
    scalar_array : ℕ → ℕ → List ℕ → Variant
    bstr_array : ℕ → List Bstr → Variant
    variant_array : ℕ → Variants → Variant

  pub data Variants : Type 0 where
    nil : Variants
    cons : Variant → Variants → Variants

unfoldable pub count_variants : Variants → ℕ
count_variants nil = 0
count_variants (cons v vs) = suc (count_variants vs)

-- VariantInit
abbrev pub empty : Variant
empty = plain 0 0

unfoldable pub vt_of : Variant → ℕ
vt_of (plain vt bits) = vt
vt_of (bstr s) = Vt.bstr
vt_of (null_array vt) = Vt.array + vt
vt_of (scalar_array vt lb xs) = Vt.array + vt
vt_of (bstr_array lb ss) = Vt.array + Vt.bstr
vt_of (variant_array lb vs) = Vt.array + Vt.variant

-- `(vt & VT_ARRAY) != 0`, and `vt ^ VT_ARRAY` where the bit is set.
abbrev pub has_array : ℕ → Bool
has_array vt = vt / 0x2000 % 2 == 1

abbrev pub without_array : ℕ → ℕ
without_array vt = vt - 0x2000

-- SafeArrayGetUBound, in the wrap-around of `uint32_t`.
unfoldable pub safe_array_get_ubound : ℕ → ℕ → ℕ
safe_array_get_ubound elements lbound = (elements + lbound + (2 ^ 32 - 1)) % 2 ^ 32

-- `cnt = ubnd - lbnd + 1`
unfoldable pub array_count : ℕ → ℕ → ℕ
unfolding safe_array_get_ubound
array_count elements lbound =
    (safe_array_get_ubound elements lbound + (2 ^ 32 - lbound) + 1) % 2 ^ 32

-- The switch on the size of an element, as the coder and the decoder write it. VT_UI1, VT_DATE,
-- VT_BSTR and VT_VARIANT are treated apart from it.
unfoldable pub array_elem_size : ℕ → ℕ
array_elem_size vt =
    if vt == Vt.i2 || vt == Vt.ui2 || vt == Vt.bool
    then 2
    else if vt == Vt.i4 || vt == Vt.ui4 || vt == Vt.r4
    then 4
    else if vt == Vt.i8 || vt == Vt.ui8 || vt == Vt.r8 || vt == Vt.cy
    then 8
    else 0

-- The switch on the size of a single value; VT_DATE and VT_BSTR are treated apart from it.
unfoldable pub value_size : ℕ → ℕ
value_size vt =
    if vt == Vt.ui1
    then 1
    else if vt == Vt.i2 || vt == Vt.ui2 || vt == Vt.bool
    then 2
    else if vt == Vt.i4 || vt == Vt.ui4 || vt == Vt.r4 || vt == Vt.error
    then 4
    else if vt == Vt.i8 || vt == Vt.ui8 || vt == Vt.r8 || vt == Vt.cy
    then 8
    else 0
