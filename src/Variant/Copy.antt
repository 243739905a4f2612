-- ===== src/Variant/Copy.antt =====
-- VariantClear and VariantCopy of bcap_core/src/dn_common.c.
pub mod Laws
use denso_robot_ros.Prelude.{
  ℕ, ◌*◌, List, [], ◌∷◌, Option, none, some, length, Bool, ◌==◌, ◌||◌, if◌then◌else◌,
}
use denso_robot_ros.Hresult.{Hresult, Outcome, ok, fault, ◌>>=◌, s_ok}
use denso_robot_ros.Variant.{
  Variant, Variants, Bstr, plain, bstr, null_array, scalar_array, bstr_array, variant_array, nil,
  cons, empty, count_variants,
}
use denso_robot_ros.Variant.Alloc.{elem_bytes, safe_array_create_vector, sys_alloc_string}
use denso_robot_ros.Variant.Vt

abbrev pub disp_e_badvartype : Hresult
disp_e_badvartype = 0x80020008

-- The types of the elements that VariantCopy copies by memcpy.
unfoldable pub copies_elements : ℕ → Bool
copies_elements vt =
    vt == Vt.i2
    || vt == Vt.i4
    || vt == Vt.i8
    || vt == Vt.r4
    || vt == Vt.r8
    || vt == Vt.cy
    || vt == Vt.date
    || vt == Vt.bool
    || vt == Vt.ui1
    || vt == Vt.ui2
    || vt == Vt.ui4
    || vt == Vt.ui8

-- Those of a single value: VT_EMPTY, VT_NULL and VT_ERROR too.
unfoldable pub copies_value : ℕ → Bool
unfolding copies_elements
copies_value vt = vt == 0 || vt == 1 || vt == Vt.error || copies_elements vt

-- The size of the block is computed in 32 bits; a vector of which it holds all elements.
unfoldable pub holds_all : ℕ → ℕ → ℕ → Bool
holds_all vt n block = elim (elem_bytes vt) [ none ↦ n == 0 | some sz ↦ block == n * sz ]

-- A new vector, of which `pvargDest->parray->pvData` is read without a test on NULL. Elements that
-- lie beyond the block are a fault.
unfoldable pub with_vector :
    (ℕ → Bool) → ℕ → ℕ → Outcome (Hresult × Variant) → Outcome (Hresult × Variant)
unfolding holds_all
with_vector malloc vt n k = elim (safe_array_create_vector malloc vt n) [
  | none ↦ fault
  | some block ↦ if holds_all vt n block then k else fault
]

unfoldable pub copy_bstrs : (ℕ → Bool) → List Bstr → Outcome (List Bstr)
copy_bstrs malloc [] = ok []
copy_bstrs malloc (s ∷ ss) = do
  s' ← sys_alloc_string malloc s
  ss' ← copy_bstrs malloc ss
  ok (s' ∷ ss')

unfoldable mutual
  unfolding copies_elements copies_value with_vector copy_bstrs

  -- VariantCopy into another VARIANT: the code, and the destination after the call.
  pub variant_copy : (ℕ → Bool) → Variant → Outcome (Hresult × Variant)
  variant_copy malloc (plain vt bits) =
      ok (if copies_value vt then (s_ok, plain vt bits) else (disp_e_badvartype, empty))
  variant_copy malloc (bstr s) = do s' ← sys_alloc_string malloc s; ok (s_ok, bstr s')
  variant_copy malloc (null_array vt) = fault
  variant_copy malloc (scalar_array vt lb xs) =
      if copies_elements vt
      then with_vector malloc vt (length xs) (ok (s_ok, scalar_array vt lb xs))
      else ok (disp_e_badvartype, empty)
  variant_copy malloc (bstr_array lb ss) =
      with_vector malloc Vt.bstr (length ss)
        (copy_bstrs malloc ss >>= λ ss'. ok (s_ok, bstr_array lb ss'))
  variant_copy malloc (variant_array lb vs) =
      with_vector malloc Vt.variant (count_variants vs)
        (copy_variants malloc vs >>= λ vs'. ok (s_ok, variant_array lb vs'))

  -- The loop over the elements; the code of an element is not looked at.
  pub copy_variants : (ℕ → Bool) → Variants → Outcome Variants
  copy_variants malloc nil = ok nil
  copy_variants malloc (cons v vs) = do
    (hr, v') ← variant_copy malloc v
    vs' ← copy_variants malloc vs
    ok (cons v' vs')

-- VariantClear
unfoldable pub variant_clear : Variant → Variant
variant_clear v = empty
