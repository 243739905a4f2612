-- ===== src/Variant/Copy/Laws.antt =====
-- VariantCopy of bcap_core/src/dn_common.c on the VARIANTs that it can copy.
use denso_robot_ros.Prelude.{
  ℕ, ◌+◌, ◌*◌, ◌/◌, ◌%◌, ◌^◌, ◌<◌, ◌≤◌, ◌≡◌, refl, ap, List, [], ◌∷◌, Option, none, some, length,
  take-all, Bool, inl, inr, Bool-cases, true, ◌==◌, ==_iff, le→ltb, All, arith,
}
use denso_robot_ros.Hresult.{Hresult, Outcome, ok, s_ok}
use denso_robot_ros.Variant.{
  Variant, Variants, Bstr, plain, bstr, null_array, scalar_array, bstr_array, variant_array, nil,
  cons, wcslen, count_variants,
}
use denso_robot_ros.Variant.Alloc.{
  safe_array_create_vector, elem_bytes, sys_alloc_string, sys_alloc_string_len, fill_block,
}
use denso_robot_ros.Variant.Copy.{
  copies_elements, copies_value, holds_all, with_vector, copy_bstrs, variant_copy, copy_variants,
}

-- A string without NUL that fits a block of SysAllocStringLen.
abbrev pub IsText : Bstr → Type 0
IsText none = Unit {0}
IsText (some s) = (wcslen s ≡ length s) × (length s < 16383)

-- The VARIANTs of types that VariantCopy knows, with fewer than 2 ^ 28 elements in an array.
abbrev mutual
  pub IsCopyable : Variant → Type 0
  IsCopyable (plain vt bits) = copies_value vt ≡ true
  IsCopyable (bstr s) = IsText s
  IsCopyable (null_array vt) = ⊥
  IsCopyable (scalar_array vt lb xs) = (copies_elements vt ≡ true) × (length xs < 2 ^ 28)
  IsCopyable (bstr_array lb ss) = All IsText ss × (length ss < 2 ^ 28)
  IsCopyable (variant_array lb vs) = AllCopyable vs × (count_variants vs < 2 ^ 28)

  pub AllCopyable : Variants → Type 0
  AllCopyable nil = Unit {0}
  AllCopyable (cons v vs) = IsCopyable v × AllCopyable vs

known_size :
    (vt : ℕ) (o : Option ℕ)
    → elem_bytes vt ≡ o
    → copies_elements vt ≡ true
    → (sz : ℕ) × (elem_bytes vt ≡ some sz) × (sz ≤ 16)
unfolding elem_bytes copies_elements
known_size vt none e h = absurd (ground arith)
known_size vt (some sz) e h = (sz, e, ground arith)

bstr_size : elem_bytes 8 ≡ some 8
unfolding elem_bytes
bstr_size = refl

variant_size : elem_bytes 12 ≡ some 16
unfolding elem_bytes
variant_size = refl

module _ (malloc : ℕ → Bool) (memory : (n : ℕ) → malloc n ≡ true) where
  vector_created :
      (vt n sz : ℕ)
      → elem_bytes vt ≡ some sz
      → n * sz < 2 ^ 32
      → safe_array_create_vector malloc vt n ≡ some (n * sz)
  unfolding safe_array_create_vector
  vector_created vt n sz size low = elim (Bool-cases (n == 0)) [
    | inl no_elements ↦
        let e : 0 ≡ n * sz = let z : n ≡ 0 = (==_iff n 0).0 no_elements in rw z (omega arith) in
        rw (memory 24, no_elements) (ap some e)
    | inr some_elements ↦
        let whole : n * sz % 2 ^ 32 ≡ n * sz = omega (arith, low) in
        rw (memory 24, some_elements, size, memory (n * sz % 2 ^ 32)) (ap some whole)
  ]

  with_vector-fits :
      (vt n sz : ℕ) (k : Outcome (Hresult × Variant))
      → elem_bytes vt ≡ some sz
      → sz ≤ 16
      → n < 2 ^ 28
      → with_vector malloc vt n k ≡ k
  unfolding with_vector
  with_vector-fits vt n sz k size small few =
      let low : n * sz < 2 ^ 32 = grind arith in
      let same : (n * sz == n * sz) ≡ true = (==_iff (n * sz) (n * sz)).1 refl in
      rw (vector_created vt n sz size low, with_vector, size, holds_all, same) refl

  pub sys_alloc_string-IsText : (s : Bstr) → IsText s → sys_alloc_string malloc s ≡ ok s
  unfolding sys_alloc_string sys_alloc_string_len fill_block
  sys_alloc_string-IsText none h = refl
  sys_alloc_string-IsText (some s) (whole, short) =
      let n : wcslen s % 2 ^ 16 ≡ length s = omega (arith, whole, short) in
      let block : 4 * (length s + 1) % 2 ^ 16 ≡ 4 * (length s + 1) = omega (arith, short) in
      let room : 4 * (length s + 1) / 4 ≡ length s + 1 = omega arith in
      let enough = le→ltb (length s + 1) (length s) (omega arith) in
      let all = ap (λ l. ok (some l)) (take-all (length s) s (omega arith)) in
      rw (n, memory (4 * (length s + 1) % 2 ^ 16), block, room, enough) all

  copy_bstrs-IsText : (ss : List Bstr) → All IsText ss → copy_bstrs malloc ss ≡ ok ss
  unfolding copy_bstrs
  copy_bstrs-IsText [] h = refl
  copy_bstrs-IsText (s ∷ ss) (h, hs) =
      rw (sys_alloc_string-IsText s h, copy_bstrs-IsText ss hs) refl

  mutual
    unfolding variant_copy copy_variants

    variant_copy-same : (v : Variant) → IsCopyable v → variant_copy malloc v ≡ ok (s_ok, v)
    variant_copy-same (plain vt bits) h = rw h refl
    variant_copy-same (bstr s) h = rw (sys_alloc_string-IsText s h) refl
    variant_copy-same (null_array vt) h = absurd h
    variant_copy-same (scalar_array vt lb xs) (h, few) =
        let (sz, size, small) = known_size vt (elem_bytes vt) refl h in
        rw h (with_vector-fits vt (length xs) sz _ size small few)
    variant_copy-same (bstr_array lb ss) (h, few) =
        rw (copy_bstrs-IsText ss h) (with_vector-fits 8 (length ss) 8 _ bstr_size (omega arith) few)
    variant_copy-same (variant_array lb vs) (h, few) =
        rw (copy_variants-same vs h)
          (with_vector-fits 12 (count_variants vs) 16 _ variant_size (omega arith) few)

    copy_variants-same : (vs : Variants) → AllCopyable vs → copy_variants malloc vs ≡ ok vs
    copy_variants-same nil h = refl
    copy_variants-same (cons v vs) (h, hs) =
        rw (variant_copy-same v h, copy_variants-same vs hs) refl

-- VariantCopy gives an equal VARIANT, arrays of arrays included, and returns S_OK, if every malloc
-- succeeds, the types in it are those that it knows, its strings have no NUL inside and fewer than
-- 16383 characters, and each of its arrays fewer than 2 ^ 28 elements.
pub variant_copy-IsCopyable :
    (malloc : ℕ → Bool) (v : Variant)
    → ((n : ℕ) → malloc n ≡ true)
    → IsCopyable v
    → variant_copy malloc v ≡ ok (s_ok, v)
variant_copy-IsCopyable malloc v memory h = variant_copy-same malloc memory v h
