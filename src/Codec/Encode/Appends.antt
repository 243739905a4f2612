-- ===== src/Codec/Encode/Appends.antt =====
-- The loops and branches of the coder of bcap_core/src/bcap_common.c against the layout.
use denso_robot_ros.Prelude.{
  ℕ, zero, suc, ◌*◌, ◌/◌, ◌^◌, ◌≤◌, ◌<◌, ◌≡◌, refl, ap, subst, List, [], ◌∷◌, length, map, take,
  ltb, le→leb, ◌==◌, none, some, arith,
}
use denso_robot_ros.Hresult.{ok}
use denso_robot_ros.Bytes.{le_bytes, le_bytes_all, length-le_bytes_all}
use denso_robot_ros.Variant
use denso_robot_ros.Variant.{
  Bstr, plain, bstr, null_array, scalar_array, bstr_array, variant_array, wcslen, chars,
  sys_string_len, array_count, safe_array_get_ubound, array_elem_size, value_size,
}
use denso_robot_ros.Codec.Buffer.{
  copy, checked, put_le, Writes, Writes-put_le, Writes-checked, Writes-nil, Writes-bind, Writes-if,
  Writes-test,
}
use denso_robot_ros.Codec.Date.{DateFloats, vntdate2bytary}
use denso_robot_ros.Codec.Encode.{
  same, put_elems, put_bstr, put_bstrs, put_bytes, put_scalar_array, put_plain,
}
use denso_robot_ros.Codec.Wire.{wire_bstr, wire_bstrs, wire_plain, wire_scalars, max_elements}

-- `cnt` is the number of elements, whatever the lower bound.
pub array_count-eq : (n lb : ℕ) → n < 2 ^ 32 → lb < 2 ^ 32 → array_count n lb ≡ n
unfolding array_count
array_count-eq n lb hn hlb = omega arith

pub map-same : (xs : List ℕ) → map same xs ≡ xs
map-same [] = refl
map-same (x ∷ xs) = ap (◌∷◌ x) (map-same xs)

pub take-length : (xs : List ℕ) → take (length xs) xs ≡ xs
take-length [] = refl
take-length (x ∷ xs) = ap (◌∷◌ x) (take-length xs)

wcslen-le : (s : List ℕ) → wcslen s ≤ length s
unfolding wcslen
wcslen-le [] = omega arith
wcslen-le (c ∷ cs) = ground (arith, wcslen-le cs)

pub sys_string_len-le : (s : Bstr) → sys_string_len s ≤ length (chars s)
unfolding sys_string_len
sys_string_len-le none = omega arith
sys_string_len-le (some s) = omega (arith, wcslen-le s)

pub sys_string_len-lt : (s : Bstr) → sys_string_len s < 2 ^ 16
unfolding sys_string_len
sys_string_len-lt none = omega arith
sys_string_len-lt (some s) = omega arith

pub array_elem_size-le : (vt : ℕ) → array_elem_size vt ≤ 8
unfolding array_elem_size
array_elem_size-le vt = ground arith

pub value_size-le : (vt : ℕ) → value_size vt ≤ 8
unfolding value_size
value_size-le vt = ground arith

le_bytes_all_zero : (xs : List ℕ) → le_bytes_all 0 xs ≡ []
unfolding le_bytes_all le_bytes
le_bytes_all_zero [] = refl
le_bytes_all_zero (x ∷ xs) = le_bytes_all_zero xs

module _ (len : ℕ) (small : len ≤ 2 ^ 31) where
  pub Writes-put_elems :
      (size : ℕ) (f : ℕ → ℕ) (n : ℕ) (xs : List ℕ)
      → size ≤ 8
      → n ≤ length xs
      → Writes len (put_elems len size f n xs) (le_bytes_all size (map f (take n xs)))
  unfolding put_elems le_bytes_all
  Writes-put_elems size f zero xs hs hn = Writes-nil len
  Writes-put_elems size f (suc n) [] hs hn = absurd (omega arith)
  Writes-put_elems size f (suc n) (x ∷ xs) hs hn =
      Writes-bind len (put_le len size (f x)) (put_elems len size f n xs) (le_bytes size (f x)) _
        (Writes-put_le len size (f x) (omega arith)) (Writes-put_elems size f n xs hs (omega arith))

  -- All elements of an array.
  pub Writes-put_all :
      (size : ℕ) (f : ℕ → ℕ) (xs : List ℕ)
      → size ≤ 8
      → Writes len (put_elems len size f (length xs) xs) (le_bytes_all size (map f xs))
  Writes-put_all size f xs hs =
      subst (λ ys. Writes len (put_elems len size f (length xs) xs) (le_bytes_all size (map f ys)))
        (take-length xs) (Writes-put_elems size f (length xs) xs hs (omega arith))

  pub Writes-put_bstr : (s : Bstr) → Writes len (put_bstr len s) (wire_bstr s)
  unfolding put_bstr wire_bstr
  Writes-put_bstr s =
      let n = sys_string_len s in
      let half : 2 * n / 2 ≡ n = omega arith in
      Writes-bind len (put_le len 4 (2 * n)) (put_elems len 2 same (2 * n / 2) (chars s)) _ _
        (Writes-put_le len 4 (2 * n) (omega arith))
        (rw (half, ← map-same (take n (chars s)))
          (Writes-put_elems 2 same n (chars s) (omega arith) (sys_string_len-le s)))

  pub Writes-put_bstrs :
      (ss : List Bstr) → Writes len (put_bstrs len (length ss) ss) (wire_bstrs ss)
  unfolding put_bstrs wire_bstrs
  Writes-put_bstrs [] = Writes-nil len
  Writes-put_bstrs (s ∷ ss) =
      Writes-bind len (put_bstr len s) (put_bstrs len (length ss) ss) _ _ (Writes-put_bstr s)
        (Writes-put_bstrs ss)

  pub Writes-put_bytes :
      (xs : List ℕ)
      → length xs < max_elements
      → Writes len (put_bytes len (length xs) xs) (le_bytes_all 1 xs)
  unfolding put_bytes
  Writes-put_bytes xs h =
      let e : length (le_bytes_all 1 xs) ≡ length xs = omega (arith, length-le_bytes_all 1 xs) in
      rw (le→leb (length xs) (length xs) (omega arith), take-length xs)
        (subst (λ n. Writes len (checked len n (copy (le_bytes_all 1 xs))) (le_bytes_all 1 xs)) e
          (Writes-checked len (le_bytes_all 1 xs) (omega arith)))

  pub Writes-put_scalar_array :
      (fl : DateFloats) (vt : ℕ) (xs : List ℕ)
      → length xs < max_elements
      → Writes len (put_scalar_array fl len vt (length xs) xs) (wire_scalars fl vt xs)
  unfolding put_scalar_array wire_scalars
  Writes-put_scalar_array fl vt xs h =
      let size = array_elem_size vt in
      Writes-if len (vt == Variant.Vt.ui1) (put_bytes len (length xs) xs) _ _ _
        (Writes-put_bytes xs h)
        (Writes-if len (vt == Variant.Vt.date) _ _ _ _
          (Writes-put_all 8 (vntdate2bytary fl) xs (omega arith))
          (Writes-test len (ltb 0 size) _ ok (le_bytes_all size xs)
            (λ p. rw (map-same xs) at (Writes-put_all size same xs (array_elem_size-le vt)))
            (λ p.
              let z : size ≡ 0 = ground arith in rw (z, le_bytes_all_zero xs) (Writes-nil len))))

  pub Writes-put_plain :
      (fl : DateFloats) (vt bits : ℕ)
      → Writes len (put_plain fl len vt bits) (wire_plain fl vt bits)
  unfolding put_plain wire_plain le_bytes
  Writes-put_plain fl vt bits =
      let size = value_size vt in
      Writes-if len (vt == Variant.Vt.date) _ _ _ _
        (Writes-put_le len 8 (vntdate2bytary fl bits) (omega arith))
        (Writes-test len (ltb 0 size) _ ok (le_bytes size bits)
          (λ p. Writes-put_le len size bits (omega (arith, value_size-le vt)))
          (λ p. let z : size ≡ 0 = ground arith in rw z (Writes-nil len)))
