-- ===== src/Codec/Decode/Scalars.antt =====
-- The decoder of bcap_core/src/bcap_common.c on single values and arrays of them.
use mathlib.Core.Path.{fun_ext}
use denso_robot_ros.Prelude.{
  ℕ, ◌*◌, ◌%◌, ◌^◌, ◌≤◌, ◌<◌, ◌≡◌, ◌≢◌, refl, ap, ◌∙◌, subst, List, [], ◌∷◌, length, length-map,
  map, some, Bool, true, false, ltb, ◌==◌, if◌then◌else◌, inl, inr, Bool-cases, arith,
}
use denso_robot_ros.Hresult.{ok}
use denso_robot_ros.Bytes.{
  le_bytes, from_le, le_bytes_all, from_le-le_bytes_1, from_le-le_bytes_2, from_le-le_bytes_4,
  from_le-le_bytes_8,
}
use denso_robot_ros.Variant.{array_elem_size, value_size}
use denso_robot_ros.Variant.Alloc.{elem_bytes, safe_array_create_vector}
use denso_robot_ros.Codec.Date.{DateFloats, vntdate2bytary, bytary2vntdate}
use denso_robot_ros.Codec.Encode.{same}
use denso_robot_ros.Codec.Wire.{wire_plain, wire_scalars, max_elements}
use denso_robot_ros.Codec.Reader.{
  Read, get_le, Reads, Reads-get_le, Reads-ok, Reads-then, Reads-if, Reads-test,
}
use denso_robot_ros.Codec.Decode.{get_elems, get_bytes, get_scalars, get_plain}
use denso_robot_ros.Codec.Decode.Loops.{read_back, Reads-map, Reads-get_elems, Reads-get_bytes}
use denso_robot_ros.Codec.Received.{received_date, received_bits, received_elem}

-- The low bytes of a number, at the sizes of the two switches.
abbrev IsLow : ℕ → ℕ → Type 0
IsLow x n = from_le (le_bytes n x) ≡ x % 2 ^ (8 * n)

if_IsLow : (c : Bool) (x a b : ℕ) → IsLow x a → IsLow x b → IsLow x (if c then a else b)
if_IsLow true x a b ha hb = ha
if_IsLow false x a b ha hb = hb

IsLow-zero : (x : ℕ) → IsLow x 0
unfolding from_le le_bytes
IsLow-zero x = omega arith

pub from_le-elem :
    (vt x : ℕ) → from_le (le_bytes (array_elem_size vt) x) ≡ x % 2 ^ (8 * array_elem_size vt)
unfolding array_elem_size
from_le-elem vt x = if_IsLow _ x 2 _ (from_le-le_bytes_2 x) (
    if_IsLow _ x 4 _ (from_le-le_bytes_4 x)
      (if_IsLow _ x 8 0 (from_le-le_bytes_8 x) (IsLow-zero x)))

pub from_le-value : (vt x : ℕ) → from_le (le_bytes (value_size vt) x) ≡ x % 2 ^ (8 * value_size vt)
unfolding value_size
from_le-value vt x = if_IsLow _ x 1 _ (from_le-le_bytes_1 x) (
    if_IsLow _ x 2 _ (from_le-le_bytes_2 x) (
      if_IsLow _ x 4 _ (from_le-le_bytes_4 x)
        (if_IsLow _ x 8 0 (from_le-le_bytes_8 x) (IsLow-zero x))))

le_bytes_all_one : (xs : List ℕ) → le_bytes_all 1 xs ≡ map (λ x. x % 2 ^ 8) xs
unfolding le_bytes_all le_bytes
le_bytes_all_one [] = refl
le_bytes_all_one (x ∷ xs) = ap (◌∷◌ (x % 2 ^ 8)) (le_bytes_all_one xs)

pub elem_bytes-lt : (vt sz : ℕ) → elem_bytes vt ≡ some sz → (vt < 22) × (sz ≤ 16)
unfolding elem_bytes
elem_bytes-lt vt sz h = ground arith

elem_bytes-ui1 : (vt sz : ℕ) → elem_bytes vt ≡ some sz → (vt == 17) ≡ true → sz ≡ 1
unfolding elem_bytes
elem_bytes-ui1 vt sz h e = ground arith

elem_bytes-date : (vt sz : ℕ) → elem_bytes vt ≡ some sz → (vt == 7) ≡ true → sz ≡ 8
unfolding elem_bytes
elem_bytes-date vt sz h e = ground arith

elem_bytes-elem :
    (vt sz : ℕ)
    → elem_bytes vt ≡ some sz
    → (vt == 17) ≡ false
    → (vt == 7) ≡ false
    → vt ≢ 8
    → vt ≢ 12
    → (array_elem_size vt ≡ sz) × (0 < sz)
unfolding elem_bytes array_elem_size
elem_bytes-elem vt sz h a b c d = ground arith

small_product : (n sz : ℕ) → sz ≤ 16 → n < max_elements → n * sz < 2 ^ 32
small_product n sz hs hn = let bound : n * sz ≤ n * 16 = grind arith in omega arith

pub create_vector-some :
    (malloc : ℕ → Bool) (vt n sz : ℕ)
    → ((k : ℕ) → malloc k ≡ true)
    → elem_bytes vt ≡ some sz
    → n < max_elements
    → safe_array_create_vector malloc vt n ≡ some (n * sz)
unfolding safe_array_create_vector
create_vector-some malloc vt n sz memory known h =
    let bound : n * sz < 2 ^ 32 = small_product n sz (elem_bytes-lt vt sz known).1 h in
    rw (memory 24) (elim (Bool-cases (n == 0)) [
      | inl z ↦ rw z (ap some (ground arith))
      | inr z ↦ rw (z, known, memory (n * sz % 2 ^ 32)) (ap some (omega arith))
    ])

module _ (fl : DateFloats) (src : List ℕ) (len : ℕ) (in_src : len ≤ length src)
    (small : len ≤ 2 ^ 31) where
  pub Reads-get_plain :
      (vt bits : ℕ)
      → Reads src len (get_plain fl src len vt) (wire_plain fl vt bits) (received_bits fl vt bits)
  unfolding get_plain wire_plain received_bits received_date
  Reads-get_plain vt bits =
      let size = value_size vt in
      Reads-if src len (vt == 7) _ _ _ _ _ _
        (λ e. rw (← from_le-le_bytes_8 (vntdate2bytary fl bits)) (
          Reads-map src len in_src small (get_le src len 8) (bytary2vntdate fl) _ _
            (Reads-get_le src len in_src small 8 (vntdate2bytary fl bits))))
        (λ e.
          Reads-test src len (ltb 0 size) (get_le src len size) _ (le_bytes size bits) _
            (λ p. rw (from_le-value vt bits) at (Reads-get_le src len in_src small size bits))
            (λ p. no_bytes vt bits (ground arith)))
    where
      no_bytes :
          (vt bits : ℕ)
          → value_size vt ≡ 0
          → Reads src len
              (λ off. ok (0, off))
              (le_bytes (value_size vt) bits)
              (bits % 2 ^ (8 * value_size vt))
      no_bytes vt bits z =
          let zero_value : bits % 2 ^ (8 * 0) ≡ 0 = omega arith in
          rw (z, zero_value) (unfold le_bytes in Reads-ok src len in_src small 0)

  -- The elements, through the same switch.
  byte_elem : (vt x : ℕ) → (vt == 17) ≡ true → x % 2 ^ 8 ≡ received_elem fl vt x
  unfolding received_elem
  byte_elem vt x c = rw c refl

  date_elem :
      (vt x : ℕ)
      → (vt == 17) ≡ false
      → (vt == 7) ≡ true
      → read_back 8 (bytary2vntdate fl) (vntdate2bytary fl x) ≡ received_elem fl vt x
  unfolding received_elem received_date
  date_elem vt x c d = rw (c, d) (ap (bytary2vntdate fl) (from_le-le_bytes_8 (vntdate2bytary fl x)))

  plain_elem :
      (vt x : ℕ)
      → (vt == 17) ≡ false
      → (vt == 7) ≡ false
      → read_back (array_elem_size vt) same x ≡ received_elem fl vt x
  unfolding received_elem
  plain_elem vt x c d = rw (c, d) (from_le-elem vt x)

  map_cong : (f g : ℕ → ℕ) (xs : List ℕ) → ((x : ℕ) → f x ≡ g x) → map f xs ≡ map g xs
  map_cong f g xs h = ap (λ k. map k xs) (fun_ext h)

  map-map : (f g : ℕ → ℕ) (xs : List ℕ) → map f (map g xs) ≡ map (λ x. f (g x)) xs
  map-map f g [] = refl
  map-map f g (x ∷ xs) = ap (◌∷◌ (f (g x))) (map-map f g xs)

  Reads-dates :
      (vt : ℕ) (xs : List ℕ)
      → (vt == 17) ≡ false
      → (vt == 7) ≡ true
      → Reads src len
          (get_elems src len (length xs * 8) 8 (bytary2vntdate fl) 0 (length xs))
          (le_bytes_all 8 (map (vntdate2bytary fl) xs))
          (map (received_elem fl vt) xs)
  Reads-dates vt xs c d =
      let sent = map (vntdate2bytary fl) xs in
      let count : length sent ≡ length xs = length-map xs (vntdate2bytary fl) in
      let back : map (read_back 8 (bytary2vntdate fl)) sent ≡ map (received_elem fl vt) xs =
        map-map (read_back 8 (bytary2vntdate fl)) (vntdate2bytary fl) xs
        ∙ map_cong _ (received_elem fl vt) xs (λ x. date_elem vt x c d) in
      subst
        (λ n.
          Reads src len (get_elems src len (n * 8) 8 (bytary2vntdate fl) 0 n) (le_bytes_all 8 sent)
            (map (received_elem fl vt) xs))
        count
        (rw back at (
          Reads-get_elems src len in_src small (length sent * 8) 8 (bytary2vntdate fl) 0 sent
            (omega arith)))

  pub Reads-get_scalars :
      (vt sz : ℕ) (xs : List ℕ)
      → elem_bytes vt ≡ some sz
      → vt ≢ 8
      → vt ≢ 12
      → Reads src len
          (get_scalars fl src len (length xs * sz) vt (length xs))
          (wire_scalars fl vt xs)
          (map (received_elem fl vt) xs)
  unfolding get_scalars wire_scalars
  Reads-get_scalars vt sz xs known n8 n12 =
      let size = array_elem_size vt in
      let values = map (received_elem fl vt) xs in
      Reads-branches (vt == 17) _ _ _ _ values
        (λ c.
          let one = elem_bytes-ui1 vt sz known c in
          let back : le_bytes_all 1 xs ≡ values =
            le_bytes_all_one xs ∙ map_cong _ (received_elem fl vt) xs (λ x. byte_elem vt x c) in
          subst (Reads src len (get_bytes src len (length xs * sz) (length xs)) (le_bytes_all 1 xs))
            back (Reads-get_bytes src len in_src small (length xs * sz) xs (rw one (omega arith))))
        (λ c.
          Reads-branches (vt == 7) _ _ _ _ values
            (λ d. rw (elem_bytes-date vt sz known d) (Reads-dates vt xs c d))
            (λ d.
              let (same_size, pos) = elem_bytes-elem vt sz known c d n8 n12 in
              let back : map (read_back size same) xs ≡ values =
                map_cong _ (received_elem fl vt) xs (λ x. plain_elem vt x c d) in
              Reads-then src len (ltb 0 size) _ _ _ _ (ground arith) (
                rw back at (
                  Reads-get_elems src len in_src small (length xs * sz) size same 0 xs
                    (rw same_size (omega arith))))))
    where
      Reads-branches :
          (c : Bool) (m k : Read (List ℕ)) (w u a : List ℕ)
          → (c ≡ true → Reads src len m w a)
          → (c ≡ false → Reads src len k u a)
          → Reads src len (λ off. if c then m off else k off) (if c then w else u) a
      Reads-branches true m k w u a h g = h refl
      Reads-branches false m k w u a h g = g refl
