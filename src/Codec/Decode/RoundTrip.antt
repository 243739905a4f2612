-- ===== src/Codec/Decode/RoundTrip.antt =====
-- The decoder of bcap_core/src/bcap_common.c, on the bytes of the coder.
use denso_robot_ros.Prelude.{
  ℕ, zero, suc, ◌+◌, ◌*◌, ◌^◌, ◌≤◌, ◌<◌, ◌≡◌, ◌≢◌, refl, subst, List, drop, ◌++◌, append_assoc,
  length, some, Bool, true, false, ◌==◌, arith,
}
use denso_robot_ros.Hresult.{ok, ◌>>=◌}
use denso_robot_ros.Bytes.{le_bytes, from_le, from_le-le_bytes_2, from_le-le_bytes_4}
use denso_robot_ros.Variant.{
  Variant, Variants, Bstr, plain, bstr, null_array, scalar_array, bstr_array, variant_array, nil,
  cons, vt_of, has_array, without_array, count_variants,
}
use denso_robot_ros.Variant.Alloc.{elem_bytes, safe_array_create_vector}
use denso_robot_ros.Codec.Date.{DateFloats}
use denso_robot_ros.Codec.Wire.{
  wire_count, wire_value, wire_variants, wire_bstr, wire_plain, max_elements,
}
use denso_robot_ros.Codec.Reader.{
  Read, get_le, Reads, Reads-get_le, Reads-ok, Reads-bind, Reads-then, Reads-else,
}
use denso_robot_ros.Codec.Decode.{
  get_bstr, get_bstrs, get_scalars, get_plain, get_array, get_value, bytary2vntary, bytary2vnt,
}
use denso_robot_ros.Codec.Decode.Loops.{
  Reads-map, Reads-inside, Reads-or_fail, Reads-get_bstr, Reads-get_bstrs, next_round, this_round,
}
use denso_robot_ros.Codec.Decode.Scalars.{
  elem_bytes-lt, create_vector-some, Reads-get_plain, Reads-get_scalars,
}
use denso_robot_ros.Codec.Received.{
  received, received_all, received_bstr, received_bits, IsShort, IsDecodable, AllDecodable, depth,
  depth_all,
}

-- The flag of an array type, and the type of its elements.
array_flag : (vt : ℕ) → vt < 2 ^ 13 → has_array (0x2000 + vt) ≡ true
array_flag vt h = ground arith

elem_of_array : (vt : ℕ) → without_array (0x2000 + vt) ≡ vt
elem_of_array vt = omega arith

string_elem : elem_bytes 8 ≡ some 8
unfolding elem_bytes
string_elem = refl

variant_elem : elem_bytes 12 ≡ some 16
unfolding elem_bytes
variant_elem = refl

pub vt_of-lt : (v : Variant) → IsDecodable v → vt_of v < 2 ^ 16
unfolding vt_of
vt_of-lt (plain vt bits) h = h.0
vt_of-lt (bstr s) h = omega arith
vt_of-lt (null_array vt) h = absurd h
vt_of-lt (scalar_array vt lb xs) h = omega (arith, elem_bytes-lt vt (h.2.0) (h.2.1))
vt_of-lt (bstr_array lb ss) h = omega arith
vt_of-lt (variant_array lb vs) h = omega arith

pub wire_count-lt : (v : Variant) → IsDecodable v → wire_count v < 2 ^ 32
unfolding wire_count
wire_count-lt (plain vt bits) h = omega arith
wire_count-lt (bstr s) h = omega arith
wire_count-lt (null_array vt) h = absurd h
wire_count-lt (scalar_array vt lb xs) h = omega arith
wire_count-lt (bstr_array lb ss) h = omega arith
wire_count-lt (variant_array lb vs) h = omega arith

module _ (fl : DateFloats) (malloc : ℕ → Bool) (memory : (n : ℕ) → malloc n ≡ true) (src : List ℕ)
    (len : ℕ) (in_src : len ≤ length src) (small : len ≤ 2 ^ 31) where
  -- An array: the allocation succeeds, and its elements are read.
  Reads-array :
      (nested : ℕ → ℕ → Read Variant) (elem sz n : ℕ) (w : List ℕ) (v : Variant)
      → elem_bytes elem ≡ some sz
      → n < max_elements
      → Reads src len (get_array fl malloc nested src len elem n (n * sz)) w v
      → Reads src len (get_value fl malloc nested src len (0x2000 + elem) n) w v
  unfolding get_value
  Reads-array nested elem sz n w v known small_n h =
      Reads-then src len (has_array (0x2000 + elem)) _ _ w v
        (array_flag elem (omega (arith, elem_bytes-lt elem sz known)))
        (rw (elem_of_array elem) (
          Reads-or_fail src len in_src small (λ cap. get_array fl malloc nested src len elem n cap)
            _ (safe_array_create_vector malloc elem n) (n * sz) w v
            (create_vector-some malloc elem n sz memory known small_n) h))

  Reads-plain :
      (nested : ℕ → ℕ → Read Variant) (vt bits : ℕ)
      → has_array vt ≡ false
      → vt ≢ 8
      → Reads src len
          (get_value fl malloc nested src len vt 1)
          (wire_plain fl vt bits)
          (plain vt (received_bits fl vt bits))
  unfolding get_value
  Reads-plain nested vt bits single n8 = Reads-else src len (has_array vt) _ _ _ _ single (
      Reads-else src len (vt == 8) _ _ _ _ (ground arith) (
        Reads-map src len in_src small (get_plain fl src len vt) (plain vt) _ _
          (Reads-get_plain fl src len in_src small vt bits)))

  Reads-bstr :
      (nested : ℕ → ℕ → Read Variant) (s : Bstr)
      → IsShort s
      → Reads src len
          (get_value fl malloc nested src len 8 1)
          (wire_bstr s)
          (bstr (received_bstr s))
  unfolding get_value
  Reads-bstr nested s h =
      Reads-map src len in_src small (get_bstr malloc src len) bstr _ _
        (Reads-get_bstr src len in_src small malloc memory s h)

  -- One round of the loop over VARIANTs, after the test on the block.
  pub Reads-item :
      (dec : ℕ → ℕ → Read Variant) (rest : Read Variants) (vt n : ℕ) (w u : List ℕ) (v : Variant)
      (vs : Variants)
      → vt < 2 ^ 16
      → n < 2 ^ 32
      → Reads src len (dec vt n) w v
      → Reads src len rest u vs
      → Reads src len
          (λ off. get_le src len 2 off >>= λ r. get_le src len 4 r.1 >>= λ s.
            dec r.0 s.0 s.1 >>= λ t. rest t.1 >>= λ z. ok (cons t.0 z.0, z.1))
          ((le_bytes 2 vt ++ (le_bytes 4 n ++ w)) ++ u)
          (cons v vs)
  Reads-item dec rest vt n w u v vs hvt hn hv hvs =
      let evt : from_le (le_bytes 2 vt) ≡ vt = omega (arith, from_le-le_bytes_2 vt) in
      let en : from_le (le_bytes 4 n) ≡ n = omega (arith, from_le-le_bytes_4 n) in
      rw (append_assoc (le_bytes 2 vt) (le_bytes 4 n ++ w) u, append_assoc (le_bytes 4 n) w u)
        (Reads-bind src len in_src small (get_le src len 2) _ (le_bytes 2 vt)
          (le_bytes 4 n ++ (w ++ u)) vt _
          (subst (Reads src len (get_le src len 2) (le_bytes 2 vt)) evt
            (Reads-get_le src len in_src small 2 vt))
          (Reads-bind src len in_src small (get_le src len 4) _ (le_bytes 4 n) (w ++ u) n _
            (subst (Reads src len (get_le src len 4) (le_bytes 4 n)) en
              (Reads-get_le src len in_src small 4 n))
            (Reads-bind src len in_src small (dec vt n) _ w u v _ hv
              (Reads-map src len in_src small rest (λ zs. cons v zs) u vs hvs))))

  mutual
    unfolding bytary2vnt get_array wire_value wire_count vt_of received count_variants depth
        bytary2vntary

    pub Reads-value :
        (v : Variant) (fuel : ℕ)
        → IsDecodable v
        → depth v ≤ fuel
        → Reads src len
            (bytary2vnt fl malloc (suc fuel) src len (vt_of v) (wire_count v))
            (wire_value fl v)
            (received fl v)
    Reads-value (plain vt bits) fuel h d =
        Reads-plain (bytary2vnt fl malloc fuel src len) vt bits h.1 h.2
    Reads-value (bstr s) fuel h d = Reads-bstr (bytary2vnt fl malloc fuel src len) s h
    Reads-value (null_array vt) fuel h d = absurd h
    Reads-value (scalar_array vt lb xs) fuel h d =
        let (n8, n12, (sz, known), small_n) = h in
        Reads-array (bytary2vnt fl malloc fuel src len) vt sz (length xs) _ _ known small_n (
          Reads-else src len (vt == 8) _ _ _ _ (ground arith) (
            Reads-else src len (vt == 12) _ _ _ _ (ground arith) (
              Reads-map src len in_src small
                (get_scalars fl src len (length xs * sz) vt (length xs)) (scalar_array vt 1) _ _
                (Reads-get_scalars fl src len in_src small vt sz xs known n8 n12))))
    Reads-value (bstr_array lb ss) fuel h d =
        Reads-array (bytary2vnt fl malloc fuel src len) 8 8 (length ss) _ _ string_elem h.1 (
          Reads-map src len in_src small (get_bstrs malloc src len (length ss * 8) 0 (length ss))
            (bstr_array 1) _ _
            (Reads-get_bstrs src len in_src small malloc memory (length ss * 8) 0 ss h.0
              (omega arith)))
    Reads-value (variant_array lb vs) zero h d = absurd (omega arith)
    Reads-value (variant_array lb vs) (suc fuel) h d =
        let n = count_variants vs in
        Reads-array (bytary2vnt fl malloc (suc fuel) src len) 12 16 n _ _ variant_elem h.0 (
          Reads-map src len in_src small
            (bytary2vntary (bytary2vnt fl malloc (suc fuel) src len) src len (n * 16) false 0 n)
            (variant_array 1) _ _
            (Reads-variants vs fuel (n * 16) 0 h.1 (omega arith) (omega arith)))

    Reads-variants :
        (vs : Variants) (fuel room_for i : ℕ)
        → AllDecodable vs
        → depth_all vs ≤ fuel
        → (i + count_variants vs) * 16 ≤ room_for
        → Reads src len
            (bytary2vntary
              (bytary2vnt fl malloc (suc fuel) src len)
              src
              len
              room_for
              false
              i
              (count_variants vs))
            (wire_variants fl vs)
            (received_all fl vs)
    Reads-variants nil fuel room_for i h d room = Reads-ok src len in_src small nil
    Reads-variants (cons v vs) fuel room_for i h d room =
        Reads-inside src len in_src small _ room_for (i * 16) 16 _ _
          (this_round i (count_variants vs) 16 room_for room)
          (Reads-item (bytary2vnt fl malloc (suc fuel) src len)
            (bytary2vntary (bytary2vnt fl malloc (suc fuel) src len) src len room_for false (suc i)
              (count_variants vs))
            (vt_of v) (wire_count v) (wire_value fl v) (wire_variants fl vs) (received fl v)
            (received_all fl vs) (vt_of-lt v h.0) (wire_count-lt v h.0)
            (Reads-value v fuel h.0 (omega arith))
            (Reads-variants vs fuel room_for (suc i) h.1 (omega arith)
              (next_round i (count_variants vs) 16 room_for room)))

  -- Where the bytes of `src` from `*offset` on are the data of a VARIANT that the decoder accepts,
  -- bcap_bytary2vnt returns the VARIANT as it arrives and moves `*offset` behind the data, if every
  -- malloc succeeds, the source has at most 2 ^ 31 bytes and the fuel is above the depth of arrays.
  pub bytary2vnt-wire :
      (v : Variant) (fuel off : ℕ) (post : List ℕ)
      → IsDecodable v
      → depth v ≤ fuel
      → drop off src ≡ wire_value fl v ++ post
      → off + length (wire_value fl v) ≤ len
      → bytary2vnt fl malloc (suc fuel) src len (vt_of v) (wire_count v) off
        ≡ ok (received fl v, off + length (wire_value fl v))
  bytary2vnt-wire v fuel off post h d behind fits =
      (Reads-value v fuel h d).run off post behind fits
