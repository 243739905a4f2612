-- ===== src/Packet/Size.antt =====
-- bcap_calc_size_packet of bcap_core/src/bcap_common.c against the layout of packets.
use denso_robot_ros.Prelude.{
  ℕ, ◌+◌, ◌*◌, ◌%◌, ◌^◌, ◌≡◌, ap, ◌∙◌, List, [], ◌∷◌, ◌++◌, length, length-append, length-take,
  length-map, map, take, arith,
}
use denso_robot_ros.Bytes.{le_bytes, length-le_bytes, le_bytes_all, length-le_bytes_all}
use denso_robot_ros.Variant.{
  Variant, Variants, Bstr, plain, bstr, null_array, scalar_array, bstr_array, variant_array, nil,
  cons, sys_string_len, chars, vt_of, array_count, count_variants, array_elem_size, value_size,
}
use denso_robot_ros.Codec.Date.{DateFloats, vntdate2bytary}
use denso_robot_ros.Codec.Encode.Appends.{
  array_count-eq, sys_string_len-le, sys_string_len-lt, value_size-le,
}
use denso_robot_ros.Codec.Wire.{
  wire_count, wire_value, wire_variant, wire_variants, wire_args, wire_bstr, wire_bstrs, wire_plain,
  wire_scalars, IsEncodable, AllEncodable,
}
use denso_robot_ros.Packet.{Packet, size_bstrs, calc_size_variant, size_variants, calc_size_packet}
use denso_robot_ros.Packet.Wire.{wire_size, IsSendable}

length-wire_bstr : (s : Bstr) → length (wire_bstr s) ≡ 4 + 2 * sys_string_len s
unfolding wire_bstr
length-wire_bstr s = omega (
  arith,
  length-append (le_bytes 4 (2 * sys_string_len s))
      (le_bytes_all 2 (take (sys_string_len s) (chars s))),
  length-le_bytes 4 (2 * sys_string_len s),
  length-le_bytes_all 2 (take (sys_string_len s) (chars s)),
  length-take (sys_string_len s) (chars s),
  sys_string_len-le s,
)

size_bstrs-length : (ss : List Bstr) → size_bstrs (length ss) ss ≡ length (wire_bstrs ss) % 2 ^ 32
unfolding size_bstrs wire_bstrs
size_bstrs-length [] = omega arith
size_bstrs-length (s ∷ ss) =
    omega
      (arith, length-append (wire_bstr s) (wire_bstrs ss), length-wire_bstr s, size_bstrs-length ss)

length-wire_plain :
    (fl : DateFloats) (vt bits : ℕ)
    → calc_size_variant (plain vt bits) ≡ length (wire_plain fl vt bits) % 2 ^ 32
unfolding calc_size_variant wire_plain
length-wire_plain fl vt bits = ground (
  arith,
  length-le_bytes 8 (vntdate2bytary fl bits),
  length-le_bytes (value_size vt) bits,
  value_size-le vt,
)

length-wire_scalars :
    (fl : DateFloats) (vt lb : ℕ) (xs : List ℕ)
    → array_count (length xs) lb ≡ length xs
    → calc_size_variant (scalar_array vt lb xs) ≡ length (wire_scalars fl vt xs) % 2 ^ 32
unfolding calc_size_variant wire_scalars
length-wire_scalars fl vt lb xs e = ground (
  arith,
  length-le_bytes_all 1 xs,
  length-le_bytes_all 8 (map (vntdate2bytary fl) xs),
  length-map xs (vntdate2bytary fl),
  length-le_bytes_all (array_elem_size vt) xs,
)

length-wire_variant :
    (fl : DateFloats) (v : Variant)
    → length (le_bytes 2 (vt_of v) ++ (le_bytes 4 (wire_count v) ++ wire_value fl v))
      ≡ 6 + length (wire_value fl v)
length-wire_variant fl v = omega (
  arith,
  length-append (le_bytes 2 (vt_of v)) (le_bytes 4 (wire_count v) ++ wire_value fl v),
  length-append (le_bytes 4 (wire_count v)) (wire_value fl v),
  length-le_bytes 2 (vt_of v),
  length-le_bytes 4 (wire_count v),
)

module _ (fl : DateFloats) where
  mutual
    unfolding size_variants wire_value count_variants

    size-value :
        (v : Variant) → IsEncodable v → calc_size_variant v ≡ length (wire_value fl v) % 2 ^ 32
    size-value (plain vt bits) h = length-wire_plain fl vt bits
    size-value (bstr s) h = omega (arith, length-wire_bstr s, sys_string_len-lt s)
    size-value (null_array vt) h = absurd h
    size-value (scalar_array vt lb xs) h =
        length-wire_scalars fl vt lb xs (array_count-eq (length xs) lb (omega arith) h.0)
    size-value (bstr_array lb ss) h =
        ap (λ n. size_bstrs n ss) (array_count-eq (length ss) lb (omega arith) h.0)
        ∙ size_bstrs-length ss
    size-value (variant_array lb vs) h =
        ap (size_variants vs 0) (array_count-eq (count_variants vs) lb (omega arith) h.0)
        ∙ size-variants vs h.2

    size-variants :
        (vs : Variants)
        → AllEncodable vs
        → size_variants vs 0 (count_variants vs) ≡ length (wire_variants fl vs) % 2 ^ 32
    size-variants nil h = omega arith
    size-variants (cons v vs) h = omega (
      arith,
      size-value v h.0,
      size-variants vs h.1,
      length-append (le_bytes 2 (vt_of v) ++ (le_bytes 4 (wire_count v) ++ wire_value fl v))
          (wire_variants fl vs),
      length-wire_variant fl v,
    )

  size-args :
      (vs : Variants)
      → AllEncodable vs
      → size_variants vs 4 (count_variants vs) ≡ length (wire_args fl vs) % 2 ^ 32
  unfolding size_variants wire_args wire_variant count_variants
  size-args nil h = omega arith
  size-args (cons v vs) h =
      let w = le_bytes 2 (vt_of v) ++ (le_bytes 4 (wire_count v) ++ wire_value fl v) in
      omega (
        arith,
        size-value v h.0,
        size-args vs h.1,
        length-append (le_bytes 4 (length w) ++ w) (wire_args fl vs),
        length-append (le_bytes 4 (length w)) w,
        length-le_bytes 4 (length w),
        length-wire_variant fl v,
      )

  -- bcap_calc_size_packet is the number of bytes of the packet's layout, in `uint32_t`, for each
  -- packet that the coder can send.
  pub calc_size_packet-wire_size :
      (p : Packet) → IsSendable p → calc_size_packet p ≡ wire_size fl p % 2 ^ 32
  unfolding calc_size_packet wire_size
  calc_size_packet-wire_size p h = rw h.counted (omega (arith, size-args p.args h.encodable))
