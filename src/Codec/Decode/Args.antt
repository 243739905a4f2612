-- ===== src/Codec/Decode/Args.antt =====
-- bcap_bytary2vntary of bcap_core/src/bcap_common.c on the arguments of a packet, with the length
-- of each in front. It does not look at the lengths.
use denso_robot_ros.Prelude.{
  ℕ, suc, ◌+◌, ◌*◌, ◌%◌, ◌^◌, ◌≤◌, ◌≡◌, sym, ◌∙◌, List, ◌++◌, append_assoc, length, length-append,
  drop, drop-drop, drop-append_self, true, Bool, arith,
}
use denso_robot_ros.Bytes.{le_bytes, length-le_bytes}
use denso_robot_ros.Variant.{
  Variant, Variants, plain, bstr, null_array, scalar_array, bstr_array, variant_array, nil, cons,
  vt_of, count_variants,
}
use denso_robot_ros.Codec.Date.{DateFloats}
use denso_robot_ros.Codec.Wire.{wire_count, wire_value, wire_variant, wire_variants, wire_args}
use denso_robot_ros.Codec.Reader.{Read, Reads, Reads-ok}
use denso_robot_ros.Codec.Decode.{bytary2vntary, bytary2vnt}
use denso_robot_ros.Codec.Decode.Loops.{Reads-inside, next_round, this_round}
use denso_robot_ros.Codec.Decode.RoundTrip.{Reads-item, Reads-value, vt_of-lt, wire_count-lt}
use denso_robot_ros.Codec.Received.{received, received_all, AllDecodable, depth, depth_all}

module _ (fl : DateFloats) where
  mutual
    unfolding depth wire_value

    -- An array in an array takes bytes, so the layout bounds the depth.
    depth-value : (v : Variant) → depth v ≤ 1 + length (wire_value fl v)
    depth-value (plain vt bits) = omega arith
    depth-value (bstr s) = omega arith
    depth-value (null_array vt) = omega arith
    depth-value (scalar_array vt lb xs) = omega arith
    depth-value (bstr_array lb ss) = omega arith
    depth-value (variant_array lb vs) = omega (arith, depth-variants vs)

    depth-variants : (vs : Variants) → depth_all vs ≤ length (wire_variants fl vs)
    depth-variants nil = omega arith
    depth-variants (cons v vs) = omega (
      arith,
      depth-value v,
      depth-variants vs,
      length-append (le_bytes 2 (vt_of v) ++ (le_bytes 4 (wire_count v) ++ wire_value fl v))
          (wire_variants fl vs),
      length-append (le_bytes 2 (vt_of v)) (le_bytes 4 (wire_count v) ++ wire_value fl v),
      length-append (le_bytes 4 (wire_count v)) (wire_value fl v),
      length-le_bytes 2 (vt_of v),
    )

  pub depth-wire_args : (vs : Variants) → depth_all vs ≤ length (wire_args fl vs)
  unfolding depth wire_args wire_variant
  depth-wire_args nil = omega arith
  depth-wire_args (cons v vs) =
      let w = le_bytes 2 (vt_of v) ++ (le_bytes 4 (wire_count v) ++ wire_value fl v) in
      omega (
        arith,
        depth-value v,
        depth-wire_args vs,
        length-append (le_bytes 4 (length w) ++ w) (wire_args fl vs),
        length-append (le_bytes 4 (length w)) w,
        length-append (le_bytes 2 (vt_of v)) (le_bytes 4 (wire_count v) ++ wire_value fl v),
        length-append (le_bytes 4 (wire_count v)) (wire_value fl v),
        length-le_bytes 2 (vt_of v),
      )

module _ (fl : DateFloats) (malloc : ℕ → Bool) (memory : (n : ℕ) → malloc n ≡ true) (src : List ℕ)
    (len : ℕ) (in_src : len ≤ length src) (small : len ≤ 2 ^ 31) where
  -- The four bytes of a length are passed over.
  Reads-skip {ℓ} :
      {A : Type ℓ} (m : Read A) (gap w : List ℕ) (a : A)
      → length gap ≡ 4
      → Reads src len m w a
      → Reads src len (λ off. m ((off + 4) % 2 ^ 32)) (gap ++ w) a
  Reads-skip m gap w a hg h = record {
    run = λ off post e fits.
        let hl = length-append gap w in
        let start : (off + 4) % 2 ^ 32 ≡ off + length gap = omega arith in
        let behind : drop (off + length gap) src ≡ w ++ post =
          sym (drop-drop (length gap) off src)
          ∙ rw (e, append_assoc gap w post) (drop-append_self gap (w ++ post)) in
        let total : off + length gap + length w ≡ off + length (gap ++ w) = omega arith in
        rw (start, ← total) (h.run (off + length gap) post behind (omega arith));
  }

  pub Reads-args :
      (vs : Variants) (fuel room i : ℕ)
      → AllDecodable vs
      → depth_all vs ≤ fuel
      → (i + count_variants vs) * 16 ≤ room
      → Reads src len
          (bytary2vntary
            (bytary2vnt fl malloc (suc fuel) src len)
            src
            len
            room
            true
            i
            (count_variants vs))
          (wire_args fl vs)
          (received_all fl vs)
  unfolding bytary2vntary wire_args wire_variant received count_variants depth
  Reads-args nil fuel room i h d fits = Reads-ok src len in_src small nil
  Reads-args (cons v vs) fuel room i h d fits =
      let w = le_bytes 2 (vt_of v) ++ (le_bytes 4 (wire_count v) ++ wire_value fl v) in
      Reads-inside src len in_src small _ room (i * 16) 16 _ _
        (this_round i (count_variants vs) 16 room fits)
        (rw (append_assoc (le_bytes 4 (length w)) w (wire_args fl vs)) (
          Reads-skip _ (le_bytes 4 (length w)) (w ++ wire_args fl vs) _
            (length-le_bytes 4 (length w))
            (Reads-item fl malloc memory src len in_src small
              (bytary2vnt fl malloc (suc fuel) src len)
              (bytary2vntary (bytary2vnt fl malloc (suc fuel) src len) src len room true (suc i)
                (count_variants vs))
              (vt_of v) (wire_count v) (wire_value fl v) (wire_args fl vs) (received fl v)
              (received_all fl vs) (vt_of-lt v h.0) (wire_count-lt v h.0)
              (Reads-value fl malloc memory src len in_src small v fuel h.0 (omega arith))
              (Reads-args vs fuel room (suc i) h.1 (omega arith)
                (next_round i (count_variants vs) 16 room fits)))))
