-- ===== src/Codec/Encode/Lengths.antt =====
-- The arguments of a packet: bcap_vntary2bytary with the length of each argument in front, which
-- is written behind the argument, at the place that was left for it.
use denso_robot_ros.Prelude.{
  ℕ, zero, suc, [], ◌∷◌, ◌+◌, ◌-◌, ◌%◌, ◌^◌, ◌≤◌, ◌<◌, ◌≡◌, refl, ap, ◌∙◌, List, ◌++◌, append_assoc,
  length, length-append, length-take, length-drop, take, drop, drop-drop, drop-append_self, true,
  leb, lt→ltb, le→leb, lt→leb, leb→le, inl, inr, Bool-cases, arith,
}
use denso_robot_ros.Hresult.{Outcome, ok, failed, ◌>>=◌, e_invalidarg}
use denso_robot_ros.Bytes.{le_bytes, length-le_bytes}
use denso_robot_ros.Variant.{Variant, Variants, nil, cons, vt_of, count_variants}
use denso_robot_ros.Codec.Buffer.{
  Buffer, at, put_le, overwrite, overwrite-at, Written, Writes, Writes-nil, Writes-bind,
}
use denso_robot_ros.Codec.Date.{DateFloats}
use denso_robot_ros.Codec.Encode.{
  put_data, put_item, skip_length, patch_length, vnt2bytary, vntary2bytary,
}
use denso_robot_ros.Codec.Encode.Refines.{count_of-eq, Writes-put_data, Writes-value}
use denso_robot_ros.Codec.Wire.{wire_count, wire_value, wire_variant, wire_args, AllEncodable}

take-append-drop : (n : ℕ) (xs : List ℕ) → take n xs ++ drop n xs ≡ xs
take-append-drop zero xs = refl
take-append-drop (suc n) [] = refl
take-append-drop (suc n) (x ∷ xs) = ap (◌∷◌ x) (take-append-drop n xs)

-- The skip leaves the first four bytes of the rest as they are.
skip_length-at :
    (pre rest : List ℕ)
    → 4 ≤ length rest
    → length pre + 4 < 2 ^ 32
    → skip_length true (at pre rest) ≡ at (pre ++ take 4 rest) (drop 4 rest)
unfolding skip_length
skip_length-at pre rest room small =
    let off : (length pre + 4) % 2 ^ 32 ≡ length (pre ++ take 4 rest) =
      omega (arith, length-append pre (take 4 rest), length-take 4 rest) in
    rw (off, append_assoc, take-append-drop 4 rest) refl

overwrite_gap :
    (pre gap w rest u : List ℕ)
    → length gap ≡ length u
    → overwrite (((pre ++ gap) ++ w) ++ rest) (length pre) u ≡ (pre ++ (u ++ w)) ++ rest
overwrite_gap pre gap w rest u h =
    let behind : drop (length u) (gap ++ (w ++ rest)) ≡ w ++ rest =
      rw (← h) (drop-append_self gap (w ++ rest)) in
    rw (append_assoc (pre ++ gap) w rest, append_assoc pre gap (w ++ rest))
      (overwrite-at pre (gap ++ (w ++ rest)) u
        ∙ rw
            (
              behind,
              append_assoc pre u (w ++ rest),
              append_assoc pre (u ++ w) rest,
              append_assoc u w rest,
            )
            refl)

patch_length-at :
    (pre gap w rest : List ℕ)
    → length gap ≡ 4
    → length pre + length w + 4 < 2 ^ 32
    → patch_length (length pre) (at ((pre ++ gap) ++ w) rest)
      ≡ ok (at (pre ++ (le_bytes 4 (length w) ++ w)) rest)
unfolding patch_length
patch_length-at pre gap w rest hg small =
    let u = le_bytes 4 (length w) in
    let hu = length-le_bytes 4 (length w) in
    let all : length ((pre ++ gap) ++ w) ≡ length pre + 4 + length w =
      omega (arith, length-append (pre ++ gap) w, length-append pre gap) in
    let value : (length ((pre ++ gap) ++ w) + (2 ^ 32 - length pre) + (2 ^ 32 - 4)) % 2 ^ 32
        ≡ length w =
      omega arith in
    let off : length ((pre ++ gap) ++ w) ≡ length (pre ++ (u ++ w)) =
      omega (arith, length-append pre (u ++ w), length-append u w) in
    rw
      (
        le→leb (length pre + 4) (length (((pre ++ gap) ++ w) ++ rest))
            (omega (arith, length-append ((pre ++ gap) ++ w) rest)),
        value,
      )
      (cc (off, overwrite_gap pre gap w rest u (omega arith)))

module _ (len : ℕ) (small : len ≤ 2 ^ 31) where
  -- Without room for the four bytes, the next test fails.
  put_data_no_room :
      (v : Variant) (value : ℕ → Buffer → Outcome Buffer) (pre rest : List ℕ)
      → length pre ≤ len
      → len < length pre + 4
      → put_data len v value (skip_length true (at pre rest)) ≡ failed e_invalidarg
  unfolding put_data skip_length put_le
  put_data_no_room v value pre rest low over =
      rw (lt→ltb len (((length pre + 4) % 2 ^ 32 + 2) % 2 ^ 32) (omega arith))

  Writes-with_length :
      (v : Variant) (value : ℕ → Buffer → Outcome Buffer) (w : List ℕ)
      → 4 ≤ length w
      → Writes len (put_data len v value) w
      → Writes len (put_item len true v value) (le_bytes 4 (length w) ++ w)
  unfolding put_item
  Writes-with_length v value w long hw = record {
    run = λ pre rest room low. elim (Bool-cases (leb (length pre + 4) len)) [
      | inl roomy ↦
          rw (skip_length-at pre rest (ground arith) (ground arith))
            (with_room pre rest room (ground arith))
      | inr full ↦
          rw
            (
              put_data_no_room v value pre rest low (ground arith),
              lt→leb (length pre + length (le_bytes 4 (length w) ++ w)) len (
                  ground
                    (arith, length-append (le_bytes 4 (length w)) w, length-le_bytes 4 (length w))),
            )
            refl
    ];
  }
    where
      with_room :
          (pre rest : List ℕ)
          → len ≤ length pre + length rest
          → length pre + 4 ≤ len
          → (put_data len v value (at (pre ++ take 4 rest) (drop 4 rest))
              >>= patch_length (length pre))
            ≡ Written len (le_bytes 4 (length w) ++ w) pre rest
      with_room pre rest room roomy =
          let g = take 4 rest in
          let u = le_bytes 4 (length w) in
          let hu = length-le_bytes 4 (length w) in
          let hg : length g ≡ 4 = omega (arith, length-take 4 rest) in
          let hp : length (pre ++ g) ≡ length pre + 4 = omega (arith, length-append pre g) in
          let hd = length-drop 4 rest in
          let huw = length-append u w in
          rw (hw.run (pre ++ g) (drop 4 rest) (omega arith) (omega arith))
            (elim (Bool-cases (leb (length (pre ++ g) + length w) len)) [
              | inl fits ↦
                  let back : drop (length w) (drop 4 rest) ≡ drop (length (u ++ w)) rest =
                    drop-drop (length w) 4 rest ∙ ap (λ k. drop k rest) (omega arith) in
                  rw
                    (
                      fits,
                      le→leb (length pre + length (u ++ w)) len (omega (arith, leb→le _ _ fits)),
                      ← back,
                    )
                    (patch_length-at pre g w (drop (length w) (drop 4 rest)) hg
                      (omega (arith, leb→le _ _ fits)))
              | inr over ↦ rw (over, lt→leb (length pre + length (u ++ w)) len (ground arith)) refl
            ])

  -- A loop over the arguments.
  pub Writes-args :
      (fl : DateFloats) (vs : Variants)
      → AllEncodable vs
      → Writes len (vntary2bytary fl len vs true (count_variants vs)) (wire_args fl vs)
  unfolding vntary2bytary wire_args wire_variant count_variants
  Writes-args fl nil h = Writes-nil len
  Writes-args fl (cons v vs) h =
      let w = le_bytes 2 (vt_of v) ++ (le_bytes 4 (wire_count v) ++ wire_value fl v) in
      Writes-bind len (put_item len true v (vnt2bytary fl len v))
        (vntary2bytary fl len vs true (count_variants vs)) (le_bytes 4 (length w) ++ w) _
        (Writes-with_length v (vnt2bytary fl len v) w
          (omega (
            arith,
            length-append (le_bytes 2 (vt_of v)) (le_bytes 4 (wire_count v) ++ wire_value fl v),
            length-append (le_bytes 4 (wire_count v)) (wire_value fl v),
            length-le_bytes 2 (vt_of v),
            length-le_bytes 4 (wire_count v),
          ))
          (Writes-put_data len small v (vnt2bytary fl len v) (wire_count v) (wire_value fl v)
            (count_of-eq v h.0) (Writes-value len small fl v h.0)))
        (Writes-args fl vs h.1)
