-- ===== src/Robot/Send/Layout.antt =====
-- The layout of what DensoRobot::CreateSendParameter of denso_robot_core/src/denso_robot.cpp makes.
pub mod Parts
pub mod Fill
use denso_robot_ros.Prelude.{
  ap, ◌∙◌, append_assoc, append-nil, ℕ, ◌+◌, ◌-◌, ◌*◌, ◌%◌, ◌^◌, ◌≤◌, ◌<◌, ◌≡◌, refl, List, [], ◌∷◌,
  ◌++◌, length, Bool, true, false, ltb, leb, ◌==◌, ◌&&◌, Bool-cases, inl, inr, if◌then◌else◌, some,
  lt→leb, le→ltb, lt→ltb, leb→le, leb_false→lt, arith,
}
use denso_robot_ros.Hresult.{ok, fault, ◌>>=◌}
use denso_robot_ros.Variant.{Variant, plain, variant_array}
use denso_robot_ros.Variant.Alloc.{safe_array_create_vector, elem_bytes}
use denso_robot_ros.Variant.Vt
use denso_robot_ros.Robot.{Robot, has_flag, pose_type, fmt_handio, fmt_miniio, fmt_userio}
use denso_robot_ros.Robot.Settings.{IsConfigured}
use denso_robot_ros.Robot.Send.{
  put, put_mini_io, put_send_io, put_recv_io, put_hand_io, joints_of, vector_of, to_variants,
  count_parts, fill_slots, send_with, create_send_parameter,
}
use denso_robot_ros.Robot.Send.Layout.Parts.{
  padded, mini_part, send_part, recv_part, hand_part, send_parts, count_parts_sum,
  count_parts-send_parts, layout, layout_nil, layout_cons,
}
use denso_robot_ros.Robot.Send.Layout.Fill.{Fills, none-Fills, put-Fills, bind-Fills}

module _ (malloc : ℕ → Bool) (memory : (n : ℕ) → malloc n ≡ true) where
  created :
      (vt n sz : ℕ)
      → elem_bytes vt ≡ some sz
      → 0 < n
      → safe_array_create_vector malloc vt n ≡ some (n * sz % 2 ^ 32)
  unfolding safe_array_create_vector
  created vt n sz size pos =
      let some_elements : (n == 0) ≡ false = ground arith in
      rw (memory 24, some_elements, size, memory (n * sz % 2 ^ 32)) refl

  vector_of-padded :
      (vt n sz : ℕ) (xs : List ℕ)
      → elem_bytes vt ≡ some sz
      → 0 < n
      → vector_of malloc vt n xs ≡ (if ltb n (length xs) then fault else ok (padded vt n xs))
  unfolding vector_of
  vector_of-padded vt n sz xs size pos = rw (created vt n sz size pos, vector_of) refl

  r8_size : elem_bytes Vt.r8 ≡ some 8
  unfolding elem_bytes
  r8_size = refl

  ui1_size : elem_bytes Vt.ui1 ≡ some 1
  unfolding elem_bytes
  ui1_size = refl

  variant_size : elem_bytes Vt.variant ≡ some 16
  unfolding elem_bytes
  variant_size = refl

  module _ (joints : ℕ) (pose : List ℕ) (r : Robot) (pos : 0 < joints) (fits : length pose ≤ joints)
      (h : IsConfigured r) (hs : r.send_userio_size * 8 < 2 ^ 31)
      (hr : r.recv_userio_size * 8 < 2 ^ 31) where
    pose_vector : vector_of malloc Vt.r8 joints pose ≡ ok (padded Vt.r8 joints pose)
    pose_vector =
        rw (vector_of-padded Vt.r8 joints 8 pose r8_size pos, le→ltb joints (length pose) fits) refl

    byte_vector :
        vector_of malloc Vt.ui1 r.send_userio_size r.send_userio
        ≡ ok (padded Vt.ui1 r.send_userio_size r.send_userio)
    byte_vector =
        rw
          (
            vector_of-padded Vt.ui1 r.send_userio_size 1 r.send_userio ui1_size h.send_size.0,
            le→ltb r.send_userio_size (length r.send_userio) h.send_fits,
          )
          refl

    send_aligned : leb (2 ^ 31) (r.send_userio_size * 8) ≡ false
    send_aligned = lt→leb (2 ^ 31) (r.send_userio_size * 8) hs

    recv_aligned : leb (2 ^ 31) (r.recv_userio_size * 8) ≡ false
    recv_aligned = lt→leb (2 ^ 31) (r.recv_userio_size * 8) hr

    mini_io-Fills : (b : Bool) → Fills (put_mini_io b r) (mini_part r b)
    mini_io-Fills true = put-Fills (plain Vt.i4 r.send_miniio)
    mini_io-Fills false = none-Fills

    hand_io-Fills : (b : Bool) → Fills (put_hand_io b r) (hand_part r b)
    hand_io-Fills true = put-Fills (plain Vt.i4 r.send_handio)
    hand_io-Fills false = none-Fills

    recv_io-Fills : (b : Bool) → Fills (put_recv_io b r) (recv_part r b)
    recv_io-Fills true vs n =
        let offset = plain Vt.i4 r.recv_userio_offset in
        let size = plain Vt.i4 (r.recv_userio_size * 8) in
        rw recv_aligned (
          bind-Fills (put offset) (put size) (offset ∷ []) (size ∷ []) (put-Fills offset)
            (put-Fills size) vs n)
    recv_io-Fills false vs n = none-Fills vs n

    send_io-Fills : (b : Bool) → Fills (put_send_io malloc b r) (send_part r b)
    send_io-Fills true vs n =
        let offset = plain Vt.i4 r.send_userio_offset in
        let size = plain Vt.i4 (r.send_userio_size * 8) in
        let bytes = padded Vt.ui1 r.send_userio_size r.send_userio in
        rw (send_aligned, byte_vector)
          (bind-Fills (put offset) (λ s. put size s >>= put bytes) (offset ∷ []) (size ∷ bytes ∷ [])
            (put-Fills offset)
            (bind-Fills (put size) (put bytes) (size ∷ []) (bytes ∷ []) (put-Fills size)
              (put-Fills bytes))
            vs n)
    send_io-Fills false vs n = none-Fills vs n

    module _ (hio mio uio ruio : Bool) where
      abbrev pose_part : Variant
      pose_part = padded Vt.r8 joints pose

      -- The parts fill the vector exactly.
      fill_slots-parts :
          fill_slots malloc hio mio uio ruio joints pose r
          ≡ ok (variant_array 0 (to_variants (pose_part ∷ send_parts r hio mio uio ruio)))
      unfolding fill_slots
      fill_slots-parts =
          let p = pose_part in
          let a = mini_part r mio in
          let b = send_part r uio in
          let c = recv_part r ruio in
          let d = hand_part r hio in
          let joined : (((a ++ b) ++ c) ++ d) ++ [] ≡ a ++ (b ++ (c ++ d)) =
            append-nil (((a ++ b) ++ c) ++ d)
            ∙ (append_assoc (a ++ b) c d ∙ append_assoc a b (c ++ d)) in
          rw
            (
              pose_vector,
              count_parts_sum r hio mio uio ruio,
              put-Fills p [] (length a + (length b + (length c + (length d + 0)))),
              mini_io-Fills mio (p ∷ []) (length b + (length c + (length d + 0))),
              send_io-Fills uio (p ∷ a) (length c + (length d + 0)),
              recv_io-Fills ruio (p ∷ (a ++ b)) (length d + 0),
              hand_io-Fills hio (p ∷ ((a ++ b) ++ c)) 0,
            )
            (ap (λ l. ok (variant_array 0 (to_variants (p ∷ l)))) joined)

      send_with-parts :
          send_with malloc hio mio uio ruio joints pose r
          ≡ ok (layout pose_part (send_parts r hio mio uio ruio))
      unfolding send_with
      send_with-parts =
          let num = count_parts hio mio uio ruio in
          let size = count_parts-send_parts r hio mio uio ruio in
          let parts = send_parts r hio mio uio ruio in
          elim (Bool-cases (num == 1)) [
            | inl alone ↦
                rw (alone, layout_nil pose_part parts (ground (arith, size, alone))) pose_vector
            | inr many ↦
                rw
                  (
                    many,
                    created Vt.variant num 16 variant_size (omega arith),
                    layout_cons pose_part parts (ground (arith, size, many)),
                  )
                  fill_slots-parts
          ]

  -- A longer pose is written behind the end of its vector.
  send_with-overrun :
      (hio mio uio ruio : Bool) (joints : ℕ) (pose : List ℕ) (r : Robot)
      → 0 < joints
      → joints < length pose
      → send_with malloc hio mio uio ruio joints pose r ≡ fault
  unfolding send_with fill_slots
  send_with-overrun hio mio uio ruio joints pose r pos long =
      let num = count_parts hio mio uio ruio in
      let over : vector_of malloc Vt.r8 joints pose ≡ fault =
        rw (vector_of-padded Vt.r8 joints 8 pose r8_size pos, lt→ltb joints (length pose) long)
          refl in
      elim (Bool-cases (num == 1)) [
        | inl alone ↦ rw (alone, over) refl
        | inr many ↦
            rw (many, created Vt.variant num 16 variant_size (omega arith), send_with, over) refl
      ]

-- CreateSendParameter, with memory, in a slave mode and for inputs and outputs of a user that are in
-- their ranges: it gives the pose, with zeros behind it up to one more than the joints of the mode,
-- alone or in front of the parts that the formats ask for, in the order mini I/O, user I/O to send,
-- user I/O to receive, hand I/O, where every element of the vector is written; but a pose that is
-- longer is written behind the end of its vector.
pub create_send_parameter-layout :
    (malloc : ℕ → Bool) (joints : ℕ) (pose : List ℕ) (r : Robot)
    → ((n : ℕ) → malloc n ≡ true)
    → joints_of (pose_type r.mode) ≡ ok joints
    → IsConfigured r
    → r.send_userio_size * 8 < 2 ^ 31
    → r.recv_userio_size * 8 < 2 ^ 31
    → create_send_parameter malloc pose r ≡ (
        if leb (length pose) (joints + 1)
        then ok (
            layout (padded Vt.r8 (joints + 1) pose) (
              send_parts r
                (has_flag fmt_handio r.sendfmt)
                (has_flag fmt_miniio r.sendfmt)
                (has_flag fmt_userio r.sendfmt)
                (has_flag fmt_userio r.recvfmt)))
        else fault)
unfolding create_send_parameter
create_send_parameter-layout malloc joints pose r memory mode h hs hr =
    let hio = has_flag fmt_handio r.sendfmt in
    let mio = has_flag fmt_miniio r.sendfmt in
    let uio = has_flag fmt_userio r.sendfmt in
    let ruio = has_flag fmt_userio r.recvfmt in
    let fits : (uio && ltb r.send_userio_size (length r.send_userio)) ≡ false =
      rw (le→ltb r.send_userio_size (length r.send_userio) h.send_fits) (and_false uio) in
    elim (Bool-cases (leb (length pose) (joints + 1))) [
      | inl short ↦
          rw (mode, fits, short)
            (send_with-parts malloc memory (joints + 1) pose r (omega arith) (leb→le _ _ short) h hs
              hr hio mio uio ruio)
      | inr long ↦
          rw (mode, fits, long)
            (send_with-overrun malloc memory hio mio uio ruio (joints + 1) pose r (omega arith)
              (leb_false→lt _ _ long))
    ]
  where
    and_false : (b : Bool) → (b && false) ≡ false
    and_false true = refl
    and_false false = refl
