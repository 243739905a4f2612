-- ===== src/Robot/Send/Layout/Parts.antt =====
-- The parts of what DensoRobot::CreateSendParameter of denso_robot_core/src/denso_robot.cpp makes.
use denso_robot_ros.Prelude.{
  suc, length-append, ℕ, ◌+◌, ◌-◌, ◌*◌, ◌<◌, ◌≡◌, refl, List, [], ◌∷◌, ◌++◌, length, replicate,
  Bool, true, false, arith,
}
use denso_robot_ros.Variant.{Variant, plain, scalar_array, variant_array}
use denso_robot_ros.Variant.Vt
use denso_robot_ros.Robot.{Robot}
use denso_robot_ros.Robot.Send.{one_if, to_variants, count_parts}

-- `xs` in a vector of `n`, with zeros behind.
abbrev pub padded : ℕ → ℕ → List ℕ → Variant
padded vt n xs = scalar_array vt 0 (xs ++ replicate (n - length xs) 0)

abbrev pub only_if : Bool → List Variant → List Variant
only_if true vs = vs
only_if false vs = []

length-only_if : (b : Bool) (vs : List Variant) → length (only_if b vs) ≡ length vs * one_if b
length-only_if true vs = omega arith
length-only_if false vs = omega arith

-- The parts behind the pose: the mini inputs, those of the user to send and to receive, and those of
-- the hand.
module _ (r : Robot) where
  abbrev pub mini_part : Bool → List Variant
  mini_part b = only_if b (plain Vt.i4 r.send_miniio ∷ [])

  abbrev pub send_part : Bool → List Variant
  send_part b = only_if b (
      plain Vt.i4 r.send_userio_offset
      ∷ plain Vt.i4 (r.send_userio_size * 8)
      ∷ padded Vt.ui1 r.send_userio_size r.send_userio
      ∷ [])

  abbrev pub recv_part : Bool → List Variant
  recv_part b =
      only_if b (plain Vt.i4 r.recv_userio_offset ∷ plain Vt.i4 (r.recv_userio_size * 8) ∷ [])

  abbrev pub hand_part : Bool → List Variant
  hand_part b = only_if b (plain Vt.i4 r.send_handio ∷ [])

  abbrev pub send_parts : Bool → Bool → Bool → Bool → List Variant
  send_parts hio mio uio ruio =
      mini_part mio ++ (send_part uio ++ (recv_part ruio ++ hand_part hio))

  -- The vector has room for the pose and for them.
  pub count_parts_sum :
      (hio mio uio ruio : Bool)
      → count_parts hio mio uio ruio
        ≡ 1
          + (length (mini_part mio)
              + (length (send_part uio) + (length (recv_part ruio) + (length (hand_part hio) + 0))))
  count_parts_sum hio mio uio ruio = omega (
    arith,
    length-only_if mio (plain Vt.i4 r.send_miniio ∷ []),
    length-only_if uio _,
    length-only_if ruio _,
    length-only_if hio (plain Vt.i4 r.send_handio ∷ []),
  )

  pub count_parts-send_parts :
      (hio mio uio ruio : Bool)
      → count_parts hio mio uio ruio ≡ suc (length (send_parts hio mio uio ruio))
  count_parts-send_parts hio mio uio ruio = omega (
    arith,
    count_parts_sum hio mio uio ruio,
    length-append (mini_part mio) (send_part uio ++ (recv_part ruio ++ hand_part hio)),
    length-append (send_part uio) (recv_part ruio ++ hand_part hio),
    length-append (recv_part ruio) (hand_part hio),
  )

-- The pose alone, or an array with the parts behind it.
abbrev pub layout : Variant → List Variant → Variant
layout pose [] = pose
layout pose (v ∷ vs) = variant_array 0 (to_variants (pose ∷ v ∷ vs))

pub layout_nil : (pose : Variant) (vs : List Variant) → length vs ≡ 0 → layout pose vs ≡ pose
layout_nil pose [] h = refl
layout_nil pose (v ∷ vs) h = absurd (omega (arith, h))

pub layout_cons :
    (pose : Variant) (vs : List Variant)
    → 0 < length vs
    → layout pose vs ≡ variant_array 0 (to_variants (pose ∷ vs))
layout_cons pose [] h = absurd (omega (arith, h))
layout_cons pose (v ∷ vs) h = refl
