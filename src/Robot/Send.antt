-- ===== src/Robot/Send.antt =====
-- DensoRobot::CreateSendParameter of denso_robot_core/src/denso_robot.cpp: what slvMove sends.
pub mod Layout
use denso_robot_ros.Prelude.{
  ℕ, zero, suc, ◌+◌, ◌-◌, ◌*◌, ◌%◌, ◌^◌, List, [], ◌∷◌, ◌++◌, Option, none, some, length, set,
  replicate, Bool, true, false, ltb, leb, ◌==◌, ◌&&◌, if◌then◌else◌,
}
use denso_robot_ros.Hresult.{Outcome, ok, failed, fault, ◌>>=◌, e_fail}
use denso_robot_ros.Variant.{
  Variant, Variants, plain, scalar_array, variant_array, nil, cons, empty,
}
use denso_robot_ros.Variant.Alloc.{safe_array_create_vector}
use denso_robot_ros.Variant.Vt
use denso_robot_ros.Robot.{Robot, has_flag, pose_type, fmt_handio, fmt_miniio, fmt_userio}

-- SLVMODE_POSE_P, SLVMODE_POSE_J and SLVMODE_POSE_T
unfoldable pub joints_of : ℕ → Outcome ℕ
joints_of type =
    if type == 1
    then ok 7
    else if type == 2
    then ok 8
    else if type == 3
    then ok 10
    else failed e_fail

-- A new vector of `n` elements that is set to zero and takes the elements of `xs`, with no test on
-- NULL and none on their number.
unfoldable pub vector_of : (ℕ → Bool) → ℕ → ℕ → List ℕ → Outcome Variant
vector_of malloc vt n xs = elim (safe_array_create_vector malloc vt n) [
  | none ↦ fault
  | some block ↦
      if ltb n (length xs)
      then fault
      else ok (scalar_array vt 0 (xs ++ replicate (n - length xs) 0))
]

-- The elements behind `pvnt`, and `offset`.
pub record Slots : Type 0 where
  pub items : List Variant
  pub offset : ℕ

unfoldable pub put : Variant → Slots → Outcome Slots
put v s =
    if ltb s.offset (length s.items)
    then ok (record { items = set s.items s.offset v; offset = s.offset + 1 })
    else fault

abbrev pub put_int : ℕ → Slots → Outcome Slots
put_int n s = put (plain Vt.i4 n) s

-- `size * UserIO::USERIO_ALIGNMENT`, in `int`
abbrev pub aligned : ℕ → Outcome ℕ
aligned size = if leb (2 ^ 31) (size * 8) then fault else ok (size * 8)

-- The parts behind the pose, each under its flag.
abbrev pub put_mini_io : Bool → Robot → Slots → Outcome Slots
put_mini_io false r s = ok s
put_mini_io true r s = put_int r.send_miniio s

abbrev pub put_send_io : (ℕ → Bool) → Bool → Robot → Slots → Outcome Slots
put_send_io malloc false r s = ok s
put_send_io malloc true r s = do
  s1 ← put_int r.send_userio_offset s
  size ← aligned r.send_userio_size
  s2 ← put_int size s1
  bytes ← vector_of malloc Vt.ui1 r.send_userio_size r.send_userio
  put bytes s2

abbrev pub put_recv_io : Bool → Robot → Slots → Outcome Slots
put_recv_io false r s = ok s
put_recv_io true r s = do
  s1 ← put_int r.recv_userio_offset s
  size ← aligned r.recv_userio_size
  put_int size s1

abbrev pub put_hand_io : Bool → Robot → Slots → Outcome Slots
put_hand_io false r s = ok s
put_hand_io true r s = put_int r.send_handio s

abbrev pub to_variants : List Variant → Variants
to_variants [] = nil
to_variants (v ∷ vs) = cons v (to_variants vs)

abbrev pub one_if : Bool → ℕ
one_if true = 1
one_if false = 0

-- `num`
abbrev pub count_parts : Bool → Bool → Bool → Bool → ℕ
count_parts hio mio uio ruio = 1 + one_if hio + one_if mio + 3 * one_if uio + 2 * one_if ruio

-- The parts in a vector of `num` elements.
unfoldable pub fill_slots :
    (ℕ → Bool) → Bool → Bool → Bool → Bool → ℕ → List ℕ → Robot → Outcome Variant
unfolding put
fill_slots malloc hio mio uio ruio joints pose r = do
  p ← vector_of malloc Vt.r8 joints pose
  s1 ← put p (record { items = replicate (count_parts hio mio uio ruio) empty; offset = 0 })
  s2 ← put_mini_io mio r s1
  s3 ← put_send_io malloc uio r s2
  s4 ← put_recv_io ruio r s3
  s5 ← put_hand_io hio r s4
  ok (variant_array 0 (to_variants s5.items))

-- From "Number of arguments" on: the pose alone, or a vector of parts.
unfoldable pub send_with :
    (ℕ → Bool) → Bool → Bool → Bool → Bool → ℕ → List ℕ → Robot → Outcome Variant
send_with malloc hio mio uio ruio joints pose r =
    if count_parts hio mio uio ruio == 1
    then vector_of malloc Vt.r8 joints pose
    else elim (safe_array_create_vector malloc Vt.variant (count_parts hio mio uio ruio)) [
      | none ↦ fault
      | some block ↦ fill_slots malloc hio mio uio ruio joints pose r
    ]

unfoldable pub create_send_parameter : (ℕ → Bool) → List ℕ → Robot → Outcome Variant
unfolding joints_of
create_send_parameter malloc pose r =
    let uio = has_flag fmt_userio r.sendfmt in
    joints_of (pose_type r.mode) >>= λ joints.
    if uio && ltb r.send_userio_size (length r.send_userio)
    then failed e_fail
    else send_with malloc (has_flag fmt_handio r.sendfmt) (has_flag fmt_miniio r.sendfmt) uio
        (has_flag fmt_userio r.recvfmt) (joints + 1) pose r
