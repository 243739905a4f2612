-- ===== src/Robot/Receive/Answer.antt =====
-- The answers of a controller in slave mode, as DensoRobot::ParseRecvParameter of
-- denso_robot_core/src/denso_robot.cpp takes them.
use denso_robot_ros.Prelude.{
  ℕ, ◌+◌, ◌%◌, ◌^◌, ◌<◌, ◌≤◌, ◌≡◌, refl, ap, sym, subst, zero, suc, length-append, List, [], ◌∷◌,
  ◌++◌, length, Bool, true, false, ◌⊎◌, inl, inr, ==_iff, arith,
}
use denso_robot_ros.Hresult.{ok, s_ok}
use denso_robot_ros.Variant.{Variant, plain, scalar_array, nil, count_variants}
use denso_robot_ros.Variant.Vt
use denso_robot_ros.Robot.{Robot, has_flag}
use denso_robot_ros.Robot.Send.{to_variants, one_if}
use denso_robot_ros.Robot.Send.Layout.Parts.{only_if}
use denso_robot_ros.Robot.Receive.{
  PoseKind, position_only, joint_only, trans_only, position_joint, trans_joint, first_joints,
  second_joints, flags_of, parse_recv_parameter, read_answer, read_parts, store_pose, next,
  num_parts, read_time, read_pose, read_mini_io, read_user_io, read_hand_io, read_current,
}
use denso_robot_ros.Robot.Receive.Cycles.{
  Cycle, IsCycle, pick, with_position, with_trans, with_joint, pose_of, answer_parts, answer,
  updated,
}
use denso_robot_ros.Robot.Receive.Poses.{
  Places, position-Places, joint-Places, trans-Places, position_joint-Places, trans_joint-Places,
}

count-to_variants : (vs : List Variant) → count_variants (to_variants vs) ≡ length vs
unfolding count_variants
count-to_variants [] = refl
count-to_variants (v ∷ vs) = ap suc (count-to_variants vs)

length-only_if : (b : Bool) (v : Variant) → length (only_if b (v ∷ [])) ≡ one_if b
length-only_if true v = refl
length-only_if false v = refl

-- Each part takes what the answer has for it.
module _ (rest : List Variant) (r : Robot) where
  read_time-answer :
      (b : Bool) (n : ℕ)
      → n < 2 ^ 32
      → read_time b (to_variants (only_if b (plain Vt.i4 n ∷ []) ++ rest)) r
        ≡ next (to_variants rest) (record r { timestamp = pick b n r.timestamp })
  unfolding read_time
  read_time-answer true n h = let e : n % 2 ^ 32 ≡ n = omega (arith, h) in rw e refl
  read_time-answer false n h = refl

  read_mini_io-answer :
      (b : Bool) (n : ℕ)
      → n < 2 ^ 32
      → read_mini_io b (to_variants (only_if b (plain Vt.i4 n ∷ []) ++ rest)) r
        ≡ next (to_variants rest) (record r { recv_miniio = pick b n r.recv_miniio })
  unfolding read_mini_io
  read_mini_io-answer true n h = let e : n % 2 ^ 32 ≡ n = omega (arith, h) in rw e refl
  read_mini_io-answer false n h = refl

  read_hand_io-answer :
      (b : Bool) (n : ℕ)
      → n < 2 ^ 32
      → read_hand_io b (to_variants (only_if b (plain Vt.i4 n ∷ []) ++ rest)) r
        ≡ next (to_variants rest) (record r { recv_handio = pick b n r.recv_handio })
  unfolding read_hand_io
  read_hand_io-answer true n h = let e : n % 2 ^ 32 ≡ n = omega (arith, h) in rw e refl
  read_hand_io-answer false n h = refl

  read_user_io-answer :
      (b : Bool) (xs : List ℕ)
      → read_user_io b (to_variants (only_if b (scalar_array Vt.ui1 0 xs ∷ []) ++ rest)) r
        ≡ next (to_variants rest) (record r { recv_userio = pick b xs r.recv_userio })
  unfolding read_user_io
  read_user_io-answer true xs = refl
  read_user_io-answer false xs = refl

  read_pose-answer :
      (kind : PoseKind) (xs : List ℕ)
      → length xs ≡ first_joints kind + second_joints kind
      → read_pose kind (to_variants (scalar_array Vt.r8 0 xs ∷ rest)) r
        ≡ next (to_variants rest) (store_pose kind xs r)
  unfolding read_pose
  read_pose-answer kind xs h =
      let e = (==_iff (length xs) (first_joints kind + second_joints kind)).1 h in rw e refl

read_current-answer :
    (b : Bool) (xs : List ℕ) (r : Robot)
    → length xs ≡ 8
    → read_current b (to_variants (only_if b (scalar_array Vt.r8 0 xs ∷ []))) r
      ≡ next nil (record r { current = pick b xs r.current })
unfolding read_current
read_current-answer true xs r h = let e = (==_iff (length xs) 8).1 h in rw e refl
read_current-answer false xs r h = refl

module _ (format : ℕ) (kind : PoseKind) (places : Places (format % 16) kind) (c : Cycle)
    (h : IsCycle c) where
  read_parts-answer :
      (r : Robot)
      → read_parts kind (flags_of format) (to_variants (answer_parts format c)) r
        ≡ next nil (updated format c r)
  unfolding read_parts
  read_parts-answer r =
      let t = format % 16 in
      let r1 = record r { timestamp = pick (has_flag 0x10 format) c.time r.timestamp } in
      let r2 = record r1 {
        position = pick (with_position t) c.position r.position;
        trans = pick (with_trans t) c.trans r.trans;
        joint = pick (with_joint t) c.joint r.joint;
      } in
      let r3 = record r2 { recv_miniio = pick (has_flag 0x100 format) c.mini r.recv_miniio } in
      let r4 = record r3 { recv_userio = pick (has_flag 0x200 format) c.user r.recv_userio } in
      let r5 = record r4 { recv_handio = pick (has_flag 0x20 format) c.hand r.recv_handio } in
      rw
        (
          read_time-answer _ r (has_flag 0x10 format) c.time h.time_lt,
          read_pose-answer _ r1 kind (pose_of t c) (places.long c h),
          places.stores c r1 h,
          read_mini_io-answer _ r2 (has_flag 0x100 format) c.mini h.mini_lt,
          read_user_io-answer _ r3 (has_flag 0x200 format) c.user,
          read_hand_io-answer _ r4 (has_flag 0x20 format) c.hand h.hand_lt,
          read_current-answer (has_flag 0x40 format) c.amperes r5 h.amperes_long,
        )
        refl

  -- It has as many parts as the format asks for.
  count-answer : count_variants (to_variants (answer_parts format c)) ≡ num_parts (flags_of format)
  count-answer =
      let ts = only_if (has_flag 0x10 format) (plain Vt.i4 c.time ∷ []) in
      let mio = only_if (has_flag 0x100 format) (plain Vt.i4 c.mini ∷ []) in
      let uio = only_if (has_flag 0x200 format) (scalar_array Vt.ui1 0 c.user ∷ []) in
      let hio = only_if (has_flag 0x20 format) (plain Vt.i4 c.hand ∷ []) in
      let crt = only_if (has_flag 0x40 format) (scalar_array Vt.r8 0 c.amperes ∷ []) in
      let pose = scalar_array Vt.r8 0 (pose_of (format % 16) c) in
      omega (
        arith,
        count-to_variants (answer_parts format c),
        length-append ts (pose ∷ (mio ++ (uio ++ (hio ++ crt)))),
        length-append mio (uio ++ (hio ++ crt)),
        length-append uio (hio ++ crt),
        length-append hio crt,
        length-only_if (has_flag 0x10 format) (plain Vt.i4 c.time),
        length-only_if (has_flag 0x100 format) (plain Vt.i4 c.mini),
        length-only_if (has_flag 0x200 format) (scalar_array Vt.ui1 0 c.user),
        length-only_if (has_flag 0x20 format) (plain Vt.i4 c.hand),
        length-only_if (has_flag 0x40 format) (scalar_array Vt.r8 0 c.amperes),
      )

  read_answer-answer :
      (r : Robot)
      → read_answer kind (flags_of format) (answer format c) r ≡ ok (s_ok, updated format c r)
  unfolding read_answer
  read_answer-answer r =
      let whole =
        (==_iff (count_variants (to_variants (answer_parts format c)))
            (num_parts (flags_of format))).1
          count-answer in
      rw (whole, read_parts-answer r) refl

-- ParseRecvParameter takes the answer of a controller apart: where the format has one of the five
-- types of a pose, and the answer the parts of the format in their order, the code is S_OK, `position`,
-- `joint` and `trans` are those of the controller as far as the type of the pose has them, the
-- members of the other parts of the format have the values of the answer, and all else is as it was.
pub parse_recv_parameter-answer :
    (c : Cycle) (r : Robot)
    → 1 ≤ r.recvfmt % 16
    → r.recvfmt % 16 ≤ 5
    → IsCycle c
    → parse_recv_parameter (answer r.recvfmt c) r ≡ ok (s_ok, updated r.recvfmt c r)
unfolding parse_recv_parameter
parse_recv_parameter-answer c r low high h = elim (five_cases (r.recvfmt % 16) low high) [
  | inl e ↦ of_type 1 position_only e position-Places
  | inr (inl e) ↦ of_type 2 joint_only e joint-Places
  | inr (inr (inl e)) ↦ of_type 3 trans_only e trans-Places
  | inr (inr (inr (inl e))) ↦ of_type 4 position_joint e position_joint-Places
  | inr (inr (inr (inr e))) ↦ of_type 5 trans_joint e trans_joint-Places
]
  where
    of_type :
        (t : ℕ) (kind : PoseKind)
        → r.recvfmt % 16 ≡ t
        → Places t kind
        → parse_recv_parameter (answer r.recvfmt c) r ≡ ok (s_ok, updated r.recvfmt c r)
    of_type t kind e places =
        let here = subst (λ k. Places k kind) (sym e) places in
        rw (here.known, parse_recv_parameter) (read_answer-answer r.recvfmt kind here c h r)

    five_cases : (t : ℕ) → 1 ≤ t → t ≤ 5 → (t ≡ 1) ⊎ ((t ≡ 2) ⊎ ((t ≡ 3) ⊎ ((t ≡ 4) ⊎ (t ≡ 5))))
    five_cases zero l h = absurd (omega (arith, l))
    five_cases (suc zero) l h = inl refl
    five_cases (suc (suc zero)) l h = inr (inl refl)
    five_cases (suc (suc (suc zero))) l h = inr (inr (inl refl))
    five_cases (suc (suc (suc (suc zero)))) l h = inr (inr (inr (inl refl)))
    five_cases (suc (suc (suc (suc (suc zero))))) l h = inr (inr (inr (inr refl)))
    five_cases (suc (suc (suc (suc (suc (suc n)))))) l h = absurd (omega (arith, h))
