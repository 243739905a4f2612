-- ===== src/Robot/Receive/Cycles.antt =====
-- What a controller in slave mode answers to a format of denso_robot_core/src/denso_robot.cpp, and what
-- the robot is to know of it, by the type of the pose and the flags of the format.
use denso_robot_ros.Prelude.{
  ℕ, ◌%◌, ◌^◌, ◌<◌, ◌≡◌, List, [], ◌∷◌, ◌++◌, length, Bool, true, false, ◌||◌, ◌==◌,
}
use denso_robot_ros.Variant.{Variant, plain, scalar_array, variant_array}
use denso_robot_ros.Variant.Vt
use denso_robot_ros.Robot.{Robot, has_flag}
use denso_robot_ros.Robot.Send.{to_variants}
use denso_robot_ros.Robot.Send.Layout.Parts.{only_if}

-- What a controller knows at the end of a cycle: the robot's pose as a position, as joints and as a
-- homogeneous matrix, and the rest.
pub record Cycle : Type 0 where
  pub time : ℕ
  pub position : List ℕ
  pub joint : List ℕ
  pub trans : List ℕ
  pub mini : ℕ
  pub user : List ℕ
  pub hand : ℕ
  pub amperes : List ℕ

pub record IsCycle (c : Cycle) : Type 0 where
  pub time_lt : c.time < 2 ^ 32
  pub mini_lt : c.mini < 2 ^ 32
  pub hand_lt : c.hand < 2 ^ 32
  pub position_long : length c.position ≡ 7
  pub joint_long : length c.joint ≡ 8
  pub trans_long : length c.trans ≡ 10
  pub amperes_long : length c.amperes ≡ 8

abbrev pub pick {ℓ} : {A : Type ℓ} → Bool → A → A → A
pick true x y = x
pick false x y = y

-- Whether a pose of a type has the position (types 1 and 4), the matrix (3 and 5) or the joints (2, 4
-- and 5).
abbrev pub with_position : ℕ → Bool
with_position t = t == 1 || t == 4

abbrev pub with_trans : ℕ → Bool
with_trans t = t == 3 || t == 5

abbrev pub with_joint : ℕ → Bool
with_joint t = t == 2 || t == 4 || t == 5

-- The numbers of a pose of a type, the joints last.
abbrev pub pose_of : ℕ → Cycle → List ℕ
pose_of t c =
    pick (with_position t) c.position []
    ++ (pick (with_trans t) c.trans [] ++ pick (with_joint t) c.joint [])

-- The parts of an answer to a format in their order: the time, the pose, the mini I/O, the user I/O,
-- the hand I/O and the current.
abbrev pub answer_parts : ℕ → Cycle → List Variant
answer_parts format c =
    only_if (has_flag 0x10 format) (plain Vt.i4 c.time ∷ [])
    ++ (scalar_array Vt.r8 0 (pose_of (format % 16) c)
        ∷ (only_if (has_flag 0x100 format) (plain Vt.i4 c.mini ∷ [])
            ++ (only_if (has_flag 0x200 format) (scalar_array Vt.ui1 0 c.user ∷ [])
                ++ (only_if (has_flag 0x20 format) (plain Vt.i4 c.hand ∷ [])
                    ++ only_if (has_flag 0x40 format) (scalar_array Vt.r8 0 c.amperes ∷ [])))))

abbrev pub answer : ℕ → Cycle → Variant
answer format c = variant_array 0 (to_variants (answer_parts format c))

-- The members after the answer: those of the format are new, the others as they were.
abbrev pub updated : ℕ → Cycle → Robot → Robot
updated format c r = record r {
  timestamp = pick (has_flag 0x10 format) c.time r.timestamp;
  position = pick (with_position (format % 16)) c.position r.position;
  trans = pick (with_trans (format % 16)) c.trans r.trans;
  joint = pick (with_joint (format % 16)) c.joint r.joint;
  recv_miniio = pick (has_flag 0x100 format) c.mini r.recv_miniio;
  recv_userio = pick (has_flag 0x200 format) c.user r.recv_userio;
  recv_handio = pick (has_flag 0x20 format) c.hand r.recv_handio;
  current = pick (has_flag 0x40 format) c.amperes r.current;
}
