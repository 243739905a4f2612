-- ===== src/Robot/Settings.antt =====
-- What a user can set in DensoRobot, denso_robot_core/src/denso_robot.cpp.
use denso_robot_ros.Prelude.{ℕ, ◌%◌, ◌^◌, ◌≤◌, ◌<◌, ◌≡◌, List, [], ◌∷◌, length, arith}
use denso_robot_ros.Robot.{Robot, Setting, mini_io, apply, apply_all}

-- An offset of the inputs and outputs of a user, and a size.
abbrev pub IsOffset : ℕ → Type 0
IsOffset n = (128 ≤ n) × (n < 2 ^ 31) × (n % 8 ≡ 0)

abbrev pub IsSize : ℕ → Type 0
IsSize n = (0 < n) × (n < 2 ^ 31)

pub record IsConfigured (r : Robot) : Type 0 where
  pub send_fits : length r.send_userio ≤ r.send_userio_size
  pub send_size : IsSize r.send_userio_size
  pub send_offset : IsOffset r.send_userio_offset
  pub recv_size : IsSize r.recv_userio_size
  pub recv_offset : IsOffset r.recv_userio_offset
  pub time_known : r.tsfmt ≤ 1

apply-IsConfigured : (s : Setting) (r : Robot) → IsConfigured r → IsConfigured (apply s r)
unfolding apply
apply-IsConfigured (mini_io v) r h = ground arith
apply-IsConfigured s r h = ground arith

-- Whatever a user sets, and however often, the offsets of the inputs and outputs of a user are
-- multiples of 8 from 128 on, their sizes are positive, the bytes to send are no more than the size,
-- and the format of the time is one of the two, if all this held before.
pub apply_all-IsConfigured :
    (ss : List Setting) (r : Robot) → IsConfigured r → IsConfigured (apply_all ss r)
unfolding apply_all
apply_all-IsConfigured [] r h = h
apply_all-IsConfigured (s ∷ ss) r h =
    apply_all-IsConfigured ss (apply s r) (apply-IsConfigured s r h)
