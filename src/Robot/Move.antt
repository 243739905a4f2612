-- ===== src/Robot/Move.antt =====
-- DensoRobot::ExecSlaveMove of denso_robot_core/src/denso_robot.cpp: one cycle of the slave mode. The
-- service that sends a command and gives back its code and result is a parameter.
pub mod Cycle
use denso_robot_ros.Prelude.{ℕ, List, [], ◌∷◌, Bool, if◌then◌else◌}
use denso_robot_ros.Hresult.{Hresult, Outcome, ok, failed, fault, out_of_fuel, ◌>>=◌, is_failed}
use denso_robot_ros.Variant.{Variant, Variants}
use denso_robot_ros.Robot.{Robot}
use denso_robot_ros.Robot.Mode.{command, id_robot_execute}
use denso_robot_ros.Robot.Send.{create_send_parameter}
use denso_robot_ros.Robot.Receive.{parse_recv_parameter}

abbrev pub slave_move_name : List ℕ
slave_move_name = b's' ∷ b'l' ∷ b'v' ∷ b'M' ∷ b'o' ∷ b'v' ∷ b'e' ∷ []

-- The code, the members, `joint` and what is behind the service.
abbrev pub Moved : Type 0 → Type 0
Moved W = Outcome (Hresult × Robot × List ℕ × W)

module _ {W : Type 0} (malloc : ℕ → Bool) (exec : ℕ → Variants → W → Hresult × Variant × W)
    (handle : ℕ) where
  -- What follows the command: the result is taken apart where the code is one of success.
  unfoldable pub finish_move : Robot → List ℕ → Hresult × Variant × W → Moved W
  finish_move r joint (hr, ret, w) =
      if is_failed hr
      then ok (hr, r, joint, w)
      else parse_recv_parameter ret r >>= λ res.
          ok (if is_failed res.0 then res.0 else hr, res.1, res.1.joint, w)

  -- Nothing is sent where the argument cannot be made.
  unfoldable pub exec_slave_move : List ℕ → List ℕ → Robot → W → Moved W
  exec_slave_move pose joint r w = elim (create_send_parameter malloc pose r) [
    | ok send ↦ finish_move r joint (exec id_robot_execute (command handle slave_move_name send) w)
    | failed hr ↦ ok (hr, r, joint, w)
    | fault ↦ fault
    | out_of_fuel ↦ out_of_fuel
  ]
