-- ===== src/Robot/Mode.antt =====
-- DensoRobot::ChangeMode with the commands that it sends, denso_robot_core/src/denso_robot.cpp, and
-- DensoRobotCore::ChangeMode of denso_robot_core/src/denso_robot_core.cpp. The service that sends
-- the commands is a parameter.
pub mod Restores
use denso_robot_ros.Prelude.{
  ℕ, List, [], ◌∷◌, some, Bool, true, false, not, ◌==◌, ◌&&◌, ◌||◌, if◌then◌else◌,
}
use denso_robot_ros.Hresult.{Hresult, is_failed, s_ok, e_fail}
use denso_robot_ros.Variant.{Variant, Variants, plain, bstr, scalar_array, nil, cons, empty}
use denso_robot_ros.Variant.Vt
use denso_robot_ros.Robot.{Robot, has_flag}

-- BCAPService and the services of the node: ExecFunction with its function id, the timeout and the
-- retry count, and StopService and StartService of the controller.
pub record Service (W : Type 0) : Type 0 where
  pub exec : ℕ → Variants → W → Hresult × W
  pub get_timeout : W → ℕ
  pub put_timeout : ℕ → W → W
  pub get_retry : W → ℕ
  pub put_retry : ℕ → W → W
  pub stop : W → W
  pub start : W → W

abbrev pub id_robot_execute : ℕ
id_robot_execute = 0x40

abbrev pub take_arm_name : List ℕ
take_arm_name = b'T' ∷ b'a' ∷ b'k' ∷ b'e' ∷ b'A' ∷ b'r' ∷ b'm' ∷ []

abbrev pub give_arm_name : List ℕ
give_arm_name = b'G' ∷ b'i' ∷ b'v' ∷ b'e' ∷ b'A' ∷ b'r' ∷ b'm' ∷ []

abbrev pub send_format_name : List ℕ
send_format_name =
    b's' ∷ b'l' ∷ b'v' ∷ b'S' ∷ b'e' ∷ b'n' ∷ b'd' ∷ b'F' ∷ b'o' ∷ b'r' ∷ b'm' ∷ b'a' ∷ b't' ∷ []

abbrev pub recv_format_name : List ℕ
recv_format_name =
    b's' ∷ b'l' ∷ b'v' ∷ b'R' ∷ b'e' ∷ b'c' ∷ b'v' ∷ b'F' ∷ b'o' ∷ b'r' ∷ b'm' ∷ b'a' ∷ b't' ∷ []

abbrev pub change_mode_name : List ℕ
change_mode_name =
    b's' ∷ b'l' ∷ b'v' ∷ b'C' ∷ b'h' ∷ b'a' ∷ b'n' ∷ b'g' ∷ b'e' ∷ b'M' ∷ b'o' ∷ b'd' ∷ b'e' ∷ []

-- The three arguments of a command: the handle of the robot, the name and what goes with it.
abbrev pub command : ℕ → List ℕ → Variant → Variants
command handle name arg = cons (plain Vt.ui4 handle) (cons (bstr (some name)) (cons arg nil))

module _ {W : Type 0} (service : Service W) (handle : ℕ) where
  unfoldable pub exec_take_arm : Robot → W → Hresult × W
  exec_take_arm r w =
      service.exec id_robot_execute
        (command handle take_arm_name (scalar_array Vt.i4 0 (r.arm_group ∷ 1 ∷ []))) w

  unfoldable pub exec_give_arm : W → Hresult × W
  exec_give_arm w = service.exec id_robot_execute (command handle give_arm_name empty) w

  abbrev pub slave_argument : ℕ → ℕ → Variant
  slave_argument format option =
      if option == 0 then plain Vt.i4 format else scalar_array Vt.i4 0 (format ∷ option ∷ [])

  unfoldable pub exec_slave_mode : List ℕ → ℕ → ℕ → W → Hresult × W
  exec_slave_mode name format option w =
      service.exec id_robot_execute (command handle name (slave_argument format option)) w

  -- The settings of a slave mode, which are remembered first.
  unfoldable pub set_slave : ℕ → Robot → W → Hresult × Robot × W
  set_slave mode r w =
      let timeout = if has_flag 0x200 mode then 16 else 8 in
      (
        s_ok,
        record r { mem_timeout = service.get_timeout w; mem_retry = service.get_retry w },
        service.put_retry 3 (service.put_timeout timeout w),
      )

  -- A command, and what follows where it does not fail.
  abbrev pub if_done : Hresult × W → Robot → (W → Hresult × Robot × W) → Hresult × Robot × W
  if_done (hr, w) r k = if is_failed hr then (hr, r, w) else k w

  -- The commands in front of a slave mode, from the last one on.
  unfoldable pub enter_mode : ℕ → Robot → W → Hresult × Robot × W
  enter_mode mode r w = if_done (exec_slave_mode change_mode_name mode 0 w) r (set_slave mode r)

  unfoldable pub enter_with_arm : ℕ → Robot → W → Hresult × Robot × W
  enter_with_arm mode r w = if_done (exec_take_arm r w) r (enter_mode mode r)

  unfoldable pub enter_receiving : ℕ → Robot → W → Hresult × Robot × W
  enter_receiving mode r w =
      if_done (exec_slave_mode recv_format_name r.recvfmt r.tsfmt w) r (enter_with_arm mode r)

  unfoldable pub enter_slave : ℕ → Robot → W → Hresult × Robot × W
  enter_slave mode r w =
      if_done (exec_slave_mode send_format_name r.sendfmt 0 w) r (enter_receiving mode r)

  unfoldable pub leave_slave : ℕ → Robot → W → Hresult × Robot × W
  leave_slave mode r w0 =
      let w1 = service.put_retry r.mem_retry (service.put_timeout r.mem_timeout w0) in
      let (hr, w2) = exec_slave_mode change_mode_name mode 0 w1 in
      let (_, w3) = exec_give_arm w2 in (hr, r, w3)

  -- DensoRobot::ChangeMode
  unfoldable pub change_mode : ℕ → Robot → W → Hresult × Robot × W
  change_mode mode r w =
      if r.mode == 0
      then (if mode == 0 then (s_ok, r, w) else enter_slave mode r w)
      else leave_slave mode r w

  -- The end of DensoRobotCore::ChangeMode: the new mode, and the services again.
  abbrev pub settled : ℕ → Bool → Hresult × Robot × W → Hresult × Robot × W
  settled mode restart (hr, r, w) =
      let new = if is_failed hr then 0 else mode in
      (hr, record r { mode = new }, if new == 0 && restart then service.start w else w)

  -- DensoRobotCore::ChangeMode, for a controller with a robot: `ctrl_type` is that of the controller.
  unfoldable pub core_change_mode : ℕ → ℕ → Bool → Robot → W → Hresult × Robot × W
  core_change_mode ctrl_type mode restart r w =
      let w1 = service.stop w in
      settled mode restart
        (if ctrl_type == 8 || ctrl_type == 9 then change_mode mode r w1 else (e_fail, r, w1))
