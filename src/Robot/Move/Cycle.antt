-- ===== src/Robot/Move/Cycle.antt =====
-- A cycle of the slave mode with the controller, denso_robot_core/src/denso_robot.cpp.
use denso_robot_ros.Prelude.{
  ℕ, ◌+◌, ◌*◌, ◌%◌, ◌^◌, ◌≤◌, ◌<◌, ◌≡◌, refl, List, length, Bool, true, le→leb,
}
use denso_robot_ros.Hresult.{Hresult, ok, s_ok}
use denso_robot_ros.Variant.{Variant, Variants}
use denso_robot_ros.Variant.Vt
use denso_robot_ros.Robot.{Robot, pose_type, has_flag, fmt_handio, fmt_miniio, fmt_userio}
use denso_robot_ros.Robot.Settings.{IsConfigured}
use denso_robot_ros.Robot.Mode.{command, id_robot_execute}
use denso_robot_ros.Robot.Send.{joints_of, create_send_parameter}
use denso_robot_ros.Robot.Send.Layout.{create_send_parameter-layout}
use denso_robot_ros.Robot.Send.Layout.Parts.{layout, padded, send_parts}
use denso_robot_ros.Robot.Receive.Cycles.{Cycle, IsCycle, answer, updated}
use denso_robot_ros.Robot.Receive.Answer.{parse_recv_parameter-answer}
use denso_robot_ros.Robot.Move.{slave_move_name, finish_move, exec_slave_move}

-- The argument of slvMove in a mode with so many joints.
abbrev pub sent : ℕ → List ℕ → Robot → Variant
sent joints pose r = layout (padded Vt.r8 (joints + 1) pose) (
    send_parts r (has_flag fmt_handio r.sendfmt) (has_flag fmt_miniio r.sendfmt)
      (has_flag fmt_userio r.sendfmt) (has_flag fmt_userio r.recvfmt))

-- A cycle of the slave mode, with memory, for a pose that fits and inputs and outputs of a user that
-- are in their ranges: the controller is sent slvMove with the pose and the parts of the formats, and
-- where it answers S_OK with the parts of the format of what is received, which has one of the five
-- types of a pose, the function returns S_OK, `position`, `joint` and `trans` of the robot are those of
-- the controller as far as the type has them, the other members of that format have the values of the
-- answer, all else is as it was, and the `joint` that is given back is the one of the robot.
pub exec_slave_move-cycle :
    {W : Type 0} (malloc : ℕ → Bool) (exec : ℕ → Variants → W → Hresult × Variant × W)
    (handle joints : ℕ) (pose joint : List ℕ) (c : Cycle) (r : Robot) (w next_w : W)
    → ((n : ℕ) → malloc n ≡ true)
    → joints_of (pose_type r.mode) ≡ ok joints
    → IsConfigured r
    → r.send_userio_size * 8 < 2 ^ 31
    → r.recv_userio_size * 8 < 2 ^ 31
    → length pose ≤ joints + 1
    → 1 ≤ r.recvfmt % 16
    → r.recvfmt % 16 ≤ 5
    → IsCycle c
    → exec id_robot_execute (command handle slave_move_name (sent joints pose r)) w
      ≡ (s_ok, answer r.recvfmt c, next_w)
    → let r1 = updated r.recvfmt c r in
      exec_slave_move malloc exec handle pose joint r w ≡ ok (s_ok, r1, r1.joint, next_w)
unfolding exec_slave_move finish_move
exec_slave_move-cycle malloc exec handle joints pose joint c r w next_w memory mode h hs hr fits low
      high cycle answers =
    let argument : create_send_parameter malloc pose r ≡ ok (sent joints pose r) =
      rw
        (
          create_send_parameter-layout malloc joints pose r memory mode h hs hr,
          le→leb (length pose) (joints + 1) fits,
        )
        refl in
    rw
      (
        exec_slave_move,
        argument,
        answers,
        finish_move,
        parse_recv_parameter-answer c r low high cycle,
      )
      refl
