-- ===== src/Robot/Tests.antt =====
-- A robot, its settings and the cycles of its slave mode, through the functions of
-- denso_robot_core/src/denso_robot.cpp.
use denso_robot_ros.Prelude.{ℕ, ◌≡◌, refl, ap, sym, List, [], ◌∷◌, suc, some, true, false, arith}
use denso_robot_ros.Hresult.{ok, s_ok, is_failed}
use denso_robot_ros.Device.{conn_udp}
use denso_robot_ros.Client.Clamp.{granted_retry, clamp_retry-granted}
use denso_robot_ros.Client.Options.{clamp_retry}
use denso_robot_ros.Robot.{
  Robot, new_robot, Setting, mini_io, send_user_io, recv_user_io, time_format, send_format,
  apply_all,
}
use denso_robot_ros.Robot.Settings.{IsConfigured, apply_all-IsConfigured}
use denso_robot_ros.Robot.Send.{joints_of, create_send_parameter}
use denso_robot_ros.Robot.Send.Layout.{create_send_parameter-layout}
use denso_robot_ros.Robot.Send.Layout.Parts.{layout, padded, send_parts}
use denso_robot_ros.Robot.Receive.{parse_recv_parameter}
use denso_robot_ros.Robot.Receive.Cycles.{Cycle, IsCycle, answer, updated}
use denso_robot_ros.Robot.Receive.Answer.{parse_recv_parameter-answer}
use denso_robot_ros.Robot.Mode.{
  Service, core_change_mode, change_mode, enter_slave, enter_receiving, enter_with_arm, enter_mode,
  set_slave, exec_slave_mode, exec_take_arm,
}
use denso_robot_ros.Robot.Mode.Restores.{KeepsSettings, core_change_mode-restores}
use denso_robot_ros.Robot.Move.{exec_slave_move}
use denso_robot_ros.Robot.Move.Cycle.{exec_slave_move-cycle}

-- The settings of a user: the second is refused, since the offset is no multiple of 8.
abbrev settings : List Setting
settings =
    send_user_io (record { offset = 136; size = 2; value = 1 ∷ 2 ∷ [] })
    ∷ recv_user_io (record { offset = 130; size = 1; value = [] })
    ∷ send_format 0x220
    ∷ time_format 1
    ∷ mini_io 5
    ∷ []

new_robot-IsConfigured : IsConfigured new_robot
new_robot-IsConfigured = record {
  send_fits = omega arith;
  send_size = (omega arith, omega arith);
  send_offset = (omega arith, omega arith, refl);
  recv_size = (omega arith, omega arith);
  recv_offset = (omega arith, omega arith, refl);
  time_known = omega arith;
}

apply_all-IsConfigured_example : IsConfigured (apply_all settings new_robot)
apply_all-IsConfigured_example = apply_all-IsConfigured settings new_robot new_robot-IsConfigured

-- A robot in the slave mode of joints.
abbrev slave_robot : Robot
slave_robot = record new_robot { mode = 0x102 }

slave_robot-IsConfigured : IsConfigured slave_robot
slave_robot-IsConfigured = record {
  send_fits = omega arith;
  send_size = (omega arith, omega arith);
  send_offset = (omega arith, omega arith, refl);
  recv_size = (omega arith, omega arith);
  recv_offset = (omega arith, omega arith, refl);
  time_known = omega arith;
}

slave_joints : joints_of 2 ≡ ok 8
unfolding joints_of
slave_joints = refl

abbrev eight : List ℕ
eight = 1 ∷ 2 ∷ 3 ∷ 4 ∷ 5 ∷ 6 ∷ 7 ∷ 8 ∷ []

-- The mini I/O and the hand I/O stand behind the pose.
create_send_parameter-layout_example :
    create_send_parameter (λ n. true) eight slave_robot
    ≡ ok (layout (padded 5 9 eight) (send_parts slave_robot true true false false))
create_send_parameter-layout_example =
    create_send_parameter-layout (λ n. true) 8 eight slave_robot (λ n. refl) slave_joints
      slave_robot-IsConfigured (omega arith) (omega arith)

abbrev one_cycle : Cycle
one_cycle = record {
  time = 99;
  position = 11 ∷ 12 ∷ 13 ∷ 14 ∷ 15 ∷ 16 ∷ 17 ∷ [];
  joint = eight;
  trans = 1 ∷ 2 ∷ eight;
  mini = 0xffffffff;
  user = [];
  hand = 3;
  amperes = eight;
}

one_cycle-IsCycle : IsCycle one_cycle
one_cycle-IsCycle = record {
  time_lt = omega arith;
  mini_lt = omega arith;
  hand_lt = omega arith;
  position_long = refl;
  joint_long = refl;
  trans_long = refl;
  amperes_long = refl;
}

parse_recv_parameter-answer_example :
    parse_recv_parameter (answer 0x124 one_cycle) slave_robot
    ≡ ok (s_ok, updated 0x124 one_cycle slave_robot)
parse_recv_parameter-answer_example =
    parse_recv_parameter-answer one_cycle slave_robot (omega arith) (omega arith) one_cycle-IsCycle

exec_slave_move-cycle_example :
    exec_slave_move
      (λ n. true)
      (λ id args w. (s_ok, answer 0x124 one_cycle, suc w))
      7
      eight
      []
      slave_robot
      0
    ≡ ok (s_ok, updated 0x124 one_cycle slave_robot, eight, 1)
exec_slave_move-cycle_example =
    exec_slave_move-cycle (λ n. true) (λ id args w. (s_ok, answer 0x124 one_cycle, suc w)) 7 8 eight
      [] one_cycle slave_robot 0 1 (λ n. refl) slave_joints slave_robot-IsConfigured (omega arith)
      (omega arith) (omega arith) (omega arith) (omega arith) one_cycle-IsCycle refl

-- A service over UDP with its timeout and the retry count that bCap_SetRetry stores, whose commands
-- succeed.
abbrev pair_service : Service (ℕ × ℕ)
pair_service = record {
  exec = λ id args w. (s_ok, w);
  get_timeout = λ w. w.0;
  put_timeout = λ n w. (n, w.1);
  get_retry = λ w. w.1;
  put_retry = λ n w. (w.0, (clamp_retry s_ok (some conn_udp) w.1 n).1);
  stop = λ w. w;
  start = λ w. w;
}

pair_service-KeepsSettings : KeepsSettings conn_udp pair_service
pair_service-KeepsSettings = record {
  put_timeout = λ n w. refl;
  put_retry = λ n w. ap (λ r. r.1) (clamp_retry-granted s_ok conn_udp w.1 n);
  put_retry_timeout = λ n w. refl;
  exec_timeout = λ id args w. refl;
  exec_retry = λ id args w. refl;
  stop_timeout = λ w. refl;
  stop_retry = λ w. refl;
  start_timeout = λ w. refl;
  start_retry = λ w. refl;
}

in_range : granted_retry conn_udp 5 ≡ 5
unfolding granted_retry
in_range = refl

-- From the normal mode into the slave mode: the service waits 8 ms, three times.
abbrev entered : Robot
entered = record slave_robot { mem_timeout = 500; mem_retry = 5 }

enters : core_change_mode pair_service 7 8 0x102 true new_robot (500, 5) ≡ (s_ok, entered, (8, 3))
unfolding core_change_mode change_mode enter_slave enter_receiving enter_with_arm enter_mode
    set_slave exec_slave_mode exec_take_arm clamp_retry
enters = refl

core_change_mode-restores_example :
    (entered.mode ≡ 0x102)
    × ((core_change_mode pair_service 7 8 0 true entered (8, 3)).2.0 ≡ 500)
    × ((core_change_mode pair_service 7 8 0 true entered (8, 3)).2.1 ≡ 5)
core_change_mode-restores_example =
    core_change_mode-restores conn_udp pair_service 7 8 0x102 0 true true new_robot entered (500, 5)
      (8, 3) pair_service-KeepsSettings in_range refl (omega arith) (ap (λ x. is_failed x.0) enters)
      (sym (ap (λ x. x.1.mode) enters)) (sym (ap (λ x. x.1.mem_timeout) enters))
      (sym (ap (λ x. x.1.mem_retry) enters))
