-- ===== src/Robot.antt =====
-- class DensoRobot of denso_robot_core/src/denso_robot.cpp: its state, the formats and the inputs and
-- outputs that a user sets. An `int` is kept as its 32-bit pattern, a double as its 64-bit one.
pub mod Settings
pub mod Send
pub mod Receive
pub mod Mode
pub mod Move
mod Tests
use denso_robot_ros.Prelude.{
  ℕ, ◌*◌, ◌/◌, ◌%◌, ◌^◌, List, [], ◌∷◌, length, Bool, ltb, leb, ◌==◌, ◌||◌, ◌&&◌, not,
  if◌then◌else◌,
}

-- The members that the control loop reads and writes.
pub record Robot : Type 0 where
  pub mode : ℕ
  pub arm_group : ℕ
  pub mem_timeout : ℕ
  pub mem_retry : ℕ
  pub tsfmt : ℕ
  pub timestamp : ℕ
  pub sendfmt : ℕ
  pub send_miniio : ℕ
  pub send_handio : ℕ
  pub recvfmt : ℕ
  pub recv_miniio : ℕ
  pub recv_handio : ℕ
  pub send_userio_offset : ℕ
  pub send_userio_size : ℕ
  pub send_userio : List ℕ
  pub recv_userio_offset : ℕ
  pub recv_userio_size : ℕ
  pub recv_userio : List ℕ
  pub position : List ℕ
  pub joint : List ℕ
  pub trans : List ℕ
  pub current : List ℕ

-- The constructor; `*m_mode` is that of DensoRobotCore.
abbrev pub new_robot : Robot
new_robot = record {
  mode = 0;
  arm_group = 0;
  mem_timeout = 0;
  mem_retry = 0;
  tsfmt = 0;
  timestamp = 0;
  sendfmt = 0x120;
  send_miniio = 0;
  send_handio = 0;
  recvfmt = 0x124;
  recv_miniio = 0;
  recv_handio = 0;
  send_userio_offset = 128;
  send_userio_size = 1;
  send_userio = [];
  recv_userio_offset = 128;
  recv_userio_size = 1;
  recv_userio = [];
  position = [];
  joint = [];
  trans = [];
  current = [];
}

-- The flags of a format, and its lowest four bits.
abbrev pub has_flag : ℕ → ℕ → Bool
has_flag flag format = format / flag % 2 == 1

abbrev pub pose_type : ℕ → ℕ
pose_type format = format % 16

abbrev pub fmt_time : ℕ
fmt_time = 0x10

abbrev pub fmt_handio : ℕ
fmt_handio = 0x20

abbrev pub fmt_current : ℕ
fmt_current = 0x40

abbrev pub fmt_miniio : ℕ
fmt_miniio = 0x100

abbrev pub fmt_userio : ℕ
fmt_userio = 0x200

-- The message UserIO.
pub record UserIo : Type 0 where
  pub offset : ℕ
  pub size : ℕ
  pub value : List ℕ

-- `x < 0` for the pattern of an `int32_t`
abbrev pub is_negative : ℕ → Bool
is_negative x = leb (2 ^ 31) x

-- The tests on the offset and on the size that both functions make.
abbrev pub bad_offset : UserIo → Bool
bad_offset v = is_negative v.offset || ltb v.offset 128 || not (v.offset % 8 == 0)

abbrev pub bad_size : UserIo → Bool
bad_size v = is_negative v.size || v.size == 0

unfoldable pub put_send_user_io : UserIo → Robot → Robot
put_send_user_io v r =
    if bad_offset v || bad_size v || ltb v.size (length v.value) then r else record r {
      send_userio_offset = v.offset;
      send_userio_size = v.size;
      send_userio = v.value;
    }

unfoldable pub put_recv_user_io : UserIo → Robot → Robot
put_recv_user_io v r =
    if bad_offset v || bad_size v
    then r
    else record r { recv_userio_offset = v.offset; recv_userio_size = v.size }

unfoldable pub put_time_format : ℕ → Robot → Robot
put_time_format format r = if format == 0 || format == 1 then record r { tsfmt = format } else r

unfoldable pub put_send_format : ℕ → Robot → Robot
put_send_format format r =
    if format == 0
      || format == 0x20
      || format == 0x100
      || format == 0x120
      || format == 0x200
      || format == 0x220
    then record r { sendfmt = format }
    else r

-- The formats of put_RecvFormat, without the pose.
unfoldable pub recv_flags : ℕ → Bool
recv_flags f =
    f == 0
    || f == 0x10
    || f == 0x20
    || f == 0x40
    || f == 0x100
    || f == 0x200
    || f == 0x30
    || f == 0x110
    || f == 0x120
    || f == 0x130
    || f == 0x210
    || f == 0x220
    || f == 0x230
    || f == 0x140
    || f == 0x150
    || f == 0x60
    || f == 0x70
    || f == 0x160
    || f == 0x170
    || f == 0x240
    || f == 0x250
    || f == 0x340
    || f == 0x270

unfoldable pub put_recv_format : ℕ → Robot → Robot
unfolding recv_flags
put_recv_format format r =
    if leb (pose_type format) 5 && recv_flags (format / 16 * 16)
    then record r { recvfmt = format }
    else r

-- A call of one of the functions with which a user sets what the robot is sent and sends.
pub data Setting : Type 0 where
  mini_io : ℕ → Setting
  hand_io : ℕ → Setting
  send_user_io : UserIo → Setting
  recv_user_io : UserIo → Setting
  time_format : ℕ → Setting
  send_format : ℕ → Setting
  recv_format : ℕ → Setting
  any_send_format : ℕ → Setting
  any_recv_format : ℕ → Setting

-- put_MiniIO, put_HandIO, the functions above, set_SendFormat and set_RecvFormat
unfoldable pub apply : Setting → Robot → Robot
unfolding put_send_user_io put_recv_user_io put_time_format put_send_format put_recv_format
apply (mini_io v) r = record r { send_miniio = v }
apply (hand_io v) r = record r { send_handio = v }
apply (send_user_io v) r = put_send_user_io v r
apply (recv_user_io v) r = put_recv_user_io v r
apply (time_format f) r = put_time_format f r
apply (send_format f) r = put_send_format f r
apply (recv_format f) r = put_recv_format f r
apply (any_send_format f) r = record r { sendfmt = f }
apply (any_recv_format f) r = record r { recvfmt = f }

unfoldable pub apply_all : List Setting → Robot → Robot
unfolding apply
apply_all [] r = r
apply_all (s ∷ ss) r = apply_all ss (apply s r)
