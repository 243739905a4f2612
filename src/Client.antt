-- ===== src/Client.antt =====
-- The connection table of the b-CAP client, bcap_core/src/bCAPClient/bcap_client.c.
pub mod Options
pub mod Transfer
pub mod Open
pub mod Valid
pub mod Answers
pub mod Opened
pub mod Clamp
pub mod Sessions
pub mod Heard
pub mod Invoke
pub mod Calls
mod Tests
use denso_robot_ros.Prelude.{
  ℕ, zero, suc, ◌-◌, List, [], ◌∷◌, Option, none, some, length, get_elem?, set, replicate, ◌==◌,
  if◌then◌else◌,
}
use denso_robot_ros.Hresult.{Hresult}
use denso_robot_ros.Device.{ConnType}
use denso_robot_ros.Device.Ether.{ConnParamEth}
use denso_robot_ros.Device.Serial.{ConnParamCom}
use denso_robot_ros.Packet.{Packet}

-- struct CONN_BCAP_CLIENT with its `device`. `type` is `none` where the number names no type, `dest`
-- is the address behind `device.arg`, or `none` for NULL. The function pointers follow from `type`.
pub record Conn : Type 0 where
  pub sock : ℕ
  pub type : Option ConnType
  pub timeout : ℕ
  pub dest : Option (ℕ × ℕ)
  pub retry : ℕ
  pub serial : ℕ

-- After memset
abbrev pub unused : Conn
unused = record { sock = 0; type = none; timeout = 0; dest = none; retry = 0; serial = 0 }

abbrev pub bcap_conn_max : ℕ
bcap_conn_max = 20

-- m_conn_param
abbrev pub Conns : Type 0
Conns = List Conn

unfoldable pub find_from : ℕ → Conns → ℕ
find_from i [] = 0
find_from i (c ∷ cs) = let rest = find_from (suc i) cs in if c.sock == 0 then suc i else rest

-- A descriptor is an index and one; 0 where there is no open space.
unfoldable pub find_open_address : Conns → ℕ
unfolding find_from
find_open_address conns = find_from 0 conns

abbrev pub in_use : Option Conn → Option Conn
in_use none = none
in_use (some c) = if c.sock == 0 then none else some c

-- A descriptor is the 32-bit pattern of an `int`: a negative one is beyond the table.
unfoldable pub check_address : Conns → ℕ → Option Conn
check_address conns zero = none
check_address conns (suc index) = in_use (get_elem? conns index)

-- `bcap_param = check_address(fd); if (bcap_param == NULL) return …;`
abbrev pub if_open {ℓ} : {A : Type ℓ} → Option Conn → A → (Conn → A) → A
if_open none a f = a
if_open (some c) a f = f c

-- What dn_open is given.
pub data Target : Type 0 where
  tcp_target : ConnParamEth → Target
  udp_target : ConnParamEth → Target
  com_target : ConnParamCom → Target

-- The mutexes, the functions behind the pointers of `device`, and bcap_send and bcap_recv over them
-- (the latter with room for one argument),
-- on the states `W` of what lies outside of the table. An open gives a socket.
pub record Net (W : Type 0) : Type 0 where
  pub initialize_mutex : W → Hresult × W
  pub release_mutex : W → W
  pub lock_mutex : W → Hresult × W
  pub unlock_mutex : W → W
  pub set_tcp_conn_timeout : ℕ → W → W
  pub dn_open : Target → W → Hresult × ℕ × W
  pub dn_close : Conn → W → W
  pub dn_set_timeout : Conn → ℕ → W → Hresult × W
  pub bcap_send : Conn → Packet → W → Hresult × W
  pub bcap_recv : Conn → W → Hresult × Packet × W
