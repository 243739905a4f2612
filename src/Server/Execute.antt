-- ===== src/Server/Execute.antt =====
-- receive_execute and bcap_callfunc of bcap_core/src/bCAPServer/bcap_server.c: what the server does
-- with a packet.
use denso_robot_ros.Prelude.{ℕ, List, Option, none, some, Bool, ◌&&◌, ltb, ◌==◌, if◌then◌else◌}
use denso_robot_ros.Hresult.{Hresult, e_notimpl, e_invalidarg}
use denso_robot_ros.Device.{ConnType}
use denso_robot_ros.Variant.{Variant, Variants, Bstr, nil, cons}
use denso_robot_ros.Packet.{Packet}
use denso_robot_ros.Server.MapId.{MapId, lookup}
use denso_robot_ros.Server.Vector.{Ptr, Vector}

abbrev pub e_busy_proc : Hresult
e_busy_proc = 0x809100aa

abbrev pub e_max_connect : Hresult
e_max_connect = 0x8000090b

abbrev pub bcap_client_max : ℕ
bcap_client_max = 20

abbrev pub udp_lifelimit : ℕ
udp_lifelimit = 10000

abbrev pub min_wdt_interval : ℕ
min_wdt_interval = 80

abbrev pub init_wdt_interval : ℕ
init_wdt_interval = 0xffffffff

abbrev pub init_exec_timeout : ℕ
init_exec_timeout = 180000

-- The members of struct CONN_BCAP_SERVER that a node of the tree has for its client; `addr` is what
-- `device.arg` points to.
pub record Node : Type 0 where
  pub addr : ℕ
  pub last_send : Packet
  pub exec_timeout : ℕ
  pub wdt_interval : ℕ
  pub last_modified : ℕ

-- The server object: its type, its own node, its vector, and its children for UDP, the youngest
-- first.
pub record Server : Type 0 where
  pub type : ConnType
  pub own : Node
  pub vector : Vector
  pub children : List Node

-- CALL_FUNC_BCAP: the arguments and their number; the code and the VARIANT for the return value.
abbrev pub CallFunc : Type 0 → Type 0
CallFunc W = Variants → ℕ → W → Hresult × Variant × W

-- What receive_execute calls: m_list_func, the change to VT_BSTR of the option of ID_SERVICE_START,
-- and GetOptionValue with VT_UI4 for "WDT" and for "InvokeTimeout".
pub record Calls (W : Type 0) : Type 0 where
  pub list_func : ℕ → Option (CallFunc W)
  pub option_string : Variant → Hresult × Bstr
  pub wdt_option : Bstr → Hresult × Option ℕ
  pub timeout_option : Bstr → Hresult × Option ℕ

-- How the loop on `comp_evt` goes: the execution completes after so many S_EXECUTING packets, or the
-- loop ends before with a code, which is that of bcap_send or E_TIMEOUT.
pub data Wait : Type 0 where
  completed : ℕ → Wait
  broken : ℕ → Hresult → Wait

-- What one call meets: whether an earlier function is still executed, the loop on `comp_evt`, what
-- malloc gives for an object of the vector, the code of bcap_send for the answer, and the time.
pub record Situation : Type 0 where
  pub busy : Bool
  pub wait : Wait
  pub fresh : Ptr
  pub send_hr : Hresult
  pub now : ℕ

-- What one call did: the packets for bcap_send, and the states.
pub record Served (W : Type 0) : Type 0 where
  pub hr : Hresult
  pub sent : List Packet
  pub server : Server
  pub world : W

abbrev pub is_function : ℕ → Bool
is_function id = ltb 0 id && ltb id 138

module _ {W : Type 0} (calls : Calls W) where
  -- The answer with a function of m_list_func, or with none.
  unfoldable pub call_entry : Option (CallFunc W) → Packet → Packet → W → Packet × W
  call_entry none recv send w = (record send { id = e_notimpl }, w)
  call_entry (some f) recv send w =
      let (hr, v, w') = f recv.args recv.argc w in
      (record send { id = hr; args = cons v nil; argc = flag (lookup recv.id) }, w')
    where
      flag : Option MapId → ℕ
      flag none = 0
      flag (some e) = if e.return_flag == 0 then 0 else 1

  -- bcap_callfunc
  unfoldable pub callfunc : Packet → Packet → W → Packet × W
  unfolding call_entry
  callfunc recv send w =
      let send0 = record send { serial = recv.serial; reserv = 0; id = e_invalidarg; argc = 0 } in
      if is_function recv.id then call_entry (calls.list_func recv.id) recv send0 w else (send0, w)

-- `tmp_recv_packet.reserv`
unfoldable pub retry_serial : Packet → ℕ
retry_serial p = if p.reserv == 0 then p.serial else p.reserv

-- memset, and the serial number of the request
abbrev pub notice : Packet → Hresult → Packet
notice p id = record { serial = p.serial; reserv = 0; id = id; argc = 0; args = nil }
