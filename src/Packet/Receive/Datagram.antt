-- ===== src/Packet/Receive/Datagram.antt =====
-- bcap_send and bcap_recv of bcap_core/src/bcap_common.c at the two ends of a datagram.
use denso_robot_ros.Prelude.{ℕ, ◌≤◌, ◌≡◌, Option, List, length, true, false}
use denso_robot_ros.Hresult.{Hresult, s_ok}
use denso_robot_ros.Device.{conn_udp}
use denso_robot_ros.Packet.{Packet}
use denso_robot_ros.Packet.Send.{Common}
use denso_robot_ros.Packet.Receive.{Recv}

abbrev pub udp_device : ℕ → Common
udp_device sock = record { sock = sock; type = conn_udp; has_arg = true; has_send = true }

-- What dn_send is given arrives at once and whole, from an address.
abbrev pub Carries :
    {W : Type 0} → (List ℕ → W → Hresult × W) → Recv W → Option ℕ → ℕ → (W → W) → Type 0
Carries dn_send dn_recv stored from after =
    (bytes : List ℕ) (w : _)
    → length bytes ≤ 503
    → dn_recv false 503 (dn_send bytes w).1
      ≡ record { hr = s_ok; bytes = bytes; stored = stored; from = from; world = after w }
