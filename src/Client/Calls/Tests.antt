-- ===== src/Client/Calls/Tests.antt =====
-- Calls of the service by bcap_core/src/bCAPClient/bcap_client.c over the device that answers at once.
use denso_robot_ros.Prelude.{ℕ, ◌≡◌, refl, some, none, true, false, Option, arith}
use denso_robot_ros.Hresult.{ok}
use denso_robot_ros.Device.{Libc}
use denso_robot_ros.Variant.{plain}
use denso_robot_ros.Packet.{Packet}
use denso_robot_ros.Client.Invoke.{Called, Host}
use denso_robot_ros.Client.Tests.{echo, peer, table, table-IsTable, echo-IsQuiet, lengths}
use denso_robot_ros.Client.{check_address}
use denso_robot_ros.Client.Calls.{Wrapper, run}
use denso_robot_ros.Client.Calls.Controller
use denso_robot_ros.Client.Calls.Robot
use denso_robot_ros.Client.Calls.All.{controller_get_extension, robot_move}
use denso_robot_ros.Client.Calls.Typed.{decimal, request}
use denso_robot_ros.Client.Calls.Requests.{run-request}
use denso_robot_ros.Client.Calls.Returns.{IsShortPacket, run-returns}

abbrev digits : Libc
digits = record lengths { atoi = decimal 0 }

abbrev host : Host (Option Packet)
host = record { libc = digits; malloc = λ n. true; net = echo }

abbrev get_extension_call : Wrapper
get_extension_call = Controller.get_extension 11 none none false

abbrev move_call : Wrapper
move_call = Robot.move 12 1 (plain 5 0) none

run-request_example :
    run host 2 table 2 none get_extension_call ≡ request host 2 table 2 none get_extension_call
run-request_example =
    run-request host 2 table 2 none get_extension_call (λ s d short. refl) (λ n. refl)
      (controller_get_extension 11 none none false)

recv-IsShortPacket : (u : Option Packet) → IsShortPacket ((echo.bcap_recv peer u).1)
recv-IsShortPacket none = ground arith
recv-IsShortPacket (some p) = ground arith

run-returns_example :
    (r : Called (Option Packet) × Option ℕ) × (run host 2 table 2 none move_call ≡ ok r)
unfolding check_address
run-returns_example =
    run-returns host 2 table 2 none peer move_call table-IsTable refl refl (echo-IsQuiet peer)
      (λ s d short. refl) (λ n. refl) recv-IsShortPacket tt (robot_move 12 1 (plain 5 0) none)
