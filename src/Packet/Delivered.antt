-- ===== src/Packet/Delivered.antt =====
-- What bcap_send of bcap_core/src/bcap_common.c gives to a device, read by bcap_bytary2packet.
use denso_robot_ros.Prelude.{ℕ, suc, ◌+◌, ◌^◌, ◌≤◌, ◌≡◌, refl, length, Bool, true, arith}
use denso_robot_ros.Hresult.{ok}
use denso_robot_ros.Bytes.{length-le_bytes}
use denso_robot_ros.Crc.{calc_crc}
use denso_robot_ros.Device.{ConnType, conn_tcp, conn_udp, conn_com}
use denso_robot_ros.Codec.Date.{DateFloats}
use denso_robot_ros.Codec.Received.{AllDecodable}
use denso_robot_ros.Packet.{Packet}
use denso_robot_ros.Packet.Wire.{wire_size, IsSendable}
use denso_robot_ros.Packet.Decode.{Room, accept_argc, bytary2packet}
use denso_robot_ros.Packet.RoundTrip.{IsPacket, received_packet}
use denso_robot_ros.Packet.Exchange.{framed, bytary2packet-framed}
use denso_robot_ros.Packet.Send.{crc_room}
use denso_robot_ros.Packet.OnLine.{body, checksum, on_line, crc_room-le}

pub length-checksum :
    (fl : DateFloats) (p : Packet) (type : ConnType) → length (checksum fl p type) ≡ crc_room type
length-checksum fl p conn_tcp = refl
length-checksum fl p conn_udp = refl
length-checksum fl p conn_com = length-le_bytes 2 (calc_crc (body fl p (wire_size fl p + 2)))

-- The bytes that bcap_send gives to a device of any of the three types are read back by
-- bcap_bytary2packet, over all of their length, the checksum of a serial line included: the packet
-- is the one that was sent, with the arguments as they arrive. The packet can be sent, its fields
-- are in their ranges, its arguments are of types that arrive, the receiver has room for them, and
-- there is memory.
pub bytary2packet-on_line :
    (fl : DateFloats) (malloc : ℕ → Bool) (p : Packet) (room : Room) (type : ConnType) (fuel : ℕ)
    → ((n : ℕ) → malloc n ≡ true)
    → IsPacket p
    → IsSendable p
    → AllDecodable p.args
    → accept_argc room p.argc ≡ ok p.argc
    → wire_size fl p + 2 ≤ 2 ^ 31
    → wire_size fl p ≤ fuel
    → bytary2packet fl malloc (suc fuel) (on_line fl p type) (wire_size fl p + crc_room type) room
      ≡ ok (received_packet fl p)
unfolding framed wire_size
bytary2packet-on_line fl malloc p room type fuel memory is sendable decodable accepted small
      enough =
    bytary2packet-framed fl malloc memory p room is sendable decodable accepted
      (wire_size fl p + crc_room type) (checksum fl p type)
      (omega (arith, length-checksum fl p type)) (omega (arith, small, crc_room-le type)) fuel
      (omega (arith, enough))
