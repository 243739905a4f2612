-- ===== src/Packet/Wire.antt =====
-- The layout of a b-CAP packet, the specification of bcap_packet2bytary in
-- bcap_core/src/bcap_common.c.
use denso_robot_ros.Prelude.{
  ℕ, ◌+◌, ◌-◌, ◌≡◌, List, [], ◌∷◌, ◌++◌, length, length-append, replicate, arith,
}
use denso_robot_ros.Bytes.{le_bytes, length-le_bytes}
use denso_robot_ros.Variant.{count_variants}
use denso_robot_ros.Codec.Date.{DateFloats}
use denso_robot_ros.Codec.Wire.{wire_args, AllEncodable}
use denso_robot_ros.Packet.{Packet}

-- The length, the serial number, the version or retry count, the function or return code, and the
-- number of arguments.
unfoldable pub wire_header : ℕ → Packet → List ℕ
wire_header len p =
    le_bytes 4 len
    ++ (le_bytes 2 p.serial ++ (le_bytes 2 p.reserv ++ (le_bytes 4 p.id ++ le_bytes 2 p.argc)))

pub length-wire_header : (len : ℕ) (p : Packet) → length (wire_header len p) ≡ 14
unfolding wire_header
length-wire_header len p = omega (
  arith,
  length-append (le_bytes 4 len)
      (le_bytes 2 p.serial ++ (le_bytes 2 p.reserv ++ (le_bytes 4 p.id ++ le_bytes 2 p.argc))),
  length-append (le_bytes 2 p.serial)
      (le_bytes 2 p.reserv ++ (le_bytes 4 p.id ++ le_bytes 2 p.argc)),
  length-append (le_bytes 2 p.reserv) (le_bytes 4 p.id ++ le_bytes 2 p.argc),
  length-append (le_bytes 4 p.id) (le_bytes 2 p.argc),
  length-le_bytes 4 len,
  length-le_bytes 2 p.serial,
  length-le_bytes 2 p.reserv,
  length-le_bytes 4 p.id,
  length-le_bytes 2 p.argc,
)

-- The bytes of the packet with its header and terminator, in a buffer of the right size.
unfoldable pub wire_size : DateFloats → Packet → ℕ
wire_size fl p = 16 + length (wire_args fl p.args)

-- In a buffer of `len` bytes: the rest in front of the terminator is zero.
unfoldable pub wire_packet : DateFloats → Packet → ℕ → List ℕ
unfolding wire_header wire_size
wire_packet fl p len =
    (1 ∷ (wire_header len p ++ wire_args fl p.args))
    ++ (replicate (len - wire_size fl p) 0 ++ 4 ∷ [])

-- A packet whose `argc` counts its arguments, each of which the coder can send.
pub record IsSendable (p : Packet) : Type 0 where
  pub counted : p.argc ≡ count_variants p.args
  pub encodable : AllEncodable p.args
