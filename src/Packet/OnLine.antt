-- ===== src/Packet/OnLine.antt =====
-- The bytes that bcap_send of bcap_core/src/bcap_common.c gives to a device.
use denso_robot_ros.Prelude.{
  ℕ, ◌+◌, ◌-◌, ◌%◌, ◌^◌, ◌≤◌, ◌≡◌, refl, ap, sym, ◌∙◌, List, [], ◌∷◌, ◌++◌, append_assoc, length,
  length-append, take, drop, take-append_self, drop-append_self, Bool, true, false, ltb, le→leb,
  Bool-cases, inl, inr, if◌then◌else◌, arith,
}
use denso_robot_ros.Hresult.{Hresult, ok, failed, s_ok, e_too_much_data}
use denso_robot_ros.Bytes.{le_bytes}
use denso_robot_ros.Crc.{calc_crc}
use denso_robot_ros.Device.{ConnType, conn_tcp, conn_udp, conn_com}
use denso_robot_ros.Codec.Date.{DateFloats}
use denso_robot_ros.Codec.Wire.{wire_args}
use denso_robot_ros.Packet.{Packet, calc_size_packet}
use denso_robot_ros.Packet.Wire.{
  wire_header, length-wire_header, wire_size, wire_packet, IsSendable,
}
use denso_robot_ros.Packet.Size.{calc_size_packet-wire_size}
use denso_robot_ros.Packet.Encode.{packet2bytary-wire_packet}
use denso_robot_ros.Packet.Send.{
  Common, check_conn_param, len_max, crc_room, lacks_arg, put_crc, sealed, send_bytes, bcap_send,
}

-- The fields behind the header byte, up to the arguments, of a packet of `len` bytes.
abbrev pub body : DateFloats → Packet → ℕ → List ℕ
body fl p len = wire_header len p ++ wire_args fl p.args

-- On a serial line the checksum of the body stands in front of the terminator.
abbrev pub checksum : DateFloats → Packet → ConnType → List ℕ
checksum fl p conn_tcp = []
checksum fl p conn_udp = []
checksum fl p conn_com = le_bytes 2 (calc_crc (body fl p (wire_size fl p + 2)))

-- The packet on the line.
abbrev pub on_line : DateFloats → Packet → ConnType → List ℕ
on_line fl p type =
    (1 ∷ body fl p (wire_size fl p + crc_room type)) ++ (checksum fl p type ++ 4 ∷ [])

put_crc-body :
    (b : List ℕ)
    → put_crc (length b + 4) ((1 ∷ b) ++ (0 ∷ 0 ∷ 4 ∷ []))
      ≡ (1 ∷ b) ++ (le_bytes 2 (calc_crc b) ++ 4 ∷ [])
unfolding put_crc
put_crc-body b =
    let tail : List ℕ = 0 ∷ 0 ∷ 4 ∷ [] in
    let one : length b + 4 - 3 ≡ length (1 ∷ b) = omega arith in
    let all : length b + 4 - 4 ≡ length b = omega arith in
    let zeros : length b + 4 - 1 ≡ length ((1 ∷ b) ++ (0 ∷ 0 ∷ [])) =
      omega (arith, length-append b (0 ∷ 0 ∷ [])) in
    let front = ap (λ n. take n ((1 ∷ b) ++ tail)) one ∙ take-append_self (1 ∷ b) tail in
    let middle = ap (λ n. take n (b ++ tail)) all ∙ take-append_self b tail in
    let back =
      ap (λ n. drop n ((1 ∷ b) ++ tail)) zeros
      ∙ ap (drop (length ((1 ∷ b) ++ (0 ∷ 0 ∷ []))))
          (sym (append_assoc (1 ∷ b) (0 ∷ 0 ∷ []) (4 ∷ [])))
      ∙ drop-append_self ((1 ∷ b) ++ (0 ∷ 0 ∷ [])) (4 ∷ []) in
    cc (front, middle, back, append_assoc (1 ∷ b) (le_bytes 2 (calc_crc b)) (4 ∷ []))

-- The layout, with the checksum over its padding.
sealed-wire_packet :
    (fl : DateFloats) (p : Packet) (type : ConnType)
    → sealed type
        (wire_size fl p + crc_room type)
        (wire_packet fl p (wire_size fl p + crc_room type))
      ≡ on_line fl p type
unfolding wire_packet
sealed-wire_packet fl p conn_tcp =
    let none_left : wire_size fl p + 0 - wire_size fl p ≡ 0 = omega arith in rw none_left refl
sealed-wire_packet fl p conn_udp =
    let none_left : wire_size fl p + 0 - wire_size fl p ≡ 0 = omega arith in rw none_left refl
sealed-wire_packet fl p conn_com =
    let two_left : wire_size fl p + 2 - wire_size fl p ≡ 2 = omega arith in
    let b = body fl p (wire_size fl p + 2) in
    let size : wire_size fl p + 2 ≡ length b + 4 =
      unfold wire_size in
      omega (
        arith,
        length-append (wire_header (wire_size fl p + 2) p) (wire_args fl p.args),
        length-wire_header (wire_size fl p + 2) p,
      ) in
    rw two_left (ap (λ n. put_crc n ((1 ∷ b) ++ (0 ∷ 0 ∷ 4 ∷ []))) size ∙ put_crc-body b)

pub crc_room-le : (type : ConnType) → crc_room type ≤ 2
crc_room-le conn_tcp = omega arith
crc_room-le conn_udp = omega arith
crc_room-le conn_com = omega arith

module _ {W : Type 0} (fl : DateFloats) (malloc : ℕ → Bool) (dn_send : List ℕ → W → Hresult × W)
    (p : Packet) (w : W) (memory : (n : ℕ) → malloc n ≡ true) (sendable : IsSendable p)
    (small : wire_size fl p + 2 ≤ 2 ^ 31) where
  send_bytes-on_line :
      (type : ConnType)
      → send_bytes fl malloc dn_send type p (wire_size fl p + crc_room type) w ≡ (
          if ltb (len_max type) (wire_size fl p + crc_room type)
          then failed e_too_much_data
          else ok (dn_send (on_line fl p type) w))
  unfolding send_bytes
  send_bytes-on_line type =
      let n = wire_size fl p + crc_room type in
      let low : n ≤ 2 ^ 31 = omega (arith, small, crc_room-le type) in
      let written = packet2bytary-wire_packet fl p n low sendable in
      elim (Bool-cases (ltb (len_max type) n)) [
        | inl long ↦ rw long refl
        | inr short ↦
            rw
              (
                short,
                memory n,
                written,
                le→leb (wire_size fl p) n (omega arith),
                sealed-wire_packet fl p type,
              )
              refl
      ]

  -- bcap_send, through a device that passes its checks, with memory, and for a packet that can be
  -- sent and is at most 2 ^ 31 bytes long with a checksum: the device is given the layout of the
  -- packet, with the checksum of its body on a serial line, where it is within the largest size of
  -- the type of the device; otherwise the code is E_TOO_MUCH_DATA, and nothing is sent.
  pub bcap_send-on_line :
      (device : Common)
      → check_conn_param device ≡ s_ok
      → lacks_arg device device.type ≡ false
      → bcap_send fl malloc dn_send device p w ≡ (
          if ltb (len_max device.type) (wire_size fl p + crc_room device.type)
          then failed e_too_much_data
          else ok (dn_send (on_line fl p device.type) w))
  unfolding bcap_send
  bcap_send-on_line device checks has_arg =
      let size : (calc_size_packet p + crc_room device.type) % 2 ^ 32
          ≡ wire_size fl p + crc_room device.type =
        omega (arith, calc_size_packet-wire_size fl p sendable, small, crc_room-le device.type) in
      rw (checks, has_arg, size) (send_bytes-on_line device.type)
