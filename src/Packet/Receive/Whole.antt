-- ===== src/Packet/Receive/Whole.antt =====
-- bcap_recv of bcap_core/src/bcap_common.c once the bytes of a packet that bcap_send has sent are in
-- its block.
use denso_robot_ros.Prelude.{
  ℕ, suc, ◌+◌, ◌-◌, ◌^◌, ◌≤◌, ◌<◌, ◌≡◌, refl, ap, sym, ◌∙◌, List, [], ◌∷◌, ◌++◌, some, length,
  length-append, length-take, take, drop, take-le_append, take-drop, take-append_self,
  drop-append_self, Bool, true, false, ltb, le→ltb, ==_iff, arith,
}
use denso_robot_ros.Hresult.{Outcome, ok, s_ok}
use denso_robot_ros.Bytes.{
  le_bytes, from_le, length-le_bytes, from_le-le_bytes_2, from_le-le_bytes_4,
}
use denso_robot_ros.Crc.{calc_crc}
use denso_robot_ros.Crc.Detects.{calc_crc-lt}
use denso_robot_ros.Device.{ConnType, conn_tcp, conn_udp, conn_com}
use denso_robot_ros.Robotalk.Receive.{Peer, Got}
use denso_robot_ros.Codec.Date.{DateFloats}
use denso_robot_ros.Codec.Wire.{wire_args}
use denso_robot_ros.Codec.Received.{AllDecodable}
use denso_robot_ros.Packet.{Packet}
use denso_robot_ros.Packet.Wire.{wire_header, length-wire_header, wire_size, IsSendable}
use denso_robot_ros.Packet.Decode.{Room, accept_argc}
use denso_robot_ros.Packet.RoundTrip.{IsPacket, received_packet}
use denso_robot_ros.Packet.Send.{Common, crc_room, len_max, lacks_arg}
use denso_robot_ros.Packet.OnLine.{body, checksum, on_line}
use denso_robot_ros.Packet.Delivered.{length-checksum, bytary2packet-on_line}
use denso_robot_ros.Packet.Receive.{
  Recv, Received, len_min, len_of, crc_matches, fill, filled, first_bytes, take_packet, gather,
  gathered, rounds, check_recv_param, bcap_recv, Again,
}

-- The length stands in the first five bytes.
pub len_of-append : (xs ys : List ℕ) → 5 ≤ length xs → len_of (xs ++ ys) ≡ len_of xs
len_of-append [] ys h = elim h [ ]
len_of-append (x ∷ xs) ys h = ap from_le (take-le_append 4 xs ys (omega arith))

pub len_of-take : (k : ℕ) (xs : List ℕ) → 5 ≤ k → 5 ≤ length xs → len_of (take k xs) ≡ len_of xs
len_of-take k xs h l =
    sym (len_of-append (take k xs) (drop k xs) (omega (arith, length-take k xs)))
    ∙ ap len_of (take-drop k xs)

module _ (fl : DateFloats) (p : Packet) where
  abbrev pub line_size : ConnType → ℕ
  line_size type = wire_size fl p + crc_room type

  pub length-on_line : (type : ConnType) → length (on_line fl p type) ≡ line_size type
  unfolding wire_size
  length-on_line type = omega (
    arith,
    length-append (body fl p (line_size type)) (checksum fl p type ++ 4 ∷ []),
    length-append (wire_header (line_size type) p) (wire_args fl p.args),
    length-append (checksum fl p type) (4 ∷ []),
    length-wire_header (line_size type) p,
    length-checksum fl p type,
  )

  pub len_of-on_line :
      (type : ConnType) → line_size type < 2 ^ 32 → len_of (on_line fl p type) ≡ line_size type
  unfolding wire_header le_bytes
  len_of-on_line type h = omega (arith, from_le-le_bytes_4 (line_size type))

  pub crc_matches-on_line :
      (type : ConnType) → crc_matches type (line_size type) (on_line fl p type) ≡ true
  unfolding crc_matches
  crc_matches-on_line conn_tcp = refl
  crc_matches-on_line conn_udp = refl
  crc_matches-on_line conn_com =
      let b = body fl p (line_size conn_com) in
      let crc = le_bytes 2 (calc_crc b) in
      let size : line_size conn_com ≡ length b + 4 = omega (
        arith,
        length-append b (crc ++ 4 ∷ []),
        length-append crc (4 ∷ []),
        length-le_bytes 2 (calc_crc b),
        length-on_line conn_com,
      ) in
      let covered : line_size conn_com - 4 ≡ length b = omega arith in
      let front : line_size conn_com - 3 ≡ length (1 ∷ b) = omega arith in
      let computed : calc_crc (take (line_size conn_com - 4) (b ++ (crc ++ 4 ∷ []))) ≡ calc_crc b =
        ap (λ n. calc_crc (take n (b ++ (crc ++ 4 ∷ [])))) covered
        ∙ ap calc_crc (take-append_self b (crc ++ 4 ∷ [])) in
      let carried : from_le (take 2 (drop (line_size conn_com - 3) ((1 ∷ b) ++ (crc ++ 4 ∷ []))))
          ≡ calc_crc b =
        ap (λ n. from_le (take 2 (drop n ((1 ∷ b) ++ (crc ++ 4 ∷ []))))) front
        ∙ ap (λ l. from_le (take 2 l)) (drop-append_self (1 ∷ b) (crc ++ 4 ∷ []))
        ∙ (unfold le_bytes in omega (arith, from_le-le_bytes_2 (calc_crc b), calc_crc-lt b)) in
      (==_iff _ _).1 (computed ∙ sym carried)

pub len_min-line_size :
    (fl : DateFloats) (p : Packet) (type : ConnType) → len_min type ≤ line_size fl p type
unfolding wire_size
len_min-line_size fl p conn_tcp = omega arith
len_min-line_size fl p conn_udp = omega arith
len_min-line_size fl p conn_com = omega arith

-- A packet that can be sent, a receiver that has room for it, and memory.
pub record IsWelcome (fl : DateFloats) (malloc : ℕ → Bool) (p : Packet) (room : Room) : Type 0 where
  pub memory : (n : ℕ) → malloc n ≡ true
  pub is : IsPacket p
  pub sendable : IsSendable p
  pub decodable : AllDecodable p.args
  pub accepted : accept_argc room p.argc ≡ ok p.argc
  pub small : wire_size fl p + 2 ≤ 2 ^ 31

module _ {W : Type 0} (fl : DateFloats) (malloc : ℕ → Bool) (contents : ℕ → List ℕ)
    (dn_recv : Recv W) (type : ConnType) (client : Bool) (fuel : ℕ) (p : Packet) (room : Room)
    (welcome : IsWelcome fl malloc p room)
    (again : Again fl malloc contents dn_recv type client fuel) (peer : Peer) (w : W) where
  abbrev pub accepted_packet : Outcome (Received W)
  accepted_packet =
      ok (record { hr = s_ok; packet = some (received_packet fl p); peer = peer; world = w })

  -- From bcap_bytary2packet on, the packet is accepted.
  pub filled-on_line :
      filled fl malloc contents dn_recv type client fuel again room
        (line_size fl p type)
        (record { hr = s_ok; bytes = on_line fl p type; peer = peer; world = w })
      ≡ accepted_packet
  unfolding filled
  filled-on_line =
      let read =
        bytary2packet-on_line fl malloc p room type (line_size fl p type) welcome.memory welcome.is
          welcome.sendable welcome.decodable welcome.accepted welcome.small (omega arith) in
      rw (read, crc_matches-on_line fl p type) refl

  -- So it is behind the two loops, where they bring its bytes.
  pub gathered-on_line :
      (w0 w1 : W) (bytes first : List ℕ)
      → line_size fl p type ≤ len_max type
      → len_of bytes ≡ line_size fl p type
      → first_bytes fl malloc contents dn_recv type client fuel (line_size fl p type) bytes w0
        ≡ (first, w1)
      → fill dn_recv type client fuel s_ok (line_size fl p type) peer first w1
        ≡ ok (record { hr = s_ok; bytes = on_line fl p type; peer = peer; world = w })
      → gathered fl malloc contents dn_recv type client fuel again room
          (record { hr = s_ok; bytes = bytes; peer = peer; world = w0 })
        ≡ accepted_packet
  unfolding gathered take_packet
  gathered-on_line w0 w1 bytes first fits len starts fills =
      let low : ltb (line_size fl p type) (len_min type) ≡ false =
        le→ltb _ _ (len_min-line_size fl p type) in
      let high = le→ltb (len_max type) (line_size fl p type) fits in
      rw (len, low, high, welcome.memory (line_size fl p type), starts, fills) filled-on_line

-- A receiver whose device has an address, if it is of a type that wants one, starts with a round.
pub bcap_recv-round :
    {W : Type 0} (fl : DateFloats) (malloc : ℕ → Bool) (contents : ℕ → List ℕ) (dn_recv : Recv W)
    (device : Common) (client : Bool) (n addr : ℕ) (room : Room) (w : W) (g : Got W)
    → check_recv_param device true ≡ s_ok
    → lacks_arg device device.type ≡ false
    → gather dn_recv device.type client
        (suc n)
        s_ok
        (record { addr = addr; flag_init = false })
        []
        w
      ≡ ok g
    → bcap_recv fl malloc contents dn_recv device true client (suc n) room addr w
      ≡ gathered fl malloc contents dn_recv device.type client
          (suc n)
          (rounds fl malloc contents dn_recv device.type client (suc n) n)
          room
          g
unfolding bcap_recv rounds
bcap_recv-round fl malloc contents dn_recv device client n addr room w g checks has_arg gathers =
    rw (checks, has_arg, gathers) refl
