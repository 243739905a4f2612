-- ===== src/Robotalk/Receive.antt =====
-- rtk_send_nak and rtk_recv of bcap_core/src/dn_robotalk.c.
use denso_robot_ros.Prelude.{
  ℕ, zero, suc, ◌+◌, ◌-◌, List, [], ◌∷◌, ◌++◌, none, length, take, drop, replicate, Bool, true,
  false, ◌||◌, ltb, leb, ◌==◌, if◌then◌else◌,
}
use denso_robot_ros.Hresult.{
  Hresult, Outcome, ok, out_of_fuel, ◌>>=◌, is_failed, s_ok, e_invalidpacket,
}
use denso_robot_ros.Bytes.{from_le}
use denso_robot_ros.Device.{ConnType, conn_tcp, conn_udp, conn_com}
use denso_robot_ros.Robotalk.{
  Buf, Line, rtk_enq, rtk_cmd_nak, rtk_size_packet, rtk_size_header, rtk_size_crc, memcpy_be,
  write_at, len_of, param2packet, calc_crc, send,
}

abbrev pub e_accessdenied : Hresult
e_accessdenied = 0x80070005

abbrev pub udp_max_packet : ℕ
udp_max_packet = 503

-- `device->arg` and `flag_init`
pub record Peer : Type 0 where
  pub addr : ℕ
  pub flag_init : Bool

-- What a part of rtk_recv leaves: a code, the bytes that were received, and the states.
pub record Got (W : Type 0) : Type 0 where
  pub hr : Hresult
  pub bytes : List ℕ
  pub peer : Peer
  pub world : W

-- memchr for RTK_ENQ, and what is in front of it thrown away
unfoldable pub seek : List ℕ → List ℕ
seek [] = []
seek (b ∷ bs) = let rest = seek bs in if b == rtk_enq then b ∷ bs else rest

-- udp_check_sockaddr
abbrev pub same_addr : ℕ → ℕ → Hresult
same_addr to from = if to == from then s_ok else e_accessdenied

-- The code and the peer after dn_recv in the first loop.
abbrev pub met : ConnType → Bool → Peer → Hresult → ℕ → Hresult × Peer
met conn_udp client peer hr from =
    if client || peer.flag_init
    then (if is_failed hr then hr else same_addr peer.addr from, peer)
    else (hr, record { addr = from; flag_init = true })
met conn_tcp client peer hr from = (hr, peer)
met conn_com client peer hr from = (hr, peer)

abbrev pub met_again : ConnType → Peer → Hresult → ℕ → Hresult
met_again conn_udp peer hr from = if is_failed hr then hr else same_addr peer.addr from
met_again conn_tcp peer hr from = hr
met_again conn_com peer hr from = hr

module _ {W : Type 0} (line : Line W) (type : ConnType) (client : Bool) where
  -- The first `while (1)`: until a header and a checksum are there.
  unfoldable pub gather : ℕ → Hresult → Peer → List ℕ → W → Outcome (Got W)
  unfolding seek
  gather zero hr0 peer bytes w = out_of_fuel
  gather (suc fuel) hr0 peer bytes w =
      let b = seek bytes in
      let (hr, more, from, w') = line.dn_recv (udp_max_packet - length b) w in
      let (hr', peer') = met type client peer hr from in
      let rest = gather fuel hr' peer' (b ++ more) w' in
      if leb (rtk_size_header + rtk_size_crc) (length b)
      then ok (record { hr = hr0; bytes = b; peer = peer; world = w })
      else if is_failed hr'
      then ok (record { hr = hr'; bytes = b; peer = peer'; world = w' })
      else rest

  -- `while (len_recv > len_recved)`
  unfoldable pub fill : ℕ → Hresult → ℕ → Peer → List ℕ → W → Outcome (Got W)
  fill zero hr0 len_recv peer bytes w = out_of_fuel
  fill (suc fuel) hr0 len_recv peer bytes w =
      let (hr, more, from, w') = line.dn_recv (len_recv - length bytes) w in
      let hr' = met_again type peer hr from in
      let rest = fill fuel hr' len_recv peer (bytes ++ more) w' in
      if leb len_recv (length bytes)
      then ok (record { hr = hr0; bytes = bytes; peer = peer; world = w })
      else if is_failed hr'
      then ok (record { hr = hr'; bytes = bytes; peer = peer; world = w' })
      else rest

  -- rtk_send_nak: the contents of the block of malloc do not matter.
  unfoldable pub send_nak : ℕ → ℕ → W → Outcome (Hresult × W)
  unfolding param2packet send
  send_nak from_id to_id w = do
    packet ← param2packet rtk_cmd_nak none 0 from_id to_id (replicate 8 0)
    send line packet w

-- `crc != crc_recv`
unfoldable pub crc_matches : Buf → Bool
unfolding calc_crc memcpy_be
crc_matches packet =
    calc_crc packet
    == from_le (memcpy_be (take rtk_size_crc (drop (rtk_size_header + len_of packet) packet)))

-- The command in the order of the host.
unfoldable pub order_command : Buf → Buf
unfolding memcpy_be write_at
order_command packet = write_at 2 (memcpy_be (take 2 (drop 2 packet))) packet

abbrev pub byte_of : ℕ → Buf → ℕ
byte_of n [] = 0
byte_of zero (b ∷ bs) = b
byte_of (suc n) (b ∷ bs) = byte_of n bs

-- How rtk_recv ends: the code, the contents of `packet_recv`, and the states.
pub record Received (W : Type 0) : Type 0 where
  pub hr : Hresult
  pub packet : Buf
  pub peer : Peer
  pub world : W

-- The rounds that are left, with the code so far.
abbrev pub Again : Type 0 → Type 0
Again W = Hresult → Buf → Peer → W → Outcome (Received W)

module _ {W : Type 0} (line : Line W) (type : ConnType) (client : Bool) (fuel : ℕ) where
  abbrev pub after_nak : Again W → Bool → Buf → Peer → Hresult × W → Outcome (Received W)
  after_nak again last packet peer (hr, w) =
      if is_failed hr
      then ok (record { hr = hr; packet = order_command packet; peer = peer; world = w })
      else again (if last then e_invalidpacket else hr) packet peer w

  -- "Checks CRC"
  unfoldable pub check_crc : Again W → Bool → Buf → Got W → Outcome (Received W)
  check_crc again last packet g =
      let complaint = (do
        r ← send_nak line type client (byte_of 4 packet) (byte_of 5 packet) g.world
        after_nak again last packet g.peer r) in
      if crc_matches packet
      then ok (record { hr = g.hr; packet = order_command packet; peer = g.peer; world = g.world })
      else complaint

  -- `memcpy(packet_recv->buf, buf_tmp, …)`, and the bytes of the second loop behind
  abbrev pub filled : Again W → Bool → Buf → Got W → Outcome (Received W)
  filled again last packet g =
      if is_failed g.hr
      then ok
          (record { hr = g.hr; packet = write_at 0 g.bytes packet; peer = g.peer; world = g.world })
      else check_crc again last (write_at 0 g.bytes packet) g

  -- From `len_recv = …` on, with what the first loop left.
  abbrev pub gathered : Again W → Bool → Buf → Got W → Outcome (Received W)
  gathered again last packet g =
      let len_recv = rtk_size_header + rtk_size_crc + len_of g.bytes in
      let complete = (do
        g' ← fill line type client fuel g.hr len_recv g.peer (take len_recv g.bytes) g.world
        filled again last packet g') in
      if is_failed g.hr
      then ok (record { hr = g.hr; packet = packet; peer = g.peer; world = g.world })
      else if ltb rtk_size_packet len_recv
      then again g.hr packet g.peer g.world
      else complete

  -- `for (retry_cnt = 0; retry_cnt <= retry_nak; retry_cnt++)`, `n` rounds before its end
  unfoldable pub rounds : ℕ → Again W
  rounds zero hr packet peer w = ok (record { hr = hr; packet = packet; peer = peer; world = w })
  rounds (suc n) hr packet peer w = do
    g ← gather line type client fuel hr peer [] w
    gathered (rounds n) (n == 0) packet g

  -- rtk_recv, after check_conn_param and with an address where the type is UDP.
  unfoldable pub recv : ℕ → ℕ → Buf → W → Outcome (Received W)
  recv retry_nak addr packet w =
      rounds (suc retry_nak) s_ok packet (record { addr = addr; flag_init = false }) w
