-- ===== src/Packet/Receive.antt =====
-- bcap_recv of bcap_core/src/bcap_common.c. The device is a parameter: dn_recv with its state. The
-- tests on the address of an UDP peer are those of Robotalk/Receive.
pub mod Whole
pub mod Serial
pub mod Looks
pub mod Stream
pub mod Pipe
pub mod Datagram
use denso_robot_ros.Prelude.{
  ℕ, zero, suc, ◌-◌, List, [], ◌∷◌, ◌++◌, Option, none, some, length, take, drop, Bool, true, false,
  not, ◌&&◌, ◌||◌, ltb, leb, ◌==◌, if◌then◌else◌,
}
use denso_robot_ros.Hresult.{
  Hresult, Outcome, ok, failed, fault, out_of_fuel, ◌>>=◌, is_failed, s_ok, e_handle, e_invalidarg,
  e_outofmemory,
}
use denso_robot_ros.Bytes.{from_le}
use denso_robot_ros.Crc.{calc_crc}
use denso_robot_ros.Device.{ConnType, conn_tcp, conn_udp, conn_com}
use denso_robot_ros.Robotalk.Receive.{Peer, Got, met, met_again}
use denso_robot_ros.Codec.Date.{DateFloats}
use denso_robot_ros.Packet.{Packet}
use denso_robot_ros.Packet.Send.{Common, len_max, lacks_arg}
use denso_robot_ros.Packet.Decode.{Room, bytary2packet}

-- What a call of dn_recv leaves: its code, the bytes that it puts into the buffer, the value that a
-- failing call puts into `*len_recved` (none where it leaves the old one), the address of the
-- sender and the state of the device.
pub record Answer (W : Type 0) : Type 0 where
  pub hr : Hresult
  pub bytes : List ℕ
  pub stored : Option ℕ
  pub from : ℕ
  pub world : W

-- dn_recv: whether the flag is MSG_PEEK, and the number of bytes that are asked for.
abbrev pub Recv : Type 0 → Type 0
Recv W = Bool → ℕ → W → Answer W

-- memchr for BCAP_HEADER, and what is in front of it thrown away
unfoldable pub seek : List ℕ → List ℕ
seek [] = []
seek (b ∷ bs) = let rest = seek bs in if b == 1 then b ∷ bs else rest

-- `pos == buf_tmp`
abbrev pub at_front : List ℕ → Bool
at_front [] = false
at_front (b ∷ bs) = b == 1

abbrev pub peeks : ConnType → Bool
peeks conn_tcp = true
peeks conn_udp = false
peeks conn_com = false

-- Over TCP the bytes were only looked at, so they are looked at again.
abbrev pub kept : ConnType → List ℕ → List ℕ
kept type bytes = if peeks type then [] else bytes

abbrev pub len_min : ConnType → ℕ
len_min conn_tcp = 16
len_min conn_udp = 16
len_min conn_com = 18

abbrev pub len_of : List ℕ → ℕ
len_of bytes = from_le (take 4 (drop 1 bytes))

-- `crc == crc_recv`, for a packet of `len` bytes
unfoldable pub crc_matches : ConnType → ℕ → List ℕ → Bool
crc_matches conn_tcp len bytes = true
crc_matches conn_udp len bytes = true
crc_matches conn_com len bytes =
    calc_crc (take (len - 4) (drop 1 bytes)) == from_le (take 2 (drop (len - 3) bytes))

module _ {W : Type 0} (dn_recv : Recv W) (type : ConnType) (client : Bool) where
  -- Over TCP the bytes in front of the header are taken from the device; the code of the call is not
  -- looked at.
  unfoldable pub skip : List ℕ → W → W
  unfolding seek
  skip bytes w =
      if peeks type && not (at_front bytes)
      then (dn_recv false (length bytes - length (seek bytes)) w).world
      else w

  -- The inner `while (1)`: until the header and the length are there.
  unfoldable pub gather : ℕ → Hresult → Peer → List ℕ → W → Outcome (Got W)
  gather zero hr0 peer bytes w = out_of_fuel
  gather (suc fuel) hr0 peer bytes w =
      let b = seek bytes in
      let w1 = skip bytes w in
      let a = dn_recv (peeks type) (503 - length (kept type b)) w1 in
      let (hr, peer') = met type client peer a.hr a.from in
      let rest = gather fuel hr peer' (kept type b ++ a.bytes) a.world in
      if leb 5 (length b)
      then ok (record { hr = hr0; bytes = b; peer = peer; world = w1 })
      else if is_failed hr
      then ok (record { hr = hr; bytes = b; peer = peer'; world = a.world })
      else rest

  -- `while (len_recv > len_recved)`: `bytes` are the first ones of the block.
  unfoldable pub fill : ℕ → Hresult → ℕ → Peer → List ℕ → W → Outcome (Got W)
  fill zero hr0 len_recv peer bytes w = out_of_fuel
  fill (suc fuel) hr0 len_recv peer bytes w =
      let a = dn_recv false (len_recv - length bytes) w in
      let hr = met_again type peer a.hr a.from in
      let rest = fill fuel hr len_recv peer (bytes ++ a.bytes) a.world in
      if leb len_recv (length bytes)
      then ok (record { hr = hr0; bytes = bytes; peer = peer; world = w })
      else if is_failed hr
      then ok (record { hr = hr; bytes = bytes; peer = peer; world = a.world })
      else rest

-- How bcap_recv ends: the code, the packet if one is accepted, and the states.
pub record Received (W : Type 0) : Type 0 where
  pub hr : Hresult
  pub packet : Option Packet
  pub peer : Peer
  pub world : W

abbrev pub ended : {W : Type 0} → Hresult → Peer → W → Outcome (Received W)
ended hr peer w = ok (record { hr = hr; packet = none; peer = peer; world = w })

-- The room after a packet is read into it.
abbrev pub room_after : Room → Packet → Room
room_after room p = record { argc = p.argc; has_args = room.has_args || ltb 0 p.argc }

-- `malloc` grants a block, whose bytes are `contents` before they are written.
module _ {W : Type 0} (fl : DateFloats) (malloc : ℕ → Bool) (contents : ℕ → List ℕ)
    (dn_recv : Recv W) (type : ConnType) (client : Bool) (fuel : ℕ) where
  -- The rounds that are left, with the code so far.
  abbrev pub Again : Type 0
  Again = Hresult → Room → Peer → W → Outcome (Received W)

  -- "flag_crc": a packet that was read and has another checksum is followed by a new round.
  abbrev pub check_crc : Again → Room → ℕ → Got W → Packet → Outcome (Received W)
  check_crc again room len g p =
      let repeated = again s_ok (room_after room p) g.peer g.world in
      if crc_matches type len g.bytes
      then ok (record { hr = s_ok; packet = some p; peer = g.peer; world = g.world })
      else repeated

  abbrev pub decoded : Again → Room → ℕ → Got W → Outcome Packet → Outcome (Received W)
  decoded again room len g (ok p) = check_crc again room len g p
  decoded again room len g (failed hr) = ended hr g.peer g.world
  decoded again room len g fault = fault
  decoded again room len g out_of_fuel = out_of_fuel

  -- From bcap_bytary2packet on.
  unfoldable pub filled : Again → Room → ℕ → Got W → Outcome (Received W)
  unfolding crc_matches
  filled again room len g =
      let result = decoded again room len g (bytary2packet fl malloc (suc len) g.bytes len room) in
      if is_failed g.hr then ended g.hr g.peer g.world else result

  -- The first bytes of the block: read over TCP, where the code of dn_recv is not looked at, and
  -- those at hand otherwise.
  unfoldable pub first_bytes : ℕ → List ℕ → W → List ℕ × W
  first_bytes len bytes w =
      let a = dn_recv false len w in
      let stale : ℕ = elim a.stored [ none ↦ length bytes | some n ↦ n ] in
      if peeks type
      then (if is_failed a.hr then take stale (contents len) else a.bytes, a.world)
      else (take len bytes, w)

  -- From malloc on.
  unfoldable pub take_packet : Again → Room → ℕ → Got W → Outcome (Received W)
  unfolding first_bytes filled
  take_packet again room len g =
      let (bytes, w) = first_bytes len g.bytes g.world in
      let result = (do
        g' ← fill dn_recv type client fuel g.hr len g.peer bytes w
        filled again room len g') in
      if malloc len then result else ended e_outofmemory g.peer g.world

  -- A length that is out of range: one byte is taken over TCP, and all the bytes at hand are lost
  -- otherwise, since a new round begins with none.
  unfoldable pub skip_header : W → W
  skip_header w = if peeks type then (dn_recv false 1 w).world else w

  unfoldable pub gathered : Again → Room → Got W → Outcome (Received W)
  unfolding take_packet skip_header
  gathered again room g =
      let len = len_of g.bytes in
      let result = take_packet again room len g in
      let repeated = again g.hr room g.peer (skip_header g.world) in
      if is_failed g.hr
      then ended g.hr g.peer g.world
      else if ltb len (len_min type) || ltb (len_max type) len
      then repeated
      else result

  -- The outer `while (1)`, with fuel for its rounds.
  unfoldable pub rounds : ℕ → Again
  rounds zero hr room peer w = out_of_fuel
  rounds (suc n) hr room peer w = do
    g ← gather dn_recv type client fuel hr peer [] w
    gathered (rounds n) room g

-- check_conn_param with BCAP_CHECK_RECV
unfoldable pub check_recv_param : Common → Bool → Hresult
check_recv_param device has_recv =
    if not (ltb 0 device.sock && ltb device.sock 0x80000000)
    then e_handle
    else if not has_recv
    then e_invalidarg
    else s_ok

-- bcap_recv, with `fuel` for each loop; `addr` is the address behind `device->arg`.
unfoldable pub bcap_recv :
    {W : Type 0}
    → DateFloats
    → (ℕ → Bool)
    → (ℕ → List ℕ)
    → Recv W
    → Common
    → Bool
    → Bool
    → ℕ
    → Room
    → ℕ
    → W
    → Outcome (Received W)
unfolding check_recv_param
bcap_recv fl malloc contents dn_recv device has_recv client fuel room addr w =
    let hr = check_recv_param device has_recv in
    let peer : Peer = record { addr = addr; flag_init = false } in
    let result = rounds fl malloc contents dn_recv device.type client fuel fuel hr room peer w in
    if is_failed hr
    then ended hr peer w
    else if lacks_arg device device.type
    then ended e_invalidarg peer w
    else result
