-- ===== src/Client/Open.antt =====
-- bCap_Open_Client of bcap_core/src/bCAPClient/bcap_client.c.
use denso_robot_ros.Prelude.{
  ℕ, ◌-◌, [], ◌∷◌, Option, none, some, Bool, get_elem?, set, ◌==◌, if◌then◌else◌,
}
use denso_robot_ros.Hresult.{Hresult, is_failed, s_ok, e_invalidarg, e_outofmemory, e_max_object}
use denso_robot_ros.Device.{Chars, ConnType, conn_tcp, conn_udp, conn_com, parse_conn_type, Libc}
use denso_robot_ros.Device.Ether.{ConnParamEth, htons, parse_conn_param_ether}
use denso_robot_ros.Device.Serial.{ConnParamCom, parse_conn_param_serial}
use denso_robot_ros.Client.{
  Conn, Conns, Net, Target, tcp_target, udp_target, com_target, unused, if_open, find_open_address,
}
use denso_robot_ros.Client.Options.{set_timeout, set_retry, close_client}

-- "127.0.0.1"
abbrev pub localhost : Chars
localhost = 49 ∷ 50 ∷ 55 ∷ 46 ∷ 48 ∷ 46 ∷ 48 ∷ 46 ∷ 49 ∷ []

abbrev pub default_eth : Libc → ConnParamEth
default_eth libc = record {
  dst_addr = libc.inet_addr localhost;
  dst_port = htons 5007;
  src_addr = 0;
  src_port = 0;
}

abbrev pub default_com : ConnParamCom
default_com = record {
  port = 1;
  baud_rate = 38400;
  parity = 0;
  data_bits = 8;
  stop_bits = 0;
  flow = 0;
}

abbrev pub sockaddr_size : ℕ
sockaddr_size = 16

-- The switch on the type: the code, what dn_open is given, and the slot.
unfoldable pub prepare :
    Libc → (ℕ → Bool) → Option Chars → Option ConnType → Conn → Hresult × Target × Conn
prepare libc malloc connect none c =
    (e_invalidarg, com_target default_com, record c { type = none })
prepare libc malloc connect (some conn_tcp) c =
    let (hr, eth) = parse_conn_param_ether libc malloc connect (default_eth libc) in
    (hr, tcp_target eth, record c { type = some conn_tcp; dest = none })
prepare libc malloc connect (some conn_udp) c =
    let (hr, eth) = parse_conn_param_ether libc malloc connect (default_eth libc) in
    if malloc sockaddr_size
    then (
      hr,
      udp_target eth,
      record c { type = some conn_udp; dest = some (eth.dst_addr, eth.dst_port) },
    )
    else (e_outofmemory, udp_target eth, record c { type = some conn_udp })
prepare libc malloc connect (some conn_com) c =
    let (hr, line) = parse_conn_param_serial libc malloc connect default_com in
    (hr, com_target line, record c { type = some conn_com; dest = none })

-- The code, the descriptor that is stored through `pfd`, and the table.
abbrev pub Opened : Type 0 → Type 0
Opened W = Hresult × Option ℕ × Conns × W

module _ {W : Type 0} (net : Net W) where
  -- Closing what was opened, where an option is refused.
  unfoldable pub give_up : Hresult → Conns → ℕ → W → Opened W
  give_up hr conns index w =
      let (_, _, conns', w') = close_client net conns index w in (hr, none, conns', w')

  -- `bcap_param->serial = 1`
  unfoldable pub start_serial : Conns → ℕ → Conns
  start_serial conns index =
      if_open (get_elem? conns (index - 1)) conns
        λ c. set conns (index - 1) (record c { serial = 1 })

  -- The options and the serial number, behind dn_open.
  unfoldable pub set_up : Conns → ℕ → ℕ → ℕ → W → Opened W
  unfolding give_up start_serial
  set_up conns index timeout retry w =
      let (ht, conns1, w1) = set_timeout net conns index timeout w in
      let (hr, conns2, w2) = set_retry net conns1 index retry w1 in
      if is_failed ht
      then give_up ht conns1 index w1
      else if is_failed hr
      then give_up hr conns2 index w2
      else (s_ok, some index, start_serial conns2 index, w2)

  -- The mutex and the connection.
  unfoldable pub connect_slot : Conns → ℕ → Target → Conn → ℕ → ℕ → W → Opened W
  unfolding set_up
  connect_slot conns index target c timeout retry w =
      let (hm, w1) = net.initialize_mutex w in
      let (ho, sock, w2) = net.dn_open target w1 in
      if is_failed hm
      then (hm, none, set conns (index - 1) (record c { dest = none }), w1)
      else if is_failed ho
      then (ho, none, set conns (index - 1) unused, net.release_mutex w2)
      else set_up (set conns (index - 1) (record c { sock = sock })) index timeout retry w2

  abbrev pub note_timeout : Option ConnType → ℕ → W → W
  note_timeout none timeout w = w
  note_timeout (some conn_tcp) timeout w = net.set_tcp_conn_timeout timeout w
  note_timeout (some conn_udp) timeout w = w
  note_timeout (some conn_com) timeout w = w

  -- A slot is taken for the descriptor `index`.
  unfoldable pub open_slot :
      Libc → (ℕ → Bool) → Option Chars → ℕ → ℕ → Conns → ℕ → Conn → W → Opened W
  unfolding prepare connect_slot
  open_slot libc malloc connect timeout retry conns index c w =
      let type = parse_conn_type connect in
      let (hr, target, c') = prepare libc malloc connect type c in
      let w' = note_timeout type timeout w in
      if is_failed hr
      then (hr, none, set conns (index - 1) unused, w')
      else connect_slot conns index target c' timeout retry w'

  -- bCap_Open_Client; `pfd` is not NULL.
  unfoldable pub open_client : Libc → (ℕ → Bool) → Option Chars → ℕ → ℕ → Conns → W → Opened W
  unfolding open_slot
  open_client libc malloc none timeout retry conns w = (e_invalidarg, none, conns, w)
  open_client libc malloc (some connect) timeout retry conns w =
      let index = find_open_address conns in
      if index == 0
      then (e_max_object, none, conns, w)
      else if_open (get_elem? conns (index - 1)) (e_max_object, none, conns, w)
          λ c. open_slot libc malloc (some connect) timeout retry conns index c w
