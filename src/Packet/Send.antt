-- ===== src/Packet/Send.antt =====
-- bcap_send of bcap_core/src/bcap_common.c, with check_conn_param of bcap_core/src/dn_device.c.
use denso_robot_ros.Prelude.{
  ℕ, ◌+◌, ◌-◌, ◌%◌, ◌^◌, List, ◌++◌, take, drop, Bool, false, not, ◌&&◌, ltb, if◌then◌else◌,
}
use denso_robot_ros.Hresult.{
  Hresult, Outcome, ok, failed, ◌>>=◌, is_failed, s_ok, e_handle, e_invalidarg, e_outofmemory,
  e_too_much_data,
}
use denso_robot_ros.Bytes.{le_bytes}
use denso_robot_ros.Crc.{calc_crc}
use denso_robot_ros.Device.{ConnType, conn_tcp, conn_udp, conn_com}
use denso_robot_ros.Codec.Date.{DateFloats}
use denso_robot_ros.Packet.{Packet, calc_size_packet, packet2bytary}

-- struct CONN_PARAM_COMMON, as far as bcap_send looks at it: of `arg` and `dn_send`, whether they
-- are set. A socket is a 32-bit pattern.
pub record Common : Type 0 where
  pub sock : ℕ
  pub type : ConnType
  pub has_arg : Bool
  pub has_send : Bool

-- check_conn_param with BCAP_CHECK_SEND, which allows each of the three types.
unfoldable pub check_conn_param : Common → Hresult
check_conn_param device =
    if not (ltb 0 device.sock && ltb device.sock 0x80000000)
    then e_handle
    else if not device.has_send
    then e_invalidarg
    else s_ok

abbrev pub len_max : ConnType → ℕ
len_max conn_tcp = 0xffffffff
len_max conn_udp = 503
len_max conn_com = 503

abbrev pub crc_room : ConnType → ℕ
crc_room conn_tcp = 0
crc_room conn_udp = 0
crc_room conn_com = 2

abbrev pub lacks_arg : Common → ConnType → Bool
lacks_arg device conn_udp = not device.has_arg
lacks_arg device conn_tcp = false
lacks_arg device conn_com = false

-- The checksum, in front of the terminator of a packet of `len` bytes.
unfoldable pub put_crc : ℕ → List ℕ → List ℕ
put_crc len buf =
    take (len - 3) buf ++ le_bytes 2 (calc_crc (take (len - 4) (drop 1 buf))) ++ drop (len - 1) buf

abbrev pub sealed : ConnType → ℕ → List ℕ → List ℕ
sealed conn_tcp len buf = buf
sealed conn_udp len buf = buf
sealed conn_com len buf = put_crc len buf

-- From `len_send > len_max` on.
unfoldable pub send_bytes :
    {W : Type 0}
    → DateFloats
    → (ℕ → Bool)
    → (List ℕ → W → Hresult × W)
    → ConnType
    → Packet
    → ℕ
    → W
    → Outcome (Hresult × W)
send_bytes fl malloc dn_send type p len w =
    if ltb (len_max type) len
    then failed e_too_much_data
    else if not (malloc len)
    then failed e_outofmemory
    else packet2bytary fl p len >>= λ buf. ok (dn_send (sealed type len buf) w)

-- bcap_send: a code that refuses the packet, or the code of dn_send with the state after it.
unfoldable pub bcap_send :
    {W : Type 0}
    → DateFloats
    → (ℕ → Bool)
    → (List ℕ → W → Hresult × W)
    → Common
    → Packet
    → W
    → Outcome (Hresult × W)
unfolding check_conn_param
bcap_send fl malloc dn_send device p w =
    let hr = check_conn_param device in
    if is_failed hr
    then failed hr
    else if lacks_arg device device.type
    then failed e_invalidarg
    else send_bytes fl malloc dn_send device.type p
        ((calc_size_packet p + crc_room device.type) % 2 ^ 32) w
