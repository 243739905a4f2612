-- ===== src/Robotalk.antt =====
-- ROBOTalk packets: union RTK_PACKET, rtk_param2packet, rtk_calc_crc and rtk_send of
-- bcap_core/src/dn_robotalk.c, with memcpy_be of bcap_core/src/dn_device.c.
pub mod Receive
pub mod Frame
pub mod RoundTrip
pub mod Refusals
mod Tests
use denso_robot_ros.Prelude.{
  ℕ, zero, suc, ◌+◌, ◌-◌, ◌%◌, ◌^◌, List, [], ◌∷◌, ◌++◌, Option, none, some, length, take, drop,
  Bool, true, false, not, ◌&&◌, ltb, ◌==◌, if◌then◌else◌,
}
use denso_robot_ros.Hresult.{
  Hresult, Outcome, ok, failed, fault, ◌>>=◌, s_ok, e_handle, e_invalidarg, e_too_much_data,
}
use denso_robot_ros.Bytes.{le_bytes}
use denso_robot_ros.Device.{ConnType, conn_tcp, conn_udp, conn_com}

-- The bytes of union RTK_PACKET: enq, len, two of the command, from_id, to_id, and 250 of data.
abbrev pub Buf : Type 0
Buf = List ℕ

abbrev pub rtk_enq : ℕ
rtk_enq = 5

abbrev pub rtk_cmd_nak : ℕ
rtk_cmd_nak = 0x0e82

abbrev pub rtk_size_packet : ℕ
rtk_size_packet = 256

abbrev pub rtk_size_header : ℕ
rtk_size_header = 6

abbrev pub rtk_size_crc : ℕ
rtk_size_crc = 2

abbrev pub rtk_size_data : ℕ
rtk_size_data = 250

-- memcpy_be on a host with the lowest byte first: the bytes of an object in the other order.
unfoldable pub memcpy_be : List ℕ → List ℕ
memcpy_be [] = []
memcpy_be (b ∷ bs) = memcpy_be bs ++ b ∷ []

-- memcpy to a position of a block
unfoldable pub write_at : ℕ → List ℕ → Buf → Buf
write_at zero bs buf = bs ++ drop (length bs) buf
write_at (suc n) bs [] = []
write_at (suc n) bs (x ∷ xs) = x ∷ write_at n bs xs

abbrev pub or_zero : Option ℕ → ℕ
or_zero none = 0
or_zero (some b) = b

-- `packet->len`
abbrev pub len_of : Buf → ℕ
len_of [] = 0
len_of (e ∷ []) = 0
len_of (e ∷ len ∷ bs) = len

abbrev pub copy_data : Option (List ℕ) → ℕ → Buf → Outcome Buf
copy_data none len buf = ok buf
copy_data (some data_) len buf =
    if ltb (length data_) len then fault else ok (write_at 6 (take len data_) buf)

abbrev pub is_null : Option (List ℕ) → Bool
is_null none = true
is_null (some data_) = false

-- The contents of `packet` after the call, from its contents before.
unfoldable pub param2packet : ℕ → Option (List ℕ) → ℕ → ℕ → ℕ → Buf → Outcome Buf
unfolding memcpy_be write_at
param2packet command data_ len_data from_id to_id packet =
    if ltb 0 len_data && is_null data_
    then failed e_invalidarg
    else if ltb (rtk_size_data - rtk_size_crc) len_data
    then failed e_invalidarg
    else copy_data data_ len_data (
        write_at 5 (to_id ∷ []) (
          write_at 4 (from_id ∷ []) (
            write_at 2 (memcpy_be (le_bytes 2 command))
              (write_at 0 (rtk_enq ∷ len_data ∷ []) packet))))

-- `crc += (uint16_t) packet->buf[pos]`
unfoldable pub add_bytes : ℕ → List ℕ → ℕ
add_bytes crc [] = crc
add_bytes crc (b ∷ bs) = add_bytes ((crc + b) % 2 ^ 16) bs

abbrev pub clamped_len : Buf → ℕ
clamped_len packet =
    if ltb (rtk_size_data - rtk_size_crc) (len_of packet)
    then rtk_size_data - rtk_size_crc
    else len_of packet

unfoldable pub calc_crc : Buf → ℕ
unfolding add_bytes
calc_crc packet = add_bytes 0 (take (rtk_size_header + clamped_len packet) packet)

-- The functions of the device. `dn_recv` is given the room, and gives the code, the bytes, and the
-- address that they come from.
pub record Line (W : Type 0) : Type 0 where
  pub dn_send : List ℕ → W → Hresult × W
  pub dn_recv : ℕ → W → Hresult × List ℕ × ℕ × W

-- The packet with its checksum, or the code that refuses it.
unfoldable pub seal : Buf → Outcome Buf
unfolding calc_crc memcpy_be write_at
seal packet =
    if ltb rtk_size_packet (rtk_size_header + rtk_size_crc + len_of packet)
    then failed e_too_much_data
    else ok (
        write_at (rtk_size_header + len_of packet) (memcpy_be (le_bytes 2 (calc_crc packet)))
          packet)

-- rtk_send, after check_conn_param and with an address where the type is UDP.
unfoldable pub send : {W : Type 0} → Line W → Buf → W → Outcome (Hresult × W)
unfolding seal
send line packet w = do
  sealed ← seal packet
  ok (line.dn_send (take (rtk_size_header + rtk_size_crc + len_of sealed) sealed) w)
