-- ===== src/Robotalk/Refusals.antt =====
-- What rtk_recv of bcap_core/src/dn_robotalk.c does with a packet that it cannot take.
use denso_robot_ros.Prelude.{
  ℕ, suc, ◌+◌, ◌%◌, ◌^◌, ◌≤◌, ◌<◌, ◌≡◌, ◌≢◌, refl, ◌∙◌, List, [], ◌∷◌, ◌++◌, length, length-append,
  drop, Bool, false, le→ltb, ne→==, arith,
}
use denso_robot_ros.Hresult.{ok, s_ok, is_failed, e_invalidpacket}
use denso_robot_ros.Device.{ConnType}
use denso_robot_ros.Bytes.{le_bytes}
use denso_robot_ros.Robotalk.{Buf, Line, rtk_cmd_nak, memcpy_be, write_at, param2packet}
use denso_robot_ros.Robotalk.Frame.{total, be_bytes_2, head, frame, take-length, send-head}
use denso_robot_ros.Robotalk.Receive.{Peer, met, send_nak, order_command, check_crc, rounds, recv}
use denso_robot_ros.Robotalk.RoundTrip.{crc_matches-head, gather-frame, fill_complete}

-- The NAK goes to the device as a frame without data.
send_nak-frame :
    {W : Type 0} (line : Line W) (type : ConnType) (client : Bool) (from_id to_id : ℕ) (w : W)
    → send_nak line type client from_id to_id w
      ≡ ok (line.dn_send (frame rtk_cmd_nak from_id to_id []) w)
unfolding send_nak param2packet write_at memcpy_be le_bytes
send_nak-frame line type client from_id to_id w =
    send-head line rtk_cmd_nak from_id to_id [] (0 ∷ 0 ∷ []) w (omega arith)

-- Without retries, a frame whose last two bytes are not the sum of the others is refused: rtk_recv
-- answers with a NAK to the ids of the frame, and returns E_INVALIDPACKET once the NAK is sent. The
-- device gives the frame at once, over UDP from the address that is asked for.
pub recv-corrupted :
    {W : Type 0} (line : Line W) (type : ConnType) (client : Bool)
    (fuel addr command from_id to_id from n : ℕ) (data_ : List ℕ) (packet : Buf) (peer : Peer)
    (w w' : W)
    → length data_ ≤ 248
    → n < 2 ^ 16
    → total (head command from_id to_id data_) % 2 ^ 16 ≢ n
    → line.dn_recv 503 w ≡ (s_ok, head command from_id to_id data_ ++ be_bytes_2 n, from, w')
    → met type client (record { addr = addr; flag_init = false }) s_ok from ≡ (s_ok, peer)
    → is_failed ((line.dn_send (frame rtk_cmd_nak from_id to_id []) w').0) ≡ false
    → recv line type client (suc (suc fuel)) 0 addr packet w
      ≡ ok (record {
        hr = e_invalidpacket;
        packet =
            head command from_id to_id data_
            ++ be_bytes_2 n
            ++ drop (length (head command from_id to_id data_ ++ be_bytes_2 n)) packet;
        peer = peer;
        world = (line.dn_send (frame rtk_cmd_nak from_id to_id []) w').1;
      })
unfolding recv rounds check_crc order_command memcpy_be write_at
recv-corrupted line type client fuel addr command from_id to_id from n data_ packet peer w w' short
      range wrong arrives known sent =
    let h = head command from_id to_id data_ in
    let f = h ++ be_bytes_2 n in
    let eight : 8 + length data_ ≡ length f = omega (arith, length-append data_ (be_bytes_2 n)) in
    let got =
      gather-frame line type client fuel s_ok (record { addr = addr; flag_init = false }) peer from
        (length data_) _ w w' (omega (arith, eight)) arrives known in
    let completes =
      fill_complete line type client (suc fuel) (length f) s_ok peer f w' (omega arith) in
    let bad =
      crc_matches-head command from_id to_id n data_ (drop (length f) packet) short range
      ∙ ne→== (total h % 2 ^ 16) n wrong in
    rw
      (
        got,
        le→ltb 256 (8 + length data_) (omega (arith, short)),
        eight,
        take-length f,
        completes,
        bad,
        send_nak-frame line type client from_id to_id w',
        sent,
      )
      refl
