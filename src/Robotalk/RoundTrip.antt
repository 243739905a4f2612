-- ===== src/Robotalk/RoundTrip.antt =====
-- rtk_recv of bcap_core/src/dn_robotalk.c on a frame that rtk_send has sent.
use denso_robot_ros.Prelude.{
  ℕ, suc, ◌+◌, ◌/◌, ◌%◌, ◌^◌, ◌≤◌, ◌<◌, ◌≡◌, refl, ap, ◌∙◌, List, [], ◌∷◌, ◌++◌, append_assoc,
  length, length-append, take, drop, drop-append_self, Bool, true, false, le→ltb, le→leb, ◌==◌,
  arith,
}
use denso_robot_ros.Hresult.{Hresult, ok, s_ok}
use denso_robot_ros.Bytes.{from_le}
use denso_robot_ros.Device.{ConnType}
use denso_robot_ros.Robotalk.{Buf, Line, memcpy_be, write_at}
use denso_robot_ros.Robotalk.Frame.{total, be_bytes_2, head, frame, take-length, calc_crc-head}
use denso_robot_ros.Robotalk.Receive.{
  Peer, met, seek, gather, fill, crc_matches, order_command, check_crc, rounds, recv,
}

-- The packet after the call: the command in the order of the host, and what was there before behind
-- the checksum.
abbrev pub received_frame : ℕ → ℕ → ℕ → List ℕ → Buf → Buf
received_frame command from_id to_id data_ packet =
    5
    ∷ length data_
    ∷ (command % 256)
    ∷ (command / 256 % 256)
    ∷ from_id
    ∷ to_id
    ∷ (data_
        ++ be_bytes_2 (total (head command from_id to_id data_) % 2 ^ 16)
        ++ drop (length (frame command from_id to_id data_)) packet)

-- The sum of the bytes in front of two others is what they say.
pub crc_matches-head :
    (command from_id to_id n : ℕ) (data_ rest : List ℕ)
    → length data_ ≤ 248
    → n < 2 ^ 16
    → crc_matches (head command from_id to_id data_ ++ be_bytes_2 n ++ rest)
      ≡ (total (head command from_id to_id data_) % 2 ^ 16 == n)
unfolding crc_matches memcpy_be from_le
crc_matches-head command from_id to_id n data_ rest short range =
    let h = head command from_id to_id data_ in
    let sum = calc_crc-head command from_id to_id data_ (be_bytes_2 n ++ rest) short in
    let six : 6 + length data_ ≡ length h = omega arith in
    let carried : from_le (memcpy_be (be_bytes_2 n)) ≡ n = omega (arith, range) in
    let behind =
      ap (λ b. from_le (memcpy_be (take 2 b))) (drop-append_self h (be_bytes_2 n ++ rest)) in
    rw (append_assoc h (be_bytes_2 n) rest, sum, six)
      (ap (λ k. total h % 2 ^ 16 == k) (behind ∙ carried))

module _ {W : Type 0} (line : Line W) (type : ConnType) (client : Bool) where
  -- The first loop takes a frame that dn_recv gives at once.
  pub gather-frame :
      (fuel : ℕ) (hr0 : Hresult) (peer peer' : Peer) (from len : ℕ) (bs : List ℕ) (w w' : W)
      → 8 ≤ length (5 ∷ len ∷ bs)
      → line.dn_recv 503 w ≡ (s_ok, 5 ∷ len ∷ bs, from, w')
      → met type client peer s_ok from ≡ (s_ok, peer')
      → gather line type client (suc (suc fuel)) hr0 peer [] w
        ≡ ok (record { hr = s_ok; bytes = 5 ∷ len ∷ bs; peer = peer'; world = w' })
  unfolding gather seek
  gather-frame fuel hr0 peer peer' from len bs w w' enough arrives known =
      rw (arrives, known, le→leb 8 (length (5 ∷ len ∷ bs)) enough) refl

  -- Nothing is left for the second loop.
  pub fill_complete :
      (fuel n : ℕ) (hr0 : Hresult) (peer : Peer) (bytes : List ℕ) (w : W)
      → n ≤ length bytes
      → fill line type client (suc fuel) hr0 n peer bytes w
        ≡ ok (record { hr = hr0; bytes = bytes; peer = peer; world = w })
  unfolding fill
  fill_complete fuel n hr0 peer bytes w enough = rw (le→leb n (length bytes) enough) refl

-- A frame that the device gives at once, over UDP from the address that is asked for, is received:
-- rtk_recv returns S_OK, without a NAK, and the packet has the command in the order of the host,
-- the ids and the data of the frame.
pub recv-frame :
    {W : Type 0} (line : Line W) (type : ConnType) (client : Bool)
    (fuel retry_nak addr command from_id to_id from : ℕ) (data_ : List ℕ) (packet : Buf)
    (peer : Peer) (w w' : W)
    → length data_ ≤ 248
    → line.dn_recv 503 w ≡ (s_ok, frame command from_id to_id data_, from, w')
    → met type client (record { addr = addr; flag_init = false }) s_ok from ≡ (s_ok, peer)
    → recv line type client (suc (suc fuel)) retry_nak addr packet w
      ≡ ok (record {
        hr = s_ok;
        packet = received_frame command from_id to_id data_ packet;
        peer = peer;
        world = w';
      })
unfolding recv rounds check_crc order_command memcpy_be write_at
recv-frame line type client fuel retry_nak addr command from_id to_id from data_ packet peer w w'
      short arrives known =
    let h = head command from_id to_id data_ in
    let n = total h % 2 ^ 16 in
    let f = frame command from_id to_id data_ in
    let eight : 8 + length data_ ≡ length f = omega (arith, length-append data_ (be_bytes_2 n)) in
    let got =
      gather-frame line type client fuel s_ok (record { addr = addr; flag_init = false }) peer from
        (length data_) _ w w' (omega (arith, eight)) arrives known in
    let completes =
      fill_complete line type client (suc fuel) (length f) s_ok peer f w' (omega arith) in
    let fits : (n == n) ≡ true = ground arith in
    let good =
      crc_matches-head command from_id to_id n data_ (drop (length f) packet) short (omega arith)
      ∙ fits in
    rw
      (
        got,
        le→ltb 256 (8 + length data_) (omega (arith, short)),
        eight,
        take-length f,
        completes,
        good,
      )
      refl
