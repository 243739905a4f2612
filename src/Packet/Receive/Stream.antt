-- ===== src/Packet/Receive/Stream.antt =====
-- bcap_recv of bcap_core/src/bcap_common.c on a TCP stream.
use denso_robot_ros.Prelude.{
  ℕ, suc, ◌+◌, ◌^◌, ◌≤◌, ◌<◌, ◌≡◌, refl, ap, sym, ◌∙◌, some, List, ◌∷◌, ◌++◌, length, length-append,
  take, drop, take-append_self, drop-append_self, Bool, true, false, leb, le→leb, arith,
}
use denso_robot_ros.Hresult.{ok, s_ok}
use denso_robot_ros.Device.{conn_tcp}
use denso_robot_ros.Robotalk.Receive.{Peer}
use denso_robot_ros.Codec.Date.{DateFloats}
use denso_robot_ros.Packet.{Packet}
use denso_robot_ros.Packet.Decode.{Room}
use denso_robot_ros.Packet.RoundTrip.{received_packet}
use denso_robot_ros.Packet.Send.{Common}
use denso_robot_ros.Packet.OnLine.{on_line}
use denso_robot_ros.Packet.Receive.{
  Recv, len_of, fill, first_bytes, rounds, check_recv_param, bcap_recv,
}
use denso_robot_ros.Packet.Receive.Looks.{IsStream, IsNoise, gather-stream}
use denso_robot_ros.Packet.Receive.Whole.{
  len_min-line_size, len_of-take, len_of-append, line_size, length-on_line, len_of-on_line,
  IsWelcome, gathered-on_line, bcap_recv-round,
}

abbrev pub tcp_device : ℕ → Bool → Bool → Common
tcp_device sock has_arg has_send = record {
  sock = sock;
  type = conn_tcp;
  has_arg = has_arg;
  has_send = has_send;
}

-- bcap_recv over TCP passes over whatever stands in front of the header of a packet that bcap_send
-- has sent, gives the packet, and leaves what follows it on the stream, all of which has arrived.
-- There is no header byte in front, the packet can be sent, there is room and memory for it, and the
-- fuel is two above the bytes in front.
pub bcap_recv-stream :
    {W : Type 0} (fl : DateFloats) (malloc : ℕ → Bool) (contents : ℕ → List ℕ) (dn_recv : Recv W)
    (sock : ℕ) (has_arg has_send client : Bool) (fuel addr : ℕ) (p : Packet) (room : Room)
    (pending : W → List ℕ) (w : W) (noise rest : List ℕ)
    → check_recv_param (tcp_device sock has_arg has_send) true ≡ s_ok
    → IsStream dn_recv pending
    → IsWelcome fl malloc p room
    → IsNoise noise
    → pending w ≡ noise ++ (on_line fl p conn_tcp ++ rest)
    → length noise + 1 < fuel
    → (w' : W) × (bcap_recv fl malloc contents dn_recv
          (tcp_device sock has_arg has_send)
          true
          client
          (suc fuel)
          room
          addr
          w
        ≡ ok (record {
          hr = s_ok;
          packet = some (received_packet fl p);
          peer = record { addr = addr; flag_init = false };
          world = w';
        }))
      × (pending w' ≡ rest)
bcap_recv-stream fl malloc contents dn_recv sock has_arg has_send client fuel addr p room pending w
      noise rest checks stream welcome quiet sent enough =
    let size = length-on_line fl p conn_tcp in
    let peer : Peer = record { addr = addr; flag_init = false } in
    let whole = on_line fl p conn_tcp in
    let n = line_size fl p conn_tcp in
    let r = drop 1 whole ++ rest in
    let (k, w1, gathers, at_header, five) =
      gather-stream dn_recv pending stream client peer fuel noise r w quiet sent
        (omega (arith, size, len_min-line_size fl p conn_tcp, length-append (drop 1 whole) rest))
        enough in
    let low : n < 2 ^ 32 = omega (arith, welcome.small) in
    let header : 5 ≤ length whole = omega (arith, size, len_min-line_size fl p conn_tcp) in
    let len : len_of (take k (1 ∷ r)) ≡ n =
      len_of-take k (1 ∷ r) five (omega (arith, header, length-append (drop 1 whole) rest))
      ∙ len_of-append whole rest header
      ∙ len_of-on_line fl p conn_tcp low in
    let more : 0 < length (pending w1) = omega (arith, ap length at_header) in
    let good = stream.hr false n w1 (omega (arith, len_min-line_size fl p conn_tcp)) more in
    let got : (dn_recv false n w1).bytes ≡ whole =
      stream.bytes false n w1 (omega (arith, len_min-line_size fl p conn_tcp)) more
      ∙ ap (take n) at_header
      ∙ ap (λ i. take i (whole ++ rest)) (sym size)
      ∙ take-append_self whole rest in
    let w2 = (dn_recv false n w1).world in
    let left : pending w2 ≡ rest =
      stream.taken n w1
      ∙ ap (drop n) at_header
      ∙ ap (λ i. drop i (whole ++ rest)) (sym size)
      ∙ drop-append_self whole rest in
    let starts : first_bytes fl malloc contents dn_recv conn_tcp client (suc fuel) n
          (take k (1 ∷ r)) w1
        ≡ (whole, w2) =
      unfold first_bytes in rw (good, got) refl in
    let complete : leb n (length whole) ≡ true = le→leb n (length whole) (omega (arith, size)) in
    let fills : fill dn_recv conn_tcp client (suc fuel) s_ok n peer whole w2
        ≡ ok (record { hr = s_ok; bytes = whole; peer = peer; world = w2 }) =
      unfold fill in rw complete refl in
    let result =
      gathered-on_line fl malloc contents dn_recv conn_tcp client (suc fuel) p room welcome
        (rounds fl malloc contents dn_recv conn_tcp client (suc fuel) fuel) peer w2 w1 w2
        (take k (1 ∷ r)) whole (omega (arith, welcome.small)) len starts fills in
    (
      w2,
      bcap_recv-round fl malloc contents dn_recv (tcp_device sock has_arg has_send) client fuel addr
            room w _ checks refl gathers
          ∙ result,
      left,
    )
