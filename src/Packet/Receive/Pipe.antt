-- ===== src/Packet/Receive/Pipe.antt =====
-- bcap_send and bcap_recv of bcap_core/src/bcap_common.c at the two ends of a TCP connection.
use denso_robot_ros.Prelude.{
  ℕ, suc, zero, ◌+◌, ◌≡◌, refl, ap, sym, ◌∙◌, none, some, List, [], ◌∷◌, ◌++◌, map, append-nil,
  append_assoc, length, All, Bool, true, false, ltb, le→ltb, arith,
}
use denso_robot_ros.Hresult.{Hresult, Outcome, ok, s_ok, ◌>>=◌}
use denso_robot_ros.Device.{conn_tcp}
use denso_robot_ros.Codec.Date.{DateFloats}
use denso_robot_ros.Packet.{Packet}
use denso_robot_ros.Packet.Decode.{Room}
use denso_robot_ros.Packet.RoundTrip.{received_packet}
use denso_robot_ros.Packet.Send.{check_conn_param, len_max, bcap_send}
use denso_robot_ros.Packet.Wire.{wire_size}
use denso_robot_ros.Packet.OnLine.{on_line, bcap_send-on_line}
use denso_robot_ros.Packet.Receive.{Recv, check_recv_param, bcap_recv}
use denso_robot_ros.Packet.Receive.Looks.{IsStream}
use denso_robot_ros.Packet.Receive.Whole.{IsWelcome}
use denso_robot_ros.Packet.Receive.Stream.{tcp_device, bcap_recv-stream}

-- What dn_send is given comes behind what has arrived.
abbrev pub IsPipe : {W : Type 0} → (List ℕ → W → Hresult × W) → (W → List ℕ) → Type 0
IsPipe dn_send pending = (bytes : List ℕ) (w : _) → pending (dn_send bytes w).1 ≡ pending w ++ bytes

-- The packets on the line, one behind the other.
abbrev lines : DateFloats → List Packet → List ℕ
lines fl [] = []
lines fl (p ∷ ps) = on_line fl p conn_tcp ++ lines fl ps

module _ {W : Type 0} (fl : DateFloats) (malloc : ℕ → Bool) (contents : ℕ → List ℕ)
    (dn_send : List ℕ → W → Hresult × W) (dn_recv : Recv W) (sock : ℕ) (has_arg client : Bool)
    (room : Room) (addr : ℕ) where
  unfoldable pub send_all : List Packet → W → Outcome W
  send_all [] w = ok w
  send_all (p ∷ ps) w =
      bcap_send fl malloc dn_send (tcp_device sock has_arg true) p w >>= λ r. send_all ps r.1

  -- So many calls of bcap_recv, as long as each gives a packet.
  unfoldable pub recv_all : ℕ → W → Outcome (List Packet × W)
  recv_all zero w = ok ([], w)
  recv_all (suc n) w =
      bcap_recv fl malloc contents dn_recv (tcp_device sock has_arg true) true client 3 room addr w
      >>= λ r. elim r.packet [
        | none ↦ ok ([], r.world)
        | some p ↦ recv_all n r.world >>= λ s. ok (p ∷ s.0, s.1)
      ]

  module _ (pending : W → List ℕ) (pipe : IsPipe dn_send pending)
      (stream : IsStream dn_recv pending)
      (sends : check_conn_param (tcp_device sock has_arg true) ≡ s_ok)
      (receives : check_recv_param (tcp_device sock has_arg true) true ≡ s_ok) where
    send_all-lines :
        (ps : List Packet) (w : W)
        → All (λ p. IsWelcome fl malloc p room) ps
        → (w' : W) × (send_all ps w ≡ ok w') × (pending w' ≡ pending w ++ lines fl ps)
    unfolding send_all
    send_all-lines [] w h = (w, refl, sym (append-nil (pending w)))
    send_all-lines (p ∷ ps) w (h, hs) =
        let w1 = (dn_send (on_line fl p conn_tcp) w).1 in
        let fits : ltb (len_max conn_tcp) (wire_size fl p + 0) ≡ false =
          le→ltb (len_max conn_tcp) (wire_size fl p + 0) (omega (arith, h.small)) in
        let sent =
          bcap_send-on_line fl malloc dn_send p w h.memory h.sendable h.small
            (tcp_device sock has_arg true) sends refl in
        let (w', runs, there) = send_all-lines ps w1 hs in
        (
          w',
          rw (sent, fits) runs,
          there
              ∙ ap (λ b. b ++ lines fl ps) (pipe (on_line fl p conn_tcp) w)
              ∙ append_assoc (pending w) (on_line fl p conn_tcp) (lines fl ps),
        )

    recv_all-lines :
        (ps : List Packet) (w : W)
        → All (λ p. IsWelcome fl malloc p room) ps
        → pending w ≡ lines fl ps
        → (w' : W) × (recv_all (length ps) w ≡ ok (map (received_packet fl) ps, w'))
          × (pending w' ≡ [])
    unfolding recv_all
    recv_all-lines [] w h there = (w, refl, there)
    recv_all-lines (p ∷ ps) w (h, hs) there =
        let (w1, received, left) =
          bcap_recv-stream fl malloc contents dn_recv sock has_arg true client 2 addr p room pending
            w [] (lines fl ps) receives stream h tt there (omega arith) in
        let (w', runs, empty) = recv_all-lines ps w1 hs left in
        (w', rw (received, runs) refl, empty)

-- A TCP connection keeps the order: the packets that bcap_send is given one after the other are those
-- that as many calls of bcap_recv give, in their order, with their arguments as they arrive, and
-- nothing is left. What is sent comes behind what has arrived, and all of it has arrived; nothing is
-- there before; both ends pass the checks of the device, each packet can be sent and is received,
-- and there is memory.
pub recv_all-send_all :
    {W : Type 0} (fl : DateFloats) (malloc : ℕ → Bool) (contents : ℕ → List ℕ)
    (dn_send : List ℕ → W → Hresult × W) (dn_recv : Recv W) (sock : ℕ) (has_arg client : Bool)
    (room : Room) (addr : ℕ) (pending : W → List ℕ) (ps : List Packet) (w : W)
    → IsPipe dn_send pending
    → IsStream dn_recv pending
    → check_conn_param (tcp_device sock has_arg true) ≡ s_ok
    → check_recv_param (tcp_device sock has_arg true) true ≡ s_ok
    → All (λ p. IsWelcome fl malloc p room) ps
    → pending w ≡ []
    → (w' : W) × ((send_all fl malloc contents dn_send dn_recv sock has_arg client room addr ps w
          >>= recv_all fl malloc contents dn_send dn_recv sock has_arg client room addr (length ps))
        ≡ ok (map (received_packet fl) ps, w'))
      × (pending w' ≡ [])
recv_all-send_all fl malloc contents dn_send dn_recv sock has_arg client room addr pending ps w pipe
      stream sends receives welcome nothing =
    let (w1, sent, there) =
      send_all-lines fl malloc contents dn_send dn_recv sock has_arg client room addr pending pipe
        stream sends receives ps w welcome in
    let (w2, received, left) =
      recv_all-lines fl malloc contents dn_send dn_recv sock has_arg client room addr pending pipe
        stream sends receives ps w1 welcome (there ∙ ap (λ b. b ++ lines fl ps) nothing) in
    (w2, rw sent received, left)
