-- ===== src/Server/Once.antt =====
-- The retries of send_receive of bcap_core/src/bCAPClient/bcap_client.c at receive_execute of
-- bcap_core/src/bCAPServer/bcap_server.c, over UDP.
use denso_robot_ros.Prelude.{
  ℕ, zero, suc, ◌+◌, ◌<◌, ◌^◌, ◌≡◌, ◌≢◌, refl, ap, sym, subst, ◌∙◌, List, [], ◌∷◌, ◌++◌, some, map,
  All, replicate, arith,
}
use denso_robot_ros.Hresult.{Outcome, ok, ◌>>=◌, s_executing}
use denso_robot_ros.Device.{conn_udp}
use denso_robot_ros.Packet.{Packet}
use denso_robot_ros.Client.Transfer.{next_serial}
use denso_robot_ros.Client.Answers.{numbered}
use denso_robot_ros.Server.Execute.{
  Node, Server, Calls, Situation, Served, callfunc, retry_serial, notice,
}
use denso_robot_ros.Server.Children.{search_node}
use denso_robot_ros.Server.Receive.{receive_execute}
use denso_robot_ros.Server.Retry.{IsPlain, IsSmooth, retried, executed, callfunc-serial}

-- The packets of one client, each in its situation: those that the server sends, and the states.
unfoldable pub serve_all :
    {W : Type 0}
    → Calls W
    → (ℕ → Situation)
    → ℕ
    → ℕ
    → Server
    → List Packet
    → W
    → Outcome (List Packet × Server × W)
unfolding receive_execute
serve_all calls sits addr i s [] w = ok ([], s, w)
serve_all calls sits addr i s (p ∷ ps) w = do
  r ← receive_execute calls s addr p (sits i) w
  (sent, s', w') ← serve_all calls sits addr (i + 1) r.server ps r.world
  ok (r.sent ++ sent, s', w')

-- The answer `q` under the number of each packet.
abbrev pub copies : Packet → List Packet → List Packet
copies q ps = map (λ p. record q { serial = p.serial }) ps

retry_serial-numbered :
    (request : Packet) (s k : ℕ)
    → request.reserv ≢ 0
    → All (λ p. retry_serial p ≡ request.reserv) (numbered request s k)
unfolding numbered retry_serial
retry_serial-numbered request s zero h = tt
retry_serial-numbered request s (suc k) h =
    (ground (arith, h), retry_serial-numbered request (next_serial s) k h)

module _ {W : Type 0} (calls : Calls W) (sits : ℕ → Situation) (addr : ℕ) where
  -- Repeated requests change nothing.
  retried-All :
      (i : ℕ) (s : Server) (n : Node) (ps : List Packet) (w : W)
      → s.type ≡ conn_udp
      → search_node s.children addr ≡ some n
      → All (λ p. retry_serial p ≡ n.last_send.serial) ps
      → serve_all calls sits addr i s ps w ≡ ok (copies n.last_send ps, s, w)
  unfolding serve_all
  retried-All i s n [] w udp found same = refl
  retried-All i s n (p ∷ ps) w udp found (here, rest) =
      rw
        (
          retried calls s addr n p (sits i) w udp found (sym here),
          retried-All (i + 1) s n ps w udp found rest,
        )
        refl

-- The first packet of a call under the number `c`.
abbrev pub first_packet : Packet → ℕ → Packet
first_packet request c = record request { serial = c; reserv = c }

-- The answer to a packet, and the state after it.
abbrev pub call_once : {W : Type 0} → Calls W → Server → Packet → W → Packet × W
call_once calls s p w = callfunc calls p s.own.last_send w

-- The packets that the server sends while it executes `p`, with the answer `q`.
abbrev pub reply_to : ℕ → Packet → Packet → List Packet
reply_to count p q = replicate count (notice p s_executing) ++ q ∷ []

-- The function of a call is executed exactly once, however many of the retries of the call arrive
-- behind its first packet: over UDP, for a client that the server knows and whose last answer has
-- another number, where the function is a plain one, is not kept waiting and completes. The retries
-- are answered with copies of the first answer under their own numbers.
pub serve_all-numbered :
    {W : Type 0} (calls : Calls W) (sits : ℕ → Situation) (addr : ℕ) (s : Server) (n : Node)
    (request : Packet) (c k count : ℕ) (w : W)
    → s.type ≡ conn_udp
    → search_node s.children addr ≡ some n
    → n.last_send.serial ≢ c
    → c ≢ 0
    → IsPlain request.id
    → IsSmooth (sits 0) count
    → (s' : Server) × (serve_all calls sits addr 0 s
          (numbered (record request { reserv = c }) c (suc k))
          w
        ≡ ok (
          reply_to count (first_packet request c) (call_once calls s (first_packet request c) w).0
              ++ copies
                  (call_once calls s (first_packet request c) w).0
                  (numbered (record request { reserv = c }) (next_serial c) k),
          s',
          (call_once calls s (first_packet request c) w).1,
        ))
unfolding serve_all numbered retry_serial
serve_all-numbered calls sits addr s n request c k count w udp found other nonzero plain smooth =
    let p = first_packet request c in
    let (q, w') = call_once calls s p w in
    let own_reserv : retry_serial p ≡ c = ground (arith, nonzero) in
    let (s', n', runs, udp', found', last, own) =
      executed calls s addr n p (sits 0) count w udp found (λ e. other (e ∙ own_reserv)) plain
        smooth in
    let same : n'.last_send.serial ≡ c =
      ap (λ r. r.serial) last ∙ callfunc-serial calls p s.own.last_send w in
    let rest = numbered (record request { reserv = c }) (next_serial c) k in
    let repeated = retried-All calls sits addr 1 s' n' rest w' udp' found' (
      subst (λ r. All (λ p. retry_serial p ≡ r) rest) (sym same)
        (retry_serial-numbered (record request { reserv = c }) (next_serial c) k nonzero)) in
    let copied =
      subst (λ m. serve_all calls sits addr 1 s' rest w' ≡ ok (copies m rest, s', w')) last
        repeated in
    (s', rw (runs, copied) refl)

next_serial-ne : (c : ℕ) → c < 2 ^ 16 → next_serial c ≢ c
unfolding next_serial
next_serial-ne c range = ground (arith, range)

serve_all-step :
    {W : Type 0} (calls : Calls W) (sits : ℕ → Situation) (addr i : ℕ) (s : Server) (p : Packet)
    (ps : List Packet) (w : W) (r : Served W) (sent : List Packet) (s' : Server) (w' : W)
    → receive_execute calls s addr p (sits i) w ≡ ok r
    → serve_all calls sits addr (i + 1) r.server ps r.world ≡ ok (sent, s', w')
    → serve_all calls sits addr i s (p ∷ ps) w ≡ ok (r.sent ++ sent, s', w')
unfolding serve_all
serve_all-step calls sits addr i s p ps w r sent s' w' runs rest = rw (runs, rest) refl

-- Where the first packet of a call is lost, the next two packets of the call are both executed,
-- under the same conditions: their `reserv` is the number of the lost one, and the server keeps that
-- of the packet that it answered.
pub serve_all-lost_first :
    {W : Type 0} (calls : Calls W) (sits : ℕ → Situation) (addr : ℕ) (s : Server) (n : Node)
    (request : Packet) (c count0 count1 : ℕ) (w : W)
    → s.type ≡ conn_udp
    → search_node s.children addr ≡ some n
    → n.last_send.serial ≢ c
    → c ≢ 0
    → c < 2 ^ 16
    → IsPlain request.id
    → IsSmooth (sits 0) count0
    → IsSmooth (sits 1) count1
    → (sent : List Packet) × (s' : Server) × (serve_all calls sits addr 0 s
          (numbered (record request { reserv = c }) (next_serial c) 2)
          w
        ≡ ok (
          sent,
          s',
          (callfunc calls
              (record request { serial = next_serial (next_serial c); reserv = c })
              (call_once calls s (record request { serial = next_serial c; reserv = c }) w).0
              (call_once calls s (record request { serial = next_serial c; reserv = c }) w).1).1,
        ))
unfolding numbered retry_serial serve_all
serve_all-lost_first calls sits addr s n request c count0 count1 w udp found other nonzero range
      plain smooth0 smooth1 =
    let p1 : Packet = record request { serial = next_serial c; reserv = c } in
    let p2 : Packet = record request { serial = next_serial (next_serial c); reserv = c } in
    let (q1, w1) = call_once calls s p1 w in
    let reserv1 : retry_serial p1 ≡ c = ground (arith, nonzero) in
    let reserv2 : retry_serial p2 ≡ c = ground (arith, nonzero) in
    let (s1, n1, runs1, udp1, found1, last1, own1) =
      executed calls s addr n p1 (sits 0) count0 w udp found (λ e. other (e ∙ reserv1)) plain
        smooth0 in
    let number : n1.last_send.serial ≡ next_serial c =
      ap (λ r. r.serial) last1 ∙ callfunc-serial calls p1 s.own.last_send w in
    let (s2, n2, runs2, udp2, found2, last2, own2) =
      executed calls s1 addr n1 p2 (sits 1) count1 w1 udp1 found1
        (λ e. next_serial-ne c range (sym number ∙ e ∙ reserv2)) plain smooth1 in
    let both =
      serve_all-step calls sits addr 0 s p1 (p2 ∷ []) w _ _ _ _ runs1
        (serve_all-step calls sits addr 1 s1 p2 [] w1 _ [] s2 _ runs2 refl) in
    let sent = reply_to count0 p1 q1 ++ (reply_to count1 p2 (call_once calls s1 p2 w1).0 ++ []) in
    (sent, s2, both ∙ ap (λ q. ok (sent, s2, (callfunc calls p2 q w1).1)) own1)
