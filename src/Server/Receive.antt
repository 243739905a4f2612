-- ===== src/Server/Receive.antt =====
-- receive_execute of bcap_core/src/bCAPServer/bcap_server.c: the test on repeated requests, the
-- execution, and the answer.
use denso_robot_ros.Prelude.{
  ℕ, List, [], ◌∷◌, ◌++◌, Option, none, some, replicate, Bool, false, ◌&&◌, ◌||◌, ltb, leb, ◌==◌,
  if◌then◌else◌,
}
use denso_robot_ros.Hresult.{
  Hresult, Outcome, ok, fault, ◌>>=◌, is_failed, s_ok, s_false, s_executing, e_invalidarg,
  e_timeout, e_max_object,
}
use denso_robot_ros.Device.{ConnType, conn_tcp, conn_udp, conn_com}
use denso_robot_ros.Variant.{Variants, Bstr, nil, cons}
use denso_robot_ros.Packet.{Packet}
use denso_robot_ros.Server.Vector.{bcap_object_max}
use denso_robot_ros.Server.Execute.{
  Node, Server, Calls, Wait, completed, broken, Situation, Served, callfunc, retry_serial, notice,
  e_busy_proc, e_max_connect, min_wdt_interval, init_wdt_interval, init_exec_timeout,
}
use denso_robot_ros.Server.Children.{delete_node, find_client, the_node, put_node}
use denso_robot_ros.Server.Changes.{change_vector}

-- "If already responded": not for TCP.
abbrev pub is_retry : ConnType → Node → Packet → Bool
is_retry conn_tcp n p = false
is_retry conn_udp n p = n.last_send.serial == retry_serial p
is_retry conn_com n p = n.last_send.serial == retry_serial p

-- The cases of `switch(tmp_recv_packet.id)`
unfoldable pub needs_room : ℕ → Bool
needs_room id =
    id == 1
    || id == 3
    || id == 5
    || id == 6
    || id == 37
    || id == 7
    || id == 8
    || id == 9
    || id == 26
    || id == 38
    || id == 62
    || id == 85
    || id == 10
    || id == 18

abbrev pub or_default : ℕ → Option ℕ → ℕ
or_default d none = d
or_default d (some n) = n

-- `vntTmp` for ID_SERVICE_START
abbrev pub option_text : {W : Type 0} → Calls W → Variants → ℕ → Hresult × Bstr
option_text calls nil argc = (s_ok, some [])
option_text calls (cons v vs) argc = if leb 1 argc then calls.option_string v else (s_ok, some [])

-- The options of ID_SERVICE_START: the code of the answer that refuses the packet, or the code to go
-- on with; and the node with what was stored.
unfoldable pub start_options :
    {W : Type 0} → Calls W → Packet → Node → (Option Hresult × Hresult) × Node
start_options calls p n =
    let (ht, text) = option_text calls p.args p.argc in
    let wdt = or_default init_wdt_interval (calls.wdt_option text).1 in
    let n1 = record n { wdt_interval = wdt } in
    let (hr, given) = calls.timeout_option text in
    let timeout = or_default init_exec_timeout given in
    if is_failed ht
    then ((some ht, s_ok), n)
    else if ltb wdt min_wdt_interval
    then ((some e_invalidarg, s_ok), n)
    else if ltb timeout min_wdt_interval
    then ((some e_invalidarg, s_ok), n1)
    else ((none, hr), record n1 { exec_timeout = timeout })

-- `wait_event` and S_EXECUTING, until the function is done: the packets, and the code.
abbrev pub wait_sent : Wait → Packet → List Packet
wait_sent (completed n) p = replicate n (notice p s_executing)
wait_sent (broken n hr) p = replicate n (notice p s_executing)

abbrev pub wait_hr : Wait → Hresult
wait_hr (completed n) = s_ok
wait_hr (broken n hr) = hr

-- The last answer of a client, after bcap_send with code `hr`; not after ID_SERVICE_STOP over UDP,
-- which takes the child away.
abbrev pub note_answer : ConnType → Server → Node → ℕ → Packet → Server
note_answer type s n now q = put_node type s (record n { last_send = q; last_modified = now })

abbrev pub is_stop : ConnType → Packet → Packet → Bool
is_stop conn_udp p q = p.id == 2 && q.id == s_ok
is_stop conn_tcp p q = false
is_stop conn_com p q = false

abbrev pub note_or_leave : ConnType → Server → Node → Situation → Packet → Packet → Server
note_or_leave type s n sit p q =
    if is_stop type p q
    then record s { children = delete_node s.children n.addr }
    else if is_failed sit.send_hr
    then s
    else note_answer type s n sit.now q

module _ {W : Type 0} (calls : Calls W) where
  -- A packet that is answered without executing a function.
  abbrev pub refuse : Hresult → Packet → Server → W → Outcome (Served W)
  refuse hr q s w = ok (record { hr = hr; sent = q ∷ []; server = s; world = w })

  -- The function was executed, and the answer is `q`: the vector, bcap_send and the last answer.
  unfoldable pub answer :
      Server → Node → Packet → Situation → List Packet → Packet → W → Outcome (Served W)
  unfolding change_vector
  answer s n p sit executing q w = do
    v ← change_vector s.vector sit.fresh p q
    ok (record {
      hr = sit.send_hr;
      sent = executing ++ q ∷ [];
      server = note_or_leave s.type (record s { vector = v }) n sit p q;
      world = w;
    })

  -- From `Resets last received packet` on, where the checks gave `hr`; `n` is `tmp_param`. The
  -- function is executed in any case; without a success of the loop nothing is answered.
  unfoldable pub execute : Server → Node → Packet → Situation → Hresult → W → Outcome (Served W)
  unfolding callfunc answer
  execute s n p sit hr w =
      let (q, w') = callfunc calls p s.own.last_send w in
      let s0 = put_node s.type s n in
      let s1 = record s0 { own = record s0.own { last_send = q } } in
      let executing = if is_failed hr then [] else wait_sent sit.wait p in
      let hr' = if is_failed hr then hr else wait_hr sit.wait in
      let answered = answer s1 n p sit executing q w' in
      if hr' == s_ok
      then answered
      else ok (record { hr = hr'; sent = executing; server = s1; world = w' })

  -- The options of ID_SERVICE_START were read.
  unfoldable pub start :
      Server → Packet → Situation → W → (Option Hresult × Hresult) × Node → Outcome (Served W)
  unfolding execute
  start s p sit w ((some refusal, hr), n) =
      refuse s_false (notice p refusal) (put_node s.type s n) w
  start s p sit w ((none, hr), n) = execute s n p sit hr w

  -- From `Checks execute thread` on
  unfoldable pub checked_execute : Server → Node → Packet → Situation → W → Outcome (Served W)
  unfolding start
  checked_execute s n p sit w =
      if sit.busy
      then refuse e_timeout (notice p e_busy_proc) s w
      else if needs_room p.id && leb bcap_object_max s.vector.num_object
      then refuse s_false (notice p e_max_object) s w
      else if p.id == 1
      then start s p sit w (start_options calls p n)
      else execute s n p sit s_ok w

  -- For a client that is known.
  abbrev pub at_node : Server → Option Node → Packet → Situation → W → Outcome (Served W)
  at_node s none p sit w = fault
  at_node s (some n) p sit w =
      if is_retry s.type n p
      then refuse s_false (record n.last_send { serial = p.serial }) s w
      else checked_execute s n p sit w

  -- receive_execute, after bcap_recv has received `p` from `addr`
  unfoldable pub receive_execute : Server → ℕ → Packet → Situation → W → Outcome (Served W)
  unfolding checked_execute find_client
  receive_execute s addr p sit w =
      let (s', found) = find_client s s.type addr sit.now (the_node s.type s addr) in
      if found
      then at_node s' (the_node s'.type s' addr) p sit w
      else refuse s_false (notice p e_max_connect) s' w
