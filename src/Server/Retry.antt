-- ===== src/Server/Retry.antt =====
-- Repeated requests over UDP in receive_execute of bcap_core/src/bCAPServer/bcap_server.c.
use denso_robot_ros.Prelude.{
  ℕ, ◌≡◌, ◌≢◌, refl, ap, subst, ◌∙◌, List, [], ◌∷◌, ◌++◌, Option, none, some, replicate, true,
  false, Bool-cases, inl, inr, ne→==, ◌==◌, arith,
}
use denso_robot_ros.Hresult.{ok, is_failed, s_ok, s_false, s_executing}
use denso_robot_ros.Device.{conn_udp}
use denso_robot_ros.Packet.{Packet}
use denso_robot_ros.Server.MapId.{MapId, lookup, is_push, is_pop}
use denso_robot_ros.Server.Vector.{Ptr, Vector}
use denso_robot_ros.Server.Execute.{
  Node, Server, Calls, CallFunc, completed, Situation, is_function, callfunc, call_entry,
  retry_serial, notice,
}
use denso_robot_ros.Server.Children.{search_node, set_node, find_client}
use denso_robot_ros.Server.Changes.{change_vector}
use denso_robot_ros.Server.Receive.{
  needs_room, answer, execute, start, checked_execute, receive_execute,
}

search_node-addr :
    (ns : List Node) (addr : ℕ) (n : Node) → search_node ns addr ≡ some n → n.addr ≡ addr
unfolding search_node
search_node-addr [] addr n h = absurd (cc h)
search_node-addr (m ∷ ms) addr n h = elim (Bool-cases (m.addr == addr)) [
  | inl here ↦ ground (arith, here, h)
  | inr there ↦ search_node-addr ms addr n (ground (arith, there, h))
]

search_node-set_node :
    (ns : List Node) (m n : Node)
    → search_node ns n.addr ≡ some m
    → search_node (set_node ns n) n.addr ≡ some n
unfolding search_node set_node
search_node-set_node [] m n h = absurd (cc h)
search_node-set_node (k ∷ ks) m n h = elim (Bool-cases (k.addr == n.addr)) [
  | inl here ↦ rw here (ground arith)
  | inr there ↦ rw (there, there) (search_node-set_node ks m n (ground (arith, there, h)))
]

-- The id of a function that neither creates nor releases an object.
pub record IsPlain (id : ℕ) : Type 0 where
  pub entry : MapId
  pub entry_eq : lookup id ≡ some entry
  pub no_push : is_push entry ≡ false
  pub no_pop : is_pop entry ≡ false
  pub no_room : needs_room id ≡ false
  pub no_start : (id == 1) ≡ false
  pub no_stop : (id == 2) ≡ false

-- The function is not kept waiting by another one, and completes; the answer is sent.
pub record IsSmooth (sit : Situation) (count : ℕ) : Type 0 where
  pub free : sit.busy ≡ false
  pub done : sit.wait ≡ completed count
  pub delivered : is_failed sit.send_hr ≡ false

module _ {W : Type 0} (calls : Calls W) where
  -- The answer has the number of the request.
  pub callfunc-serial : (p q : Packet) (w : W) → (callfunc calls p q w).0.serial ≡ p.serial
  unfolding callfunc call_entry
  callfunc-serial p q w = elim (Bool-cases (is_function p.id)) [
    | inl known ↦ rw known (entry (calls.list_func p.id))
    | inr unknown ↦ rw unknown refl
  ]
    where
      entry :
          (f : Option (CallFunc W))
          → (call_entry calls f p
              (record q { serial = p.serial; reserv = 0; id = 0x80070057; argc = 0 })
              w).0.serial
            ≡ p.serial
      entry none = refl
      entry (some f) = refl

  -- A repeated request is answered with the last answer, and nothing is executed.
  pub retried :
      (s : Server) (addr : ℕ) (n : Node) (p : Packet) (sit : Situation) (w : W)
      → s.type ≡ conn_udp
      → search_node s.children addr ≡ some n
      → n.last_send.serial ≡ retry_serial p
      → receive_execute calls s addr p sit w
        ≡ ok (record {
          hr = s_false;
          sent = record n.last_send { serial = p.serial } ∷ [];
          server = s;
          world = w;
        })
  unfolding receive_execute find_client
  retried s addr n p sit w udp found same =
      let again : (n.last_send.serial == retry_serial p) ≡ true = ground (arith, same) in
      rw (udp, found, found, again) refl

  change_vector-IsPlain :
      (v : Vector) (fresh : Ptr) (p q : Packet) → IsPlain p.id → change_vector v fresh p q ≡ ok v
  unfolding change_vector
  change_vector-IsPlain v fresh p q plain = elim (Bool-cases (q.id == s_ok)) [
    | inl fine ↦ rw (fine, plain.entry_eq, plain.no_push, plain.no_pop) refl
    | inr other ↦ rw other refl
  ]

  -- After the function, the node holds the answer.
  pub executed :
      (s : Server) (addr : ℕ) (n : Node) (p : Packet) (sit : Situation) (count : ℕ) (w : W)
      → s.type ≡ conn_udp
      → search_node s.children addr ≡ some n
      → n.last_send.serial ≢ retry_serial p
      → IsPlain p.id
      → IsSmooth sit count
      → (s' : Server) × (n' : Node) × (receive_execute calls s addr p sit w
          ≡ ok (record {
            hr = sit.send_hr;
            sent =
                replicate count (notice p s_executing)
                ++ (callfunc calls p s.own.last_send w).0 ∷ [];
            server = s';
            world = (callfunc calls p s.own.last_send w).1;
          }))
        × (s'.type ≡ conn_udp)
        × (search_node s'.children addr ≡ some n')
        × (n'.last_send ≡ (callfunc calls p s.own.last_send w).0)
        × (s'.own.last_send ≡ (callfunc calls p s.own.last_send w).0)
  unfolding receive_execute find_client checked_execute start execute answer
  executed s addr n p sit count w udp found fresh plain smooth =
      let (q, w') = callfunc calls p s.own.last_send w in
      let other : (n.last_send.serial == retry_serial p) ≡ false =
        ne→== n.last_send.serial (retry_serial p) fresh in
      let n' : Node = record n { last_send = q; last_modified = sit.now } in
      let ns = set_node s.children n in
      let s' : Server = record s {
        own = record s.own { last_send = q };
        children = set_node ns n';
      } in
      let known : search_node s.children n.addr ≡ some n =
        ap (search_node s.children) (search_node-addr s.children addr n found) ∙ found in
      let kept = search_node-set_node s.children n n known in
      (
        s',
        n',
        rw
            (
              udp,
              found,
              found,
              other,
              smooth.free,
              plain.no_room,
              plain.no_start,
              smooth.done,
              change_vector-IsPlain s.vector sit.fresh p q plain,
              plain.no_stop,
              smooth.delivered,
            )
            refl,
        udp,
        subst (λ a. search_node (set_node ns n') a ≡ some n')
            (search_node-addr s.children addr n found) (search_node-set_node ns n n' kept),
        refl,
        refl,
      )
