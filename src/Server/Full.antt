-- ===== src/Server/Full.antt =====
-- receive_execute of bcap_core/src/bCAPServer/bcap_server.c on a full vector of created objects.
use denso_robot_ros.Prelude.{
  ℕ, suc, zero, ◌+◌, ◌≡◌, ◌≢◌, refl, List, [], ◌∷◌, some, Bool, true, false, ◌&&◌, get_elem?, leb,
  if◌then◌else◌, ne→==, arith,
}
use denso_robot_ros.Hresult.{ok, s_ok, s_false, e_max_object}
use denso_robot_ros.Device.{ConnType, conn_tcp, conn_udp, conn_com}
use denso_robot_ros.Packet.{Packet}
use denso_robot_ros.Server.MapId.{MapId, lookup, is_push, map_id}
use denso_robot_ros.Server.Vector.{bcap_object_max}
use denso_robot_ros.Server.Execute.{Node, Server, Calls, Situation, notice}
use denso_robot_ros.Server.Children.{find_client, the_node}
use denso_robot_ros.Server.Receive.{is_retry, needs_room, execute, checked_execute, receive_execute}

abbrev same : Bool → Bool → Bool
same true true = true
same true false = false
same false true = false
same false false = true

same-true : (a b : Bool) → same a b ≡ true → a ≡ b
same-true true true h = refl
same-true true false h = absurd (cc h)
same-true false true h = absurd (cc h)
same-true false false h = refl

and-true : (a b : Bool) → (a && b) ≡ true → (a ≡ true) × (b ≡ true)
and-true true b h = (refl, h)
and-true false b h = absurd (cc h)

-- The switch and the map say the same of the ids from `id` on.
unfoldable agree_from : ℕ → List MapId → Bool
unfolding needs_room
agree_from id [] = true
agree_from id (e ∷ es) = same (needs_room id) (is_push e) && agree_from (id + 1) es

agree_from-get_elem? :
    (es : List MapId) (id i k : ℕ) (e : MapId)
    → agree_from id es ≡ true
    → k ≡ id + i
    → get_elem? es i ≡ some e
    → needs_room k ≡ is_push e
unfolding agree_from
agree_from-get_elem? [] id i k e h hk found = absurd (cc found)
agree_from-get_elem? (d ∷ es) id zero k e h hk found =
    let (here, rest) = and-true (same (needs_room id) (is_push d)) (agree_from (id + 1) es) h in
    let at_id : k ≡ id = omega (arith, hk) in
    cc (at_id, same-true (needs_room id) (is_push d) here, found)
agree_from-get_elem? (d ∷ es) id (suc i) k e h hk found =
    let (here, rest) = and-true (same (needs_room id) (is_push d)) (agree_from (id + 1) es) h in
    agree_from-get_elem? es (id + 1) i k e rest (omega (arith, hk)) found

-- The switch names the functions that create an object according to the map.
needs_room-is_push : (id : ℕ) (e : MapId) → lookup id ≡ some e → needs_room id ≡ is_push e
unfolding agree_from needs_room
needs_room-is_push id e found = agree_from-get_elem? map_id 0 id id e refl (omega arith) found

find_client-known :
    (s : Server) (addr now : ℕ) (n : Node) (type : ConnType)
    → find_client s type addr now (some n) ≡ (s, true)
unfolding find_client
find_client-known s addr now n conn_tcp = refl
find_client-known s addr now n conn_udp = refl
find_client-known s addr now n conn_com = refl

-- receive_execute, for a packet that is no retry, of a client that is known, with the id of a function
-- of the map other than ID_SERVICE_START, while no function is executed: where the vector of created
-- objects is full and the map says of the function that it creates one, the answer is E_MAX_OBJECT,
-- no function is called and nothing changes; otherwise, in a vector with room or for a function that
-- creates none, the function is executed.
pub receive_execute-full :
    {W : Type 0} (calls : Calls W) (s : Server) (addr : ℕ) (n : Node) (p : Packet) (e : MapId)
    (sit : Situation) (w : W)
    → the_node s.type s addr ≡ some n
    → is_retry s.type n p ≡ false
    → sit.busy ≡ false
    → p.id ≢ 1
    → lookup p.id ≡ some e
    → receive_execute calls s addr p sit w ≡ (
        if is_push e && leb bcap_object_max s.vector.num_object
        then ok (record { hr = s_false; sent = notice p e_max_object ∷ []; server = s; world = w })
        else execute calls s n p sit s_ok w)
unfolding receive_execute checked_execute
receive_execute-full calls s addr n p e sit w known new free no_start mapped =
    let same_server : find_client s s.type addr sit.now (the_node s.type s addr) ≡ (s, true) =
      rw known (find_client-known s addr sit.now n s.type) in
    rw
      (
        same_server,
        known,
        new,
        free,
        checked_execute,
        needs_room-is_push p.id e mapped,
        ne→== p.id 1 no_start,
      )
      refl
