-- ===== src/Server/Children.antt =====
-- The tree of nodes for UDP in bcap_core/src/bCAPServer/bcap_server.c: search_node, change_relation,
-- check_lifelimit and the child that receive_execute works on.
use denso_robot_ros.Prelude.{
  ℕ, ◌+◌, ◌-◌, ◌%◌, ◌^◌, List, [], ◌∷◌, Option, none, some, length, Bool, true, false, ltb, leb,
  ◌==◌, if◌then◌else◌,
}
use denso_robot_ros.Device.{ConnType, conn_tcp, conn_udp, conn_com}
use denso_robot_ros.Variant.{nil, cons, empty}
use denso_robot_ros.Server.Execute.{Node, Server, bcap_client_max, udp_lifelimit}

-- search_node
unfoldable pub search_node : List Node → ℕ → Option Node
search_node [] addr = none
search_node (n ∷ ns) addr =
    let rest = search_node ns addr in if n.addr == addr then some n else rest

-- A change of a child through its pointer.
unfoldable pub set_node : List Node → Node → List Node
set_node [] n = []
set_node (m ∷ ms) n = let rest = set_node ms n in if m.addr == n.addr then n ∷ ms else m ∷ rest

-- change_relation with DESTROY_SELF on a child, and with DELETE_CHILD
unfoldable pub delete_node : List Node → ℕ → List Node
delete_node [] addr = []
delete_node (m ∷ ms) addr =
    let rest = delete_node ms addr in if m.addr == addr then ms else m ∷ rest

-- calc_time_diff of bcap_core/include/bcap_core/dn_thread.h, on `uint32_t`
unfoldable pub calc_time_diff : ℕ → ℕ → ℕ
calc_time_diff start end =
    if leb start end then end - start else (0xffffffff - end + start) % 2 ^ 32

-- check_lifelimit: the children that are left.
unfoldable pub check_lifelimit : ℕ → List Node → List Node
unfolding calc_time_diff
check_lifelimit now [] = []
check_lifelimit now (m ∷ ms) =
    let rest = check_lifelimit now ms in
    if ltb udp_lifelimit (calc_time_diff m.last_modified now) then rest else m ∷ rest

-- change_relation with ADD_CHILD, where malloc succeeds
abbrev pub add_child : Server → ℕ → ℕ → Server
add_child s addr now = record s {
  children =
      (record {
        addr = addr;
        last_send = record { serial = 0; reserv = 0; id = 0; argc = 0; args = cons empty nil };
        exec_timeout = s.own.exec_timeout;
        wdt_interval = s.own.wdt_interval;
        last_modified = now;
      })
      ∷ s.children;
}

abbrev pub limit_children : ℕ → Server → Server
limit_children now s =
    if leb bcap_client_max (length s.children)
    then record s { children = check_lifelimit now s.children }
    else s

-- `tmp_param`: the child that a packet comes from, or the server object itself. `none` where there
-- are too many.
unfoldable pub find_client : Server → ConnType → ℕ → ℕ → Option Node → Server × Bool
find_client s conn_udp addr now (some n) = (s, true)
find_client s conn_udp addr now none =
    let s' = limit_children now s in
    if leb bcap_client_max (length s'.children) then (s', false) else (add_child s' addr now, true)
find_client s conn_tcp addr now found = (s, true)
find_client s conn_com addr now found = (s, true)

abbrev pub the_node : ConnType → Server → ℕ → Option Node
the_node conn_udp s addr = search_node s.children addr
the_node conn_tcp s addr = some s.own
the_node conn_com s addr = some s.own

abbrev pub put_node : ConnType → Server → Node → Server
put_node conn_udp s n = record s { children = set_node s.children n }
put_node conn_tcp s n = record s { own = n }
put_node conn_com s n = record s { own = n }
