-- ===== src/Server/Runs.antt =====
-- A server of bcap_core/src/bCAPServer/bcap_server.c with one client over UDP, whose functions count
-- their executions.
use denso_robot_ros.Prelude.{
  ℕ, suc, ◌≡◌, refl, ap, Option, Bool, true, length, ◌==◌, List, [], ◌∷◌, ◌++◌, some, none, false,
  arith,
}
use denso_robot_ros.Hresult.{Hresult, ok, s_ok, s_false, e_max_object}
use denso_robot_ros.Device.{conn_udp}
use denso_robot_ros.Variant.{Variant, Bstr, plain, nil, cons, vt_of, wcslen}
use denso_robot_ros.Packet.{Packet}
use denso_robot_ros.Client.Transfer.{next_serial}
use denso_robot_ros.Client.Answers.{numbered}
use denso_robot_ros.Client.Calls.{Wrapper}
use denso_robot_ros.Client.Calls.Controller
use denso_robot_ros.Client.Calls.All.{controller_get_name}
use denso_robot_ros.Server.Vector.{Vector, bcap_object_max}
use denso_robot_ros.Server.Vector.Linked.{Represents}
use denso_robot_ros.Server.Tests.{two_objects, entries, two_objects-Represents}
use denso_robot_ros.Server.Execute.{
  Node, Server, Calls, CallFunc, completed, Situation, callfunc, retry_serial, notice,
}
use denso_robot_ros.Server.Children.{search_node}
use denso_robot_ros.Server.Receive.{needs_room, checked_execute, execute, receive_execute}
use denso_robot_ros.Server.Retry.{IsPlain, IsSmooth}
use denso_robot_ros.Server.Once.{
  serve_all, first_packet, call_once, reply_to, copies, serve_all-numbered, serve_all-lost_first,
}
use denso_robot_ros.Server.Agrees.{returned, callfunc-returned}
use denso_robot_ros.Server.Full.{receive_execute-full}
use denso_robot_ros.Variant.Tests.{no_floats, zero_text}
use denso_robot_ros.Variant.ChangeType.{
  TextOps, variant_change_type, change_from, bstr2bits, text2bits,
}
use denso_robot_ros.Variant.Copy.Laws.{IsText}
use denso_robot_ros.Variant.OptionValue.Plain.{IsOptions}
use denso_robot_ros.Variant.OptionValue.Search.{options_text}
use denso_robot_ros.Server.Options.{
  wdt_name, timeout_name, read_option, ReadsOptions, said, checked_execute-start_options,
}
use denso_robot_ros.Server.Cleanup.{release_all, released_in_turn, release_all-Represents}

abbrev counting : CallFunc ℕ
counting args argc w = (s_ok, plain 3 w, suc w)

abbrev calls : Calls ℕ
calls = record {
  list_func = λ id. some counting;
  option_string = λ v. (s_ok, none);
  wdt_option = λ s. (s_ok, none);
  timeout_option = λ s. (s_ok, none);
}

abbrev before : Packet
before = record { serial = 9; reserv = 0; id = 0; argc = 0; args = nil }

abbrev client : Node
client = record {
  addr = 77;
  last_send = before;
  exec_timeout = 180000;
  wdt_interval = 200;
  last_modified = 0;
}

abbrev server : Server
server = record {
  type = conn_udp;
  own = record client { addr = 0 };
  vector = two_objects;
  children = client ∷ [];
}

abbrev get_name : Packet
get_name = record { serial = 0; reserv = 0; id = 21; argc = 1; args = cons (plain 3 11) nil }

abbrev smooth : ℕ → Situation
smooth i = record { busy = false; wait = completed 2; fresh = 0; send_hr = s_ok; now = 5 }

smooth-IsSmooth : (i : ℕ) → IsSmooth (smooth i) 2
smooth-IsSmooth i = record { free = refl; done = refl; delivered = refl }

get_name-IsPlain : IsPlain 21
unfolding needs_room
get_name-IsPlain = record {
  entry = record { relation_id = 0; return_flag = 1 };
  entry_eq = refl;
  no_push = refl;
  no_pop = refl;
  no_room = refl;
  no_start = refl;
  no_stop = refl;
}

serve_all-numbered_example :
    (s' : Server) × (serve_all calls smooth 77 0 server
        (numbered (record get_name { reserv = 65535 }) 65535 3)
        4
      ≡ ok (
        reply_to 2
              (first_packet get_name 65535)
              (call_once calls server (first_packet get_name 65535) 4).0
            ++ copies
                (call_once calls server (first_packet get_name 65535) 4).0
                (numbered (record get_name { reserv = 65535 }) (next_serial 65535) 2),
        s',
        (call_once calls server (first_packet get_name 65535) 4).1,
      ))
unfolding search_node
serve_all-numbered_example =
    serve_all-numbered calls smooth 77 server client get_name 65535 2 2 4 refl refl (ground arith)
      (ground arith) get_name-IsPlain (smooth-IsSmooth 0)

serve_all-lost_first_example :
    (sent : List Packet) × (s' : Server) × (serve_all calls smooth 77 0 server
        (numbered (record get_name { reserv = 3 }) (next_serial 3) 2)
        4
      ≡ ok (
        sent,
        s',
        (callfunc calls
            (record get_name { serial = next_serial (next_serial 3); reserv = 3 })
            (call_once calls server (record get_name { serial = next_serial 3; reserv = 3 }) 4).0
            (call_once calls server
              (record get_name { serial = next_serial 3; reserv = 3 })
              4).1).1,
      ))
unfolding search_node
serve_all-lost_first_example =
    serve_all-lost_first calls smooth 77 server client get_name 3 2 2 4 refl refl (ground arith)
      (ground arith) (omega arith) get_name-IsPlain (smooth-IsSmooth 0) (smooth-IsSmooth 1)

abbrev get_name_call : Wrapper
get_name_call = Controller.get_name 11 false

callfunc-returned_example : callfunc calls get_name before 4 ≡ (
  record {
    serial = 0;
    reserv = 0;
    id = s_ok;
    argc = returned get_name_call;
    args = cons (plain 3 4) nil;
  },
  5,
)
callfunc-returned_example =
    callfunc-returned calls get_name_call counting get_name before 4 (controller_get_name 11 false)
      refl refl

-- A server without room, and a request for an object.
abbrev full_server : Server
full_server = record server { vector = record two_objects { num_object = bcap_object_max } }

abbrev get_variable : Packet
get_variable = record get_name { serial = 10; id = 62 }

receive_execute-full_example :
    receive_execute calls full_server 77 get_variable (smooth 0) 4
    ≡ ok (record {
      hr = s_false;
      sent = notice get_variable e_max_object ∷ [];
      server = full_server;
      world = 4;
    })
unfolding search_node retry_serial
receive_execute-full_example =
    receive_execute-full calls full_server 77 client get_variable
      (record { relation_id = 111; return_flag = 1 }) (smooth 0) 4 refl refl refl (omega arith) refl

release_all-Represents_example :
    (v : Vector) × (release_all calls.list_func 3 two_objects 0
      ≡ ok (v, released_in_turn calls.list_func entries 0))
    × Represents v []
release_all-Represents_example =
    release_all-Represents calls.list_func entries 3 two_objects 0 two_objects-Represents
      (omega arith)

-- "WDT=500,InvokeTimeout=500": a server whose texts are all read as 500, and whose names are compared
-- by their lengths.
abbrev five_hundred : TextOps
five_hundred = record zero_text { strtoul = λ s. (500, [], false) }

abbrev by_length : List ℕ → Bstr → Bool
by_length s none = false
by_length s (some t) = length s == length t

abbrev number_or_empty : Option (Hresult × Option ℕ) → Hresult × Option ℕ
number_or_empty none = (s_ok, none)
number_or_empty (some r) = r

abbrev start_list : List (List ℕ × List ℕ)
start_list = (wdt_name, b'5' ∷ []) ∷ (timeout_name, b'5' ∷ []) ∷ []

abbrev start_text : List ℕ
start_text = options_text wdt_name (b'5' ∷ []) ((timeout_name, b'5' ∷ []) ∷ [])

abbrev text_of : Variant → Hresult × Bstr
text_of v = (s_ok, some start_text)

abbrev reading_calls : Calls ℕ
reading_calls = record {
  list_func = λ id. some counting;
  option_string = text_of;
  wdt_option =
      λ s. number_or_empty (read_option no_floats five_hundred (λ m. true) by_length wdt_name s);
  timeout_option = λ s.
      number_or_empty (read_option no_floats five_hundred (λ m. true) by_length timeout_name s);
}

reading_calls-ReadsOptions : ReadsOptions no_floats five_hundred (λ m. true) by_length reading_calls
reading_calls-ReadsOptions = record {
  wdt = λ text r h. ap number_or_empty h;
  timeout = λ text r h. ap number_or_empty h;
}

abbrev service_start : Packet
service_start = record { serial = 1; reserv = 0; id = 1; argc = 1; args = cons (plain 0 0) nil }

start_list-IsOptions : IsOptions start_list
start_list-IsOptions = (
  (refl, omega arith, omega arith),
  (refl, omega arith, omega arith),
  ((refl, omega arith, omega arith), (refl, omega arith, omega arith), tt),
)

start_text-IsText : IsText (some start_text)
unfolding wcslen
start_text-IsText = (refl, omega arith)

said_wdt :
    said no_floats five_hundred (λ m. true) by_length wdt_name start_list ≡ some (s_ok, some 500)
unfolding variant_change_type change_from bstr2bits text2bits vt_of
said_wdt = refl

said_timeout :
    said no_floats five_hundred (λ m. true) by_length timeout_name start_list
    ≡ some (s_ok, some 500)
unfolding variant_change_type change_from bstr2bits text2bits vt_of
said_timeout = refl

checked_execute-start_options_example :
    checked_execute reading_calls server client service_start (smooth 0) 0
    ≡ execute reading_calls server
        (record client { wdt_interval = 500; exec_timeout = 500 })
        service_start
        (smooth 0)
        s_ok
        0
checked_execute-start_options_example =
    checked_execute-start_options no_floats five_hundred (λ m. true) by_length reading_calls server
      client service_start (smooth 0) 0 (plain 0 0) nil wdt_name (b'5' ∷ [])
      ((timeout_name, b'5' ∷ []) ∷ []) (s_ok, some 500) (s_ok, some 500) (λ m. refl)
      reading_calls-ReadsOptions refl refl refl refl refl refl start_list-IsOptions
      start_text-IsText said_wdt said_timeout
