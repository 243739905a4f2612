-- ===== src/Client/Tests.antt =====
-- A connection of bcap_core/src/bCAPClient/bcap_client.c over a device that answers at once.
use denso_robot_ros.Prelude.{
  ℕ, true, List, [], ◌∷◌, length, zero, suc, ◌-◌, ◌≡◌, refl, ◌∷◌, Option, none, some, set, ◌==◌,
  if◌then◌else◌, replicate, All, Bool-cases, inl, inr, arith,
}
use denso_robot_ros.Hresult.{Hresult, ok, s_ok}
use denso_robot_ros.Device.{conn_udp, Libc}
use denso_robot_ros.Variant.{nil}
use denso_robot_ros.Packet.{Packet}
use denso_robot_ros.Client.{Conn, Conns, Net, unused, check_address}
use denso_robot_ros.Client.Open.{open_client}
use denso_robot_ros.Client.Clamp.{granted_retry, set_retry-get_retry}
use denso_robot_ros.Client.Opened.{open_client-IsTable}
use denso_robot_ros.Client.Options.{get_retry, set_retry}
use denso_robot_ros.Client.Transfer.{
  Trial, answers, wait_reply, first_reserv, next_serial, result_code, send_receive,
}
use denso_robot_ros.Client.Answers.{Tried, IsQuiet, send_receive-answers}
use denso_robot_ros.Client.Valid.{IsConn, IsTable}
use denso_robot_ros.Client.Heard.{send_receive-heard}
use denso_robot_ros.Client.Sessions.{
  Call, open_call, close_call, timeout_call, retry_call, send_call, no_conns, calls, calls-IsTable,
}

abbrev reply_to : Packet → Packet
reply_to p = record { serial = p.serial; reserv = 0; id = 7; argc = 0; args = nil }

-- A network whose state is the last packet sent: bcap_recv fails before one is sent, and then
-- answers it once.
abbrev pub echo : Net (Option Packet)
echo = record {
  initialize_mutex = λ w. (s_ok, w);
  release_mutex = λ w. w;
  lock_mutex = λ w. (s_ok, w);
  unlock_mutex = λ w. w;
  set_tcp_conn_timeout = λ n w. w;
  dn_open = λ target w. (s_ok, 5, w);
  dn_close = λ c w. w;
  dn_set_timeout = λ c n w. (s_ok, w);
  bcap_send = λ c p w. (s_ok, some p);
  bcap_recv = λ c w. received w;
}
  where
    received : Option Packet → Hresult × Packet × Option Packet
    received none =
        (0x80000900, record { serial = 0; reserv = 0; id = 0; argc = 0; args = nil }, none)
    received (some p) = (s_ok, reply_to p, none)

abbrev pub peer : Conn
peer = record {
  sock = 5;
  type = some conn_udp;
  timeout = 100;
  dest = some (1, 2);
  retry = 3;
  serial = 65535;
}

abbrev pub table : Conns
table = unused ∷ peer ∷ replicate 18 unused

abbrev question : Packet
question = record { serial = 0; reserv = 0; id = 3; argc = 0; args = nil }

unused-All : (n : ℕ) → All IsConn (replicate n unused)
unused-All zero = tt
unused-All (suc n) = (inl refl, unused-All n)

pub table-IsTable : IsTable table
table-IsTable = record {
  length_eq = refl;
  all_IsConn =
      (inl refl, (inr (omega arith, omega arith, omega arith, omega arith), unused-All 18));
}

pub echo-IsQuiet : (c : Conn) → IsQuiet echo c 2
unfolding wait_reply
echo-IsQuiet c s none = cc
echo-IsQuiet c s (some p) = elim (Bool-cases (answers s (reply_to p))) [
  | inl mine ↦ rw mine cc
  | inr stray ↦ rw stray cc
]

send_receive-answers_example :
    (t : Trial (Option Packet)) × (send_receive echo 2 table 2 question none
      ≡ ok (
        result_code t.hr t.reply,
        record t { world = t.world },
        set table (2 - 1) (record peer { serial = t.serial }),
      ))
    × Tried (record question { reserv = first_reserv echo peer }) peer.serial peer.retry t
    × IsTable (set table (2 - 1) (record peer { serial = t.serial }))
unfolding check_address
send_receive-answers_example =
    send_receive-answers echo 2 table 2 question none peer table-IsTable refl refl
      (echo-IsQuiet peer)

-- A C library whose numbers are the lengths of strings.
abbrev pub lengths : Libc
lengths = record { atoi = length; atol = length; inet_addr = length; atof_tenths = length }

-- "udp", into the first slot.
open_client-IsTable_example :
    IsTable
      ((open_client echo lengths (λ _. true) (some (117 ∷ 100 ∷ 112 ∷ [])) 100 3 table none).2)
open_client-IsTable_example =
    open_client-IsTable echo lengths (λ _. true) 100 3 table table-IsTable
      (some (117 ∷ 100 ∷ 112 ∷ [])) none

set_retry-get_retry_example :
    ((set_retry echo table 2 100 none).0 ≡ s_ok)
    × (get_retry ((set_retry echo table 2 100 none).1) 2 ≡ ok (granted_retry conn_udp 100))
unfolding check_address
set_retry-get_retry_example = set_retry-get_retry echo table 2 100 none peer conn_udp refl refl refl

-- A connection over UDP that takes options, sends a request and is closed; then a call on it.
abbrev session : List Call
session =
    open_call (some (117 ∷ 100 ∷ 112 ∷ [])) 100 3
    ∷ retry_call 1 9
    ∷ send_call 1 question
    ∷ timeout_call 1 250
    ∷ close_call 1
    ∷ send_call 1 question
    ∷ []

calls-IsTable_example :
    (s : Conns × Option Packet) × (calls echo lengths (λ _. true) 2 session no_conns none ≡ ok s)
    × IsTable s.0
calls-IsTable_example = calls-IsTable echo lengths (λ _. true) 2 session none echo-IsQuiet

-- A network whose state is the number of packets sent and the last one: the first gets no answer.
abbrev late : Net (ℕ × Packet)
late = record {
  initialize_mutex = λ w. (s_ok, w);
  release_mutex = λ w. w;
  lock_mutex = λ w. (s_ok, w);
  unlock_mutex = λ w. w;
  set_tcp_conn_timeout = λ n w. w;
  dn_open = λ target w. (s_ok, 5, w);
  dn_close = λ c w. w;
  dn_set_timeout = λ c n w. (s_ok, w);
  bcap_send = λ c p w. (s_ok, (suc w.0, p));
  bcap_recv = λ c w. (if w.0 == 1 then 0x80000900 else s_ok, reply_to w.1, w);
}

send_receive-heard_example :
    (t : Trial (ℕ × Packet)) × (conns : Conns) × (send_receive late 2 table 2 question (0, question)
      ≡ ok (7, t, conns))
    × (t.reply ≡ some (reply_to (record question { serial = 1; reserv = 65535 })))
    × (length t.sent ≡ 2)
unfolding check_address wait_reply next_serial
send_receive-heard_example =
    send_receive-heard late 2 1 table 2 question
      (reply_to (record question { serial = 1; reserv = 65535 })) (0, question) peer refl refl
      (omega arith) (refl, _, _, refl, (refl, _, refl))
