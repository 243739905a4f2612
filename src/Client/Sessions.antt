-- ===== src/Client/Sessions.antt =====
-- Sequences of calls of the client, bcap_core/src/bCAPClient/bcap_client.c, from the table as the
-- program starts with it.
use denso_robot_ros.Prelude.{
  ℕ, zero, suc, ◌≡◌, refl, ap, List, [], ◌∷◌, Option, none, some, replicate, All, Bool, Bool-cases,
  inl, inr,
}
use denso_robot_ros.Hresult.{Outcome, ok, ◌>>=◌, is_failed}
use denso_robot_ros.Device.{Chars, Libc}
use denso_robot_ros.Packet.{Packet}
use denso_robot_ros.Client.{Conn, Conns, Net, unused, bcap_conn_max, check_address}
use denso_robot_ros.Client.Open.{open_client}
use denso_robot_ros.Client.Options.{set_retry, set_timeout, close_client}
use denso_robot_ros.Client.Transfer.{send_receive}
use denso_robot_ros.Client.Answers.{IsQuiet, send_receive-answers}
use denso_robot_ros.Client.Opened.{open_client-IsTable}
use denso_robot_ros.Client.Valid.{
  IsConn, IsTable, set_retry-IsTable, set_timeout-IsTable, close_client-IsTable,
}

-- A call of the client: of bCap_Open_Client with the option, the timeout and the retry count, of
-- bCap_Close_Client, bCap_SetTimeout and bCap_SetRetry with a descriptor, and of send_receive.
pub data Call : Type 0 where
  open_call : Option Chars → ℕ → ℕ → Call
  close_call : ℕ → Call
  timeout_call : ℕ → ℕ → Call
  retry_call : ℕ → ℕ → Call
  send_call : ℕ → Packet → Call

-- `m_conn_param` at the start of the program.
abbrev pub no_conns : Conns
no_conns = replicate bcap_conn_max unused

unused-IsConn : (n : ℕ) → All IsConn (replicate n unused)
unused-IsConn zero = tt
unused-IsConn (suc n) = (inl refl, unused-IsConn n)

no_conns-IsTable : IsTable no_conns
no_conns-IsTable = record { length_eq = refl; all_IsConn = unused-IsConn bcap_conn_max }

module _ {W : Type 0} (net : Net W) (libc : Libc) (malloc : ℕ → Bool) (fuel : ℕ) where
  -- What a call leaves; a call of send_receive is followed to its end.
  unfoldable pub call : Call → Conns → W → Outcome (Conns × W)
  call (open_call connect timeout retry) conns w =
      let r = open_client net libc malloc connect timeout retry conns w in ok (r.2, r.3)
  call (close_call fd) conns w = let r = close_client net conns fd w in ok (r.2, r.3)
  call (timeout_call fd n) conns w = let r = set_timeout net conns fd n w in ok (r.1, r.2)
  call (retry_call fd n) conns w = let r = set_retry net conns fd n w in ok (r.1, r.2)
  call (send_call fd p) conns w = send_receive net fuel conns fd p w >>= λ r. ok (r.2, r.1.world)

  unfoldable pub calls : List Call → Conns → W → Outcome (Conns × W)
  unfolding call
  calls [] conns w = ok (conns, w)
  calls (c ∷ cs) conns w = call c conns w >>= λ s. calls cs s.0 s.1

  module _ (quiet : (c : Conn) → IsQuiet net c fuel) where
    -- The outcome is a state with a well-formed table.
    abbrev Keeps : Outcome (Conns × W) → Type 0
    Keeps o = (s : Conns × W) × (o ≡ ok s) × IsTable s.0

    send-Keeps :
        (fd : ℕ) (p : Packet) (conns : Conns) (w : W) (o : Option Conn)
        → IsTable conns
        → check_address conns fd ≡ o
        → Keeps (call (send_call fd p) conns w)
    unfolding call send_receive
    send-Keeps fd p conns w none table found = ((conns, w), rw found refl, table)
    send-Keeps fd p conns w (some c) table found =
        elim (Bool-cases (is_failed (net.lock_mutex w).0)) [
          | inl failing ↦ ((conns, (net.lock_mutex w).1), rw (found, failing) refl, table)
          | inr locked ↦
              let (t, runs, tried, kept) =
                send_receive-answers net fuel conns fd p w c table found locked (quiet c) in
              (_, ap (λ x. x >>= λ r. ok (r.2, r.1.world)) runs, kept)
        ]

    call-Keeps : (c : Call) (conns : Conns) (w : W) → IsTable conns → Keeps (call c conns w)
    unfolding call
    call-Keeps (open_call connect timeout retry) conns w table =
        (_, refl, open_client-IsTable net libc malloc timeout retry conns table connect w)
    call-Keeps (close_call fd) conns w table = (_, refl, close_client-IsTable net conns table fd w)
    call-Keeps (timeout_call fd n) conns w table =
        (_, refl, set_timeout-IsTable net conns table fd n w)
    call-Keeps (retry_call fd n) conns w table = (_, refl, set_retry-IsTable net conns table fd n w)
    call-Keeps (send_call fd p) conns w table =
        send-Keeps fd p conns w (check_address conns fd) table refl

    calls-Keeps :
        (cs : List Call) (conns : Conns) (w : W) → IsTable conns → Keeps (calls cs conns w)
    unfolding calls
    calls-Keeps [] conns w table = (_, refl, table)
    calls-Keeps (c ∷ cs) conns w table =
        let (s, runs, kept) = call-Keeps c conns w table in
        let (s', runs', kept') = calls-Keeps cs s.0 s.1 kept in (s', rw runs runs', kept')

-- A session of the client, any sequence of calls of bCap_Open_Client, bCap_Close_Client,
-- bCap_SetTimeout, bCap_SetRetry and send_receive with any arguments, from the empty table on, comes
-- to its end, whatever the device, the C library and malloc give, and leaves a table in which each
-- open connection sends a request between once and seven times, under serial numbers from 1 to
-- 65535; for peers that are quiet: each wait for an answer ends after at most `fuel` packets.
pub calls-IsTable :
    {W : Type 0} (net : Net W) (libc : Libc) (malloc : ℕ → Bool) (fuel : ℕ) (cs : List Call) (w : W)
    → ((c : Conn) → IsQuiet net c fuel)
    → (s : Conns × W) × (calls net libc malloc fuel cs no_conns w ≡ ok s) × IsTable s.0
calls-IsTable net libc malloc fuel cs w quiet =
    calls-Keeps net libc malloc fuel quiet cs no_conns w no_conns-IsTable
