-- ===== src/Client/Heard.antt =====
-- An answer to a retry, in send_receive of bcap_core/src/bCAPClient/bcap_client.c.
use denso_robot_ros.Prelude.{
  ℕ, zero, suc, ◌-◌, ◌<◌, ◌≡◌, refl, ap, some, [], ◌∷◌, length, set, false, arith,
}
use denso_robot_ros.Hresult.{Hresult, ok, s_ok, is_failed}
use denso_robot_ros.Packet.{Packet}
use denso_robot_ros.Client.{Conn, Conns, Net, check_address}
use denso_robot_ros.Client.Transfer.{
  Trial, answered, lost, next_serial, wait_reply, attempts, conclude, first_reserv, transfer,
  send_receive,
}

module _ {W : Type 0} (net : Net W) (c : Conn) (fuel : ℕ) (p : Packet) where
  -- The packets of `k` rounds are sent and no answer to them comes; that of the next round is
  -- answered with `p`.
  abbrev pub AnswersAfter : ℕ → Packet → ℕ → W → Type 0
  AnswersAfter zero request s w =
      let (hs, w1) = net.bcap_send c (record request { serial = s }) w in
      (is_failed hs ≡ false) × (w' : W) × (wait_reply net c fuel s w1 ≡ answered p w')
  AnswersAfter (suc k) request s w =
      let (hs, w1) = net.bcap_send c (record request { serial = s }) w in
      (is_failed hs ≡ false)
      × (hr : Hresult) × (w' : W) × (wait_reply net c fuel s w1 ≡ lost hr w')
      × AnswersAfter k request (next_serial s) w'

  attempts-heard :
      (k n : ℕ) (hr : Hresult) (request : Packet) (s : ℕ) (w : W)
      → k < n
      → AnswersAfter k request s w
      → (t : Trial W) × (attempts net c fuel n hr request s w ≡ ok t)
        × (t.reply ≡ some p)
        × (length t.sent ≡ suc k)
  unfolding attempts conclude
  attempts-heard k zero hr request s w low h = absurd (omega (arith, low))
  attempts-heard zero (suc n) hr request s w low (sent, w', answer) = (
    record {
      hr = s_ok;
      reply = some p;
      sent = record request { serial = s } ∷ [];
      serial = next_serial s;
      world = w';
    },
    rw (sent, answer) refl,
    refl,
    refl,
  )
  attempts-heard (suc k) (suc n) hr request s w low (sent, hr', w', silent, later) =
      let (t, runs, reply, count) =
        attempts-heard k n hr' request (next_serial s) w' (omega (arith, low)) later in
      (
        record t { sent = record request { serial = s } ∷ t.sent },
        rw (sent, silent, runs) refl,
        reply,
        ap suc count,
      )

-- A retry is heard: where bcap_send works and the peer leaves `k` packets of a call without an answer
-- and answers the next one, and there are more retries than that, send_receive on an open connection
-- returns the code of the answer after exactly `k` + 1 packets. The mutex can be locked.
pub send_receive-heard :
    {W : Type 0} (net : Net W) (fuel k : ℕ) (conns : Conns) (fd : ℕ) (request p : Packet) (w : W)
    (c : Conn)
    → check_address conns fd ≡ some c
    → is_failed (net.lock_mutex w).0 ≡ false
    → k < c.retry
    → AnswersAfter net c fuel p k
        (record request { reserv = first_reserv net c })
        c.serial
        (net.lock_mutex w).1
    → (t : Trial W) × (conns' : Conns) × (send_receive net fuel conns fd request w
        ≡ ok (p.id, t, conns'))
      × (t.reply ≡ some p)
      × (length t.sent ≡ suc k)
unfolding send_receive transfer
send_receive-heard net fuel k conns fd request p w c found locked enough answers =
    let (t, runs, reply, count) =
      attempts-heard net c fuel p k c.retry s_ok (record request { reserv = first_reserv net c })
        c.serial (net.lock_mutex w).1 enough answers in
    (
      record t { world = net.unlock_mutex t.world },
      set conns (fd - 1) (record c { serial = t.serial }),
      rw (found, locked, runs, reply) refl,
      reply,
      count,
    )
