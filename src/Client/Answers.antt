-- ===== src/Client/Answers.antt =====
-- What send_receive of bcap_core/src/bCAPClient/bcap_client.c sends, and what it takes for an answer.
use denso_robot_ros.Prelude.{
  ℕ, zero, suc, ◌-◌, ◌^◌, ◌≤◌, ◌<◌, ◌≡◌, ◌≢◌, refl, ap, List, [], ◌∷◌, Option, none, some, set,
  true, false, inl, inr, Bool-cases, arith,
}
use denso_robot_ros.Hresult.{Hresult, Outcome, ok, is_failed, s_ok, s_executing}
use denso_robot_ros.Packet.{Packet}
use denso_robot_ros.Client.{Conn, Conns, Net, check_address}
use denso_robot_ros.Client.Valid.{IsConn, IsTable, IsTable-set, check_address-IsConn}
use denso_robot_ros.Client.Transfer.{
  next_serial, Reply, answered, lost, waiting, Trial, answers, wait_reply, conclude, attempts,
  sent_first, first_reserv, result_code, transfer, send_receive,
}

-- The serial number after `k` packets.
unfoldable pub advance : ℕ → ℕ → ℕ
advance zero s = s
advance (suc k) s = advance k (next_serial s)

-- `k` copies of the request under successive serial numbers.
unfoldable pub numbered : Packet → ℕ → ℕ → List Packet
numbered request s zero = []
numbered request s (suc k) = record request { serial = s } ∷ numbered request (next_serial s) k

-- The packet that ended the call, after `k` packets from serial number `s` on: it carries the number
-- of the last of them, and is not S_EXECUTING.
abbrev pub IsAnswer : ℕ → ℕ → Option Packet → Type 0
IsAnswer s k none = Unit {0}
IsAnswer s zero (some p) = ⊥
IsAnswer s (suc k) (some p) = (p.serial ≡ advance k s) × (p.id ≢ s_executing)

-- A trial of at most `n` packets.
pub record Tried {W : Type 0} (request : Packet) (s n : ℕ) (t : Trial W) : Type 0 where
  pub count : ℕ
  pub count_le : count ≤ n
  pub sent_numbered : t.sent ≡ numbered request s count
  pub serial_advance : t.serial ≡ advance count s
  pub reply_answer : IsAnswer s count t.reply

pub next_serial-range : (s : ℕ) → (1 ≤ next_serial s) × (next_serial s < 2 ^ 16)
unfolding next_serial
next_serial-range s = (ground arith, ground arith)

pub advance-range : (k s : ℕ) → 1 ≤ s → s < 2 ^ 16 → (1 ≤ advance k s) × (advance k s < 2 ^ 16)
unfolding advance
advance-range zero s h h' = (h, h')
advance-range (suc k) s h h' =
    let (low, high) = next_serial-range s in advance-range k (next_serial s) low high

IsAnswer-suc : (s k : ℕ) (o : Option Packet) → IsAnswer (next_serial s) k o → IsAnswer s (suc k) o
unfolding advance
IsAnswer-suc s k none h = tt
IsAnswer-suc s zero (some p) h = absurd h
IsAnswer-suc s (suc k) (some p) h = h

abbrev pub Fits : {W : Type 0} → ℕ → Reply W → Type 0
Fits s (answered p w) = (p.serial ≡ s) × (p.id ≢ s_executing)
Fits s (lost hr w) = Unit {0}
Fits s waiting = Unit {0}

answers-serial : (s : ℕ) (p : Packet) → answers s p ≡ true → (p.serial ≡ s) × (p.id ≢ s_executing)
answers-serial s p e = (ground (arith, e), ground (arith, e))

module _ {W : Type 0} (net : Net W) (c : Conn) where
  -- A packet that ends the loop is an answer.
  Fits-wait_reply : (fuel s : ℕ) (w : W) → Fits s (wait_reply net c fuel s w)
  unfolding wait_reply
  Fits-wait_reply zero s w = tt
  Fits-wait_reply (suc fuel) s w =
      let (hr, p, w') = net.bcap_recv c w in
      elim (Bool-cases (is_failed hr)) [
        | inl failing ↦ rw failing tt
        | inr received ↦ elim (Bool-cases (answers s p)) [
          | inl mine ↦ rw (received, mine) (answers-serial s p mine)
          | inr stray ↦ rw (received, stray) (Fits-wait_reply fuel s w')
        ]
      ]

  -- The peer is quiet: bcap_recv fails or answers after at most `fuel` packets.
  abbrev pub IsQuiet : ℕ → Type 0
  IsQuiet fuel = (s : ℕ) (w : W) → wait_reply net c fuel s w ≢ waiting

  Tried-conclude :
      (again : Hresult → W → Outcome (Trial W)) (request : Packet) (s n : ℕ) (r : Reply W)
      → Fits s r
      → r ≢ waiting
      → ((hr : Hresult) (w : W)
          → (t : Trial W) × (again hr w ≡ ok t) × Tried request (next_serial s) n t)
      → (t : Trial W) × (conclude net c again (record request { serial = s }) (next_serial s) r
          ≡ ok t)
        × Tried request s (suc n) t
  unfolding conclude numbered advance
  Tried-conclude again request s n waiting fits quiet rest = absurd (quiet refl)
  Tried-conclude again request s n (answered p w) (same, final) quiet rest = (
    _,
    refl,
    record {
      count = 1;
      count_le = omega arith;
      sent_numbered = refl;
      serial_advance = refl;
      reply_answer = (same, final);
    },
  )
  Tried-conclude again request s n (lost hr w) fits quiet rest =
      let (t, runs, tried) = rest hr w in
      (
        sent_first net c (record request { serial = s }) t,
        rw runs refl,
        record {
          count = suc tried.count;
          count_le = omega (arith, tried.count_le);
          sent_numbered = ap (λ ps. record request { serial = s } ∷ ps) tried.sent_numbered;
          serial_advance = tried.serial_advance;
          reply_answer = IsAnswer-suc s tried.count t.reply tried.reply_answer;
        },
      )

  Tried-attempts :
      (fuel n : ℕ) (hr : Hresult) (request : Packet) (s : ℕ) (w : W)
      → IsQuiet fuel
      → (t : Trial W) × (attempts net c fuel n hr request s w ≡ ok t) × Tried request s n t
  unfolding attempts numbered advance
  Tried-attempts fuel zero hr request s w quiet = (
    _,
    refl,
    record {
      count = 0;
      count_le = omega arith;
      sent_numbered = refl;
      serial_advance = refl;
      reply_answer = tt;
    },
  )
  Tried-attempts fuel (suc n) hr request s w quiet =
      let (hs, w1) = net.bcap_send c (record request { serial = s }) w in
      let first_failed : Hresult → W → Trial W = λ e u. record {
        hr = e;
        reply = none;
        sent = record request { serial = s } ∷ [];
        serial = next_serial s;
        world = u;
      } in
      elim (Bool-cases (is_failed hs)) [
        | inl failing ↦ (
          first_failed hs w1,
          rw failing refl,
          record {
            count = 1;
            count_le = omega arith;
            sent_numbered = refl;
            serial_advance = refl;
            reply_answer = tt;
          },
        )
        | inr sent ↦ rw sent (
            Tried-conclude (λ hr' w2. attempts net c fuel n hr' request (next_serial s) w2) request
              s n (wait_reply net c fuel s w1) (Fits-wait_reply fuel s w1) (quiet s w1)
              (λ hr' w2. Tried-attempts fuel n hr' request (next_serial s) w2 quiet))
      ]

serial-IsConn :
    (c : Conn) (k n : ℕ) → n ≡ advance k c.serial → IsConn c → IsConn (record c { serial = n })
serial-IsConn c k n e (inl unopened) = inl unopened
serial-IsConn c k n e (inr (low, high, first, last)) =
    let (first', last') = advance-range k c.serial first last in
    inr (low, high, omega (arith, first'), omega (arith, last'))

-- A call of send_receive on an open connection returns. It sends at most as many packets as the
-- retry count, copies of the request under successive serial numbers which all carry the same
-- `reserv`, and stores the next number in the slot. A packet that ends it has the number of the last
-- packet sent and an `id` other than S_EXECUTING, which is the result. The table stays
-- well-formed. The mutex can be locked, and the peer is quiet: each wait ends after at most `fuel`
-- packets.
pub send_receive-answers :
    {W : Type 0} (net : Net W) (fuel : ℕ) (conns : Conns) (fd : ℕ) (request : Packet) (w : W)
    (c : Conn)
    → IsTable conns
    → check_address conns fd ≡ some c
    → is_failed ((net.lock_mutex w).0) ≡ false
    → IsQuiet net c fuel
    → (t : Trial W) × (send_receive net fuel conns fd request w
        ≡ ok (
          result_code t.hr t.reply,
          record t { world = net.unlock_mutex t.world },
          set conns (fd - 1) (record c { serial = t.serial }),
        ))
      × Tried (record request { reserv = first_reserv net c }) c.serial c.retry t
      × IsTable (set conns (fd - 1) (record c { serial = t.serial }))
unfolding send_receive transfer
send_receive-answers net fuel conns fd request w c table found locked quiet =
    let (t, runs, tried) =
      Tried-attempts net c fuel c.retry s_ok (record request { reserv = first_reserv net c })
        c.serial ((net.lock_mutex w).1) quiet in
    let valid = check_address-IsConn conns fd c table.all_IsConn found in
    (
      t,
      rw (found, locked, runs) refl,
      tried,
      IsTable-set conns (fd - 1) _ table
          (serial-IsConn c tried.count t.serial tried.serial_advance valid),
    )
