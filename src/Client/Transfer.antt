-- ===== src/Client/Transfer.antt =====
-- send_receive of bcap_core/src/bCAPClient/bcap_client.c.
use denso_robot_ros.Prelude.{
  ℕ, zero, suc, ◌+◌, ◌-◌, ◌%◌, ◌^◌, List, [], ◌∷◌, Option, none, some, set, Bool, not, ◌&&◌, ◌==◌,
  if◌then◌else◌,
}
use denso_robot_ros.Hresult.{
  Hresult, Outcome, ok, out_of_fuel, ◌>>=◌, is_failed, s_ok, s_executing, e_fail, e_handle,
}
use denso_robot_ros.Device.{conn_tcp, conn_udp, conn_com}
use denso_robot_ros.Packet.{Packet}
use denso_robot_ros.Client.{Conn, Conns, Net, if_open, check_address}

-- `serial++; if (serial == 0) serial = 1;` in `uint16_t`
unfoldable pub next_serial : ℕ → ℕ
next_serial s = let n = (s + 1) % 2 ^ 16 in if n == 0 then 1 else n

-- How one attempt ends, and with it the state of the rest: with the packet that answers, or with a
-- code of bcap_recv that makes the client send again. `waiting` is a loop that has run out of fuel.
pub data Reply (W : Type 0) : Type 0 where
  answered : Packet → W → Reply W
  lost : Hresult → W → Reply W
  waiting : Reply W

-- What a call of send_receive did. `sent` are the packets that it gave to bcap_send, `reply` is the
-- packet that ended it, `serial` the serial number left in the slot.
pub record Trial (W : Type 0) : Type 0 where
  pub hr : Hresult
  pub reply : Option Packet
  pub sent : List Packet
  pub serial : ℕ
  pub world : W

-- The test on a packet: the answer has the serial number of the request, and is final.
abbrev pub answers : ℕ → Packet → Bool
answers serial p = serial == p.serial && not (p.id == s_executing)

module _ {W : Type 0} (net : Net W) (c : Conn) where
  -- `while (1)` around bcap_recv, with fuel for the packets that are passed over.
  unfoldable pub wait_reply : ℕ → ℕ → W → Reply W
  wait_reply zero serial w = waiting
  wait_reply (suc fuel) serial w =
      let (hr, p, w') = net.bcap_recv c w in
      let rest = wait_reply fuel serial w' in
      if is_failed hr then lost hr w' else if answers serial p then answered p w' else rest

  abbrev pub sent_first : Packet → Trial W → Trial W
  sent_first q t = record t { sent = q ∷ t.sent }

  -- The end of a round that sent `q`; `again` is the rest of the loop on `retry_cnt`.
  unfoldable pub conclude :
      (Hresult → W → Outcome (Trial W)) → Packet → ℕ → Reply W → Outcome (Trial W)
  conclude again q next waiting = out_of_fuel
  conclude again q next (answered p w) =
      ok (record { hr = s_ok; reply = some p; sent = q ∷ []; serial = next; world = w })
  conclude again q next (lost hr w) = do t ← again hr w; ok (sent_first q t)

  -- The loop on `retry_cnt`, `n` rounds before its end, after a round that ended with `hr`.
  unfoldable pub attempts : ℕ → ℕ → Hresult → Packet → ℕ → W → Outcome (Trial W)
  unfolding wait_reply next_serial conclude
  attempts fuel zero hr request serial w =
      ok (record { hr = hr; reply = none; sent = []; serial = serial; world = w })
  attempts fuel (suc n) hr request serial w =
      let q = record request { serial = serial } in
      let next = next_serial serial in
      let (hs, w1) = net.bcap_send c q w in
      if is_failed hs
      then ok (record { hr = hs; reply = none; sent = q ∷ []; serial = next; world = w1 })
      else conclude (λ hr' w2. attempts fuel n hr' request next w2) q next
          (wait_reply fuel serial w1)

  -- `packet_send->reserv`
  abbrev pub first_reserv : ℕ
  first_reserv = elim c.type [
    | none ↦ c.serial
    | some conn_tcp ↦ 0
    | some conn_udp ↦ c.serial
    | some conn_com ↦ c.serial
  ]

-- The code of the call: that of the answer where a packet answered.
abbrev pub result_code : Hresult → Option Packet → Hresult
result_code hr none = if is_failed hr then hr else e_fail
result_code hr (some p) = p.id

module _ {W : Type 0} (net : Net W) where
  -- What is done under the mutex.
  unfoldable pub transfer : ℕ → Conns → ℕ → Conn → Packet → W → Outcome (Hresult × Trial W × Conns)
  unfolding attempts
  transfer fuel conns fd c request w = do
    t ← attempts net c fuel c.retry s_ok (record request { reserv = first_reserv net c }) c.serial w
    ok (
      result_code t.hr t.reply,
      record t { world = net.unlock_mutex t.world },
      set conns (fd - 1) (record c { serial = t.serial }),
    )

  -- A call that sends nothing.
  abbrev pub refused : Hresult → Conns → W → Hresult × Trial W × Conns
  refused hr conns w =
      (hr, record { hr = hr; reply = none; sent = []; serial = 0; world = w }, conns)

  unfoldable pub send_receive : ℕ → Conns → ℕ → Packet → W → Outcome (Hresult × Trial W × Conns)
  unfolding transfer
  send_receive fuel conns fd request w =
      if_open (check_address conns fd) (ok (refused e_handle conns w)) λ c.
        let (hr, w') = net.lock_mutex w in
        if is_failed hr then ok (refused hr conns w') else transfer fuel conns fd c request w'
