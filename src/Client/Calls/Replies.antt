-- ===== src/Client/Calls/Replies.antt =====
-- Where the packet that ends send_receive of bcap_core/src/bCAPClient/bcap_client.c comes from.
use denso_robot_ros.Prelude.{ℕ, zero, suc, ◌≡◌, Option, none, some, false, inl, inr, Bool-cases}
use denso_robot_ros.Hresult.{Hresult, Outcome, ok, failed, fault, out_of_fuel, ◌>>=◌, is_failed}
use denso_robot_ros.Packet.{Packet}
use denso_robot_ros.Client.{Conn, Conns, Net, check_address}
use denso_robot_ros.Client.Transfer.{
  Trial, Reply, answered, lost, waiting, next_serial, answers, wait_reply, conclude, attempts,
  transfer, send_receive,
}
use denso_robot_ros.Client.Calls.Typed.{request}

-- What a result satisfies, if there is one.
abbrev pub OnOk {ℓ} : {A : Type ℓ} → (A → Type 0) → Outcome A → Type 0
OnOk P (ok a) = P a
OnOk P (failed hr) = Unit {0}
OnOk P fault = Unit {0}
OnOk P out_of_fuel = Unit {0}

pub OnOk-bind {ℓ κ} :
    {A : Type ℓ} {B : Type κ} (P : A → Type 0) (Q : B → Type 0) (m : Outcome A) (f : A → Outcome B)
    → OnOk P m
    → ((a : A) → P a → OnOk Q (f a))
    → OnOk Q (m >>= f)
OnOk-bind P Q (ok a) f h rest = rest a h
OnOk-bind P Q (failed hr) f h rest = tt
OnOk-bind P Q fault f h rest = tt
OnOk-bind P Q out_of_fuel f h rest = tt

abbrev pub OnSome {ℓ} : {A : Type ℓ} → (A → Type 0) → Option A → Type 0
OnSome P none = Unit {0}
OnSome P (some a) = P a

abbrev OnReply : {W : Type 0} → (Packet → Type 0) → Reply W → Type 0
OnReply P (answered p w) = P p
OnReply P (lost hr w) = Unit {0}
OnReply P waiting = Unit {0}

-- The packet that ends a call is one that was received.
module _ {W : Type 0} (net : Net W) (c : Conn) (P : Packet → Type 0)
    (all : (u : W) → P ((net.bcap_recv c u).1)) where
  wait_reply-OnReply : (fuel s : ℕ) (w : W) → OnReply P (wait_reply net c fuel s w)
  unfolding wait_reply
  wait_reply-OnReply zero s w = tt
  wait_reply-OnReply (suc fuel) s w =
      let (hr, p, w') = net.bcap_recv c w in
      elim (Bool-cases (is_failed hr)) [
        | inl failing ↦ rw failing tt
        | inr got ↦ elim (Bool-cases (answers s p)) [
          | inl mine ↦ rw (got, mine) (all w)
          | inr stray ↦ rw (got, stray) (wait_reply-OnReply fuel s w')
        ]
      ]

  conclude-OnOk :
      (again : Hresult → W → Outcome (Trial W)) (q : Packet) (n : ℕ) (r : Reply W)
      → OnReply P r
      → ((hr : Hresult) (w : W) → OnOk (λ t. OnSome P t.reply) (again hr w))
      → OnOk (λ t. OnSome P t.reply) (conclude net c again q n r)
  unfolding conclude
  conclude-OnOk again q n waiting h rest = tt
  conclude-OnOk again q n (answered p w) h rest = h
  conclude-OnOk again q n (lost hr w) h rest =
      OnOk-bind (λ t. OnSome P t.reply) (λ t. OnSome P t.reply) (again hr w) _ (rest hr w)
        (λ t same. same)

  attempts-OnOk :
      (fuel n : ℕ) (hr : Hresult) (request : Packet) (s : ℕ) (w : W)
      → OnOk (λ t. OnSome P t.reply) (attempts net c fuel n hr request s w)
  unfolding attempts
  attempts-OnOk fuel zero hr request s w = tt
  attempts-OnOk fuel (suc n) hr request s w =
      let (hs, w1) = net.bcap_send c (record request { serial = s }) w in
      elim (Bool-cases (is_failed hs)) [
        | inl failing ↦ rw failing tt
        | inr sent ↦ rw sent (
            conclude-OnOk (λ hr' w2. attempts net c fuel n hr' request (next_serial s) w2)
              (record request { serial = s }) (next_serial s) (wait_reply net c fuel s w1)
              (wait_reply-OnReply fuel s w1)
              (λ hr' w2. attempts-OnOk fuel n hr' request (next_serial s) w2))
      ]

  pub send_receive-OnOk :
      (fuel : ℕ) (conns : Conns) (fd : ℕ) (request : Packet) (w : W)
      → check_address conns fd ≡ some c
      → is_failed ((net.lock_mutex w).0) ≡ false
      → OnOk (λ r. OnSome P (r.1).reply) (send_receive net fuel conns fd request w)
  unfolding send_receive transfer
  send_receive-OnOk fuel conns fd request w found locked =
      rw (found, locked)
        (OnOk-bind {A = Trial W} {B = Hresult × Trial W × Conns} (λ t. OnSome P t.reply)
          (λ r. OnSome P (r.1).reply) _ _
          (attempts-OnOk fuel c.retry _ _ c.serial ((net.lock_mutex w).1)) (λ t same. same))
