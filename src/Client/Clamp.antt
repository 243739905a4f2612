-- ===== src/Client/Clamp.antt =====
-- The retry count of a connection, as bCap_SetRetry stores it and bCap_GetRetry reads it,
-- bcap_core/src/bCAPClient/bcap_client.c.
use Prim.Native.Nat.{min, max}
use mathlib.Core.Option.{none-ne-some, some-injective}
use denso_robot_ros.Prelude.{
  ℕ, zero, suc, ◌≤◌, ◌<◌, ◌≡◌, refl, ap, ◌∙◌, subst, [], ◌∷◌, Option, none, some, length, get_elem?,
  Bool, true, false, ◌==◌, if◌then◌else◌, arith,
}
use denso_robot_ros.Hresult.{Hresult, ok, is_failed}
use denso_robot_ros.Device.{ConnType, conn_tcp, conn_udp, conn_com}
use denso_robot_ros.Client.{Conn, Conns, Net, in_use, check_address}
use denso_robot_ros.Client.Options.{clamp_retry, store_retry, set_retry, get_retry}
use denso_robot_ros.Client.Opened.{check_address-set}

-- One attempt over TCP, and between one and seven over the others.
unfoldable pub granted_retry : ConnType → ℕ → ℕ
granted_retry conn_tcp n = 1
granted_retry conn_udp n = min 7 (max 1 n)
granted_retry conn_com n = min 7 (max 1 n)

pub clamp_retry-granted :
    (hr : Hresult) (ty : ConnType) (old n : ℕ)
    → clamp_retry hr (some ty) old n ≡ (hr, granted_retry ty n)
unfolding clamp_retry granted_retry
clamp_retry-granted hr conn_tcp old n = refl
clamp_retry-granted hr conn_udp old n = ap (λ k. (hr, k)) (ground arith)
clamp_retry-granted hr conn_com old n = ap (λ k. (hr, k)) (ground arith)

in_use-some :
    (o : Option Conn) (c : Conn) → in_use o ≡ some c → (o ≡ some c) × ((c.sock == 0) ≡ false)
in_use-some none c e = absurd (none-ne-some c e)
in_use-some (some d) c e = picked (d.sock == 0) refl e
  where
    picked :
        (b : Bool)
        → (d.sock == 0) ≡ b
        → (if b then none else some d) ≡ some c
        → (some d ≡ some c) × ((c.sock == 0) ≡ false)
    picked true h k = absurd (none-ne-some c k)
    picked false h k = (k, subst (λ x. (x.sock == 0) ≡ false) (some-injective d c k) h)

get_elem?-lt : (conns : Conns) (i : ℕ) (c : Conn) → get_elem? conns i ≡ some c → i < length conns
get_elem?-lt [] i c e = absurd (none-ne-some c e)
get_elem?-lt (d ∷ conns) zero c e = omega arith
get_elem?-lt (d ∷ conns) (suc i) c e = omega (arith, get_elem?-lt conns i c e)

-- A descriptor that is found lies in the table, and its connection is open.
pub check_address-found :
    (conns : Conns) (fd : ℕ) (c : Conn)
    → check_address conns fd ≡ some c
    → (1 ≤ fd) × (fd ≤ length conns) × ((c.sock == 0) ≡ false)
unfolding check_address
check_address-found conns zero c e = absurd (none-ne-some c e)
check_address-found conns (suc i) c e =
    let (stands, usable) = in_use-some (get_elem? conns i) c e in
    (omega arith, omega (arith, get_elem?-lt conns i c stands), usable)

-- On an open connection of a known type whose mutex can be locked, bCap_SetRetry returns the code of
-- the lock, and bCap_GetRetry then gives one for TCP, and otherwise the count that was asked for,
-- brought into the range from one to seven.
pub set_retry-get_retry :
    {W : Type 0} (net : Net W) (conns : Conns) (fd retry : ℕ) (w : W) (c : Conn) (ty : ConnType)
    → check_address conns fd ≡ some c
    → c.type ≡ some ty
    → is_failed ((net.lock_mutex w).0) ≡ false
    → ((set_retry net conns fd retry w).0 ≡ (net.lock_mutex w).0)
      × (get_retry ((set_retry net conns fd retry w).1) fd ≡ ok (granted_retry ty retry))
unfolding set_retry store_retry get_retry
set_retry-get_retry net conns fd retry w c ty found typed locked =
    let (low, high, usable) = check_address-found conns fd c found in
    let hl = (net.lock_mutex w).0 in
    let stored : clamp_retry hl c.type c.retry retry ≡ (hl, granted_retry ty retry) =
      ap (λ t. clamp_retry hl t c.retry retry) typed ∙ clamp_retry-granted hl ty c.retry retry in
    let slot = record c { retry = (clamp_retry hl c.type c.retry retry).1 } in
    (
      rw (found, locked) (ap (λ r. r.0) stored),
      rw (found, locked, check_address-set conns fd slot low high, usable)
          (ap (λ r. ok (r.1)) stored),
    )
