-- ===== src/Client/Valid.antt =====
-- The invariant of the table of bcap_core/src/bCAPClient/bcap_client.c, and the options.
use denso_robot_ros.Prelude.{
  ℕ, zero, suc, ◌-◌, ◌^◌, ◌≤◌, ◌<◌, ◌≡◌, refl, sym, ◌∙◌, subst, [], ◌∷◌, Option, none, some, length,
  length-set, get_elem?, set, All, Bool, true, false, ◌⊎◌, inl, inr, ◌==◌, if◌then◌else◌, arith,
}
use mathlib.Core.Option.{none-ne-some, some-injective}
use denso_robot_ros.Hresult.{Hresult, is_failed}
use denso_robot_ros.Device.{ConnType, conn_tcp, conn_udp, conn_com}
use denso_robot_ros.Client.{Conn, Conns, Net, unused, bcap_conn_max, in_use, if_open, check_address}
use denso_robot_ros.Client.Options.{
  clamp_retry, store_retry, set_retry, store_timeout, set_timeout, close_client,
}

-- An open connection sends each request between once and seven times, under serial numbers from 1 to
-- 65535.
abbrev pub IsConn : Conn → Type 0
IsConn c = (c.sock ≡ 0) ⊎ ((1 ≤ c.retry) × (c.retry ≤ 7) × (1 ≤ c.serial) × (c.serial < 2 ^ 16))

pub record IsTable (conns : Conns) : Type 0 where
  pub length_eq : length conns ≡ bcap_conn_max
  pub all_IsConn : All IsConn conns

pub All-set :
    (conns : Conns) (i : ℕ) (c : Conn) → All IsConn conns → IsConn c → All IsConn (set conns i c)
All-set [] i c h k = tt
All-set (d ∷ conns) zero c (hd, h) k = (k, h)
All-set (d ∷ conns) (suc i) c (hd, h) k = (hd, All-set conns i c h k)

pub All-get :
    (conns : Conns) (i : ℕ) (c : Conn) → All IsConn conns → get_elem? conns i ≡ some c → IsConn c
All-get [] i c h e = absurd (none-ne-some c e)
All-get (d ∷ conns) zero c (hd, h) e = subst IsConn (some-injective d c e) hd
All-get (d ∷ conns) (suc i) c (hd, h) e = All-get conns i c h e

pub IsTable-set :
    (conns : Conns) (i : ℕ) (c : Conn) → IsTable conns → IsConn c → IsTable (set conns i c)
IsTable-set conns i c h k = record {
  length_eq = length-set conns i c ∙ h.length_eq;
  all_IsConn = All-set conns i c h.all_IsConn k;
}

picked : (b : Bool) (d c : Conn) → (if b then none else some d) ≡ some c → d ≡ c
picked true d c e = absurd (none-ne-some c e)
picked false d c e = some-injective d c e

in_use-IsConn :
    (o : Option Conn) (c : Conn)
    → ((d : Conn) → o ≡ some d → IsConn d)
    → in_use o ≡ some c
    → IsConn c
in_use-IsConn none c h e = absurd (none-ne-some c e)
in_use-IsConn (some d) c h e = subst IsConn (picked (d.sock == 0) d c e) (h d refl)

pub check_address-IsConn :
    (conns : Conns) (fd : ℕ) (c : Conn)
    → All IsConn conns
    → check_address conns fd ≡ some c
    → IsConn c
unfolding check_address
check_address-IsConn conns zero c h e = absurd (none-ne-some c e)
check_address-IsConn conns (suc i) c h e =
    in_use-IsConn (get_elem? conns i) c (λ d. All-get conns i d h) e

-- The count that bCap_SetRetry stores.
clamp_retry-IsConn :
    (hr : Hresult) (c : Conn) (retry : ℕ)
    → IsConn c
    → IsConn (record c { retry = (clamp_retry hr c.type c.retry retry).1 })
clamp_retry-IsConn hr c retry (inl unopened) = inl unopened
clamp_retry-IsConn hr c retry (inr (low, high, first, last)) =
    let (low', high') = in_bounds c.type c.retry retry low high in inr (low', high', first, last)
  where
    in_bounds :
        (type : Option ConnType) (old n : ℕ)
        → 1 ≤ old
        → old ≤ 7
        → (1 ≤ (clamp_retry hr type old n).1) × ((clamp_retry hr type old n).1 ≤ 7)
    in_bounds none old n l h = unfold clamp_retry in (l, h)
    in_bounds (some conn_tcp) old n l h = unfold clamp_retry in (omega arith, omega arith)
    in_bounds (some conn_udp) old n l h = unfold clamp_retry in (ground arith, ground arith)
    in_bounds (some conn_com) old n l h = unfold clamp_retry in (ground arith, ground arith)

module _ {W : Type 0} (net : Net W) (conns : Conns) (table : IsTable conns) where
  -- A table that an operation on the slot of an open connection leaves.
  IsTable-if_open :
      {A : Type 0} (project : A → Conns) (o : Option Conn) (a : A) (f : Conn → A)
      → project a ≡ conns
      → ((c : Conn) → o ≡ some c → IsTable (project (f c)))
      → IsTable (project (if_open o a f))
  IsTable-if_open project none a f same run = subst IsTable (sym same) table
  IsTable-if_open project (some c) a f same run = run c refl

  abbrev left_table : Hresult × Conns × W → Conns
  left_table r = r.1

  locked :
      {A : Type 0} (project : A → Conns) (b : Bool) (a a' : A)
      → project a ≡ conns
      → IsTable (project a')
      → IsTable (project (if b then a else a'))
  locked project true a a' same run = subst IsTable (sym same) table
  locked project false a a' same run = run

  slot : (fd : ℕ) (c : Conn) → check_address conns fd ≡ some c → IsConn c
  slot fd c = check_address-IsConn conns fd c table.all_IsConn

  -- bCap_SetRetry keeps the table well-formed, whatever it returns: every open connection sends a
  -- request between once and seven times, under serial numbers from 1 to 65535.
  pub set_retry-IsTable : (fd retry : ℕ) (w : W) → IsTable ((set_retry net conns fd retry w).1)
  unfolding set_retry store_retry
  set_retry-IsTable fd retry w =
      IsTable-if_open left_table (check_address conns fd) _ _ refl λ c found.
        locked left_table (is_failed ((net.lock_mutex w).0)) _ _ refl (
          IsTable-set conns (fd - 1) _ table
            (clamp_retry-IsConn ((net.lock_mutex w).0) c retry (slot fd c found)))

  timed-IsConn : (c : Conn) (n : ℕ) → IsConn c → IsConn (record c { timeout = n })
  timed-IsConn c n (inl unopened) = inl unopened
  timed-IsConn c n (inr h) = inr h

  -- bCap_SetTimeout keeps the table well-formed, whatever it returns.
  pub set_timeout-IsTable :
      (fd timeout : ℕ) (w : W) → IsTable ((set_timeout net conns fd timeout w).1)
  unfolding set_timeout store_timeout
  set_timeout-IsTable fd timeout w =
      IsTable-if_open left_table (check_address conns fd) _ _ refl λ c found.
        let (hl, w1) = net.lock_mutex w in
        locked left_table (is_failed hl) _ _ refl (
          locked (λ cs. cs) (is_failed ((net.dn_set_timeout c timeout w1).0)) conns _ refl
            (IsTable-set conns (fd - 1) _ table (timed-IsConn c timeout (slot fd c found))))

  -- bCap_Close_Client keeps the table well-formed, whatever it returns.
  pub close_client-IsTable : (fd : ℕ) (w : W) → IsTable ((close_client net conns fd w).2)
  unfolding close_client
  close_client-IsTable fd w =
      IsTable-if_open (λ (r : Hresult × ℕ × Conns × W). r.2) (check_address conns fd) _ _ refl
        λ c found. IsTable-set conns (fd - 1) unused table (inl refl)
