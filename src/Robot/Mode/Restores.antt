-- ===== src/Robot/Mode/Restores.antt =====
-- The timeout and the retry count around a slave mode, denso_robot_core/src/denso_robot.cpp.
use denso_robot_ros.Prelude.{
  ℕ, ◌≡◌, ◌≢◌, refl, sym, ap, ◌∙◌, Bool, true, false, ◌==◌, ◌&&◌, ◌||◌, if◌then◌else◌, Bool-cases,
  inl, inr, ne→==, ==_iff,
}
use denso_robot_ros.Hresult.{Hresult, is_failed}
use denso_robot_ros.Device.{ConnType}
use denso_robot_ros.Variant.{Variants}
use denso_robot_ros.Client.Clamp.{granted_retry}
use denso_robot_ros.Robot.{Robot}
use denso_robot_ros.Robot.Mode.{
  Service, if_done, enter_mode, enter_with_arm, enter_receiving, change_mode_name, recv_format_name,
  send_format_name, exec_take_arm, exec_give_arm, exec_slave_mode, set_slave, enter_slave,
  leave_slave, change_mode, core_change_mode, settled,
}

-- A service on an open connection of a type: it keeps the timeout that is set, brings a retry count
-- that is set into the range of bCap_SetRetry, which is one over TCP, and changes them only then.
pub record KeepsSettings {W : Type 0} (type : ConnType) (service : Service W) : Type 0 where
  pub put_timeout : (n : ℕ) (w : W) → service.get_timeout (service.put_timeout n w) ≡ n
  pub put_retry : (n : ℕ) (w : W) → service.get_retry (service.put_retry n w) ≡ granted_retry type n
  pub put_retry_timeout :
      (n : ℕ) (w : W) → service.get_timeout (service.put_retry n w) ≡ service.get_timeout w
  pub exec_timeout :
      (id : ℕ) (args : Variants) (w : W)
      → service.get_timeout (service.exec id args w).1 ≡ service.get_timeout w
  pub exec_retry :
      (id : ℕ) (args : Variants) (w : W)
      → service.get_retry (service.exec id args w).1 ≡ service.get_retry w
  pub stop_timeout : (w : W) → service.get_timeout (service.stop w) ≡ service.get_timeout w
  pub stop_retry : (w : W) → service.get_retry (service.stop w) ≡ service.get_retry w
  pub start_timeout : (w : W) → service.get_timeout (service.start w) ≡ service.get_timeout w
  pub start_retry : (w : W) → service.get_retry (service.start w) ≡ service.get_retry w

module _ {W : Type 0} (type : ConnType) (service : Service W) (keeps : KeepsSettings type service)
    (handle : ℕ) where
  -- A command leaves the settings as they were.
  abbrev Has : ℕ → ℕ → W → Type 0
  Has t n w = (service.get_timeout w ≡ t) × (service.get_retry w ≡ n)

  exec-Has : (t n id : ℕ) (args : Variants) (w : W) → Has t n w → Has t n (service.exec id args w).1
  exec-Has t n id args w (ht, hn) =
      (keeps.exec_timeout id args w ∙ ht, keeps.exec_retry id args w ∙ hn)

  -- Where it succeeds, the old settings are remembered.
  abbrev Remembers : ℕ → ℕ → Hresult × Robot × W → Type 0
  Remembers t n res = is_failed res.0 ≡ false → (res.1.mem_timeout ≡ t) × (res.1.mem_retry ≡ n)

  if_done-Remembers :
      (t n : ℕ) (e : Hresult × W) (r : Robot) (k : W → Hresult × Robot × W)
      → Has t n e.1
      → ((w : W) → Has t n w → Remembers t n (k w))
      → Remembers t n (if_done service handle e r k)
  if_done-Remembers t n (hr, w) r k has next = elim (Bool-cases (is_failed hr)) [
    | inl bad ↦ rw bad (λ done. absurd_of (sym bad ∙ done))
    | inr good ↦ rw good (next w has)
  ]
    where
      absurd_of : {A : Type 0} → true ≡ false → A
      absurd_of e = cc

  module _ (t n mode : ℕ) (r : Robot) where
    enter_mode-Remembers : (w : W) → Has t n w → Remembers t n (enter_mode service handle mode r w)
    unfolding enter_mode exec_slave_mode
    enter_mode-Remembers w has =
        if_done-Remembers t n (exec_slave_mode service handle change_mode_name mode 0 w) r
          (set_slave service handle mode r) (exec-Has t n _ _ w has)
          (λ w1 has1 done. unfold set_slave in has1)

    enter_with_arm-Remembers :
        (w : W) → Has t n w → Remembers t n (enter_with_arm service handle mode r w)
    unfolding enter_with_arm exec_take_arm
    enter_with_arm-Remembers w has =
        if_done-Remembers t n (exec_take_arm service handle r w) r
          (enter_mode service handle mode r) (exec-Has t n _ _ w has) enter_mode-Remembers

    enter_receiving-Remembers :
        (w : W) → Has t n w → Remembers t n (enter_receiving service handle mode r w)
    unfolding enter_receiving exec_slave_mode
    enter_receiving-Remembers w has =
        if_done-Remembers t n (exec_slave_mode service handle recv_format_name r.recvfmt r.tsfmt w)
          r (enter_with_arm service handle mode r) (exec-Has t n _ _ w has) enter_with_arm-Remembers

    enter_slave-Remembers :
        (w : W) → Has t n w → Remembers t n (enter_slave service handle mode r w)
    unfolding enter_slave exec_slave_mode
    enter_slave-Remembers w has =
        if_done-Remembers t n (exec_slave_mode service handle send_format_name r.sendfmt 0 w) r
          (enter_receiving service handle mode r) (exec-Has t n _ _ w has) enter_receiving-Remembers

  leave_slave-Has :
      (mode : ℕ) (r : Robot) (w : W)
      → Has r.mem_timeout (granted_retry type r.mem_retry) (leave_slave service handle mode r w).2
  unfolding leave_slave exec_slave_mode exec_give_arm
  leave_slave-Has mode r w = exec-Has r.mem_timeout (granted_retry type r.mem_retry) _ _ _ (
      exec-Has r.mem_timeout (granted_retry type r.mem_retry) _ _ _
        (keeps.put_retry_timeout _ _ ∙ keeps.put_timeout _ _, keeps.put_retry _ _))

  -- Leaving gives the remembered settings back, and the services that start again keep them.
  settled-Has :
      (t n mode : ℕ) (again : Bool) (res : Hresult × Robot × W)
      → Has t n res.2
      → Has t n (settled service handle mode again res).2
  settled-Has t n mode again (hr, r, w) (ht, hn) =
      elim (Bool-cases ((if is_failed hr then 0 else mode) == 0 && again)) [
        | inl again_on ↦ rw again_on (keeps.start_timeout w ∙ ht, keeps.start_retry w ∙ hn)
        | inr off ↦ rw off (ht, hn)
      ]

  -- A controller whose type has a slave mode.
  abbrev has_slave : ℕ → Bool
  has_slave ctrl_type = ctrl_type == 8 || ctrl_type == 9

  -- A change of mode for such a controller.
  changed :
      (ctrl_type mode : ℕ) (restart : Bool) (r : Robot) (w : W)
      → has_slave ctrl_type ≡ true
      → core_change_mode service handle ctrl_type mode restart r w
        ≡ settled service handle mode restart (change_mode service handle mode r (service.stop w))
  unfolding core_change_mode
  changed ctrl_type mode restart r w slave = rw slave refl

  -- Others fail.
  refused :
      (ctrl_type mode : ℕ) (restart : Bool) (r : Robot) (w : W)
      → has_slave ctrl_type ≡ false
      → is_failed (core_change_mode service handle ctrl_type mode restart r w).0 ≡ true
  unfolding core_change_mode
  refused ctrl_type mode restart r w other = rw other refl

  succeeds-has_slave :
      (ctrl_type mode : ℕ) (restart : Bool) (r : Robot) (w : W)
      → is_failed (core_change_mode service handle ctrl_type mode restart r w).0 ≡ false
      → has_slave ctrl_type ≡ true
  succeeds-has_slave ctrl_type mode restart r w done = elim (Bool-cases (has_slave ctrl_type)) [
    | inl slave ↦ slave
    | inr other ↦ absurd_of (sym (refused ctrl_type mode restart r w other) ∙ done)
  ]
    where
      absurd_of : {A : Type 0} → true ≡ false → A
      absurd_of e = cc

  settled-Remembers :
      (t n mode : ℕ) (restart : Bool) (res : Hresult × Robot × W)
      → is_failed res.0 ≡ false
      → Remembers t n res
      → let r1 = (settled service handle mode restart res).1 in
        (r1.mode ≡ mode) × (r1.mem_timeout ≡ t) × (r1.mem_retry ≡ n)
  settled-Remembers t n mode restart (hr, r, w) done remembers =
      (rw done refl, (remembers done).0, (remembers done).1)

  -- The mode is the new one, and the settings in front of it are remembered.
  core_change_mode-enters :
      (ctrl_type mode : ℕ) (restart : Bool) (r : Robot) (w : W)
      → r.mode ≡ 0
      → mode ≢ 0
      → is_failed (core_change_mode service handle ctrl_type mode restart r w).0 ≡ false
      → let r1 = (core_change_mode service handle ctrl_type mode restart r w).1 in
        (r1.mode ≡ mode)
        × (r1.mem_timeout ≡ service.get_timeout w)
        × (r1.mem_retry ≡ service.get_retry w)
  unfolding change_mode
  core_change_mode-enters ctrl_type mode restart r w normal slave done =
      let known = succeeds-has_slave ctrl_type mode restart r w done in
      let same = changed ctrl_type mode restart r w known in
      let zero = ne→== mode 0 slave in
      let starts : (r.mode == 0) ≡ true = (==_iff r.mode 0).1 normal in
      let entered : change_mode service handle mode r (service.stop w)
          ≡ enter_slave service handle mode r (service.stop w) =
        rw (starts, zero) refl in
      let entry = enter_slave service handle mode r (service.stop w) in
      rw (same, entered)
        (settled-Remembers (service.get_timeout w) (service.get_retry w) mode restart entry
          (rw (same, entered) at done)
          (enter_slave-Remembers (service.get_timeout w) (service.get_retry w) mode r
            (service.stop w) (keeps.stop_timeout w, keeps.stop_retry w)))

  core_change_mode-leaves :
      (ctrl_type mode : ℕ) (restart : Bool) (r : Robot) (w : W)
      → has_slave ctrl_type ≡ true
      → r.mode ≢ 0
      → Has r.mem_timeout
          (granted_retry type r.mem_retry)
          (core_change_mode service handle ctrl_type mode restart r w).2
  unfolding change_mode
  core_change_mode-leaves ctrl_type mode restart r w known slave =
      let on : (r.mode == 0) ≡ false = ne→== r.mode 0 slave in
      rw (changed ctrl_type mode restart r w known) (
        settled-Has r.mem_timeout (granted_retry type r.mem_retry) mode restart
          (change_mode service handle mode r (service.stop w))
          (rw on (leave_slave-Has mode r (service.stop w))))

-- A slave mode ends with the settings it began with: where DensoRobotCore::ChangeMode changes from the
-- normal mode to a slave mode and succeeds, the mode is the new one, and a later change of mode, to
-- whatever mode and whether it succeeds or not, leaves the timeout and the retry count of the service
-- as they were in front of the first, whatever happened to the service in between. The service keeps
-- a timeout that is set and brings a retry count that is set into the range of its type of connection,
-- the retry count in front of the first change is in that range, and the robot still has the members
-- of the first change.
pub core_change_mode-restores :
    {W : Type 0} (type : ConnType) (service : Service W) (handle ctrl_type mode new : ℕ)
    (restart again : Bool) (r later : Robot) (w world : W)
    → KeepsSettings type service
    → granted_retry type (service.get_retry w) ≡ service.get_retry w
    → r.mode ≡ 0
    → mode ≢ 0
    → is_failed (core_change_mode service handle ctrl_type mode restart r w).0 ≡ false
    → later.mode ≡ (core_change_mode service handle ctrl_type mode restart r w).1.mode
    → later.mem_timeout ≡ (core_change_mode service handle ctrl_type mode restart r w).1.mem_timeout
    → later.mem_retry ≡ (core_change_mode service handle ctrl_type mode restart r w).1.mem_retry
    → let left = (core_change_mode service handle ctrl_type new again later world).2 in
      (later.mode ≡ mode)
      × (service.get_timeout left ≡ service.get_timeout w)
      × (service.get_retry left ≡ service.get_retry w)
core_change_mode-restores type service handle ctrl_type mode new restart again r later w world keeps
      in_range normal slave done same_mode same_timeout same_retry =
    let known = succeeds-has_slave type service keeps handle ctrl_type mode restart r w done in
    let entered =
      core_change_mode-enters type service keeps handle ctrl_type mode restart r w normal slave
        done in
    let now : later.mode ≡ mode = same_mode ∙ entered.0 in
    let left =
      core_change_mode-leaves type service keeps handle ctrl_type new again later world known
        (λ e. slave (sym now ∙ e)) in
    (
      now,
      left.0 ∙ (same_timeout ∙ entered.1),
      left.1 ∙ (ap (granted_retry type) (same_retry ∙ entered.2) ∙ in_range),
    )
