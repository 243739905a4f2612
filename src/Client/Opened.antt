-- ===== src/Client/Opened.antt =====
-- bCap_Open_Client of bcap_core/src/bCAPClient/bcap_client.c and the invariant of the table.
use denso_robot_ros.Prelude.{
  ℕ, zero, suc, ◌+◌, ◌-◌, ◌≤◌, ◌≡◌, refl, ap, [], ◌∷◌, Option, none, some, length, get_elem?,
  get_elem?-set_self, set, Bool, false, inl, inr, Bool-cases, ◌==◌, arith,
}
use denso_robot_ros.Hresult.{Hresult, is_failed, e_max_object}
use denso_robot_ros.Device.{Chars, ConnType, conn_tcp, conn_udp, conn_com, Libc, parse_conn_type}
use denso_robot_ros.Client.{
  Conn, Conns, Net, Target, unused, in_use, if_open, find_from, find_open_address, check_address,
}
use denso_robot_ros.Client.Options.{
  clamp_retry, store_retry, set_retry, store_timeout, set_timeout, close_client,
}
use denso_robot_ros.Client.Open.{
  sockaddr_size, note_timeout, prepare, give_up, start_serial, set_up, connect_slot, open_slot,
  open_client,
}
use denso_robot_ros.Client.Valid.{IsConn, IsTable, IsTable-set, All-get}

find_from-le : (conns : Conns) (k : ℕ) → find_from k conns ≤ k + length conns
unfolding find_from
find_from-le [] k = omega arith
find_from-le (c ∷ conns) k = ground (arith, find_from-le conns (suc k))

set-set : (conns : Conns) (i : ℕ) (c d : Conn) → set (set conns i c) i d ≡ set conns i d
set-set [] i c d = refl
set-set (b ∷ conns) zero c d = refl
set-set (b ∷ conns) (suc i) c d = ap (λ cs. b ∷ cs) (set-set conns i c d)

-- What is found in a slot that was just written.
pub check_address-set :
    (conns : Conns) (fd : ℕ) (x : Conn)
    → 1 ≤ fd
    → fd ≤ length conns
    → check_address (set conns (fd - 1) x) fd ≡ in_use (some x)
unfolding check_address
check_address-set conns zero x low high = absurd (omega arith)
check_address-set conns (suc i) x low high =
    let same : suc i - 1 ≡ i = omega arith in
    rw (same, get_elem?-set_self conns i x (omega arith)) refl

module _ {W : Type 0} (net : Net W) (conns : Conns) (table : IsTable conns) (fd : ℕ) (low : 1 ≤ fd)
    (high : fd ≤ length conns) where
  abbrev slot_set : Conn → Conns
  slot_set x = set conns (fd - 1) x

  give_up-IsTable :
      (hr : Hresult) (x : Conn) (w : W) → IsTable ((give_up net hr (slot_set x) fd w).2)
  unfolding give_up close_client
  give_up-IsTable hr x w = elim (Bool-cases (x.sock == 0)) [
    | inl shut ↦
        rw (check_address-set conns fd x low high, shut)
          (IsTable-set conns (fd - 1) x table (inl (ground (arith, shut))))
    | inr usable ↦
        rw (check_address-set conns fd x low high, usable, set-set conns (fd - 1) x unused)
          (IsTable-set conns (fd - 1) unused table (inl refl))
  ]

  -- The slot that bCap_SetTimeout leaves.
  set_timeout-slot :
      (timeout : ℕ) (x : Conn) (w : W)
      → (y : Conn) × ((set_timeout net (slot_set x) fd timeout w).1 ≡ slot_set y)
  unfolding set_timeout store_timeout
  set_timeout-slot timeout x w = elim (Bool-cases (x.sock == 0)) [
    | inl shut ↦ (x, rw (check_address-set conns fd x low high, shut) refl)
    | inr usable ↦ elim (Bool-cases (is_failed ((net.lock_mutex w).0))) [
      | inl busy ↦ (x, rw (check_address-set conns fd x low high, usable, busy) refl)
      | inr free ↦
          elim (Bool-cases (is_failed ((net.dn_set_timeout x timeout ((net.lock_mutex w).1)).0))) [
            | inl failing ↦
                (x, rw (check_address-set conns fd x low high, usable, free, failing) refl)
            | inr set_there ↦ (
              record x { timeout = timeout },
              rw
                  (
                    check_address-set conns fd x low high,
                    usable,
                    free,
                    set_there,
                    set-set conns (fd - 1) x (record x { timeout = timeout }),
                  )
                  refl,
            )
          ]
    ]
  ]

  clamp_retry-bounds :
      (hr : Hresult) (type : Option ConnType) (old n : ℕ)
      → is_failed ((clamp_retry hr type old n).0) ≡ false
      → (1 ≤ (clamp_retry hr type old n).1) × ((clamp_retry hr type old n).1 ≤ 7)
  unfolding clamp_retry
  clamp_retry-bounds hr none old n done = absurd (ground arith)
  clamp_retry-bounds hr (some conn_tcp) old n done = (omega arith, omega arith)
  clamp_retry-bounds hr (some conn_udp) old n done = (ground arith, ground arith)
  clamp_retry-bounds hr (some conn_com) old n done = (ground arith, ground arith)

  -- The slot that bCap_SetRetry leaves: with a count in range where it succeeds.
  set_retry-slot :
      (retry : ℕ) (x : Conn) (w : W)
      → (y : Conn) × ((set_retry net (slot_set x) fd retry w).1 ≡ slot_set y)
        × (is_failed ((set_retry net (slot_set x) fd retry w).0) ≡ false
            → (1 ≤ y.retry) × (y.retry ≤ 7))
  unfolding set_retry store_retry
  set_retry-slot retry x w = elim (Bool-cases (x.sock == 0)) [
    | inl shut ↦
        rw (check_address-set conns fd x low high, shut)
          (x, refl, λ done. absurd (ground (arith, done)))
    | inr usable ↦ elim (Bool-cases (is_failed ((net.lock_mutex w).0))) [
      | inl busy ↦
          rw (check_address-set conns fd x low high, usable, busy)
            (x, refl, λ done. absurd (ground (arith, busy, done)))
      | inr free ↦
          let hl = (net.lock_mutex w).0 in
          let count = (clamp_retry hl x.type x.retry retry).1 in
          rw (check_address-set conns fd x low high, usable, free)
            (
              record x { retry = count },
              set-set conns (fd - 1) x (record x { retry = count }),
              clamp_retry-bounds hl x.type x.retry retry,
            )
    ]
  ]

  start_serial-slot :
      (y : Conn) → start_serial net (slot_set y) fd ≡ slot_set (record y { serial = 1 })
  unfolding start_serial
  start_serial-slot y =
      rw (get_elem?-set_self conns (fd - 1) y (omega arith))
        (set-set conns (fd - 1) y (record y { serial = 1 }))

  set_up-IsTable :
      (timeout retry : ℕ) (x : Conn) (w : W)
      → IsTable ((set_up net (slot_set x) fd timeout retry w).2)
  unfolding set_up
  set_up-IsTable timeout retry x w =
      let (y, timed) = set_timeout-slot timeout x w in
      let (ht, conns1, w1) = set_timeout net (slot_set x) fd timeout w in
      let (z, counted, bounds) = set_retry-slot retry y w1 in
      elim (Bool-cases (is_failed ht)) [
        | inl failing ↦ rw (failing, timed) (give_up-IsTable ht y w1)
        | inr kept ↦ elim (Bool-cases (is_failed ((set_retry net (slot_set y) fd retry w1).0))) [
          | inl failing ↦
              rw (kept, timed, failing, counted)
                (give_up-IsTable ((set_retry net (slot_set y) fd retry w1).0) z
                  ((set_retry net (slot_set y) fd retry w1).2))
          | inr done ↦
              let (least, most) = bounds done in
              rw (kept, timed, done, counted, start_serial-slot z)
                (IsTable-set conns (fd - 1) (record z { serial = 1 }) table
                  (inr (least, most, omega arith, omega arith)))
        ]
      ]

  connect_slot-IsTable :
      (target : Target) (c : Conn) (timeout retry : ℕ) (w : W)
      → IsConn c
      → IsTable ((connect_slot net conns fd target c timeout retry w).2)
  unfolding connect_slot
  connect_slot-IsTable target c timeout retry w h =
      let (hm, w1) = net.initialize_mutex w in
      let (ho, sock, w2) = net.dn_open target w1 in
      elim (Bool-cases (is_failed hm)) [
        | inl failing ↦ rw failing (IsTable-set conns (fd - 1) (record c { dest = none }) table h)
        | inr ready ↦ elim (Bool-cases (is_failed ho)) [
          | inl failing ↦ rw (ready, failing) (IsTable-set conns (fd - 1) unused table (inl refl))
          | inr opened ↦
              rw (ready, opened) (set_up-IsTable timeout retry (record c { sock = sock }) w2)
        ]
      ]

prepare-IsConn :
    (libc : Libc) (malloc : ℕ → Bool) (connect : Option Chars) (type : Option ConnType) (c : Conn)
    → IsConn c
    → IsConn ((prepare libc malloc connect type c).2)
unfolding prepare
prepare-IsConn libc malloc connect none c h = h
prepare-IsConn libc malloc connect (some conn_tcp) c h = h
prepare-IsConn libc malloc connect (some conn_udp) c h = elim (Bool-cases (malloc sockaddr_size)) [
  | inl memory ↦ rw memory h
  | inr full ↦ rw full h
]
prepare-IsConn libc malloc connect (some conn_com) c h = h

module _ {W : Type 0} (net : Net W) (libc : Libc) (malloc : ℕ → Bool) (timeout retry : ℕ)
    (conns : Conns) (table : IsTable conns) where
  open_slot-IsTable :
      (connect : Option Chars) (fd : ℕ) (c : Conn) (w : W)
      → 1 ≤ fd
      → fd ≤ length conns
      → IsConn c
      → IsTable ((open_slot net libc malloc connect timeout retry conns fd c w).2)
  unfolding open_slot
  open_slot-IsTable connect fd c w low high h =
      let type = parse_conn_type connect in
      let (hr, target, c') = prepare libc malloc connect type c in
      elim (Bool-cases (is_failed hr)) [
        | inl failing ↦ rw failing (IsTable-set conns (fd - 1) unused table (inl refl))
        | inr ready ↦ rw ready (
            connect_slot-IsTable net conns table fd low high target c' timeout retry
              (note_timeout net type timeout w) (prepare-IsConn libc malloc connect type c h))
      ]

  -- The slot behind a descriptor of the table.
  IsTable-at_slot :
      (connect : Option Chars) (fd : ℕ) (w : W) (o : Option Conn)
      → 1 ≤ fd
      → fd ≤ length conns
      → get_elem? conns (fd - 1) ≡ o
      → IsTable (
          (if_open o
            (e_max_object, none, conns, w)
            λ c. open_slot net libc malloc connect timeout retry conns fd c w).2)
  IsTable-at_slot connect fd w none low high e = table
  IsTable-at_slot connect fd w (some c) low high e =
      open_slot-IsTable connect fd c w low high (All-get conns (fd - 1) c table.all_IsConn e)

  -- bCap_Open_Client keeps the table of connections well-formed, whether or not the option is read,
  -- a slot is free, the memory is granted, the device opens and takes its options: a connection that
  -- it leaves open sends each request between once and seven times, under serial numbers from 1 to
  -- 65535.
  pub open_client-IsTable :
      (connect : Option Chars) (w : W)
      → IsTable ((open_client net libc malloc connect timeout retry conns w).2)
  unfolding open_client find_open_address
  open_client-IsTable none w = table
  open_client-IsTable (some connect) w =
      let fd = find_from 0 conns in
      elim (Bool-cases (fd == 0)) [
        | inl full ↦ rw full table
        | inr free ↦ rw free (
            IsTable-at_slot (some connect) fd w (get_elem? conns (fd - 1)) (ground (arith, free))
              (omega (arith, find_from-le conns 0)) refl)
      ]
