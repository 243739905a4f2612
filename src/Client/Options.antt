-- ===== src/Client/Options.antt =====
-- bCap_SetTimeout, bCap_GetTimeout, bCap_SetRetry, bCap_GetRetry and bCap_Close_Client of
-- bcap_core/src/bCAPClient/bcap_client.c.
use denso_robot_ros.Prelude.{ℕ, ◌-◌, Option, none, some, set, ltb, if◌then◌else◌}
use denso_robot_ros.Hresult.{Hresult, Outcome, ok, failed, is_failed, s_ok, e_handle}
use denso_robot_ros.Device.{ConnType, conn_tcp, conn_udp, conn_com}
use denso_robot_ros.Client.{Conn, Conns, Net, unused, if_open, check_address}

abbrev pub retry_min : ℕ
retry_min = 1

abbrev pub retry_max : ℕ
retry_max = 7

-- The switch of bCap_SetRetry, where lock_mutex returned `hr`: the code, and the count that is stored.
unfoldable pub clamp_retry : Hresult → Option ConnType → ℕ → ℕ → Hresult × ℕ
clamp_retry hr none old retry = (e_handle, old)
clamp_retry hr (some conn_tcp) old retry = (hr, 1)
clamp_retry hr (some conn_udp) old retry = (
  hr,
  if ltb retry retry_min then retry_min else if ltb retry_max retry then retry_max else retry,
)
clamp_retry hr (some conn_com) old retry = (
  hr,
  if ltb retry retry_min then retry_min else if ltb retry_max retry then retry_max else retry,
)

module _ {W : Type 0} (net : Net W) where
  -- The part of bCap_SetTimeout between the mutex calls.
  unfoldable pub store_timeout : Conns → ℕ → Conn → ℕ → W → Hresult × Conns × W
  store_timeout conns fd c timeout w =
      let (hr, w') = net.dn_set_timeout c timeout w in
      (
        hr,
        (if is_failed hr then conns else set conns (fd - 1) (record c { timeout = timeout })),
        net.unlock_mutex w',
      )

  unfoldable pub set_timeout : Conns → ℕ → ℕ → W → Hresult × Conns × W
  unfolding store_timeout
  set_timeout conns fd timeout w =
      if_open (check_address conns fd) (e_handle, conns, w)
        λ c.
          let (hr, w') = net.lock_mutex w in
          if is_failed hr then (hr, conns, w') else store_timeout conns fd c timeout w'

  -- The part of bCap_SetRetry between the mutex calls.
  unfoldable pub store_retry : Hresult → Conns → ℕ → Conn → ℕ → W → Hresult × Conns × W
  unfolding clamp_retry
  store_retry hl conns fd c retry w =
      let (hr, count) = clamp_retry hl c.type c.retry retry in
      (hr, set conns (fd - 1) (record c { retry = count }), net.unlock_mutex w)

  unfoldable pub set_retry : Conns → ℕ → ℕ → W → Hresult × Conns × W
  unfolding store_retry
  set_retry conns fd retry w =
      if_open (check_address conns fd) (e_handle, conns, w)
        λ c.
          let (hr, w') = net.lock_mutex w in
          if is_failed hr then (hr, conns, w') else store_retry hr conns fd c retry w'

  -- bCap_Close_Client with the descriptor behind `pfd`: the code, and the descriptor after the call.
  unfoldable pub close_client : Conns → ℕ → W → Hresult × ℕ × Conns × W
  close_client conns fd w =
      if_open (check_address conns fd) (e_handle, fd, conns, w)
        λ c. (s_ok, 0, set conns (fd - 1) unused, net.dn_close c (net.release_mutex w))

-- The getters.
unfoldable pub get_timeout : Conns → ℕ → Outcome ℕ
get_timeout conns fd = if_open (check_address conns fd) (failed e_handle) λ c. ok c.timeout

unfoldable pub get_retry : Conns → ℕ → Outcome ℕ
get_retry conns fd = if_open (check_address conns fd) (failed e_handle) λ c. ok c.retry
