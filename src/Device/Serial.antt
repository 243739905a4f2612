-- ===== src/Device/Serial.antt =====
-- parse_conn_param_serial of bcap_core/src/dn_device.c.
use denso_robot_ros.Prelude.{
  ℕ, ◌+◌, ◌-◌, ◌%◌, ◌^◌, List, [], ◌∷◌, Option, none, some, length, get_elem?, Bool, true, false,
  not, ◌&&◌, ◌||◌, ltb, leb, ◌==◌, if◌then◌else◌,
}
use denso_robot_ros.Hresult.{Hresult, e_invalidarg, e_outofmemory, disp_e_overflow}
use denso_robot_ros.Device.{
  Chars, ConnType, conn_tcp, conn_udp, conn_com, is_numeric, parse_conn_type, split_colon, Step,
  exit, next, ◌then_◌, finish, with_part, Libc,
}

-- struct CONN_PARAM_COM: the members as the patterns of their C types.
pub record ConnParamCom : Type 0 where
  pub port : ℕ
  pub baud_rate : ℕ
  pub parity : ℕ
  pub data_bits : ℕ
  pub stop_bits : ℕ
  pub flow : ℕ

abbrev pub para_max_com : ℕ
para_max_com = 7

-- A number from `low` to `high`, in `long`.
unfoldable pub range_part :
    Libc → ℕ → ℕ → (ℕ → ConnParamCom → ConnParamCom) → Chars → ConnParamCom → Step ConnParamCom
range_part libc low high store s param =
    if not (is_numeric s)
    then exit e_invalidarg param
    else if leb low (libc.atol s) && leb (libc.atol s) high
    then next (store (libc.atol s) param)
    else exit disp_e_overflow param

-- ONESTOPBIT is 0 and TWOSTOPBITS is 2.
unfoldable pub stop_part : Libc → Chars → ConnParamCom → Step ConnParamCom
stop_part libc s param =
    if libc.atof_tenths s == 10
    then next (record param { stop_bits = 0 })
    else if libc.atof_tenths s == 20
    then next (record param { stop_bits = 2 })
    else exit e_invalidarg param

-- The letter of the parity: NOPARITY is 0, ODDPARITY 1 and EVENPARITY 2.
unfoldable pub parity_part : Chars → ConnParamCom → Step ConnParamCom
parity_part [] param = exit e_invalidarg param
parity_part (c ∷ d ∷ cs) param = exit e_invalidarg param
parity_part (c ∷ []) param =
    if c == 78 || c == 110
    then next (record param { parity = 0 })
    else if c == 79 || c == 111
    then next (record param { parity = 1 })
    else if c == 69 || c == 101
    then next (record param { parity = 2 })
    else exit e_invalidarg param

-- `(uint32_t) atol(…)`: the low half, without a test.
unfoldable pub baud_part : Libc → Chars → ConnParamCom → Step ConnParamCom
baud_part libc s param =
    if is_numeric s
    then next (record param { baud_rate = libc.atol s % 2 ^ 32 })
    else exit e_invalidarg param

-- The parts, from the last to the first. A line with a parity or data bits needs the stop bits.
unfoldable pub serial_parts : Libc → List Chars → ConnParamCom → Step ConnParamCom
unfolding range_part stop_part parity_part baud_part
serial_parts libc parts param =
    with_part (get_elem? parts 6) (range_part libc 0 3 (λ v p. record p { flow = v })) param
    then_ with_part (get_elem? parts 5) (stop_part libc)
    then_ with_part (get_elem? parts 4) (range_part libc 5 8 (λ v p. record p { data_bits = v }))
    then_ with_part (get_elem? parts 3) parity_part
    then_ with_part (get_elem? parts 2) (baud_part libc)
    then_ with_part (get_elem? parts 1)
        (range_part libc 0 (2 ^ 31 - 1) (λ v p. record p { port = v }))

abbrev pub is_serial : Option ConnType → Bool
is_serial none = false
is_serial (some conn_tcp) = false
is_serial (some conn_udp) = false
is_serial (some conn_com) = true

unfoldable pub parse_serial_string :
    Libc → (ℕ → Bool) → Chars → ConnParamCom → Hresult × ConnParamCom
unfolding serial_parts
parse_serial_string libc malloc opt param =
    let n = length (split_colon opt) in
    if not (is_serial (parse_conn_type (some opt)))
    then (e_invalidarg, param)
    else if not (malloc (length opt + 1))
    then (e_outofmemory, param)
    else if ltb para_max_com n || n == 4 || n == 5
    then (e_invalidarg, param)
    else finish (serial_parts libc (split_colon opt) param)

-- The result with the parameters after the call. The caller's pointer `param` is not NULL.
unfoldable pub parse_conn_param_serial :
    Libc → (ℕ → Bool) → Option Chars → ConnParamCom → Hresult × ConnParamCom
unfolding parse_serial_string
parse_conn_param_serial libc malloc none param = (e_invalidarg, param)
parse_conn_param_serial libc malloc (some opt) param = parse_serial_string libc malloc opt param
