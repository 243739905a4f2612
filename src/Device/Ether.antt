-- ===== src/Device/Ether.antt =====
-- parse_conn_param_ether of bcap_core/src/dn_device.c.
use denso_robot_ros.Prelude.{
  ℕ, ◌+◌, ◌*◌, ◌/◌, ◌%◌, List, [], ◌∷◌, Option, none, some, length, get_elem?, Bool, true, false,
  not, ◌&&◌, ltb, ◌==◌, if◌then◌else◌,
}
use denso_robot_ros.Hresult.{Hresult, e_invalidarg, e_outofmemory, disp_e_overflow}
use denso_robot_ros.Device.{
  Chars, ConnType, conn_tcp, conn_udp, conn_com, same_chars, is_numeric, parse_conn_type,
  split_colon, Step, exit, next, ◌then_◌, finish, with_part, Libc,
}

-- struct CONN_PARAM_ETH: the members are in network byte order.
pub record ConnParamEth : Type 0 where
  pub dst_addr : ℕ
  pub dst_port : ℕ
  pub src_addr : ℕ
  pub src_port : ℕ

abbrev pub para_max_eth : ℕ
para_max_eth = 5

-- htons on a little-endian machine.
unfoldable pub htons : ℕ → ℕ
htons v = v % 256 * 256 + v / 256 % 256

-- "255.255.255.255"
abbrev pub broadcast : Chars
broadcast = 50 ∷ 53 ∷ 53 ∷ 46 ∷ 50 ∷ 53 ∷ 53 ∷ 46 ∷ 50 ∷ 53 ∷ 53 ∷ 46 ∷ 50 ∷ 53 ∷ 53 ∷ []

-- A port: `tmp < 0` or `tmp != (uint16_t) tmp` is an overflow.
unfoldable pub port_part :
    Libc → (ℕ → ConnParamEth → ConnParamEth) → Chars → ConnParamEth → Step ConnParamEth
unfolding htons
port_part libc store s param =
    if not (is_numeric s)
    then exit e_invalidarg param
    else if ltb (libc.atoi s) 0x10000
    then next (store (htons (libc.atoi s)) param)
    else exit disp_e_overflow param

-- An address: INADDR_NONE is an error but for the broadcast address.
unfoldable pub addr_part :
    Libc → (ℕ → ConnParamEth → ConnParamEth) → Chars → ConnParamEth → Step ConnParamEth
addr_part libc store s param =
    if libc.inet_addr s == 0xffffffff && not (same_chars s broadcast)
    then exit e_invalidarg param
    else next (store (libc.inet_addr s) param)

-- The parts, from the last to the first.
unfoldable pub ether_parts : Libc → List Chars → ConnParamEth → Step ConnParamEth
unfolding port_part addr_part
ether_parts libc parts param =
    with_part (get_elem? parts 4) (port_part libc (λ v p. record p { src_port = v })) param
    then_ with_part (get_elem? parts 3) (addr_part libc (λ v p. record p { src_addr = v }))
    then_ with_part (get_elem? parts 2) (port_part libc (λ v p. record p { dst_port = v }))
    then_ with_part (get_elem? parts 1) (addr_part libc (λ v p. record p { dst_addr = v }))

abbrev pub is_ether : Option ConnType → Bool
is_ether none = false
is_ether (some conn_tcp) = true
is_ether (some conn_udp) = true
is_ether (some conn_com) = false

unfoldable pub parse_ether_string :
    Libc → (ℕ → Bool) → Chars → ConnParamEth → Hresult × ConnParamEth
unfolding ether_parts
parse_ether_string libc malloc opt param =
    if not (is_ether (parse_conn_type (some opt)))
    then (e_invalidarg, param)
    else if not (malloc (length opt + 1))
    then (e_outofmemory, param)
    else if ltb para_max_eth (length (split_colon opt))
    then (e_invalidarg, param)
    else finish (ether_parts libc (split_colon opt) param)

-- The result with the parameters after the call. The caller's pointer `param` is not NULL.
unfoldable pub parse_conn_param_ether :
    Libc → (ℕ → Bool) → Option Chars → ConnParamEth → Hresult × ConnParamEth
unfolding parse_ether_string
parse_conn_param_ether libc malloc none param = (e_invalidarg, param)
parse_conn_param_ether libc malloc (some opt) param = parse_ether_string libc malloc opt param
