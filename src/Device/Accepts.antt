-- ===== src/Device/Accepts.antt =====
-- The connection options that the parsers of bcap_core/src/dn_device.c accept.
use denso_robot_ros.Prelude.{
  ℕ, ◌+◌, ◌^◌, ◌<◌, ◌≡◌, ◌≢◌, refl, [], ◌∷◌, some, length, Bool, true, false, ◌==◌, lt→ltb, arith,
}
use denso_robot_ros.Hresult.{s_ok}
use denso_robot_ros.Device.{Chars, is_numeric, parse_conn_type, next, Libc}
use denso_robot_ros.Device.Ether.{
  ConnParamEth, htons, port_part, addr_part, ether_parts, is_ether, parse_ether_string,
  parse_conn_param_ether,
}
use denso_robot_ros.Device.Split.{NoColon, join_colon, split_colon-join_colon}

-- A port, and an address, that the parser takes.
pub record IsPort (libc : Libc) (s : Chars) : Type 0 where
  pub no_colon : NoColon s
  pub numeric : is_numeric s ≡ true
  pub port_lt : libc.atoi s < 2 ^ 16

pub record IsAddr (libc : Libc) (s : Chars) : Type 0 where
  pub no_colon : NoColon s
  pub address : libc.inet_addr s ≢ 0xffffffff

port_part-IsPort :
    (libc : Libc) (store : ℕ → ConnParamEth → ConnParamEth) (s : Chars) (param : ConnParamEth)
    → IsPort libc s
    → port_part libc store s param ≡ next (store (htons (libc.atoi s)) param)
unfolding port_part
port_part-IsPort libc store s param is =
    rw (is.numeric, lt→ltb (libc.atoi s) 0x10000 is.port_lt) refl

addr_part-IsAddr :
    (libc : Libc) (store : ℕ → ConnParamEth → ConnParamEth) (s : Chars) (param : ConnParamEth)
    → IsAddr libc s
    → addr_part libc store s param ≡ next (store (libc.inet_addr s) param)
unfolding addr_part
addr_part-IsAddr libc store s param is =
    let known : (libc.inet_addr s == 0xffffffff) ≡ false = ground (arith, is.address) in
    rw known refl

-- parse_conn_param_ether reads an option of five parts, the connection type, the address and port
-- of the destination and those of the source, with ':' between them: it stores the four values and
-- returns S_OK, if the option begins with the name of an Ethernet type, malloc succeeds and the
-- parts are addresses and ports.
pub parse_conn_param_ether-join_colon :
    (libc : Libc) (malloc : ℕ → Bool) (param : ConnParamEth) (ty dst dport src sport : Chars)
    → is_ether (parse_conn_type (some (join_colon ty (dst ∷ dport ∷ src ∷ sport ∷ [])))) ≡ true
    → malloc (length (join_colon ty (dst ∷ dport ∷ src ∷ sport ∷ [])) + 1) ≡ true
    → NoColon ty
    → IsAddr libc dst
    → IsPort libc dport
    → IsAddr libc src
    → IsPort libc sport
    → parse_conn_param_ether libc malloc
        (some (join_colon ty (dst ∷ dport ∷ src ∷ sport ∷ [])))
        param
      ≡ (
        s_ok,
        record {
          dst_addr = libc.inet_addr dst;
          dst_port = htons (libc.atoi dport);
          src_addr = libc.inet_addr src;
          src_port = htons (libc.atoi sport);
        },
      )
unfolding parse_conn_param_ether parse_ether_string ether_parts
parse_conn_param_ether-join_colon libc malloc param ty dst dport src sport type memory hty hdst
      hdport hsrc hsport =
    rw
      (
        type,
        memory,
        split_colon-join_colon ty (dst ∷ dport ∷ src ∷ sport ∷ []) hty
            (hdst.no_colon, (hdport.no_colon, (hsrc.no_colon, (hsport.no_colon, tt)))),
        port_part-IsPort libc _ sport _ hsport,
        addr_part-IsAddr libc _ src _ hsrc,
        port_part-IsPort libc _ dport _ hdport,
        addr_part-IsAddr libc _ dst _ hdst,
      )
      refl
