-- ===== src/Device/Tests.antt =====
-- Concrete connection options, through the parsers of bcap_core/src/dn_device.c.
use denso_robot_ros.Prelude.{ℕ, ◌+◌, ◌-◌, ◌*◌, ◌≡◌, refl, [], ◌∷◌, some, true, inl, arith}
use denso_robot_ros.Hresult.{s_ok, disp_e_overflow}
use denso_robot_ros.Device.{
  Chars, is_numeric, all_digits, same_chars, parse_conn_type, push, split_colon, Libc,
}
use denso_robot_ros.Device.Ether.{
  ConnParamEth, htons, port_part, addr_part, ether_parts, parse_ether_string,
  parse_conn_param_ether,
}
use denso_robot_ros.Device.Serial.{ConnParamCom, parse_conn_param_serial}
use denso_robot_ros.Device.Split.{join_colon}
use denso_robot_ros.Device.Accepts.{IsPort, IsAddr, parse_conn_param_ether-join_colon}
use denso_robot_ros.Device.Ranges.{InRange, parse_conn_param_serial-InRange}

unfoldable decimal : ℕ → Chars → ℕ
decimal n [] = n
decimal n (c ∷ cs) = decimal (10 * n + (c - 48)) cs

-- A C library that reads digits.
abbrev digits : Libc
digits = record {
  atoi = decimal 0;
  atol = decimal 0;
  inet_addr = decimal 0;
  atof_tenths = λ s. 10 * decimal 0 s;
}

abbrev local : ConnParamEth
local = record { dst_addr = 1; dst_port = 2; src_addr = 3; src_port = 4 }

abbrev first_line : ConnParamCom
first_line = record {
  port = 1;
  baud_rate = 38400;
  parity = 0;
  data_bits = 8;
  stop_bits = 0;
  flow = 0;
}

IsPort-80 : IsPort digits (56 ∷ 48 ∷ [])
unfolding is_numeric all_digits decimal
IsPort-80 = record {
  no_colon = (ground arith, (ground arith, tt));
  numeric = refl;
  port_lt = omega arith;
}

IsAddr-7 : IsAddr digits (55 ∷ [])
unfolding decimal
IsAddr-7 = record { no_colon = (ground arith, tt); address = ground arith }

-- A port beyond 16 bits, in "udp:7:70000".
port_overflow :
    parse_conn_param_ether digits
      (λ _. true)
      (some (117 ∷ 100 ∷ 112 ∷ 58 ∷ 55 ∷ 58 ∷ 55 ∷ 48 ∷ 48 ∷ 48 ∷ 48 ∷ []))
      local
    ≡ (disp_e_overflow, local)
unfolding parse_conn_param_ether parse_ether_string ether_parts port_part addr_part split_colon push
    parse_conn_type same_chars is_numeric all_digits decimal htons
port_overflow = refl

-- "TCP:7:80:7:80"
parse_conn_param_ether-join_colon_example :
    parse_conn_param_ether digits
      (λ _. true)
      (some (
        join_colon
          (84 ∷ 67 ∷ 80 ∷ [])
          ((55 ∷ []) ∷ (56 ∷ 48 ∷ []) ∷ (55 ∷ []) ∷ (56 ∷ 48 ∷ []) ∷ [])))
      local
    ≡ (s_ok, record { dst_addr = 7; dst_port = htons 80; src_addr = 7; src_port = htons 80 })
unfolding decimal parse_conn_type same_chars join_colon
parse_conn_param_ether-join_colon_example =
    parse_conn_param_ether-join_colon digits (λ _. true) local (84 ∷ 67 ∷ 80 ∷ []) (55 ∷ [])
      (56 ∷ 48 ∷ []) (55 ∷ []) (56 ∷ 48 ∷ []) refl refl
      (ground arith, (ground arith, (ground arith, tt))) IsAddr-7 IsPort-80 IsAddr-7 IsPort-80

-- "com:2:96:n:7:1:3"
parse_conn_param_serial-InRange_example : InRange (
    (parse_conn_param_serial digits
      (λ _. true)
      (some (99 ∷ 111 ∷ 109 ∷ 58 ∷ 50 ∷ 58 ∷ 57 ∷ 54 ∷ 58 ∷ 110 ∷ 58 ∷ 55 ∷ 58 ∷ 49 ∷ 58 ∷ 51 ∷ []))
      first_line).1)
parse_conn_param_serial-InRange_example =
    parse_conn_param_serial-InRange digits (λ _. true)
      (some (99 ∷ 111 ∷ 109 ∷ 58 ∷ 50 ∷ 58 ∷ 57 ∷ 54 ∷ 58 ∷ 110 ∷ 58 ∷ 55 ∷ 58 ∷ 49 ∷ 58 ∷ 51 ∷ []))
      first_line
      (omega arith, omega arith, omega arith, omega arith, omega arith, inl refl, omega arith)
