-- ===== src/Device/Ranges.antt =====
-- The ranges of the parameters of parse_conn_param_serial, bcap_core/src/dn_device.c.
use denso_robot_ros.Prelude.{
  ℕ, ◌+◌, ◌-◌, ◌^◌, ◌≤◌, ◌<◌, ◌≡◌, refl, List, [], ◌∷◌, Option, none, some, length, get_elem?, Bool,
  true, false, ◌||◌, ◌⊎◌, inl, inr, Bool-cases, ◌==◌, ltb, leb, leb→le, if◌then◌else◌, arith,
}
use denso_robot_ros.Device.{
  Chars, is_numeric, parse_conn_type, split_colon, Step, exit, next, ◌then_◌, finish, with_part,
  Libc,
}
use denso_robot_ros.Device.Serial.{
  ConnParamCom, range_part, stop_part, parity_part, baud_part, serial_parts, is_serial,
  parse_serial_string, parse_conn_param_serial, para_max_com,
}

-- The ranges of the parameters of a serial line.
abbrev pub InRange : ConnParamCom → Type 0
InRange p =
    (p.port < 2 ^ 31)
    × (p.baud_rate < 2 ^ 32)
    × (p.parity ≤ 2)
    × (5 ≤ p.data_bits)
    × (p.data_bits ≤ 8)
    × ((p.stop_bits ≡ 0) ⊎ (p.stop_bits ≡ 2))
    × (p.flow ≤ 3)

abbrev stored {ℓ} : {P : Type ℓ} → Step P → P
stored (exit hr p) = p
stored (next p) = p

record Keeps (m : Step ConnParamCom) : Type 0 where
  kept : InRange (stored m)

keep : {m : Step ConnParamCom} → InRange (stored m) → Keeps m
keep h = record { kept = h }

Keeps-then :
    (m : Step ConnParamCom) (f : ConnParamCom → Step ConnParamCom)
    → Keeps m
    → ((p : ConnParamCom) → InRange p → Keeps (f p))
    → Keeps (m then_ f)
Keeps-then (exit hr p) f h k = keep h.kept
Keeps-then (next p) f h k = k p h.kept

Keeps-with_part :
    (o : Option Chars) (f : Chars → ConnParamCom → Step ConnParamCom) (p : ConnParamCom)
    → InRange p
    → ((s : Chars) → Keeps (f s p))
    → Keeps (with_part o f p)
Keeps-with_part none f p h k = keep h
Keeps-with_part (some s) f p h k = k s

Keeps-range_part :
    (libc : Libc) (low high : ℕ) (store : ℕ → ConnParamCom → ConnParamCom) (s : Chars)
    (p : ConnParamCom)
    → InRange p
    → ((v : ℕ) → low ≤ v → v ≤ high → InRange (store v p))
    → Keeps (range_part libc low high store s p)
unfolding range_part
Keeps-range_part libc low high store s p h k = elim (Bool-cases (is_numeric s)) [
  | inr other ↦ rw other (keep h)
  | inl number ↦ elim (Bool-cases (leb low (libc.atol s))) [
    | inr below ↦ rw (number, below) (keep h)
    | inl above ↦ elim (Bool-cases (leb (libc.atol s) high)) [
      | inr over ↦ rw (number, above, over) (keep h)
      | inl under ↦
          rw (number, above, under) (keep (k (libc.atol s) (leb→le _ _ above) (leb→le _ _ under)))
    ]
  ]
]

Keeps-stop_part :
    (libc : Libc) (s : Chars) (p : ConnParamCom) → InRange p → Keeps (stop_part libc s p)
unfolding stop_part
Keeps-stop_part libc s p h = elim (Bool-cases (libc.atof_tenths s == 10)) [
  | inl one ↦ rw one (keep (h.0, h.1, h.2, h.3, h.4, inl refl, h.6))
  | inr other ↦ elim (Bool-cases (libc.atof_tenths s == 20)) [
    | inl two ↦ rw (other, two) (keep (h.0, h.1, h.2, h.3, h.4, inr refl, h.6))
    | inr neither ↦ rw (other, neither) (keep h)
  ]
]

Keeps-if : (c : Bool) (m k : Step ConnParamCom) → Keeps m → Keeps k → Keeps (if c then m else k)
Keeps-if true m k h h' = h
Keeps-if false m k h h' = h'

Keeps-parity_part : (s : Chars) (p : ConnParamCom) → InRange p → Keeps (parity_part s p)
unfolding parity_part
Keeps-parity_part [] p h = keep h
Keeps-parity_part (c ∷ d ∷ cs) p h = keep h
Keeps-parity_part (c ∷ []) p h =
    Keeps-if (c == 78 || c == 110) _ _ (keep (h.0, h.1, omega arith, h.3, h.4, h.5, h.6)) (
      Keeps-if (c == 79 || c == 111) _ _ (keep (h.0, h.1, omega arith, h.3, h.4, h.5, h.6)) (
        Keeps-if (c == 69 || c == 101) _ _ (keep (h.0, h.1, omega arith, h.3, h.4, h.5, h.6))
          (keep h)))

Keeps-baud_part :
    (libc : Libc) (s : Chars) (p : ConnParamCom) → InRange p → Keeps (baud_part libc s p)
unfolding baud_part
Keeps-baud_part libc s p h =
    Keeps-if (is_numeric s) _ _ (keep (h.0, omega arith, h.2, h.3, h.4, h.5, h.6)) (keep h)

Keeps-serial_parts :
    (libc : Libc) (parts : List Chars) (p : ConnParamCom)
    → InRange p
    → Keeps (serial_parts libc parts p)
unfolding serial_parts
Keeps-serial_parts libc parts p h =
    Keeps-then _ _
      (Keeps-then _ _
        (Keeps-then _ _
          (Keeps-then _ _
            (Keeps-then _ _
              (Keeps-with_part (get_elem? parts 6) _ p h λ s.
                Keeps-range_part libc 0 3 (λ v q. record q { flow = v }) s p h
                  λ v low high. (h.0, h.1, h.2, h.3, h.4, h.5, high))
              (λ q hq. Keeps-with_part (get_elem? parts 5) _ q hq λ s. Keeps-stop_part libc s q hq))
            (λ q hq. Keeps-with_part (get_elem? parts 4) _ q hq λ s.
              Keeps-range_part libc 5 8 (λ v r. record r { data_bits = v }) s q hq
                λ v low high. (hq.0, hq.1, hq.2, low, high, hq.5, hq.6)))
          (λ q hq. Keeps-with_part (get_elem? parts 3) _ q hq λ s. Keeps-parity_part s q hq))
        (λ q hq. Keeps-with_part (get_elem? parts 2) _ q hq λ s. Keeps-baud_part libc s q hq))
      (λ q hq. Keeps-with_part (get_elem? parts 1) _ q hq λ s.
        Keeps-range_part libc 0 (2 ^ 31 - 1) (λ v r. record r { port = v }) s q hq
          λ v low high. (omega arith, hq.1, hq.2, hq.3, hq.4, hq.5, hq.6))

InRange-finish : (m : Step ConnParamCom) → Keeps m → InRange ((finish m).1)
InRange-finish (exit hr p) h = h.kept
InRange-finish (next p) h = h.kept

counted-InRange :
    (libc : Libc) (malloc : ℕ → Bool) (opt : Chars) (param : ConnParamCom)
    → InRange param
    → is_serial (parse_conn_type (some opt)) ≡ true
    → malloc (length opt + 1) ≡ true
    → InRange ((parse_serial_string libc malloc opt param).1)
unfolding parse_serial_string
counted-InRange libc malloc opt param h serial memory =
    let n = length (split_colon opt) in
    elim (Bool-cases (ltb para_max_com n || n == 4 || n == 5)) [
      | inl wrong ↦ rw (serial, memory, wrong) h
      | inr right ↦
          rw (serial, memory, right)
            (InRange-finish (serial_parts libc (split_colon opt) param)
              (Keeps-serial_parts libc (split_colon opt) param h))
    ]

-- Whatever the option, and whether or not parse_conn_param_serial succeeds, the parameters that it
-- leaves are in their ranges, if they were before the call: the port is not negative, the parity is
-- none, odd or even, the data bits are from five to eight, the stop bits one or two, and the flow at
-- most three. Of the baud rate it is only that it fits into 32 bits: the function takes any number for
-- it, and not only the rates of its documentation.
pub parse_conn_param_serial-InRange :
    (libc : Libc) (malloc : ℕ → Bool) (opt : Option Chars) (param : ConnParamCom)
    → InRange param
    → InRange ((parse_conn_param_serial libc malloc opt param).1)
unfolding parse_conn_param_serial parse_serial_string
parse_conn_param_serial-InRange libc malloc none param h = h
parse_conn_param_serial-InRange libc malloc (some opt) param h =
    elim (Bool-cases (is_serial (parse_conn_type (some opt)))) [
      | inr other ↦ rw other h
      | inl serial ↦ elim (Bool-cases (malloc (length opt + 1))) [
        | inr full ↦ rw (serial, full) h
        | inl memory ↦ counted-InRange libc malloc opt param h serial memory
      ]
    ]
