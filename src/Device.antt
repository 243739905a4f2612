-- ===== src/Device.antt =====
-- Connection options: is_numeric, parse_conn_type and the two parsers of
-- bcap_core/src/dn_device.c, with the types of bcap_core/include/bcap_core/dn_device.h.
mod Split
pub mod Ether
pub mod Serial
pub mod Accepts
pub mod Ranges
mod Tests
use denso_robot_ros.Prelude.{
  ℕ, suc, ◌+◌, ◌-◌, List, [], ◌∷◌, Option, none, some, length, take, map, Bool, true, false, ◌&&◌,
  ◌||◌, ltb, leb, ◌==◌, if◌then◌else◌,
}
use denso_robot_ros.Hresult.{Hresult, s_ok, e_invalidarg, e_outofmemory}

-- A C string, without its terminator. A pointer to one may be NULL.
abbrev pub Chars : Type 0
Chars = List ℕ

-- enum CONN_TYPE. The type -1 of a string that names none is `none`.
pub data ConnType : Type 0 where
  conn_tcp : ConnType
  conn_udp : ConnType
  conn_com : ConnType

unfoldable pub same_chars : Chars → Chars → Bool
same_chars [] [] = true
same_chars [] (y ∷ ys) = false
same_chars (x ∷ xs) [] = false
same_chars (x ∷ xs) (y ∷ ys) = x == y && same_chars xs ys

abbrev pub is_digit : ℕ → Bool
is_digit c = leb 48 c && leb c 57

unfoldable pub all_digits : Chars → Bool
all_digits [] = true
all_digits (c ∷ cs) = is_digit c && all_digits cs

-- strspn over the digits gives the whole length, behind one '-' at most.
unfoldable pub is_numeric : Chars → Bool
unfolding all_digits
is_numeric [] = false
is_numeric (c ∷ cs) = if c == 45 then all_digits cs else is_digit c && all_digits cs

-- strnicmp compares in lower case.
abbrev pub to_lower : ℕ → ℕ
to_lower c = if leb 65 c && leb c 90 then c + 32 else c

unfoldable pub parse_conn_type : Option Chars → Option ConnType
unfolding same_chars
parse_conn_type none = none
parse_conn_type (some opt) =
    let head = map to_lower (take 3 opt) in
    if ltb (length opt) 3
    then none
    else if same_chars head (116 ∷ 99 ∷ 112 ∷ [])
    then some conn_tcp
    else if same_chars head (117 ∷ 100 ∷ 112 ∷ [])
    then some conn_udp
    else if same_chars head (99 ∷ 111 ∷ 109 ∷ [])
    then some conn_com
    else none

-- The loop that puts a NUL on each ':': the parts between them.
unfoldable pub push : ℕ → List Chars → List Chars
push c [] = (c ∷ []) ∷ []
push c (p ∷ ps) = (c ∷ p) ∷ ps

unfoldable pub split_colon : Chars → List Chars
unfolding push
split_colon [] = [] ∷ []
split_colon (c ∷ cs) = let rest = split_colon cs in if c == 58 then [] ∷ rest else push c rest

-- What a test on an option does: `goto exit_proc` with a code, or go on. What was stored stays.
pub data Step {ℓ} (P : Type ℓ) : Type ℓ where
  exit : Hresult → P → Step P
  next : P → Step P

infixl 5 ◌then_◌
abbrev pub ◌then_◌ {ℓ} : {P : Type ℓ} → Step P → (P → Step P) → Step P
exit hr p then_ f = exit hr p
next p then_ f = f p

abbrev pub finish {ℓ} : {P : Type ℓ} → Step P → Hresult × P
finish (exit hr p) = (hr, p)
finish (next p) = (s_ok, p)

-- `if (n > i)` in front of what is done with `pos_param[i]`.
abbrev pub with_part {ℓ} : {P : Type ℓ} → Option Chars → (Chars → P → Step P) → P → Step P
with_part none f p = next p
with_part (some s) f p = f s p

-- The functions of the C library on strings. `atoi` and `atol` give the 32-bit pattern of an `int`
-- and the 64-bit pattern of a `long`, `inet_addr` an address in network byte order, and
-- `atof_tenths` is `(int) (atof(s) * 10.0)`.
pub record Libc : Type 0 where
  pub atoi : Chars → ℕ
  pub atol : Chars → ℕ
  pub inet_addr : Chars → ℕ
  pub atof_tenths : Chars → ℕ
