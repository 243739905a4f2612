-- ===== src/Variant/Change/Exact.antt =====
-- The conversions between integers of VariantChangeType, bcap_core/src/dn_common.c, against those of
-- their values.
use denso_robot_ros.Prelude.{
  ℕ, ◌-◌, ◌^◌, ◌≡◌, Bool, true, false, ltb, not, ◌==◌, ◌||◌, ==_iff, refl, if◌then◌else◌, arith,
}
use denso_robot_ros.Prelude.Int.{ℤ, pos, negsuc, to_bits, of_bits}
use denso_robot_ros.Hresult.{Outcome, ok, failed, fault, out_of_fuel, disp_e_overflow}
use denso_robot_ros.Variant.Change.{FloatOps, change_number, number_of, int_number, sub_change_type}
use denso_robot_ros.Variant.Vt

-- The integer types, VT_CY with its 64-bit member among them.
pub data IntType : Type 0 where
  i2 i4 i8 cy ui1 ui2 ui4 ui8 : IntType

abbrev pub vt_number : IntType → ℕ
vt_number i2 = Vt.i2
vt_number i4 = Vt.i4
vt_number i8 = Vt.i8
vt_number cy = Vt.cy
vt_number ui1 = Vt.ui1
vt_number ui2 = Vt.ui2
vt_number ui4 = Vt.ui4
vt_number ui8 = Vt.ui8

abbrev pub width : IntType → ℕ
width i2 = 16
width i4 = 32
width i8 = 64
width cy = 64
width ui1 = 8
width ui2 = 16
width ui4 = 32
width ui8 = 64

abbrev pub is_signed : IntType → Bool
is_signed i2 = true
is_signed i4 = true
is_signed i8 = true
is_signed cy = true
is_signed ui1 = false
is_signed ui2 = false
is_signed ui4 = false
is_signed ui8 = false

abbrev pub in_width : Bool → ℕ → ℤ → Bool
in_width true w (pos n) = ltb n (2 ^ (w - 1))
in_width true w (negsuc n) = ltb n (2 ^ (w - 1))
in_width false w (pos n) = ltb n (2 ^ w)
in_width false w (negsuc n) = false

-- The value in the new type, or an overflow.
abbrev pub converted : IntType → ℤ → Outcome ℕ
converted t z =
    if in_width (is_signed t) (width t) z then ok (to_bits (width t) z) else failed disp_e_overflow

-- The conversions that the tests of the macro get right.
abbrev pub is_exact : IntType → IntType → Bool
is_exact ui2 i2 = false
is_exact s i2 = true
is_exact i8 i4 = false
is_exact cy i4 = false
is_exact ui4 i4 = false
is_exact ui8 i4 = false
is_exact s i4 = true
is_exact ui8 i8 = false
is_exact s i8 = true
is_exact ui8 cy = false
is_exact s cy = true
is_exact ui1 ui1 = true
is_exact s ui1 = false
is_exact i2 ui2 = false
is_exact s ui2 = true
is_exact i4 ui4 = false
is_exact i8 ui4 = false
is_exact cy ui4 = false
is_exact ui8 ui4 = false
is_exact s ui4 = true
is_exact i8 ui8 = false
is_exact s ui8 = true

-- The value of the source.
abbrev pub value_of : IntType → ℕ → ℤ
value_of s bits = of_bits (is_signed s) (width s) bits

-- The bytes that the conversion writes are those of the value, or it overflows.
abbrev pub Converts : FloatOps → IntType → IntType → ℕ → Type 0
Converts fl s t bits =
    change_number fl (vt_number s) bits (vt_number t) 0 ≡ converted t (value_of s bits)

module _ (fl : FloatOps) (bits : ℕ) where
  from_i2 : (t : IntType) → is_exact i2 t ≡ true → Converts fl i2 t bits
  unfolding change_number number_of int_number sub_change_type
  from_i2 i2 e = ground arith
  from_i2 t e = ground arith

  from_i4 : (t : IntType) → is_exact i4 t ≡ true → Converts fl i4 t bits
  unfolding change_number number_of int_number sub_change_type
  from_i4 i2 e = ground arith
  from_i4 t e = ground arith

  from_i8 : (t : IntType) → is_exact i8 t ≡ true → Converts fl i8 t bits
  unfolding change_number number_of int_number sub_change_type
  from_i8 i2 e = ground arith
  from_i8 t e = ground arith

  from_cy : (t : IntType) → is_exact cy t ≡ true → Converts fl cy t bits
  unfolding change_number number_of int_number sub_change_type
  from_cy i2 e = ground arith
  from_cy t e = ground arith

  from_ui1 : (t : IntType) → is_exact ui1 t ≡ true → Converts fl ui1 t bits
  unfolding change_number number_of int_number sub_change_type
  from_ui1 i2 e = ground arith
  from_ui1 t e = ground arith

  from_ui2 : (t : IntType) → is_exact ui2 t ≡ true → Converts fl ui2 t bits
  unfolding change_number number_of int_number sub_change_type
  from_ui2 i2 e = ground arith
  from_ui2 t e = ground arith

  from_ui4 : (t : IntType) → is_exact ui4 t ≡ true → Converts fl ui4 t bits
  unfolding change_number number_of int_number sub_change_type
  from_ui4 i2 e = ground arith
  from_ui4 t e = ground arith

  from_ui8 : (t : IntType) → is_exact ui8 t ≡ true → Converts fl ui8 t bits
  unfolding change_number number_of int_number sub_change_type
  from_ui8 i2 e = ground arith
  from_ui8 t e = ground arith

-- Where `is_exact` says so, the conversion is right for every value.
pub change_number-is_exact :
    (fl : FloatOps) (s t : IntType) (bits : ℕ) → is_exact s t ≡ true → Converts fl s t bits
change_number-is_exact fl i2 t bits e = from_i2 fl bits t e
change_number-is_exact fl i4 t bits e = from_i4 fl bits t e
change_number-is_exact fl i8 t bits e = from_i8 fl bits t e
change_number-is_exact fl cy t bits e = from_cy fl bits t e
change_number-is_exact fl ui1 t bits e = from_ui1 fl bits t e
change_number-is_exact fl ui2 t bits e = from_ui2 fl bits t e
change_number-is_exact fl ui4 t bits e = from_ui4 fl bits t e
change_number-is_exact fl ui8 t bits e = from_ui8 fl bits t e

-- Where it does not, this is a value for which it is wrong.
abbrev pub lossy_bits : IntType → IntType → ℕ
lossy_bits ui2 i2 = 0x8000
lossy_bits s i2 = 0
lossy_bits ui4 i4 = 0x80000000
lossy_bits s i4 = 0x100000000
lossy_bits s i8 = 0x8000000000000000
lossy_bits s cy = 0x8000000000000000
lossy_bits i2 ui1 = 1
lossy_bits s ui1 = 0x100
lossy_bits s ui2 = 0xffff
lossy_bits i4 ui4 = 0xffffffff
lossy_bits ui8 ui4 = 0x100000000
lossy_bits s ui4 = 1
lossy_bits s ui8 = 0xffffffffffffffff

same_outcome : Outcome ℕ → Outcome ℕ → Bool
same_outcome (ok a) (ok b) = a == b
same_outcome (failed a) (failed b) = a == b
same_outcome fault fault = true
same_outcome out_of_fuel out_of_fuel = true
same_outcome a b = false

same_outcome_self : (a b : Outcome ℕ) → a ≡ b → same_outcome a b ≡ true
unfolding same_outcome
same_outcome_self (ok a) b e = rw (← e) ((==_iff a a).1 refl)
same_outcome_self (failed a) b e = rw (← e) ((==_iff a a).1 refl)
same_outcome_self fault b e = rw (← e) refl
same_outcome_self out_of_fuel b e = rw (← e) refl

lossy_table :
    (fl : FloatOps) (s t : IntType)
    → (is_exact s t
        || not (
            same_outcome
              (change_number fl (vt_number s) (lossy_bits s t) (vt_number t) 0)
              (converted t (value_of s (lossy_bits s t)))))
      ≡ true
unfolding change_number number_of int_number sub_change_type same_outcome
lossy_table fl i2 i2 = refl
lossy_table fl i2 t = refl
lossy_table fl i4 i2 = refl
lossy_table fl i4 t = refl
lossy_table fl i8 i2 = refl
lossy_table fl i8 t = refl
lossy_table fl cy i2 = refl
lossy_table fl cy t = refl
lossy_table fl ui1 i2 = refl
lossy_table fl ui1 t = refl
lossy_table fl ui2 i2 = refl
lossy_table fl ui2 t = refl
lossy_table fl ui4 i2 = refl
lossy_table fl ui4 t = refl
lossy_table fl ui8 i2 = refl
lossy_table fl ui8 t = refl

pub change_number-lossy :
    (fl : FloatOps) (s t : IntType) → is_exact s t ≡ false → ¬ (Converts fl s t (lossy_bits s t))
change_number-lossy fl s t e c =
    let table = lossy_table fl s t in
    let same = same_outcome_self _ _ c in let closed : false ≡ true = rw (e, same) at table in cc
