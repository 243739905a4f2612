-- ===== src/Variant/Change.antt =====
-- The macro SubChangeType in VariantChangeType of bcap_core/src/dn_common.c, where `long` has eight
-- bytes. The arithmetic on float and double is a parameter.
pub mod Exact
use denso_robot_ros.Prelude.{
  ℕ, ◌+◌, ◌*◌, ◌/◌, ◌^◌, Option, none, some, Bool, true, false, not, ltb, ◌==◌, ◌&&◌, ◌||◌,
  if◌then◌else◌,
}
use denso_robot_ros.Prelude.Int.{ℤ, pos, negsuc, ltb_ℤ, is_zero, to_bits, of_bits}
use denso_robot_ros.Hresult.{Hresult, Outcome, ok, failed, ◌>>=◌, disp_e_overflow}
use denso_robot_ros.Variant.Copy.{disp_e_badvartype}
use denso_robot_ros.Variant.Vt

abbrev pub disp_e_typemismatch : Hresult
disp_e_typemismatch = 0x80020005

-- What SubChangeType does with `val`, whose C type is `type`: its size, `val < (type)c`,
-- `(type)c < val`, the pattern of `val` cast to an integer of so many bytes, and to float and
-- double, whether it is beyond FLT_MAX either way, and whether it is not zero.
pub record Number : Type 0 where
  pub size : ℕ
  pub below : ℤ → Bool
  pub above : ℤ → Bool
  pub to_int : ℕ → ℕ
  pub to_r4 : ℕ
  pub to_r8 : ℕ
  pub beyond_r4 : Bool
  pub truth : Bool

-- The patterns of float and double: their values, and the values of integers in them.
pub record FloatOps : Type 0 where
  pub r4 : ℕ → Number
  pub r8 : ℕ → Number
  pub int_r4 : ℤ → ℕ
  pub int_r8 : ℤ → ℕ

-- An integer of `size` bytes.
unfoldable pub int_number : FloatOps → Bool → ℕ → ℕ → Number
int_number fl signed size bits =
    let z = of_bits signed (8 * size) bits in
    record {
      size = size;
      below = λ c. ltb_ℤ z (of_bits signed (8 * size) (to_bits (8 * size) c));
      above = λ c. ltb_ℤ (of_bits signed (8 * size) (to_bits (8 * size) c)) z;
      to_int = λ n. to_bits (8 * n) z;
      to_r4 = fl.int_r4 z;
      to_r8 = fl.int_r8 z;
      beyond_r4 = false;
      truth = not (is_zero z);
    }

-- The calls of SubChangeType: the member of the union for each type of the source. DATE is
-- `time_t`.
unfoldable pub number_of : FloatOps → ℕ → ℕ → Option Number
unfolding int_number
number_of fl vt bits =
    if vt == Vt.i2 || vt == Vt.bool
    then some (int_number fl true 2 bits)
    else if vt == Vt.i4
    then some (int_number fl true 4 bits)
    else if vt == Vt.i8 || vt == Vt.cy || vt == Vt.date
    then some (int_number fl true 8 bits)
    else if vt == Vt.r4
    then some (fl.r4 bits)
    else if vt == Vt.r8
    then some (fl.r8 bits)
    else if vt == Vt.ui1
    then some (int_number fl false 1 bits)
    else if vt == Vt.ui2
    then some (int_number fl false 2 bits)
    else if vt == Vt.ui4
    then some (int_number fl false 4 bits)
    else if vt == Vt.ui8
    then some (int_number fl false 8 bits)
    else none

-- The limits, on a machine whose `long` has eight bytes.
abbrev shrt_min : ℤ
shrt_min = negsuc 0x7fff

abbrev shrt_max : ℤ
shrt_max = pos 0x7fff

abbrev ushrt_max : ℤ
ushrt_max = pos 0xffff

abbrev long_min : ℤ
long_min = negsuc 0x7fffffffffffffff

abbrev long_max : ℤ
long_max = pos 0x7fffffffffffffff

abbrev ulong_max : ℤ
ulong_max = pos 0xffffffffffffffff

module _ (svt : ℕ) (n : Number) where
  -- CheckOverflow and IsUnsigned
  abbrev pub check_overflow : ℕ → Bool
  check_overflow size = ltb size n.size || svt == Vt.r4 || svt == Vt.r8

  abbrev pub is_unsigned : Bool
  is_unsigned = svt == Vt.ui1 || svt == Vt.ui2 || svt == Vt.ui4 || svt == Vt.ui8

  -- The tests in front of a signed type of `size` bytes, and of an unsigned one; `same_size` is the
  -- type whose negative values are let through.
  abbrev pub beyond_signed : ℕ → ℤ → ℤ → Bool
  beyond_signed size lo hi = check_overflow size && ((not is_unsigned && n.below lo) || n.above hi)

  abbrev pub beyond_unsigned : ℕ → ℕ → ℤ → Bool
  beyond_unsigned size same_size hi =
      (not (svt == same_size) && n.below (pos 0)) || (check_overflow size && n.above hi)

  -- A member of so many bytes, unless it is out of range and that is checked.
  abbrev pub stored : Bool → Bool → ℕ → ℕ → Outcome (ℕ × ℕ)
  stored chk beyond size bits = if chk && beyond then failed disp_e_overflow else ok (size, bits)

  -- SubChangeType, but for VT_BSTR: the size and the contents of the member that is written. memset
  -- writes all eight bytes.
  unfoldable pub sub_change_type : Bool → ℕ → Outcome (ℕ × ℕ)
  sub_change_type chk vt =
      if vt == 0 || vt == 1
      then ok (8, 0)
      else if vt == Vt.error
      then failed disp_e_typemismatch
      else if vt == Vt.i2
      then stored chk (beyond_signed 2 shrt_min shrt_max) 2 (n.to_int 2)
      else if vt == Vt.i4
      then stored chk (beyond_signed 4 long_min long_max) 4 (n.to_int 4)
      else if vt == Vt.i8 || vt == Vt.cy
      then stored chk (beyond_signed 8 long_min long_max) 8 (n.to_int 8)
      else if vt == Vt.r4
      then stored chk (svt == Vt.r8 && n.beyond_r4) 4 n.to_r4
      else if vt == Vt.r8
      then ok (8, n.to_r8)
      else if vt == Vt.date
      then ok (8, n.to_int 8)
      else if vt == Vt.bool
      then ok (2, if n.truth then 0xffff else 0)
      else if vt == Vt.ui1
      then stored chk (n.below (pos 0) || (check_overflow 1 && n.above ushrt_max)) 1 (n.to_int 1)
      else if vt == Vt.ui2
      then stored chk (beyond_unsigned 2 Vt.i2 ushrt_max) 2 (n.to_int 2)
      else if vt == Vt.ui4
      then stored chk (beyond_unsigned 4 Vt.i4 ulong_max) 4 (n.to_int 4)
      else if vt == Vt.ui8
      then stored chk (beyond_unsigned 8 Vt.i8 ulong_max) 8 (n.to_int 8)
      else failed disp_e_badvartype

-- A write of a member leaves the other bytes of the union.
abbrev pub write_member : ℕ → ℕ × ℕ → ℕ
write_member old (size, bits) = bits + old / 2 ^ (8 * size) * 2 ^ (8 * size)

-- From a number to a type other than VT_BSTR: the eight bytes of the union, which were `old`. For
-- VT_BOOL the macro makes no checks.
unfoldable pub change_number : FloatOps → ℕ → ℕ → ℕ → ℕ → Outcome ℕ
unfolding number_of sub_change_type
change_number fl svt bits vt old = elim (number_of fl svt bits) [
  | none ↦ failed disp_e_badvartype
  | some n ↦ sub_change_type svt n (not (svt == Vt.bool)) vt >>= λ m. ok (write_member old m)
]
