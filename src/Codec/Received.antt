-- ===== src/Codec/Received.antt =====
-- What a VARIANT becomes on its way over the wire: the specification of encoding and decoding
-- together, bcap_core/src/bcap_common.c. Numbers lose the bytes beyond their type, strings the
-- characters beyond their 16-bit length and the high half of each `wchar_t`, arrays their lower
-- bound; a NULL string becomes the empty one.
use Prim.Native.Nat.{max}
use denso_robot_ros.Prelude.{
  ℕ, suc, ◌*◌, ◌%◌, ◌^◌, ◌<◌, ◌≡◌, ◌≢◌, some, length, map, take, false, ◌==◌, if◌then◌else◌, All,
}
use denso_robot_ros.Variant
use denso_robot_ros.Variant.{
  Variant, Variants, Bstr, plain, bstr, null_array, scalar_array, bstr_array, variant_array, nil,
  cons, sys_string_len, chars, has_array, count_variants, array_elem_size, value_size,
}
use denso_robot_ros.Variant.Alloc.{elem_bytes}
use denso_robot_ros.Codec.Date.{DateFloats, vntdate2bytary, bytary2vntdate}
use denso_robot_ros.Codec.Wire.{max_elements}

unfoldable pub received_date : DateFloats → ℕ → ℕ
received_date fl x = bytary2vntdate fl (vntdate2bytary fl x % 2 ^ 64)

unfoldable pub received_bits : DateFloats → ℕ → ℕ → ℕ
received_bits fl vt x =
    if vt == Variant.Vt.date then received_date fl x else x % 2 ^ (8 * value_size vt)

unfoldable pub received_elem : DateFloats → ℕ → ℕ → ℕ
received_elem fl vt x =
    if vt == Variant.Vt.ui1
    then x % 2 ^ 8
    else if vt == Variant.Vt.date
    then received_date fl x
    else x % 2 ^ (8 * array_elem_size vt)

abbrev pub low_half : ℕ → ℕ
low_half c = c % 2 ^ 16

unfoldable pub received_bstr : Bstr → Bstr
received_bstr s = some (map low_half (take (sys_string_len s) (chars s)))

unfoldable mutual
  pub received : DateFloats → Variant → Variant
  received fl (plain vt bits) = plain vt (received_bits fl vt bits)
  received fl (bstr s) = bstr (received_bstr s)
  received fl (null_array vt) = null_array vt
  received fl (scalar_array vt lb xs) = scalar_array vt 1 (map (received_elem fl vt) xs)
  received fl (bstr_array lb ss) = bstr_array 1 (map received_bstr ss)
  received fl (variant_array lb vs) = variant_array 1 (received_all fl vs)

  pub received_all : DateFloats → Variants → Variants
  received_all fl nil = nil
  received_all fl (cons v vs) = cons (received fl v) (received_all fl vs)

-- A string that the receiver has room for: SysAllocStringLen computes the block in 16 bits.
abbrev pub IsShort : Bstr → Type 0
IsShort s = sys_string_len s < 0x3fff

-- What the decoder accepts: data types of 16 bits whose flag tells the arrays from the single
-- values, types of element that SafeArrayCreateVector knows, strings that the receiver has room for.
abbrev mutual
  pub IsDecodable : Variant → Type 0
  IsDecodable (plain vt bits) = (vt < 2 ^ 16) × (has_array vt ≡ false) × (vt ≢ 8)
  IsDecodable (bstr s) = IsShort s
  IsDecodable (null_array vt) = ⊥
  IsDecodable (scalar_array vt lb xs) =
      (vt ≢ 8) × (vt ≢ 12) × ((sz : ℕ) × (elem_bytes vt ≡ some sz)) × (length xs < max_elements)
  IsDecodable (bstr_array lb ss) = All IsShort ss × (length ss < max_elements)
  IsDecodable (variant_array lb vs) = (count_variants vs < max_elements) × AllDecodable vs

  pub AllDecodable : Variants → Type 0
  AllDecodable nil = Unit {0}
  AllDecodable (cons v vs) = IsDecodable v × AllDecodable vs

-- How deep arrays stand in arrays.
unfoldable mutual
  pub depth : Variant → ℕ
  depth (plain vt bits) = 0
  depth (bstr s) = 0
  depth (null_array vt) = 0
  depth (scalar_array vt lb xs) = 0
  depth (bstr_array lb ss) = 0
  depth (variant_array lb vs) = suc (depth_all vs)

  pub depth_all : Variants → ℕ
  depth_all nil = 0
  depth_all (cons v vs) = max (depth v) (depth_all vs)
