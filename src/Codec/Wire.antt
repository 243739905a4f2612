-- ===== src/Codec/Wire.antt =====
-- The layout of a VARIANT on the wire, as a list of bytes: the specification of the coder of
-- bcap_core/src/bcap_common.c. Per argument: the data type (2), the number of elements (4), the data.
use denso_robot_ros.Prelude.{
  ℕ, ◌*◌, ◌^◌, ◌<◌, List, [], ◌∷◌, ◌++◌, length, map, take, ◌==◌, if◌then◌else◌,
}
use denso_robot_ros.Bytes.{le_bytes, le_bytes_all}
use denso_robot_ros.Variant
use denso_robot_ros.Variant.{
  Variant, Variants, Bstr, plain, bstr, null_array, scalar_array, bstr_array, variant_array, nil,
  cons, sys_string_len, vt_of, count_variants, array_elem_size, value_size, chars,
}
use denso_robot_ros.Codec.Date.{DateFloats, vntdate2bytary}

-- A BSTR: its length in bytes, and two bytes of each character that the length counts.
unfoldable pub wire_bstr : Bstr → List ℕ
wire_bstr s =
    le_bytes 4 (2 * sys_string_len s) ++ le_bytes_all 2 (take (sys_string_len s) (chars s))

unfoldable pub wire_bstrs : List Bstr → List ℕ
unfolding wire_bstr
wire_bstrs [] = []
wire_bstrs (s ∷ ss) = wire_bstr s ++ wire_bstrs ss

unfoldable pub wire_plain : DateFloats → ℕ → ℕ → List ℕ
wire_plain fl vt bits =
    if vt == Variant.Vt.date
    then le_bytes 8 (vntdate2bytary fl bits)
    else le_bytes (value_size vt) bits

unfoldable pub wire_scalars : DateFloats → ℕ → List ℕ → List ℕ
wire_scalars fl vt xs =
    if vt == Variant.Vt.ui1
    then le_bytes_all 1 xs
    else if vt == Variant.Vt.date
    then le_bytes_all 8 (map (vntdate2bytary fl) xs)
    else le_bytes_all (array_elem_size vt) xs

-- The number of elements on the wire: 1 for a single value.
unfoldable pub wire_count : Variant → ℕ
wire_count (plain vt bits) = 1
wire_count (bstr s) = 1
wire_count (null_array vt) = 0
wire_count (scalar_array vt lb xs) = length xs
wire_count (bstr_array lb ss) = length ss
wire_count (variant_array lb vs) = count_variants vs

unfoldable mutual
  pub wire_value : DateFloats → Variant → List ℕ
  wire_value fl (plain vt bits) = wire_plain fl vt bits
  wire_value fl (bstr s) = wire_bstr s
  wire_value fl (null_array vt) = []
  wire_value fl (scalar_array vt lb xs) = wire_scalars fl vt xs
  wire_value fl (bstr_array lb ss) = wire_bstrs ss
  wire_value fl (variant_array lb vs) = wire_variants fl vs

  pub wire_variants : DateFloats → Variants → List ℕ
  wire_variants fl nil = []
  wire_variants fl (cons v vs) =
      (le_bytes 2 (vt_of v) ++ (le_bytes 4 (wire_count v) ++ wire_value fl v))
      ++ wire_variants fl vs

unfoldable pub wire_variant : DateFloats → Variant → List ℕ
wire_variant fl v = le_bytes 2 (vt_of v) ++ (le_bytes 4 (wire_count v) ++ wire_value fl v)

-- An argument of a packet: its length in front.
unfoldable pub wire_args : DateFloats → Variants → List ℕ
unfolding wire_variant
wire_args fl nil = []
wire_args fl (cons v vs) =
    (le_bytes 4 (length (wire_variant fl v)) ++ wire_variant fl v) ++ wire_args fl vs

-- The bound on the number of elements of each array. It keeps every sum of the coder in 32 bits.
abbrev pub max_elements : ℕ
max_elements = 2 ^ 27

-- What the coder can send: arrays that hold data, with a lower bound of 32 bits and fewer than
-- `max_elements` elements.
abbrev mutual
  pub IsEncodable : Variant → Type 0
  IsEncodable (plain vt bits) = Unit {0}
  IsEncodable (bstr s) = Unit {0}
  IsEncodable (null_array vt) = ⊥
  IsEncodable (scalar_array vt lb xs) = (lb < 2 ^ 32) × (length xs < max_elements)
  IsEncodable (bstr_array lb ss) = (lb < 2 ^ 32) × (length ss < max_elements)
  IsEncodable (variant_array lb vs) =
      (lb < 2 ^ 32) × (count_variants vs < max_elements) × AllEncodable vs

  pub AllEncodable : Variants → Type 0
  AllEncodable nil = Unit {0}
  AllEncodable (cons v vs) = IsEncodable v × AllEncodable vs
