-- ===== src/Packet.antt =====
-- b-CAP packets: struct BCAP_PACKET of bcap_core/include/bcap_core/bcap_common.h, and
-- bcap_packet2bytary and bcap_calc_size_packet of bcap_core/src/bcap_common.c.
pub mod Wire
pub mod Size
pub mod Encode
pub mod Decode
pub mod RoundTrip
pub mod Exchange
pub mod Send
pub mod OnLine
pub mod Delivered
pub mod Receive
mod Tests
use denso_robot_ros.Prelude.{
  ℕ, zero, suc, ◌+◌, ◌-◌, ◌*◌, ◌%◌, ◌^◌, List, [], ◌∷◌, none, some, length, set, replicate, true,
  ltb, ◌==◌, if◌then◌else◌,
}
use denso_robot_ros.Hresult.{Outcome, ok, failed, ◌>>=◌, e_invalidarg}
use denso_robot_ros.Bytes.{le_bytes}
use denso_robot_ros.Variant
use denso_robot_ros.Variant.{
  Variant, Variants, Bstr, plain, bstr, null_array, scalar_array, bstr_array, variant_array, nil,
  cons, sys_string_len, array_count, count_variants, array_elem_size, value_size,
}
use denso_robot_ros.Codec.Buffer.{Buffer, copy}
use denso_robot_ros.Codec.Date.{DateFloats}
use denso_robot_ros.Codec.Encode.{vntary2bytary}

-- The fields are kept as the patterns of their C types; `args` are the VARIANTs behind the pointer.
pub record Packet : Type 0 where
  pub serial : ℕ
  pub reserv : ℕ
  pub id : ℕ
  pub argc : ℕ
  pub args : Variants

abbrev pub bcap_size_min : ℕ
bcap_size_min = 16

-- The loop over the strings of an array in bcap_calc_size_variant.
unfoldable pub size_bstrs : ℕ → List Bstr → ℕ
size_bstrs zero ss = 0
size_bstrs (suc n) [] = 0
size_bstrs (suc n) (s ∷ ss) = (4 + 2 * sys_string_len s + size_bstrs n ss) % 2 ^ 32

unfoldable mutual
  -- bcap_calc_size_variant, in the wrap-around of `uint32_t`
  pub calc_size_variant : Variant → ℕ
  calc_size_variant (plain vt bits) = if vt == Variant.Vt.date then 8 else value_size vt
  calc_size_variant (bstr s) = 4 + 2 * sys_string_len s
  calc_size_variant (null_array vt) = 0
  calc_size_variant (scalar_array vt lb xs) =
      (array_count (length xs) lb
        * (if vt == Variant.Vt.ui1
            then 1
            else if vt == Variant.Vt.date
            then 8
            else array_elem_size vt))
      % 2 ^ 32
  calc_size_variant (bstr_array lb ss) = size_bstrs (array_count (length ss) lb) ss
  calc_size_variant (variant_array lb vs) = size_variants vs 0 (array_count (count_variants vs) lb)

  -- A loop over VARIANTs that adds `extra` and the size of the type, the number and the data: that
  -- of bcap_calc_size_variant with `extra = 0`, and that of bcap_calc_size_packet with four bytes
  -- for the length.
  pub size_variants : Variants → ℕ → ℕ → ℕ
  size_variants vs extra zero = 0
  size_variants nil extra (suc n) = 0
  size_variants (cons v vs) extra (suc n) =
      (extra + 2 + 4 + calc_size_variant v + size_variants vs extra n) % 2 ^ 32

unfoldable pub calc_size_packet : Packet → ℕ
calc_size_packet p = (bcap_size_min + size_variants p.args 4 p.argc) % 2 ^ 32

-- The fields in front of the arguments, each a memcpy_le and a step of `offset`.
unfoldable pub put_header : ℕ → Packet → Buffer → Outcome Buffer
put_header len p b = do
  b1 ← copy (le_bytes 4 len) b
  b2 ← copy (le_bytes 2 p.serial) b1
  b3 ← copy (le_bytes 2 p.reserv) b2
  b4 ← copy (le_bytes 4 p.id) b3
  copy (le_bytes 2 p.argc) b4

-- bcap_packet2bytary: the contents of `dst`, of `len` bytes, after the call.
unfoldable pub packet2bytary : DateFloats → Packet → ℕ → Outcome (List ℕ)
unfolding put_header
packet2bytary fl p len =
    let zeroed = set (replicate len 0) 0 1 in
    if ltb len bcap_size_min then failed e_invalidarg else do
      b ← put_header len p (record { bytes = zeroed; offset = 1 })
      b' ← vntary2bytary fl (len - 1) p.args true p.argc b
      ok (set b'.bytes (len - 1) 4)
