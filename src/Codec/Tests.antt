-- ===== src/Codec/Tests.antt =====
-- A VARIANT through the coder and the decoder of bcap_core/src/bcap_common.c.
use denso_robot_ros.Prelude.{
  ◌+◌, ◌≡◌, refl, [], ◌∷◌, ◌++◌, length, drop, replicate, true, ltb, leb, leb→le, if◌then◌else◌,
  arith,
}
use denso_robot_ros.Hresult.{ok, failed, e_invalidarg}
use denso_robot_ros.Bytes.{le_bytes, le_bytes_all}
use denso_robot_ros.Variant.{Variant, scalar_array, vt_of, array_elem_size}
use denso_robot_ros.Variant.Alloc.{elem_bytes}
use denso_robot_ros.Codec.Buffer.{at}
use denso_robot_ros.Codec.Date.{DateFloats}
use denso_robot_ros.Codec.Encode.{vnt2bytary}
use denso_robot_ros.Codec.Encode.Refines.{vnt2bytary-appends}
use denso_robot_ros.Codec.Decode.{bytary2vnt}
use denso_robot_ros.Codec.Decode.RoundTrip.{bytary2vnt-wire}
use denso_robot_ros.Codec.Received.{received, depth}
use denso_robot_ros.Codec.Wire.{wire_count, wire_value, wire_scalars}

abbrev stopped_clock : DateFloats
stopped_clock = record { to_double = λ t. t; is_positive = λ d. ltb 0 d; from_double = λ d. d }

-- Two words of VT_I2 in a SAFEARRAY.
abbrev words : Variant
words = scalar_array 2 0 (0x1234 ∷ 7 ∷ [])

vnt2bytary-appends_example :
    vnt2bytary stopped_clock 20 words (wire_count words) (at (1 ∷ []) (replicate 19 0)) ≡ (
      if leb (1 + length (wire_value stopped_clock words)) 20
      then ok (
          at
            ((1 ∷ []) ++ wire_value stopped_clock words)
            (drop (length (wire_value stopped_clock words)) (replicate 19 0)))
      else failed e_invalidarg)
vnt2bytary-appends_example =
    vnt2bytary-appends 20 (omega arith) stopped_clock words (1 ∷ []) (replicate 19 0)
      (omega arith, omega arith) (omega arith) (omega arith)

bytary2vnt-wire_example :
    bytary2vnt stopped_clock
      (λ _. true)
      1
      (wire_value stopped_clock words ++ 4 ∷ [])
      4
      (vt_of words)
      (wire_count words)
      0
    ≡ ok (received stopped_clock words, 0 + length (wire_value stopped_clock words))
unfolding depth elem_bytes wire_value wire_scalars array_elem_size le_bytes le_bytes_all
bytary2vnt-wire_example =
    bytary2vnt-wire stopped_clock (λ _. true) (λ n. refl) (wire_value stopped_clock words ++ 4 ∷ [])
      4 (leb→le _ _ refl) (omega arith) words 0 0 (4 ∷ [])
      (ground arith, ground arith, (2, refl), omega arith) (omega arith) refl (leb→le _ _ refl)
