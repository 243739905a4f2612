-- ===== src/Crc/Tests.antt =====
-- Checksums of concrete bytes, by bcap_calc_crc of bcap_core/src/bcap_common.c.
use denso_robot_ros.Prelude.{◌<◌, ◌^◌, ◌≡◌, ◌≢◌, refl, [], ◌∷◌, ◌++◌, arith}
use denso_robot_ros.Crc.{crc_bit, crc_bits, crc_bytes, calc_crc}
use denso_robot_ros.Crc.Detects.{calc_crc-detects}

-- "123456789", the usual check value of the CRC with the polynomial 0x1021 and 0xffff first.
check_value : calc_crc (49 ∷ 50 ∷ 51 ∷ 52 ∷ 53 ∷ 54 ∷ 55 ∷ 56 ∷ 57 ∷ []) ≡ 0x29b1
unfolding calc_crc crc_bytes crc_bits crc_bit
check_value = refl

calc_crc-detects_example :
    (calc_crc ((1 ∷ []) ++ 2 ∷ 3 ∷ []) < 2 ^ 16)
    × (calc_crc ((1 ∷ []) ++ 2 ∷ 3 ∷ []) ≢ calc_crc ((1 ∷ []) ++ 130 ∷ 3 ∷ []))
calc_crc-detects_example =
    calc_crc-detects (1 ∷ []) (3 ∷ []) 2 130 (omega arith, tt) (omega arith, tt) (omega arith)
      (omega arith) (ground arith)
