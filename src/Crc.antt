-- ===== src/Crc.antt =====
-- The checksum of b-CAP packets on a serial line: bcap_calc_crc of bcap_core/src/bcap_common.c.
pub mod Detects
mod Tests
use Prim.Native.Nat.{bit_xor}
use denso_robot_ros.Prelude.{ℕ, zero, suc, ◌*◌, ◌%◌, ◌^◌, List, [], ◌∷◌, leb, if◌then◌else◌}

-- `if (crc & 0x8000) crc = (crc << 1) ^ 0x1021; else crc <<= 1;` in `uint16_t`
unfoldable pub crc_bit : ℕ → ℕ
crc_bit crc = if leb 0x8000 crc then bit_xor (2 * crc % 2 ^ 16) 0x1021 else 2 * crc

-- `for (cnt = 0; cnt < 8; cnt++)`
unfoldable pub crc_bits : ℕ → ℕ → ℕ
unfolding crc_bit
crc_bits zero crc = crc
crc_bits (suc n) crc = crc_bits n (crc_bit crc)

-- `for (pos = 0; pos < len_buf; pos++)`
unfoldable pub crc_bytes : ℕ → List ℕ → ℕ
unfolding crc_bits
crc_bytes crc [] = crc
crc_bytes crc (b ∷ bs) = crc_bytes (crc_bits 8 (bit_xor crc (b * 2 ^ 8))) bs

unfoldable pub calc_crc : List ℕ → ℕ
unfolding crc_bytes
calc_crc bs = crc_bytes 0xffff bs
