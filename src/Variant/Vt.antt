-- ===== src/Variant/Vt.antt =====
-- enum VARENUM of bcap_core/include/bcap_core/dn_common.h.
use denso_robot_ros.Prelude.{ℕ}

abbrev pub i2 : ℕ
i2 = 2

abbrev pub i4 : ℕ
i4 = 3

abbrev pub r4 : ℕ
r4 = 4

abbrev pub r8 : ℕ
r8 = 5

abbrev pub cy : ℕ
cy = 6

abbrev pub date : ℕ
date = 7

abbrev pub bstr : ℕ
bstr = 8

abbrev pub error : ℕ
error = 10

abbrev pub bool : ℕ
bool = 11

abbrev pub variant : ℕ
variant = 12

abbrev pub ui1 : ℕ
ui1 = 17

abbrev pub ui2 : ℕ
ui2 = 18

abbrev pub ui4 : ℕ
ui4 = 19

abbrev pub i8 : ℕ
i8 = 20

abbrev pub ui8 : ℕ
ui8 = 21

abbrev pub array : ℕ
array = 0x2000
