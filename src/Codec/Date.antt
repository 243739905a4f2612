-- ===== src/Codec/Date.antt =====
-- DATE on the wire: bcap_vntdate2bytary and bcap_bytary2vntdate of
-- bcap_core/src/bcap_common.c. The arithmetic on `double` is a parameter, on bit patterns.
use denso_robot_ros.Prelude.{ℕ, ◌%◌, ◌^◌, Bool, ltb, ◌&&◌, if◌then◌else◌}

-- `to_double t` is `(double) t / _SEC_ONEDAY + _TIME_DIFFERENCE`, `is_positive d` is `d > 0`, and
-- `from_double d` is `(DATE) ((d - _TIME_DIFFERENCE) * _SEC_ONEDAY)`.
pub record DateFloats : Type 0 where
  pub to_double : ℕ → ℕ
  pub is_positive : ℕ → Bool
  pub from_double : ℕ → ℕ

-- `*src > 0` for the signed 64-bit `time_t` with the pattern `src`.
unfoldable pub vntdate2bytary : DateFloats → ℕ → ℕ
vntdate2bytary fl src =
    if ltb 0 (src % 2 ^ 64) && ltb (src % 2 ^ 64) (2 ^ 63) then fl.to_double (src % 2 ^ 64) else 0

-- The destination is zero before the call, and stays so where the test fails.
unfoldable pub bytary2vntdate : DateFloats → ℕ → ℕ
bytary2vntdate fl dbl = if fl.is_positive dbl then fl.from_double dbl else 0
