-- ===== src/Bytes.antt =====
-- Numbers as little-endian bytes: memcpy_le of bcap_core/src/dn_device.c. An object of `n` bytes
-- is kept as a number, and its bytes on the wire come lowest first on every host.
use denso_robot_ros.Prelude.{
  ℕ, zero, suc, ◌+◌, ◌*◌, ◌/◌, ◌%◌, ◌^◌, ◌<◌, ◌≡◌, refl, ap, List, [], ◌∷◌, ◌++◌, length,
  length-append, All, arith,
}

unfoldable pub le_bytes : ℕ → ℕ → List ℕ
le_bytes zero v = []
le_bytes (suc n) v = (v % 256) ∷ le_bytes n (v / 256)

unfoldable pub from_le : List ℕ → ℕ
from_le [] = 0
from_le (b ∷ bs) = b + 256 * from_le bs

pub length-le_bytes : (n v : ℕ) → length (le_bytes n v) ≡ n
unfolding le_bytes
length-le_bytes zero v = refl
length-le_bytes (suc n) v = ap suc (length-le_bytes n (v / 256))

abbrev pub IsByte : ℕ → Type 0
IsByte b = b < 256

pub le_bytes-IsByte : (n v : ℕ) → All IsByte (le_bytes n v)
unfolding le_bytes
le_bytes-IsByte zero v = tt
le_bytes-IsByte (suc n) v = (omega arith, le_bytes-IsByte n (v / 256))

-- Reading back `n` bytes gives the value modulo 2 ^ (8 n).
pub from_le-le_bytes_1 : (v : ℕ) → from_le (le_bytes 1 v) ≡ v % 256
unfolding from_le le_bytes
from_le-le_bytes_1 v = omega arith

pub from_le-le_bytes_2 : (v : ℕ) → from_le (le_bytes 2 v) ≡ v % 2 ^ 16
unfolding from_le le_bytes
from_le-le_bytes_2 v = omega arith

pub from_le-le_bytes_4 : (v : ℕ) → from_le (le_bytes 4 v) ≡ v % 2 ^ 32
unfolding from_le le_bytes
from_le-le_bytes_4 v = omega arith

pub from_le-le_bytes_8 : (v : ℕ) → from_le (le_bytes 8 v) ≡ v % 2 ^ 64
unfolding from_le le_bytes
from_le-le_bytes_8 v = omega arith

-- The bytes of an array of `n`-byte elements.
unfoldable pub le_bytes_all : ℕ → List ℕ → List ℕ
le_bytes_all n [] = []
le_bytes_all n (x ∷ xs) = le_bytes n x ++ le_bytes_all n xs

pub length-le_bytes_all : (n : ℕ) (xs : List ℕ) → length (le_bytes_all n xs) ≡ length xs * n
unfolding le_bytes_all
length-le_bytes_all n [] = omega arith
length-le_bytes_all n (x ∷ xs) = omega (
  arith,
  length-append (le_bytes n x) (le_bytes_all n xs),
  length-le_bytes n x,
  length-le_bytes_all n xs,
)
