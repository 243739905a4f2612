-- ===== src/Crc/Detects.antt =====
-- bcap_calc_crc of bcap_core/src/bcap_common.c on buffers that differ.
use Prim.Native.Nat.{bit_xor}
use denso_robot_ros.Prelude.{
  ℕ, zero, suc, ◌*◌, ◌%◌, ◌^◌, ◌<◌, ◌≡◌, ◌≢◌, refl, sym, ◌∙◌, List, [], ◌∷◌, ◌++◌, All, arith,
  bit_xor_step, bit_xor-lt, bit_xor-injective, bit_xor-right_injective,
}
use denso_robot_ros.Crc.{crc_bit, crc_bits, crc_bytes, calc_crc}

crc_bit-lt : (c : ℕ) → crc_bit c < 2 ^ 16
unfolding crc_bit
crc_bit-lt c = ground (arith, bit_xor-lt 16 (2 * c % 2 ^ 16) 0x1021)

-- The lowest bit tells the branches apart: 0x1021 is odd.
crc_bit-injective : (c d : ℕ) → c < 2 ^ 16 → d < 2 ^ 16 → crc_bit c ≡ crc_bit d → c ≡ d
unfolding crc_bit
crc_bit-injective c d hc hd e =
    let u = 2 * c % 2 ^ 16 in
    let v = 2 * d % 2 ^ 16 in
    ground (
      arith,
      bit_xor_step u 0x1021,
      bit_xor_step v 0x1021,
      bit_xor-injective (2 ^ 16) u v 0x1021 (omega arith) (omega arith),
    )

crc_bits-lt : (n c : ℕ) → c < 2 ^ 16 → crc_bits n c < 2 ^ 16
unfolding crc_bits
crc_bits-lt zero c h = h
crc_bits-lt (suc n) c h = crc_bits-lt n (crc_bit c) (crc_bit-lt c)

crc_bits-injective : (n c d : ℕ) → c < 2 ^ 16 → d < 2 ^ 16 → crc_bits n c ≡ crc_bits n d → c ≡ d
unfolding crc_bits
crc_bits-injective zero c d hc hd e = e
crc_bits-injective (suc n) c d hc hd e =
    crc_bit-injective c d hc hd
      (crc_bits-injective n (crc_bit c) (crc_bit d) (crc_bit-lt c) (crc_bit-lt d) e)

-- The bytes of a buffer.
abbrev pub AreBytes : List ℕ → Type 0
AreBytes bs = All (λ b. b < 2 ^ 8) bs

mixed-lt : (c b : ℕ) → c < 2 ^ 16 → b < 2 ^ 8 → bit_xor c (b * 2 ^ 8) < 2 ^ 16
mixed-lt c b hc hb = bit_xor-lt 16 c (b * 2 ^ 8) hc (omega arith)

round-lt : (c b : ℕ) → c < 2 ^ 16 → b < 2 ^ 8 → crc_bits 8 (bit_xor c (b * 2 ^ 8)) < 2 ^ 16
round-lt c b hc hb = crc_bits-lt 8 (bit_xor c (b * 2 ^ 8)) (mixed-lt c b hc hb)

crc_bytes-lt : (bs : List ℕ) (c : ℕ) → AreBytes bs → c < 2 ^ 16 → crc_bytes c bs < 2 ^ 16
unfolding crc_bytes
crc_bytes-lt [] c h hc = hc
crc_bytes-lt (b ∷ bs) c (hb, h) hc = crc_bytes-lt bs _ h (round-lt c b hc hb)

-- The register is a `uint16_t` behind a round, whatever it was before.
crc_bits-suc-lt : (n c : ℕ) → crc_bits (suc n) c < 2 ^ 16
unfolding crc_bits
crc_bits-suc-lt n c = crc_bits-lt n (crc_bit c) (crc_bit-lt c)

crc_bytes_any-lt : (bs : List ℕ) (c : ℕ) → c < 2 ^ 16 → crc_bytes c bs < 2 ^ 16
unfolding crc_bytes
crc_bytes_any-lt [] c hc = hc
crc_bytes_any-lt (b ∷ bs) c hc = crc_bytes_any-lt bs _ (crc_bits-suc-lt 7 (bit_xor c (b * 2 ^ 8)))

pub calc_crc-lt : (bs : List ℕ) → calc_crc bs < 2 ^ 16
unfolding calc_crc
calc_crc-lt bs = crc_bytes_any-lt bs 0xffff (omega arith)

-- Two registers that differ stay apart over the same bytes.
crc_bytes-injective :
    (bs : List ℕ) (c d : ℕ)
    → AreBytes bs
    → c < 2 ^ 16
    → d < 2 ^ 16
    → crc_bytes c bs ≡ crc_bytes d bs
    → c ≡ d
unfolding crc_bytes
crc_bytes-injective [] c d h hc hd e = e
crc_bytes-injective (b ∷ bs) c d (hb, h) hc hd e =
    let rounds = crc_bytes-injective bs _ _ h (round-lt c b hc hb) (round-lt d b hd hb) e in
    let mixed = crc_bits-injective 8 _ _ (mixed-lt c b hc hb) (mixed-lt d b hd hb) rounds in
    bit_xor-injective (2 ^ 16) c d (b * 2 ^ 8) (omega arith) (omega arith) mixed

crc_bytes-append :
    (pre post : List ℕ) (c : ℕ) → crc_bytes c (pre ++ post) ≡ crc_bytes (crc_bytes c pre) post
unfolding crc_bytes
crc_bytes-append [] post c = refl
crc_bytes-append (b ∷ pre) post c = crc_bytes-append pre post _

-- bcap_calc_crc of bytes is a `uint16_t`, and it changes whenever one byte of the buffer changes:
-- a packet with one corrupted byte never has the checksum of the packet that was sent.
pub calc_crc-detects :
    (pre post : List ℕ) (a b : ℕ)
    → AreBytes pre
    → AreBytes post
    → a < 2 ^ 8
    → b < 2 ^ 8
    → a ≢ b
    → (calc_crc (pre ++ a ∷ post) < 2 ^ 16)
      × (calc_crc (pre ++ a ∷ post) ≢ calc_crc (pre ++ b ∷ post))
unfolding calc_crc crc_bytes
calc_crc-detects pre post a b hpre hpost ha hb differs =
    let c = crc_bytes 0xffff pre in
    let hc = crc_bytes-lt pre 0xffff hpre (omega arith) in
    let split_a = crc_bytes-append pre (a ∷ post) 0xffff in
    let split_b = crc_bytes-append pre (b ∷ post) 0xffff in
    (
      rw split_a (crc_bytes-lt post _ hpost (round-lt c a hc ha)),
      λ same.
          let rounds =
            crc_bytes-injective post _ _ hpost (round-lt c a hc ha) (round-lt c b hc hb)
              (sym split_a ∙ same ∙ split_b) in
          let mixed = crc_bits-injective 8 _ _ (mixed-lt c a hc ha) (mixed-lt c b hc hb) rounds in
          differs (
            omega (arith, bit_xor-right_injective c (a * 2 ^ 8) (b * 2 ^ 8) c (omega arith) mixed)),
    )
