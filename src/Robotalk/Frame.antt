-- ===== src/Robotalk/Frame.antt =====
-- The bytes of a ROBOTalk packet on the line, and what rtk_param2packet and rtk_send of
-- bcap_core/src/dn_robotalk.c make of a command.
use denso_robot_ros.Prelude.{
  ℕ, ◌+◌, ◌/◌, ◌%◌, ◌^◌, ◌≤◌, ◌<◌, ◌≡◌, refl, ap, ◌∙◌, List, [], ◌∷◌, ◌++◌, some, length,
  length-append, take, drop, take-append_self, Bool, true, false, ltb, le→ltb, ◌&&◌, arith,
}
use denso_robot_ros.Hresult.{ok}
use denso_robot_ros.Bytes.{le_bytes}
use denso_robot_ros.Robotalk.{
  Buf, Line, memcpy_be, write_at, param2packet, add_bytes, calc_crc, seal, send,
}

abbrev pub total : List ℕ → ℕ
total [] = 0
total (b ∷ bs) = b + total bs

-- The highest byte of two first.
abbrev pub be_bytes_2 : ℕ → List ℕ
be_bytes_2 n = (n / 256 % 256) ∷ (n % 256) ∷ []

-- The bytes in front of the checksum.
abbrev pub head : ℕ → ℕ → ℕ → List ℕ → List ℕ
head command from_id to_id data_ =
    5 ∷ length data_ ∷ (command / 256 % 256) ∷ (command % 256) ∷ from_id ∷ to_id ∷ data_

-- The packet on the line: the checksum is the sum of the bytes in front of it.
abbrev pub frame : ℕ → ℕ → ℕ → List ℕ → List ℕ
frame command from_id to_id data_ =
    head command from_id to_id data_
    ++ be_bytes_2 (total (head command from_id to_id data_) % 2 ^ 16)

pub add_bytes-total :
    (bs : List ℕ) (crc : ℕ) → crc < 2 ^ 16 → add_bytes crc bs ≡ (crc + total bs) % 2 ^ 16
unfolding add_bytes
add_bytes-total [] crc h = omega (arith, h)
add_bytes-total (b ∷ bs) crc h =
    omega (arith, add_bytes-total bs ((crc + b) % 2 ^ 16) (omega arith))

and-false : (b : Bool) → (b && false) ≡ false
and-false true = refl
and-false false = refl

pub take-length {ℓ} : {A : Type ℓ} (xs : List A) → take (length xs) xs ≡ xs
take-length [] = refl
take-length (x ∷ xs) = ap (◌∷◌ x) (take-length xs)

-- A write behind a known prefix.
pub write_at-append :
    (xs bs ys : List ℕ) → write_at (length xs) bs (xs ++ ys) ≡ xs ++ bs ++ drop (length bs) ys
unfolding write_at
write_at-append [] bs ys = refl
write_at-append (x ∷ xs) bs ys = ap (◌∷◌ x) (write_at-append xs bs ys)

-- rtk_param2packet on a packet of six bytes and the data.
pub param2packet-head :
    (command from_id to_id : ℕ) (data_ rest : List ℕ) (a b c d e f : ℕ)
    → length data_ ≤ 248
    → param2packet command (some data_) (length data_) from_id to_id (a ∷ b ∷ c ∷ d ∷ e ∷ f ∷ rest)
      ≡ ok (head command from_id to_id data_ ++ drop (length data_) rest)
unfolding param2packet write_at memcpy_be le_bytes
param2packet-head command from_id to_id data_ rest a b c d e f short =
    rw
      (
        and-false (ltb 0 (length data_)),
        le→ltb 248 (length data_) short,
        le→ltb (length data_) (length data_) (omega arith),
        take-length data_,
      )
      refl

-- The sum over a packet whose bytes in front of the checksum are known.
pub calc_crc-head :
    (command from_id to_id : ℕ) (data_ rest : List ℕ)
    → length data_ ≤ 248
    → calc_crc (head command from_id to_id data_ ++ rest)
      ≡ total (head command from_id to_id data_) % 2 ^ 16
unfolding calc_crc
calc_crc-head command from_id to_id data_ rest short =
    let h = head command from_id to_id data_ in
    let six : 6 + length data_ ≡ length h = omega arith in
    rw (le→ltb 248 (length data_) short, six)
      (ap (add_bytes 0) (take-append_self h rest)
        ∙ add_bytes-total h 0 (omega arith)
        ∙ ap (λ n. n % 2 ^ 16) (omega arith))

-- The checksum is put behind the data.
pub seal-head :
    (command from_id to_id : ℕ) (data_ rest : List ℕ)
    → length data_ ≤ 248
    → seal (head command from_id to_id data_ ++ rest)
      ≡ ok (frame command from_id to_id data_ ++ drop 2 rest)
unfolding seal memcpy_be le_bytes
seal-head command from_id to_id data_ rest short =
    let h = head command from_id to_id data_ in
    let crc = be_bytes_2 (total h % 2 ^ 16) in
    let six : 6 + length data_ ≡ length h = omega arith in
    rw
      (
        le→ltb 256 (8 + length data_) (omega (arith, short)),
        calc_crc-head command from_id to_id data_ rest short,
        six,
        write_at-append h crc rest,
      )
      refl

-- rtk_send gives the frame to the device.
pub send-head :
    {W : Type 0} (line : Line W) (command from_id to_id : ℕ) (data_ rest : List ℕ) (w : W)
    → length data_ ≤ 248
    → send line (head command from_id to_id data_ ++ rest) w
      ≡ ok (line.dn_send (frame command from_id to_id data_) w)
unfolding send
send-head line command from_id to_id data_ rest w short =
    let f = frame command from_id to_id data_ in
    let eight : 8 + length data_ ≡ length f = omega (
      arith,
      length-append data_ (be_bytes_2 (total (head command from_id to_id data_) % 2 ^ 16)),
    ) in
    rw (seal-head command from_id to_id data_ rest short, eight, take-append_self f (drop 2 rest))
      refl

-- A command with up to 248 bytes of data, put into a packet by rtk_param2packet and sent by
-- rtk_send, goes to the device as its frame: enq, the number of data bytes, the command with its
-- high byte first, the two ids, the data, and the sum of all of these in two bytes.
pub send-frame :
    {W : Type 0} (line : Line W) (command from_id to_id : ℕ) (data_ rest : List ℕ) (a b c d e f : ℕ)
    (w : W)
    → length data_ ≤ 248
    → (packet : Buf) × (param2packet command
          (some data_)
          (length data_)
          from_id
          to_id
          (a ∷ b ∷ c ∷ d ∷ e ∷ f ∷ rest)
        ≡ ok packet)
      × (send line packet w ≡ ok (line.dn_send (frame command from_id to_id data_) w))
send-frame line command from_id to_id data_ rest a b c d e f w short = (
  head command from_id to_id data_ ++ drop (length data_) rest,
  param2packet-head command from_id to_id data_ rest a b c d e f short,
  send-head line command from_id to_id data_ (drop (length data_) rest) w short,
)
