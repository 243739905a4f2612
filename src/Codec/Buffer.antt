-- ===== src/Codec/Buffer.antt =====
-- The output buffer `dst`, `*offset` and the copies into it, bcap_core/src/bcap_common.c.
use denso_robot_ros.Prelude.{
  ℕ, ◌+◌, ◌%◌, ◌^◌, ◌≤◌, ◌<◌, ◌≡◌, refl, ◌∙◌, List, [], ◌++◌, length, length-append, take, drop,
  take-append_self, drop-append_self, drop-drop, append_assoc, append-nil, length-drop, leb→le,
  subst, ltb, leb, lt→ltb, le→ltb, lt→leb, le→leb, if◌then◌else◌, inl, inr, Bool-cases, Bool, true,
  false, arith,
}
use denso_robot_ros.Hresult.{Outcome, ok, failed, fault, ◌>>=◌, e_invalidarg}
use denso_robot_ros.Bytes.{le_bytes, length-le_bytes}

pub record Buffer : Type 0 where
  pub bytes : List ℕ
  pub offset : ℕ

unfoldable pub overwrite : List ℕ → ℕ → List ℕ → List ℕ
overwrite buf off bs = take off buf ++ (bs ++ drop (off + length bs) buf)

-- memcpy(&dst[*offset], …); *offset += …. A copy past the end of the buffer is a fault.
unfoldable pub copy : List ℕ → Buffer → Outcome Buffer
unfolding overwrite
copy bs b =
    if leb (b.offset + length bs) (length b.bytes)
    then ok
        (record { bytes = overwrite b.bytes b.offset bs; offset = (b.offset + length bs) % 2 ^ 32 })
    else fault

-- The test `*offset + size > len_dst`, in `uint32_t`, in front of each copy.
unfoldable pub checked : ℕ → ℕ → (Buffer → Outcome Buffer) → Buffer → Outcome Buffer
checked len size m b = if ltb len ((b.offset + size) % 2 ^ 32) then failed e_invalidarg else m b

-- `size = …; if (*offset + size > len_dst) return E_INVALIDARG; memcpy_le(…); *offset += size;`
unfoldable pub put_le : ℕ → ℕ → ℕ → Buffer → Outcome Buffer
unfolding checked copy
put_le len size v = checked len size (copy (le_bytes size v))

-- A buffer with `pre` written, and the offset behind it.
abbrev pub at : List ℕ → List ℕ → Buffer
at pre rest = record { bytes = pre ++ rest; offset = length pre }

abbrev pub Written : ℕ → List ℕ → List ℕ → List ℕ → Outcome Buffer
Written len w pre rest =
    if leb (length pre + length w) len
    then ok (at (pre ++ w) (drop (length w) rest))
    else failed e_invalidarg

-- `m` appends `w` where that fits below `len`, and fails with E_INVALIDARG where it does not.
pub record Writes (len : ℕ) (m : Buffer → Outcome Buffer) (w : List ℕ) : Type 0 where
  pub run :
      (pre rest : List ℕ)
      → len ≤ length pre + length rest
      → length pre ≤ len
      → m (at pre rest) ≡ Written len w pre rest

pub overwrite-at :
    (pre rest w : List ℕ)
    → overwrite (pre ++ rest) (length pre) w ≡ (pre ++ w) ++ drop (length w) rest
unfolding overwrite
overwrite-at pre rest w = rw (
  take-append_self pre rest,
  ← drop-drop (length w) (length pre) (pre ++ rest),
  drop-append_self pre rest,
  append_assoc,
)

pub copy-at :
    (w pre rest : List ℕ)
    → length w ≤ length rest
    → length pre + length w < 2 ^ 32
    → copy w (at pre rest) ≡ ok (at (pre ++ w) (drop (length w) rest))
unfolding copy
copy-at w pre rest fits small =
    rw
      (le→leb (length pre + length w) (length (pre ++ rest))
        (omega (arith, length-append pre rest)))
      (let off : (length pre + length w) % 2 ^ 32 ≡ length (pre ++ w) =
          omega (arith, length-append pre w) in
        cc (off, overwrite-at pre rest w))

-- The test in front of a copy catches every copy that does not fit, while no sum wraps.
pub Writes-checked :
    (len : ℕ) (w : List ℕ)
    → len + length w < 2 ^ 32
    → Writes len (checked len (length w) (copy w)) w
unfolding checked
Writes-checked len w small = record {
  run = λ pre rest room low. elim (Bool-cases (leb (length pre + length w) len)) [
    | inl fits ↦
        rw (fits, le→ltb len ((length pre + length w) % 2 ^ 32) (ground arith))
          (copy-at w pre rest (ground arith) (ground arith))
    | inr over ↦ rw (over, lt→ltb len ((length pre + length w) % 2 ^ 32) (ground arith)) refl
  ];
}

pub Writes-put_le :
    (len size v : ℕ) → len + size < 2 ^ 32 → Writes len (put_le len size v) (le_bytes size v)
unfolding put_le
Writes-put_le len size v small =
    let w = le_bytes size v in
    let e = length-le_bytes size v in
    subst (λ n. Writes len (checked len n (copy w)) w) e (Writes-checked len w (rw e small))

pub Writes-nil : (len : ℕ) → Writes len ok []
Writes-nil len = record {
  run = λ pre rest room low. rw (le→leb (length pre + 0) len (omega arith)) (cc (append-nil pre));
}

Written-append :
    (len : ℕ) (w u pre rest : List ℕ)
    → Written len u (pre ++ w) (drop (length w) rest) ≡ Written len (w ++ u) pre rest
Written-append len w u pre rest =
    let e : length (pre ++ w) + length u ≡ length pre + length (w ++ u) =
      omega (arith, length-append pre w, length-append w u) in
    rw (e, append_assoc pre w u, drop-drop (length u) (length w) rest, ← length-append w u) refl

pub Writes-bind :
    (len : ℕ) (m k : Buffer → Outcome Buffer) (w u : List ℕ)
    → Writes len m w
    → Writes len k u
    → Writes len (λ b. m b >>= k) (w ++ u)
Writes-bind len m k w u hm hk = record {
  run = λ pre rest room low. elim (Bool-cases (leb (length pre + length w) len)) [
    | inl fits ↦
        rw (hm.run pre rest room low, fits)
          (hk.run (pre ++ w) (drop (length w) rest)
              (omega (arith, length-append pre w, length-drop (length w) rest))
              (omega (arith, length-append pre w, leb→le _ _ fits))
            ∙ Written-append len w u pre rest)
    | inr over ↦
        rw
          (
            hm.run pre rest room low,
            over,
            lt→leb (length pre + length (w ++ u)) len (ground (arith, length-append w u)),
          )
          refl
  ];
}

-- A branch on a test, with or without the same test in the layout.
pub Writes-if :
    (len : ℕ) (c : Bool) (m k : Buffer → Outcome Buffer) (w u : List ℕ)
    → Writes len m w
    → Writes len k u
    → Writes len (λ b. if c then m b else k b) (if c then w else u)
Writes-if len true m k w u hm hk = hm
Writes-if len false m k w u hm hk = hk

pub Writes-test :
    (len : ℕ) (c : Bool) (m k : Buffer → Outcome Buffer) (w : List ℕ)
    → (c ≡ true → Writes len m w)
    → (c ≡ false → Writes len k w)
    → Writes len (λ b. if c then m b else k b) w
Writes-test len true m k w hm hk = hm refl
Writes-test len false m k w hm hk = hk refl
