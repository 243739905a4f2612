-- ===== src/Codec/Reader.antt =====
-- Reads from the input buffer `src` at `*offset`, bcap_core/src/bcap_common.c.
use denso_robot_ros.Prelude.{
  Bool, true, false, ℕ, ◌+◌, ◌%◌, ◌^◌, ◌≤◌, ◌≡◌, refl, sym, ap, subst, ◌∙◌, List, [], ◌++◌,
  append_assoc, length, length-append, take, drop, drop-drop, take-append_self, drop-append_self,
  ltb, leb, le→ltb, le→leb, if◌then◌else◌, arith,
}
use denso_robot_ros.Hresult.{Outcome, ok, failed, fault, ◌>>=◌, e_invalidpacket}
use denso_robot_ros.Bytes.{le_bytes, length-le_bytes, from_le}

-- A read starts at an offset, and returns its value with the offset behind it.
abbrev pub Read {ℓ} : Type ℓ → Type ℓ
Read A = ℕ → Outcome (A × ℕ)

-- The bytes at `&src[*offset]`. A read past the end of the buffer is a fault.
unfoldable pub fetch : List ℕ → ℕ → Read (List ℕ)
fetch src size off =
    if leb (off + size) (length src)
    then ok (take size (drop off src), (off + size) % 2 ^ 32)
    else fault

-- `if (*offset + size > len_src) return E_INVALIDPACKET; memcpy_le(…); *offset += size;`
unfoldable pub get_le : List ℕ → ℕ → ℕ → Read ℕ
unfolding fetch
get_le src len size off =
    if ltb len ((off + size) % 2 ^ 32)
    then failed e_invalidpacket
    else do (bs, off') ← fetch src size off; ok (from_le bs, off')

-- `m` reads `a` from the bytes `w`, and stops behind them.
pub record Reads {ℓ} {A : Type ℓ} (src : List ℕ) (len : ℕ) (m : Read A) (w : List ℕ) (a : A)
    : Type ℓ where
  pub run :
      (off : ℕ) (post : List ℕ)
      → drop off src ≡ w ++ post
      → off + length w ≤ len
      → m off ≡ ok (a, off + length w)

module _ (src : List ℕ) (len : ℕ) (inside : len ≤ length src) (small : len ≤ 2 ^ 31) where
  pub fetch-at :
      (w : List ℕ) (off : ℕ) (post : List ℕ)
      → drop off src ≡ w ++ post
      → off + length w ≤ len
      → fetch src (length w) off ≡ ok (w, off + length w)
  unfolding fetch
  fetch-at w off post e h =
      let small_off : (off + length w) % 2 ^ 32 ≡ off + length w = omega arith in
      rw (le→leb (off + length w) (length src) (omega arith), e, take-append_self w post, small_off)
        refl

  pub Reads-get_le :
      (size v : ℕ)
      → Reads src len (get_le src len size) (le_bytes size v) (from_le (le_bytes size v))
  unfolding get_le
  Reads-get_le size v = record {
    run = λ off post e h.
        let w = le_bytes size v in
        let hw = length-le_bytes size v in
        let got : fetch src size off ≡ ok (w, off + length w) =
          subst (λ n. fetch src n off ≡ ok (w, off + length w)) hw (fetch-at w off post e h) in
        rw (le→ltb len ((off + size) % 2 ^ 32) (omega arith), got) refl;
  }

  pub Reads-ok {ℓ} : {A : Type ℓ} (a : A) → Reads src len (λ off. ok (a, off)) [] a
  Reads-ok a = record { run = λ off post e h. ap (λ n. ok (a, n)) (omega arith) }

  pub Reads-bind {ℓ κ} :
      {A : Type ℓ} {B : Type κ} (m : Read A) (k : A → Read B) (w u : List ℕ) (a : A) (b : B)
      → Reads src len m w a
      → Reads src len (k a) u b
      → Reads src len (λ off. m off >>= λ r. k r.0 r.1) (w ++ u) b
  Reads-bind m k w u a b hm hk = record {
    run = λ off post e h.
        let hl = length-append w u in
        let behind : drop (off + length w) src ≡ u ++ post =
          sym (drop-drop (length w) off src)
          ∙ rw (e, append_assoc w u post) (drop-append_self w (u ++ post)) in
        let total : off + length w + length u ≡ off + length (w ++ u) = omega arith in
        rw (hm.run off (u ++ post) (e ∙ append_assoc w u post) (omega arith), ← total)
          (hk.run (off + length w) post behind (omega arith));
  }

-- A branch whose test is known.
pub Reads-then {ℓ} :
    {A : Type ℓ} (src : List ℕ) (len : ℕ) (c : Bool) (m k : Read A) (w : List ℕ) (a : A)
    → c ≡ true
    → Reads src len m w a
    → Reads src len (λ off. if c then m off else k off) w a
Reads-then src len true m k w a e h = h
Reads-then src len false m k w a e h = cc

pub Reads-else {ℓ} :
    {A : Type ℓ} (src : List ℕ) (len : ℕ) (c : Bool) (m k : Read A) (w : List ℕ) (a : A)
    → c ≡ false
    → Reads src len k w a
    → Reads src len (λ off. if c then m off else k off) w a
Reads-else src len true m k w a e h = cc
Reads-else src len false m k w a e h = h

-- A branch with the same test in the layout and in the value, and one with the test in neither.
pub Reads-if {ℓ} :
    {A : Type ℓ} (src : List ℕ) (len : ℕ) (c : Bool) (m k : Read A) (w u : List ℕ) (a b : A)
    → (c ≡ true → Reads src len m w a)
    → (c ≡ false → Reads src len k u b)
    → Reads src len (λ off. if c then m off else k off) (if c then w else u) (if c then a else b)
Reads-if src len true m k w u a b h g = h refl
Reads-if src len false m k w u a b h g = g refl

pub Reads-test {ℓ} :
    {A : Type ℓ} (src : List ℕ) (len : ℕ) (c : Bool) (m k : Read A) (w : List ℕ) (a : A)
    → (c ≡ true → Reads src len m w a)
    → (c ≡ false → Reads src len k w a)
    → Reads src len (λ off. if c then m off else k off) w a
Reads-test src len true m k w a h g = h refl
Reads-test src len false m k w a h g = g refl
