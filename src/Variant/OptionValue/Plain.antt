-- ===== src/Variant/OptionValue/Plain.antt =====
-- The loop of GetOptionValue of bcap_core/src/dn_common.c over plain characters.
use denso_robot_ros.Prelude.{
  ℕ, suc, ◌+◌, ◌-◌, ◌<◌, ◌≡◌, refl, List, [], ◌∷◌, ◌++◌, length, length-append, drop-append_self,
  append-nil, append_assoc, Bool, true, false, not, ◌==◌, ◌&&◌, ◌||◌, if◌then◌else◌, Bool-cases,
  inl, inr, arith,
}
use denso_robot_ros.Variant.{Bstr, wcslen}
use denso_robot_ros.Variant.ChangeType.{TextOps}
use denso_robot_ros.Variant.Change.{FloatOps}
use denso_robot_ros.Variant.OptionValue.{
  Scan, no_brackets, brackets_of, skip_blanks, cut_blanks, next, last, counted, outside, round,
  scan,
}

-- A character that is none of the separators, the brackets, a blank or the terminator.
abbrev pub is_plain : ℕ → Bool
is_plain c = not (
    c == b'('
    || c == b')'
    || c == b'['
    || c == b']'
    || c == b'{'
    || c == b'}'
    || c == b'<'
    || c == b'>'
    || c == b','
    || c == b'='
    || c == b' '
    || c == 0
    || c == 0xffffffff)

abbrev pub are_plain : List ℕ → Bool
are_plain [] = true
are_plain (c ∷ cs) = is_plain c && are_plain cs

-- The name of an option, and its text.
abbrev pub IsName : List ℕ → Type 0
IsName xs = (are_plain xs ≡ true) × (0 < length xs) × (length xs < 16383)

abbrev pub IsOptions : List (List ℕ × List ℕ) → Type 0
IsOptions [] = Unit {0}
IsOptions ((k, v) ∷ os) = IsName k × IsName v × IsOptions os

-- `k=v` for each option, with commas between them, and the terminator.
abbrev pub line : List ℕ → List ℕ → List (List ℕ × List ℕ) → List ℕ
line k v [] = k ++ b'=' ∷ (v ++ 0 ∷ [])
line k v ((k', v') ∷ os) = k ++ b'=' ∷ (v ++ b',' ∷ line k' v' os)

-- Outside of brackets, none of which was met.
abbrev pub at : List ℕ → ℕ → ℕ → Bstr → Bstr → Bool → Scan
at before n m title one got = record {
  before = before;
  level = 0;
  brackets = no_brackets;
  title_len = n;
  one_len = m;
  title = title;
  one = one;
  got_title = got;
}

plain-cons :
    (c : ℕ) (cs : List ℕ) → are_plain (c ∷ cs) ≡ true → (is_plain c ≡ true) × (are_plain cs ≡ true)
plain-cons c cs h = elim (Bool-cases (is_plain c)) [
  | inl yes_plain ↦ (yes_plain, rw yes_plain at h)
  | inr mixed ↦ absurd_of (rw mixed at h)
]
  where
    absurd_of : {A : Type 0} → false ≡ true → A
    absurd_of e = cc

plain_brackets : (c : ℕ) → is_plain c ≡ true → brackets_of c no_brackets ≡ no_brackets
unfolding brackets_of
plain_brackets c h = ground (arith, h)

pub last-append : (xs ys : List ℕ) → last (length ys) (xs ++ ys) ≡ ys
last-append xs ys =
    let n : length (xs ++ ys) - length ys ≡ length xs = omega (arith, length-append xs ys) in
    rw n (drop-append_self xs ys)

pub skip_blanks-plain : (xs : List ℕ) → are_plain xs ≡ true → skip_blanks xs ≡ xs
skip_blanks-plain [] h = refl
skip_blanks-plain (c ∷ cs) h = let solid : (c == b' ') ≡ false = ground (arith, h) in rw solid refl

pub cut_blanks-plain : (xs : List ℕ) → are_plain xs ≡ true → cut_blanks xs ≡ xs
cut_blanks-plain [] h = refl
cut_blanks-plain (c ∷ cs) h =
    let (first, rest) = plain-cons c cs h in
    let solid : (c == b' ') ≡ false = ground (arith, first) in
    rw (cut_blanks-plain cs rest) (kept c cs solid)
  where
    kept :
        (c : ℕ) (cs : List ℕ)
        → (c == b' ') ≡ false
        → elim cs as (λ x. List ℕ) [ [] ↦ if c == b' ' then [] else c ∷ [] | d ∷ ds ↦ c ∷ d ∷ ds ]
          ≡ c ∷ cs
    kept c [] solid = rw solid refl
    kept c (d ∷ ds) solid = refl

pub wcslen-plain : (xs : List ℕ) → are_plain xs ≡ true → wcslen xs ≡ length xs
unfolding wcslen
wcslen-plain [] h = refl
wcslen-plain (c ∷ cs) h =
    let (first, rest) = plain-cons c cs h in
    let solid : (c == 0) ≡ false = ground (arith, first) in rw (solid, wcslen-plain cs rest) refl

module _ (fl : FloatOps) (tx : TextOps) (malloc : ℕ → Bool) (same_name : List ℕ → Bstr → Bool)
    (key : Bstr) (vt old : ℕ) where
  pub round-plain :
      (c : ℕ) (before : List ℕ) (n m : ℕ) (title one : Bstr) (got : Bool)
      → is_plain c ≡ true
      → round fl tx malloc same_name key vt old c (at before n m title one got)
        ≡ next (counted c (at before n m title one got))
  unfolding round outside
  round-plain c before n m title one got h =
      let inner : brackets_of c no_brackets ≡ no_brackets = plain_brackets c h in
      let e1 : (c == 0xffffffff) ≡ false = ground (arith, h) in
      let e2 : (c == b'=') ≡ false = ground (arith, h) in
      let e3 : (c == b',' || c == 0) ≡ false = ground (arith, h) in rw (inner, e1, e2, e3) refl

  -- A name of plain characters is counted, and so is an option.
  pub scan-title :
      (xs rest before : List ℕ) (n : ℕ) (title one : Bstr)
      → are_plain xs ≡ true
      → scan fl tx malloc same_name key vt old (xs ++ rest) (at before n 0 title one false)
        ≡ scan fl tx malloc same_name key vt old rest
            (at (before ++ xs) (length xs + n) 0 title one false)
  unfolding scan
  scan-title [] rest before n title one h =
      let z : 0 + n ≡ n = omega arith in rw (append-nil before, z) refl
  scan-title (c ∷ cs) rest before n title one h =
      let (first, others) = plain-cons c cs h in
      let e : (before ++ c ∷ []) ++ cs ≡ before ++ c ∷ cs = append_assoc before (c ∷ []) cs in
      let k : length cs + suc n ≡ suc (length cs) + n = omega arith in
      rw (scan, round-plain c before n 0 title one false first)
        (rw (e, k) at (scan-title cs rest (before ++ c ∷ []) (suc n) title one others))

  pub scan-one :
      (xs rest before : List ℕ) (m : ℕ) (title one : Bstr)
      → are_plain xs ≡ true
      → scan fl tx malloc same_name key vt old (xs ++ rest) (at before 0 m title one true)
        ≡ scan fl tx malloc same_name key vt old rest
            (at (before ++ xs) 0 (length xs + m) title one true)
  unfolding scan
  scan-one [] rest before m title one h =
      let z : 0 + m ≡ m = omega arith in rw (append-nil before, z) refl
  scan-one (c ∷ cs) rest before m title one h =
      let (first, others) = plain-cons c cs h in
      let e : (before ++ c ∷ []) ++ cs ≡ before ++ c ∷ cs = append_assoc before (c ∷ []) cs in
      let k : length cs + suc m ≡ suc (length cs) + m = omega arith in
      rw (scan, round-plain c before 0 m title one true first)
        (rw (e, k) at (scan-one cs rest (before ++ c ∷ []) (suc m) title one others))
