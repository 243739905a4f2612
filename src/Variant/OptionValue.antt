-- ===== src/Variant/OptionValue.antt =====
-- GetOptionValue of bcap_core/src/dn_common.c. wcscasecmp is a parameter: whether two names are the
-- same. The memcpy that takes a bracket out of the string moves it by one character.
pub mod Plain
pub mod Search
use denso_robot_ros.Prelude.{
  ℕ, zero, suc, ◌+◌, ◌*◌, ◌/◌, ◌^◌, ◌-◌, ◌≡◌, List, [], ◌∷◌, ◌++◌, Option, none, some, length, take,
  drop, Bool, true, false, not, ltb, ◌==◌, ◌&&◌, ◌||◌, if◌then◌else◌,
}
use denso_robot_ros.Hresult.{Outcome, ok, failed, fault, out_of_fuel, ◌>>=◌, e_fail, e_invalidarg}
use denso_robot_ros.Variant.{Variant, Bstr, plain, bstr, empty, sys_string_len}
use denso_robot_ros.Variant.Alloc.{sys_alloc_string}
use denso_robot_ros.Variant.ChangeType.{TextOps, variant_change_type}
use denso_robot_ros.Variant.Change.{FloatOps}
use denso_robot_ros.Variant.Vt

-- The local variables at `wchTmp`: the characters in front of it, the nest with its brackets, the
-- lengths of the name and of the option so far, and the two strings.
pub record Scan : Type 0 where
  pub before : List ℕ
  pub level : ℕ
  pub brackets : ℕ × ℕ
  pub title_len : ℕ
  pub one_len : ℕ
  pub title : Bstr
  pub one : Bstr
  pub got_title : Bool

-- `wchStart` and `wchEnd` are -1 before the first bracket.
abbrev pub no_brackets : ℕ × ℕ
no_brackets = (0xffffffff, 0xffffffff)

unfoldable pub brackets_of : ℕ → ℕ × ℕ → ℕ × ℕ
brackets_of c b =
    if c == b'(' || c == b')'
    then (b'(', b')')
    else if c == b'[' || c == b']'
    then (b'[', b']')
    else if c == b'{' || c == b'}'
    then (b'{', b'}')
    else if c == b'<' || c == b'>'
    then (b'<', b'>')
    else b

-- The blanks at both ends; without another character, the loop from the end reads in front of the
-- block.
abbrev pub skip_blanks : List ℕ → List ℕ
skip_blanks [] = []
skip_blanks (c ∷ cs) = let rest = skip_blanks cs in if c == b' ' then rest else c ∷ cs

abbrev pub cut_blanks : List ℕ → List ℕ
cut_blanks [] = []
cut_blanks (c ∷ cs) = if_blank c (cut_blanks cs)
  where
    if_blank : ℕ → List ℕ → List ℕ
    if_blank c [] = if c == b' ' then [] else c ∷ []
    if_blank c (d ∷ ds) = c ∷ d ∷ ds

abbrev pub ended_at_front : List ℕ → Outcome (List ℕ)
ended_at_front [] = fault
ended_at_front (c ∷ cs) = ok (c ∷ cs)

unfoldable pub trim : (ℕ → Bool) → Bstr → Outcome Bstr
trim malloc none = fault
trim malloc (some s) =
    ended_at_front (cut_blanks (skip_blanks s)) >>= λ t. sys_alloc_string malloc (some t)

-- A round of the loop: on to the next character, past the character with a bracket taken out, the
-- end of the loop with `break`, or the end of the function.
pub data Round : Type 0 where
  next : Scan → Round
  found : Scan → Round
  halt : Outcome Variant → Round

-- The last `n` characters in front of `wchTmp`.
abbrev pub last : ℕ → List ℕ → List ℕ
last n s = drop (length s - n) s

-- iLevelCount counts, and the character is a part of the name or of the option.
abbrev pub counted : ℕ → Scan → Scan
counted c s =
    if s.got_title
    then record s { before = s.before ++ c ∷ []; one_len = suc s.one_len }
    else record s { before = s.before ++ c ∷ []; title_len = suc s.title_len }

abbrev pub with_block : Outcome Bstr → (Bstr → Round) → Round
with_block (ok b) k = k b
with_block (failed hr) k = halt (failed hr)
with_block fault k = halt fault
with_block out_of_fuel k = halt out_of_fuel

-- SysAllocStringLen of the last characters, where there are some.
abbrev pub new_block : (ℕ → Bool) → ℕ → List ℕ → Bstr → Outcome Bstr
new_block malloc zero before old = ok old
new_block malloc (suc n) before old = sys_alloc_string malloc (some (last (suc n) before))

module _ (fl : FloatOps) (tx : TextOps) (malloc : ℕ → Bool) (same_name : List ℕ → Bstr → Bool)
    (key : Bstr) (vt old : ℕ) where
  -- The name is the one that is looked for: an option without characters ends the function, where
  -- the two bytes of boolVal are written over those of the destination.
  abbrev pub matched : Scan → Round
  matched s =
      if sys_string_len s.one == 0
      then halt
          (ok (if vt == Vt.bool then plain Vt.bool (old / 2 ^ 16 * 2 ^ 16 + 0xffff) else empty))
      else found s

  abbrev pub other : ℕ → Scan → Round
  other c s =
      if c == b','
      then (with_block (sys_alloc_string malloc (some [])) λ title.
          with_block (sys_alloc_string malloc (some [])) λ one. next (record s {
            before = s.before ++ c ∷ [];
            title_len = 0;
            one_len = 0;
            title = title;
            one = one;
            got_title = false;
          }))
      else halt (ok empty)

  abbrev pub compared : ℕ → Scan → Bstr → Round
  compared c s none = halt fault
  compared c s (some t) =
      let s' = record s { title = some t } in if same_name t key then matched s' else other c s'

  -- `,` or the end of the string
  unfoldable pub end_option : ℕ → Scan → Round
  unfolding trim
  end_option c s = with_block (new_block malloc s.one_len s.before s.one) λ one.
      with_block (trim malloc s.title)
        λ title. compared c (record s { one = one; one_len = 0 }) title

  -- `=`
  unfoldable pub end_title : Scan → Round
  end_title s =
      if s.got_title
      then halt (failed e_fail)
      else with_block (new_block malloc s.title_len s.before s.title) λ title. next (record s {
        before = s.before ++ b'=' ∷ [];
        title = title;
        title_len = 0;
        got_title = true;
      })

  unfoldable pub outside : ℕ → Scan → Round
  unfolding end_option end_title
  outside c s =
      if not (s.level == 0)
      then next (counted c s)
      else if c == b'='
      then end_title s
      else if c == b',' || c == 0
      then end_option c s
      else next (counted c s)

  unfoldable pub round : ℕ → Scan → Round
  unfolding brackets_of outside
  round c s0 =
      let s = record s0 {
        brackets = if s0.level == 0 then brackets_of c s0.brackets else s0.brackets;
      } in
      if c == s.brackets.0
      then (if s.level == 0
          then next (record s { level = 1 })
          else outside c (record s { level = suc s.level }))
      else if c == s.brackets.1
      then (if s.level == 0
          then halt (failed e_fail)
          else if s.level == 1
          then next (record s { level = 0 })
          else outside c (record s { level = s.level - 1 }))
      else outside c s

  -- What follows the loop.
  unfoldable pub finish : Scan → Outcome Variant
  finish s =
      if not (s.level == 0)
      then failed e_fail
      else trim malloc s.one >>= λ one. variant_change_type fl tx malloc false (bstr one) vt

  unfoldable pub scan : List ℕ → Scan → Outcome Variant
  scan [] s = finish s
  scan (c ∷ cs) s = elim (round c s) [ next s' ↦ scan cs s' | found s' ↦ finish s' | halt o ↦ o ]

  abbrev pub start : Bstr → Bstr → Scan
  start title one = record {
    before = [];
    level = 0;
    brackets = no_brackets;
    title_len = 0;
    one_len = 0;
    title = title;
    one = one;
    got_title = false;
  }

  abbrev pub scan_target : Bstr → Scan → Outcome Variant
  scan_target none s = fault
  scan_target (some t) s = scan (take (sys_string_len (some t)) t ++ 0 ∷ []) s

  -- GetOptionValue with a destination, whose eight bytes are `old`.
  unfoldable pub get_option_value : Bstr → Outcome Variant
  get_option_value src = elim key [
    | none ↦ failed e_invalidarg
    | some k ↦ do
      target ← sys_alloc_string malloc (elim src [ none ↦ some [] | some s ↦ some s ])
      title ← sys_alloc_string malloc (some [])
      one ← sys_alloc_string malloc (some [])
      scan_target target (start title one)
  ]
