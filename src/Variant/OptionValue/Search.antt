-- ===== src/Variant/OptionValue/Search.antt =====
-- Which option GetOptionValue of bcap_core/src/dn_common.c finds.
use denso_robot_ros.Prelude.{
  ℕ, suc, ◌+◌, ◌%◌, ◌^◌, ◌≡◌, refl, ap, ◌∙◌, List, [], ◌∷◌, ◌++◌, some, length, append_assoc, Bool,
  true, false, ◌==◌, if◌then◌else◌, Bool-cases, inl, inr, take-all, arith,
}
use denso_robot_ros.Hresult.{Outcome, ok}
use denso_robot_ros.Variant.{Variant, Bstr, bstr, empty, wcslen, sys_string_len}
use denso_robot_ros.Variant.Alloc.{sys_alloc_string}
use denso_robot_ros.Variant.Copy.Laws.{IsText, sys_alloc_string-IsText}
use denso_robot_ros.Variant.ChangeType.{TextOps, variant_change_type}
use denso_robot_ros.Variant.Change.{FloatOps}
use denso_robot_ros.Variant.OptionValue.{
  brackets_of, trim, Round, next, found, new_block, other, end_option, end_title, outside, round,
  finish, scan, get_option_value,
}
use denso_robot_ros.Variant.OptionValue.Plain.{
  at, line, last-append, skip_blanks-plain, cut_blanks-plain, wcslen-plain, scan-title, scan-one,
  IsName, IsOptions,
}

module _ (fl : FloatOps) (tx : TextOps) (malloc : ℕ → Bool) (same_name : List ℕ → Bstr → Bool)
    (key : Bstr) (vt old : ℕ) where
  -- The text of the first option with the name, or VT_EMPTY.
  abbrev pub first_value : List (List ℕ × List ℕ) → Outcome Variant
  first_value [] = ok empty
  first_value ((k, v) ∷ os) =
      let rest = first_value os in
      if same_name k key then variant_change_type fl tx malloc false (bstr (some v)) vt else rest

  module _ (memory : (n : ℕ) → malloc n ≡ true) where
    alloc-name : (xs : List ℕ) → IsName xs → sys_alloc_string malloc (some xs) ≡ ok (some xs)
    alloc-name xs (h, some_chars, short) =
        sys_alloc_string-IsText malloc memory (some xs) (wcslen-plain xs h, short)

    alloc-empty : sys_alloc_string malloc (some []) ≡ ok (some [])
    alloc-empty =
        sys_alloc_string-IsText malloc memory (some []) ((unfold wcslen in refl), omega arith)

    trim-name : (xs : List ℕ) → IsName xs → trim malloc (some xs) ≡ ok (some xs)
    unfolding trim
    trim-name [] (h, some_chars, short) = absurd (omega (arith, some_chars))
    trim-name (c ∷ cs) named =
        rw
          (
            skip_blanks-plain (c ∷ cs) named.0,
            cut_blanks-plain (c ∷ cs) named.0,
            alloc-name (c ∷ cs) named,
          )
          refl

    new_block-name :
        (xs before : List ℕ) (old_block : Bstr)
        → IsName xs
        → new_block malloc (length xs + 0) (before ++ xs) old_block ≡ ok (some xs)
    new_block-name [] before old_block (h, some_chars, short) = absurd (omega (arith, some_chars))
    new_block-name (c ∷ cs) before old_block named =
        let all : length (c ∷ cs) + 0 ≡ suc (length cs) = omega arith in
        rw (all, last-append before (c ∷ cs)) (alloc-name (c ∷ cs) named)

    round-equals :
        (k before : List ℕ)
        → IsName k
        → round fl tx malloc same_name key vt old b'='
            (at (before ++ k) (length k + 0) 0 (some []) (some []) false)
          ≡ next (at ((before ++ k) ++ b'=' ∷ []) 0 0 (some k) (some []) true)
    unfolding round brackets_of outside end_title
    round-equals k before named = rw (new_block-name k before (some []) named) refl

    -- The end of an option.
    end_option-named :
        (c : ℕ) (k v before : List ℕ)
        → IsName k
        → IsName v
        → end_option fl tx malloc same_name key vt old c
            (at (before ++ v) 0 (length v + 0) (some k) (some []) true)
          ≡ (if same_name k key
              then found (at (before ++ v) 0 0 (some k) (some v) true)
              else other fl tx malloc same_name key vt old c
                  (at (before ++ v) 0 0 (some k) (some v) true))
    unfolding end_option sys_string_len
    end_option-named c k v before name text =
        let n : wcslen v % 2 ^ 16 ≡ length v = omega (arith, wcslen-plain v text.0, text.2) in
        let chars : (length v == 0) ≡ false = ground (arith, text.1) in
        rw (new_block-name v before (some []) text, trim-name k name, n, chars) refl

    abbrev after_option : ℕ → List ℕ → List ℕ → List ℕ → Round
    after_option c k v before =
        if same_name k key
        then found (at (before ++ v) 0 0 (some k) (some v) true)
        else other fl tx malloc same_name key vt old c (at (before ++ v) 0 0 (some k) (some v) true)

    round-comma :
        (k v before : List ℕ)
        → IsName k
        → IsName v
        → round fl tx malloc same_name key vt old b','
            (at (before ++ v) 0 (length v + 0) (some k) (some []) true)
          ≡ after_option b',' k v before
    unfolding round outside brackets_of
    round-comma k v before = end_option-named b',' k v before

    round-end :
        (k v before : List ℕ)
        → IsName k
        → IsName v
        → round fl tx malloc same_name key vt old 0
            (at (before ++ v) 0 (length v + 0) (some k) (some []) true)
          ≡ after_option 0 k v before
    unfolding round outside brackets_of
    round-end k v before = end_option-named 0 k v before

    -- Up to the end of an option.
    scan-option :
        (k v rest before : List ℕ)
        → IsName k
        → IsName v
        → scan fl tx malloc same_name key vt old
            (k ++ b'=' ∷ (v ++ rest))
            (at before 0 0 (some []) (some []) false)
          ≡ scan fl tx malloc same_name key vt old rest
              (at (((before ++ k) ++ b'=' ∷ []) ++ v) 0 (length v + 0) (some k) (some []) true)
    unfolding scan
    scan-option k v rest before name text =
        let equals = round-equals k before name in
        scan-title fl tx malloc same_name key vt old k (b'=' ∷ (v ++ rest)) before 0 (some [])
          (some []) name.0
        ∙ (rw (scan, equals)
            (scan-one fl tx malloc same_name key vt old v rest ((before ++ k) ++ b'=' ∷ []) 0
              (some k) (some []) text.0))

    finish-found :
        (k v before : List ℕ)
        → IsName v
        → finish fl tx malloc same_name key vt old (at before 0 0 (some k) (some v) true)
          ≡ variant_change_type fl tx malloc false (bstr (some v)) vt
    unfolding finish
    finish-found k v before text = rw (trim-name v text) refl

    scan-options :
        (k v : List ℕ) (os : List (List ℕ × List ℕ)) (before : List ℕ)
        → IsName k
        → IsName v
        → IsOptions os
        → scan fl tx malloc same_name key vt old
            (line k v os)
            (at before 0 0 (some []) (some []) false)
          ≡ first_value ((k, v) ∷ os)
    unfolding scan
    scan-options k v [] before name text others =
        let front = ((before ++ k) ++ b'=' ∷ []) ++ v in
        let stops = round-end k v ((before ++ k) ++ b'=' ∷ []) name text in
        scan-option k v (0 ∷ []) before name text ∙ elim (Bool-cases (same_name k key)) [
          | inl same ↦ rw (scan, stops, same) (finish-found k v front text)
          | inr differs ↦ rw (scan, stops, differs) refl
        ]
    scan-options k v ((k', v') ∷ os) before name text (name', text', others) =
        let front = ((before ++ k) ++ b'=' ∷ []) ++ v in
        let stops = round-comma k v ((before ++ k) ++ b'=' ∷ []) name text in
        scan-option k v (b',' ∷ line k' v' os) before name text
        ∙ elim (Bool-cases (same_name k key)) [
          | inl same ↦ rw (scan, stops, same) (finish-found k v front text)
          | inr differs ↦
              rw (scan, stops, differs, alloc-empty)
                (scan-options k' v' os (front ++ b',' ∷ []) name' text' others)
        ]

-- The options of a string: `k=v` for each, with commas between them.
abbrev pub options_text : List ℕ → List ℕ → List (List ℕ × List ℕ) → List ℕ
options_text k v [] = k ++ b'=' ∷ v
options_text k v ((k', v') ∷ os) = k ++ b'=' ∷ (v ++ b',' ∷ options_text k' v' os)

line-options_text :
    (k v : List ℕ) (os : List (List ℕ × List ℕ)) → options_text k v os ++ 0 ∷ [] ≡ line k v os
line-options_text k v [] = append_assoc k (b'=' ∷ v) (0 ∷ [])
line-options_text k v ((k', v') ∷ os) =
    append_assoc k (b'=' ∷ (v ++ b',' ∷ options_text k' v' os)) (0 ∷ [])
    ∙ ap (λ t. k ++ b'=' ∷ t)
        (append_assoc v (b',' ∷ options_text k' v' os) (0 ∷ [])
          ∙ ap (λ t. v ++ b',' ∷ t) (line-options_text k' v' os))

-- GetOptionValue on a list of options, `name=text` for each with commas between them, all of plain
-- characters and none of them empty, with memory and for a string that fits: the text of the first
-- option whose name is the one that is looked for, as VariantChangeType changes it to the type, and
-- VT_EMPTY where there is none; for every way to compare names.
pub get_option_value-first :
    (fl : FloatOps) (tx : TextOps) (malloc : ℕ → Bool) (same_name : List ℕ → Bstr → Bool)
    (key : List ℕ) (vt old : ℕ) (k v : List ℕ) (os : List (List ℕ × List ℕ))
    → ((n : ℕ) → malloc n ≡ true)
    → IsOptions ((k, v) ∷ os)
    → IsText (some (options_text k v os))
    → get_option_value fl tx malloc same_name (some key) vt old (some (options_text k v os))
      ≡ first_value fl tx malloc same_name (some key) vt old ((k, v) ∷ os)
unfolding get_option_value sys_string_len
get_option_value-first fl tx malloc same_name key vt old k v os memory (name, text, others) fits =
    let whole = options_text k v os in
    let n : wcslen whole % 2 ^ 16 ≡ length whole = omega (arith, fits.0, fits.1) in
    rw
      (
        sys_alloc_string-IsText malloc memory (some whole) fits,
        alloc-empty fl tx malloc same_name (some key) vt old memory,
        n,
        take-all (length whole) whole (omega arith),
        line-options_text k v os,
      )
      (scan-options fl tx malloc same_name (some key) vt old memory k v os [] name text others)
