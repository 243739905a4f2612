-- ===== src/Robot/Send/Layout/Fill.antt =====
-- How DensoRobot::CreateSendParameter of denso_robot_core/src/denso_robot.cpp fills its vector.
use denso_robot_ros.Prelude.{
  suc, set, ap, sym, append_assoc, append-nil, length-append, ℕ, ◌+◌, ◌≡◌, refl, List, [], ◌∷◌,
  ◌++◌, length, replicate, true, ltb, lt→ltb, arith,
}
use denso_robot_ros.Hresult.{Outcome, ok, ◌>>=◌}
use denso_robot_ros.Variant.{Variant, empty}
use denso_robot_ros.Robot.Send.{Slots, put}

-- A vector whose first elements are written.
abbrev pub slots : List Variant → ℕ → Slots
slots vs n = record { items = vs ++ replicate n empty; offset = length vs }

put-slots :
    (v : Variant) (vs : List Variant) (n : ℕ)
    → put v (slots vs (suc n)) ≡ ok (slots (vs ++ v ∷ []) n)
unfolding put
put-slots v vs n =
    let room : ltb (length vs) (length (vs ++ replicate (suc n) empty)) ≡ true =
      lt→ltb _ _ (omega (arith, length-append vs (replicate (suc n) empty))) in
    let one_more : length vs + 1 ≡ length (vs ++ v ∷ []) =
      omega (arith, length-append vs (v ∷ [])) in
    rw (room, set-here vs, one_more)
      (ap (λ l. ok (record { items = l; offset = length (vs ++ v ∷ []) }))
        (sym (append_assoc vs (v ∷ []) (replicate n empty))))
  where
    set-here :
        (vs : List Variant)
        → set (vs ++ empty ∷ replicate n empty) (length vs) v ≡ vs ++ v ∷ replicate n empty
    set-here [] = refl
    set-here (u ∷ us) = ap (λ l. u ∷ l) (set-here us)

-- A part writes the next elements.
abbrev pub Fills : (Slots → Outcome Slots) → List Variant → Type 0
Fills part ws =
    (vs : List Variant) (n : ℕ) → part (slots vs (length ws + n)) ≡ ok (slots (vs ++ ws) n)

pub none-Fills : Fills ok []
none-Fills vs n = let same : 0 + n ≡ n = omega arith in rw (same, append-nil vs) refl

pub put-Fills : (v : Variant) → Fills (put v) (v ∷ [])
put-Fills v vs n = let next : 1 + n ≡ suc n = omega arith in rw next (put-slots v vs n)

pub bind-Fills :
    (f g : Slots → Outcome Slots) (ws us : List Variant)
    → Fills f ws
    → Fills g us
    → Fills (λ s. f s >>= g) (ws ++ us)
bind-Fills f g ws us hf hg vs n =
    let n_eq : length (ws ++ us) + n ≡ length ws + (length us + n) =
      omega (arith, length-append ws us) in
    rw (n_eq, hf vs (length us + n), hg (vs ++ ws) n)
      (ap (λ l. ok (slots l n)) (append_assoc vs ws us))
