-- ===== src/Device/Split.antt =====
-- The loop over ':' in bcap_core/src/dn_device.c, and its inverse.
use denso_robot_ros.Prelude.{◌≡◌, ◌≢◌, refl, List, [], ◌∷◌, ◌++◌, false, ◌==◌, All, arith}
use denso_robot_ros.Device.{Chars, push, split_colon}

abbrev pub NoColon : Chars → Type 0
NoColon s = All (λ c. c ≢ 58) s

-- The parts with ':' between them: an option as its user writes it.
unfoldable pub join_colon : Chars → List Chars → Chars
join_colon p [] = p
join_colon p (q ∷ qs) = p ++ 58 ∷ join_colon q qs

split_colon-part : (p : Chars) → NoColon p → split_colon p ≡ p ∷ []
unfolding split_colon push
split_colon-part [] h = refl
split_colon-part (c ∷ p) (hc, h) =
    let other : (c == 58) ≡ false = ground arith in rw (other, split_colon-part p h) refl

split_colon-first : (p s : Chars) → NoColon p → split_colon (p ++ 58 ∷ s) ≡ p ∷ split_colon s
unfolding split_colon push
split_colon-first [] s h = refl
split_colon-first (c ∷ p) s (hc, h) =
    let other : (c == 58) ≡ false = ground arith in rw (other, split_colon-first p s h) refl

pub split_colon-join_colon :
    (p : Chars) (ps : List Chars)
    → NoColon p
    → All NoColon ps
    → split_colon (join_colon p ps) ≡ p ∷ ps
unfolding join_colon
split_colon-join_colon p [] h hs = split_colon-part p h
split_colon-join_colon p (q ∷ qs) h (hq, hs) =
    rw (split_colon-first p (join_colon q qs) h, split_colon-join_colon q qs hq hs) refl
