-- ===== src/Packet/Receive/Looks.antt =====
-- The inner loop of bcap_recv of bcap_core/src/bcap_common.c over TCP, where it looks at the bytes
-- before it takes them.
use denso_robot_ros.Prelude.{
  ℕ, zero, suc, ◌+◌, ◌-◌, ◌≤◌, ◌<◌, ◌≡◌, ◌≢◌, refl, ap, ◌∙◌, List, [], ◌∷◌, ◌++◌, length,
  length-append, length-take, length-drop, take, drop, All, Bool, true, false, leb, leb_false→lt,
  ne→==, leb→le, Bool-cases, inl, inr, arith,
}
use denso_robot_ros.Hresult.{ok, s_ok}
use denso_robot_ros.Device.{conn_tcp}
use denso_robot_ros.Robotalk.Receive.{Peer}
use denso_robot_ros.Packet.Receive.{Recv, seek, at_front, skip, gather}

-- A stream whose bytes have arrived: MSG_PEEK leaves them there.
pub record IsStream {W : Type 0} (dn_recv : Recv W) (pending : W → List ℕ) : Type 0 where
  pub hr :
      (peek : Bool) (n : ℕ) (w : W) → 0 < n → 0 < length (pending w) → (dn_recv peek n w).hr ≡ s_ok
  pub bytes :
      (peek : Bool) (n : ℕ) (w : W)
      → 0 < n
      → 0 < length (pending w)
      → (dn_recv peek n w).bytes ≡ take n (pending w)
  pub peeked : (n : ℕ) (w : W) → pending (dn_recv true n w).world ≡ pending w
  pub taken : (n : ℕ) (w : W) → pending (dn_recv false n w).world ≡ drop n (pending w)

-- Bytes among which there is no header.
abbrev pub IsNoise : List ℕ → Type 0
IsNoise noise = All (λ b. b ≢ 1) noise

seek-noise : (noise ys : List ℕ) → IsNoise noise → seek (noise ++ ys) ≡ seek ys
unfolding seek
seek-noise [] ys h = refl
seek-noise (b ∷ noise) ys (h, rest) = rw (ne→== b 1 h) (seek-noise noise ys rest)

IsNoise-take : (n : ℕ) (noise : List ℕ) → IsNoise noise → IsNoise (take n noise)
IsNoise-take zero noise h = tt
IsNoise-take (suc n) [] h = tt
IsNoise-take (suc n) (b ∷ noise) (h, rest) = (h, IsNoise-take n noise rest)

IsNoise-drop : (n : ℕ) (noise : List ℕ) → IsNoise noise → IsNoise (drop n noise)
IsNoise-drop zero noise h = h
IsNoise-drop (suc n) [] h = tt
IsNoise-drop (suc n) (b ∷ noise) (h, rest) = IsNoise-drop n noise rest

take-append {ℓ} :
    {A : Type ℓ} (n : ℕ) (xs ys : List A) → take n (xs ++ ys) ≡ take n xs ++ take (n - length xs) ys
take-append zero [] ys = refl
take-append zero (x ∷ xs) ys = let e : zero - suc (length xs) ≡ 0 = omega arith in rw e refl
take-append (suc n) [] ys = let e : suc n - 0 ≡ suc n = omega arith in rw e refl
take-append (suc n) (x ∷ xs) ys =
    let e : suc n - suc (length xs) ≡ n - length xs = omega arith in
    rw e (ap (◌∷◌ x) (take-append n xs ys))

drop-taken {ℓ} :
    {A : Type ℓ} (n : ℕ) (xs ys : List A) → drop (length (take n xs)) (xs ++ ys) ≡ drop n xs ++ ys
drop-taken zero xs ys = refl
drop-taken (suc n) [] ys = refl
drop-taken (suc n) (x ∷ xs) ys = drop-taken n xs ys

seek-header : (n : ℕ) (r : List ℕ) → seek (take n (1 ∷ r)) ≡ take n (1 ∷ r)
unfolding seek
seek-header zero r = refl
seek-header (suc n) r = refl

drop-beyond {ℓ} : {A : Type ℓ} (n : ℕ) (xs : List A) → length xs ≤ n → drop n xs ≡ []
drop-beyond zero [] h = refl
drop-beyond zero (x ∷ xs) h = elim h [ ]
drop-beyond (suc n) [] h = refl
drop-beyond (suc n) (x ∷ xs) h = drop-beyond n xs (omega arith)

-- What one look shows.
abbrev seen : List ℕ → List ℕ → List ℕ
seen noise r = take 503 (noise ++ 1 ∷ r)

module _ (noise r : List ℕ) (quiet : IsNoise noise) where
  seek-seen : seek (seen noise r) ≡ take (503 - length noise) (1 ∷ r)
  seek-seen =
      ap seek (take-append 503 noise (1 ∷ r))
      ∙ seek-noise (take 503 noise) _ (IsNoise-take 503 noise quiet)
      ∙ seek-header (503 - length noise) r

  skipped : length (seen noise r) - length (seek (seen noise r)) ≡ length (take 503 noise)
  skipped = omega (
    arith,
    ap length seek-seen,
    ap length (take-append 503 noise (1 ∷ r)),
    length-append (take 503 noise) (take (503 - length noise) (1 ∷ r)),
  )

module _ {W : Type 0} (dn_recv : Recv W) (pending : W → List ℕ) (stream : IsStream dn_recv pending)
    (client : Bool) (peer : Peer) where
  skip-behind :
      (bytes : List ℕ) (w : W)
      → at_front bytes ≡ false
      → skip dn_recv conn_tcp client bytes w
        ≡ (dn_recv false (length bytes - length (seek bytes)) w).world
  unfolding skip
  skip-behind bytes w behind = rw behind refl

  skip-seen :
      (noise r : List ℕ) (w : W)
      → IsNoise noise
      → pending w ≡ noise ++ 1 ∷ r
      → pending (skip dn_recv conn_tcp client (seen noise r) w) ≡ drop 503 noise ++ 1 ∷ r
  skip-seen [] r w quiet there = unfold skip in there
  skip-seen (b ∷ noise) r w (h, quiet) there =
      let n = length (seen (b ∷ noise) r) - length (seek (seen (b ∷ noise) r)) in
      ap pending (skip-behind (seen (b ∷ noise) r) w (ne→== b 1 h))
      ∙ stream.taken n w
      ∙ ap (drop n) there
      ∙ ap (λ k. drop k ((b ∷ noise) ++ 1 ∷ r)) (skipped (b ∷ noise) r (h, quiet))
      ∙ drop-taken 503 (b ∷ noise) (1 ∷ r)

  -- A round that has no header with a length, and looks again.
  gather-look :
      (fuel : ℕ) (bytes b next : List ℕ) (w : W)
      → let w1 = skip dn_recv conn_tcp client bytes w in
        seek bytes ≡ b
        → leb 5 (length b) ≡ false
        → (dn_recv true 503 w1).hr ≡ s_ok
        → (dn_recv true 503 w1).bytes ≡ next
        → gather dn_recv conn_tcp client (suc fuel) s_ok peer bytes w
          ≡ gather dn_recv conn_tcp client fuel s_ok peer next (dn_recv true 503 w1).world
  unfolding gather
  gather-look fuel bytes b next w front short good look = rw (front, short, good, look) refl

  -- From a look at the stream on, the header is found, and everything in front of it is taken.
  gather-seen :
      (fuel : ℕ) (noise r : List ℕ) (w : W)
      → IsNoise noise
      → pending w ≡ noise ++ 1 ∷ r
      → 5 ≤ length (1 ∷ r)
      → length noise + 1 < fuel
      → (k : ℕ) × (w' : W) × (gather dn_recv conn_tcp client fuel s_ok peer (seen noise r) w
          ≡ ok (record { hr = s_ok; bytes = take k (1 ∷ r); peer = peer; world = w' }))
        × (pending w' ≡ 1 ∷ r)
        × (5 ≤ k)
  unfolding gather
  gather-seen zero noise r w quiet there long enough = elim enough [ ]
  gather-seen (suc fuel) noise r w quiet there long enough =
      let front = seek-seen noise r quiet in
      let w1 = skip dn_recv conn_tcp client (seen noise r) w in
      let there1 = skip-seen noise r w quiet there in
      let k = 503 - length noise in
      elim (Bool-cases (leb 5 (length (take k (1 ∷ r))))) [
        | inl found ↦
            let five = leb→le 5 (length (take k (1 ∷ r))) found in
            let few : 5 ≤ k = omega (arith, length-take k (1 ∷ r)) in
            let gone : drop 503 noise ≡ [] = drop-beyond 503 noise (omega (arith, few)) in
            (k, w1, rw (front, found) refl, there1 ∙ ap (λ l. l ++ 1 ∷ r) gone, few)
        | inr short ↦
            let more : 0 < length (pending w1) =
              omega (arith, ap length there1, length-append (drop 503 noise) (1 ∷ r)) in
            let good = stream.hr true 503 w1 (omega arith) more in
            let look = stream.bytes true 503 w1 (omega arith) more ∙ ap (take 503) there1 in
            let there2 = stream.peeked 503 w1 ∙ there1 in
            let shrinks : length (drop 503 noise) + 1 < fuel = omega (
              arith,
              length-drop 503 noise,
              length-take k (1 ∷ r),
              leb_false→lt 5 (length (take k (1 ∷ r))) short,
            ) in
            let (k', w', run, at_header, five) =
              gather-seen fuel (drop 503 noise) r (dn_recv true 503 w1).world
                (IsNoise-drop 503 noise quiet) there2 long shrinks in
            (
              k',
              w',
              gather-look fuel (seen noise r) (take k (1 ∷ r)) (seen (drop 503 noise) r) w front
                    short good look
                  ∙ run,
              at_header,
              five,
            )
      ]

  -- From the start on.
  pub gather-stream :
      (fuel : ℕ) (noise r : List ℕ) (w : W)
      → IsNoise noise
      → pending w ≡ noise ++ 1 ∷ r
      → 5 ≤ length (1 ∷ r)
      → length noise + 1 < fuel
      → (k : ℕ) × (w' : W) × (gather dn_recv conn_tcp client (suc fuel) s_ok peer [] w
          ≡ ok (record { hr = s_ok; bytes = take k (1 ∷ r); peer = peer; world = w' }))
        × (pending w' ≡ 1 ∷ r)
        × (5 ≤ k)
  gather-stream fuel noise r w quiet there long enough =
      let w1 = skip dn_recv conn_tcp client [] w in
      let same : w1 ≡ (dn_recv false 0 w).world = unfold skip seek in refl in
      let there1 = ap pending same ∙ stream.taken 0 w ∙ there in
      let more : 0 < length (pending w1) =
        omega (arith, ap length there1, length-append noise (1 ∷ r)) in
      let good = stream.hr true 503 w1 (omega arith) more in
      let look = stream.bytes true 503 w1 (omega arith) more ∙ ap (take 503) there1 in
      let (k, w', run, at_header, five) =
        gather-seen fuel noise r (dn_recv true 503 w1).world quiet (stream.peeked 503 w1 ∙ there1)
          long enough in
      (
        k,
        w',
        gather-look fuel [] [] (seen noise r) w (unfold seek in refl) refl good look ∙ run,
        at_header,
        five,
      )
