-- ===== src/Codec/Decode/Loops.antt =====
-- The loops of the decoder of bcap_core/src/bcap_common.c, on the bytes of the coder.
use denso_robot_ros.Prelude.{
  ℕ, suc, ◌+◌, ◌*◌, ◌/◌, ◌%◌, ◌^◌, ◌≤◌, ◌<◌, ◌≡◌, ap, subst, List, [], ◌∷◌, append-nil, length,
  length-take, map, take, Option, some, Bool, true, le→ltb, le→leb, arith, All,
}
use mathlib.Core.Path.{fun_ext}
use denso_robot_ros.Hresult.{Hresult, ok, ◌>>=◌}
use denso_robot_ros.Bytes.{
  le_bytes, from_le, le_bytes_all, length-le_bytes_all, from_le-le_bytes_2, from_le-le_bytes_4,
}
use denso_robot_ros.Variant.{Bstr, sys_string_len, chars}
use denso_robot_ros.Variant.Alloc.{sys_alloc_string_len}
use denso_robot_ros.Codec.Encode.{same}
use denso_robot_ros.Codec.Encode.Appends.{sys_string_len-le}
use denso_robot_ros.Codec.Wire.{wire_bstr, wire_bstrs}
use denso_robot_ros.Codec.Reader.{
  Read, fetch, get_le, Reads, fetch-at, Reads-get_le, Reads-ok, Reads-bind,
}
use denso_robot_ros.Codec.Decode.{inside, get_elems, get_bytes, or_fail, get_bstr, get_bstrs}
use denso_robot_ros.Codec.Received.{low_half, received_bstr, IsShort}

pub next_round : (i n size cap : ℕ) → (i + suc n) * size ≤ cap → (suc i + n) * size ≤ cap
next_round i n size cap h = let e : suc i + n ≡ i + suc n = omega arith in rw e h

pub this_round : (i n size cap : ℕ) → (i + suc n) * size ≤ cap → i * size + size ≤ cap
this_round i n size cap h = grind arith

abbrev pub read_back : ℕ → (ℕ → ℕ) → ℕ → ℕ
read_back size f x = f (from_le (le_bytes size x))

module _ (src : List ℕ) (len : ℕ) (in_src : len ≤ length src) (small : len ≤ 2 ^ 31) where
  -- The result goes through a function, or the step in front of the read succeeds.
  pub Reads-map {ℓ κ} :
      {A : Type ℓ} {B : Type κ} (m : Read A) (g : A → B) (w : List ℕ) (a : A)
      → Reads src len m w a
      → Reads src len (λ off. m off >>= λ r. ok (g r.0, r.1)) w (g a)
  Reads-map m g w a h = rw (append-nil w) at (
      Reads-bind src len in_src small m (λ x off. ok (g x, off)) w [] a (g a) h
        (Reads-ok src len in_src small (g a)))

  pub Reads-inside {ℓ} :
      {A : Type ℓ} (m : Read A) (cap pos size : ℕ) (w : List ℕ) (a : A)
      → pos + size ≤ cap
      → Reads src len m w a
      → Reads src len (λ off. inside cap pos size >>= λ _. m off) w a
  Reads-inside m cap pos size w a fits h = rw (le→leb (pos + size) cap fits) h

  pub Reads-or_fail {ℓ} :
      {A : Type ℓ} (k : ℕ → Read A) (hr : Hresult) (o : Option ℕ) (n : ℕ) (w : List ℕ) (a : A)
      → o ≡ some n
      → Reads src len (k n) w a
      → Reads src len (λ off. or_fail hr o >>= λ s. k s off) w a
  Reads-or_fail k hr o n w a e h = rw e h

  pub Reads-get_elems :
      (cap size : ℕ) (f : ℕ → ℕ) (i : ℕ) (xs : List ℕ)
      → (i + length xs) * size ≤ cap
      → Reads src len
          (get_elems src len cap size f i (length xs))
          (le_bytes_all size xs)
          (map (read_back size f) xs)
  unfolding get_elems le_bytes_all
  Reads-get_elems cap size f i [] room = Reads-ok src len in_src small []
  Reads-get_elems cap size f i (x ∷ xs) room =
      Reads-bind src len in_src small (get_le src len size) _ (le_bytes size x)
        (le_bytes_all size xs) (from_le (le_bytes size x)) _
        (Reads-get_le src len in_src small size x)
        (Reads-inside _ cap (i * size) size _ _ (this_round i (length xs) size cap room) (
          Reads-map (get_elems src len cap size f (suc i) (length xs))
            (λ ys. read_back size f x ∷ ys) _ _
            (Reads-get_elems cap size f (suc i) xs (next_round i (length xs) size cap room))))

  -- One memcpy of the bytes of a VT_UI1 array.
  pub Reads-get_bytes :
      (cap : ℕ) (xs : List ℕ)
      → length xs ≤ cap
      → Reads src len (get_bytes src len cap (length xs)) (le_bytes_all 1 xs) (le_bytes_all 1 xs)
  unfolding get_bytes
  Reads-get_bytes cap xs room = record {
    run = λ off post e h.
        let w = le_bytes_all 1 xs in
        let hw : length w ≡ length xs = omega (arith, length-le_bytes_all 1 xs) in
        let got : fetch src (length xs) off ≡ ok (w, off + length w) =
          subst (λ n. fetch src n off ≡ ok (w, off + length w)) hw
            (fetch-at src len in_src small w off post e h) in
        rw
          (
            le→ltb len ((off + length xs) % 2 ^ 32) (omega arith),
            le→leb (0 + length xs) cap (omega arith),
          )
          got;
  }

  module _ (malloc : ℕ → Bool) (memory : (n : ℕ) → malloc n ≡ true) where
    sys_alloc_string_len-short : (n : ℕ) → n < 0x3fff → sys_alloc_string_len malloc n ≡ some (n + 1)
    unfolding sys_alloc_string_len
    sys_alloc_string_len-short n h =
        rw (memory (4 * (n % 2 ^ 16 + 1) % 2 ^ 16)) (ap some (omega arith))

    pub Reads-get_bstr :
        (s : Bstr)
        → IsShort s
        → Reads src len (get_bstr malloc src len) (wire_bstr s) (received_bstr s)
    unfolding get_bstr wire_bstr received_bstr
    Reads-get_bstr s h =
        let n = sys_string_len s in
        let cs = take n (chars s) in
        let count : length cs ≡ n = omega (arith, length-take n (chars s), sys_string_len-le s) in
        let half : from_le (le_bytes 4 (2 * n)) / 2 ≡ n =
          omega (arith, from_le-le_bytes_4 (2 * n)) in
        let back : map (read_back 2 same) cs ≡ map low_half cs =
          ap (λ g. map g cs) (fun_ext from_le-le_bytes_2) in
        Reads-bind src len in_src small (get_le src len 4) _ (le_bytes 4 (2 * n))
          (le_bytes_all 2 cs) (from_le (le_bytes 4 (2 * n))) _
          (Reads-get_le src len in_src small 4 (2 * n))
          (rw half (
            Reads-or_fail _ _ (sys_alloc_string_len malloc n) (n + 1) _ _
              (sys_alloc_string_len-short n h)
              (Reads-map (get_elems src len (2 * (n + 1)) 2 same 0 n) some _ _ (
                subst
                  (λ k.
                    Reads src len (get_elems src len (2 * (n + 1)) 2 same 0 k) (le_bytes_all 2 cs)
                      (map low_half cs))
                  count (rw back at (Reads-get_elems (2 * (n + 1)) 2 same 0 cs (omega arith)))))))

    pub Reads-get_bstrs :
        (cap i : ℕ) (ss : List Bstr)
        → All IsShort ss
        → (i + length ss) * 8 ≤ cap
        → Reads src len
            (get_bstrs malloc src len cap i (length ss))
            (wire_bstrs ss)
            (map received_bstr ss)
    unfolding get_bstrs wire_bstrs
    Reads-get_bstrs cap i [] h room = Reads-ok src len in_src small []
    Reads-get_bstrs cap i (s ∷ ss) h room =
        Reads-bind src len in_src small (get_bstr malloc src len) _ (wire_bstr s) (wire_bstrs ss)
          (received_bstr s) _ (Reads-get_bstr s h.0)
          (Reads-inside _ cap (i * 8) 8 _ _ (this_round i (length ss) 8 cap room) (
            Reads-map (get_bstrs malloc src len cap (suc i) (length ss)) (λ r. received_bstr s ∷ r)
              _ _ (Reads-get_bstrs cap (suc i) ss h.1 (next_round i (length ss) 8 cap room))))
