-- ===== src/Packet/Encode.antt =====
-- bcap_packet2bytary of bcap_core/src/bcap_common.c against the layout of packets.
use denso_robot_ros.Prelude.{
  ℕ, zero, suc, ◌+◌, ◌-◌, ◌^◌, ◌≤◌, ◌<◌, ◌≡◌, refl, sym, ap, ◌∙◌, List, [], ◌∷◌, ◌++◌, append_assoc,
  length, length-append, length-replicate, set, drop, drop-drop, length-drop, replicate, true, ltb,
  leb, le→leb, lt→leb, leb→le, if◌then◌else◌, inl, inr, Bool-cases, arith,
}
use denso_robot_ros.Hresult.{Outcome, ok, failed, ◌>>=◌, >>=_assoc, e_invalidarg}
use denso_robot_ros.Bytes.{le_bytes}
use denso_robot_ros.Codec.Buffer.{Buffer, at, copy, copy-at, Written}
use denso_robot_ros.Codec.Date.{DateFloats}
use denso_robot_ros.Codec.Encode.{vntary2bytary}
use denso_robot_ros.Codec.Encode.Lengths.{Writes-args}
use denso_robot_ros.Codec.Wire.{wire_args}
use denso_robot_ros.Packet.{Packet, put_header, packet2bytary}
use denso_robot_ros.Packet.Wire.{
  wire_header, length-wire_header, wire_size, wire_packet, IsSendable,
}

-- A copy with no test in front appends its bytes where they fit.
record Appends (m : Buffer → Outcome Buffer) (w : List ℕ) : Type 0 where
  run :
      (pre rest : List ℕ)
      → length w ≤ length rest
      → length pre + length w < 2 ^ 32
      → m (at pre rest) ≡ ok (at (pre ++ w) (drop (length w) rest))

Appends-copy : (w : List ℕ) → Appends (copy w) w
Appends-copy w = record { run = copy-at w }

Appends-bind :
    (m k : Buffer → Outcome Buffer) (w u : List ℕ)
    → Appends m w
    → Appends k u
    → Appends (λ b. m b >>= k) (w ++ u)
Appends-bind m k w u hm hk = record {
  run = λ pre rest room small.
      let hp = length-append pre w in
      let hu = length-append w u in
      rw (hm.run pre rest (omega arith) (omega arith)) (
        hk.run (pre ++ w) (drop (length w) rest) (omega (arith, length-drop (length w) rest))
          (omega arith)
        ∙ rw (append_assoc pre w u, drop-drop (length u) (length w) rest, ← hu) refl);
}

Appends-header : (len : ℕ) (p : Packet) → Appends (put_header len p) (wire_header len p)
unfolding put_header wire_header
Appends-header len p = Appends-bind (copy (le_bytes 4 len)) _ _ _ (Appends-copy (le_bytes 4 len)) (
    Appends-bind (copy (le_bytes 2 p.serial)) _ _ _ (Appends-copy (le_bytes 2 p.serial)) (
      Appends-bind (copy (le_bytes 2 p.reserv)) _ _ _ (Appends-copy (le_bytes 2 p.reserv)) (
        Appends-bind (copy (le_bytes 4 p.id)) (copy (le_bytes 2 p.argc)) _ _
          (Appends-copy (le_bytes 4 p.id)) (Appends-copy (le_bytes 2 p.argc)))))

drop-zeros : (n m k : ℕ) → m - n ≡ k → drop n (replicate {A = ℕ} m 0) ≡ replicate k 0
drop-zeros zero m k h = let e : m ≡ k = omega arith in ap (λ j. replicate j 0) e
drop-zeros (suc n) zero k h = let e : 0 ≡ k = omega arith in ap (λ j. replicate j 0) e
drop-zeros (suc n) (suc m) k h = drop-zeros n m k (omega arith)

set_last-zeros : (k a : ℕ) → set (replicate (suc k) 0) k a ≡ replicate k 0 ++ a ∷ []
set_last-zeros zero a = refl
set_last-zeros (suc k) a = ap (◌∷◌ 0) (set_last-zeros k a)

set-append : (pre xs : List ℕ) (i a : ℕ) → set (pre ++ xs) (length pre + i) a ≡ pre ++ set xs i a
set-append [] xs i a = ap (λ k. set xs k a) (omega arith)
set-append (x ∷ pre) xs i a =
    let e : suc (length pre) + i ≡ suc (length pre + i) = omega arith in
    rw e (ap (◌∷◌ x) (set-append pre xs i a))

-- The terminator goes to the last byte of the buffer.
set_terminator :
    (pre : List ℕ) (len k : ℕ)
    → len ≡ length pre + suc k
    → set (pre ++ replicate (suc k) 0) (len - 1) 4 ≡ pre ++ (replicate k 0 ++ 4 ∷ [])
set_terminator pre len k h =
    let e : len - 1 ≡ length pre + k = omega arith in
    rw e (set-append pre (replicate (suc k) 0) k 4 ∙ ap (◌++◌ pre) (set_last-zeros k 4))

zeroed-at :
    (len : ℕ) → 1 ≤ len → set {A = ℕ} (replicate len 0) 0 1 ≡ (1 ∷ []) ++ replicate (len - 1) 0
zeroed-at zero h = absurd (omega arith)
zeroed-at (suc n) h = let e : n ≡ suc n - 1 = omega arith in ap (λ k. 1 ∷ replicate k 0) e

module _ (fl : DateFloats) (p : Packet) (len : ℕ) (small : len ≤ 2 ^ 31)
    (sendable : IsSendable p) where
  -- The header and the arguments, in a buffer with room for the header.
  body-at :
      16 ≤ len
      → (put_header len p (at (1 ∷ []) (replicate (len - 1) 0))
          >>= vntary2bytary fl (len - 1) p.args true p.argc)
        ≡ Written (len - 1) (wire_args fl p.args) (1 ∷ wire_header len p) (replicate (len - 15) 0)
  body-at h =
      let hh = length-wire_header len p in
      let zeros : drop (length (wire_header len p)) (replicate (len - 1) 0)
          ≡ replicate (len - 15) 0 =
        drop-zeros (length (wire_header len p)) (len - 1) (len - 15) (omega arith) in
      rw
        (
          (Appends-header len p).run (1 ∷ []) (replicate (len - 1) 0)
              (omega (arith, length-replicate {A = ℕ} (len - 1) 0)) (omega arith),
          zeros,
        )
        (ap
            (λ n.
              vntary2bytary fl (len - 1) p.args true n
                (at (1 ∷ wire_header len p) (replicate (len - 15) 0)))
            sendable.counted
          ∙ (Writes-args (len - 1) (omega arith) fl p.args sendable.encodable).run
              (1 ∷ wire_header len p) (replicate (len - 15) 0)
              (omega (arith, length-replicate {A = ℕ} (len - 15) 0)) (omega arith))

  finished :
      wire_size fl p ≤ len
      → set
          (((1 ∷ wire_header len p) ++ wire_args fl p.args)
            ++ drop (length (wire_args fl p.args)) (replicate (len - 15) 0))
          (len - 1)
          4
        ≡ wire_packet fl p len
  unfolding wire_size
  finished h =
      let args = wire_args fl p.args in
      let hh = length-wire_header len p in
      let k = len - wire_size fl p in
      let zeros : drop (length args) (replicate (len - 15) 0) ≡ replicate (suc k) 0 =
        drop-zeros (length args) (len - 15) (suc k) (omega arith) in
      rw zeros (
        unfold wire_packet in
        set_terminator ((1 ∷ wire_header len p) ++ args) len k
          (omega (arith, length-append (wire_header len p) args)))

  close : Buffer → Outcome (List ℕ)
  close b = ok (set b.bytes (len - 1) 4)

  closed :
      16 ≤ len
      → (Written (len - 1) (wire_args fl p.args) (1 ∷ wire_header len p) (replicate (len - 15) 0)
          >>= close)
        ≡ (if leb (wire_size fl p) len then ok (wire_packet fl p len) else failed e_invalidarg)
  unfolding close
  closed h =
      let args = wire_args fl p.args in
      let hh = length-wire_header len p in
      let size : wire_size fl p ≡ 16 + length args = unfold wire_size in refl in
      elim (Bool-cases (leb (wire_size fl p) len)) [
        | inl fits ↦
            rw
              (fits, le→leb (length (1 ∷ wire_header len p) + length args) (len - 1) (ground arith))
              (ap ok (finished (leb→le _ _ fits)))
        | inr over ↦
            rw
              (over, lt→leb (length (1 ∷ wire_header len p) + length args) (len - 1) (ground arith))
              refl
      ]

  with_header :
      16 ≤ len
      → (put_header len p (at (1 ∷ []) (replicate (len - 1) 0)) >>= λ b.
          vntary2bytary fl (len - 1) p.args true p.argc b >>= close)
        ≡ (if leb (wire_size fl p) len then ok (wire_packet fl p len) else failed e_invalidarg)
  with_header h =
      sym (
        >>=_assoc (put_header len p (at (1 ∷ []) (replicate (len - 1) 0)))
          (vntary2bytary fl (len - 1) p.args true p.argc) close)
      ∙ rw (body-at h) (closed h)

  -- In a buffer of `len` bytes, at most 2 ^ 31, bcap_packet2bytary writes the layout of a packet
  -- that can be sent, its zero padding and terminator included, and fails with E_INVALIDARG exactly
  -- if the buffer is smaller than the layout.
  pub packet2bytary-wire_packet :
      packet2bytary fl p len
      ≡ (if leb (wire_size fl p) len then ok (wire_packet fl p len) else failed e_invalidarg)
  unfolding packet2bytary
  packet2bytary-wire_packet = elim (Bool-cases (ltb len 16)) [
    | inl short ↦ rw (short, lt→leb (wire_size fl p) len (unfold wire_size in ground arith)) refl
    | inr long ↦
        rw (long, zeroed-at len (ground arith)) (unfold close in with_header (ground arith))
  ]
