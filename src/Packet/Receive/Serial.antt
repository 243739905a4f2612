-- ===== src/Packet/Receive/Serial.antt =====
-- bcap_recv of bcap_core/src/bcap_common.c on a serial line that gives the bytes in pieces.
use denso_robot_ros.Prelude.{
  ℕ, zero, suc, ◌-◌, ◌≤◌, ◌<◌, ◌≡◌, refl, ap, sym, ◌∙◌, subst, some, List, [], ◌∷◌, ◌++◌,
  append_assoc, append-nil, length, length-append, length-take, take, take-all, take-drop, drop,
  Bool, true, false, leb, leb_false→lt, leb→le, Bool-cases, inl, inr, arith,
}
use denso_robot_ros.Hresult.{ok, s_ok}
use denso_robot_ros.Device.{conn_com}
use denso_robot_ros.Robotalk.Receive.{Peer}
use denso_robot_ros.Codec.Date.{DateFloats}
use denso_robot_ros.Packet.{Packet}
use denso_robot_ros.Packet.Decode.{Room}
use denso_robot_ros.Packet.RoundTrip.{received_packet}
use denso_robot_ros.Packet.Send.{Common}
use denso_robot_ros.Packet.OnLine.{on_line}
use denso_robot_ros.Packet.Receive.{
  Recv, len_of, seek, skip, gather, fill, first_bytes, rounds, check_recv_param, bcap_recv,
}
use denso_robot_ros.Packet.Receive.Whole.{
  len_min-line_size, len_of-append, line_size, length-on_line, len_of-on_line, IsWelcome,
  gathered-on_line, bcap_recv-round,
}

-- A device that gives the bytes on their way in their order: at least one, if one is on its way,
-- and at most as many as are asked for.
pub record GivesPieces {W : Type 0} (dn_recv : Recv W) (pending : W → List ℕ) : Type 0 where
  pub size : ℕ → W → ℕ
  pub size_pos : (n : ℕ) (w : W) → 0 < n → 0 < length (pending w) → 0 < size n w
  pub size_le : (n : ℕ) (w : W) → size n w ≤ n
  pub hr : (n : ℕ) (w : W) → 0 < length (pending w) → (dn_recv false n w).hr ≡ s_ok
  pub bytes :
      (n : ℕ) (w : W)
      → 0 < length (pending w)
      → (dn_recv false n w).bytes ≡ take (size n w) (pending w)
  pub rest :
      (n : ℕ) (w : W)
      → 0 < length (pending w)
      → pending (dn_recv false n w).world ≡ drop (size n w) (pending w)

nothing_left :
    (xs whole ys : List ℕ) → xs ++ ys ≡ whole → length whole ≤ length xs → (xs ≡ whole) × (ys ≡ [])
nothing_left xs whole [] e h = (sym (append-nil xs) ∙ e, refl)
nothing_left xs whole (y ∷ ys) e h = absurd (omega (arith, ap length e, length-append xs (y ∷ ys)))

-- What is at hand begins with the header.
seek-prefix : (bytes ys r : List ℕ) → bytes ++ ys ≡ 1 ∷ r → seek bytes ≡ bytes
unfolding seek
seek-prefix [] ys r e = refl
seek-prefix (b ∷ bytes) ys r e = let one : b ≡ 1 = cc in rw one refl

module _ {W : Type 0} (dn_recv : Recv W) (pending : W → List ℕ)
    (device : GivesPieces dn_recv pending) (client : Bool) (peer : Peer) where
  -- What is at hand and what is on its way make up `whole`, before and after a call.
  piece :
      (n : ℕ) (bytes whole : List ℕ) (w : W)
      → 0 < n
      → bytes ++ pending w ≡ whole
      → length bytes < length whole
      → ((bytes ++ (dn_recv false n w).bytes) ++ pending (dn_recv false n w).world ≡ whole)
        × (length bytes < length (bytes ++ (dn_recv false n w).bytes))
        × ((dn_recv false n w).hr ≡ s_ok)
  piece n bytes whole w pos split short =
      let more : 0 < length (pending w) =
        omega (arith, ap length split, length-append bytes (pending w)) in
      let k = device.size n w in
      let got = device.bytes n w more in
      (
        rw
            (
              got,
              device.rest n w more,
              append_assoc bytes (take k (pending w)) (drop k (pending w)),
              take-drop k (pending w),
            )
            split,
        rw got (
            omega (
              arith,
              length-append bytes (take k (pending w)),
              length-take k (pending w),
              device.size_pos n w pos more,
            )),
        device.hr n w more,
      )

  -- `while (len_recv > len_recved)` brings the whole.
  fill-pieces :
      (fuel : ℕ) (bytes whole : List ℕ) (w : W)
      → bytes ++ pending w ≡ whole
      → length whole - length bytes < fuel
      → (w' : W) × (fill dn_recv conn_com client fuel s_ok (length whole) peer bytes w
          ≡ ok (record { hr = s_ok; bytes = whole; peer = peer; world = w' }))
        × (pending w' ≡ [])
  unfolding fill
  fill-pieces zero bytes whole w split enough = elim enough [ ]
  fill-pieces (suc fuel) bytes whole w split enough =
      elim (Bool-cases (leb (length whole) (length bytes))) [
        | inl complete ↦
            let (same, empty) = nothing_left bytes whole (pending w) split (leb→le _ _ complete) in
            (w, rw (complete, same) refl, empty)
        | inr partial ↦
            let n = length whole - length bytes in
            let short = leb_false→lt (length whole) (length bytes) partial in
            let (split', grows, good) = piece n bytes whole w (omega arith) split short in
            let (w', run, empty) =
              fill-pieces fuel (bytes ++ (dn_recv false n w).bytes) whole (dn_recv false n w).world
                split' (omega arith) in
            (w', rw (partial, good) run, empty)
      ]

  -- The inner `while (1)` brings the header and the length.
  gather-pieces :
      (fuel : ℕ) (bytes r : List ℕ) (w : W)
      → bytes ++ pending w ≡ 1 ∷ r
      → 5 ≤ length (1 ∷ r)
      → length (1 ∷ r) ≤ 503
      → 5 - length bytes < fuel
      → (b : List ℕ) × (w' : W) × (gather dn_recv conn_com client fuel s_ok peer bytes w
          ≡ ok (record { hr = s_ok; bytes = b; peer = peer; world = w' }))
        × (b ++ pending w' ≡ 1 ∷ r)
        × (5 ≤ length b)
  unfolding gather skip
  gather-pieces zero bytes r w split long short enough = elim enough [ ]
  gather-pieces (suc fuel) bytes r w split long short enough =
      let front = seek-prefix bytes (pending w) r split in
      elim (Bool-cases (leb 5 (length bytes))) [
        | inl complete ↦ (bytes, w, rw (front, complete) refl, split, leb→le _ _ complete)
        | inr partial ↦
            let few = leb_false→lt 5 (length bytes) partial in
            let n = 503 - length bytes in
            let (split', grows, good) = piece n bytes (1 ∷ r) w (omega arith) split (omega arith) in
            let (b, w', run, split'', reached) =
              gather-pieces fuel (bytes ++ (dn_recv false n w).bytes) r (dn_recv false n w).world
                split' long short (omega arith) in
            (b, w', rw (front, partial, good) run, split'', reached)
      ]

abbrev pub serial_device : ℕ → Bool → Bool → Common
serial_device sock has_arg has_send = record {
  sock = sock;
  type = conn_com;
  has_arg = has_arg;
  has_send = has_send;
}

-- bcap_recv on a serial line gives the packet that bcap_send has put on it, in whatever pieces the
-- bytes arrive, and takes all of them: at least one byte comes with each call of dn_recv, and no
-- more than are asked for. The packet can be sent and is within the largest size, there is room and
-- memory for it, and the fuel is above its length.
pub bcap_recv-serial :
    {W : Type 0} (fl : DateFloats) (malloc : ℕ → Bool) (contents : ℕ → List ℕ) (dn_recv : Recv W)
    (sock : ℕ) (has_arg has_send client : Bool) (fuel addr : ℕ) (p : Packet) (room : Room)
    (pending : W → List ℕ) (w : W)
    → check_recv_param (serial_device sock has_arg has_send) true ≡ s_ok
    → GivesPieces dn_recv pending
    → IsWelcome fl malloc p room
    → line_size fl p conn_com ≤ 503
    → line_size fl p conn_com < fuel
    → pending w ≡ on_line fl p conn_com
    → (w' : W) × (bcap_recv fl malloc contents dn_recv
          (serial_device sock has_arg has_send)
          true
          client
          fuel
          room
          addr
          w
        ≡ ok (record {
          hr = s_ok;
          packet = some (received_packet fl p);
          peer = record { addr = addr; flag_init = false };
          world = w';
        }))
      × (pending w' ≡ [])
bcap_recv-serial fl malloc contents dn_recv sock has_arg has_send client zero addr p room pending w
      checks gives welcome fits enough sent =
    elim enough [ ]
bcap_recv-serial fl malloc contents dn_recv sock has_arg has_send client (suc fuel) addr p room
      pending w checks gives welcome fits enough sent =
    let size = length-on_line fl p conn_com in
    let peer : Peer = record { addr = addr; flag_init = false } in
    let whole = on_line fl p conn_com in
    let n = line_size fl p conn_com in
    let (b, w1, gathers, split, reached) =
      gather-pieces dn_recv pending gives client peer (suc fuel) [] (drop 1 whole) w sent
        (omega (arith, size, len_min-line_size fl p conn_com)) (omega (arith, size, fits))
        (omega (arith, enough, len_min-line_size fl p conn_com)) in
    let short : length b ≤ n = omega (arith, ap length split, length-append b (pending w1), size) in
    let (w2, fills, empty) =
      fill-pieces dn_recv pending gives client peer (suc fuel) b whole w1 split
        (omega (arith, size, enough)) in
    let len : len_of b ≡ n =
      sym (len_of-append b (pending w1) reached)
      ∙ ap len_of split
      ∙ len_of-on_line fl p conn_com (omega (arith, fits)) in
    let starts : first_bytes fl malloc contents dn_recv conn_com client (suc fuel) n b w1
        ≡ (b, w1) =
      unfold first_bytes in ap (λ l. (l, w1)) (take-all n b short) in
    let fills' =
      subst
        (λ k.
          fill dn_recv conn_com client (suc fuel) s_ok k peer b w1
          ≡ ok (record { hr = s_ok; bytes = whole; peer = peer; world = w2 }))
        size fills in
    let result =
      gathered-on_line fl malloc contents dn_recv conn_com client (suc fuel) p room welcome
        (rounds fl malloc contents dn_recv conn_com client (suc fuel) fuel) peer w2 w1 w1 b b fits
        len starts fills' in
    (
      w2,
      bcap_recv-round fl malloc contents dn_recv (serial_device sock has_arg has_send) client fuel
            addr room w _ checks refl gathers
          ∙ result,
      empty,
    )
