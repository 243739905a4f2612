-- ===== src/Packet/RoundTrip.antt =====
-- The parts of bcap_bytary2packet, bcap_core/src/bcap_common.c, on the bytes of a packet.
use denso_robot_ros.Prelude.{
  ℕ, suc, ◌+◌, ◌-◌, ◌*◌, ◌^◌, ◌≤◌, ◌<◌, ◌≡◌, refl, sym, ap, ◌∙◌, subst, List, [], ◌∷◌, ◌++◌, length,
  drop, drop-drop, drop-append_self, Bool, true, false, ◌==◌, inl, inr, Bool-cases, arith,
}
use denso_robot_ros.Hresult.{ok}
use denso_robot_ros.Bytes.{
  le_bytes, from_le, length-le_bytes, from_le-le_bytes_2, from_le-le_bytes_4,
}
use denso_robot_ros.Variant.{Variants, nil, cons, count_variants}
use denso_robot_ros.Codec.Date.{DateFloats}
use denso_robot_ros.Codec.Wire.{wire_args}
use denso_robot_ros.Codec.Reader.{fetch, Reads, fetch-at}
use denso_robot_ros.Codec.Decode.{bytary2vntary, bytary2vnt}
use denso_robot_ros.Codec.Decode.Args.{Reads-args}
use denso_robot_ros.Codec.Received.{received_all, AllDecodable, depth_all}
use denso_robot_ros.Packet.{Packet}
use denso_robot_ros.Packet.Decode.{
  Room, get_field, byte_at, accept_argc, args_block, get_args, get_body,
}

-- The fields lie in the ranges of their C types.
pub record IsPacket (p : Packet) : Type 0 where
  pub serial_lt : p.serial < 2 ^ 16
  pub reserv_lt : p.reserv < 2 ^ 16
  pub id_lt : p.id < 2 ^ 32
  pub argc_lt : p.argc < 2 ^ 16

-- The packet with its arguments as they arrive.
abbrev pub received_packet : DateFloats → Packet → Packet
received_packet fl p = record p { args = received_all fl p.args }

accept_room :
    (room : Room) (n : ℕ)
    → accept_argc room n ≡ ok n
    → n < 2 ^ 16
    → (room.has_args ≡ true → n ≤ room.argc)
unfolding accept_argc
accept_room room n h lt has = ground arith

pub byte_at-last : (xs : List ℕ) (a : ℕ) → byte_at (xs ++ a ∷ []) (length xs) ≡ ok a
byte_at-last [] a = refl
byte_at-last (x ∷ xs) a = byte_at-last xs a

pub behind :
    (src : List ℕ) (off : ℕ) (w post : List ℕ)
    → drop off src ≡ w ++ post
    → drop (off + length w) src ≡ post
behind src off w post e = sym (drop-drop (length w) off src) ∙ rw e (drop-append_self w post)

module _ (fl : DateFloats) (malloc : ℕ → Bool) (memory : (n : ℕ) → malloc n ≡ true) (src : List ℕ)
    (len : ℕ) (in_src : len ≤ length src) (small : len ≤ 2 ^ 31) where
  pub Reads-field :
      (size v n : ℕ)
      → from_le (le_bytes size v) ≡ n
      → Reads src len (get_field src size) (le_bytes size v) n
  unfolding get_field
  Reads-field size v n e = record {
    run = λ off post behind fits.
        let w = le_bytes size v in
        let hw = length-le_bytes size v in
        let got : fetch src size off ≡ ok (w, off + length w) =
          subst (λ k. fetch src k off ≡ ok (w, off + length w)) hw
            (fetch-at src len in_src small w off post behind fits) in
        rw got (ap (λ k. ok (k, off + length w)) e);
  }

  module _ (p : Packet) (room : Room) (is : IsPacket p) (decodable : AllDecodable p.args)
      (counted : p.argc ≡ count_variants p.args)
      (accepted : accept_argc room p.argc ≡ ok p.argc) where
    block_fits :
        (b : Bool)
        → room.has_args ≡ b
        → (cap : ℕ) × (args_block malloc room p.argc ≡ ok cap) × (p.argc * 16 ≤ cap)
    unfolding args_block
    block_fits true e =
        (16 * room.argc, rw e refl, omega (arith, accept_room room p.argc accepted is.argc_lt e))
    block_fits false e = (16 * p.argc, rw (e, memory (16 * p.argc)) refl, omega arith)

    get_args-at :
        (full fuel off : ℕ) (post : List ℕ)
        → full - 1 ≡ len
        → depth_all p.args ≤ fuel
        → drop off src ≡ wire_args fl p.args ++ post
        → off + length (wire_args fl p.args) ≤ len
        → get_args fl malloc (suc fuel) src full room p.argc off ≡ ok (received_all fl p.args)
    unfolding get_args
    get_args-at full fuel off post hl hd behind fits = elim (Bool-cases (p.argc == 0)) [
      | inl none_sent ↦ rw none_sent (ap ok (no_args p.args (ground arith)))
      | inr some_sent ↦
          let (room_for, got, enough) = block_fits room.has_args refl in
          let read : bytary2vntary (bytary2vnt fl malloc (suc fuel) src len) src len room_for true 0
                p.argc off
              ≡ ok (received_all fl p.args, off + length (wire_args fl p.args)) =
            ap
              (λ n.
                bytary2vntary (bytary2vnt fl malloc (suc fuel) src len) src len room_for true 0 n
                  off)
              counted
            ∙ (Reads-args fl malloc memory src len in_src small p.args fuel room_for 0 decodable hd
                  (omega arith)).run
                off post behind fits in
          rw (some_sent, got, hl, read) refl
    ]
      where
        no_args : (vs : Variants) → count_variants vs ≡ 0 → nil ≡ received_all fl vs
        no_args nil e = unfold received_all in refl
        no_args (cons v vs) e = absurd (unfold count_variants in omega arith)

    pub get_body-at :
        (full fuel off : ℕ) (post : List ℕ)
        → full - 1 ≡ len
        → depth_all p.args ≤ fuel
        → drop off src
          ≡ le_bytes 2 p.serial
            ++ (le_bytes 2 p.reserv
                ++ (le_bytes 4 p.id ++ (le_bytes 2 p.argc ++ (wire_args fl p.args ++ post))))
        → off + 10 + length (wire_args fl p.args) ≤ len
        → get_body fl malloc (suc fuel) src full room off ≡ ok (received_packet fl p)
    unfolding get_body
    get_body-at full fuel off post hl hd b0 fits =
        let l1 = length-le_bytes 2 p.serial in
        let l2 = length-le_bytes 2 p.reserv in
        let l3 = length-le_bytes 4 p.id in
        let l4 = length-le_bytes 2 p.argc in
        let b1 = behind src off (le_bytes 2 p.serial) _ b0 in
        let o1 = off + length (le_bytes 2 p.serial) in
        let b2 = behind src o1 (le_bytes 2 p.reserv) _ b1 in
        let o2 = o1 + length (le_bytes 2 p.reserv) in
        let b3 = behind src o2 (le_bytes 4 p.id) _ b2 in
        let o3 = o2 + length (le_bytes 4 p.id) in
        let b4 = behind src o3 (le_bytes 2 p.argc) _ b3 in
        let o4 = o3 + length (le_bytes 2 p.argc) in
        let serial =
          (Reads-field 2 p.serial p.serial
              (omega (arith, from_le-le_bytes_2 p.serial, is.serial_lt))).run
            off _ b0 (omega arith) in
        let reserv =
          (Reads-field 2 p.reserv p.reserv
              (omega (arith, from_le-le_bytes_2 p.reserv, is.reserv_lt))).run
            o1 _ b1 (omega arith) in
        let id =
          (Reads-field 4 p.id p.id (omega (arith, from_le-le_bytes_4 p.id, is.id_lt))).run o2 _ b2
            (omega arith) in
        let argc =
          (Reads-field 2 p.argc p.argc (omega (arith, from_le-le_bytes_2 p.argc, is.argc_lt))).run
            o3 _ b3 (omega arith) in
        let args = get_args-at full fuel o4 post hl hd b4 (omega arith) in
        rw (serial, reserv, id, argc, accepted, args) refl
