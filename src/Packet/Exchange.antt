-- ===== src/Packet/Exchange.antt =====
-- bcap_calc_size_packet, bcap_packet2bytary and bcap_bytary2packet of
-- bcap_core/src/bcap_common.c, one behind the other.
use denso_robot_ros.Prelude.{
  ℕ, suc, ◌+◌, ◌-◌, ◌^◌, ◌≤◌, ◌≡◌, refl, sym, List, [], ◌∷◌, ◌++◌, append_assoc, length,
  length-append, length-replicate, drop, replicate, Bool, true, le→ltb, le→leb, ◌==◌, arith,
}
use denso_robot_ros.Hresult.{ok, ◌>>=◌}
use denso_robot_ros.Bytes.{le_bytes, length-le_bytes, from_le-le_bytes_4}
use denso_robot_ros.Codec.Date.{DateFloats}
use denso_robot_ros.Codec.Wire.{wire_args}
use denso_robot_ros.Codec.Decode.Args.{depth-wire_args}
use denso_robot_ros.Codec.Received.{AllDecodable}
use denso_robot_ros.Packet.{Packet, calc_size_packet, packet2bytary}
use denso_robot_ros.Packet.Decode.{Room, byte_at, accept_argc, check_frame, bytary2packet}
use denso_robot_ros.Packet.Encode.{packet2bytary-wire_packet}
use denso_robot_ros.Packet.RoundTrip.{
  IsPacket, received_packet, byte_at-last, behind, Reads-field, get_body-at,
}
use denso_robot_ros.Packet.Size.{calc_size_packet-wire_size}
use denso_robot_ros.Packet.Wire.{
  wire_header, length-wire_header, wire_size, wire_packet, IsSendable,
}

module _ (fl : DateFloats) (p : Packet) where
  -- A whole frame, with any bytes `mid` between the arguments and the terminator.
  unfoldable pub framed : ℕ → List ℕ → List ℕ
  framed len mid = (1 ∷ (wire_header len p ++ wire_args fl p.args)) ++ (mid ++ 4 ∷ [])

  length-framed : (len : ℕ) (mid : List ℕ) → length (framed len mid) ≡ wire_size fl p + length mid
  unfolding framed wire_size
  length-framed len mid = omega (
    arith,
    length-append (wire_header len p ++ wire_args fl p.args) (mid ++ 4 ∷ []),
    length-append (wire_header len p) (wire_args fl p.args),
    length-append mid (4 ∷ []),
    length-wire_header len p,
  )

module _ (fl : DateFloats) (malloc : ℕ → Bool) (memory : (n : ℕ) → malloc n ≡ true) (p : Packet)
    (room : Room) (is : IsPacket p) (sendable : IsSendable p) (decodable : AllDecodable p.args)
    (accepted : accept_argc room p.argc ≡ ok p.argc) where
  module _ (len : ℕ) (mid : List ℕ) (whole : len ≡ wire_size fl p + length mid)
      (small : len ≤ 2 ^ 31) where
    size : wire_size fl p ≡ 16 + length (wire_args fl p.args)
    unfolding wire_size
    size = refl

    terminator : byte_at (framed fl p len mid) (len - 1) ≡ ok 4
    terminator =
        let pre = 1 ∷ (wire_header len p ++ wire_args fl p.args) in
        let last : len - 1 ≡ length (pre ++ mid) = omega (
          arith,
          length-append pre mid,
          length-append (wire_header len p) (wire_args fl p.args),
          length-wire_header len p,
          size,
        ) in
        let split : framed fl p len mid ≡ (pre ++ mid) ++ 4 ∷ [] =
          unfold framed in sym (append_assoc pre mid (4 ∷ [])) in
        rw (split, last) (byte_at-last (pre ++ mid) 4)

    header_bytes :
        drop 1 (framed fl p len mid)
        ≡ le_bytes 4 len
          ++ (le_bytes 2 p.serial
              ++ (le_bytes 2 p.reserv
                  ++ (le_bytes 4 p.id
                      ++ (le_bytes 2 p.argc ++ (wire_args fl p.args ++ (mid ++ 4 ∷ []))))))
    unfolding framed wire_header
    header_bytes = simp append_assoc

    check_frame-framed : check_frame (framed fl p len mid) len len ≡ ok tt
    unfolding check_frame
    check_frame-framed =
        let self : (len == len) ≡ true = ground arith in
        rw (self, terminator) (unfold framed in refl)

    pub bytary2packet-framed :
        (fuel : ℕ)
        → length (wire_args fl p.args) ≤ fuel
        → bytary2packet fl malloc (suc fuel) (framed fl p len mid) len room
          ≡ ok (received_packet fl p)
    unfolding bytary2packet
    bytary2packet-framed fuel hf =
        let src = framed fl p len mid in
        let hs = length-framed fl p len mid in
        let l = length-le_bytes 4 len in
        let field =
          (Reads-field fl malloc memory src (len - 1) (omega arith) (omega arith) 4 len len
              (omega (arith, from_le-le_bytes_4 len))).run
            1 _ header_bytes (omega (arith, size)) in
        let rest = behind src 1 (le_bytes 4 len) _ header_bytes in
        let body =
          get_body-at fl malloc memory src (len - 1) (omega arith) (omega arith) p room is decodable
            sendable.counted accepted len fuel (1 + length (le_bytes 4 len)) _ refl
            (omega (arith, depth-wire_args fl p.args)) rest (omega (arith, size)) in
        rw (le→ltb len 16 (omega (arith, size)), field, check_frame-framed, body) refl

  -- A packet that bcap_packet2bytary writes into a buffer of bcap_calc_size_packet bytes is read
  -- back by bcap_bytary2packet, with the arguments as they arrive.
  pub bytary2packet-packet2bytary :
      wire_size fl p ≤ 2 ^ 31
      → (packet2bytary fl p (calc_size_packet p) >>= λ bytes.
          bytary2packet fl malloc (suc (calc_size_packet p)) bytes (calc_size_packet p) room)
        ≡ ok (received_packet fl p)
  unfolding wire_packet
  bytary2packet-packet2bytary small =
      let n = wire_size fl p in
      let exact : calc_size_packet p ≡ n =
        omega (arith, calc_size_packet-wire_size fl p sendable) in
      let full : n ≡ n + length (replicate {A = ℕ} (n - n) 0) =
        omega (arith, length-replicate {A = ℕ} (n - n) 0) in
      rw (exact, packet2bytary-wire_packet fl p n small sendable, le→leb n n (omega arith))
        (unfold framed in
          bytary2packet-framed n (replicate (n - n) 0) full small n
            (unfold wire_size in omega arith))
