-- ===== src/Packet/Decode.antt =====
-- bcap_bytary2packet of bcap_core/src/bcap_common.c.
use denso_robot_ros.Prelude.{
  ℕ, ◌-◌, ◌*◌, List, get_elem?, none, some, Bool, true, false, not, ◌&&◌, ltb, ◌==◌, if◌then◌else◌,
}
use denso_robot_ros.Hresult.{
  Outcome, ok, failed, fault, ◌>>=◌, ◌>>◌, e_invalidarg, e_invalidpacket, e_outofmemory,
}
use denso_robot_ros.Bytes.{from_le}
use denso_robot_ros.Variant.{Variants, nil}
use denso_robot_ros.Codec.Date.{DateFloats}
use denso_robot_ros.Codec.Reader.{Read, fetch}
use denso_robot_ros.Codec.Decode.{bytary2vntary, bytary2vnt}
use denso_robot_ros.Packet.{Packet, bcap_size_min}

-- A memcpy_le of a field of the header.
unfoldable pub get_field : List ℕ → ℕ → Read ℕ
get_field src size off = do (bs, off') ← fetch src size off; ok (from_le bs, off')

abbrev pub byte_at : List ℕ → ℕ → Outcome ℕ
byte_at src i = elim (get_elem? src i) [ none ↦ fault | some b ↦ ok b ]

-- What the caller put into `dst` before the call: `argc`, and whether `args` is NULL. With `-1` and
-- NULL the function allocates the arguments.
pub record Room : Type 0 where
  pub argc : ℕ
  pub has_args : Bool

abbrev pub allocate : Room
allocate = record { argc = 0xffff; has_args = false }

-- The number of arguments to read, from the one in the packet.
unfoldable pub accept_argc : Room → ℕ → Outcome ℕ
accept_argc room tmp_argc =
    if room.argc == 0xffff
    then (if room.has_args then failed e_invalidarg else ok tmp_argc)
    else if ltb 0 room.argc && not room.has_args
    then failed e_invalidarg
    else if ltb room.argc tmp_argc
    then failed e_invalidpacket
    else ok tmp_argc

-- The bytes of the block behind `args`: that of the caller, or a new one for `argc` VARIANTs.
unfoldable pub args_block : (ℕ → Bool) → Room → ℕ → Outcome ℕ
args_block malloc room argc =
    if room.has_args
    then ok (16 * room.argc)
    else if malloc (16 * argc)
    then ok (16 * argc)
    else failed e_outofmemory

-- The arguments, of `src` without its last byte.
unfoldable pub get_args : DateFloats → (ℕ → Bool) → ℕ → List ℕ → ℕ → Room → ℕ → ℕ → Outcome Variants
unfolding args_block
get_args fl malloc fuel src len room argc off = if argc == 0 then ok nil else do
  cap ← args_block malloc room argc
  (args, _) ←
      bytary2vntary (bytary2vnt fl malloc fuel src (len - 1)) src (len - 1) cap true 0 argc off
  ok args

-- The header byte and the terminator.
unfoldable pub is_framed : List ℕ → ℕ → Outcome Bool
is_framed src len = do h ← byte_at src 0; t ← byte_at src (len - 1); ok (h == 1 && t == 4)

-- The fields and the arguments, behind the tests on the frame.
unfoldable pub get_body : DateFloats → (ℕ → Bool) → ℕ → List ℕ → ℕ → Room → ℕ → Outcome Packet
unfolding get_field accept_argc get_args
get_body fl malloc fuel src len room off = do
  (serial, off1) ← get_field src 2 off
  (reserv, off2) ← get_field src 2 off1
  (id, off3) ← get_field src 4 off2
  (tmp_argc, off4) ← get_field src 2 off3
  argc ← accept_argc room tmp_argc
  args ← get_args fl malloc fuel src len room argc off4
  ok (record { serial = serial; reserv = reserv; id = id; argc = argc; args = args })

-- The length in the packet is `len_src`, and the frame is whole.
unfoldable pub check_frame : List ℕ → ℕ → ℕ → Outcome (Unit {0})
unfolding is_framed
check_frame src len len_tmp =
    if not (len_tmp == len)
    then failed e_invalidpacket
    else is_framed src len >>= λ framed. if framed then ok tt else failed e_invalidpacket

unfoldable pub bytary2packet : DateFloats → (ℕ → Bool) → ℕ → List ℕ → ℕ → Room → Outcome Packet
unfolding get_field check_frame get_body
bytary2packet fl malloc fuel src len room =
    if ltb len bcap_size_min then failed e_invalidpacket else do
      (len_tmp, off) ← get_field src 4 1
      check_frame src len len_tmp
      get_body fl malloc fuel src len room off
