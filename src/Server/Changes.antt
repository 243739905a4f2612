-- ===== src/Server/Changes.antt =====
-- "Changes the vector of created objects" of receive_execute in bcap_core/src/bCAPServer/
-- bcap_server.c.
use denso_robot_ros.Prelude.{ℕ, ◌%◌, ◌^◌, Option, none, some, ◌==◌, if◌then◌else◌}
use denso_robot_ros.Hresult.{Outcome, ok, failed, fault, out_of_fuel, ◌>>=◌, s_ok}
use denso_robot_ros.Variant.{
  Variant, Variants, plain, bstr, null_array, scalar_array, bstr_array, variant_array, nil, cons,
}
use denso_robot_ros.Packet.{Packet}
use denso_robot_ros.Server.MapId.{MapId, lookup, is_push, is_pop}
use denso_robot_ros.Server.Vector.{
  Ptr, VecObject, Vector, store, push_vector, pop_vector, search_vector,
}

-- `lVal`; of a VARIANT with a pointer it is part of an address, which the model does not follow.
abbrev pub l_val : Variant → Outcome ℕ
l_val (plain vt bits) = ok (bits % 2 ^ 32)
l_val (bstr s) = fault
l_val (null_array vt) = fault
l_val (scalar_array vt lb xs) = fault
l_val (bstr_array lb ss) = fault
l_val (variant_array lb vs) = fault

abbrev pub first_l_val : Variants → Outcome ℕ
first_l_val nil = fault
first_l_val (cons v vs) = l_val v

-- The return value of push_vector and pop_vector is not looked at.
abbrev pub kept {ℓ} : {A : Type ℓ} → A → Outcome A → Outcome A
kept a (ok b) = ok b
kept a (failed hr) = ok a
kept a fault = fault
kept a out_of_fuel = out_of_fuel

abbrev pub pop_found : Vector → Option ℕ → Outcome Vector
pop_found v none = ok v
pop_found v (some index) = kept v (do (p, v') ← pop_vector v index; ok v')

abbrev pub push_new : Vector → Ptr → ℕ → ℕ → Outcome Vector
push_new v fresh id h_obj =
    if fresh == 0
    then ok v
    else let cell : VecObject = record { id = id; h_obj = h_obj; prev = 0; next = 0 } in
      kept v (push_vector (record v { cells = store v.cells fresh cell }) fresh)

-- The handle in an argument; `id` is a function without one.
abbrev pub handle : ℕ → ℕ → Variants → Outcome ℕ
handle id service vs = if id == service then ok 0 else first_l_val vs

abbrev pub push_related : Vector → Ptr → MapId → Packet → Packet → Outcome Vector
push_related v fresh e p q = do h_obj ← handle p.id 1 q.args; push_new v fresh e.relation_id h_obj

abbrev pub pop_related : Vector → Packet → Outcome Vector
pop_related v p = do
  h_obj ← handle p.id 2 p.args
  index ← search_vector v p.id h_obj
  pop_found v index

abbrev pub relate : Option MapId → Vector → Ptr → Packet → Packet → Outcome Vector
relate none v fresh p q = fault
relate (some e) v fresh p q =
    if is_push e then push_related v fresh e p q else if is_pop e then pop_related v p else ok v

-- "Changes the vector of created objects", after the packet `p` was answered with `q`
unfoldable pub change_vector : Vector → Ptr → Packet → Packet → Outcome Vector
change_vector v fresh p q = if q.id == s_ok then relate (lookup p.id) v fresh p q else ok v
