-- ===== src/Codec/Decode.antt =====
-- bcap_bytary2vnt and bcap_bytary2vntary of bcap_core/src/bcap_common.c: bytes to VARIANTs.
pub mod Loops
pub mod Scalars
pub mod RoundTrip
pub mod Args
use denso_robot_ros.Prelude.{
  ℕ, zero, suc, ◌+◌, ◌*◌, ◌/◌, ◌%◌, ◌^◌, List, [], ◌∷◌, Option, none, some, Bool, false, ltb, leb,
  ◌==◌, if◌then◌else◌,
}
use denso_robot_ros.Hresult.{
  Hresult, Outcome, ok, failed, fault, out_of_fuel, ◌>>=◌, ◌>>◌, e_invalidarg, e_outofmemory,
}
use denso_robot_ros.Variant
use denso_robot_ros.Variant.{
  Variant, Variants, Bstr, plain, bstr, scalar_array, bstr_array, variant_array, nil, cons,
  has_array, without_array, array_elem_size, value_size,
}
use denso_robot_ros.Variant.Alloc.{safe_array_create_vector, sys_alloc_string_len}
use denso_robot_ros.Codec.Date.{DateFloats, bytary2vntdate}
use denso_robot_ros.Codec.Encode.{same}
use denso_robot_ros.Codec.Reader.{Read, fetch, get_le}

-- An access to `size` bytes at `pos` in a block of `cap` bytes.
abbrev pub inside : ℕ → ℕ → ℕ → Outcome (Unit {0})
inside cap pos size = if leb (pos + size) cap then ok tt else fault

-- `for (i = …; i < argc; i++)` over the elements of `size` bytes in a block of `cap` bytes.
unfoldable pub get_elems : List ℕ → ℕ → ℕ → ℕ → (ℕ → ℕ) → ℕ → ℕ → Read (List ℕ)
get_elems src len cap size f i zero off = ok ([], off)
get_elems src len cap size f i (suc n) off = do
  (x, off1) ← get_le src len size off
  inside cap (i * size) size
  (xs, off2) ← get_elems src len cap size f (suc i) n off1
  ok (f x ∷ xs, off2)

-- VT_UI1: one memcpy of `argc` bytes. Here the code is E_INVALIDARG.
unfoldable pub get_bytes : List ℕ → ℕ → ℕ → ℕ → Read (List ℕ)
get_bytes src len cap argc off =
    if ltb len ((off + argc) % 2 ^ 32)
    then failed e_invalidarg
    else do inside cap 0 argc; fetch src argc off

abbrev pub or_fail : Hresult → Option ℕ → Outcome ℕ
or_fail hr none = failed hr
or_fail hr (some n) = ok n

-- VT_BSTR: two bytes of the wire go to each slot of a `wchar_t`.
unfoldable pub get_bstr : (ℕ → Bool) → List ℕ → ℕ → Read Bstr
get_bstr malloc src len off = do
  (len_bstr, off1) ← get_le src len 4 off
  slots ← or_fail e_outofmemory (sys_alloc_string_len malloc (len_bstr / 2))
  (cs, off2) ← get_elems src len (2 * slots) 2 same 0 (len_bstr / 2) off1
  ok (some cs, off2)

unfoldable pub get_bstrs : (ℕ → Bool) → List ℕ → ℕ → ℕ → ℕ → ℕ → Read (List Bstr)
get_bstrs malloc src len cap i zero off = ok ([], off)
get_bstrs malloc src len cap i (suc n) off = do
  (s, off1) ← get_bstr malloc src len off
  inside cap (i * 8) 8
  (ss, off2) ← get_bstrs malloc src len cap (suc i) n off1
  ok (s ∷ ss, off2)

-- bcap_bytary2vntary, over the VARIANTs of a block of `cap` bytes, 16 bytes each. `dec vt cnt` is
-- bcap_bytary2vnt.
unfoldable pub bytary2vntary :
    (ℕ → ℕ → Read Variant) → List ℕ → ℕ → ℕ → Bool → ℕ → ℕ → Read Variants
bytary2vntary dec src len cap flag i zero off = ok (nil, off)
bytary2vntary dec src len cap flag i (suc n) off = do
  inside cap (i * 16) 16
  let off0 = (if flag then (off + 4) % 2 ^ 32 else off)
  (vt, off1) ← get_le src len 2 off0
  (cnt, off2) ← get_le src len 4 off1
  (v, off3) ← dec vt cnt off2
  (vs, off4) ← bytary2vntary dec src len cap flag (suc i) n off3
  ok (cons v vs, off4)

-- The arrays of single values, into a block of `cap` bytes.
unfoldable pub get_scalars : DateFloats → List ℕ → ℕ → ℕ → ℕ → ℕ → Read (List ℕ)
get_scalars fl src len cap vt argc off =
    if vt == Variant.Vt.ui1
    then get_bytes src len cap argc off
    else if vt == Variant.Vt.date
    then get_elems src len cap 8 (bytary2vntdate fl) 0 argc off
    else if ltb 0 (array_elem_size vt)
    then get_elems src len cap (array_elem_size vt) same 0 argc off
    else ok ([], off)

unfoldable pub get_plain : DateFloats → List ℕ → ℕ → ℕ → Read ℕ
get_plain fl src len vt off =
    if vt == Variant.Vt.date
    then (do (x, off1) ← get_le src len 8 off; ok (bytary2vntdate fl x, off1))
    else if ltb 0 (value_size vt)
    then get_le src len (value_size vt) off
    else ok (0, off)

-- The elements of an array of `elem`, into a block of `cap` bytes; `nested` is bcap_bytary2vnt on the
-- elements of an array of VARIANTs. The lower bound of an array is 1.
unfoldable pub get_array :
    DateFloats → (ℕ → Bool) → (ℕ → ℕ → Read Variant) → List ℕ → ℕ → ℕ → ℕ → ℕ → Read Variant
get_array fl malloc nested src len elem argc cap off =
    if elem == Variant.Vt.bstr
    then (do (ss, off1) ← get_bstrs malloc src len cap 0 argc off; ok (bstr_array 1 ss, off1))
    else if elem == Variant.Vt.variant
    then (do
      (vs, off1) ← bytary2vntary nested src len cap false 0 argc off
      ok (variant_array 1 vs, off1))
    else (do
      (xs, off1) ← get_scalars fl src len cap elem argc off
      ok (scalar_array elem 1 xs, off1))

-- The value of a VARIANT with the type `vt`.
unfoldable pub get_value :
    DateFloats → (ℕ → Bool) → (ℕ → ℕ → Read Variant) → List ℕ → ℕ → ℕ → ℕ → Read Variant
unfolding get_array
get_value fl malloc nested src len vt argc off =
    if has_array vt
    then (do
      cap ← or_fail e_outofmemory (safe_array_create_vector malloc (without_array vt) argc)
      get_array fl malloc nested src len (without_array vt) argc cap off)
    else if vt == Variant.Vt.bstr
    then (do (s, off1) ← get_bstr malloc src len off; ok (bstr s, off1))
    else (do (x, off1) ← get_plain fl src len vt off; ok (plain vt x, off1))

-- bcap_bytary2vnt, with fuel for the depth of arrays in arrays.
unfoldable pub bytary2vnt : DateFloats → (ℕ → Bool) → ℕ → List ℕ → ℕ → ℕ → ℕ → Read Variant
bytary2vnt fl malloc zero src len vt argc off = out_of_fuel
bytary2vnt fl malloc (suc fuel) src len vt argc off =
    get_value fl malloc (bytary2vnt fl malloc fuel src len) src len vt argc off
