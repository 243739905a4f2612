-- ===== src/Codec/Encode.antt =====
-- bcap_vnt2bytary and bcap_vntary2bytary of bcap_core/src/bcap_common.c: VARIANTs to bytes.
pub mod Appends
pub mod Refines
pub mod Lengths
use denso_robot_ros.Prelude.{
  ℕ, zero, suc, ◌+◌, ◌-◌, ◌*◌, ◌/◌, ◌%◌, ◌^◌, List, [], ◌∷◌, length, take, Bool, false, ltb, leb,
  ◌==◌, if◌then◌else◌,
}
use denso_robot_ros.Hresult.{Outcome, ok, failed, fault, ◌>>=◌, e_invalidarg}
use denso_robot_ros.Bytes.{le_bytes, le_bytes_all}
use denso_robot_ros.Variant
use denso_robot_ros.Variant.{
  Variant, Variants, Bstr, plain, bstr, null_array, scalar_array, bstr_array, variant_array, nil,
  cons, sys_string_len, vt_of, count_variants, array_count, array_elem_size, value_size, chars,
}
use denso_robot_ros.Codec.Buffer.{Buffer, copy, overwrite, checked, put_le}
use denso_robot_ros.Codec.Date.{DateFloats, vntdate2bytary}

-- `for (i = 0; i < argc; i++) { if (*offset + size > len_dst) …; memcpy_le(…); *offset += size; }`
-- over the elements, each through `f`. A read past the elements is a fault.
unfoldable pub put_elems : ℕ → ℕ → (ℕ → ℕ) → ℕ → List ℕ → Buffer → Outcome Buffer
put_elems len size f zero xs b = ok b
put_elems len size f (suc n) [] b = fault
put_elems len size f (suc n) (x ∷ xs) b = do
  b' ← put_le len size (f x) b
  put_elems len size f n xs b'

abbrev pub same : ℕ → ℕ
same x = x

-- VT_BSTR: the length in bytes, then two bytes of each character.
unfoldable pub put_bstr : ℕ → Bstr → Buffer → Outcome Buffer
unfolding put_elems
put_bstr len s b = do
  let len_bstr = 2 * sys_string_len s
  b' ← put_le len 4 len_bstr b
  put_elems len 2 same (len_bstr / 2) (chars s) b'

unfoldable pub put_bstrs : ℕ → ℕ → List Bstr → Buffer → Outcome Buffer
unfolding put_bstr
put_bstrs len zero ss b = ok b
put_bstrs len (suc n) [] b = fault
put_bstrs len (suc n) (s ∷ ss) b = do b' ← put_bstr len s b; put_bstrs len n ss b'

-- VT_UI1: one memcpy of `argc` bytes.
unfoldable pub put_bytes : ℕ → ℕ → List ℕ → Buffer → Outcome Buffer
put_bytes len argc xs =
    checked len argc
      λ b. if leb argc (length xs) then copy (le_bytes_all 1 (take argc xs)) b else fault

-- The arrays of single values.
unfoldable pub put_scalar_array : DateFloats → ℕ → ℕ → ℕ → List ℕ → Buffer → Outcome Buffer
unfolding put_bytes put_elems
put_scalar_array fl len vt argc xs b =
    if vt == Variant.Vt.ui1
    then put_bytes len argc xs b
    else if vt == Variant.Vt.date
    then put_elems len 8 (vntdate2bytary fl) argc xs b
    else if ltb 0 (array_elem_size vt)
    then put_elems len (array_elem_size vt) same argc xs b
    else ok b

unfoldable pub put_plain : DateFloats → ℕ → ℕ → ℕ → Buffer → Outcome Buffer
put_plain fl len vt bits b =
    if vt == Variant.Vt.date
    then put_le len 8 (vntdate2bytary fl bits) b
    else if ltb 0 (value_size vt)
    then put_le len (value_size vt) bits b
    else ok b

-- The number of elements that bcap_vntary2bytary sends. It refuses an array without data.
unfoldable pub count_of : Variant → Outcome ℕ
count_of (plain vt bits) = ok 1
count_of (bstr s) = ok 1
count_of (null_array vt) = failed e_invalidarg
count_of (scalar_array vt lb xs) = ok (array_count (length xs) lb)
count_of (bstr_array lb ss) = ok (array_count (length ss) lb)
count_of (variant_array lb vs) = ok (array_count (count_variants vs) lb)

-- `memcpy_le(&dst[offset_tmp], &len_vnt, BCAP_SIZE_DATA_LEN)`
unfoldable pub patch_length : ℕ → Buffer → Outcome Buffer
unfolding overwrite
patch_length start b =
    if leb (start + 4) (length b.bytes)
    then (let len_vnt = (b.offset + (2 ^ 32 - start) + (2 ^ 32 - 4)) % 2 ^ 32 in
        ok (record b { bytes = overwrite b.bytes start (le_bytes 4 len_vnt) }))
    else fault

-- The data type, the number of elements and the data.
unfoldable pub put_data : ℕ → Variant → (ℕ → Buffer → Outcome Buffer) → Buffer → Outcome Buffer
unfolding count_of
put_data len v value b = do
  b1 ← put_le len 2 (vt_of v) b
  cnt ← count_of v
  b2 ← put_le len 4 cnt b1
  value cnt b2

-- With `flag` four bytes are left for the length.
unfoldable pub skip_length : Bool → Buffer → Buffer
skip_length flag b = if flag then record b { offset = (b.offset + 4) % 2 ^ 32 } else b

-- One round of the loop of bcap_vntary2bytary.
unfoldable pub put_item :
    ℕ → Bool → Variant → (ℕ → Buffer → Outcome Buffer) → Buffer → Outcome Buffer
put_item len flag v value b = do
  b' ← put_data len v value (skip_length flag b)
  if flag then patch_length b.offset b' else ok b'

unfoldable mutual
  -- bcap_vnt2bytary
  pub vnt2bytary : DateFloats → ℕ → Variant → ℕ → Buffer → Outcome Buffer
  vnt2bytary fl len (plain vt bits) argc b = put_plain fl len vt bits b
  vnt2bytary fl len (bstr s) argc b = put_bstr len s b
  vnt2bytary fl len (null_array vt) argc b = ok b
  vnt2bytary fl len (scalar_array vt lb xs) argc b = put_scalar_array fl len vt argc xs b
  vnt2bytary fl len (bstr_array lb ss) argc b = put_bstrs len argc ss b
  vnt2bytary fl len (variant_array lb vs) argc b = vntary2bytary fl len vs false argc b

  -- bcap_vntary2bytary
  pub vntary2bytary : DateFloats → ℕ → Variants → Bool → ℕ → Buffer → Outcome Buffer
  vntary2bytary fl len vs flag zero b = ok b
  vntary2bytary fl len nil flag (suc n) b = fault
  vntary2bytary fl len (cons v vs) flag (suc n) b = do
    b' ← put_item len flag v (vnt2bytary fl len v) b
    vntary2bytary fl len vs flag n b'
