-- ===== src/Variant/Alloc.antt =====
-- SafeArrayCreateVector, SysAllocString and SysAllocStringLen of bcap_core/src/dn_common.c, on a host where a
-- pointer has eight bytes and a `wchar_t` four. `malloc` is a parameter: whether it gives a block of
-- so many bytes.
use denso_robot_ros.Prelude.{
  ℕ, ◌+◌, ◌*◌, ◌/◌, ◌%◌, ◌^◌, List, Option, none, some, take, Bool, ltb, ◌==◌, ◌||◌, if◌then◌else◌,
}
use denso_robot_ros.Hresult.{Outcome, ok, fault}
use denso_robot_ros.Variant.{Bstr, wcslen}
use denso_robot_ros.Variant.Vt

-- The switch of SafeArrayCreateVector: `sz` for each type of element that it knows.
unfoldable pub elem_bytes : ℕ → Option ℕ
elem_bytes vt =
    if vt == Vt.ui1
    then some 1
    else if vt == Vt.i2 || vt == Vt.ui2 || vt == Vt.bool
    then some 2
    else if vt == Vt.i4 || vt == Vt.ui4 || vt == Vt.r4
    then some 4
    else if vt == Vt.i8 || vt == Vt.ui8 || vt == Vt.r8 || vt == Vt.cy
    then some 8
    else if vt == Vt.date
    then some 8
    else if vt == Vt.bstr
    then some 8
    else if vt == Vt.variant
    then some 16
    else none

alloc_data : (ℕ → Bool) → ℕ → Option ℕ → Option ℕ
alloc_data malloc n none = none
alloc_data malloc n (some sz) = if malloc (n * sz % 2 ^ 32) then some (n * sz % 2 ^ 32) else none

-- The bytes of the block behind `pvData`, of which `cElements * sz` is computed in `uint32_t`; NULL
-- without memory, and for a type of element that is not known.
unfoldable pub safe_array_create_vector : (ℕ → Bool) → ℕ → ℕ → Option ℕ
unfolding alloc_data
safe_array_create_vector malloc vt n =
    if malloc 24 then (if n == 0 then some 0 else alloc_data malloc n (elem_bytes vt)) else none

-- The characters that the block of SysAllocStringLen holds, its terminator included: `cch` is a
-- `uint16_t`, and so is the number of bytes.
unfoldable pub sys_alloc_string_len : (ℕ → Bool) → ℕ → Option ℕ
sys_alloc_string_len malloc n =
    let minlen = 4 * (n % 2 ^ 16 + 1) % 2 ^ 16 in if malloc minlen then some (minlen / 4) else none

-- `argc * sizeof(VARIANT)`
abbrev pub variants_block : ℕ → ℕ
variants_block argc = 16 * argc

-- The characters that memcpy puts into the block of SysAllocStringLen, if it has room for them.
unfoldable pub fill_block : Option ℕ → ℕ → List ℕ → Outcome Bstr
fill_block none n s = ok none
fill_block (some room) n s = if ltb room n then fault else ok (some (take n s))

unfoldable pub sys_alloc_string : (ℕ → Bool) → Bstr → Outcome Bstr
unfolding sys_alloc_string_len fill_block
sys_alloc_string malloc none = ok none
sys_alloc_string malloc (some s) =
    fill_block (sys_alloc_string_len malloc (wcslen s)) (wcslen s % 2 ^ 16) s
