-- ===== src/Client/Invoke.antt =====
-- invoke_function of bcap_core/src/bCAPClient/bcap_client.c: a call of the b-CAP service from the
-- format and the variable arguments of a wrapper.
use denso_robot_ros.Prelude.{
  ℕ, zero, suc, ◌+◌, List, [], ◌∷◌, Option, none, some, length, Bool, true, false, not, ◌&&◌, ltb,
  leb, ◌==◌, if◌then◌else◌,
}
use denso_robot_ros.Hresult.{
  Hresult, Outcome, ok, failed, fault, out_of_fuel, ◌>>=◌, is_failed, e_invalidarg, e_outofmemory,
}
use denso_robot_ros.Device.{Chars, Libc}
use denso_robot_ros.Variant
use denso_robot_ros.Variant.{
  Variant, Variants, Bstr, plain, bstr, null_array, scalar_array, bstr_array, variant_array, nil,
  cons, empty, wcslen, vt_of,
}
use denso_robot_ros.Variant.Alloc.{sys_alloc_string, variants_block}
use denso_robot_ros.Packet.{Packet}
use denso_robot_ros.Client.{Conns, Net}
use denso_robot_ros.Client.Transfer.{Trial, send_receive}

-- The types of the arguments that the wrappers pass.
pub data Kind : Type 0 where
  int32 : Kind
  float32 : Kind
  wide_string : Kind
  variant : Kind

-- A variable argument. A float is promoted to double by the call, and the cast of invoke_function
-- gives the float back. Of a pointer for the return value, the type that it points to, and whether
-- it is NULL.
pub data VaArg : Type 0 where
  int_arg : ℕ → VaArg
  float_arg : ℕ → VaArg
  bstr_arg : Bstr → VaArg
  variant_arg : Variant → VaArg
  pointer_arg : Kind → Bool → VaArg

-- The named arguments of invoke_function, and the variable ones.
pub record Invocation : Type 0 where
  pub id : ℕ
  pub argc : ℕ
  pub format : Chars
  pub va : List VaArg

-- strchr(s, c), and a NUL in its place: the string in front of it, and what is behind it.
unfoldable pub cut : ℕ → Chars → Chars × Option Chars
cut c [] = ([], none)
cut c (x ∷ xs) =
    let (before, behind) = cut c xs in if x == c then ([], some xs) else (x ∷ before, behind)

abbrev pub behind_or_end : Option Chars → Chars
behind_or_end none = []
behind_or_end (some s) = s

-- va_arg with a type other than that of the argument is undefined.
abbrev pub take_int : List VaArg → Outcome (Variant × List VaArg)
take_int (int_arg n ∷ va) = ok (plain Variant.Vt.i4 n, va)
take_int va = fault

abbrev pub take_float : List VaArg → Outcome (Variant × List VaArg)
take_float (float_arg f ∷ va) = ok (plain Variant.Vt.r4 f, va)
take_float va = fault

abbrev pub take_bstr : List VaArg → Outcome (Variant × List VaArg)
take_bstr (bstr_arg s ∷ va) = ok (bstr s, va)
take_bstr va = fault

abbrev pub take_variant : List VaArg → Outcome (Variant × List VaArg)
take_variant (variant_arg v ∷ va) = ok (v, va)
take_variant va = fault

-- `switch (vt)`
unfoldable pub next_arg : ℕ → List VaArg → Outcome (Variant × List VaArg)
next_arg vt va =
    if vt == Variant.Vt.i4
    then take_int va
    else if vt == Variant.Vt.r4
    then take_float va
    else if vt == Variant.Vt.bstr
    then take_bstr va
    else if vt == Variant.Vt.variant
    then take_variant va
    else failed e_invalidarg

abbrev pub is_end : Chars → Bool
is_end [] = true
is_end (c ∷ cs) = false

-- The loop over the format: the elements of `vntArg` from `i` on, and the arguments that are left.
-- An element that is stored behind the `argc` ones is outside of the block.
unfoldable pub read_args : Libc → ℕ → ℕ → ℕ → Chars → List VaArg → Outcome (Variants × List VaArg)
unfolding next_arg cut
read_args libc zero argc i fmt va = out_of_fuel
read_args libc (suc fuel) argc i fmt va =
    let (piece, behind) = cut 44 fmt in
    let round = (do
      (v, va1) ← next_arg (libc.atoi piece) va
      (vs, va2) ←
          (if ltb i argc
            then read_args libc fuel argc (i + 1) (behind_or_end behind) va1
            else fault)
      ok (cons v vs, va2)) in
    if is_end fmt && leb argc i then ok (nil, va) else round

-- `pRet = va_arg(list, void *)`, if the format has a return value
abbrev pub take_pointer : List VaArg → Outcome (Option Kind)
take_pointer (pointer_arg k null ∷ va) = ok (if null then none else some k)
take_pointer va = fault

abbrev pub return_pointer : Option Chars → List VaArg → Outcome (Option Kind)
return_pointer none va = ok none
return_pointer (some ret) va = take_pointer va

abbrev pub return_vt : Libc → Option Chars → ℕ
return_vt libc none = 0
return_vt libc (some ret) = libc.atoi ret

-- What the packet that ended send_receive put behind `packet_recv.args`.
abbrev pub first_arg : Variants → Option Variant
first_arg nil = none
first_arg (cons v vs) = some v

abbrev pub received : Option Packet → Option Variant
received none = none
received (some p) = first_arg p.args

abbrev pub or_empty : Option Variant → Variant
or_empty none = empty
or_empty (some v) = v

-- `*(int32_t *) pRet = vntRet.lVal`
abbrev pub put_long : Kind → Variant → Outcome (Option Variant)
put_long int32 v = ok (some v)
put_long k v = fault

-- `*(BSTR *) pRet = SysAllocString(vntRet.bstrVal)`
abbrev pub put_string : (ℕ → Bool) → Kind → Variant → Outcome (Option Variant)
put_string malloc wide_string (bstr s) = do t ← sys_alloc_string malloc s; ok (some (bstr t))
put_string malloc k v = fault

-- What is stored at `pRet` after send_receive. With VT_VARIANT the packet was received there.
unfoldable pub put_return :
    (ℕ → Bool) → Hresult → ℕ → Option Kind → Option Variant → Outcome (Option Variant)
put_return malloc hr vt none answer = ok none
put_return malloc hr vt (some k) answer =
    if vt == Variant.Vt.variant
    then ok answer
    else if is_failed hr
    then ok none
    else if not (vt == vt_of (or_empty answer))
    then ok none
    else if vt == Variant.Vt.i4
    then put_long k (or_empty answer)
    else if vt == Variant.Vt.bstr
    then put_string malloc k (or_empty answer)
    else ok none

-- How a call ended: the code, and what was stored for the return value.
pub record Called (W : Type 0) : Type 0 where
  pub hr : Hresult
  pub returned : Option Variant
  pub trial : Trial W
  pub conns : Conns

-- The outside of invoke_function: the C library, malloc on the number of bytes, and the network.
pub record Host (W : Type 0) : Type 0 where
  pub libc : Libc
  pub malloc : ℕ → Bool
  pub net : Net W

module _ {W : Type 0} (host : Host W) (fuel : ℕ) (conns : Conns) (fd : ℕ) (w : W) where
  -- From `packet_send.id = id` on. send_receive sets `serial` and `reserv`.
  unfoldable pub exchange : Invocation → Variants → ℕ → Option Kind → Outcome (Called W)
  unfolding put_return
  exchange v args vt ret = do
    (hr, t, conns') ←
        send_receive host.net fuel conns fd
          (record { serial = 0; reserv = 0; id = v.id; argc = v.argc; args = args }) w
    returned ← put_return host.malloc hr vt ret (received t.reply)
    ok (record { hr = hr; returned = returned; trial = t; conns = conns' })

  unfoldable pub invoke_function : Invocation → Outcome (Called W)
  unfolding exchange read_args cut
  invoke_function v =
      if ltb 0 v.argc && not (host.malloc (variants_block v.argc)) then failed e_outofmemory else do
        let (fmt, ret) = cut 58 v.format
        (args, va) ← read_args host.libc (suc (length v.format)) v.argc 0 fmt v.va
        p ← return_pointer ret va
        exchange v args (return_vt host.libc ret) p
