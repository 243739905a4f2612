-- ===== src/Client/Calls/Returns.antt =====
-- The end of a call of the service by a function of bcap_core/src/bCAPClient/bcap_client.c.
use denso_robot_ros.Prelude.{
  set, ℕ, ◌+◌, ◌-◌, ◌*◌, ◌/◌, ◌%◌, ◌^◌, ◌<◌, ◌≡◌, ◌≢◌, refl, ◌∙◌, subst, List, [], ◌∷◌, Option,
  none, some, take, Bool, true, false, inl, inr, Bool-cases, ltb, ◌==◌, arith,
}
use denso_robot_ros.Hresult.{Hresult, ok, is_failed}
use denso_robot_ros.Variant.{
  Variant, Bstr, plain, bstr, null_array, scalar_array, bstr_array, variant_array, wcslen, vt_of,
  count_variants,
}
use denso_robot_ros.Variant.Alloc.{sys_alloc_string, sys_alloc_string_len, fill_block}
use denso_robot_ros.Packet.{Packet}
use denso_robot_ros.Client.{Conn, Conns, check_address}
use denso_robot_ros.Client.Valid.{IsTable}
use denso_robot_ros.Client.Transfer.{Trial, result_code}
use denso_robot_ros.Client.Answers.{IsQuiet, send_receive-answers}
use denso_robot_ros.Client.Invoke.{
  int32, float32, wide_string, variant, VaArg, int_arg, float_arg, bstr_arg, variant_arg,
  pointer_arg, Invocation, Called, Host, put_return, put_string, received, first_arg, or_empty,
  exchange,
}
use denso_robot_ros.Client.Calls.{Wrapper, calling, checked, releasing, released, run}
use denso_robot_ros.Client.Calls.All.{IsCall}
use denso_robot_ros.Client.Calls.Typed.{
  ReadsDigits, pointed, pointers, code_or_none, destination, typed_call, request, request_args,
}
use denso_robot_ros.Client.Calls.Requests.{run-request}
use denso_robot_ros.Client.Calls.Replies.{OnOk, OnSome, send_receive-OnOk}

-- A received VARIANT that SysAllocString can copy; only a BSTR has the type VT_BSTR.
abbrev pub IsShort : Variant → Type 0
IsShort (bstr none) = Unit {0}
IsShort (bstr (some s)) = wcslen s < 16383
IsShort (plain vt bits) = vt ≢ 8
IsShort (null_array vt) = Unit {0}
IsShort (scalar_array vt lb xs) = Unit {0}
IsShort (bstr_array lb ss) = Unit {0}
IsShort (variant_array lb vs) = Unit {0}

abbrev pub IsShortPacket : Packet → Type 0
IsShortPacket p = IsShort (or_empty (first_arg p.args))

sys_alloc_string-short :
    (malloc : ℕ → Bool) (s : List ℕ)
    → ((n : ℕ) → malloc n ≡ true)
    → wcslen s < 16383
    → (t : Bstr) × (sys_alloc_string malloc (some s) ≡ ok t)
unfolding sys_alloc_string sys_alloc_string_len fill_block
sys_alloc_string-short malloc s memory short =
    let n = wcslen s in
    let room : ltb (4 * (n % 2 ^ 16 + 1) % 2 ^ 16 / 4) (n % 2 ^ 16) ≡ false =
      ground (arith, short) in
    (some (take (n % 2 ^ 16) s), rw (memory (4 * (n % 2 ^ 16 + 1) % 2 ^ 16), room) refl)

put_string-short :
    (malloc : ℕ → Bool) (v : Variant)
    → ((n : ℕ) → malloc n ≡ true)
    → IsShort v
    → (vt_of v == 8) ≡ true
    → (r : Option Variant) × (put_string malloc wide_string v ≡ ok r)
unfolding vt_of sys_alloc_string
put_string-short malloc (bstr none) memory short is8 = (_, refl)
put_string-short malloc (bstr (some s)) memory short is8 =
    let (t, runs) = sys_alloc_string-short malloc s memory short in (some (bstr t), rw runs refl)
put_string-short malloc (plain vt bits) memory short is8 = absurd (short (ground (arith, is8)))
put_string-short malloc (null_array vt) memory short is8 = absurd (ground (arith, is8))
put_string-short malloc (scalar_array vt lb xs) memory short is8 = absurd (ground (arith, is8))
put_string-short malloc (bstr_array lb ss) memory short is8 = absurd (ground (arith, is8))
put_string-short malloc (variant_array lb vs) memory short is8 = absurd (ground (arith, is8))

IsShort-received :
    (reply : Option Packet) → OnSome IsShortPacket reply → IsShort (or_empty (received reply))
IsShort-received none h = ground arith
IsShort-received (some p) h = h

-- Behind a pointer to an integer, a string or a VARIANT the return value is always stored.
put_return-short :
    (malloc : ℕ → Bool) (hr : Hresult) (va : List VaArg) (answer : Option Variant)
    → ((n : ℕ) → malloc n ≡ true)
    → IsShort (or_empty answer)
    → (r : Option Variant) × (put_return malloc hr
          (code_or_none (pointed (pointers va)))
          (destination (pointers va))
          answer
        ≡ ok r)
unfolding put_return pointers
put_return-short malloc hr [] answer memory short = (none, refl)
put_return-short malloc hr (int_arg n ∷ va) answer memory short =
    put_return-short malloc hr va answer memory short
put_return-short malloc hr (float_arg f ∷ va) answer memory short =
    put_return-short malloc hr va answer memory short
put_return-short malloc hr (bstr_arg s ∷ va) answer memory short =
    put_return-short malloc hr va answer memory short
put_return-short malloc hr (variant_arg v ∷ va) answer memory short =
    put_return-short malloc hr va answer memory short
put_return-short malloc hr (pointer_arg k true ∷ va) answer memory short = (none, refl)
put_return-short malloc hr (pointer_arg variant false ∷ va) answer memory short = (answer, refl)
put_return-short malloc hr (pointer_arg int32 false ∷ va) answer memory short =
    elim (Bool-cases (is_failed hr)) [
      | inl failing ↦ (none, rw failing refl)
      | inr fine ↦ elim (Bool-cases (3 == vt_of (or_empty answer))) [
        | inl same ↦ (some (or_empty answer), rw (fine, same) refl)
        | inr other ↦ (none, rw (fine, other) refl)
      ]
    ]
put_return-short malloc hr (pointer_arg float32 false ∷ va) answer memory short =
    elim (Bool-cases (is_failed hr)) [
      | inl failing ↦ (none, rw failing refl)
      | inr fine ↦ elim (Bool-cases (4 == vt_of (or_empty answer))) [
        | inl same ↦ (none, rw (fine, same) refl)
        | inr other ↦ (none, rw (fine, other) refl)
      ]
    ]
put_return-short malloc hr (pointer_arg wide_string false ∷ va) answer memory short =
    elim (Bool-cases (is_failed hr)) [
      | inl failing ↦ (none, rw failing refl)
      | inr fine ↦ elim (Bool-cases (8 == vt_of (or_empty answer))) [
        | inl same ↦
            let is8 : (vt_of (or_empty answer) == 8) ≡ true = ground (arith, same) in
            let (r, runs) = put_string-short malloc (or_empty answer) memory short is8 in
            (r, rw (fine, same) runs)
        | inr other ↦ (none, rw (fine, other) refl)
      ]
    ]

module _ {W : Type 0} (host : Host W) (fuel : ℕ) (conns : Conns) (fd : ℕ) (w : W) (c : Conn) where
  typed_call-returns :
      (v : Invocation)
      → IsTable conns
      → check_address conns fd ≡ some c
      → is_failed ((host.net.lock_mutex w).0) ≡ false
      → IsQuiet host.net c fuel
      → ((n : ℕ) → host.malloc n ≡ true)
      → ((u : W) → IsShortPacket ((host.net.bcap_recv c u).1))
      → (r : Called W) × (typed_call host fuel conns fd w v ≡ ok r)
  unfolding typed_call exchange
  typed_call-returns v table found locked quiet memory short =
      let q : Packet = record {
        serial = 0;
        reserv = 0;
        id = v.id;
        argc = count_variants (request_args v.va);
        args = request_args v.va;
      } in
      let (t, runs, tried, table') =
        send_receive-answers host.net fuel conns fd q w c table found locked quiet in
      let from_net =
        subst (OnOk {A = Hresult × Trial W × Conns} (λ r. OnSome IsShortPacket (r.1).reply)) runs
          (send_receive-OnOk host.net c IsShortPacket short fuel conns fd q w found locked) in
      let (r, puts) =
        put_return-short host.malloc (result_code t.hr t.reply) v.va (received t.reply) memory
          (IsShort-received t.reply from_net) in
      (
        record {
          hr = result_code t.hr t.reply;
          returned = r;
          trial = record t { world = host.net.unlock_mutex t.world };
          conns = set conns (fd - 1) (record c { serial = t.serial });
        },
        rw (runs, puts) refl,
      )

-- No pointer that the function checks is NULL.
abbrev pub IsPointing : Wrapper → Type 0
IsPointing (calling v) = Unit {0}
IsPointing (checked null v) = null ≡ false
IsPointing (releasing p f) = p ≢ none

module _ {W : Type 0} (host : Host W) (fuel : ℕ) (conns : Conns) (fd : ℕ) (w : W) (c : Conn) where
  request-returns :
      (call : Wrapper)
      → IsTable conns
      → check_address conns fd ≡ some c
      → is_failed ((host.net.lock_mutex w).0) ≡ false
      → IsQuiet host.net c fuel
      → ((n : ℕ) → host.malloc n ≡ true)
      → ((u : W) → IsShortPacket ((host.net.bcap_recv c u).1))
      → IsPointing call
      → (r : Called W × Option ℕ) × (request host fuel conns fd w call ≡ ok r)
  unfolding request
  request-returns (calling v) table found locked quiet memory short pointing =
      let (r, runs) =
        typed_call-returns host fuel conns fd w c v table found locked quiet memory short in
      ((r, none), rw runs refl)
  request-returns (checked null v) table found locked quiet memory short pointing =
      let (r, runs) =
        typed_call-returns host fuel conns fd w c v table found locked quiet memory short in
      ((r, none), rw (pointing, runs) refl)
  request-returns (releasing none f) table found locked quiet memory short pointing =
      absurd (pointing refl)
  request-returns (releasing (some h) f) table found locked quiet memory short pointing =
      let (r, runs) =
        typed_call-returns host fuel conns fd w c (f h) table found locked quiet memory short in
      ((r, some (released r.hr h)), rw runs refl)

-- Each function of the client that calls the service returns, without undefined behaviour: on an
-- open connection of a well-formed table whose mutex can be locked, if each wait for an answer ends
-- after at most `fuel` packets, there is memory, atoi reads the numbers in the formats, no pointer
-- that the function checks is NULL, and each string that is received has fewer than 16383
-- characters.
pub run-returns :
    {W : Type 0} (host : Host W) (fuel : ℕ) (conns : Conns) (fd : ℕ) (w : W) (c : Conn)
    (call : Wrapper)
    → IsTable conns
    → check_address conns fd ≡ some c
    → is_failed ((host.net.lock_mutex w).0) ≡ false
    → IsQuiet host.net c fuel
    → ReadsDigits host.libc
    → ((n : ℕ) → host.malloc n ≡ true)
    → ((u : W) → IsShortPacket ((host.net.bcap_recv c u).1))
    → IsPointing call
    → IsCall call
    → (r : Called W × Option ℕ) × (run host fuel conns fd w call ≡ ok r)
run-returns host fuel conns fd w c call table found locked quiet reads memory short pointing
      is_call =
    let (r, returns) =
      request-returns host fuel conns fd w c call table found locked quiet memory short pointing in
    (r, run-request host fuel conns fd w call reads memory is_call ∙ returns)
