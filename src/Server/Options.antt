-- ===== src/Server/Options.antt =====
-- The options of ID_SERVICE_START in receive_execute of bcap_core/src/bCAPServer/bcap_server.c, read
-- by GetOptionValue of bcap_core/src/dn_common.c.
use denso_robot_ros.Prelude.{
  ℕ, ◌%◌, ◌^◌, ◌≡◌, refl, ap, ◌∙◌, Bool-cases, inl, inr, List, [], ◌∷◌, Option, none, some, Bool,
  true, false, ltb, leb, ◌==◌, if◌then◌else◌,
}
use denso_robot_ros.Hresult.{
  Hresult, Outcome, ok, failed, fault, out_of_fuel, s_ok, s_false, e_invalidarg,
}
use denso_robot_ros.Variant.{
  Variant, Variants, Bstr, plain, bstr, null_array, scalar_array, bstr_array, variant_array, cons,
}
use denso_robot_ros.Variant.Vt
use denso_robot_ros.Variant.Change.{FloatOps}
use denso_robot_ros.Variant.ChangeType.{TextOps}
use denso_robot_ros.Variant.Copy.Laws.{IsText}
use denso_robot_ros.Variant.OptionValue.{get_option_value}
use denso_robot_ros.Variant.OptionValue.Plain.{IsOptions}
use denso_robot_ros.Variant.OptionValue.Search.{first_value, options_text, get_option_value-first}
use denso_robot_ros.Packet.{Packet}
use denso_robot_ros.Server.Vector.{bcap_object_max}
use denso_robot_ros.Server.Execute.{
  Node, Server, Calls, Situation, notice, init_wdt_interval, init_exec_timeout, min_wdt_interval,
}
use denso_robot_ros.Server.Children.{put_node}
use denso_robot_ros.Server.Receive.{
  needs_room, or_default, start_options, refuse, execute, start, checked_execute,
}

abbrev pub wdt_name : List ℕ
wdt_name = b'W' ∷ b'D' ∷ b'T' ∷ []

abbrev pub timeout_name : List ℕ
timeout_name =
    b'I' ∷ b'n' ∷ b'v' ∷ b'o' ∷ b'k' ∷ b'e' ∷ b'T' ∷ b'i' ∷ b'm' ∷ b'e' ∷ b'o' ∷ b'u' ∷ b't' ∷ []

-- `(vntOpt.vt == VT_UI4) ? vntOpt.ulVal`
abbrev pub ul_val : Variant → Option ℕ
ul_val (plain vt bits) = if vt == Vt.ui4 then some (bits % 2 ^ 32) else none
ul_val (bstr s) = none
ul_val (null_array vt) = none
ul_val (scalar_array vt lb xs) = none
ul_val (bstr_array lb ss) = none
ul_val (variant_array lb vs) = none

-- The code of GetOptionValue and the number in `vntOpt`, which is empty where it fails.
abbrev pub number_in : Outcome Variant → Option (Hresult × Option ℕ)
number_in (ok v) = some (s_ok, ul_val v)
number_in (failed hr) = some (hr, none)
number_in fault = none
number_in out_of_fuel = none

module _ (fl : FloatOps) (tx : TextOps) (malloc : ℕ → Bool) (same_name : List ℕ → Bstr → Bool) where
  abbrev pub read_option : List ℕ → Bstr → Option (Hresult × Option ℕ)
  read_option name text =
      number_in (get_option_value fl tx malloc same_name (some name) Vt.ui4 0 text)

  -- The calls of a server read the two options by GetOptionValue.
  pub record ReadsOptions {W : Type 0} (calls : Calls W) : Type 0 where
    pub wdt :
        (text : Bstr) (r : Hresult × Option ℕ)
        → read_option wdt_name text ≡ some r
        → calls.wdt_option text ≡ r
    pub timeout :
        (text : Bstr) (r : Hresult × Option ℕ)
        → read_option timeout_name text ≡ some r
        → calls.timeout_option text ≡ r

  -- What the options say of a name.
  abbrev pub said : List ℕ → List (List ℕ × List ℕ) → Option (Hresult × Option ℕ)
  said name options = number_in (first_value fl tx malloc same_name (some name) Vt.ui4 0 options)

-- A packet ID_SERVICE_START with a list of options, for a server that executes nothing else and has
-- room: where the number of the first option WDT, or its default, is below 80, the packet is refused
-- with E_INVALIDARG and the node is as it was; otherwise it is the interval of the node, and where
-- the number of InvokeTimeout, or its default, is below 80, the packet is refused; otherwise that is
-- the timeout of the node, and the function is executed with the code of reading InvokeTimeout. The
-- options are plain, there is memory, and both are numbers or fail to be read.
pub checked_execute-start_options :
    {W : Type 0} (fl : FloatOps) (tx : TextOps) (malloc : ℕ → Bool)
    (same_name : List ℕ → Bstr → Bool) (calls : Calls W) (s : Server) (n : Node) (p : Packet)
    (sit : Situation) (w : W) (v : Variant) (vs : Variants) (k t : List ℕ)
    (os : List (List ℕ × List ℕ)) (wdt timeout : Hresult × Option ℕ)
    → ((m : ℕ) → malloc m ≡ true)
    → ReadsOptions fl tx malloc same_name calls
    → sit.busy ≡ false
    → leb bcap_object_max s.vector.num_object ≡ false
    → p.id ≡ 1
    → p.args ≡ cons v vs
    → leb 1 p.argc ≡ true
    → calls.option_string v ≡ (s_ok, some (options_text k t os))
    → IsOptions ((k, t) ∷ os)
    → IsText (some (options_text k t os))
    → said fl tx malloc same_name wdt_name ((k, t) ∷ os) ≡ some wdt
    → said fl tx malloc same_name timeout_name ((k, t) ∷ os) ≡ some timeout
    → checked_execute calls s n p sit w ≡ (
        let interval = or_default init_wdt_interval wdt.1 in
        let limit = or_default init_exec_timeout timeout.1 in
        let n1 = record n { wdt_interval = interval } in
        if ltb interval min_wdt_interval
        then refuse calls s_false (notice p e_invalidarg) (put_node s.type s n) w
        else if ltb limit min_wdt_interval
        then refuse calls s_false (notice p e_invalidarg) (put_node s.type s n1) w
        else execute calls s (record n1 { exec_timeout = limit }) p sit timeout.0 w)
unfolding checked_execute start_options start needs_room
checked_execute-start_options fl tx malloc same_name calls s n p sit w v vs k t os wdt timeout
      memory reads free room is_start args some_args text plain_options fits said_wdt said_timeout =
    let whole = some (options_text k t os) in
    let read : (name : List ℕ)
        → read_option fl tx malloc same_name name whole
          ≡ said fl tx malloc same_name name ((k, t) ∷ os) =
      λ name. ap number_in (
        get_option_value-first fl tx malloc same_name name Vt.ui4 0 k t os memory plain_options
          fits) in
    let wdt_read = reads.wdt whole wdt (read wdt_name ∙ said_wdt) in
    let timeout_read = reads.timeout whole timeout (read timeout_name ∙ said_timeout) in
    elim (Bool-cases (ltb (or_default init_wdt_interval wdt.1) min_wdt_interval)) [
      | inl short ↦
          rw (free, is_start, room, args, some_args, text, wdt_read, timeout_read, short) refl
      | inr long ↦
          elim (Bool-cases (ltb (or_default init_exec_timeout timeout.1) min_wdt_interval)) [
            | inl low ↦
                rw (free, is_start, room, args, some_args, text, wdt_read, timeout_read, long, low)
                  refl
            | inr high ↦
                rw (free, is_start, room, args, some_args, text, wdt_read, timeout_read, long, high)
                  refl
          ]
    ]
