-- ===== src/Client/Calls/Requests.antt =====
-- What the functions of bcap_core/src/bCAPClient/bcap_client.c that call the service send.
use denso_robot_ros.Prelude.{ℕ, ◌≡◌, refl, none, some, true, false}
use denso_robot_ros.Client.{Conns}
use denso_robot_ros.Client.Invoke.{Host}
use denso_robot_ros.Client.Calls.{Wrapper, calling, checked, releasing, run}
use denso_robot_ros.Client.Calls.All.{IsCall}
use denso_robot_ros.Client.Calls.Typed.{ReadsDigits, request}
use denso_robot_ros.Client.Calls.Reads.{invoke_function-IsTyped}
use denso_robot_ros.Client.Calls.Checked.{IsTypedCall, IsCall-IsTypedCall}

module _ {W : Type 0} (host : Host W) (fuel : ℕ) (conns : Conns) (fd : ℕ) (w : W) where
  run-IsTypedCall :
      (c : Wrapper)
      → ReadsDigits host.libc
      → ((n : ℕ) → host.malloc n ≡ true)
      → IsTypedCall c
      → run host fuel conns fd w c ≡ request host fuel conns fd w c
  unfolding run request
  run-IsTypedCall (calling v) reads memory typed =
      rw (invoke_function-IsTyped host fuel conns fd w v reads memory typed) refl
  run-IsTypedCall (checked false v) reads memory typed =
      rw (invoke_function-IsTyped host fuel conns fd w v reads memory typed) refl
  run-IsTypedCall (checked true v) reads memory typed = refl
  run-IsTypedCall (releasing none f) reads memory typed = refl
  run-IsTypedCall (releasing (some h) f) reads memory typed =
      rw (invoke_function-IsTyped host fuel conns fd w (f h) reads memory (typed h)) refl

-- Each function of the client that calls the service sends one request, with its function id, with
-- all of its arguments in their order as VARIANTs of their types and with their number, and stores
-- what is returned by the type that its pointer has: the format string never disagrees with what is
-- passed. atoi reads the numbers in the formats, and there is memory for the arguments.
pub run-request :
    {W : Type 0} (host : Host W) (fuel : ℕ) (conns : Conns) (fd : ℕ) (w : W) (c : Wrapper)
    → ReadsDigits host.libc
    → ((n : ℕ) → host.malloc n ≡ true)
    → IsCall c
    → run host fuel conns fd w c ≡ request host fuel conns fd w c
run-request host fuel conns fd w c reads memory call =
    run-IsTypedCall host fuel conns fd w c reads memory (IsCall-IsTypedCall c call)
