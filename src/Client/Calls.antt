-- ===== src/Client/Calls.antt =====
-- The functions of bcap_core/src/bCAPClient/bcap_client.c that call the service, around
-- invoke_function.
pub mod Service
pub mod Controller
pub mod Extension
pub mod File
pub mod Robot
pub mod Task
pub mod Variable
pub mod Command
pub mod Message
pub mod All
pub mod Typed
pub mod Reads
pub mod Checked
pub mod Requests
pub mod Replies
pub mod Returns
mod Tests
use Prim.Native.Char.{code}
use Prim.Native.String.{String}
use denso_robot_ros.Prelude.{ℕ, List, [], ◌∷◌, Option, none, some, Bool, if◌then◌else◌}
use denso_robot_ros.Hresult.{Hresult, Outcome, ok, failed, ◌>>=◌, is_failed, e_invalidarg}
use denso_robot_ros.Device.{Chars}
use denso_robot_ros.Client.{Conns}
use denso_robot_ros.Client.Invoke.{Invocation, Called, Host, invoke_function}

-- A string literal of the source, of ASCII characters.
abbrev pub codes : String → Chars
codes String.[] = []
codes (String.◌∷◌ c s) = code c ∷ codes s

-- The three forms of the functions: invoke_function alone; with E_INVALIDARG in front of it where
-- the pointer for the return value is NULL; and, for a pointer to a handle, with the handle set to 0
-- where the call succeeds. A pointer to a handle is `none` for NULL.
pub data Wrapper : Type 0 where
  calling : Invocation → Wrapper
  checked : Bool → Invocation → Wrapper
  releasing : Option ℕ → (ℕ → Invocation) → Wrapper

abbrev pub released : Hresult → ℕ → ℕ
released hr h = if is_failed hr then h else 0

module _ {W : Type 0} (host : Host W) (fuel : ℕ) (conns : Conns) (fd : ℕ) (w : W) where
  -- The result of invoke_function, and the handle afterwards where there is a pointer to one.
  unfoldable pub run : Wrapper → Outcome (Called W × Option ℕ)
  unfolding invoke_function
  run (calling v) = do c ← invoke_function host fuel conns fd w v; ok (c, none)
  run (checked null v) =
      if null
      then failed e_invalidarg
      else do c ← invoke_function host fuel conns fd w v; ok (c, none)
  run (releasing none f) = failed e_invalidarg
  run (releasing (some h) f) = do
    c ← invoke_function host fuel conns fd w (f h)
    ok (c, some (released c.hr h))
