-- ===== src/Server/Cleanup.antt =====
-- bCap_SetCallFunc, and the end of recv_thread, of bcap_core/src/bCAPServer/bcap_server.c.
use denso_robot_ros.Prelude.{
  ℕ, zero, suc, ◌<◌, ◌≡◌, refl, List, [], ◌∷◌, Option, none, some, length, not, ◌==◌, if◌then◌else◌,
  arith,
}
use denso_robot_ros.Hresult.{
  Hresult, Outcome, ok, failed, fault, out_of_fuel, ◌>>=◌, s_ok, e_invalidarg,
}
use denso_robot_ros.Variant.{plain, nil, cons}
use denso_robot_ros.Server.Vector.{Ptr, VecObject, Vector, load, pop_vector}
use denso_robot_ros.Server.Vector.Linked.{Entry, cell, Represents}
use denso_robot_ros.Server.Vector.Pop.{pop_vector-top, pop_vector-beyond}
use denso_robot_ros.Server.Execute.{CallFunc, is_function}

-- m_list_func
abbrev pub Functions : Type 0 → Type 0
Functions W = ℕ → Option (CallFunc W)

unfoldable pub set_call_func :
    {W : Type 0} → Functions W → ℕ → Option (CallFunc W) → Hresult × Functions W
set_call_func funcs id f =
    if not (is_function id)
    then (e_invalidarg, funcs)
    else (s_ok, λ i. if i == id then f else funcs i)

module _ {W : Type 0} (funcs : Functions W) where
  abbrev pub call_release : Option (CallFunc W) → VecObject → W → W
  call_release none o w = w
  call_release (some f) o w = (f (cons (plain 3 o.h_obj) nil) (if o.id == 2 then 0 else 1) w).2

  -- A round after pop_vector, with the rounds behind it.
  unfoldable pub release_one :
      (Vector → W → Outcome (Vector × W))
      → Vector
      → W
      → Outcome (Ptr × Vector)
      → Outcome (Vector × W)
  release_one again v w (ok (p, v')) = do
    o ← load v'.cells p
    again v' (call_release (funcs o.id) o w)
  release_one again v w (failed hr) = ok (v, w)
  release_one again v w fault = fault
  release_one again v w out_of_fuel = out_of_fuel

  -- `while (1)`: the objects are taken out and released, until pop_vector fails.
  unfoldable pub release_all : ℕ → Vector → W → Outcome (Vector × W)
  unfolding pop_vector release_one
  release_all zero v w = out_of_fuel
  release_all (suc fuel) v w = release_one (λ v' w'. release_all fuel v' w') v w (pop_vector v 0)

  -- The state after each object of a list is released once, from its front.
  unfoldable pub released_in_turn : List Entry → W → W
  released_in_turn [] w = w
  released_in_turn (e ∷ es) w = released_in_turn es (call_release (funcs e.id) (cell e 0 0) w)

-- The end of recv_thread returns: each object that the client left is released exactly once, the
-- latest first, and the vector is empty afterwards. One round more than the number of objects is
-- enough.
pub release_all-Represents :
    {W : Type 0} (funcs : Functions W) (es : List Entry) (fuel : ℕ) (v : Vector) (w : W)
    → Represents v es
    → length es < fuel
    → (v' : Vector) × (release_all funcs fuel v w ≡ ok (v', released_in_turn funcs es w))
      × Represents v' []
unfolding release_all released_in_turn release_one
release_all-Represents funcs es zero v w rep enough = absurd (omega (arith, enough))
release_all-Represents funcs [] (suc fuel) v w rep enough =
    (v, rw (pop_vector-beyond v [] 0 rep (omega arith)) refl, rep)
release_all-Represents funcs (e ∷ es) (suc fuel) v w rep enough =
    let (v1, pops, rep1, holds) = pop_vector-top v es e rep in
    let (v', runs, rep') =
      release_all-Represents funcs es fuel v1 (call_release funcs (funcs e.id) (cell e 0 0) w) rep1
        (omega (arith, enough)) in
    (v', rw (pops, holds, runs) refl, rep')
