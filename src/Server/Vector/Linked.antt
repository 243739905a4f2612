-- ===== src/Server/Vector/Linked.antt =====
-- The doubly linked list behind the vector of bcap_core/src/bCAPServer/bcap_server.c, and the list
-- that it stands for.
use denso_robot_ros.Prelude.{
  ℕ, ◌≡◌, ◌≢◌, refl, List, [], ◌∷◌, some, false, length, All, ◌==◌, arith,
}
use denso_robot_ros.Hresult.{ok}
use denso_robot_ros.Server.Vector.{Ptr, VecObject, Memory, Vector, store, set_next}

-- An object that was created, and where it stands.
pub record Entry : Type 0 where
  pub at : Ptr
  pub id : ℕ
  pub h_obj : ℕ

abbrev pub first : List Entry → Ptr
first [] = 0
first (e ∷ es) = e.at

abbrev pub Absent : Ptr → List Entry → Type 0
Absent p es = All (λ e. e.at ≢ p) es

abbrev pub cell : Entry → Ptr → Ptr → VecObject
cell e prev next = record { id = e.id; h_obj = e.h_obj; prev = prev; next = next }

-- From the latest object on, `prev` leads through the entries, and `next` back; `next` of the first
-- one is given.
abbrev pub Linked : Memory → Ptr → List Entry → Type 0
Linked cells next [] = Unit {0}
Linked cells next (e ∷ es) =
    (e.at ≢ 0)
    × (cells e.at ≡ some (cell e (first es) next))
    × Absent e.at es
    × Linked cells e.at es

-- The vector stands for the entries, the latest first.
pub record Represents (v : Vector) (es : List Entry) : Type 0 where
  pub stack_eq : v.stack ≡ first es
  pub num_object_eq : v.num_object ≡ length es
  pub linked : Linked v.cells 0 es

pub Linked-store :
    (m : Memory) (p : Ptr) (o : VecObject) (next : Ptr) (es : List Entry)
    → Absent p es
    → Linked m next es
    → Linked (store m p o) next es
Linked-store m p o next [] out h = tt
Linked-store m p o next (e ∷ es) (other, rest) (ne, holds, out, h) =
    (ne, ground (arith, holds, other), out, Linked-store m p o e.at es rest h)

-- A new `next` in the first entry.
pub Linked-relink :
    (m : Memory) (next next' : Ptr) (e : Entry) (es : List Entry)
    → Linked m next (e ∷ es)
    → Linked (store m e.at (cell e (first es) next')) next' (e ∷ es)
Linked-relink m next next' e es (ne, holds, out, h) =
    (ne, ground arith, out, Linked-store m e.at (cell e (first es) next') e.at es out h)

-- `set_next` on the first entry of a list, if it has one.
pub set_next-Linked :
    (m : Memory) (next next' : Ptr) (es : List Entry)
    → Linked m next es
    → (m' : Memory) × (set_next m (first es) next' ≡ ok m')
      × Linked m' next' es
      × ((p : Ptr) → Absent p es → m' p ≡ m p)
unfolding set_next
set_next-Linked m next next' [] h = (m, refl, tt, λ p absent. refl)
set_next-Linked m next next' (e ∷ es) h =
    let valid : (e.at == 0) ≡ false = ground (arith, h.0) in
    (
      store m e.at (cell e (first es) next'),
      rw (valid, h.1) refl,
      Linked-relink m next next' e es h,
      λ p absent. ground (arith, absent.0),
    )
