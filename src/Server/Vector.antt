-- ===== src/Server/Vector.antt =====
-- The vector of created objects: struct VEC_OBJECT, push_vector, pop_vector and search_vector of
-- bcap_core/src/bCAPServer/bcap_server.c.
pub mod Linked
pub mod Push
pub mod Pop
use denso_robot_ros.Prelude.{
  ℕ, zero, suc, ◌+◌, ◌-◌, Option, none, some, Bool, true, false, leb, ◌&&◌, ◌==◌, if◌then◌else◌,
}
use denso_robot_ros.Hresult.{Outcome, ok, failed, fault, ◌>>=◌, e_handle, e_max_object}

-- An address; 0 is NULL.
abbrev pub Ptr : Type 0
Ptr = ℕ

pub record VecObject : Type 0 where
  pub id : ℕ
  pub h_obj : ℕ
  pub prev : Ptr
  pub next : Ptr

abbrev pub Memory : Type 0
Memory = Ptr → Option VecObject

-- The members `stack` and `num_object` of a server object, with the memory that they point into.
pub record Vector : Type 0 where
  pub cells : Memory
  pub stack : Ptr
  pub num_object : ℕ

abbrev pub bcap_object_max : ℕ
bcap_object_max = 1000

abbrev pub deref : Option VecObject → Outcome VecObject
deref none = fault
deref (some o) = ok o

abbrev pub load : Memory → Ptr → Outcome VecObject
load cells p = deref (cells p)

abbrev pub store : Memory → Ptr → VecObject → Memory
store cells p o q = if p == q then some o else cells q

-- `if (p != NULL) p->next = next;`
unfoldable pub set_next : Memory → Ptr → Ptr → Outcome Memory
set_next cells p next =
    if p == 0 then ok cells else do o ← load cells p; ok (store cells p (record o { next = next }))

-- `if (p != NULL) p->prev = prev;`
unfoldable pub set_prev : Memory → Ptr → Ptr → Outcome Memory
set_prev cells p prev =
    if p == 0 then ok cells else do o ← load cells p; ok (store cells p (record o { prev = prev }))

unfoldable pub push_vector : Vector → Ptr → Outcome Vector
unfolding set_next
push_vector v obj = if leb bcap_object_max v.num_object then failed e_max_object else do
  o ← load v.cells obj
  cells ← set_next (store v.cells obj (record o { prev = v.stack })) v.stack obj
  ok (record { cells = cells; stack = obj; num_object = v.num_object + 1 })

-- The loops over the vector from its top: at most `n` rounds, the first with the index `i`.
unfoldable pub walk : Memory → ℕ → ℕ → ℕ → Ptr → Outcome Ptr
walk cells zero i index cur = failed e_handle
walk cells (suc n) i index cur =
    let rest = (do o ← load cells cur; walk cells n (i + 1) index o.prev) in
    if cur == 0 then failed e_handle else if i == index then ok cur else rest

-- The memory where the object `cur` is taken out, of which `o` was the contents.
unfoldable pub unlink : Memory → Ptr → VecObject → Outcome Memory
unfolding set_next set_prev
unlink cells cur o = do
  cells1 ← set_prev (store cells cur (record o { prev = 0; next = 0 })) o.next o.prev
  set_next cells1 o.prev o.next

-- pop_vector: the object that is taken out, and the vector.
unfoldable pub pop_vector : Vector → ℕ → Outcome (Ptr × Vector)
unfolding walk unlink
pop_vector v index = do
  cur ← walk v.cells v.num_object 0 index v.stack
  o ← load v.cells cur
  cells ← unlink v.cells cur o
  let top = (if o.next == 0 then o.prev else v.stack)
  ok (cur, record { cells = cells; stack = top; num_object = v.num_object - 1 })

-- search_vector; `none` for -1.
unfoldable pub search_from : Memory → ℕ → ℕ → ℕ → ℕ → Ptr → Outcome (Option ℕ)
search_from cells zero i id h_obj cur = ok none
search_from cells (suc n) i id h_obj cur =
    let here = load cells cur in
    let rest = (do o ← here; search_from cells n (i + 1) id h_obj o.prev) in
    if cur == 0
    then ok none
    else do o ← here; if o.id == id && o.h_obj == h_obj then ok (some i) else rest

unfoldable pub search_vector : Vector → ℕ → ℕ → Outcome (Option ℕ)
unfolding search_from
search_vector v id h_obj = search_from v.cells v.num_object 0 id h_obj v.stack
