-- ===== src/Server/Vector/Pop.antt =====
-- pop_vector and search_vector of bcap_core/src/bCAPServer/bcap_server.c, on the list behind the
-- vector.
use denso_robot_ros.Prelude.{
  ℕ, zero, suc, ◌+◌, ◌-◌, ◌≤◌, ◌≡◌, ◌≢◌, refl, ap, ◌∙◌, List, [], ◌∷◌, ◌++◌, Option, none, some,
  length, length-append, get_elem?, true, false, Bool-cases, ne→==, inl, inr, ◌&&◌, ◌==◌,
  if◌then◌else◌, arith,
}
use denso_robot_ros.Hresult.{Outcome, ok, failed, e_handle}
use denso_robot_ros.Server.Vector.{
  Ptr, Memory, Vector, store, set_prev, walk, unlink, pop_vector, search_from, search_vector,
}
use denso_robot_ros.Server.Vector.Linked.{
  Entry, first, Absent, cell, Linked, Represents, Linked-store, set_next-Linked,
}

-- The entry in front of what follows `pre`.
abbrev last_at : Ptr → List Entry → Ptr
last_at next [] = next
last_at next (e ∷ es) = last_at e.at es

Absent-middle :
    (p : Ptr) (pre post : List Entry) (e : Entry)
    → Absent p (pre ++ e ∷ post)
    → Absent p (pre ++ post)
Absent-middle p [] post e h = h.1
Absent-middle p (d ∷ pre) post e h = (h.0, Absent-middle p pre post e h.1)

Linked-holds :
    (m : Memory) (next : Ptr) (pre post : List Entry) (e : Entry)
    → Linked m next (pre ++ e ∷ post)
    → m e.at ≡ some (cell e (first post) (last_at next pre))
Linked-holds m next [] post e h = h.1
Linked-holds m next (d ∷ pre) post e h = Linked-holds m d.at pre post e h.3

last_at-ne :
    (m : Memory) (d : Entry) (next : Ptr) (pre rest : List Entry)
    → Linked m next (d ∷ pre ++ rest)
    → last_at d.at pre ≢ 0
last_at-ne m d next [] rest h = h.0
last_at-ne m d next (c ∷ pre) rest h = last_at-ne m c d.at pre rest h.3

-- Below another entry, the neighbours of the object are linked to one another.
unlink-below :
    (m : Memory) (next : Ptr) (d : Entry) (pre post : List Entry) (e : Entry)
    → Linked m next (d ∷ (pre ++ e ∷ post))
    → (m' : Memory) × (unlink m e.at (cell e (first post) (last_at d.at pre)) ≡ ok m')
      × Linked m' next (d ∷ (pre ++ post))
      × ((p : Ptr) → Absent p (d ∷ (pre ++ e ∷ post)) → m' p ≡ m p)
unfolding unlink set_prev
unlink-below m next d [] post e (ne, holds, (other, out), (ne', holds', out', linked)) =
    let m1 = store m e.at (cell e 0 0) in
    let m2 = store m1 d.at (cell d (first post) next) in
    let kept =
      Linked-store m1 d.at (cell d (first post) next) e.at post out
        (Linked-store m e.at (cell e 0 0) e.at post out' linked) in
    let (m3, runs, linked3, same) = set_next-Linked m2 e.at d.at post kept in
    let valid : (d.at == 0) ≡ false = ground (arith, ne) in
    let apart : (e.at == d.at) ≡ false = ground (arith, other) in
    (
      m3,
      rw (valid, apart, holds) runs,
      (ne, same d.at out ∙ ground arith, out, linked3),
      λ p absent. same p absent.1.1 ∙ ground (arith, absent.0, absent.1.0),
    )
unlink-below m next d (c ∷ pre) post e (ne, holds, out, linked) =
    let (m', runs, linked', same) = unlink-below m d.at c pre post e linked in
    (
      m',
      runs,
      (ne, same d.at out ∙ holds, Absent-middle d.at (c ∷ pre) post e out, linked'),
      λ p absent. same p absent.1,
    )

-- At the top, the object behind becomes the latest.
unlink-top :
    (m : Memory) (post : List Entry) (e : Entry)
    → Linked m 0 (e ∷ post)
    → (m' : Memory) × (unlink m e.at (cell e (first post) 0) ≡ ok m')
      × Linked m' 0 post
      × (m' e.at ≡ some (cell e 0 0))
unfolding unlink set_prev
unlink-top m post e (ne, holds, out, linked) =
    let m1 = store m e.at (cell e 0 0) in
    let (m2, runs, linked2, same) =
      set_next-Linked m1 e.at 0 post (Linked-store m e.at (cell e 0 0) e.at post out linked) in
    (m2, runs, linked2, same e.at out ∙ ground arith)

abbrev address_at : Option Entry → Outcome Ptr
address_at none = failed e_handle
address_at (some e) = ok e.at

walk-Linked :
    (m : Memory) (next : Ptr) (es : List Entry) (n i k index : ℕ)
    → Linked m next es
    → n ≡ length es
    → index ≡ i + k
    → walk m n i index (first es) ≡ address_at (get_elem? es k)
unfolding walk
walk-Linked m next [] zero i k index h hn hi = refl
walk-Linked m next [] (suc n) i k index h hn hi = absurd (omega arith)
walk-Linked m next (e ∷ es) zero i k index h hn hi = absurd (omega arith)
walk-Linked m next (e ∷ es) (suc n) i zero index (ne, holds, out, h) hn hi =
    let valid : (e.at == 0) ≡ false = ground (arith, ne) in
    let here : (i == index) ≡ true = ground arith in rw (valid, here) refl
walk-Linked m next (e ∷ es) (suc n) i (suc k) index (ne, holds, out, h) hn hi =
    let valid : (e.at == 0) ≡ false = ground (arith, ne) in
    let later : (i == index) ≡ false = ground arith in
    rw (valid, later, holds) (walk-Linked m e.at es n (i + 1) k index h (omega arith) (omega arith))

get_elem?-middle {ℓ} :
    {A : Type ℓ} (pre post : List A) (a : A) → get_elem? (pre ++ a ∷ post) (length pre) ≡ some a
get_elem?-middle [] post a = refl
get_elem?-middle (x ∷ pre) post a = get_elem?-middle pre post a

get_elem?-beyond {ℓ} : {A : Type ℓ} (xs : List A) (i : ℕ) → length xs ≤ i → get_elem? xs i ≡ none
get_elem?-beyond [] i h = refl
get_elem?-beyond (x ∷ xs) zero h = absurd (omega arith)
get_elem?-beyond (x ∷ xs) (suc i) h = get_elem?-beyond xs i (omega arith)

-- The latest object is taken out; its block keeps its id and its handle.
pub pop_vector-top :
    (v : Vector) (post : List Entry) (e : Entry)
    → Represents v (e ∷ post)
    → (v' : Vector) × (pop_vector v 0 ≡ ok (e.at, v'))
      × Represents v' post
      × (v'.cells e.at ≡ some (cell e 0 0))
unfolding pop_vector
pop_vector-top v post e rep =
    let (m', runs, linked, holds) = unlink-top v.cells post e rep.linked in
    let walked =
      walk-Linked v.cells 0 (e ∷ post) v.num_object 0 0 0 rep.linked rep.num_object_eq refl in
    (
      record { cells = m'; stack = first post; num_object = v.num_object - 1 },
      rw (rep.stack_eq, walked, rep.linked.1, runs) refl,
      record { stack_eq = refl; num_object_eq = omega (arith, rep.num_object_eq); linked = linked },
      holds,
    )

-- pop_vector takes the object out that has `length pre` later ones, and the vector then stands for
-- the others, in their order.
pub pop_vector-Represents :
    (v : Vector) (pre post : List Entry) (e : Entry)
    → Represents v (pre ++ e ∷ post)
    → (v' : Vector) × (pop_vector v (length pre) ≡ ok (e.at, v')) × Represents v' (pre ++ post)
unfolding pop_vector
pop_vector-Represents v [] post e rep =
    let (v', runs, rep', holds) = pop_vector-top v post e rep in (v', runs, rep')
pop_vector-Represents v (d ∷ pre) post e rep =
    let es = d ∷ (pre ++ e ∷ post) in
    let (m', runs, linked, same) = unlink-below v.cells 0 d pre post e rep.linked in
    let k = suc (length pre) in
    let walked =
      walk-Linked v.cells 0 es v.num_object 0 k k rep.linked rep.num_object_eq (omega arith)
      ∙ ap address_at (get_elem?-middle (d ∷ pre) post e) in
    let holds = Linked-holds v.cells 0 (d ∷ pre) post e rep.linked in
    let below : (last_at d.at pre == 0) ≡ false =
      ne→== (last_at d.at pre) 0 (last_at-ne v.cells d 0 pre (e ∷ post) rep.linked) in
    (
      record { cells = m'; stack = v.stack; num_object = v.num_object - 1 },
      rw (rep.stack_eq, walked, holds, runs, below) refl,
      record {
        stack_eq = rep.stack_eq;
        num_object_eq =
            omega (arith, rep.num_object_eq, length-append pre (e ∷ post), length-append pre post);
        linked = linked;
      },
    )

-- Beyond the last object pop_vector returns E_HANDLE.
pub pop_vector-beyond :
    (v : Vector) (es : List Entry) (index : ℕ)
    → Represents v es
    → length es ≤ index
    → pop_vector v index ≡ failed e_handle
unfolding pop_vector
pop_vector-beyond v es index rep beyond =
    let walked =
      walk-Linked v.cells 0 es v.num_object 0 index index rep.linked rep.num_object_eq (omega arith)
      ∙ ap address_at (get_elem?-beyond es index beyond) in
    rw (rep.stack_eq, walked) refl

-- The index of the latest object with a function id and a handle.
unfoldable pub index_of : ℕ → ℕ → ℕ → List Entry → Option ℕ
index_of i id h_obj [] = none
index_of i id h_obj (e ∷ es) =
    let rest = index_of (i + 1) id h_obj es in
    if e.id == id && e.h_obj == h_obj then some i else rest

search_from-Linked :
    (m : Memory) (next : Ptr) (es : List Entry) (n i id h_obj : ℕ)
    → Linked m next es
    → n ≡ length es
    → search_from m n i id h_obj (first es) ≡ ok (index_of i id h_obj es)
unfolding search_from index_of
search_from-Linked m next [] zero i id h_obj h hn = refl
search_from-Linked m next [] (suc n) i id h_obj h hn = absurd (omega arith)
search_from-Linked m next (e ∷ es) zero i id h_obj h hn = absurd (omega arith)
search_from-Linked m next (e ∷ es) (suc n) i id h_obj (ne, holds, out, h) hn =
    let valid : (e.at == 0) ≡ false = ground (arith, ne) in
    elim (Bool-cases (e.id == id && e.h_obj == h_obj)) [
      | inl found ↦ rw (valid, holds, found) refl
      | inr other ↦
          rw (valid, holds, other) (search_from-Linked m e.at es n (i + 1) id h_obj h (omega arith))
    ]

-- search_vector gives the index of the latest object with the function id and the handle.
pub search_vector-index_of :
    (v : Vector) (es : List Entry) (id h_obj : ℕ)
    → Represents v es
    → search_vector v id h_obj ≡ ok (index_of 0 id h_obj es)
unfolding search_vector
search_vector-index_of v es id h_obj rep =
    rw rep.stack_eq
      (search_from-Linked v.cells 0 es v.num_object 0 id h_obj rep.linked rep.num_object_eq)
