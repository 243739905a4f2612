-- ===== src/Server/Vector/Push.antt =====
-- push_vector of bcap_core/src/bCAPServer/bcap_server.c, on the list behind the vector.
use denso_robot_ros.Prelude.{
  ◌+◌, ◌≤◌, ◌<◌, ◌≡◌, ◌≢◌, refl, ◌∙◌, List, ◌∷◌, some, length, lt→leb, le→leb, leb, arith, false,
}
use denso_robot_ros.Hresult.{ok, failed, e_max_object}
use denso_robot_ros.Server.Vector.{Ptr, Vector, bcap_object_max, store, push_vector}
use denso_robot_ros.Server.Vector.Linked.{
  Entry, first, Absent, cell, Represents, Linked-store, set_next-Linked,
}

-- push_vector puts a new object, which stands apart from those of the vector, in front of the
-- objects that the vector stands for, while there are fewer than BCAP_OBJECT_MAX.
pub push_vector-Represents :
    (v : Vector) (es : List Entry) (e : Entry)
    → Represents v es
    → length es < bcap_object_max
    → e.at ≢ 0
    → Absent e.at es
    → v.cells e.at ≡ some (cell e 0 0)
    → (v' : Vector) × (push_vector v e.at ≡ ok v') × Represents v' (e ∷ es)
unfolding push_vector
push_vector-Represents v es e rep room ne absent fresh =
    let m1 = store v.cells e.at (cell e (first es) 0) in
    let (m2, runs, linked, same) =
      set_next-Linked m1 0 e.at es
        (Linked-store v.cells e.at (cell e (first es) 0) 0 es absent rep.linked) in
    let below : leb bcap_object_max v.num_object ≡ false =
      lt→leb bcap_object_max v.num_object (omega (arith, rep.num_object_eq)) in
    (
      record { cells = m2; stack = e.at; num_object = v.num_object + 1 },
      rw (below, fresh, rep.stack_eq, runs) refl,
      record {
        stack_eq = refl;
        num_object_eq = omega (arith, rep.num_object_eq);
        linked = (ne, same e.at absent ∙ ground arith, absent, linked);
      },
    )

-- At BCAP_OBJECT_MAX objects push_vector refuses, and changes nothing.
pub push_vector-full :
    (v : Vector) (es : List Entry) (p : Ptr)
    → Represents v es
    → bcap_object_max ≤ length es
    → push_vector v p ≡ failed e_max_object
unfolding push_vector
push_vector-full v es p rep full =
    rw (le→leb bcap_object_max v.num_object (omega (arith, rep.num_object_eq))) refl
