-- ===== src/Server/Tests.antt =====
-- A vector of two objects in the memory of bcap_core/src/bCAPServer/bcap_server.c.
use denso_robot_ros.Prelude.{◌≡◌, refl, List, [], ◌∷◌, none, some, arith}
use denso_robot_ros.Hresult.{ok}
use denso_robot_ros.Server.Vector.{Vector, push_vector, pop_vector, search_vector, store}
use denso_robot_ros.Server.Vector.Linked.{Entry, cell, Represents}
use denso_robot_ros.Server.Vector.Push.{push_vector-Represents}
use denso_robot_ros.Server.Vector.Pop.{index_of, pop_vector-Represents, search_vector-index_of}

-- A controller, then a robot of it, then a task.
abbrev controller : Entry
controller = record { at = 100; id = 3; h_obj = 11 }

abbrev robot : Entry
robot = record { at = 200; id = 7; h_obj = 12 }

abbrev task : Entry
task = record { at = 300; id = 8; h_obj = 13 }

abbrev pub two_objects : Vector
two_objects = record {
  cells =
      store (store (store (λ p. none) 100 (cell controller 0 200)) 200 (cell robot 100 0)) 300
        (cell task 0 0);
  stack = 200;
  num_object = 2;
}

abbrev pub entries : List Entry
entries = robot ∷ controller ∷ []

pub two_objects-Represents : Represents two_objects entries
two_objects-Represents = record {
  stack_eq = refl;
  num_object_eq = refl;
  linked = (ground arith, refl, (ground arith, tt), (ground arith, refl, tt, tt));
}

push_vector-Represents_example :
    (v : Vector) × (push_vector two_objects 300 ≡ ok v) × Represents v (task ∷ entries)
push_vector-Represents_example =
    push_vector-Represents two_objects entries task two_objects-Represents (omega arith)
      (ground arith) (ground arith, (ground arith, tt)) refl

pop_vector-Represents_example :
    (v : Vector) × (pop_vector two_objects 1 ≡ ok (100, v)) × Represents v (robot ∷ [])
pop_vector-Represents_example =
    pop_vector-Represents two_objects (robot ∷ []) [] controller two_objects-Represents

search_vector-index_of_example : search_vector two_objects 3 11 ≡ ok (some 1)
unfolding index_of
search_vector-index_of_example =
    search_vector-index_of two_objects entries 3 11 two_objects-Represents
