-- ===== src/Server/MapId.antt =====
-- The map of function ids, bcap_core/include/bcap_core/bCAPServer/bcap_mapid.h.
use denso_robot_ros.Prelude.{ℕ, List, [], ◌∷◌, ◌++◌, Bool, ◌&&◌, ltb, leb, get_elem?, Option}

-- `relation_id` is the pattern of an `int32_t`: the function that releases the object which the
-- function creates, -1 for a function that releases one, 0 for the others.
pub record MapId : Type 0 where
  pub relation_id : ℕ
  pub return_flag : ℕ

abbrev pub minus_one : ℕ
minus_one = 0xffffffff

-- `relation_id > 0` and `relation_id < 0`
abbrev pub is_push : MapId → Bool
is_push e = ltb 0 e.relation_id && ltb e.relation_id 0x80000000

abbrev pub is_pop : MapId → Bool
is_pop e = leb 0x80000000 e.relation_id

abbrev row : ℕ → ℕ → MapId
row relation_id return_flag = record { relation_id = relation_id; return_flag = return_flag }

abbrev of_service : List MapId
of_service = row 0 0 ∷ row 2 0 ∷ row minus_one 0 ∷ []

abbrev of_controller : List MapId
of_controller =
    row 4 1
    ∷ row minus_one 0
    ∷ row 36 1
    ∷ row 61 1
    ∷ row 84 1
    ∷ row 99 1
    ∷ row 111 1
    ∷ row 127 1
    ∷ row 0 1
    ∷ row 0 1
    ∷ row 0 1
    ∷ row 0 1
    ∷ row 0 1
    ∷ row 0 1
    ∷ row 0 1
    ∷ row 137 1
    ∷ row 0 1
    ∷ row 0 1
    ∷ row 0 1
    ∷ row 0 1
    ∷ row 0 0
    ∷ row 0 1
    ∷ row 0 0
    ∷ []

abbrev of_extension : List MapId
of_extension =
    row 111 1
    ∷ row 0 1
    ∷ row 0 1
    ∷ row 0 1
    ∷ row 0 1
    ∷ row 0 1
    ∷ row 0 1
    ∷ row 0 0
    ∷ row 0 1
    ∷ row 0 0
    ∷ row minus_one 0
    ∷ []

abbrev of_file : List MapId
of_file =
    row 61 1
    ∷ row 111 1
    ∷ row 0 1
    ∷ row 0 1
    ∷ row 0 1
    ∷ row 0 0
    ∷ row 0 0
    ∷ row 0 0
    ∷ row 0 1
    ∷ row 0 1
    ∷ row 0 1
    ∷ row 0 1
    ∷ row 0 1
    ∷ row 0 1
    ∷ row 0 1
    ∷ row 0 1
    ∷ row 0 0
    ∷ row 0 1
    ∷ row 0 1
    ∷ row 0 1
    ∷ row 0 1
    ∷ row 0 0
    ∷ row 0 1
    ∷ row 0 0
    ∷ row minus_one 0
    ∷ []

abbrev of_robot : List MapId
of_robot =
    row 111 1
    ∷ row 0 1
    ∷ row 0 1
    ∷ row 0 0
    ∷ row 0 0
    ∷ row 0 0
    ∷ row 0 0
    ∷ row 0 0
    ∷ row 0 0
    ∷ row 0 0
    ∷ row 0 0
    ∷ row 0 0
    ∷ row 0 0
    ∷ row 0 0
    ∷ row 0 0
    ∷ row 0 1
    ∷ row 0 1
    ∷ row 0 1
    ∷ row 0 1
    ∷ row 0 0
    ∷ row 0 1
    ∷ row 0 0
    ∷ row minus_one 0
    ∷ []

abbrev of_task : List MapId
of_task =
    row 111 1
    ∷ row 0 1
    ∷ row 0 1
    ∷ row 0 0
    ∷ row 0 0
    ∷ row 0 0
    ∷ row 0 1
    ∷ row 0 1
    ∷ row 0 1
    ∷ row 0 1
    ∷ row 0 1
    ∷ row 0 0
    ∷ row 0 1
    ∷ row 0 0
    ∷ row minus_one 0
    ∷ []

abbrev of_variable : List MapId
of_variable =
    row 0 1
    ∷ row 0 1
    ∷ row 0 0
    ∷ row 0 1
    ∷ row 0 1
    ∷ row 0 1
    ∷ row 0 1
    ∷ row 0 0
    ∷ row 0 1
    ∷ row 0 0
    ∷ row 0 1
    ∷ row minus_one 0
    ∷ []

abbrev of_command : List MapId
of_command =
    row 0 0
    ∷ row 0 0
    ∷ row 0 1
    ∷ row 0 0
    ∷ row 0 1
    ∷ row 0 1
    ∷ row 0 0
    ∷ row 0 1
    ∷ row 0 1
    ∷ row 0 1
    ∷ row 0 1
    ∷ row 0 1
    ∷ row 0 1
    ∷ row 0 1
    ∷ row 0 0
    ∷ row minus_one 0
    ∷ []

abbrev of_message : List MapId
of_message =
    row 0 0
    ∷ row 0 0
    ∷ row 0 1
    ∷ row 0 1
    ∷ row 0 1
    ∷ row 0 1
    ∷ row 0 1
    ∷ row 0 1
    ∷ row 0 1
    ∷ row minus_one 0
    ∷ []

-- m_map_id, by function id
abbrev pub map_id : List MapId
map_id =
    of_service ++ of_controller ++ of_extension ++ of_file ++ of_robot ++ of_task ++ of_variable
    ++ of_command ++ of_message

abbrev pub lookup : ℕ → Option MapId
lookup id = get_elem? map_id id
