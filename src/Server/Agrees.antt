-- ===== src/Server/Agrees.antt =====
-- The answers of bcap_core/src/bCAPServer/bcap_server.c, by the map of function ids of bcap_core/
-- include/bcap_core/bCAPServer/bcap_mapid.h, against the functions of the client.
use mathlib.Core.Option.{none-ne-some, some-injective}
use denso_robot_ros.Prelude.{ℕ, ◌≡◌, refl, ap, ◌∙◌, Option, none, some, true, ◌==◌, if◌then◌else◌}
use denso_robot_ros.Variant.{nil, cons}
use denso_robot_ros.Packet.{Packet}
use denso_robot_ros.Client.Invoke.{Kind, Invocation}
use denso_robot_ros.Client.Calls.{Wrapper, calling, checked, releasing}
use denso_robot_ros.Client.Calls.All
use denso_robot_ros.Client.Calls.All.{IsCall}
use denso_robot_ros.Client.Calls.Typed.{pointed, pointers}
use denso_robot_ros.Server.MapId.{MapId, lookup}
use denso_robot_ros.Server.Execute.{Calls, CallFunc, is_function, call_entry, callfunc}

-- What a function hands to invoke_function; of a pointer to a handle, with the handle.
abbrev pub invocation : Wrapper → Invocation
invocation (calling v) = v
invocation (checked null v) = v
invocation (releasing none f) = f 0
invocation (releasing (some h) f) = f h

-- 1 for a function with a pointer for the return value.
abbrev pub wants : Option Kind → ℕ
wants none = 0
wants (some k) = 1

abbrev pub flag_of : Option MapId → Option ℕ
flag_of none = none
flag_of (some e) = some e.return_flag

-- The number of values that the server answers a function of the client with: one where the function
-- has a pointer for it, but none to ID_COMMAND_EXECUTE, which has a pointer, and one to
-- ID_COMMAND_PUTTAG, which has none.
abbrev pub returned : Wrapper → ℕ
returned c =
    let v = invocation c in
    if v.id == 112 then 0 else if v.id == 124 then 1 else wants (pointed (pointers v.va))

-- The id of each function is one of the map, whose flag is that number.
flag_of-returned :
    (c : Wrapper)
    → IsCall c
    → (is_function (invocation c).id ≡ true)
      × (flag_of (lookup (invocation c).id) ≡ some (returned c))
      × ((if returned c == 0 then 0 else 1) ≡ returned c)
unfolding pointers
flag_of-returned c (All.service_start s) = (refl, refl, refl)
flag_of-returned c All.service_stop = (refl, refl, refl)
flag_of-returned c (All.controller_connect s1 s2 s3 s4 null) = (refl, refl, refl)
flag_of-returned c (All.controller_disconnect none) = (refl, refl, refl)
flag_of-returned c (All.controller_disconnect (some h)) = (refl, refl, refl)
flag_of-returned c (All.controller_get_extension n s1 s2 null) = (refl, refl, refl)
flag_of-returned c (All.controller_get_file n s1 s2 null) = (refl, refl, refl)
flag_of-returned c (All.controller_get_robot n s1 s2 null) = (refl, refl, refl)
flag_of-returned c (All.controller_get_task n s1 s2 null) = (refl, refl, refl)
flag_of-returned c (All.controller_get_variable n s1 s2 null) = (refl, refl, refl)
flag_of-returned c (All.controller_get_command n s1 s2 null) = (refl, refl, refl)
flag_of-returned c (All.controller_get_extension_names n s null) = (refl, refl, refl)
flag_of-returned c (All.controller_get_file_names n s null) = (refl, refl, refl)
flag_of-returned c (All.controller_get_robot_names n s null) = (refl, refl, refl)
flag_of-returned c (All.controller_get_task_names n s null) = (refl, refl, refl)
flag_of-returned c (All.controller_get_variable_names n s null) = (refl, refl, refl)
flag_of-returned c (All.controller_get_command_names n s null) = (refl, refl, refl)
flag_of-returned c (All.controller_execute n s v null) = (refl, refl, refl)
flag_of-returned c (All.controller_get_message n null) = (refl, refl, refl)
flag_of-returned c (All.controller_get_attribute n null) = (refl, refl, refl)
flag_of-returned c (All.controller_get_help n null) = (refl, refl, refl)
flag_of-returned c (All.controller_get_name n null) = (refl, refl, refl)
flag_of-returned c (All.controller_get_tag n null) = (refl, refl, refl)
flag_of-returned c (All.controller_put_tag n v) = (refl, refl, refl)
flag_of-returned c (All.controller_get_id n null) = (refl, refl, refl)
flag_of-returned c (All.controller_put_id n v) = (refl, refl, refl)
flag_of-returned c (All.extension_get_variable n s1 s2 null) = (refl, refl, refl)
flag_of-returned c (All.extension_get_variable_names n s null) = (refl, refl, refl)
flag_of-returned c (All.extension_execute n s v null) = (refl, refl, refl)
flag_of-returned c (All.extension_get_attribute n null) = (refl, refl, refl)
flag_of-returned c (All.extension_get_help n null) = (refl, refl, refl)
flag_of-returned c (All.extension_get_name n null) = (refl, refl, refl)
flag_of-returned c (All.extension_get_tag n null) = (refl, refl, refl)
flag_of-returned c (All.extension_put_tag n v) = (refl, refl, refl)
flag_of-returned c (All.extension_get_id n null) = (refl, refl, refl)
flag_of-returned c (All.extension_put_id n v) = (refl, refl, refl)
flag_of-returned c (All.extension_release none) = (refl, refl, refl)
flag_of-returned c (All.extension_release (some h)) = (refl, refl, refl)
flag_of-returned c (All.file_get_file n s1 s2 null) = (refl, refl, refl)
flag_of-returned c (All.file_get_variable n s1 s2 null) = (refl, refl, refl)
flag_of-returned c (All.file_get_file_names n s null) = (refl, refl, refl)
flag_of-returned c (All.file_get_variable_names n s null) = (refl, refl, refl)
flag_of-returned c (All.file_execute n s v null) = (refl, refl, refl)
flag_of-returned c (All.file_copy n s1 s2) = (refl, refl, refl)
flag_of-returned c (All.file_delete n s) = (refl, refl, refl)
flag_of-returned c (All.file_move n s1 s2) = (refl, refl, refl)
flag_of-returned c (All.file_run n s null) = (refl, refl, refl)
flag_of-returned c (All.file_get_date_created n null) = (refl, refl, refl)
flag_of-returned c (All.file_get_date_last_accessed n null) = (refl, refl, refl)
flag_of-returned c (All.file_get_date_last_modified n null) = (refl, refl, refl)
flag_of-returned c (All.file_get_path n null) = (refl, refl, refl)
flag_of-returned c (All.file_get_size n null) = (refl, refl, refl)
flag_of-returned c (All.file_get_type n null) = (refl, refl, refl)
flag_of-returned c (All.file_get_value n null) = (refl, refl, refl)
flag_of-returned c (All.file_put_value n v) = (refl, refl, refl)
flag_of-returned c (All.file_get_attribute n null) = (refl, refl, refl)
flag_of-returned c (All.file_get_help n null) = (refl, refl, refl)
flag_of-returned c (All.file_get_name n null) = (refl, refl, refl)
flag_of-returned c (All.file_get_tag n null) = (refl, refl, refl)
flag_of-returned c (All.file_put_tag n v) = (refl, refl, refl)
flag_of-returned c (All.file_get_id n null) = (refl, refl, refl)
flag_of-returned c (All.file_put_id n v) = (refl, refl, refl)
flag_of-returned c (All.file_release none) = (refl, refl, refl)
flag_of-returned c (All.file_release (some h)) = (refl, refl, refl)
flag_of-returned c (All.robot_get_variable n s1 s2 null) = (refl, refl, refl)
flag_of-returned c (All.robot_get_variable_names n s null) = (refl, refl, refl)
flag_of-returned c (All.robot_execute n s v null) = (refl, refl, refl)
flag_of-returned c (All.robot_accelerate n1 n2 n3 n4) = (refl, refl, refl)
flag_of-returned c (All.robot_change n s) = (refl, refl, refl)
flag_of-returned c (All.robot_chuck n s) = (refl, refl, refl)
flag_of-returned c (All.robot_drive n1 n2 n3 s) = (refl, refl, refl)
flag_of-returned c (All.robot_go_home n) = (refl, refl, refl)
flag_of-returned c (All.robot_halt n s) = (refl, refl, refl)
flag_of-returned c (All.robot_hold n s) = (refl, refl, refl)
flag_of-returned c (All.robot_move n1 n2 v s) = (refl, refl, refl)
flag_of-returned c (All.robot_rotate n1 v1 n2 v2 s) = (refl, refl, refl)
flag_of-returned c (All.robot_speed n1 n2 n3) = (refl, refl, refl)
flag_of-returned c (All.robot_unchuck n s) = (refl, refl, refl)
flag_of-returned c (All.robot_unhold n s) = (refl, refl, refl)
flag_of-returned c (All.robot_get_attribute n null) = (refl, refl, refl)
flag_of-returned c (All.robot_get_help n null) = (refl, refl, refl)
flag_of-returned c (All.robot_get_name n null) = (refl, refl, refl)
flag_of-returned c (All.robot_get_tag n null) = (refl, refl, refl)
flag_of-returned c (All.robot_put_tag n v) = (refl, refl, refl)
flag_of-returned c (All.robot_get_id n null) = (refl, refl, refl)
flag_of-returned c (All.robot_put_id n v) = (refl, refl, refl)
flag_of-returned c (All.robot_release none) = (refl, refl, refl)
flag_of-returned c (All.robot_release (some h)) = (refl, refl, refl)
flag_of-returned c (All.task_get_variable n s1 s2 null) = (refl, refl, refl)
flag_of-returned c (All.task_get_variable_names n s null) = (refl, refl, refl)
flag_of-returned c (All.task_execute n s v null) = (refl, refl, refl)
flag_of-returned c (All.task_start n1 n2 s) = (refl, refl, refl)
flag_of-returned c (All.task_stop n1 n2 s) = (refl, refl, refl)
flag_of-returned c (All.task_delete n s) = (refl, refl, refl)
flag_of-returned c (All.task_get_file_name n null) = (refl, refl, refl)
flag_of-returned c (All.task_get_attribute n null) = (refl, refl, refl)
flag_of-returned c (All.task_get_help n null) = (refl, refl, refl)
flag_of-returned c (All.task_get_name n null) = (refl, refl, refl)
flag_of-returned c (All.task_get_tag n null) = (refl, refl, refl)
flag_of-returned c (All.task_put_tag n v) = (refl, refl, refl)
flag_of-returned c (All.task_get_id n null) = (refl, refl, refl)
flag_of-returned c (All.task_put_id n v) = (refl, refl, refl)
flag_of-returned c (All.task_release none) = (refl, refl, refl)
flag_of-returned c (All.task_release (some h)) = (refl, refl, refl)
flag_of-returned c (All.variable_get_date_time n null) = (refl, refl, refl)
flag_of-returned c (All.variable_get_value n null) = (refl, refl, refl)
flag_of-returned c (All.variable_put_value n v) = (refl, refl, refl)
flag_of-returned c (All.variable_get_attribute n null) = (refl, refl, refl)
flag_of-returned c (All.variable_get_help n null) = (refl, refl, refl)
flag_of-returned c (All.variable_get_name n null) = (refl, refl, refl)
flag_of-returned c (All.variable_get_tag n null) = (refl, refl, refl)
flag_of-returned c (All.variable_put_tag n v) = (refl, refl, refl)
flag_of-returned c (All.variable_get_id n null) = (refl, refl, refl)
flag_of-returned c (All.variable_put_id n v) = (refl, refl, refl)
flag_of-returned c (All.variable_get_microsecond n null) = (refl, refl, refl)
flag_of-returned c (All.variable_release none) = (refl, refl, refl)
flag_of-returned c (All.variable_release (some h)) = (refl, refl, refl)
flag_of-returned c (All.command_execute n1 n2 null) = (refl, refl, refl)
flag_of-returned c (All.command_cancel n) = (refl, refl, refl)
flag_of-returned c (All.command_get_timeout n null) = (refl, refl, refl)
flag_of-returned c (All.command_put_timeout n1 n2) = (refl, refl, refl)
flag_of-returned c (All.command_get_state n null) = (refl, refl, refl)
flag_of-returned c (All.command_get_parameters n null) = (refl, refl, refl)
flag_of-returned c (All.command_put_parameters n v) = (refl, refl, refl)
flag_of-returned c (All.command_get_result n null) = (refl, refl, refl)
flag_of-returned c (All.command_get_attribute n null) = (refl, refl, refl)
flag_of-returned c (All.command_get_help n null) = (refl, refl, refl)
flag_of-returned c (All.command_get_name n null) = (refl, refl, refl)
flag_of-returned c (All.command_get_tag n null) = (refl, refl, refl)
flag_of-returned c (All.command_put_tag n v) = (refl, refl, refl)
flag_of-returned c (All.command_get_id n null) = (refl, refl, refl)
flag_of-returned c (All.command_put_id n v) = (refl, refl, refl)
flag_of-returned c (All.command_release none) = (refl, refl, refl)
flag_of-returned c (All.command_release (some h)) = (refl, refl, refl)
flag_of-returned c (All.message_reply n v) = (refl, refl, refl)
flag_of-returned c (All.message_clear n) = (refl, refl, refl)
flag_of-returned c (All.message_get_date_time n null) = (refl, refl, refl)
flag_of-returned c (All.message_get_description n null) = (refl, refl, refl)
flag_of-returned c (All.message_get_destination n null) = (refl, refl, refl)
flag_of-returned c (All.message_get_number n null) = (refl, refl, refl)
flag_of-returned c (All.message_get_serial_number n null) = (refl, refl, refl)
flag_of-returned c (All.message_get_source n null) = (refl, refl, refl)
flag_of-returned c (All.message_get_value n null) = (refl, refl, refl)
flag_of-returned c (All.message_release none) = (refl, refl, refl)
flag_of-returned c (All.message_release (some h)) = (refl, refl, refl)

flag_of-some :
    (o : Option MapId) (k : ℕ)
    → flag_of o ≡ some k
    → (e : MapId) × (o ≡ some e) × (e.return_flag ≡ k)
flag_of-some none k h = absurd (none-ne-some k h)
flag_of-some (some e) k h = (e, refl, some-injective e.return_flag k h)

-- The server answers a request for a function of the client, which m_list_func has, with the number of
-- the request, the code and the value of the function; the number of arguments in the answer is one
-- exactly where the function of the client has a pointer for a value, but for ID_COMMAND_EXECUTE,
-- whose value is not sent although the client has a pointer for it, and for ID_COMMAND_PUTTAG, for
-- which a value is sent although it has none.
pub callfunc-returned :
    {W : Type 0} (calls : Calls W) (c : Wrapper) (f : CallFunc W) (p send : Packet) (w : W)
    → IsCall c
    → p.id ≡ (invocation c).id
    → calls.list_func p.id ≡ some f
    → callfunc calls p send w ≡ (
      record {
        serial = p.serial;
        reserv = 0;
        id = (f p.args p.argc w).0;
        argc = returned c;
        args = cons (f p.args p.argc w).1 nil;
      },
      (f p.args p.argc w).2,
    )
unfolding callfunc call_entry
callfunc-returned calls c f p send w call of_call listed =
    let (inside, flag, counted) = flag_of-returned c call in
    let (e, found, value) = flag_of-some (lookup (invocation c).id) (returned c) flag in
    let mapped : lookup p.id ≡ some e = ap lookup of_call ∙ found in
    let function : is_function p.id ≡ true = ap is_function of_call ∙ inside in
    rw (function, listed, mapped, value, counted) refl
