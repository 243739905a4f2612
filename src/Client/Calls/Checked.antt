-- ===== src/Client/Calls/Checked.antt =====
-- The functions that call the service have formats for what they pass: bCap_* of
-- bcap_core/src/bCAPClient/bcap_client.c.
use denso_robot_ros.Prelude.{ℕ, ◌≡◌, refl, length, true, leb, leb→le}
use denso_robot_ros.Variant.{count_variants}
use denso_robot_ros.Client.Invoke.{Invocation, cut}
use denso_robot_ros.Client.Calls.{Wrapper, calling, checked, releasing}
use denso_robot_ros.Client.Calls.All
use denso_robot_ros.Client.Calls.All.{IsCall}
use denso_robot_ros.Client.Calls.Typed.{
  IsTyped, spell, spell_rest, request_args, pointers, pointed, text_or_none,
}

-- Where the format and the counts compute, the check is by computation.
typed :
    {v : Invocation}
    → cut 58 v.format ≡ (spell v.va, text_or_none (pointed (pointers v.va)))
    → v.argc ≡ count_variants (request_args v.va)
    → leb v.argc (length v.format) ≡ true
    → IsTyped v
typed format argc few = record { format_eq = format; argc_eq = argc; argc_le = leb→le _ _ few }

-- What a function hands to invoke_function is typed.
abbrev pub IsTypedCall : Wrapper → Type 0
IsTypedCall (calling v) = IsTyped v
IsTypedCall (checked null v) = IsTyped v
IsTypedCall (releasing p f) = (h : ℕ) → IsTyped (f h)

pub IsCall-IsTypedCall : (c : Wrapper) → IsCall c → IsTypedCall c
unfolding cut spell spell_rest request_args pointers count_variants
IsCall-IsTypedCall c (All.service_start s) = typed refl refl refl
IsCall-IsTypedCall c All.service_stop = typed refl refl refl
IsCall-IsTypedCall c (All.controller_connect s1 s2 s3 s4 null) = typed refl refl refl
IsCall-IsTypedCall c (All.controller_disconnect h) = λ h. typed refl refl refl
IsCall-IsTypedCall c (All.controller_get_extension n s1 s2 null) = typed refl refl refl
IsCall-IsTypedCall c (All.controller_get_file n s1 s2 null) = typed refl refl refl
IsCall-IsTypedCall c (All.controller_get_robot n s1 s2 null) = typed refl refl refl
IsCall-IsTypedCall c (All.controller_get_task n s1 s2 null) = typed refl refl refl
IsCall-IsTypedCall c (All.controller_get_variable n s1 s2 null) = typed refl refl refl
IsCall-IsTypedCall c (All.controller_get_command n s1 s2 null) = typed refl refl refl
IsCall-IsTypedCall c (All.controller_get_extension_names n s null) = typed refl refl refl
IsCall-IsTypedCall c (All.controller_get_file_names n s null) = typed refl refl refl
IsCall-IsTypedCall c (All.controller_get_robot_names n s null) = typed refl refl refl
IsCall-IsTypedCall c (All.controller_get_task_names n s null) = typed refl refl refl
IsCall-IsTypedCall c (All.controller_get_variable_names n s null) = typed refl refl refl
IsCall-IsTypedCall c (All.controller_get_command_names n s null) = typed refl refl refl
IsCall-IsTypedCall c (All.controller_execute n s v null) = typed refl refl refl
IsCall-IsTypedCall c (All.controller_get_message n null) = typed refl refl refl
IsCall-IsTypedCall c (All.controller_get_attribute n null) = typed refl refl refl
IsCall-IsTypedCall c (All.controller_get_help n null) = typed refl refl refl
IsCall-IsTypedCall c (All.controller_get_name n null) = typed refl refl refl
IsCall-IsTypedCall c (All.controller_get_tag n null) = typed refl refl refl
IsCall-IsTypedCall c (All.controller_put_tag n v) = typed refl refl refl
IsCall-IsTypedCall c (All.controller_get_id n null) = typed refl refl refl
IsCall-IsTypedCall c (All.controller_put_id n v) = typed refl refl refl
IsCall-IsTypedCall c (All.extension_get_variable n s1 s2 null) = typed refl refl refl
IsCall-IsTypedCall c (All.extension_get_variable_names n s null) = typed refl refl refl
IsCall-IsTypedCall c (All.extension_execute n s v null) = typed refl refl refl
IsCall-IsTypedCall c (All.extension_get_attribute n null) = typed refl refl refl
IsCall-IsTypedCall c (All.extension_get_help n null) = typed refl refl refl
IsCall-IsTypedCall c (All.extension_get_name n null) = typed refl refl refl
IsCall-IsTypedCall c (All.extension_get_tag n null) = typed refl refl refl
IsCall-IsTypedCall c (All.extension_put_tag n v) = typed refl refl refl
IsCall-IsTypedCall c (All.extension_get_id n null) = typed refl refl refl
IsCall-IsTypedCall c (All.extension_put_id n v) = typed refl refl refl
IsCall-IsTypedCall c (All.extension_release h) = λ h. typed refl refl refl
IsCall-IsTypedCall c (All.file_get_file n s1 s2 null) = typed refl refl refl
IsCall-IsTypedCall c (All.file_get_variable n s1 s2 null) = typed refl refl refl
IsCall-IsTypedCall c (All.file_get_file_names n s null) = typed refl refl refl
IsCall-IsTypedCall c (All.file_get_variable_names n s null) = typed refl refl refl
IsCall-IsTypedCall c (All.file_execute n s v null) = typed refl refl refl
IsCall-IsTypedCall c (All.file_copy n s1 s2) = typed refl refl refl
IsCall-IsTypedCall c (All.file_delete n s) = typed refl refl refl
IsCall-IsTypedCall c (All.file_move n s1 s2) = typed refl refl refl
IsCall-IsTypedCall c (All.file_run n s null) = typed refl refl refl
IsCall-IsTypedCall c (All.file_get_date_created n null) = typed refl refl refl
IsCall-IsTypedCall c (All.file_get_date_last_accessed n null) = typed refl refl refl
IsCall-IsTypedCall c (All.file_get_date_last_modified n null) = typed refl refl refl
IsCall-IsTypedCall c (All.file_get_path n null) = typed refl refl refl
IsCall-IsTypedCall c (All.file_get_size n null) = typed refl refl refl
IsCall-IsTypedCall c (All.file_get_type n null) = typed refl refl refl
IsCall-IsTypedCall c (All.file_get_value n null) = typed refl refl refl
IsCall-IsTypedCall c (All.file_put_value n v) = typed refl refl refl
IsCall-IsTypedCall c (All.file_get_attribute n null) = typed refl refl refl
IsCall-IsTypedCall c (All.file_get_help n null) = typed refl refl refl
IsCall-IsTypedCall c (All.file_get_name n null) = typed refl refl refl
IsCall-IsTypedCall c (All.file_get_tag n null) = typed refl refl refl
IsCall-IsTypedCall c (All.file_put_tag n v) = typed refl refl refl
IsCall-IsTypedCall c (All.file_get_id n null) = typed refl refl refl
IsCall-IsTypedCall c (All.file_put_id n v) = typed refl refl refl
IsCall-IsTypedCall c (All.file_release h) = λ h. typed refl refl refl
IsCall-IsTypedCall c (All.robot_get_variable n s1 s2 null) = typed refl refl refl
IsCall-IsTypedCall c (All.robot_get_variable_names n s null) = typed refl refl refl
IsCall-IsTypedCall c (All.robot_execute n s v null) = typed refl refl refl
IsCall-IsTypedCall c (All.robot_accelerate n1 n2 n3 n4) = typed refl refl refl
IsCall-IsTypedCall c (All.robot_change n s) = typed refl refl refl
IsCall-IsTypedCall c (All.robot_chuck n s) = typed refl refl refl
IsCall-IsTypedCall c (All.robot_drive n1 n2 n3 s) = typed refl refl refl
IsCall-IsTypedCall c (All.robot_go_home n) = typed refl refl refl
IsCall-IsTypedCall c (All.robot_halt n s) = typed refl refl refl
IsCall-IsTypedCall c (All.robot_hold n s) = typed refl refl refl
IsCall-IsTypedCall c (All.robot_move n1 n2 v s) = typed refl refl refl
IsCall-IsTypedCall c (All.robot_rotate n1 v1 n2 v2 s) = typed refl refl refl
IsCall-IsTypedCall c (All.robot_speed n1 n2 n3) = typed refl refl refl
IsCall-IsTypedCall c (All.robot_unchuck n s) = typed refl refl refl
IsCall-IsTypedCall c (All.robot_unhold n s) = typed refl refl refl
IsCall-IsTypedCall c (All.robot_get_attribute n null) = typed refl refl refl
IsCall-IsTypedCall c (All.robot_get_help n null) = typed refl refl refl
IsCall-IsTypedCall c (All.robot_get_name n null) = typed refl refl refl
IsCall-IsTypedCall c (All.robot_get_tag n null) = typed refl refl refl
IsCall-IsTypedCall c (All.robot_put_tag n v) = typed refl refl refl
IsCall-IsTypedCall c (All.robot_get_id n null) = typed refl refl refl
IsCall-IsTypedCall c (All.robot_put_id n v) = typed refl refl refl
IsCall-IsTypedCall c (All.robot_release h) = λ h. typed refl refl refl
IsCall-IsTypedCall c (All.task_get_variable n s1 s2 null) = typed refl refl refl
IsCall-IsTypedCall c (All.task_get_variable_names n s null) = typed refl refl refl
IsCall-IsTypedCall c (All.task_execute n s v null) = typed refl refl refl
IsCall-IsTypedCall c (All.task_start n1 n2 s) = typed refl refl refl
IsCall-IsTypedCall c (All.task_stop n1 n2 s) = typed refl refl refl
IsCall-IsTypedCall c (All.task_delete n s) = typed refl refl refl
IsCall-IsTypedCall c (All.task_get_file_name n null) = typed refl refl refl
IsCall-IsTypedCall c (All.task_get_attribute n null) = typed refl refl refl
IsCall-IsTypedCall c (All.task_get_help n null) = typed refl refl refl
IsCall-IsTypedCall c (All.task_get_name n null) = typed refl refl refl
IsCall-IsTypedCall c (All.task_get_tag n null) = typed refl refl refl
IsCall-IsTypedCall c (All.task_put_tag n v) = typed refl refl refl
IsCall-IsTypedCall c (All.task_get_id n null) = typed refl refl refl
IsCall-IsTypedCall c (All.task_put_id n v) = typed refl refl refl
IsCall-IsTypedCall c (All.task_release h) = λ h. typed refl refl refl
IsCall-IsTypedCall c (All.variable_get_date_time n null) = typed refl refl refl
IsCall-IsTypedCall c (All.variable_get_value n null) = typed refl refl refl
IsCall-IsTypedCall c (All.variable_put_value n v) = typed refl refl refl
IsCall-IsTypedCall c (All.variable_get_attribute n null) = typed refl refl refl
IsCall-IsTypedCall c (All.variable_get_help n null) = typed refl refl refl
IsCall-IsTypedCall c (All.variable_get_name n null) = typed refl refl refl
IsCall-IsTypedCall c (All.variable_get_tag n null) = typed refl refl refl
IsCall-IsTypedCall c (All.variable_put_tag n v) = typed refl refl refl
IsCall-IsTypedCall c (All.variable_get_id n null) = typed refl refl refl
IsCall-IsTypedCall c (All.variable_put_id n v) = typed refl refl refl
IsCall-IsTypedCall c (All.variable_get_microsecond n null) = typed refl refl refl
IsCall-IsTypedCall c (All.variable_release h) = λ h. typed refl refl refl
IsCall-IsTypedCall c (All.command_execute n1 n2 null) = typed refl refl refl
IsCall-IsTypedCall c (All.command_cancel n) = typed refl refl refl
IsCall-IsTypedCall c (All.command_get_timeout n null) = typed refl refl refl
IsCall-IsTypedCall c (All.command_put_timeout n1 n2) = typed refl refl refl
IsCall-IsTypedCall c (All.command_get_state n null) = typed refl refl refl
IsCall-IsTypedCall c (All.command_get_parameters n null) = typed refl refl refl
IsCall-IsTypedCall c (All.command_put_parameters n v) = typed refl refl refl
IsCall-IsTypedCall c (All.command_get_result n null) = typed refl refl refl
IsCall-IsTypedCall c (All.command_get_attribute n null) = typed refl refl refl
IsCall-IsTypedCall c (All.command_get_help n null) = typed refl refl refl
IsCall-IsTypedCall c (All.command_get_name n null) = typed refl refl refl
IsCall-IsTypedCall c (All.command_get_tag n null) = typed refl refl refl
IsCall-IsTypedCall c (All.command_put_tag n v) = typed refl refl refl
IsCall-IsTypedCall c (All.command_get_id n null) = typed refl refl refl
IsCall-IsTypedCall c (All.command_put_id n v) = typed refl refl refl
IsCall-IsTypedCall c (All.command_release h) = λ h. typed refl refl refl
IsCall-IsTypedCall c (All.message_reply n v) = typed refl refl refl
IsCall-IsTypedCall c (All.message_clear n) = typed refl refl refl
IsCall-IsTypedCall c (All.message_get_date_time n null) = typed refl refl refl
IsCall-IsTypedCall c (All.message_get_description n null) = typed refl refl refl
IsCall-IsTypedCall c (All.message_get_destination n null) = typed refl refl refl
IsCall-IsTypedCall c (All.message_get_number n null) = typed refl refl refl
IsCall-IsTypedCall c (All.message_get_serial_number n null) = typed refl refl refl
IsCall-IsTypedCall c (All.message_get_source n null) = typed refl refl refl
IsCall-IsTypedCall c (All.message_get_value n null) = typed refl refl refl
IsCall-IsTypedCall c (All.message_release h) = λ h. typed refl refl refl
