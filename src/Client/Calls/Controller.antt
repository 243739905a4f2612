-- ===== src/Client/Calls/Controller.antt =====
-- The bCap_Controller functions of bcap_core/src/bCAPClient/bcap_client.c. An `id` is that of
-- bcap_core/include/bcap_core/bcap_funcid.h; of a pointer for the return value, whether it is NULL.
use denso_robot_ros.Prelude.{ℕ, [], ◌∷◌, Option, Bool}
use denso_robot_ros.Variant.{Variant, Bstr}
use denso_robot_ros.Client.Invoke.{
  int32, wide_string, variant, int_arg, bstr_arg, variant_arg, pointer_arg,
}
use denso_robot_ros.Client.Calls.{Wrapper, codes, calling, checked, releasing}

abbrev pub connect : Bstr → Bstr → Bstr → Bstr → Bool → Wrapper
connect bstr_name bstr_provider bstr_machine bstr_option h_controller =
    checked h_controller (record {
      id = 3;
      argc = 4;
      format = codes "8,8,8,8:3";
      va =
          bstr_arg bstr_name
          ∷ bstr_arg bstr_provider
          ∷ bstr_arg bstr_machine
          ∷ bstr_arg bstr_option
          ∷ pointer_arg int32 h_controller
          ∷ [];
    })

abbrev pub disconnect : Option ℕ → Wrapper
disconnect h_controller =
    releasing h_controller
      (λ h. record { id = 4; argc = 1; format = codes "3"; va = int_arg h ∷ [] })

abbrev pub get_extension : ℕ → Bstr → Bstr → Bool → Wrapper
get_extension h_controller bstr_name bstr_option h_extension = checked h_extension (record {
  id = 5;
  argc = 3;
  format = codes "3,8,8:3";
  va =
      int_arg h_controller
      ∷ bstr_arg bstr_name
      ∷ bstr_arg bstr_option
      ∷ pointer_arg int32 h_extension
      ∷ [];
})

abbrev pub get_file : ℕ → Bstr → Bstr → Bool → Wrapper
get_file h_controller bstr_name bstr_option h_file = checked h_file (record {
  id = 6;
  argc = 3;
  format = codes "3,8,8:3";
  va =
      int_arg h_controller
      ∷ bstr_arg bstr_name
      ∷ bstr_arg bstr_option
      ∷ pointer_arg int32 h_file
      ∷ [];
})

abbrev pub get_robot : ℕ → Bstr → Bstr → Bool → Wrapper
get_robot h_controller bstr_name bstr_option h_robot = checked h_robot (record {
  id = 7;
  argc = 3;
  format = codes "3,8,8:3";
  va =
      int_arg h_controller
      ∷ bstr_arg bstr_name
      ∷ bstr_arg bstr_option
      ∷ pointer_arg int32 h_robot
      ∷ [];
})

abbrev pub get_task : ℕ → Bstr → Bstr → Bool → Wrapper
get_task h_controller bstr_name bstr_option h_task = checked h_task (record {
  id = 8;
  argc = 3;
  format = codes "3,8,8:3";
  va =
      int_arg h_controller
      ∷ bstr_arg bstr_name
      ∷ bstr_arg bstr_option
      ∷ pointer_arg int32 h_task
      ∷ [];
})

abbrev pub get_variable : ℕ → Bstr → Bstr → Bool → Wrapper
get_variable h_controller bstr_name bstr_option h_variable = checked h_variable (record {
  id = 9;
  argc = 3;
  format = codes "3,8,8:3";
  va =
      int_arg h_controller
      ∷ bstr_arg bstr_name
      ∷ bstr_arg bstr_option
      ∷ pointer_arg int32 h_variable
      ∷ [];
})

abbrev pub get_command : ℕ → Bstr → Bstr → Bool → Wrapper
get_command h_controller bstr_name bstr_option h_command = checked h_command (record {
  id = 10;
  argc = 3;
  format = codes "3,8,8:3";
  va =
      int_arg h_controller
      ∷ bstr_arg bstr_name
      ∷ bstr_arg bstr_option
      ∷ pointer_arg int32 h_command
      ∷ [];
})

abbrev pub get_extension_names : ℕ → Bstr → Bool → Wrapper
get_extension_names h_controller bstr_option p_val = calling (record {
  id = 11;
  argc = 2;
  format = codes "3,8:12";
  va = int_arg h_controller ∷ bstr_arg bstr_option ∷ pointer_arg variant p_val ∷ [];
})

abbrev pub get_file_names : ℕ → Bstr → Bool → Wrapper
get_file_names h_controller bstr_option p_val = calling (record {
  id = 12;
  argc = 2;
  format = codes "3,8:12";
  va = int_arg h_controller ∷ bstr_arg bstr_option ∷ pointer_arg variant p_val ∷ [];
})

abbrev pub get_robot_names : ℕ → Bstr → Bool → Wrapper
get_robot_names h_controller bstr_option p_val = calling (record {
  id = 13;
  argc = 2;
  format = codes "3,8:12";
  va = int_arg h_controller ∷ bstr_arg bstr_option ∷ pointer_arg variant p_val ∷ [];
})

abbrev pub get_task_names : ℕ → Bstr → Bool → Wrapper
get_task_names h_controller bstr_option p_val = calling (record {
  id = 14;
  argc = 2;
  format = codes "3,8:12";
  va = int_arg h_controller ∷ bstr_arg bstr_option ∷ pointer_arg variant p_val ∷ [];
})

abbrev pub get_variable_names : ℕ → Bstr → Bool → Wrapper
get_variable_names h_controller bstr_option p_val = calling (record {
  id = 15;
  argc = 2;
  format = codes "3,8:12";
  va = int_arg h_controller ∷ bstr_arg bstr_option ∷ pointer_arg variant p_val ∷ [];
})

abbrev pub get_command_names : ℕ → Bstr → Bool → Wrapper
get_command_names h_controller bstr_option p_val = calling (record {
  id = 16;
  argc = 2;
  format = codes "3,8:12";
  va = int_arg h_controller ∷ bstr_arg bstr_option ∷ pointer_arg variant p_val ∷ [];
})

abbrev pub execute : ℕ → Bstr → Variant → Bool → Wrapper
execute h_controller bstr_command vnt_param p_val = calling (record {
  id = 17;
  argc = 3;
  format = codes "3,8,12:12";
  va =
      int_arg h_controller
      ∷ bstr_arg bstr_command
      ∷ variant_arg vnt_param
      ∷ pointer_arg variant p_val
      ∷ [];
})

abbrev pub get_message : ℕ → Bool → Wrapper
get_message h_controller h_message = checked h_message (record {
  id = 18;
  argc = 1;
  format = codes "3:3";
  va = int_arg h_controller ∷ pointer_arg int32 h_message ∷ [];
})

abbrev pub get_attribute : ℕ → Bool → Wrapper
get_attribute h_controller p_val = calling (record {
  id = 19;
  argc = 1;
  format = codes "3:3";
  va = int_arg h_controller ∷ pointer_arg int32 p_val ∷ [];
})

abbrev pub get_help : ℕ → Bool → Wrapper
get_help h_controller p_val = calling (record {
  id = 20;
  argc = 1;
  format = codes "3:8";
  va = int_arg h_controller ∷ pointer_arg wide_string p_val ∷ [];
})

abbrev pub get_name : ℕ → Bool → Wrapper
get_name h_controller p_val = calling (record {
  id = 21;
  argc = 1;
  format = codes "3:8";
  va = int_arg h_controller ∷ pointer_arg wide_string p_val ∷ [];
})

abbrev pub get_tag : ℕ → Bool → Wrapper
get_tag h_controller p_val = calling (record {
  id = 22;
  argc = 1;
  format = codes "3:12";
  va = int_arg h_controller ∷ pointer_arg variant p_val ∷ [];
})

abbrev pub put_tag : ℕ → Variant → Wrapper
put_tag h_controller new_val = calling (record {
  id = 23;
  argc = 2;
  format = codes "3,12";
  va = int_arg h_controller ∷ variant_arg new_val ∷ [];
})

abbrev pub get_id : ℕ → Bool → Wrapper
get_id h_controller p_val = calling (record {
  id = 24;
  argc = 1;
  format = codes "3:12";
  va = int_arg h_controller ∷ pointer_arg variant p_val ∷ [];
})

abbrev pub put_id : ℕ → Variant → Wrapper
put_id h_controller new_val = calling (record {
  id = 25;
  argc = 2;
  format = codes "3,12";
  va = int_arg h_controller ∷ variant_arg new_val ∷ [];
})
