-- ===== src/Client/Calls/Task.antt =====
-- The bCap_Task functions of bcap_core/src/bCAPClient/bcap_client.c. An `id` is that of
-- bcap_core/include/bcap_core/bcap_funcid.h; of a pointer for the return value, whether it is NULL.
use denso_robot_ros.Prelude.{ℕ, [], ◌∷◌, Option, Bool}
use denso_robot_ros.Variant.{Variant, Bstr}
use denso_robot_ros.Client.Invoke.{
  int32, wide_string, variant, int_arg, bstr_arg, variant_arg, pointer_arg,
}
use denso_robot_ros.Client.Calls.{Wrapper, codes, calling, checked, releasing}

abbrev pub get_variable : ℕ → Bstr → Bstr → Bool → Wrapper
get_variable h_task bstr_name bstr_option h_variable = checked h_variable (record {
  id = 85;
  argc = 3;
  format = codes "3,8,8:3";
  va =
      int_arg h_task
      ∷ bstr_arg bstr_name
      ∷ bstr_arg bstr_option
      ∷ pointer_arg int32 h_variable
      ∷ [];
})

abbrev pub get_variable_names : ℕ → Bstr → Bool → Wrapper
get_variable_names h_task bstr_option p_val = calling (record {
  id = 86;
  argc = 2;
  format = codes "3,8:12";
  va = int_arg h_task ∷ bstr_arg bstr_option ∷ pointer_arg variant p_val ∷ [];
})

abbrev pub execute : ℕ → Bstr → Variant → Bool → Wrapper
execute h_task bstr_command vnt_param p_val = calling (record {
  id = 87;
  argc = 3;
  format = codes "3,8,12:12";
  va =
      int_arg h_task
      ∷ bstr_arg bstr_command
      ∷ variant_arg vnt_param
      ∷ pointer_arg variant p_val
      ∷ [];
})

abbrev pub start : ℕ → ℕ → Bstr → Wrapper
start h_task l_mode bstr_option = calling (record {
  id = 88;
  argc = 3;
  format = codes "3,3,8";
  va = int_arg h_task ∷ int_arg l_mode ∷ bstr_arg bstr_option ∷ [];
})

abbrev pub stop : ℕ → ℕ → Bstr → Wrapper
stop h_task l_mode bstr_option = calling (record {
  id = 89;
  argc = 3;
  format = codes "3,3,8";
  va = int_arg h_task ∷ int_arg l_mode ∷ bstr_arg bstr_option ∷ [];
})

abbrev pub delete : ℕ → Bstr → Wrapper
delete h_task bstr_option = calling (record {
  id = 90;
  argc = 2;
  format = codes "3,8";
  va = int_arg h_task ∷ bstr_arg bstr_option ∷ [];
})

abbrev pub get_file_name : ℕ → Bool → Wrapper
get_file_name h_task p_val = calling (record {
  id = 91;
  argc = 1;
  format = codes "3:8";
  va = int_arg h_task ∷ pointer_arg wide_string p_val ∷ [];
})

abbrev pub get_attribute : ℕ → Bool → Wrapper
get_attribute h_task p_val = calling (record {
  id = 92;
  argc = 1;
  format = codes "3:3";
  va = int_arg h_task ∷ pointer_arg int32 p_val ∷ [];
})

abbrev pub get_help : ℕ → Bool → Wrapper
get_help h_task p_val = calling (record {
  id = 93;
  argc = 1;
  format = codes "3:8";
  va = int_arg h_task ∷ pointer_arg wide_string p_val ∷ [];
})

abbrev pub get_name : ℕ → Bool → Wrapper
get_name h_task p_val = calling (record {
  id = 94;
  argc = 1;
  format = codes "3:8";
  va = int_arg h_task ∷ pointer_arg wide_string p_val ∷ [];
})

abbrev pub get_tag : ℕ → Bool → Wrapper
get_tag h_task p_val = calling (record {
  id = 95;
  argc = 1;
  format = codes "3:12";
  va = int_arg h_task ∷ pointer_arg variant p_val ∷ [];
})

abbrev pub put_tag : ℕ → Variant → Wrapper
put_tag h_task new_val = calling (record {
  id = 96;
  argc = 2;
  format = codes "3,12";
  va = int_arg h_task ∷ variant_arg new_val ∷ [];
})

abbrev pub get_id : ℕ → Bool → Wrapper
get_id h_task p_val = calling (record {
  id = 97;
  argc = 1;
  format = codes "3:12";
  va = int_arg h_task ∷ pointer_arg variant p_val ∷ [];
})

abbrev pub put_id : ℕ → Variant → Wrapper
put_id h_task new_val = calling (record {
  id = 98;
  argc = 2;
  format = codes "3,12";
  va = int_arg h_task ∷ variant_arg new_val ∷ [];
})

abbrev pub release : Option ℕ → Wrapper
release h_task =
    releasing h_task (λ h. record { id = 99; argc = 1; format = codes "3"; va = int_arg h ∷ [] })
