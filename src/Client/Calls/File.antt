-- ===== src/Client/Calls/File.antt =====
-- The bCap_File functions of bcap_core/src/bCAPClient/bcap_client.c. An `id` is that of
-- bcap_core/include/bcap_core/bcap_funcid.h; of a pointer for the return value, whether it is NULL.
use denso_robot_ros.Prelude.{ℕ, [], ◌∷◌, Option, Bool}
use denso_robot_ros.Variant.{Variant, Bstr}
use denso_robot_ros.Client.Invoke.{
  int32, wide_string, variant, int_arg, bstr_arg, variant_arg, pointer_arg,
}
use denso_robot_ros.Client.Calls.{Wrapper, codes, calling, checked, releasing}

abbrev pub get_file : ℕ → Bstr → Bstr → Bool → Wrapper
get_file h_file bstr_name bstr_option h_file2 = checked h_file2 (record {
  id = 37;
  argc = 3;
  format = codes "3,8,8:3";
  va = int_arg h_file ∷ bstr_arg bstr_name ∷ bstr_arg bstr_option ∷ pointer_arg int32 h_file2 ∷ [];
})

abbrev pub get_variable : ℕ → Bstr → Bstr → Bool → Wrapper
get_variable h_file bstr_name bstr_option h_variable = checked h_variable (record {
  id = 38;
  argc = 3;
  format = codes "3,8,8:3";
  va =
      int_arg h_file
      ∷ bstr_arg bstr_name
      ∷ bstr_arg bstr_option
      ∷ pointer_arg int32 h_variable
      ∷ [];
})

abbrev pub get_file_names : ℕ → Bstr → Bool → Wrapper
get_file_names h_file bstr_option p_val = calling (record {
  id = 39;
  argc = 2;
  format = codes "3,8:12";
  va = int_arg h_file ∷ bstr_arg bstr_option ∷ pointer_arg variant p_val ∷ [];
})

abbrev pub get_variable_names : ℕ → Bstr → Bool → Wrapper
get_variable_names h_file bstr_option p_val = calling (record {
  id = 40;
  argc = 2;
  format = codes "3,8:12";
  va = int_arg h_file ∷ bstr_arg bstr_option ∷ pointer_arg variant p_val ∷ [];
})

abbrev pub execute : ℕ → Bstr → Variant → Bool → Wrapper
execute h_file bstr_command vnt_param p_val = calling (record {
  id = 41;
  argc = 3;
  format = codes "3,8,12:12";
  va =
      int_arg h_file
      ∷ bstr_arg bstr_command
      ∷ variant_arg vnt_param
      ∷ pointer_arg variant p_val
      ∷ [];
})

abbrev pub copy : ℕ → Bstr → Bstr → Wrapper
copy h_file bstr_name bstr_option = calling (record {
  id = 42;
  argc = 3;
  format = codes "3,8,8";
  va = int_arg h_file ∷ bstr_arg bstr_name ∷ bstr_arg bstr_option ∷ [];
})

abbrev pub delete : ℕ → Bstr → Wrapper
delete h_file bstr_option = calling (record {
  id = 43;
  argc = 2;
  format = codes "3,8";
  va = int_arg h_file ∷ bstr_arg bstr_option ∷ [];
})

abbrev pub move : ℕ → Bstr → Bstr → Wrapper
move h_file bstr_name bstr_option = calling (record {
  id = 44;
  argc = 3;
  format = codes "3,8,8";
  va = int_arg h_file ∷ bstr_arg bstr_name ∷ bstr_arg bstr_option ∷ [];
})

abbrev pub run : ℕ → Bstr → Bool → Wrapper
run h_file bstr_option p_val = calling (record {
  id = 45;
  argc = 2;
  format = codes "3,8:8";
  va = int_arg h_file ∷ bstr_arg bstr_option ∷ pointer_arg wide_string p_val ∷ [];
})

abbrev pub get_date_created : ℕ → Bool → Wrapper
get_date_created h_file p_val = calling (record {
  id = 46;
  argc = 1;
  format = codes "3:12";
  va = int_arg h_file ∷ pointer_arg variant p_val ∷ [];
})

abbrev pub get_date_last_accessed : ℕ → Bool → Wrapper
get_date_last_accessed h_file p_val = calling (record {
  id = 47;
  argc = 1;
  format = codes "3:12";
  va = int_arg h_file ∷ pointer_arg variant p_val ∷ [];
})

abbrev pub get_date_last_modified : ℕ → Bool → Wrapper
get_date_last_modified h_file p_val = calling (record {
  id = 48;
  argc = 1;
  format = codes "3:12";
  va = int_arg h_file ∷ pointer_arg variant p_val ∷ [];
})

abbrev pub get_path : ℕ → Bool → Wrapper
get_path h_file p_val = calling (record {
  id = 49;
  argc = 1;
  format = codes "3:8";
  va = int_arg h_file ∷ pointer_arg wide_string p_val ∷ [];
})

abbrev pub get_size : ℕ → Bool → Wrapper
get_size h_file p_val = calling (record {
  id = 50;
  argc = 1;
  format = codes "3:3";
  va = int_arg h_file ∷ pointer_arg int32 p_val ∷ [];
})

abbrev pub get_type : ℕ → Bool → Wrapper
get_type h_file p_val = calling (record {
  id = 51;
  argc = 1;
  format = codes "3:8";
  va = int_arg h_file ∷ pointer_arg wide_string p_val ∷ [];
})

abbrev pub get_value : ℕ → Bool → Wrapper
get_value h_file p_val = calling (record {
  id = 52;
  argc = 1;
  format = codes "3:12";
  va = int_arg h_file ∷ pointer_arg variant p_val ∷ [];
})

abbrev pub put_value : ℕ → Variant → Wrapper
put_value h_file new_val = calling (record {
  id = 53;
  argc = 2;
  format = codes "3,12";
  va = int_arg h_file ∷ variant_arg new_val ∷ [];
})

abbrev pub get_attribute : ℕ → Bool → Wrapper
get_attribute h_file p_val = calling (record {
  id = 54;
  argc = 1;
  format = codes "3:3";
  va = int_arg h_file ∷ pointer_arg int32 p_val ∷ [];
})

abbrev pub get_help : ℕ → Bool → Wrapper
get_help h_file p_val = calling (record {
  id = 55;
  argc = 1;
  format = codes "3:8";
  va = int_arg h_file ∷ pointer_arg wide_string p_val ∷ [];
})

abbrev pub get_name : ℕ → Bool → Wrapper
get_name h_file p_val = calling (record {
  id = 56;
  argc = 1;
  format = codes "3:8";
  va = int_arg h_file ∷ pointer_arg wide_string p_val ∷ [];
})

abbrev pub get_tag : ℕ → Bool → Wrapper
get_tag h_file p_val = calling (record {
  id = 57;
  argc = 1;
  format = codes "3:12";
  va = int_arg h_file ∷ pointer_arg variant p_val ∷ [];
})

abbrev pub put_tag : ℕ → Variant → Wrapper
put_tag h_file new_val = calling (record {
  id = 58;
  argc = 2;
  format = codes "3,12";
  va = int_arg h_file ∷ variant_arg new_val ∷ [];
})

abbrev pub get_id : ℕ → Bool → Wrapper
get_id h_file p_val = calling (record {
  id = 59;
  argc = 1;
  format = codes "3:12";
  va = int_arg h_file ∷ pointer_arg variant p_val ∷ [];
})

abbrev pub put_id : ℕ → Variant → Wrapper
put_id h_file new_val = calling (record {
  id = 60;
  argc = 2;
  format = codes "3,12";
  va = int_arg h_file ∷ variant_arg new_val ∷ [];
})

abbrev pub release : Option ℕ → Wrapper
release h_file =
    releasing h_file (λ h. record { id = 61; argc = 1; format = codes "3"; va = int_arg h ∷ [] })
