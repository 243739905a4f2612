-- ===== src/Client/Calls/Extension.antt =====
-- The bCap_Extension functions of bcap_core/src/bCAPClient/bcap_client.c. An `id` is that of
-- bcap_core/include/bcap_core/bcap_funcid.h; of a pointer for the return value, whether it is NULL.
use denso_robot_ros.Prelude.{ℕ, [], ◌∷◌, Option, Bool}
use denso_robot_ros.Variant.{Variant, Bstr}
use denso_robot_ros.Client.Invoke.{
  int32, wide_string, variant, int_arg, bstr_arg, variant_arg, pointer_arg,
}
use denso_robot_ros.Client.Calls.{Wrapper, codes, calling, checked, releasing}

abbrev pub get_variable : ℕ → Bstr → Bstr → Bool → Wrapper
get_variable h_extension bstr_name bstr_option h_variable = checked h_variable (record {
  id = 26;
  argc = 3;
  format = codes "3,8,8:3";
  va =
      int_arg h_extension
      ∷ bstr_arg bstr_name
      ∷ bstr_arg bstr_option
      ∷ pointer_arg int32 h_variable
      ∷ [];
})

abbrev pub get_variable_names : ℕ → Bstr → Bool → Wrapper
get_variable_names h_extension bstr_option p_val = calling (record {
  id = 27;
  argc = 2;
  format = codes "3,8:12";
  va = int_arg h_extension ∷ bstr_arg bstr_option ∷ pointer_arg variant p_val ∷ [];
})

abbrev pub execute : ℕ → Bstr → Variant → Bool → Wrapper
execute h_extension bstr_command vnt_param p_val = calling (record {
  id = 28;
  argc = 3;
  format = codes "3,8,12:12";
  va =
      int_arg h_extension
      ∷ bstr_arg bstr_command
      ∷ variant_arg vnt_param
      ∷ pointer_arg variant p_val
      ∷ [];
})

abbrev pub get_attribute : ℕ → Bool → Wrapper
get_attribute h_extension p_val = calling (record {
  id = 29;
  argc = 1;
  format = codes "3:3";
  va = int_arg h_extension ∷ pointer_arg int32 p_val ∷ [];
})

abbrev pub get_help : ℕ → Bool → Wrapper
get_help h_extension p_val = calling (record {
  id = 30;
  argc = 1;
  format = codes "3:8";
  va = int_arg h_extension ∷ pointer_arg wide_string p_val ∷ [];
})

abbrev pub get_name : ℕ → Bool → Wrapper
get_name h_extension p_val = calling (record {
  id = 31;
  argc = 1;
  format = codes "3:8";
  va = int_arg h_extension ∷ pointer_arg wide_string p_val ∷ [];
})

abbrev pub get_tag : ℕ → Bool → Wrapper
get_tag h_extension p_val = calling (record {
  id = 32;
  argc = 1;
  format = codes "3:12";
  va = int_arg h_extension ∷ pointer_arg variant p_val ∷ [];
})

abbrev pub put_tag : ℕ → Variant → Wrapper
put_tag h_extension new_val = calling (record {
  id = 33;
  argc = 2;
  format = codes "3,12";
  va = int_arg h_extension ∷ variant_arg new_val ∷ [];
})

abbrev pub get_id : ℕ → Bool → Wrapper
get_id h_extension p_val = calling (record {
  id = 34;
  argc = 1;
  format = codes "3:12";
  va = int_arg h_extension ∷ pointer_arg variant p_val ∷ [];
})

abbrev pub put_id : ℕ → Variant → Wrapper
put_id h_extension new_val = calling (record {
  id = 35;
  argc = 2;
  format = codes "3,12";
  va = int_arg h_extension ∷ variant_arg new_val ∷ [];
})

abbrev pub release : Option ℕ → Wrapper
release h_extension =
    releasing h_extension
      (λ h. record { id = 36; argc = 1; format = codes "3"; va = int_arg h ∷ [] })
