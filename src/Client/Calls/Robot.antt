-- ===== src/Client/Calls/Robot.antt =====
-- The bCap_Robot functions of bcap_core/src/bCAPClient/bcap_client.c. An `id` is that of
-- bcap_core/include/bcap_core/bcap_funcid.h; of a pointer for the return value, whether it is NULL.
use denso_robot_ros.Prelude.{ℕ, [], ◌∷◌, Option, Bool}
use denso_robot_ros.Variant.{Variant, Bstr}
use denso_robot_ros.Client.Invoke.{
  int32, wide_string, variant, int_arg, float_arg, bstr_arg, variant_arg, pointer_arg,
}
use denso_robot_ros.Client.Calls.{Wrapper, codes, calling, checked, releasing}

abbrev pub get_variable : ℕ → Bstr → Bstr → Bool → Wrapper
get_variable h_robot bstr_name bstr_option h_variable = checked h_variable (record {
  id = 62;
  argc = 3;
  format = codes "3,8,8:3";
  va =
      int_arg h_robot
      ∷ bstr_arg bstr_name
      ∷ bstr_arg bstr_option
      ∷ pointer_arg int32 h_variable
      ∷ [];
})

abbrev pub get_variable_names : ℕ → Bstr → Bool → Wrapper
get_variable_names h_robot bstr_option p_val = calling (record {
  id = 63;
  argc = 2;
  format = codes "3,8:12";
  va = int_arg h_robot ∷ bstr_arg bstr_option ∷ pointer_arg variant p_val ∷ [];
})

abbrev pub execute : ℕ → Bstr → Variant → Bool → Wrapper
execute h_robot bstr_command vnt_param p_val = calling (record {
  id = 64;
  argc = 3;
  format = codes "3,8,12:12";
  va =
      int_arg h_robot
      ∷ bstr_arg bstr_command
      ∷ variant_arg vnt_param
      ∷ pointer_arg variant p_val
      ∷ [];
})

abbrev pub accelerate : ℕ → ℕ → ℕ → ℕ → Wrapper
accelerate h_robot l_axis f_accel f_decel = calling (record {
  id = 65;
  argc = 4;
  format = codes "3,3,4,4";
  va = int_arg h_robot ∷ int_arg l_axis ∷ float_arg f_accel ∷ float_arg f_decel ∷ [];
})

abbrev pub change : ℕ → Bstr → Wrapper
change h_robot bstr_name = calling (record {
  id = 66;
  argc = 2;
  format = codes "3,8";
  va = int_arg h_robot ∷ bstr_arg bstr_name ∷ [];
})

abbrev pub chuck : ℕ → Bstr → Wrapper
chuck h_robot bstr_option = calling (record {
  id = 67;
  argc = 2;
  format = codes "3,8";
  va = int_arg h_robot ∷ bstr_arg bstr_option ∷ [];
})

abbrev pub drive : ℕ → ℕ → ℕ → Bstr → Wrapper
drive h_robot l_no f_mov bstr_option = calling (record {
  id = 68;
  argc = 4;
  format = codes "3,3,4,8";
  va = int_arg h_robot ∷ int_arg l_no ∷ float_arg f_mov ∷ bstr_arg bstr_option ∷ [];
})

abbrev pub go_home : ℕ → Wrapper
go_home h_robot =
    calling (record { id = 69; argc = 1; format = codes "3"; va = int_arg h_robot ∷ [] })

abbrev pub halt : ℕ → Bstr → Wrapper
halt h_robot bstr_option = calling (record {
  id = 70;
  argc = 2;
  format = codes "3,8";
  va = int_arg h_robot ∷ bstr_arg bstr_option ∷ [];
})

abbrev pub hold : ℕ → Bstr → Wrapper
hold h_robot bstr_option = calling (record {
  id = 71;
  argc = 2;
  format = codes "3,8";
  va = int_arg h_robot ∷ bstr_arg bstr_option ∷ [];
})

abbrev pub move : ℕ → ℕ → Variant → Bstr → Wrapper
move h_robot l_comp vnt_pose bstr_option = calling (record {
  id = 72;
  argc = 4;
  format = codes "3,3,12,8";
  va = int_arg h_robot ∷ int_arg l_comp ∷ variant_arg vnt_pose ∷ bstr_arg bstr_option ∷ [];
})

abbrev pub rotate : ℕ → Variant → ℕ → Variant → Bstr → Wrapper
rotate h_robot vnt_rot_suf f_deg vnt_pivot bstr_option = calling (record {
  id = 73;
  argc = 5;
  format = codes "3,12,4,12,8";
  va =
      int_arg h_robot
      ∷ variant_arg vnt_rot_suf
      ∷ float_arg f_deg
      ∷ variant_arg vnt_pivot
      ∷ bstr_arg bstr_option
      ∷ [];
})

abbrev pub speed : ℕ → ℕ → ℕ → Wrapper
speed h_robot l_axis f_speed = calling (record {
  id = 74;
  argc = 3;
  format = codes "3,3,4";
  va = int_arg h_robot ∷ int_arg l_axis ∷ float_arg f_speed ∷ [];
})

abbrev pub unchuck : ℕ → Bstr → Wrapper
unchuck h_robot bstr_option = calling (record {
  id = 75;
  argc = 2;
  format = codes "3,8";
  va = int_arg h_robot ∷ bstr_arg bstr_option ∷ [];
})

abbrev pub unhold : ℕ → Bstr → Wrapper
unhold h_robot bstr_option = calling (record {
  id = 76;
  argc = 2;
  format = codes "3,8";
  va = int_arg h_robot ∷ bstr_arg bstr_option ∷ [];
})

abbrev pub get_attribute : ℕ → Bool → Wrapper
get_attribute h_robot p_val = calling (record {
  id = 77;
  argc = 1;
  format = codes "3:3";
  va = int_arg h_robot ∷ pointer_arg int32 p_val ∷ [];
})

abbrev pub get_help : ℕ → Bool → Wrapper
get_help h_robot p_val = calling (record {
  id = 78;
  argc = 1;
  format = codes "3:8";
  va = int_arg h_robot ∷ pointer_arg wide_string p_val ∷ [];
})

abbrev pub get_name : ℕ → Bool → Wrapper
get_name h_robot p_val = calling (record {
  id = 79;
  argc = 1;
  format = codes "3:8";
  va = int_arg h_robot ∷ pointer_arg wide_string p_val ∷ [];
})

abbrev pub get_tag : ℕ → Bool → Wrapper
get_tag h_robot p_val = calling (record {
  id = 80;
  argc = 1;
  format = codes "3:12";
  va = int_arg h_robot ∷ pointer_arg variant p_val ∷ [];
})

abbrev pub put_tag : ℕ → Variant → Wrapper
put_tag h_robot new_val = calling (record {
  id = 81;
  argc = 2;
  format = codes "3,12";
  va = int_arg h_robot ∷ variant_arg new_val ∷ [];
})

abbrev pub get_id : ℕ → Bool → Wrapper
get_id h_robot p_val = calling (record {
  id = 82;
  argc = 1;
  format = codes "3:12";
  va = int_arg h_robot ∷ pointer_arg variant p_val ∷ [];
})

abbrev pub put_id : ℕ → Variant → Wrapper
put_id h_robot new_val = calling (record {
  id = 83;
  argc = 2;
  format = codes "3,12";
  va = int_arg h_robot ∷ variant_arg new_val ∷ [];
})

abbrev pub release : Option ℕ → Wrapper
release h_robot =
    releasing h_robot (λ h. record { id = 84; argc = 1; format = codes "3"; va = int_arg h ∷ [] })
