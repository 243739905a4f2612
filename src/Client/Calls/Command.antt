-- ===== src/Client/Calls/Command.antt =====
-- The bCap_Command functions of bcap_core/src/bCAPClient/bcap_client.c. An `id` is that of
-- bcap_core/include/bcap_core/bcap_funcid.h; of a pointer for the return value, whether it is NULL.
use denso_robot_ros.Prelude.{ℕ, [], ◌∷◌, Option, Bool}
use denso_robot_ros.Variant.{Variant}
use denso_robot_ros.Client.Invoke.{int32, wide_string, variant, int_arg, variant_arg, pointer_arg}
use denso_robot_ros.Client.Calls.{Wrapper, codes, calling, releasing}

abbrev pub execute : ℕ → ℕ → Bool → Wrapper
execute h_command l_mode p_val = calling (record {
  id = 112;
  argc = 2;
  format = codes "3,3:12";
  va = int_arg h_command ∷ int_arg l_mode ∷ pointer_arg variant p_val ∷ [];
})

abbrev pub cancel : ℕ → Wrapper
cancel h_command =
    calling (record { id = 113; argc = 1; format = codes "3"; va = int_arg h_command ∷ [] })

abbrev pub get_timeout : ℕ → Bool → Wrapper
get_timeout h_command p_val = calling (record {
  id = 114;
  argc = 1;
  format = codes "3:3";
  va = int_arg h_command ∷ pointer_arg int32 p_val ∷ [];
})

abbrev pub put_timeout : ℕ → ℕ → Wrapper
put_timeout h_command new_val = calling (record {
  id = 115;
  argc = 2;
  format = codes "3,3";
  va = int_arg h_command ∷ int_arg new_val ∷ [];
})

abbrev pub get_state : ℕ → Bool → Wrapper
get_state h_command p_val = calling (record {
  id = 116;
  argc = 1;
  format = codes "3:3";
  va = int_arg h_command ∷ pointer_arg int32 p_val ∷ [];
})

abbrev pub get_parameters : ℕ → Bool → Wrapper
get_parameters h_command p_val = calling (record {
  id = 117;
  argc = 1;
  format = codes "3:12";
  va = int_arg h_command ∷ pointer_arg variant p_val ∷ [];
})

abbrev pub put_parameters : ℕ → Variant → Wrapper
put_parameters h_command new_val = calling (record {
  id = 118;
  argc = 2;
  format = codes "3,12";
  va = int_arg h_command ∷ variant_arg new_val ∷ [];
})

abbrev pub get_result : ℕ → Bool → Wrapper
get_result h_command p_val = calling (record {
  id = 119;
  argc = 1;
  format = codes "3:12";
  va = int_arg h_command ∷ pointer_arg variant p_val ∷ [];
})

abbrev pub get_attribute : ℕ → Bool → Wrapper
get_attribute h_command p_val = calling (record {
  id = 120;
  argc = 1;
  format = codes "3:3";
  va = int_arg h_command ∷ pointer_arg int32 p_val ∷ [];
})

abbrev pub get_help : ℕ → Bool → Wrapper
get_help h_command p_val = calling (record {
  id = 121;
  argc = 1;
  format = codes "3:8";
  va = int_arg h_command ∷ pointer_arg wide_string p_val ∷ [];
})

abbrev pub get_name : ℕ → Bool → Wrapper
get_name h_command p_val = calling (record {
  id = 122;
  argc = 1;
  format = codes "3:8";
  va = int_arg h_command ∷ pointer_arg wide_string p_val ∷ [];
})

abbrev pub get_tag : ℕ → Bool → Wrapper
get_tag h_command p_val = calling (record {
  id = 123;
  argc = 1;
  format = codes "3:12";
  va = int_arg h_command ∷ pointer_arg variant p_val ∷ [];
})

abbrev pub put_tag : ℕ → Variant → Wrapper
put_tag h_command new_val = calling (record {
  id = 124;
  argc = 2;
  format = codes "3,12";
  va = int_arg h_command ∷ variant_arg new_val ∷ [];
})

abbrev pub get_id : ℕ → Bool → Wrapper
get_id h_command p_val = calling (record {
  id = 125;
  argc = 1;
  format = codes "3:12";
  va = int_arg h_command ∷ pointer_arg variant p_val ∷ [];
})

abbrev pub put_id : ℕ → Variant → Wrapper
put_id h_command new_val = calling (record {
  id = 126;
  argc = 2;
  format = codes "3,12";
  va = int_arg h_command ∷ variant_arg new_val ∷ [];
})

abbrev pub release : Option ℕ → Wrapper
release h_command =
    releasing h_command
      (λ h. record { id = 127; argc = 1; format = codes "3"; va = int_arg h ∷ [] })
