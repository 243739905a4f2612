-- ===== src/Client/Calls/Variable.antt =====
-- The bCap_Variable functions of bcap_core/src/bCAPClient/bcap_client.c. An `id` is that of
-- bcap_core/include/bcap_core/bcap_funcid.h; of a pointer for the return value, whether it is NULL.
use denso_robot_ros.Prelude.{ℕ, [], ◌∷◌, Option, Bool}
use denso_robot_ros.Variant.{Variant}
use denso_robot_ros.Client.Invoke.{int32, wide_string, variant, int_arg, variant_arg, pointer_arg}
use denso_robot_ros.Client.Calls.{Wrapper, codes, calling, releasing}

abbrev pub get_date_time : ℕ → Bool → Wrapper
get_date_time h_variable p_val = calling (record {
  id = 100;
  argc = 1;
  format = codes "3:12";
  va = int_arg h_variable ∷ pointer_arg variant p_val ∷ [];
})

abbrev pub get_value : ℕ → Bool → Wrapper
get_value h_variable p_val = calling (record {
  id = 101;
  argc = 1;
  format = codes "3:12";
  va = int_arg h_variable ∷ pointer_arg variant p_val ∷ [];
})

abbrev pub put_value : ℕ → Variant → Wrapper
put_value h_variable new_val = calling (record {
  id = 102;
  argc = 2;
  format = codes "3,12";
  va = int_arg h_variable ∷ variant_arg new_val ∷ [];
})

abbrev pub get_attribute : ℕ → Bool → Wrapper
get_attribute h_variable p_val = calling (record {
  id = 103;
  argc = 1;
  format = codes "3:3";
  va = int_arg h_variable ∷ pointer_arg int32 p_val ∷ [];
})

abbrev pub get_help : ℕ → Bool → Wrapper
get_help h_variable p_val = calling (record {
  id = 104;
  argc = 1;
  format = codes "3:8";
  va = int_arg h_variable ∷ pointer_arg wide_string p_val ∷ [];
})

abbrev pub get_name : ℕ → Bool → Wrapper
get_name h_variable p_val = calling (record {
  id = 105;
  argc = 1;
  format = codes "3:8";
  va = int_arg h_variable ∷ pointer_arg wide_string p_val ∷ [];
})

abbrev pub get_tag : ℕ → Bool → Wrapper
get_tag h_variable p_val = calling (record {
  id = 106;
  argc = 1;
  format = codes "3:12";
  va = int_arg h_variable ∷ pointer_arg variant p_val ∷ [];
})

abbrev pub put_tag : ℕ → Variant → Wrapper
put_tag h_variable new_val = calling (record {
  id = 107;
  argc = 2;
  format = codes "3,12";
  va = int_arg h_variable ∷ variant_arg new_val ∷ [];
})

abbrev pub get_id : ℕ → Bool → Wrapper
get_id h_variable p_val = calling (record {
  id = 108;
  argc = 1;
  format = codes "3:12";
  va = int_arg h_variable ∷ pointer_arg variant p_val ∷ [];
})

abbrev pub put_id : ℕ → Variant → Wrapper
put_id h_variable new_val = calling (record {
  id = 109;
  argc = 2;
  format = codes "3,12";
  va = int_arg h_variable ∷ variant_arg new_val ∷ [];
})

abbrev pub get_microsecond : ℕ → Bool → Wrapper
get_microsecond h_variable p_val = calling (record {
  id = 110;
  argc = 1;
  format = codes "3:3";
  va = int_arg h_variable ∷ pointer_arg int32 p_val ∷ [];
})

abbrev pub release : Option ℕ → Wrapper
release h_variable =
    releasing h_variable
      (λ h. record { id = 111; argc = 1; format = codes "3"; va = int_arg h ∷ [] })
