-- ===== src/Client/Calls/Message.antt =====
-- The bCap_Message functions of bcap_core/src/bCAPClient/bcap_client.c. An `id` is that of
-- bcap_core/include/bcap_core/bcap_funcid.h; of a pointer for the return value, whether it is NULL.
use denso_robot_ros.Prelude.{ℕ, [], ◌∷◌, Option, Bool}
use denso_robot_ros.Variant.{Variant}
use denso_robot_ros.Client.Invoke.{int32, wide_string, variant, int_arg, variant_arg, pointer_arg}
use denso_robot_ros.Client.Calls.{Wrapper, codes, calling, releasing}

abbrev pub reply : ℕ → Variant → Wrapper
reply h_message vnt_data = calling (record {
  id = 128;
  argc = 2;
  format = codes "3,12";
  va = int_arg h_message ∷ variant_arg vnt_data ∷ [];
})

abbrev pub clear : ℕ → Wrapper
clear h_message =
    calling (record { id = 129; argc = 1; format = codes "3"; va = int_arg h_message ∷ [] })

abbrev pub get_date_time : ℕ → Bool → Wrapper
get_date_time h_message p_val = calling (record {
  id = 130;
  argc = 1;
  format = codes "3:12";
  va = int_arg h_message ∷ pointer_arg variant p_val ∷ [];
})

abbrev pub get_description : ℕ → Bool → Wrapper
get_description h_message p_val = calling (record {
  id = 131;
  argc = 1;
  format = codes "3:8";
  va = int_arg h_message ∷ pointer_arg wide_string p_val ∷ [];
})

abbrev pub get_destination : ℕ → Bool → Wrapper
get_destination h_message p_val = calling (record {
  id = 132;
  argc = 1;
  format = codes "3:8";
  va = int_arg h_message ∷ pointer_arg wide_string p_val ∷ [];
})

abbrev pub get_number : ℕ → Bool → Wrapper
get_number h_message p_val = calling (record {
  id = 133;
  argc = 1;
  format = codes "3:3";
  va = int_arg h_message ∷ pointer_arg int32 p_val ∷ [];
})

abbrev pub get_serial_number : ℕ → Bool → Wrapper
get_serial_number h_message p_val = calling (record {
  id = 134;
  argc = 1;
  format = codes "3:3";
  va = int_arg h_message ∷ pointer_arg int32 p_val ∷ [];
})

abbrev pub get_source : ℕ → Bool → Wrapper
get_source h_message p_val = calling (record {
  id = 135;
  argc = 1;
  format = codes "3:8";
  va = int_arg h_message ∷ pointer_arg wide_string p_val ∷ [];
})

abbrev pub get_value : ℕ → Bool → Wrapper
get_value h_message p_val = calling (record {
  id = 136;
  argc = 1;
  format = codes "3:12";
  va = int_arg h_message ∷ pointer_arg variant p_val ∷ [];
})

abbrev pub release : Option ℕ → Wrapper
release h_message =
    releasing h_message
      (λ h. record { id = 137; argc = 1; format = codes "3"; va = int_arg h ∷ [] })
