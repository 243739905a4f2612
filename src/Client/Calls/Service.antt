-- ===== src/Client/Calls/Service.antt =====
-- The bCap_Service functions of bcap_core/src/bCAPClient/bcap_client.c. An `id` is that of
-- bcap_core/include/bcap_core/bcap_funcid.h; of a pointer for the return value, whether it is NULL.
use denso_robot_ros.Prelude.{[], ◌∷◌}
use denso_robot_ros.Variant.{Bstr}
use denso_robot_ros.Client.Invoke.{bstr_arg}
use denso_robot_ros.Client.Calls.{Wrapper, codes, calling}

abbrev pub start : Bstr → Wrapper
start bstr_option =
    calling (record { id = 1; argc = 1; format = codes "8"; va = bstr_arg bstr_option ∷ [] })

abbrev pub stop : Wrapper
stop = calling (record { id = 2; argc = 0; format = codes ""; va = [] })
