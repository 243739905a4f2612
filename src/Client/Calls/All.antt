-- ===== src/Client/Calls/All.antt =====
-- The functions of bcap_core/include/bcap_core/bCAPClient/bcap_client.h that call the service, as one
-- predicate.
use denso_robot_ros.Prelude.{ℕ, Option, Bool}
use denso_robot_ros.Variant.{Variant, Bstr}
use denso_robot_ros.Client.Calls.{Wrapper}
use denso_robot_ros.Client.Calls.Service
use denso_robot_ros.Client.Calls.Controller
use denso_robot_ros.Client.Calls.Extension
use denso_robot_ros.Client.Calls.File
use denso_robot_ros.Client.Calls.Robot
use denso_robot_ros.Client.Calls.Task
use denso_robot_ros.Client.Calls.Variable
use denso_robot_ros.Client.Calls.Command
use denso_robot_ros.Client.Calls.Message

-- A call of one of the functions.
pub data IsCall : Wrapper → Type 0 where
  service_start : (s : Bstr) → IsCall (Service.start s)
  service_stop : IsCall Service.stop
  controller_connect :
      (s1 : Bstr) (s2 : Bstr) (s3 : Bstr) (s4 : Bstr) (null : Bool)
      → IsCall (Controller.connect s1 s2 s3 s4 null)
  controller_disconnect : (h : Option ℕ) → IsCall (Controller.disconnect h)
  controller_get_extension :
      (n : ℕ) (s1 : Bstr) (s2 : Bstr) (null : Bool) → IsCall (Controller.get_extension n s1 s2 null)
  controller_get_file :
      (n : ℕ) (s1 : Bstr) (s2 : Bstr) (null : Bool) → IsCall (Controller.get_file n s1 s2 null)
  controller_get_robot :
      (n : ℕ) (s1 : Bstr) (s2 : Bstr) (null : Bool) → IsCall (Controller.get_robot n s1 s2 null)
  controller_get_task :
      (n : ℕ) (s1 : Bstr) (s2 : Bstr) (null : Bool) → IsCall (Controller.get_task n s1 s2 null)
  controller_get_variable :
      (n : ℕ) (s1 : Bstr) (s2 : Bstr) (null : Bool) → IsCall (Controller.get_variable n s1 s2 null)
  controller_get_command :
      (n : ℕ) (s1 : Bstr) (s2 : Bstr) (null : Bool) → IsCall (Controller.get_command n s1 s2 null)
  controller_get_extension_names :
      (n : ℕ) (s : Bstr) (null : Bool) → IsCall (Controller.get_extension_names n s null)
  controller_get_file_names :
      (n : ℕ) (s : Bstr) (null : Bool) → IsCall (Controller.get_file_names n s null)
  controller_get_robot_names :
      (n : ℕ) (s : Bstr) (null : Bool) → IsCall (Controller.get_robot_names n s null)
  controller_get_task_names :
      (n : ℕ) (s : Bstr) (null : Bool) → IsCall (Controller.get_task_names n s null)
  controller_get_variable_names :
      (n : ℕ) (s : Bstr) (null : Bool) → IsCall (Controller.get_variable_names n s null)
  controller_get_command_names :
      (n : ℕ) (s : Bstr) (null : Bool) → IsCall (Controller.get_command_names n s null)
  controller_execute :
      (n : ℕ) (s : Bstr) (v : Variant) (null : Bool) → IsCall (Controller.execute n s v null)
  controller_get_message : (n : ℕ) (null : Bool) → IsCall (Controller.get_message n null)
  controller_get_attribute : (n : ℕ) (null : Bool) → IsCall (Controller.get_attribute n null)
  controller_get_help : (n : ℕ) (null : Bool) → IsCall (Controller.get_help n null)
  controller_get_name : (n : ℕ) (null : Bool) → IsCall (Controller.get_name n null)
  controller_get_tag : (n : ℕ) (null : Bool) → IsCall (Controller.get_tag n null)
  controller_put_tag : (n : ℕ) (v : Variant) → IsCall (Controller.put_tag n v)
  controller_get_id : (n : ℕ) (null : Bool) → IsCall (Controller.get_id n null)
  controller_put_id : (n : ℕ) (v : Variant) → IsCall (Controller.put_id n v)
  extension_get_variable :
      (n : ℕ) (s1 : Bstr) (s2 : Bstr) (null : Bool) → IsCall (Extension.get_variable n s1 s2 null)
  extension_get_variable_names :
      (n : ℕ) (s : Bstr) (null : Bool) → IsCall (Extension.get_variable_names n s null)
  extension_execute :
      (n : ℕ) (s : Bstr) (v : Variant) (null : Bool) → IsCall (Extension.execute n s v null)
  extension_get_attribute : (n : ℕ) (null : Bool) → IsCall (Extension.get_attribute n null)
  extension_get_help : (n : ℕ) (null : Bool) → IsCall (Extension.get_help n null)
  extension_get_name : (n : ℕ) (null : Bool) → IsCall (Extension.get_name n null)
  extension_get_tag : (n : ℕ) (null : Bool) → IsCall (Extension.get_tag n null)
  extension_put_tag : (n : ℕ) (v : Variant) → IsCall (Extension.put_tag n v)
  extension_get_id : (n : ℕ) (null : Bool) → IsCall (Extension.get_id n null)
  extension_put_id : (n : ℕ) (v : Variant) → IsCall (Extension.put_id n v)
  extension_release : (h : Option ℕ) → IsCall (Extension.release h)
  file_get_file :
      (n : ℕ) (s1 : Bstr) (s2 : Bstr) (null : Bool) → IsCall (File.get_file n s1 s2 null)
  file_get_variable :
      (n : ℕ) (s1 : Bstr) (s2 : Bstr) (null : Bool) → IsCall (File.get_variable n s1 s2 null)
  file_get_file_names : (n : ℕ) (s : Bstr) (null : Bool) → IsCall (File.get_file_names n s null)
  file_get_variable_names :
      (n : ℕ) (s : Bstr) (null : Bool) → IsCall (File.get_variable_names n s null)
  file_execute : (n : ℕ) (s : Bstr) (v : Variant) (null : Bool) → IsCall (File.execute n s v null)
  file_copy : (n : ℕ) (s1 : Bstr) (s2 : Bstr) → IsCall (File.copy n s1 s2)
  file_delete : (n : ℕ) (s : Bstr) → IsCall (File.delete n s)
  file_move : (n : ℕ) (s1 : Bstr) (s2 : Bstr) → IsCall (File.move n s1 s2)
  file_run : (n : ℕ) (s : Bstr) (null : Bool) → IsCall (File.run n s null)
  file_get_date_created : (n : ℕ) (null : Bool) → IsCall (File.get_date_created n null)
  file_get_date_last_accessed : (n : ℕ) (null : Bool) → IsCall (File.get_date_last_accessed n null)
  file_get_date_last_modified : (n : ℕ) (null : Bool) → IsCall (File.get_date_last_modified n null)
  file_get_path : (n : ℕ) (null : Bool) → IsCall (File.get_path n null)
  file_get_size : (n : ℕ) (null : Bool) → IsCall (File.get_size n null)
  file_get_type : (n : ℕ) (null : Bool) → IsCall (File.get_type n null)
  file_get_value : (n : ℕ) (null : Bool) → IsCall (File.get_value n null)
  file_put_value : (n : ℕ) (v : Variant) → IsCall (File.put_value n v)
  file_get_attribute : (n : ℕ) (null : Bool) → IsCall (File.get_attribute n null)
  file_get_help : (n : ℕ) (null : Bool) → IsCall (File.get_help n null)
  file_get_name : (n : ℕ) (null : Bool) → IsCall (File.get_name n null)
  file_get_tag : (n : ℕ) (null : Bool) → IsCall (File.get_tag n null)
  file_put_tag : (n : ℕ) (v : Variant) → IsCall (File.put_tag n v)
  file_get_id : (n : ℕ) (null : Bool) → IsCall (File.get_id n null)
  file_put_id : (n : ℕ) (v : Variant) → IsCall (File.put_id n v)
  file_release : (h : Option ℕ) → IsCall (File.release h)
  robot_get_variable :
      (n : ℕ) (s1 : Bstr) (s2 : Bstr) (null : Bool) → IsCall (Robot.get_variable n s1 s2 null)
  robot_get_variable_names :
      (n : ℕ) (s : Bstr) (null : Bool) → IsCall (Robot.get_variable_names n s null)
  robot_execute : (n : ℕ) (s : Bstr) (v : Variant) (null : Bool) → IsCall (Robot.execute n s v null)
  robot_accelerate : (n1 : ℕ) (n2 : ℕ) (n3 : ℕ) (n4 : ℕ) → IsCall (Robot.accelerate n1 n2 n3 n4)
  robot_change : (n : ℕ) (s : Bstr) → IsCall (Robot.change n s)
  robot_chuck : (n : ℕ) (s : Bstr) → IsCall (Robot.chuck n s)
  robot_drive : (n1 : ℕ) (n2 : ℕ) (n3 : ℕ) (s : Bstr) → IsCall (Robot.drive n1 n2 n3 s)
  robot_go_home : (n : ℕ) → IsCall (Robot.go_home n)
  robot_halt : (n : ℕ) (s : Bstr) → IsCall (Robot.halt n s)
  robot_hold : (n : ℕ) (s : Bstr) → IsCall (Robot.hold n s)
  robot_move : (n1 : ℕ) (n2 : ℕ) (v : Variant) (s : Bstr) → IsCall (Robot.move n1 n2 v s)
  robot_rotate :
      (n1 : ℕ) (v1 : Variant) (n2 : ℕ) (v2 : Variant) (s : Bstr)
      → IsCall (Robot.rotate n1 v1 n2 v2 s)
  robot_speed : (n1 : ℕ) (n2 : ℕ) (n3 : ℕ) → IsCall (Robot.speed n1 n2 n3)
  robot_unchuck : (n : ℕ) (s : Bstr) → IsCall (Robot.unchuck n s)
  robot_unhold : (n : ℕ) (s : Bstr) → IsCall (Robot.unhold n s)
  robot_get_attribute : (n : ℕ) (null : Bool) → IsCall (Robot.get_attribute n null)
  robot_get_help : (n : ℕ) (null : Bool) → IsCall (Robot.get_help n null)
  robot_get_name : (n : ℕ) (null : Bool) → IsCall (Robot.get_name n null)
  robot_get_tag : (n : ℕ) (null : Bool) → IsCall (Robot.get_tag n null)
  robot_put_tag : (n : ℕ) (v : Variant) → IsCall (Robot.put_tag n v)
  robot_get_id : (n : ℕ) (null : Bool) → IsCall (Robot.get_id n null)
  robot_put_id : (n : ℕ) (v : Variant) → IsCall (Robot.put_id n v)
  robot_release : (h : Option ℕ) → IsCall (Robot.release h)
  task_get_variable :
      (n : ℕ) (s1 : Bstr) (s2 : Bstr) (null : Bool) → IsCall (Task.get_variable n s1 s2 null)
  task_get_variable_names :
      (n : ℕ) (s : Bstr) (null : Bool) → IsCall (Task.get_variable_names n s null)
  task_execute : (n : ℕ) (s : Bstr) (v : Variant) (null : Bool) → IsCall (Task.execute n s v null)
  task_start : (n1 : ℕ) (n2 : ℕ) (s : Bstr) → IsCall (Task.start n1 n2 s)
  task_stop : (n1 : ℕ) (n2 : ℕ) (s : Bstr) → IsCall (Task.stop n1 n2 s)
  task_delete : (n : ℕ) (s : Bstr) → IsCall (Task.delete n s)
  task_get_file_name : (n : ℕ) (null : Bool) → IsCall (Task.get_file_name n null)
  task_get_attribute : (n : ℕ) (null : Bool) → IsCall (Task.get_attribute n null)
  task_get_help : (n : ℕ) (null : Bool) → IsCall (Task.get_help n null)
  task_get_name : (n : ℕ) (null : Bool) → IsCall (Task.get_name n null)
  task_get_tag : (n : ℕ) (null : Bool) → IsCall (Task.get_tag n null)
  task_put_tag : (n : ℕ) (v : Variant) → IsCall (Task.put_tag n v)
  task_get_id : (n : ℕ) (null : Bool) → IsCall (Task.get_id n null)
  task_put_id : (n : ℕ) (v : Variant) → IsCall (Task.put_id n v)
  task_release : (h : Option ℕ) → IsCall (Task.release h)
  variable_get_date_time : (n : ℕ) (null : Bool) → IsCall (Variable.get_date_time n null)
  variable_get_value : (n : ℕ) (null : Bool) → IsCall (Variable.get_value n null)
  variable_put_value : (n : ℕ) (v : Variant) → IsCall (Variable.put_value n v)
  variable_get_attribute : (n : ℕ) (null : Bool) → IsCall (Variable.get_attribute n null)
  variable_get_help : (n : ℕ) (null : Bool) → IsCall (Variable.get_help n null)
  variable_get_name : (n : ℕ) (null : Bool) → IsCall (Variable.get_name n null)
  variable_get_tag : (n : ℕ) (null : Bool) → IsCall (Variable.get_tag n null)
  variable_put_tag : (n : ℕ) (v : Variant) → IsCall (Variable.put_tag n v)
  variable_get_id : (n : ℕ) (null : Bool) → IsCall (Variable.get_id n null)
  variable_put_id : (n : ℕ) (v : Variant) → IsCall (Variable.put_id n v)
  variable_get_microsecond : (n : ℕ) (null : Bool) → IsCall (Variable.get_microsecond n null)
  variable_release : (h : Option ℕ) → IsCall (Variable.release h)
  command_execute : (n1 : ℕ) (n2 : ℕ) (null : Bool) → IsCall (Command.execute n1 n2 null)
  command_cancel : (n : ℕ) → IsCall (Command.cancel n)
  command_get_timeout : (n : ℕ) (null : Bool) → IsCall (Command.get_timeout n null)
  command_put_timeout : (n1 : ℕ) (n2 : ℕ) → IsCall (Command.put_timeout n1 n2)
  command_get_state : (n : ℕ) (null : Bool) → IsCall (Command.get_state n null)
  command_get_parameters : (n : ℕ) (null : Bool) → IsCall (Command.get_parameters n null)
  command_put_parameters : (n : ℕ) (v : Variant) → IsCall (Command.put_parameters n v)
  command_get_result : (n : ℕ) (null : Bool) → IsCall (Command.get_result n null)
  command_get_attribute : (n : ℕ) (null : Bool) → IsCall (Command.get_attribute n null)
  command_get_help : (n : ℕ) (null : Bool) → IsCall (Command.get_help n null)
  command_get_name : (n : ℕ) (null : Bool) → IsCall (Command.get_name n null)
  command_get_tag : (n : ℕ) (null : Bool) → IsCall (Command.get_tag n null)
  command_put_tag : (n : ℕ) (v : Variant) → IsCall (Command.put_tag n v)
  command_get_id : (n : ℕ) (null : Bool) → IsCall (Command.get_id n null)
  command_put_id : (n : ℕ) (v : Variant) → IsCall (Command.put_id n v)
  command_release : (h : Option ℕ) → IsCall (Command.release h)
  message_reply : (n : ℕ) (v : Variant) → IsCall (Message.reply n v)
  message_clear : (n : ℕ) → IsCall (Message.clear n)
  message_get_date_time : (n : ℕ) (null : Bool) → IsCall (Message.get_date_time n null)
  message_get_description : (n : ℕ) (null : Bool) → IsCall (Message.get_description n null)
  message_get_destination : (n : ℕ) (null : Bool) → IsCall (Message.get_destination n null)
  message_get_number : (n : ℕ) (null : Bool) → IsCall (Message.get_number n null)
  message_get_serial_number : (n : ℕ) (null : Bool) → IsCall (Message.get_serial_number n null)
  message_get_source : (n : ℕ) (null : Bool) → IsCall (Message.get_source n null)
  message_get_value : (n : ℕ) (null : Bool) → IsCall (Message.get_value n null)
  message_release : (h : Option ℕ) → IsCall (Message.release h)
