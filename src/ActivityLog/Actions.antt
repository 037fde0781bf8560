-- ===== src/ActivityLog/Actions.antt =====
-- app/services/activity_logger.py: the entries that its functions log about the application.
use Prim.Native.String.{◌++◌}
use connect_manager.Prelude.{ℕ, String, Option, none, some}
use connect_manager.Text.Format.{shown}
use connect_manager.Notifications.Values.{Json, null, num, str, obj, nil, field}
use connect_manager.ActivityLog.{Entry}

-- A text or None, in JSON and in an f-string.
abbrev pub text_json : Option String → Json
text_json none = null
text_json (some s) = str s

abbrev pub printed : Option String → String
printed none = "None"
printed (some s) = s

abbrev pub num_json : Option ℕ → Json
num_json none = null
num_json (some n) = num n

unfoldable pub app_info :
    (message : String)
    → (user_id : Option String) → (details : Option Json) → (ip_address : Option String)
    → Entry String
app_info message user_id details ip_address = record {
  category = "app";
  action = "info";
  message = message;
  level = "info";
  user_id = user_id;
  details = details;
  related_id = none;
  related_type = none;
  ip_address = ip_address;
}

unfoldable pub app_error :
    (message : String)
    → (user_id : Option String) → (details : Option Json) → (ip_address : Option String)
    → Entry String
app_error message user_id details ip_address = record {
  category = "app";
  action = "error";
  message = message;
  level = "error";
  user_id = user_id;
  details = details;
  related_id = none;
  related_type = none;
  ip_address = ip_address;
}

unfoldable pub app_warning :
    (message : String)
    → (user_id : Option String) → (details : Option Json) → (ip_address : Option String)
    → Entry String
app_warning message user_id details ip_address = record {
  category = "app";
  action = "warning";
  message = message;
  level = "warning";
  user_id = user_id;
  details = details;
  related_id = none;
  related_type = none;
  ip_address = ip_address;
}

unfoldable pub app_connection :
    (user_id : Option String)
    → (filespace_name : String) → (datastore_count : ℕ) → (ip_address : Option String)
    → Entry String
unfolding shown
app_connection user_id filespace_name datastore_count ip_address = record {
  category = "app";
  action = "connection";
  message =
      "Connected to filespace '"
      ++ (filespace_name ++ ("' with " ++ ((shown datastore_count) ++ " DataStore(s)")));
  level = "success";
  user_id = user_id;
  details = some (
      obj (
        field "filespace_name" (str filespace_name)
          (field "datastore_count" (num datastore_count) nil)));
  related_id = none;
  related_type = none;
  ip_address = ip_address;
}

unfoldable pub app_datastore_created :
    (user_id : Option String)
    → (datastore_name : String) → (bucket : String) → (filespace_name : String)
    → (ip_address : Option String) → Entry String
app_datastore_created user_id datastore_name bucket filespace_name ip_address = record {
  category = "app";
  action = "datastore_created";
  message =
      "Created DataStore '"
      ++ (datastore_name
          ++ ("' for bucket '" ++ (bucket ++ ("' in filespace '" ++ (filespace_name ++ "'")))));
  level = "success";
  user_id = user_id;
  details = some (
      obj (
        field "datastore_name" (str datastore_name)
          (field "bucket" (str bucket) (field "filespace_name" (str filespace_name) nil))));
  related_id = none;
  related_type = some "datastore";
  ip_address = ip_address;
}

unfoldable pub app_datastore_deleted :
    (user_id : Option String)
    → (datastore_name : String) → (ip_address : Option String) → Entry String
app_datastore_deleted user_id datastore_name ip_address = record {
  category = "app";
  action = "datastore_deleted";
  message = "Deleted DataStore '" ++ (datastore_name ++ "'");
  level = "info";
  user_id = user_id;
  details = some (obj (field "datastore_name" (str datastore_name) nil));
  related_id = none;
  related_type = some "datastore";
  ip_address = ip_address;
}
