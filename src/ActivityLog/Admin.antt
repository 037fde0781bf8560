-- ===== src/ActivityLog/Admin.antt =====
-- app/services/activity_logger.py: the entries that its functions log about SQS and by administrators.
use Prim.Native.String.{◌++◌}
use connect_manager.Prelude.{String, Bool, Option, none, some, str_eq, if◌then◌else◌}
use connect_manager.Text.Format.{shown}
use connect_manager.Notifications.Values.{bool, str, obj, nil, field}
use connect_manager.ActivityLog.{Entry}
use connect_manager.ActivityLog.Actions.{text_json, printed}

unfoldable pub sqs_credentials_saved :
    (user_id : Option String) → (region : String) → (ip_address : Option String) → Entry String
sqs_credentials_saved user_id region ip_address = record {
  category = "sqs";
  action = "credentials_saved";
  message = "SQS credentials saved for region '" ++ (region ++ "'");
  level = "success";
  user_id = user_id;
  details = some (obj (field "region" (str region) nil));
  related_id = none;
  related_type = none;
  ip_address = ip_address;
}

unfoldable pub sqs_credentials_deleted :
    (user_id : Option String) → (ip_address : Option String) → Entry String
sqs_credentials_deleted user_id ip_address = record {
  category = "sqs";
  action = "credentials_deleted";
  message = "SQS credentials removed";
  level = "info";
  user_id = user_id;
  details = none;
  related_id = none;
  related_type = none;
  ip_address = ip_address;
}

unfoldable pub sqs_queue_created :
    (user_id : Option String)
    → (queue_name : String) → (queue_id : String) → (ip_address : Option String) → Entry String
sqs_queue_created user_id queue_name queue_id ip_address = record {
  category = "sqs";
  action = "queue_created";
  message = "Created SQS queue configuration '" ++ (queue_name ++ "'");
  level = "success";
  user_id = user_id;
  details = some (obj (field "queue_name" (str queue_name) nil));
  related_id = some queue_id;
  related_type = some "queue";
  ip_address = ip_address;
}

unfoldable pub sqs_queue_deleted :
    (user_id : Option String)
    → (queue_name : String) → (queue_id : String) → (ip_address : Option String) → Entry String
sqs_queue_deleted user_id queue_name queue_id ip_address = record {
  category = "sqs";
  action = "queue_deleted";
  message = "Deleted SQS queue configuration '" ++ (queue_name ++ "'");
  level = "info";
  user_id = user_id;
  details = some (obj (field "queue_name" (str queue_name) nil));
  related_id = some queue_id;
  related_type = some "queue";
  ip_address = ip_address;
}

unfoldable pub sqs_event_processed :
    (user_id : Option String)
    → (queue_id : String) → (queue_name : String) → (object_key : String) → (status : String)
    → (error : Option String) → Entry String
unfolding shown
sqs_event_processed user_id queue_id queue_name object_key status error =
    if str_eq status "success"
    then (record {
      category = "sqs";
      action = "event_processed";
      message =
          "Processed S3 event for '" ++ (object_key ++ ("' from queue '" ++ (queue_name ++ "'")));
      level = "success";
      user_id = user_id;
      details =
          some
            (obj (field "object_key" (str object_key) (field "queue_name" (str queue_name) nil)));
      related_id = some queue_id;
      related_type = some "queue";
      ip_address = none;
    })
    else (record {
      category = "sqs";
      action = "event_failed";
      message =
          "Failed to process S3 event for '"
          ++ (object_key ++ ("' from queue '" ++ (queue_name ++ ("': " ++ (printed error)))));
      level = "error";
      user_id = user_id;
      details = some (
          obj (
            field "object_key" (str object_key)
              (field "queue_name" (str queue_name) (field "error" (text_json error) nil))));
      related_id = some queue_id;
      related_type = some "queue";
      ip_address = none;
    })

unfoldable pub sqs_polling_error :
    (user_id : Option String)
    → (queue_id : String) → (queue_name : String) → (error : String) → Entry String
sqs_polling_error user_id queue_id queue_name error = record {
  category = "sqs";
  action = "polling_error";
  message = "Error polling queue '" ++ (queue_name ++ ("': " ++ error));
  level = "error";
  user_id = user_id;
  details = some (obj (field "queue_name" (str queue_name) (field "error" (str error) nil)));
  related_id = some queue_id;
  related_type = some "queue";
  ip_address = none;
}

unfoldable pub admin_login :
    (user_id : String) → (email : String) → (ip_address : Option String) → Entry String
admin_login user_id email ip_address = record {
  category = "admin";
  action = "login";
  message = "User '" ++ (email ++ "' logged in");
  level = "info";
  user_id = some user_id;
  details = some (obj (field "email" (str email) nil));
  related_id = some user_id;
  related_type = some "user";
  ip_address = ip_address;
}

unfoldable pub admin_logout :
    (user_id : String) → (email : String) → (ip_address : Option String) → Entry String
admin_logout user_id email ip_address = record {
  category = "admin";
  action = "logout";
  message = "User '" ++ (email ++ "' logged out");
  level = "info";
  user_id = some user_id;
  details = some (obj (field "email" (str email) nil));
  related_id = some user_id;
  related_type = some "user";
  ip_address = ip_address;
}

unfoldable pub admin_login_failed :
    (email : String) → (reason : String) → (ip_address : Option String) → Entry String
admin_login_failed email reason ip_address = record {
  category = "admin";
  action = "login_failed";
  message = "Failed login attempt for '" ++ (email ++ ("': " ++ reason));
  level = "warning";
  user_id = none;
  details = some (obj (field "email" (str email) (field "reason" (str reason) nil)));
  related_id = none;
  related_type = none;
  ip_address = ip_address;
}

unfoldable pub admin_user_created :
    (admin_id : String)
    → (new_user_email : String) → (new_user_id : String) → (is_admin : Bool)
    → (ip_address : Option String) → Entry String
admin_user_created admin_id new_user_email new_user_id is_admin ip_address =
    let role = if is_admin then "admin" else "user" in
    record {
      category = "admin";
      action = "user_created";
      message = "Created " ++ (role ++ (" account for '" ++ (new_user_email ++ "'")));
      level = "success";
      user_id = some admin_id;
      details = some (
          obj (
            field "new_user_email" (str new_user_email)
              (field "new_user_id" (str new_user_id) (field "is_admin" (bool is_admin) nil))));
      related_id = some new_user_id;
      related_type = some "user";
      ip_address = ip_address;
    }

unfoldable pub admin_user_deleted :
    (admin_id : String)
    → (deleted_email : String) → (deleted_user_id : String) → (ip_address : Option String)
    → Entry String
admin_user_deleted admin_id deleted_email deleted_user_id ip_address = record {
  category = "admin";
  action = "user_deleted";
  message = "Deleted user account '" ++ (deleted_email ++ "'");
  level = "warning";
  user_id = some admin_id;
  details = some (
      obj (
        field "deleted_email" (str deleted_email)
          (field "deleted_user_id" (str deleted_user_id) nil)));
  related_id = some deleted_user_id;
  related_type = some "user";
  ip_address = ip_address;
}

unfoldable pub admin_password_changed :
    (user_id : String) → (email : String) → (ip_address : Option String) → Entry String
admin_password_changed user_id email ip_address = record {
  category = "admin";
  action = "password_changed";
  message = "User '" ++ (email ++ "' changed their password");
  level = "info";
  user_id = some user_id;
  details = some (obj (field "email" (str email) nil));
  related_id = some user_id;
  related_type = some "user";
  ip_address = ip_address;
}

unfoldable pub admin_role_changed :
    (admin_id : String)
    → (target_user_id : String) → (target_email : String) → (new_role : String)
    → (ip_address : Option String) → Entry String
admin_role_changed admin_id target_user_id target_email new_role ip_address = record {
  category = "admin";
  action = "role_changed";
  message = "Changed role for '" ++ (target_email ++ ("' to " ++ new_role));
  level = "info";
  user_id = some admin_id;
  details = some (
      obj (
        field "target_email" (str target_email)
          (field "target_user_id" (str target_user_id) (field "new_role" (str new_role) nil))));
  related_id = some target_user_id;
  related_type = some "user";
  ip_address = ip_address;
}
