-- ===== src/ActivityLog/JobActions.antt =====
-- app/services/activity_logger.py: the entries that its functions log about jobs.
use Prim.Native.String.{◌++◌}
use connect_manager.Prelude.{ℕ, ◌+◌, String, Bool, Option, none, some, ltb, ◌==◌, if◌then◌else◌}
use connect_manager.Text.Format.{shown}
use connect_manager.Notifications.Values.{num, str, obj, nil, field}
use connect_manager.ActivityLog.{Entry}
use connect_manager.ActivityLog.Actions.{text_json, printed, num_json}

unfoldable pub job_started :
    (user_id : Option String) → (job_id : ℕ) → (prefix : String) → (total_files : ℕ) → Entry String
unfolding shown
job_started user_id job_id prefix total_files = record {
  category = "job";
  action = "job_started";
  message = "Started import job for '" ++ (prefix ++ ("' (" ++ ((shown total_files) ++ " files)")));
  level = "info";
  user_id = user_id;
  details = some (obj (field "prefix" (str prefix) (field "total_files" (num total_files) nil)));
  related_id = some (shown job_id);
  related_type = some "job";
  ip_address = none;
}

unfoldable pub job_failed :
    (user_id : Option String) → (job_id : ℕ) → (error : String) → Entry String
unfolding shown
job_failed user_id job_id error = record {
  category = "job";
  action = "job_failed";
  message = "Job #" ++ ((shown job_id) ++ (" failed: " ++ error));
  level = "error";
  user_id = user_id;
  details = some (obj (field "error" (str error) nil));
  related_id = some (shown job_id);
  related_type = some "job";
  ip_address = none;
}

unfoldable pub job_cancelled :
    (user_id : Option String) → (job_id : ℕ) → (ip_address : Option String) → Entry String
unfolding shown
job_cancelled user_id job_id ip_address = record {
  category = "job";
  action = "job_cancelled";
  message = "Job #" ++ ((shown job_id) ++ " cancelled by user");
  level = "warning";
  user_id = user_id;
  details = some (obj nil);
  related_id = some (shown job_id);
  related_type = some "job";
  ip_address = ip_address;
}

unfoldable pub job_queued :
    (user_id : Option String)
    → (job_id : ℕ) → (prefix : String) → (ip_address : Option String) → Entry String
unfolding shown
job_queued user_id job_id prefix ip_address = record {
  category = "job";
  action = "job_queued";
  message = "Queued import job #" ++ ((shown job_id) ++ (" for '" ++ (prefix ++ "'")));
  level = "info";
  user_id = user_id;
  details = some (obj (field "prefix" (str prefix) nil));
  related_id = some (shown job_id);
  related_type = some "job";
  ip_address = ip_address;
}

unfoldable pub single_file_import :
    (user_id : Option String)
    → (object_key : String) → (success : Bool) → (error : Option String)
    → (ip_address : Option String) → Entry String
unfolding shown
single_file_import user_id object_key success error ip_address =
    if success
    then (record {
      category = "job";
      action = "file_imported";
      message = "Imported file '" ++ (object_key ++ "'");
      level = "success";
      user_id = user_id;
      details = some (obj (field "object_key" (str object_key) nil));
      related_id = none;
      related_type = none;
      ip_address = ip_address;
    })
    else (record {
      category = "job";
      action = "file_import_failed";
      message = "Failed to import file '" ++ (object_key ++ ("': " ++ (printed error)));
      level = "error";
      user_id = user_id;
      details =
          some (obj (field "object_key" (str object_key) (field "error" (text_json error) nil)));
      related_id = none;
      related_type = none;
      ip_address = ip_address;
    })

-- `round((completed / total) * 100)` in floating point is an argument.
unfoldable pub job_progress :
    (percent_of : ℕ → ℕ → ℕ) (user_id : Option String) (job_id completed total : ℕ) → Entry String
unfolding shown
job_progress percent_of user_id job_id completed total =
    let percent = if ltb 0 total then percent_of completed total else 0 in
    record {
      category = "job";
      action = "job_progress";
      message =
          "Job #"
          ++ (shown job_id
              ++ (" progress: "
                  ++ (shown completed
                      ++ ("/" ++ (shown total ++ (" (" ++ (shown percent ++ "%)")))))));
      level = "info";
      user_id = user_id;
      details = some (
          obj (
            field "completed" (num completed)
              (field "total" (num total) (field "percent" (num percent) nil))));
      related_id = some (shown job_id);
      related_type = some "job";
      ip_address = none;
    }

abbrev pub failed_part : ℕ → String
failed_part failed = if ltb 0 failed then " (" ++ (shown failed ++ " failed)") else ""

abbrev pub duration_part : Option ℕ → String
duration_part none = ""
duration_part (some n) = if n == 0 then "" else " in " ++ (shown n ++ "s")

unfoldable pub job_completed :
    (user_id : Option String) (job_id completed failed : ℕ) → Option ℕ → Entry String
unfolding shown
job_completed user_id job_id completed failed duration = record {
  category = "job";
  action = "job_completed";
  message =
      "Completed job #"
      ++ (shown job_id
          ++ (": "
              ++ (shown completed
                  ++ ("/"
                      ++ (shown (completed + failed)
                          ++ (" files imported"
                              ++ (failed_part failed ++ duration_part duration)))))));
  level = if failed == 0 then "success" else "warning";
  user_id = user_id;
  details = some (
      obj (
        field "completed" (num completed)
          (field "failed" (num failed) (field "duration_seconds" (num_json duration) nil))));
  related_id = some (shown job_id);
  related_type = some "job";
  ip_address = none;
}
