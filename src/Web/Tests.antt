-- ===== src/Web/Tests.antt =====
-- Two users, "a" and "b", and the handlers on what is theirs.
use connect_manager.Prelude.{
  ℕ, ◌≡◌, ◌≢◌, ◌≤◌, refl, String, true, false, List, [], ◌∷◌, ◌++◌, Option, none, some, arith, ap,
  length, or_else, str_eq, if◌then◌else◌, ◌==◌,
}
use Prim.Native.String
use connect_manager.Credentials.Tagging.{tagging}
use connect_manager.Credentials.Datastores.{list_for_user, get_datastore_credentials}
use connect_manager.Credentials.Datastores.Saved.{Returned}
use connect_manager.Credentials.Sqs
use connect_manager.Credentials.Sqs.{Opened}
use connect_manager.Db.Table.{Result, ok, err, count}
use connect_manager.Db.Rows.{
  Uuid, Job, pending, SqsQueue, active, SqsCredentials, DatastoreCredentials,
}
use connect_manager.ActivityLog.{ActivityLog, parse_user_id}
use connect_manager.Jobs
use connect_manager.Jobs.{JobTable}
use connect_manager.JobQueue.{parse_user}
use connect_manager.Notifications.Buckets
use connect_manager.LucidLink.{timed_out}
use connect_manager.Sessions.{
  UserSession, S3Keys, new_session, log, get_datastore_by_id, get_s3_service_for_datastore,
}
use connect_manager.Storage.{S3, S3Item, S3ListResult, reply, client_error}
use connect_manager.Web.{Request, World, Env, parse_uid, state_of}
use connect_manager.Web.Jobs.Owners.{
  JobRequest, clear_finished, cancel_one, delete_one, import_under, handle_all,
  list_for_user-handle_all,
}
use connect_manager.Web.Browse.{pos, paged}
use connect_manager.Web.Browse.Pages.{items_upto, items_upto-total_pages}
use connect_manager.Web.Browse.Up.{parent_prefix-append}
use connect_manager.Web.Browse.{parent_prefix}
use connect_manager.Web.Streams.{LogStream, new_stream, resume}
use connect_manager.Web.Streams.Followed.{
  Step, write, round, clear, step, run, lines, times, IsCalm, times-run, run-full,
}
use connect_manager.Web.Logs.{clear_logs_category, user_logs, logs_admin}
use connect_manager.Web.Logs.Admin.{admin_rows, IsRefused, admin_rows-clear_logs_category}
use connect_manager.Web.Logs.Cleared.{app_tab, page_of, user_logs-clear_logs_category}
use connect_manager.Web.Credentials.{Form, save_credentials}
use connect_manager.Web.Credentials.Kept.{form_keys, save_credentials-stored}

abbrev user_number : String → Option Uuid
user_number s = if str_eq s "a" then some 1 else if str_eq s "b" then some 2 else none

abbrev env : Env
env = record {
  now = 50;
  timestamp = "10:00:00";
  nonce = 0;
  fresh_id = 9;
  parse_uuid = user_number;
  show_uuid = λ u. if u == 1 then "a" else "b";
  saved_token = λ u. none;
  fernet = tagging;
  describe = λ x. "failed";
  answers = λ sent q. timed_out "no answer";
  ll_host = "host";
  sqs = λ a s r. record {
    region = r;
    dumps = λ v. "{}";
    receive_message = λ q m t y. (Buckets.client_error "500" "down" "down", y);
    delete_message = λ q h y. (Buckets.client_error "500" "down" "down", y);
    get_queue_attributes = λ q y. (Buckets.client_error "500" "down" "down", y);
    create_queue = λ n v m y. (Buckets.client_error "500" "down" "down", y);
    list_queues = λ p y. (Buckets.client_error "500" "down" "down", y);
    set_policy = λ q p y. (Buckets.client_error "500" "down" "down", y);
    delete_queue = λ q y. (Buckets.client_error "500" "down" "down", y);
  };
  buckets = λ a s r. record {
    get_configuration = λ b y. (Buckets.client_error "403" "denied" "denied", y);
    put_configuration = λ b c y. (Buckets.client_error "403" "denied" "denied", y);
  };
  wired = true;
  stores = true;
}

abbrev of_user : String → Request
of_user u = record { user_id = some u; is_admin = false }

abbrev job : ℕ → Uuid → Job
job id user = record {
  id = id;
  status = pending;
  bucket = "media";
  prefix = "p/";
  filespace_id = "fs";
  datastore_id = "ds";
  total_files = 0;
  completed_files = 0;
  failed_files = 0;
  error_message = none;
  created_at = id;
  started_at = none;
  completed_at = none;
  user_id = some user;
}

abbrev log_row : ℕ → String → Uuid → ActivityLog
log_row id category user = record {
  id = id;
  entry = record {
    category = category;
    action = "info";
    message = "m";
    level = "info";
    user_id = some user;
    details = none;
    related_id = none;
    related_type = none;
    ip_address = none;
  };
  created_at = id;
}

abbrev world : World
world = record {
  sessions = [];
  jobs = record { rows = job 1 1 ∷ job 2 2 ∷ []; next_id = 3 };
  queue = record { has_sessionmaker = true; pool = some [] };
  logs = record {
    rows = log_row 1 "app" 1 ∷ log_row 2 "app" 2 ∷ log_row 3 "admin" 1 ∷ [];
    next_id = 4;
  };
  settings = [];
  datastores = record { rows = []; next_id = 1 };
  sqs_credentials = record { rows = []; next_id = 1 };
  queues = record { queues = []; events = [] };
  requests = [];
  aws_calls = [];
}

abbrev requests : List (Env × Request × JobRequest)
requests =
    (env, of_user "b", cancel_one 1)
    ∷ (env, of_user "b", delete_one 1)
    ∷ (env, of_user "b", import_under "q/" "ds")
    ∷ (env, of_user "b", clear_finished)
    ∷ []

b-IsOther : parse_uid env (of_user "b") ≢ ok (some 1)
unfolding parse_user
b-IsOther e = omega (arith, ap number e)
  where
    number : Result (Option Uuid) → ℕ
    number (ok u) = or_else u 0
    number (err x) = 0

list_for_user-handle_all_example :
    Jobs.list_for_user (some 1) 9 0 (handle_all requests world).jobs
    ≡ Jobs.list_for_user (some 1) 9 0 world.jobs
list_for_user-handle_all_example =
    list_for_user-handle_all (some 1) 9 0 requests world
      (b-IsOther, (b-IsOther, (b-IsOther, (b-IsOther, tt))))

abbrev item : String → S3Item
item name = record {
  name = name;
  key = name;
  is_folder = false;
  size = (1, 1);
  size_formatted = "1 B";
}

abbrev eleven : S3ListResult
eleven = record {
  items =
      item "a"
      ∷ item "b"
      ∷ item "c"
      ∷ item "d"
      ∷ item "e"
      ∷ item "f"
      ∷ item "g"
      ∷ item "h"
      ∷ item "i"
      ∷ item "j"
      ∷ item "k"
      ∷ [];
  total_count = 11;
  is_truncated = false;
}

items_upto-total_pages_example :
    let s = paged "ds" "media" "p/" (pos 7) (pos 3) eleven in
    (items_upto "ds" "media" "p/" (pos 3) eleven s.total_pages ≡ eleven.items)
    × (1 ≤ s.page)
    × (s.page ≤ s.total_pages)
    × (10 ≤ s.page_size)
    × (s.page_size ≤ 200)
    × (length s.items ≤ s.page_size)
items_upto-total_pages_example =
    items_upto-total_pages "ds" "media" "p/" (pos 3) eleven (pos 7) refl

parent_prefix-append_example :
    (parent_prefix (String.◌++◌ (String.◌++◌ "raw/day" "/") (String.◌++◌ "cam" "/"))
      ≡ String.◌++◌ "raw/day" "/")
    × (parent_prefix (String.◌++◌ "cam" "/") ≡ "")
parent_prefix-append_example =
    parent_prefix-append "raw/day" "cam" refl refl (refl, (refl, (refl, tt)))

abbrev written : List Step
written = write "10:00:00" "one" ∷ round ∷ round ∷ round ∷ write "10:00:01" "two" ∷ []

abbrev started : UserSession
started = log "09:00:00" "zero" (new_session "a")

written-IsCalm : IsCalm written (started, new_stream)
unfolding step resume log
written-IsCalm = (refl, (refl, tt))

times-run_example :
    let (s', st) = run written (started, new_stream) in
    (times 6 s' st).sent ≡ started.logs ++ lines written
unfolding log
times-run_example = times-run written started 5 written-IsCalm (omega arith) (omega arith)

abbrev full_stream : LogStream
full_stream = record { last_index = 500; pending = none; sent = "line" ∷ [] }

run-full_example :
    (run (clear ∷ write "10:00:00" "one" ∷ round ∷ []) (new_session "a", full_stream)).1
    ≡ full_stream
run-full_example =
    run-full (clear ∷ write "10:00:00" "one" ∷ round ∷ []) (new_session "a") full_stream
      (omega arith) refl refl

admin_rows-clear_logs_category_example :
    (admin_rows (clear_logs_category env "admin" (of_user "a") world).1.logs
      ≡ admin_rows world.logs)
    × IsRefused (logs_admin env 9 0 (of_user "a") world).0
    × (admin_rows (logs_admin env 9 0 (of_user "a") world).1.logs ≡ admin_rows world.logs)
admin_rows-clear_logs_category_example =
    admin_rows-clear_logs_category env (of_user "a") refl "admin" 9 0 world

apart : parse_user_id user_number (some "a") ≢ parse_user_id user_number (some "b")
unfolding parse_user_id
apart e = omega (arith, ap (λ o. or_else o 7) e)

user_logs-clear_logs_category_example :
    let w' = (clear_logs_category env "app" (of_user "a") world).1 in
    ((user_logs env "app" "app" 9 0 (of_user "a") w').0 ≡ page_of app_tab 9 0 [] 0)
    × ((user_logs env "app" "app" 9 0 (of_user "b") w').0
        ≡ (user_logs env "app" "app" 9 0 (of_user "b") world).0)
user_logs-clear_logs_category_example =
    user_logs-clear_logs_category env app_tab app_tab 9 0 (of_user "a") (of_user "b") world "a" "b"
      refl refl refl refl apart

abbrev form : Form
form = record {
  datastore_id = "ds";
  entry = record {
    datastore_name = "store";
    filespace_id = "fs";
    filespace_name = "files";
    bucket_name = "media";
    region = none;
    endpoint = none;
  };
  access_key = "key";
  secret_key = "secret";
}

abbrev connect_to : S3Keys → S3
connect_to k = record {
  head_bucket = λ b. reply tt;
  list_buckets = reply ("media" ∷ []);
  list_objects_v2 = λ b p t. client_error "500" "down";
  paginate = λ b p. client_error "500" "down";
  lower = λ s. [];
  fixed = λ d a b. "";
}

a-parsed : parse_uid env (of_user "a") ≡ ok (some 1)
unfolding parse_user
a-parsed = refl

save_credentials-stored_example :
    let w' = (save_credentials env connect_to form (of_user "a") world).1 in
    Returned "ds"
      (some 1)
      form.entry
      "key"
      "secret"
      (get_datastore_credentials tagging "ds" (some 1) w'.datastores)
    × (get_datastore_by_id "ds" (state_of "a" w') ≡ some form.entry)
    × (get_s3_service_for_datastore "ds" (state_of "a" w')
        ≡ some (form_keys connect_to env form (of_user "a") world))
    × (list_for_user (some 2) w'.datastores ≡ list_for_user (some 2) world.datastores)
unfolding count
save_credentials-stored_example =
    save_credentials-stored connect_to env form (of_user "a") world "a" 1 (some 2) refl refl
      a-parsed refl (omega arith) (ground arith)

abbrev queue : Uuid → Uuid → SqsQueue
queue id user = record {
  id = id;
  queue_url = "https://sqs.eu-west-1.amazonaws.com/123/media";
  queue_arn = some "arn:aws:sqs:eu-west-1:123:media";
  name = "media";
  region = "eu-west-1";
  datastore_id = "ds";
  filespace_id = "fs";
  import_prefix = "";
  status = active;
  user_id = some user;
  created_at = id;
  last_poll_at = none;
  error_message = none;
}

abbrev queued_world : World
queued_world = record world { queues = record { queues = queue 2 1 ∷ queue 3 2 ∷ []; events = [] } }

abbrev sqs_row : SqsCredentials
sqs_row = record {
  id = 1;
  access_key = "key";
  secret_key_encrypted = tagging.encrypt 0 "secret";
  region = "eu-west-1";
  user_id = some 1;
  created_at = 5;
}

abbrev store_row : DatastoreCredentials
store_row = record {
  id = 1;
  datastore_id = "ds";
  datastore_name = "store";
  filespace_id = "fs";
  filespace_name = "files";
  bucket_name = "media";
  region = none;
  endpoint = none;
  credentials_key = [];
  user_id = some 1;
  created_at = 5;
}

abbrev keyed_world : World
keyed_world = record queued_world {
  sqs_credentials = record { rows = sqs_row ∷ []; next_id = 2 };
  datastores = record { rows = store_row ∷ []; next_id = 2 };
}

abbrev aws_keys : Opened
aws_keys = record {
  id = 1;
  access_key = "key";
  secret_key = "secret";
  region = "eu-west-1";
  user_id = some 1;
}
