-- ===== src/Poller/Tests.antt =====
-- A sweep of one queue with one message.
use connect_manager.Prelude.{
  ℕ, ◌+◌, ◌≡◌, refl, true, [], ◌∷◌, none, some, arith, inl, str_eq, if◌then◌else◌,
}
use connect_manager.Db.Table.{ok, err, attribute_error, select, update, count}
use connect_manager.Db.Rows.{SqsQueue, active, failed, UserSetting, DatastoreCredentials}
use connect_manager.Db.Repository
use connect_manager.Credentials.Tagging.{tagging}
use connect_manager.Credentials.Settings.{get_user_setting, load_ll_token}
use connect_manager.Credentials.Datastores.{get_for_datastore_user}
use connect_manager.Queues.{create_event, insert_event, exists_for_message, update_event_status}
use connect_manager.Notifications.Values
use connect_manager.Notifications.Values.{Json, get, find, null, num, str, arr, obj, nil}
use connect_manager.Notifications.{
  Codec, S3Event, parse_s3_events, parse_data, parse_records, is_create_event,
}
use connect_manager.Worker.{answer}
use connect_manager.Poller.{Message, Remote, World, process_s3_event}
use connect_manager.Poller.Lock.{
  System, Sweep, Reach, here, next, take, wait, idle, poll_lock_exclusive, acquire_poll_lock,
}
use connect_manager.Poller.Sweep.{
  poll_event, poll_events, poll_message, poll_messages, poll_single_queue, record_failure,
}
use connect_manager.Poller.Once.{process_s3_event_once, poll_event-IsSettled}
use connect_manager.Poller.Events.{IsSettled}
use connect_manager.Poller.Stuck.{poll_single_queue-not_object}

abbrev queue : SqsQueue
queue = record {
  id = 1;
  queue_url = "url";
  queue_arn = none;
  name = "q";
  region = "r";
  datastore_id = "ds";
  filespace_id = "fs";
  import_prefix = "";
  status = active;
  user_id = none;
  created_at = 5;
  last_poll_at = none;
  error_message = none;
}

abbrev event : S3Event
event = record {
  event_type = str "ObjectCreated:Put";
  bucket = str "media";
  key = "a";
  size = num 7;
  event_time = null;
  aws_region = null;
}

abbrev bad : Message
bad = record { message_id = "m1"; receipt_handle = "h1"; body = "[]" }

abbrev codec : Codec
codec = record {
  loads = λ s.
      if str_eq s "[]"
      then some (arr Values.end)
      else if str_eq s "{}"
      then some (obj nil)
      else none;
  unquote_plus = λ s. s;
}

-- The state of what is outside is the next number.
abbrev remote : Remote ℕ
remote = record {
  receive_messages = λ a b c d x. (ok (bad ∷ []), x);
  delete_message = λ a b x. (ok tt, x);
  legacy_token = λ u. some "token";
  configure = λ a b c d x. x;
  ensure_structure = λ p x. (ok (true, ""), x);
  import_file = λ a b x. (answer 201 "", x);
  stamp = λ x. ((x, x), 1 + x);
  parse_event_time = λ t. none;
  describe = λ e. "error";
}

abbrev store : DatastoreCredentials
store = record {
  id = 1;
  datastore_id = "ds";
  datastore_name = "store";
  filespace_id = "fs";
  filespace_name = "files";
  bucket_name = "b";
  region = none;
  endpoint = none;
  credentials_key = [];
  user_id = none;
  created_at = 1;
}

abbrev world : World ℕ
world = record {
  queue_db = record { queues = queue ∷ []; events = [] };
  datastores = record { rows = store ∷ []; next_id = 2 };
  sqs_credentials = record { rows = []; next_id = 1 };
  settings = [];
  lock = none;
  remote = 10;
}

abbrev after : World ℕ
after = (process_s3_event tagging remote queue event "m" world).1

processed : process_s3_event tagging remote queue event "m" world ≡ (ok tt, after)
unfolding process_s3_event get_user_setting get_for_datastore_user create_event insert_event
    exists_for_message update_event_status Repository.exists select update count
processed = refl

-- The same key in a later world, where the row has another status and the event another size.
abbrev again : S3Event
again = record event { size = num 8 }

abbrev later_world : World ℕ
later_world = record after {
  queue_db =
      (update_event_status 10 (record { status = some failed; job_id = none; error_message = none })
        after.queue_db).0;
  remote = 77;
}

process_s3_event_once_example :
    process_s3_event tagging remote queue again "m" later_world ≡ (ok tt, later_world)
unfolding process_s3_event get_user_setting get_for_datastore_user create_event insert_event
    exists_for_message update_event_status Repository.exists select update count
process_s3_event_once_example =
    process_s3_event_once tagging codec remote queue event "m" world after later_world again
      processed refl (omega arith)

-- The same event, where LucidLink's API host cannot be read, as two settings have its key.
abbrev owned : SqsQueue
owned = record queue { user_id = some 7 }

abbrev host : UserSetting
host = record { user_id = 7; key = "api_host"; value = "h"; updated_at = 1 }

abbrev broken : World ℕ
broken = record world {
  queue_db = record { queues = owned ∷ []; events = [] };
  datastores = record { rows = record store { user_id = some 7 } ∷ []; next_id = 2 };
  settings = host ∷ host ∷ [];
}

abbrev after_broken : World ℕ
after_broken = (poll_event tagging codec remote owned "m" event broken).1

fails : poll_event tagging codec remote owned "m" event broken ≡ (ok 0, after_broken)
unfolding poll_event process_s3_event record_failure get_user_setting load_ll_token
    get_for_datastore_user create_event insert_event exists_for_message update_event_status
    is_create_event Repository.exists select update count
fails = refl

poll_event-IsSettled_example : IsSettled "m" 1 "a" after_broken.queue_db
poll_event-IsSettled_example =
    poll_event-IsSettled tagging codec remote owned event "m" broken after_broken 0
      (unfold is_create_event in refl) (unfold exists_for_message select in refl) fails

-- A message with no records comes first, and is deleted.
abbrev empty : Message
empty = record { message_id = "m0"; receipt_handle = "h0"; body = "{}" }

abbrev two_messages : Remote ℕ
two_messages = record remote {
  receive_messages = λ a b c d x. (ok (empty ∷ bad ∷ []), x);
  delete_message = λ a b x. (ok tt, 1 + x);
}

polled_empty :
    poll_messages tagging codec two_messages queue (empty ∷ []) world
    ≡ (ok 0, record world { remote = 11 })
unfolding poll_messages poll_message parse_s3_events parse_data parse_records get find poll_events
polled_empty = refl

poll_single_queue-not_object_example :
    poll_single_queue tagging codec two_messages queue "k" "s" "r" world
    ≡ (err attribute_error, record world { remote = 11 })
poll_single_queue-not_object_example =
    poll_single_queue-not_object tagging codec two_messages queue "k" "s" "r" (empty ∷ []) [] bad
      (arr Values.end) world (record world { remote = 11 }) 10 0 refl polled_empty refl refl

-- One worker has the lock for a second.
abbrev first : Sweep
first = record { worker = "a"; since = 0 }

abbrev second_later : System
second_later = record {
  now = 1000000;
  lock = some (record { owner = "a"; expires = 60000000 });
  sweeps = first ∷ [];
}

reached : Reach idle second_later
unfolding acquire_poll_lock
reached = next (next here (take idle "a" refl)) (wait _ 1000000)

poll_lock_exclusive_example : (first.worker ≡ first.worker) × (first.since ≡ first.since)
poll_lock_exclusive_example =
    poll_lock_exclusive first first reached (inl refl) (inl refl) (omega arith) (omega arith)
