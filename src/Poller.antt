-- ===== src/Poller.antt =====
-- app/services/sqs_poller.py, over the models of the queues, the credentials, the settings and the
-- message parser. Each `async with sm()` block is one change of the world.
pub mod Lock
pub mod Sweep
pub mod Events
pub mod Once
pub mod Stuck
mod Tests
use Prim.Native.String
use connect_manager.Prelude.{
  ℕ, suc, ◌+◌, ltb, String, Bool, true, false, ◌&&◌, ◌||◌, not, List, [], ◌∷◌, ◌++◌, Option, none,
  some, length, str_eq, or_else, ◌==◌, if◌then◌else◌,
}
use connect_manager.Text.{codes, lower, contains, joined}
use connect_manager.Text.Format.{shown, clipped, strip}
use connect_manager.Db.Table.{Fault, Result, ok, err, type_error, data_error, ◌>>=◌}
use connect_manager.Db.Rows.{
  Uuid, Time, SqsQueue, SqsEvent, EventStatus, pending, processing, completed, skipped, failed,
  UserSetting, DatastoreCredentials,
}
use connect_manager.Processed.{truthy, text_or}
use connect_manager.Credentials.Fernet.{Fernet}
use connect_manager.Credentials.Settings.{get_user_setting, load_ll_token}
use connect_manager.Credentials.Datastores.{DatastoreTable, get_for_datastore_user}
use connect_manager.Credentials.Sqs
use connect_manager.Credentials.Sqs.{SqsCredentialsTable, get_sqs_credentials}
use connect_manager.Queues.{
  QueueDb, list_active, mark_polled, set_error, create_event, exists_for_message,
  update_event_status, Patch,
}
use connect_manager.Notifications.Values.{Json, null, bool, num, other_num, str, arr, obj, text_of}
use connect_manager.Notifications.{Codec, S3Event, parse_s3_events, is_create_event}
use connect_manager.Worker.{Answer, answer, exception}
use Lock.{Held, acquire_poll_lock, release_poll_lock}

pub record Message : Type 0 where
  pub message_id : String
  pub receipt_handle : String
  pub body : String

-- What the poller calls outside: SQS, the LucidLink client with its state `X`, the older token
-- store, `uuid4()` with the clock, `datetime.fromisoformat`, and `str(e)`.
pub record Remote (X : Type 0) : Type 0 where
  pub receive_messages :
      (access_key secret_key region queue_url : String) → X → Result (List Message) × X
  pub delete_message : (queue_url receipt_handle : String) → X → Result (Unit {0}) × X
  pub legacy_token : Option Uuid → Option String
  pub configure : (token filespace_id datastore_id api_host : String) → X → X
  pub ensure_structure : String → X → Result (Bool × String) × X
  pub import_file : String → String → X → Answer × X
  pub stamp : X → (Uuid × Time) × X
  pub parse_event_time : Json → Option Time
  pub describe : Fault → String

pub record World (X : Type 0) : Type 0 where
  pub queue_db : QueueDb
  pub datastores : DatastoreTable
  pub sqs_credentials : SqsCredentialsTable
  pub settings : List UserSetting
  pub lock : Option Held
  pub remote : X

-- The rest of a body after a call that may raise, in the world that the call left.
abbrev pub and_then {ℓ κ} :
    {X : Type 0} {A : Type ℓ} {B : Type κ}
    → Result A × World X
    → (A → World X → Result B × World X)
    → Result B × World X
and_then (ok a, w) k = k a w
and_then (err e, w) k = (err e, w)

-- The column is a BIGINT, so a larger number is refused: a text or a container is refused, and a negative or broken number is not
-- told from them.
abbrev pub size_of : Json → Result (Option ℕ)
size_of null = ok none
size_of (num n) = if ltb n 9_223_372_036_854_775_808 then ok (some n) else err data_error
size_of (bool b) = ok (some (if b then 1 else 0))
size_of (other_num s) = err type_error
size_of (str s) = err type_error
size_of (arr xs) = err type_error
size_of (obj fs) = err type_error

abbrev pub status_patch : EventStatus → Patch
status_patch s = record { status = some s; job_id = none; error_message = none }

abbrev pub error_patch : EventStatus → String → Patch
error_patch s message = record { status = some s; job_id = none; error_message = some message }

-- What the answer of the import makes of the event.
unfoldable pub outcome : Answer → Patch
unfolding contains lower shown clipped
outcome (exception message) = error_patch failed (clipped 200 message)
outcome (answer code message) =
    if code == 200 || code == 201
    then status_patch completed
    else if (code == 400 || code == 409)
        && contains (codes "already exists") (lower (codes message))
    then error_patch skipped "Already exists"
    else error_patch failed
        (String.◌++◌ "HTTP " (String.◌++◌ (shown code) (String.◌++◌ ": " (clipped 150 message))))

-- The bucket of an event that was recorded is a text.
abbrev pub text_or_empty : Json → String
text_or_empty v = elim (text_of v) [ ok s ↦ s | err e ↦ "" ]

unfoldable pub event_path : SqsQueue → String → String → String
unfolding strip
event_path queue bucket key =
    if str_eq queue.import_prefix ""
    then joined "" (joined bucket key)
    else joined "" (joined bucket (joined (strip (λ c. c == b'/') queue.import_prefix) key))

module _ {X : Type 0} (f : Fernet) (rm : Remote X) where
  -- One committed change of an event's row.
  abbrev pub patch : Uuid → Patch → World X → World X
  patch event_id p w = record w { queue_db = (update_event_status event_id p w.queue_db).0 }

  abbrev pub finished : Uuid → Patch → World X → Result (Unit {0}) × World X
  finished event_id p w = (ok tt, patch event_id p w)

  -- The import itself; the folder comes first. The handler of every exception in it marks the row.
  unfoldable pub import_event :
      Uuid → String → String → Result (Bool × String) × X → World X → Result (Unit {0}) × World X
  unfolding outcome clipped
  import_event event_id key path (err e, x) w =
      finished event_id (error_patch failed (clipped 200 (rm.describe e))) (record w { remote = x })
  import_event event_id key path (ok (false, message), x) w =
      finished event_id
        (error_patch failed (String.◌++◌ "Failed to create folder: " (clipped 150 message)))
        (record w { remote = x })
  import_event event_id key path (ok (true, message), x) w =
      let (a, x') = rm.import_file key path x in
      finished event_id (outcome a) (record w { remote = x' })

  unfoldable pub deliver_event :
      SqsQueue → S3Event → Uuid → String → String → World X → Result (Unit {0}) × World X
  unfolding import_event event_path
  deliver_event queue ev event_id token api_host w =
      let path = event_path queue (text_or_empty ev.bucket) ev.key in
      let x = rm.configure token queue.filespace_id queue.datastore_id api_host w.remote in
      import_event event_id ev.key path (rm.ensure_structure path x) w

  unfoldable pub with_host :
      SqsQueue
      → S3Event
      → Uuid
      → String
      → Result (Option String)
      → World X
      → Result (Unit {0}) × World X
  unfolding deliver_event
  with_host queue ev event_id token (err e) w = (err e, w)
  with_host queue ev event_id token (ok api_host) w =
      deliver_event queue ev event_id token (or_else api_host "")
        (patch event_id (status_patch processing) w)

  unfoldable pub find_event_token : Option Uuid → List UserSetting → Result (Option String)
  find_event_token none settings = ok (text_or none (rm.legacy_token none))
  find_event_token (some u) settings = do
    saved ← load_ll_token f u settings
    ok (text_or saved (rm.legacy_token (some u)))

  unfoldable pub with_token :
      SqsQueue → S3Event → Uuid → Result (Option String) → World X → Result (Unit {0}) × World X
  unfolding with_host
  with_token queue ev event_id (err e) w = (err e, w)
  with_token queue ev event_id (ok token) w =
      if truthy token
      then with_host queue ev event_id (or_else token "")
          (get_user_setting queue.user_id "api_host" w.settings) w
      else finished event_id
          (error_patch failed "LucidLink API token not configured - please reconnect in Settings") w

  unfoldable pub with_datastore :
      SqsQueue
      → S3Event
      → Uuid
      → Result (Option DatastoreCredentials)
      → World X
      → Result (Unit {0}) × World X
  unfolding with_token find_event_token
  with_datastore queue ev event_id (err e) w = (err e, w)
  with_datastore queue ev event_id (ok none) w =
      finished event_id (error_patch failed "DataStore credentials not found") w
  with_datastore queue ev event_id (ok (some _)) w =
      with_token queue ev event_id (find_event_token queue.user_id w.settings) w

  -- The INSERT of the event: its texts must be texts.
  unfoldable pub record_event :
      SqsQueue → S3Event → String → Uuid × Time → QueueDb → Result (QueueDb × SqsEvent)
  record_event queue ev message_id (id, now) db = do
    event_type ← text_of ev.event_type
    bucket ← text_of ev.bucket
    size ← size_of ev.size
    create_event id now queue.id message_id event_type bucket ev.key size
        (rm.parse_event_time ev.event_time) pending db

  unfoldable pub after_record :
      SqsQueue → S3Event → Result (QueueDb × SqsEvent) → World X → Result (Unit {0}) × World X
  unfolding with_datastore
  after_record queue ev (err e) w = (err e, w)
  after_record queue ev (ok (db, row)) w =
      with_datastore queue ev row.id
        (get_for_datastore_user queue.datastore_id queue.user_id w.datastores)
        (record w { queue_db = db })

  unfoldable pub after_probe :
      SqsQueue → S3Event → String → Result Bool → World X → Result (Unit {0}) × World X
  unfolding after_record record_event
  after_probe queue ev message_id (err e) w = (err e, w)
  after_probe queue ev message_id (ok true) w = (ok tt, w)
  after_probe queue ev message_id (ok false) w =
      let (fresh, x) = rm.stamp w.remote in
      after_record queue ev (record_event queue ev message_id fresh w.queue_db)
        (record w { remote = x })

  unfoldable pub process_s3_event :
      SqsQueue → S3Event → String → World X → Result (Unit {0}) × World X
  unfolding after_probe
  process_s3_event queue ev message_id w =
      after_probe queue ev message_id (exists_for_message message_id queue.id ev.key w.queue_db) w
