-- ===== src/Queues.antt =====
-- app/db/repositories/datastore.py: SqsQueueRepository and SqsEventRepository, with the queue
-- functions of app/services/state.py. The events of a queue go with it (ON DELETE CASCADE).
pub mod References
pub mod Owners
pub mod Events
mod Tests
use connect_manager.Prelude.{
  ℕ, ◌-◌, ◌*◌, ◌/◌, String, Bool, true, false, ◌&&◌, ◌||◌, not, List, [], ◌∷◌, Option, none, some,
  length, take, str_eq, ltb, ◌==◌, if◌then◌else◌, is_some,
}
use connect_manager.Db.Table.{
  Result, ok, err, integrity_error, ◌>>=◌, select, update, delete, count, insert, one_or_none,
  owned_by,
}
use connect_manager.Db.Order.{order_by, order_by_desc}
use connect_manager.Db.Rows.{
  Uuid, Time, microseconds_per_day, SqsQueue, QueueStatus, active, paused, SqsEvent, EventStatus,
  pending,
}
use connect_manager.Db.Repository

pub record QueueDb : Type 0 where
  pub queues : List SqsQueue
  pub events : List SqsEvent

abbrev pub queue_id_of : SqsQueue → Uuid
queue_id_of q = q.id

abbrev pub event_id_of : SqsEvent → Uuid
event_id_of e = e.id

abbrev pub is_queue_of : Uuid → Option Uuid → SqsQueue → Bool
is_queue_of queue_id user_id q = q.id == queue_id && owned_by user_id q.user_id

unfoldable pub list_queues_for_user : Option Uuid → QueueDb → List SqsQueue
list_queues_for_user user_id db =
    order_by_desc (λ q. q.created_at) (select (λ q. owned_by user_id q.user_id) db.queues)

unfoldable pub get_queue_for_user : Uuid → Option Uuid → QueueDb → Result (Option SqsQueue)
get_queue_for_user queue_id user_id db =
    one_or_none (select (is_queue_of queue_id user_id) db.queues)

abbrev pub is_active : QueueStatus → Bool
is_active active = true
is_active paused = false

unfoldable pub list_active : QueueDb → List SqsQueue
list_active db = order_by (λ q. q.created_at) (select (λ q. is_active q.status) db.queues)

abbrev pub error_or : Option String → Option String → Option String
error_or none old = old
error_or (some message) old = some message

unfoldable pub update_status_for_user :
    Uuid → Option Uuid → QueueStatus → Option String → QueueDb → QueueDb × Bool
update_status_for_user queue_id user_id status error_message db = (
  record db {
    queues =
        update (is_queue_of queue_id user_id)
          (λ q. record q {
            status = status;
            error_message = error_or error_message q.error_message;
          })
          db.queues;
  },
  ltb 0 (count (is_queue_of queue_id user_id) db.queues),
)

-- The queues that the test deletes, and their events with them.
unfoldable pub delete_queues : (SqsQueue → Bool) → QueueDb → QueueDb
delete_queues p db = record {
  queues = delete p db.queues;
  events = delete (λ e. ltb 0 (count (λ q. q.id == e.queue_id && p q) db.queues)) db.events;
}

unfoldable pub delete_queue_for_user : Uuid → Option Uuid → QueueDb → QueueDb × Bool
unfolding delete_queues
delete_queue_for_user queue_id user_id db = (
  delete_queues (is_queue_of queue_id user_id) db,
  ltb 0 (count (is_queue_of queue_id user_id) db.queues),
)

unfoldable pub mark_polled : Time → Uuid → Option String → QueueDb → QueueDb × Bool
mark_polled now queue_id error_message db = (
  record db {
    queues =
        update (λ q. q.id == queue_id)
          (λ q. record q { last_poll_at = some now; error_message = error_message }) db.queues;
  },
  ltb 0 (count (λ q. q.id == queue_id) db.queues),
)

unfoldable pub set_error : Uuid → Option String → QueueDb → QueueDb × Bool
set_error queue_id error_message db = (
  record db {
    queues =
        update (λ q. q.id == queue_id) (λ q. record q { error_message = error_message }) db.queues;
  },
  ltb 0 (count (λ q. q.id == queue_id) db.queues),
)

-- `save_sqs_queue`, whose row the caller has filled in but for its status and the fields of a poll.
unfoldable pub save_sqs_queue :
    Uuid
    → Time
    → String
    → Option String
    → String
    → String
    → String
    → String
    → String
    → Option Uuid
    → QueueDb
    → Result (QueueDb × SqsQueue)
save_sqs_queue id now url arn name region datastore_id filespace_id import_prefix user_id db =
    let row : SqsQueue = record {
      id = id;
      queue_url = url;
      queue_arn = arn;
      name = name;
      region = region;
      datastore_id = datastore_id;
      filespace_id = filespace_id;
      import_prefix = import_prefix;
      status = active;
      user_id = user_id;
      created_at = now;
      last_poll_at = none;
      error_message = none;
    } in
    if Repository.exists queue_id_of id db.queues
    then err integrity_error
    else ok (record db { queues = insert row db.queues }, row)

unfoldable pub get_sqs_queue : Uuid → QueueDb → Option SqsQueue
get_sqs_queue queue_id db = Repository.get queue_id_of queue_id db.queues

unfoldable pub delete_sqs_queue : Uuid → QueueDb → QueueDb × Bool
unfolding delete_queues
delete_sqs_queue queue_id db =
    (delete_queues (λ q. q.id == queue_id) db, ltb 0 (count (λ q. q.id == queue_id) db.queues))

-- An INSERT of an event: the id is new and the queue exists.
unfoldable pub insert_event : SqsEvent → QueueDb → Result (QueueDb × SqsEvent)
insert_event row db =
    if Repository.exists event_id_of row.id db.events
      || not (Repository.exists queue_id_of row.queue_id db.queues)
    then err integrity_error
    else ok (record db { events = insert row db.events }, row)

unfoldable pub create_event :
    Uuid
    → Time
    → Uuid
    → String
    → String
    → String
    → String
    → Option ℕ
    → Option Time
    → EventStatus
    → QueueDb
    → Result (QueueDb × SqsEvent)
create_event id now queue_id message_id event_type bucket object_key object_size event_time status
      db =
    insert_event
      (record {
        id = id;
        queue_id = queue_id;
        message_id = message_id;
        event_type = event_type;
        bucket = bucket;
        object_key = object_key;
        object_size = object_size;
        event_time = event_time;
        status = status;
        job_id = none;
        error_message = none;
        created_at = now;
      })
      db

abbrev pub is_same_message : String → Uuid → String → SqsEvent → Bool
is_same_message message_id queue_id object_key e =
    str_eq e.message_id message_id && e.queue_id == queue_id && str_eq e.object_key object_key

abbrev pub ids_of : List SqsEvent → List Uuid
ids_of [] = []
ids_of (e ∷ es) = e.id ∷ ids_of es

unfoldable pub exists_for_message : String → Uuid → String → QueueDb → Result Bool
exists_for_message message_id queue_id object_key db = do
  found ←
      one_or_none
        (take 1 (ids_of (select (is_same_message message_id queue_id object_key) db.events)))
  ok (is_some found)

-- The fields that `update_status` sets: those that are not None.
pub record Patch : Type 0 where
  pub status : Option EventStatus
  pub job_id : Option String
  pub error_message : Option String

abbrev pub status_or : Option EventStatus → EventStatus → EventStatus
status_or none old = old
status_or (some s) old = s

abbrev pub patched : Patch → SqsEvent → SqsEvent
patched p e = record e {
  status = status_or p.status e.status;
  job_id = error_or p.job_id e.job_id;
  error_message = error_or p.error_message e.error_message;
}

unfoldable pub update_event_status : Uuid → Patch → QueueDb → QueueDb × Bool
update_event_status event_id p db =
    if is_some p.status || is_some p.job_id || is_some p.error_message
    then (
      record db { events = update (λ e. e.id == event_id) (patched p) db.events },
      ltb 0 (count (λ e. e.id == event_id) db.events),
    )
    else (db, false)

-- JOIN sqs_queues ON id = queue_id, or `queue_id IN (SELECT id ...)`: the event's queue is the
-- user's. At most one queue has the id.
abbrev pub is_event_of : Option Uuid → List SqsQueue → SqsEvent → Bool
is_event_of user_id queues e = ltb 0 (count (is_queue_of e.queue_id user_id) queues)

unfoldable pub list_events_for_user : Option Uuid → ℕ → QueueDb → List SqsEvent
list_events_for_user user_id limit db =
    take limit
      (order_by_desc (λ e. e.created_at) (select (is_event_of user_id db.queues) db.events))

-- `date_trunc('day', ...)` of two times agrees.
abbrev pub is_same_day : Time → Time → Bool
is_same_day s t = s / microseconds_per_day == t / microseconds_per_day

unfoldable pub count_today_for_queue : Time → Uuid → Option Uuid → QueueDb → ℕ
count_today_for_queue now queue_id user_id db =
    count
      (λ e.
        is_event_of user_id db.queues e && e.queue_id == queue_id && is_same_day e.created_at now)
      db.events

unfoldable pub clear_old : Time → ℕ → QueueDb → QueueDb × ℕ
clear_old now days db =
    let cutoff = now - days * microseconds_per_day in
    (
      record db { events = delete (λ e. ltb e.created_at cutoff) db.events },
      count (λ e. ltb e.created_at cutoff) db.events,
    )

unfoldable pub clear_for_user : Option Uuid → QueueDb → QueueDb × ℕ
clear_for_user user_id db = (
  record db { events = delete (is_event_of user_id db.queues) db.events },
  count (is_event_of user_id db.queues) db.events,
)
