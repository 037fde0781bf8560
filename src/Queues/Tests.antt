-- ===== src/Queues/Tests.antt =====
-- Two users' queues, and an event of each.
use connect_manager.Prelude.{◌≡◌, refl, List, [], ◌∷◌, none, some, arith}
use connect_manager.Db.Table.{ok, count}
use connect_manager.Db.Rows.{Uuid, SqsQueue, SqsEvent, active, paused, pending}
use connect_manager.Db.Repository
use connect_manager.Queues.{
  QueueDb, update_status_for_user, delete_queue_for_user, clear_for_user, create_event,
  insert_event, save_sqs_queue,
}
use connect_manager.Queues.Owners.{queues_of, events_of, scoped_to_owner}
use connect_manager.Queues.References.{IsSound, QueueOp, save, add_event, apply, apply_all}

abbrev queue : Uuid → Uuid → SqsQueue
queue id user = record {
  id = id;
  queue_url = "url";
  queue_arn = none;
  name = "q";
  region = "r";
  datastore_id = "ds";
  filespace_id = "fs";
  import_prefix = "";
  status = active;
  user_id = some user;
  created_at = 5;
  last_poll_at = none;
  error_message = none;
}

abbrev event : Uuid → Uuid → SqsEvent
event id queue_id = record {
  id = id;
  queue_id = queue_id;
  message_id = "m";
  event_type = "ObjectCreated:Put";
  bucket = "b";
  object_key = "k";
  object_size = none;
  event_time = none;
  status = pending;
  job_id = none;
  error_message = none;
  created_at = 6;
}

abbrev empty : QueueDb
empty = record { queues = []; events = [] }

abbrev script : List QueueOp
script = save (queue 1 7) ∷ save (queue 2 8) ∷ add_event (event 11 1) ∷ add_event (event 12 2) ∷ []

abbrev db : QueueDb
db = record { queues = queue 1 7 ∷ queue 2 8 ∷ []; events = event 11 1 ∷ event 12 2 ∷ [] }

script_runs : apply_all script empty ≡ db
unfolding apply_all apply create_event insert_event Repository.exists save_sqs_queue count
script_runs = refl

db-IsSound : IsSound db
db-IsSound = record {
  distinct = (((λ e. omega (arith, e)), tt), (tt, tt));
  referenced = unfold count in (refl, (refl, tt));
}

scoped_to_owner_example :
    (queues_of (some 8) (update_status_for_user 1 (some 7) paused none db).0
      ≡ queues_of (some 8) db)
    × (events_of (some 8) (update_status_for_user 1 (some 7) paused none db).0
        ≡ events_of (some 8) db)
    × (queues_of (some 8) (delete_queue_for_user 1 (some 7) db).0 ≡ queues_of (some 8) db)
    × (events_of (some 8) (delete_queue_for_user 1 (some 7) db).0 ≡ events_of (some 8) db)
    × (events_of (some 8) (clear_for_user (some 7) db).0 ≡ events_of (some 8) db)
scoped_to_owner_example =
    scoped_to_owner (some 7) (some 8) (ground arith) db 1 paused none db-IsSound

abbrev with_event : QueueDb
with_event = record db { events = event 11 1 ∷ event 12 2 ∷ event 13 1 ∷ [] }

recorded :
    create_event 13 6 1 "m" "ObjectCreated:Put" "b" "k" none none pending db
    ≡ ok (with_event, event 13 1)
unfolding create_event insert_event Repository.exists count
recorded = refl
