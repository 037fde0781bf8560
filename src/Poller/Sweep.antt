-- ===== src/Poller/Sweep.antt =====
-- One sweep of app/services/sqs_poller.py: a queue's messages, and every active queue in turn. The
-- client that a sweep keeps for a user and a region is the same service each time, and is left out.
use Prim.Native.String
use connect_manager.Prelude.{
  ℕ, ◌+◌, String, true, false, ◌||◌, List, [], ◌∷◌, ◌++◌, Option, none, some, str_eq, length,
}
use connect_manager.Text.Format.{clipped, text_or_default}
use connect_manager.Db.Table.{Fault, Result, ok, err, sqs_error}
use connect_manager.Db.Rows.{Uuid, Time, SqsQueue, SqsEvent, failed}
use connect_manager.Credentials.Fernet.{Fernet}
use connect_manager.Credentials.Sqs
use connect_manager.Credentials.Sqs.{get_sqs_credentials}
use connect_manager.Queues.{QueueDb, list_active, mark_polled, set_error, update_event_status}
use connect_manager.Notifications.{Codec, S3Event, parse_s3_events, is_create_event}
use connect_manager.Poller.{
  Message, Remote, World, and_then, error_patch, record_event, process_s3_event,
}
use connect_manager.Poller.Lock.{acquire_poll_lock, release_poll_lock}

abbrev pub with_error : {X : Type 0} → Uuid → String → World X → World X
with_error queue_id message w = record w {
  queue_db = (set_error queue_id (some message) w.queue_db).0;
}

-- What `poll_sqs_queues` returns.
pub data Summary : Type 0 where
  lock_refused : Summary
  polled : (queues events : ℕ) → List String → Summary

module _ {X : Type 0} (f : Fernet) (codec : Codec) (rm : Remote X) where
  abbrev pub after_failure : Fault → Result (QueueDb × SqsEvent) → World X → Result ℕ × World X
  after_failure e (err fault) w = (err fault, w)
  after_failure e (ok (db, row)) w = (
    ok 0,
    record w {
      queue_db =
          (update_event_status row.id (error_patch failed (clipped 200 (rm.describe e))) db).0;
    },
  )

  -- The handler's `except`: a row for the event, marked failed, in one transaction.
  unfoldable pub record_failure : SqsQueue → S3Event → String → Fault → World X → Result ℕ × World X
  record_failure queue ev message_id e w =
      let (fresh, x) = rm.stamp w.remote in
      after_failure e (record_event f rm queue ev message_id fresh w.queue_db)
        (record w { remote = x })

  abbrev pub settled :
      SqsQueue → S3Event → String → Result (Unit {0}) × World X → Result ℕ × World X
  settled queue ev message_id (ok _, w) = (ok 1, w)
  settled queue ev message_id (err e, w) = record_failure queue ev message_id e w

  -- How many of the event were processed: one, or none.
  unfoldable pub poll_event : SqsQueue → String → S3Event → World X → Result ℕ × World X
  unfolding record_failure
  poll_event queue message_id ev w = elim (is_create_event ev.event_type) [
    | true ↦ settled queue ev message_id (process_s3_event f rm queue ev message_id w)
    | false ↦ (ok 0, w)
  ]

  unfoldable pub poll_events : SqsQueue → String → List S3Event → World X → Result ℕ × World X
  unfolding poll_event
  poll_events queue message_id [] w = (ok 0, w)
  poll_events queue message_id (ev ∷ evs) w =
      and_then (poll_event queue message_id ev w)
        λ n w'. and_then (poll_events queue message_id evs w') λ m w''. (ok (n + m), w'')

  -- Only an SQSError of the deletion is passed over.
  abbrev pub deleted : ℕ → Result (Unit {0}) × X → World X → Result ℕ × World X
  deleted n (ok _, x) w = (ok n, record w { remote = x })
  deleted n (err (sqs_error m), x) w = (ok n, record w { remote = x })
  deleted n (err e, x) w = (err e, record w { remote = x })

  abbrev pub poll_parsed : SqsQueue → Message → Result (List S3Event) → World X → Result ℕ × World X
  poll_parsed queue message (err e) w = (err e, w)
  poll_parsed queue message (ok evs) w =
      and_then (poll_events queue message.message_id evs w)
        λ n w'. deleted n (rm.delete_message queue.queue_url message.receipt_handle w'.remote) w'

  unfoldable pub poll_message : SqsQueue → Message → World X → Result ℕ × World X
  unfolding poll_events
  poll_message queue message w = poll_parsed queue message (parse_s3_events codec message.body) w

  unfoldable pub poll_messages : SqsQueue → List Message → World X → Result ℕ × World X
  unfolding poll_message
  poll_messages queue [] w = (ok 0, w)
  poll_messages queue (message ∷ messages) w =
      and_then (poll_message queue message w)
        λ n w'. and_then (poll_messages queue messages w') λ m w''. (ok (n + m), w'')

  abbrev received : SqsQueue → Result (List Message) × X → World X → Result ℕ × World X
  received queue (err e, x) w = (err e, record w { remote = x })
  received queue (ok messages, x) w = poll_messages queue messages (record w { remote = x })

  unfoldable pub poll_single_queue :
      SqsQueue → String → String → String → World X → Result ℕ × World X
  unfolding poll_messages
  poll_single_queue queue access_key secret_key region w =
      received queue (rm.receive_messages access_key secret_key region queue.queue_url w.remote) w

  abbrev with_credentials :
      Time → SqsQueue → Result (Option Sqs.Opened) → World X → Result ℕ × World X
  with_credentials now queue (err e) w = (err e, w)
  with_credentials now queue (ok none) w =
      (ok 0, with_error queue.id "No SQS credentials configured for user" w)
  with_credentials now queue (ok (some c)) w =
      elim (str_eq c.access_key "" || str_eq c.secret_key "") [
        | true ↦ (ok 0, with_error queue.id "Invalid SQS credentials" w)
        | false ↦
            and_then
              (poll_single_queue queue c.access_key c.secret_key
                (text_or_default queue.region (text_or_default c.region "us-east-1")) w)
              λ n w'. (ok n, record w' { queue_db = (mark_polled now queue.id none w'.queue_db).0 })
      ]

  -- The body of the `try` for one queue.
  unfoldable pub poll_queue : Time → SqsQueue → World X → Result ℕ × World X
  unfolding poll_single_queue
  poll_queue now queue w =
      with_credentials now queue (get_sqs_credentials f queue.user_id w.sqs_credentials) w

  -- The error that a queue's poll raised is listed under the queue's name and kept in its row.
  abbrev pub contained : SqsQueue → Result ℕ × World X → (ℕ × List String) × World X
  contained queue (ok n, w) = ((n, []), w)
  contained queue (err e, w) =
      let message = clipped 200 (rm.describe e) in
      ((0, String.◌++◌ queue.name (String.◌++◌ ": " message) ∷ []), with_error queue.id message w)

  unfoldable pub poll_queues : Time → List SqsQueue → World X → (ℕ × List String) × World X
  unfolding poll_queue
  poll_queues now [] w = ((0, []), w)
  poll_queues now (queue ∷ queues) w =
      let ((n, es), w') = contained queue (poll_queue now queue w) in
      let ((m, fs), w'') = poll_queues now queues w' in ((n + m, es ++ fs), w'')

  abbrev swept : Time → World X → Summary × World X
  swept now w =
      let queues = list_active w.queue_db in
      let ((events, errors), w') = poll_queues now queues w in
      (polled (length queues) events errors, w')

  abbrev unlocked : Time → String → Summary × World X → Summary × World X
  unlocked now worker_id (s, w) =
      (s, record w { lock = (release_poll_lock now worker_id w.lock).0 })

  -- `now` is the time of the start and `later` that of the end.
  unfoldable pub poll_sqs_queues : Time → Time → String → World X → Summary × World X
  unfolding poll_queues
  poll_sqs_queues now later worker_id w =
      let (lock, taken) = acquire_poll_lock now worker_id w.lock in
      elim taken [
        | true ↦ unlocked later worker_id (swept now (record w { lock = lock }))
        | false ↦ (lock_refused, w)
      ]
