-- ===== src/Poller/Once.antt =====
-- A message that SQS delivers again: its events are not processed a second time.
use connect_manager.Prelude.{
  ℕ, ◌≡◌, refl, sym, ap, ◌∙◌, subst, String, true, false, arith, ltb, ◌≤◌, Bool-cases, inl, inr,
}
use connect_manager.Db.Table.{Fault, Result, ok, err, count}
use connect_manager.Db.Table.Keyed.{count_mono}
use connect_manager.Db.Table.Laws.{Ensures}
use connect_manager.Db.Rows.{SqsQueue, SqsEvent, failed}
use connect_manager.Credentials.Fernet.{Fernet}
use connect_manager.Queues.{QueueDb, is_same_message, exists_for_message}
use connect_manager.Queues.Events.{exists_for_message_lem}
use connect_manager.Notifications.{Codec, S3Event, is_create_event}
use connect_manager.Poller.{Remote, World, after_probe, process_s3_event}
use connect_manager.Poller.Sweep.{poll_event, after_failure, settled, record_failure}
use connect_manager.Poller.Events.{
  is_settled_row, IsSettled, IsSettled-update_event_status, Settles, Settles-process_s3_event,
  HasRow-record_event, HasRow,
}

-- A settled row is found by the probe.
exists-IsSettled :
    (message_id : String) (queue : SqsQueue) (key : String) (db : QueueDb)
    → IsSettled message_id queue.id key db
    → exists_for_message message_id queue.id key db ≡ ok true
exists-IsSettled message_id queue key db h =
    exists_for_message_lem message_id queue.id key db
    ∙ ap ok (
        ground (
          arith,
          h,
          count_mono (is_settled_row message_id queue.id key)
              (is_same_message message_id queue.id key) (λ r e. ground (arith, e)) db.events,
        ))

module _ {X : Type 0} (f : Fernet) (codec : Codec) (rm : Remote X) (queue : SqsQueue) (ev : S3Event)
    (message_id : String) where
  process_of_known :
      (w : World X)
      → exists_for_message message_id queue.id ev.key w.queue_db ≡ ok true
      → process_s3_event f rm queue ev message_id w ≡ (ok tt, w)
  unfolding process_s3_event after_probe
  process_of_known w known = rw known refl

  -- A run that returned leaves a row of the message and key.
  recorded-process_s3_event :
      (w w' : World X)
      → process_s3_event f rm queue ev message_id w ≡ (ok tt, w')
      → 1 ≤ count (is_same_message message_id queue.id ev.key) w'.queue_db.events
  recorded-process_s3_event w w' ran =
      elim (Bool-cases
        (ltb 0 (count (is_same_message message_id queue.id ev.key) w.queue_db.events))) [
          | inl e ↦
              let known = exists_for_message_lem message_id queue.id ev.key w.queue_db ∙ ap ok e in
              let same : w ≡ w' = ap (λ r. r.1) (sym (process_of_known w known) ∙ ran) in
              subst (λ v. 1 ≤ count (is_same_message message_id queue.id ev.key) v.queue_db.events)
                same (ground (arith, e))
          | inr e ↦
              let new = exists_for_message_lem message_id queue.id ev.key w.queue_db ∙ ap ok e in
              let settled =
                subst (Settles f rm queue ev message_id) ran
                  (Settles-process_s3_event f rm queue ev message_id w new) in
              ground (
                arith,
                settled,
                count_mono (is_settled_row message_id queue.id ev.key)
                    (is_same_message message_id queue.id ev.key) (λ r e. ground (arith, e))
                    w'.queue_db.events,
              )
        ]

  -- What one event of a message leaves where the call returned.
  abbrev SettlesEvent : Result ℕ × World X → Type 0
  SettlesEvent (ok _, w) = IsSettled message_id queue.id ev.key w.queue_db
  SettlesEvent (err e, w) = Unit

  SettlesEvent-after_failure :
      (e : Fault) (made : Result (QueueDb × SqsEvent)) (w : World X)
      → Ensures (λ m. HasRow message_id queue.id ev.key m.1.id m.0) made
      → SettlesEvent (after_failure f codec rm e made w)
  SettlesEvent-after_failure e (err fault) w h = tt
  SettlesEvent-after_failure e (ok (db, row)) w h =
      IsSettled-update_event_status message_id queue.id ev.key row.id _ failed db refl refl h

  SettlesEvent-settled :
      (r : Result (Unit {0}) × World X)
      → Settles f rm queue ev message_id r
      → SettlesEvent (settled f codec rm queue ev message_id r)
  unfolding record_failure
  SettlesEvent-settled (ok _, w) h = h
  SettlesEvent-settled (err e, w) h =
      SettlesEvent-after_failure e _ _ (HasRow-record_event f rm queue ev message_id _ _)

  -- Where an event of creation that was not recorded is polled and the call returns, whatever failed on
  -- the way, some row of its message and key is completed, skipped or failed.
  pub poll_event-IsSettled :
      (w w' : World X) (n : ℕ)
      → is_create_event ev.event_type ≡ true
      → exists_for_message message_id queue.id ev.key w.queue_db ≡ ok false
      → poll_event f codec rm queue message_id ev w ≡ (ok n, w')
      → IsSettled message_id queue.id ev.key w'.queue_db
  unfolding poll_event
  poll_event-IsSettled w w' n created new ran = subst SettlesEvent ran (
      rw (SettlesEvent, poll_event, created)
        (SettlesEvent-settled _ (Settles-process_s3_event f rm queue ev message_id w new)))

module _ {X : Type 0} (f : Fernet) (codec : Codec) (rm : Remote X) (queue : SqsQueue) (ev : S3Event)
    (message_id : String) where
  -- After a run of `process_s3_event` that returned, a run for the same message and key changes nothing,
  -- whatever else its event says and whatever has happened in between, as long as there are no fewer
  -- rows of the message and key than the first run left.
  pub process_s3_event_once :
      (w w' later : World X) (ev' : S3Event)
      → process_s3_event f rm queue ev message_id w ≡ (ok tt, w')
      → ev'.key ≡ ev.key
      → count (is_same_message message_id queue.id ev.key) w'.queue_db.events
        ≤ count (is_same_message message_id queue.id ev.key) later.queue_db.events
      → process_s3_event f rm queue ev' message_id later ≡ (ok tt, later)
  process_s3_event_once w w' later ev' ran same kept =
      process_of_known f codec rm queue ev' message_id later (
        rw same (
          exists_for_message_lem message_id queue.id ev.key later.queue_db
          ∙ ap ok (
              ground
                (arith, kept, recorded-process_s3_event f codec rm queue ev message_id w w' ran))))
