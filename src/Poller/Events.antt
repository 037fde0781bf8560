-- ===== src/Poller/Events.antt =====
-- What processing leaves of an event: a row of its message that is no longer waiting.
use connect_manager.Prelude.{
  ◌≡◌, refl, String, Bool, true, false, ◌&&◌, ◌||◌, List, [], ◌∷◌, Option, none, some, arith, ltb,
  ==_iff, ◌==◌, eq_refl, Bool-cases, inl, inr, is_some, ◌≤◌,
}
use connect_manager.Text.{codes, lower, contains}
use connect_manager.Db.Table.{Result, ok, err, update, count}
use connect_manager.Db.Table.Laws.{count-append, Ensures, Ensures-bind, Ensures-self}
use connect_manager.Db.Table.Keyed.{count-singleton, count-update_same}
use connect_manager.Db.Rows.{
  Uuid, Time, SqsQueue, SqsEvent, EventStatus, pending, processing, completed, skipped, failed,
  DatastoreCredentials,
}
use connect_manager.Processed.{truthy}
use connect_manager.Credentials.Fernet.{Fernet}
use connect_manager.Queues.{
  QueueDb, Patch, patched, is_same_message, update_event_status, create_event, insert_event,
  exists_for_message,
}
use connect_manager.Notifications.Values.{text_of}
use connect_manager.Notifications.{S3Event}
use connect_manager.Worker.{Answer, answer, exception}
use connect_manager.Queues.Events.{insert_event_inv}
use connect_manager.Poller.{
  Remote, World, size_of, outcome, status_patch, finished, import_event, deliver_event, with_host,
  with_token, with_datastore, find_event_token, record_event, after_record, after_probe,
  process_s3_event,
}

abbrev pub is_settled : EventStatus → Bool
is_settled pending = false
is_settled processing = false
is_settled completed = true
is_settled skipped = true
is_settled failed = true

module _ (message_id : String) (queue_id : Uuid) (key : String) where
  abbrev is_row : Uuid → SqsEvent → Bool
  is_row id e = is_same_message message_id queue_id key e && e.id == id

  abbrev pub is_settled_row : SqsEvent → Bool
  is_settled_row e = is_same_message message_id queue_id key e && is_settled e.status

  abbrev pub HasRow : Uuid → QueueDb → Type 0
  HasRow id db = ltb 0 (count (is_row id) db.events) ≡ true

  -- Some row of the message has reached its last status.
  abbrev pub IsSettled : QueueDb → Type 0
  IsSettled db = ltb 0 (count is_settled_row db.events) ≡ true

  HasRow-update_event_status :
      (id : Uuid) (p : Patch) (db : QueueDb)
      → HasRow id db
      → HasRow id (update_event_status id p db).0
  unfolding update_event_status
  HasRow-update_event_status id p db h =
      elim (Bool-cases (is_some p.status || is_some p.job_id || is_some p.error_message)) [
        | inl e ↦
            rw
              (e, count-update_same (is_row id) (λ e. e.id == id) (patched p) (λ r. refl) db.events)
              h
        | inr e ↦ rw e h
      ]

  count-settle :
      (id : Uuid) (p : Patch) (s : EventStatus)
      → p.status ≡ some s
      → is_settled s ≡ true
      → (es : List SqsEvent)
      → count (is_row id) es ≤ count is_settled_row (update (λ e. e.id == id) (patched p) es)
  unfolding count update
  count-settle id p s h k [] = omega arith
  count-settle id p s h k (e ∷ es) = ground (arith, h, k, count-settle id p s h k es)

  pub IsSettled-update_event_status :
      (id : Uuid) (p : Patch) (s : EventStatus) (db : QueueDb)
      → p.status ≡ some s
      → is_settled s ≡ true
      → HasRow id db
      → IsSettled (update_event_status id p db).0
  unfolding update_event_status
  IsSettled-update_event_status id p s db h k row =
      rw h (ground (arith, row, count-settle id p s h k db.events))

  HasRow-insert_event :
      (row : SqsEvent) (db db' : QueueDb) (r : SqsEvent)
      → insert_event row db ≡ ok (db', r)
      → is_same_message message_id queue_id key row ≡ true
      → HasRow r.id db'
  HasRow-insert_event row db db' r h k =
      let (state, same) = insert_event_inv row db db' r h in
      rw (state, same)
        (ground (
          arith,
          k,
          count-append (is_row row.id) db.events (row ∷ []),
          count-singleton (is_row row.id) row,
          (==_iff row.id row.id).1 refl,
        ))

settled_of_outcome :
    (a : Answer) → (s : EventStatus) × ((outcome a).status ≡ some s) × (is_settled s ≡ true)
unfolding outcome
settled_of_outcome (exception message) = (failed, refl, refl)
settled_of_outcome (answer code message) = elim (Bool-cases (code == 200 || code == 201)) [
  | inl e ↦ rw e (completed, refl, refl)
  | inr e ↦
      elim (Bool-cases (
        (code == 400 || code == 409)
        && contains (codes "already exists") (lower (codes message)))) [
          | inl k ↦ rw (e, k) (skipped, refl, refl)
          | inr k ↦ rw (e, k) (failed, refl, refl)
        ]
]

module _ {X : Type 0} (f : Fernet) (rm : Remote X) (queue : SqsQueue) (ev : S3Event)
    (message_id : String) where
  abbrev Row : Uuid → World X → Type 0
  Row id w = HasRow message_id queue.id ev.key id w.queue_db

  -- A run that returns has settled the event.
  abbrev pub Settles : Result (Unit {0}) × World X → Type 0
  Settles (ok _, w) = IsSettled message_id queue.id ev.key w.queue_db
  Settles (err e, w) = Unit

  Settles-finished :
      (id : Uuid) (p : Patch) (w : World X) (s : EventStatus)
      → p.status ≡ some s
      → is_settled s ≡ true
      → Row id w
      → Settles (finished f rm id p w)
  Settles-finished id p w s h k row =
      IsSettled-update_event_status message_id queue.id ev.key id p s w.queue_db h k row

  Settles-import_event :
      (id : Uuid) (key path : String) (made : Result (Bool × String) × X) (w : World X)
      → Row id w
      → Settles (import_event f rm id key path made w)
  unfolding import_event
  Settles-import_event id key path (err e, x) w row =
      Settles-finished id _ (record w { remote = x }) failed refl refl row
  Settles-import_event id key path (ok (false, message), x) w row =
      Settles-finished id _ (record w { remote = x }) failed refl refl row
  Settles-import_event id key path (ok (true, message), x) w row =
      let (a, x') = rm.import_file key path x in
      let (s, h, k) = settled_of_outcome a in
      Settles-finished id (outcome a) (record w { remote = x' }) s h k row

  Settles-with_host :
      (id : Uuid) (token : String) (host : Result (Option String)) (w : World X)
      → Row id w
      → Settles (with_host f rm queue ev id token host w)
  unfolding with_host deliver_event
  Settles-with_host id token (err e) w row = tt
  Settles-with_host id token (ok api_host) w row = Settles-import_event id _ _ _ _ (
      HasRow-update_event_status message_id queue.id ev.key id (status_patch processing) w.queue_db
        row)

  Settles-with_token :
      (id : Uuid) (token : Result (Option String)) (w : World X)
      → Row id w
      → Settles (with_token f rm queue ev id token w)
  unfolding with_token
  Settles-with_token id (err e) w row = tt
  Settles-with_token id (ok token) w row = elim (Bool-cases (truthy token)) [
    | inl e ↦ rw e (Settles-with_host id _ _ w row)
    | inr e ↦ rw e (Settles-finished id _ w failed refl refl row)
  ]

  Settles-with_datastore :
      (id : Uuid) (c : Result (Option DatastoreCredentials)) (w : World X)
      → Row id w
      → Settles (with_datastore f rm queue ev id c w)
  unfolding with_datastore
  Settles-with_datastore id (err e) w row = tt
  Settles-with_datastore id (ok none) w row = Settles-finished id _ w failed refl refl row
  Settles-with_datastore id (ok (some c)) w row =
      Settles-with_token id (find_event_token f rm queue.user_id w.settings) w row

  pub HasRow-record_event :
      (fresh : Uuid × Time) (db : QueueDb)
      → Ensures
          (λ made. HasRow message_id queue.id ev.key made.1.id made.0)
          (record_event f rm queue ev message_id fresh db)
  unfolding record_event create_event
  HasRow-record_event (id, now) db = Ensures-bind _ (text_of ev.event_type) _ λ event_type _.
      Ensures-bind _ (text_of ev.bucket) _ λ bucket _. Ensures-bind _ (size_of ev.size) _ λ size _.
        Ensures-self _ (insert_event _ db) λ made e.
          HasRow-insert_event message_id queue.id ev.key _ db made.0 made.1 e
            (rw (eq_refl message_id, eq_refl ev.key, (==_iff queue.id queue.id).1 refl) refl)

  Settles-after_record :
      (made : Result (QueueDb × SqsEvent)) (w : World X)
      → Ensures (λ m. HasRow message_id queue.id ev.key m.1.id m.0) made
      → Settles (after_record f rm queue ev made w)
  unfolding after_record
  Settles-after_record (err e) w h = tt
  Settles-after_record (ok (db, row)) w h =
      Settles-with_datastore row.id _ (record w { queue_db = db }) h

  pub Settles-process_s3_event :
      (w : World X)
      → exists_for_message message_id queue.id ev.key w.queue_db ≡ ok false
      → Settles (process_s3_event f rm queue ev message_id w)
  unfolding process_s3_event after_probe
  Settles-process_s3_event w new = rw new (Settles-after_record _ _ (HasRow-record_event _ _))
