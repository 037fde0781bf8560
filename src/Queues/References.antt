-- ===== src/Queues/References.antt =====
-- The tables' invariant: queue ids are distinct, and the queue of every event is there.
use connect_manager.Prelude.{
  ℕ, ◌≡◌, refl, String, Bool, true, false, ◌||◌, List, [], ◌∷◌, Option, none, arith, All, All-imp,
  All-append, ltb, ◌==◌, inl, inr, Bool-cases, is_some,
}
use connect_manager.Db.Table.{Result, ok, err, update, delete, count, insert}
use connect_manager.Db.Table.Laws.{All-update, All-delete, count-append}
use connect_manager.Db.Table.Keyed.{count-update_same, count-delete, All-delete_cases}
use connect_manager.Db.Rows.{Uuid, Time, SqsQueue, QueueStatus, SqsEvent}
use connect_manager.Db.Repository
use connect_manager.Db.Repository.Laws.{
  HasDistinctKeys, HasDistinctKeys-update, HasDistinctKeys-delete, HasDistinctKeys-insert_fresh,
}
use connect_manager.Queues.{
  QueueDb, queue_id_of, update_status_for_user, delete_queues, delete_queue_for_user, mark_polled,
  set_error, save_sqs_queue, delete_sqs_queue, insert_event, create_event, update_event_status,
  Patch, patched, clear_old, clear_for_user,
}

abbrev pub HasQueue : List SqsQueue → SqsEvent → Type 0
HasQueue qs e = ltb 0 (count (λ q. q.id == e.queue_id) qs) ≡ true

pub record IsSound (db : QueueDb) : Type 0 where
  pub distinct : HasDistinctKeys queue_id_of db.queues
  pub referenced : All (HasQueue db.queues) db.events

IsSound-update_queues :
    (p : SqsQueue → Bool) (f : SqsQueue → SqsQueue)
    → ((q : SqsQueue) → (f q).id ≡ q.id)
    → (db : QueueDb) → IsSound db
    → IsSound (record db { queues = update p f db.queues })
IsSound-update_queues p f same db s = record {
  distinct = HasDistinctKeys-update queue_id_of p f same db.queues s.distinct;
  referenced =
      All-imp (HasQueue db.queues) (HasQueue (update p f db.queues))
        (λ e h.
          rw
            (count-update_same (λ (q : SqsQueue). q.id == e.queue_id) p f (λ q. rw same refl)
              db.queues)
            h)
        db.events s.referenced;
}

IsSound-delete_events :
    (p : SqsEvent → Bool) (db : QueueDb)
    → IsSound db
    → IsSound (record db { events = delete p db.events })
IsSound-delete_events p db s = record {
  distinct = s.distinct;
  referenced = All-delete (HasQueue db.queues) p db.events s.referenced;
}

-- An event that is kept keeps its queue.
IsSound-delete_queues :
    (p : SqsQueue → Bool) (db : QueueDb) → IsSound db → IsSound (delete_queues p db)
unfolding delete_queues
IsSound-delete_queues p db s = record {
  distinct = HasDistinctKeys-delete queue_id_of p db.queues s.distinct;
  referenced =
      All-delete_cases (HasQueue db.queues) (HasQueue (delete p db.queues)) _
        (λ e kept h.
          ground (arith, kept, h, count-delete (λ (q : SqsQueue). q.id == e.queue_id) p db.queues))
        db.events s.referenced;
}

IsSound-insert_event :
    (row : SqsEvent) (db db' : QueueDb) (r : SqsEvent)
    → insert_event row db ≡ ok (db', r)
    → IsSound db
    → IsSound db'
unfolding insert_event Repository.exists
IsSound-insert_event row db db' r h s =
    let there : HasQueue db.queues row = ground (arith, h) in
    let same : record db { events = insert row db.events } ≡ db' = ground (arith, h, there) in
    rw (← same) (record {
      distinct = s.distinct;
      referenced = All-append (HasQueue db.queues) db.events (row ∷ []) s.referenced (there, tt);
    })

IsSound-insert_queue :
    (row : SqsQueue) (db : QueueDb)
    → Repository.exists queue_id_of row.id db.queues ≡ false
    → IsSound db
    → IsSound (record db { queues = insert row db.queues })
unfolding Repository.exists
IsSound-insert_queue row db free s = record {
  distinct =
      HasDistinctKeys-insert_fresh queue_id_of row db.queues (ground (arith, free)) s.distinct;
  referenced =
      All-imp (HasQueue db.queues) (HasQueue (insert row db.queues))
        (λ e h.
          ground
            (arith, h, count-append (λ (q : SqsQueue). q.id == e.queue_id) db.queues (row ∷ [])))
        db.events s.referenced;
}

-- Every statement on the two tables.
pub data QueueOp : Type 0 where
  save : SqsQueue → QueueOp
  set_status : Uuid → Option Uuid → QueueStatus → Option String → QueueOp
  remove_of : Uuid → Option Uuid → QueueOp
  remove : Uuid → QueueOp
  polled : Time → Uuid → Option String → QueueOp
  fail : Uuid → Option String → QueueOp
  add_event : SqsEvent → QueueOp
  patch_event : Uuid → Patch → QueueOp
  clear_before : Time → ℕ → QueueOp
  clear_of : Option Uuid → QueueOp

-- A statement that raises leaves the tables as they were.
abbrev pub committed {ℓ} : {A : Type ℓ} → QueueDb → Result (QueueDb × A) → QueueDb
committed db (ok (db', _)) = db'
committed db (err e) = db

unfoldable pub apply : QueueOp → QueueDb → QueueDb
apply (save q) db = committed db (
    save_sqs_queue q.id q.created_at q.queue_url q.queue_arn q.name q.region q.datastore_id
      q.filespace_id q.import_prefix q.user_id db)
apply (set_status id u s m) db = (update_status_for_user id u s m db).0
apply (remove_of id u) db = (delete_queue_for_user id u db).0
apply (remove id) db = (delete_sqs_queue id db).0
apply (polled now id m) db = (mark_polled now id m db).0
apply (fail id m) db = (set_error id m db).0
apply (add_event e) db = committed db (
    create_event e.id e.created_at e.queue_id e.message_id e.event_type e.bucket e.object_key
      e.object_size e.event_time e.status db)
apply (patch_event id p) db = (update_event_status id p db).0
apply (clear_before now days) db = (clear_old now days db).0
apply (clear_of u) db = (clear_for_user u db).0

unfoldable pub apply_all : List QueueOp → QueueDb → QueueDb
apply_all [] db = db
apply_all (op ∷ ops) db = apply_all ops (apply op db)

IsSound-committed {ℓ} :
    {A : Type ℓ} (db : QueueDb) (r : Result (QueueDb × A))
    → IsSound db
    → ((db' : QueueDb) (a : A) → r ≡ ok (db', a) → IsSound db')
    → IsSound (committed db r)
IsSound-committed db (ok (db', a)) s k = k db' a refl
IsSound-committed db (err e) s k = s

save-IsSound : (q : SqsQueue) (db : QueueDb) → IsSound db → IsSound (apply (save q) db)
unfolding apply save_sqs_queue
save-IsSound q db s = elim (Bool-cases (Repository.exists queue_id_of q.id db.queues)) [
  | inl e ↦ rw e s
  | inr e ↦ rw e (IsSound-insert_queue _ db e s)
]

update_event_status-IsSound :
    (id : Uuid) (p : Patch) (db : QueueDb) → IsSound db → IsSound (update_event_status id p db).0
unfolding update_event_status
update_event_status-IsSound id p db s =
    elim (Bool-cases (is_some p.status || is_some p.job_id || is_some p.error_message)) [
      | inl e ↦ rw e (record {
        distinct = s.distinct;
        referenced =
            All-update (HasQueue db.queues) _ (patched p) (λ r _ h. h) db.events s.referenced;
      })
      | inr e ↦ rw e s
    ]

apply-IsSound : (op : QueueOp) (db : QueueDb) → IsSound db → IsSound (apply op db)
unfolding apply update_status_for_user mark_polled set_error clear_old clear_for_user create_event
    delete_queue_for_user delete_sqs_queue
apply-IsSound (save q) db s = save-IsSound q db s
apply-IsSound (set_status id u st m) db s = IsSound-update_queues _ _ (λ q. refl) db s
apply-IsSound (remove_of id u) db s = IsSound-delete_queues _ db s
apply-IsSound (remove id) db s = IsSound-delete_queues _ db s
apply-IsSound (polled now id m) db s = IsSound-update_queues _ _ (λ q. refl) db s
apply-IsSound (fail id m) db s = IsSound-update_queues _ _ (λ q. refl) db s
apply-IsSound (add_event e) db s =
    let row : SqsEvent = record e { job_id = none; error_message = none } in
    IsSound-committed db (insert_event row db) s (λ db' r h. IsSound-insert_event row db db' r h s)
apply-IsSound (patch_event id p) db s = update_event_status-IsSound id p db s
apply-IsSound (clear_before now days) db s = IsSound-delete_events _ db s
apply-IsSound (clear_of u) db s = IsSound-delete_events _ db s

-- Whatever statements run, in any order: queue ids stay distinct, and no event is left whose queue
-- is gone.
pub apply_all-IsSound :
    (ops : List QueueOp) (db : QueueDb) → IsSound db → IsSound (apply_all ops db)
unfolding apply_all
apply_all-IsSound [] db s = s
apply_all-IsSound (op ∷ ops) db s = apply_all-IsSound ops (apply op db) (apply-IsSound op db s)
