-- ===== src/Queues/Events.antt =====
-- The probe that tells whether an event was recorded before.
use connect_manager.Prelude.{
  ℕ, ◌≡◌, refl, ap, ◌∙◌, String, true, ◌||◌, List, [], ◌∷◌, Option, arith, length, take, ltb,
  ==_iff, eq_refl, is_some,
}
use connect_manager.Db.Table.{ok, ◌>>=◌, select, count, insert, one_or_none}
use connect_manager.Db.Table.Laws.{length-select, count-append}
use connect_manager.Db.Table.Keyed.{count-singleton}
use connect_manager.Db.Rows.{Uuid, Time, SqsEvent, EventStatus}
use connect_manager.Queues.{
  QueueDb, is_same_message, ids_of, exists_for_message, insert_event, create_event,
}

probe_of :
    (es : List SqsEvent)
    → (one_or_none (take 1 (ids_of es)) >>= λ found. ok (is_some found)) ≡ ok (ltb 0 (length es))
probe_of [] = refl
probe_of (e ∷ es) = ground arith

-- The probe never raises, and says whether some row matches.
pub exists_for_message_lem :
    (message_id : String) (queue_id : Uuid) (object_key : String) (db : QueueDb)
    → exists_for_message message_id queue_id object_key db
      ≡ ok (ltb 0 (count (is_same_message message_id queue_id object_key) db.events))
unfolding exists_for_message
exists_for_message_lem message_id queue_id object_key db =
    let p = is_same_message message_id queue_id object_key in
    probe_of (select p db.events) ∙ ap (λ n. ok (ltb 0 n)) (length-select p db.events)

pub insert_event_inv :
    (row : SqsEvent) (db db' : QueueDb) (r : SqsEvent)
    → insert_event row db ≡ ok (db', r)
    → (db' ≡ record db { events = insert row db.events }) × (r ≡ row)
unfolding insert_event
insert_event_inv row db db' r h = ground (arith, h)

exists-insert_event :
    (row : SqsEvent) (m : String) (q : Uuid) (k : String) (db : QueueDb)
    → exists_for_message m q k (record db { events = insert row db.events })
      ≡ ok (is_same_message m q k row || ltb 0 (count (is_same_message m q k) db.events))
exists-insert_event row m q k db =
    let p = is_same_message m q k in
    exists_for_message_lem m q k (record db { events = insert row db.events })
    ∙ ap ok (ground (arith, count-append p db.events (row ∷ []), count-singleton p row))

-- Where an event is recorded, the probe then finds exactly the messages that it found before and
-- the recorded one; it never raises.
exists-create_event :
    (id : Uuid) (now : Time) (queue_id : Uuid) (message_id event_type bucket object_key : String)
    (size : Option ℕ) (time : Option Time) (status : EventStatus) (db db' : QueueDb)
    (row : SqsEvent) (m : String) (q : Uuid) (k : String)
    → create_event id now queue_id message_id event_type bucket object_key size time status db
      ≡ ok (db', row)
    → (exists_for_message m q k db ≡ ok (ltb 0 (count (is_same_message m q k) db.events)))
      × (exists_for_message m q k db'
          ≡ ok (is_same_message m q k row || ltb 0 (count (is_same_message m q k) db.events)))
      × (exists_for_message message_id queue_id object_key db' ≡ ok true)
unfolding create_event
exists-create_event id now queue_id message_id event_type bucket object_key size time status db db'
      row m q k h =
    let (state, same) = insert_event_inv _ db db' row h in
    (
      exists_for_message_lem m q k db,
      rw (state, same) (exists-insert_event _ m q k db),
      rw state (
          exists-insert_event _ message_id queue_id object_key db
          ∙ rw (eq_refl message_id, eq_refl object_key, (==_iff queue_id queue_id).1 refl) refl),
    )
