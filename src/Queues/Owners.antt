-- ===== src/Queues/Owners.antt =====
-- Queue statements in one user's name, and the queues and events of another.
use connect_manager.Prelude.{
  ◌≡◌, ◌≢◌, refl, ap, sym, ◌∙◌, true, false, ◌&&◌, List, Option, none, some, String, arith, ltb,
  ◌==◌, inl, inr, Option-cases,
}
use connect_manager.Db.Table.{select, owned_by}
use connect_manager.Db.Table.Laws.{select-delete, select-update, owned_by_iff}
use connect_manager.Db.Table.Keyed.{count-delete_apart, count-update_same, count_mono, select-cong}
use connect_manager.Db.Rows.{Uuid, SqsQueue, QueueStatus, SqsEvent}
use connect_manager.Db.Repository
use connect_manager.Db.Repository.Laws.{count_at_key}
use connect_manager.Queues.{
  QueueDb, queue_id_of, is_queue_of, is_event_of, update_status_for_user, delete_queues,
  delete_queue_for_user, clear_for_user,
}
use connect_manager.Queues.References.{IsSound}

abbrev pub queues_of : Option Uuid → QueueDb → List SqsQueue
queues_of user_id db = select (λ q. owned_by user_id q.user_id) db.queues

abbrev pub events_of : Option Uuid → QueueDb → List SqsEvent
events_of user_id db = select (is_event_of user_id db.queues) db.events

module _ (u v : Option Uuid) (other : u ≢ v) where
  owned_apart : (w : Option Uuid) → owned_by u w ≡ true → owned_by v w ≡ false
  owned_apart w h = ground (arith, owned_by_iff u w, owned_by_iff v w)

  -- An event's queue has one owner.
  is_event_apart :
      (db : QueueDb)
      → IsSound db
      → (e : SqsEvent) → is_event_of u db.queues e ≡ true
      → is_event_of v db.queues e ≡ false
  is_event_apart db s e h = elim (Option-cases (Repository.get queue_id_of e.queue_id db.queues)) [
    | inl q ↦ at_v ∙ rw q refl
    | inr (r, q) ↦ at_v ∙ rw q (owned_apart r.user_id (sym (at_u ∙ rw q refl) ∙ h))
  ]
    where
      at_u : is_event_of u db.queues e ≡ elim (Repository.get queue_id_of e.queue_id db.queues) [
        | none ↦ false
        | some r ↦ owned_by u r.user_id
      ]
      at_u = count_at_key queue_id_of e.queue_id (λ q. owned_by u q.user_id) db.queues s.distinct

      at_v : is_event_of v db.queues e ≡ elim (Repository.get queue_id_of e.queue_id db.queues) [
        | none ↦ false
        | some r ↦ owned_by v r.user_id
      ]
      at_v = count_at_key queue_id_of e.queue_id (λ q. owned_by v q.user_id) db.queues s.distinct

  events_of-delete :
      (db : QueueDb) (id : Uuid)
      → IsSound db
      → events_of v (delete_queues (is_queue_of id u) db) ≡ events_of v db
  unfolding delete_queues
  events_of-delete db id s =
      select-cong _ (is_event_of v db.queues)
        (λ e.
          ap (λ n. ltb 0 n)
            (count-delete_apart (is_queue_of e.queue_id v) (is_queue_of id u)
              (λ q h. ground (arith, h, owned_apart q.user_id)) db.queues))
        _
      ∙ select-delete (is_event_of v db.queues) _
          (λ e h. is_event_apart db s e (
            ground (
              arith,
              h,
              count_mono (λ q. q.id == e.queue_id && is_queue_of id u q) (is_queue_of e.queue_id u)
                  (λ q k. ground (arith, k)) db.queues,
            )))
          db.events

  -- In sound tables, what one user does to a queue's status, deletes or clears leaves every other
  -- user's queues and events as they were.
  pub scoped_to_owner :
      (db : QueueDb) (id : Uuid) (status : QueueStatus) (message : Option String)
      → IsSound db
      → (queues_of v (update_status_for_user id u status message db).0 ≡ queues_of v db)
        × (events_of v (update_status_for_user id u status message db).0 ≡ events_of v db)
        × (queues_of v (delete_queue_for_user id u db).0 ≡ queues_of v db)
        × (events_of v (delete_queue_for_user id u db).0 ≡ events_of v db)
        × (events_of v (clear_for_user u db).0 ≡ events_of v db)
  unfolding update_status_for_user delete_queue_for_user delete_queues clear_for_user
  scoped_to_owner db id status message s = (
    select-update _ _ _
        (λ q h.
          (ground (arith, h, owned_apart q.user_id), ground (arith, h, owned_apart q.user_id)))
        db.queues,
    select-cong _ _
        (λ e.
          ap (λ n. ltb 0 n)
            (count-update_same (is_queue_of e.queue_id v) _ _ (λ q. refl) db.queues))
        db.events,
    select-delete _ _ (λ q h. ground (arith, h, owned_apart q.user_id)) db.queues,
    events_of-delete db id s,
    select-delete _ _ (is_event_apart db s) db.events,
  )
