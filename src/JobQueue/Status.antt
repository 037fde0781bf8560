-- ===== src/JobQueue/Status.antt =====
-- What the status of the queue counts.
use connect_manager.Prelude.{
  ℕ, zero, suc, ◌∙◌, take, ◌+◌, ◌≤◌, ◌≡◌, refl, ap, subst, String, Bool, List, [], ◌∷◌, Option,
  arith, length, is_some,
}
use connect_manager.Db.Table.{Result, ok, err, count, select, owned_by}
use connect_manager.Db.Order.{place, order_by_desc}
use connect_manager.Db.Rows.{Uuid, Job}
use connect_manager.Jobs.{JobTable, list_for_user}
use connect_manager.Jobs.Reads.{list_for_user_lem}
use connect_manager.JobQueue.{
  JobQueue, QueueStatus, is_pending, is_running, begin, get_queue_status,
}

disjoint : (js : List Job) → count is_pending js + count is_running js ≤ length js
unfolding count
disjoint [] = omega arith
disjoint (j ∷ js) = ground (arith, disjoint js)

module _ {ℓ} {A : Type ℓ} (column : A → ℕ) (p : A → Bool) where
  count-place : (r : A) (rs : List A) → count p (place column r rs) ≡ count p (r ∷ rs)
  unfolding place count
  count-place r [] = refl
  count-place r (s ∷ rs) = ground (arith, count-place r rs)

  count-order_by_desc : (rs : List A) → count p (order_by_desc column rs) ≡ count p rs
  unfolding order_by_desc count
  count-order_by_desc [] = refl
  count-order_by_desc (r ∷ rs) =
      count-place r (order_by_desc column rs) ∙ ground (arith, count-order_by_desc rs)

  count-take : (n : ℕ) (rs : List A) → count p (take n rs) ≤ count p rs
  unfolding count
  count-take zero rs = omega arith
  count-take (suc n) [] = omega arith
  count-take (suc n) (r ∷ rs) = ground (arith, count-take n rs)

-- All jobs of a user.
abbrev pub jobs_of : Option Uuid → JobTable → List Job
jobs_of u t = select (λ j. owned_by u j.user_id) t.rows

count-list_for_user :
    (p : Job → Bool) (u : Option Uuid) (t : JobTable)
    → count p (list_for_user u 100 0 t) ≤ count p (jobs_of u t)
unfolding list_for_user
count-list_for_user p u t =
    let column = λ (j : Job). j.created_at in
    omega (
      arith,
      count-take column p 100 (order_by_desc column (jobs_of u t)),
      count-order_by_desc column p (jobs_of u t),
    )

abbrev status_in : QueueStatus → Result QueueStatus → QueueStatus
status_in d (ok s) = s
status_in d (err e) = d

-- The status never counts more than 100 jobs, and no more pending or running ones than the user has.
pub get_queue_status-bounds :
    (parse_uuid : String → Option Uuid) (user_id : Option String) (u : Option Uuid) (q : JobQueue)
    (t : JobTable) (s : QueueStatus)
    → begin parse_uuid user_id q ≡ ok u
    → get_queue_status parse_uuid user_id q t ≡ ok s
    → (s.pending + s.running ≤ 100)
      × (s.pending ≤ count is_pending (jobs_of u t))
      × (s.running ≤ count is_running (jobs_of u t))
unfolding get_queue_status
get_queue_status-bounds parse_uuid user_id u q t s begun got =
    let jobs = list_for_user u 100 0 t in
    let counted : QueueStatus = record {
      pending = count is_pending jobs;
      running = count is_running jobs;
      connected = is_some q.pool;
    } in
    let same : counted ≡ s = ap (status_in s) (rw begun at got) in
    subst
      (λ (r : QueueStatus).
        (r.pending + r.running ≤ 100)
        × (r.pending ≤ count is_pending (jobs_of u t))
        × (r.running ≤ count is_running (jobs_of u t)))
      same
      (
        omega (arith, disjoint jobs, (list_for_user_lem u 100 0 t).1),
        count-list_for_user is_pending u t,
        count-list_for_user is_running u t,
      )
