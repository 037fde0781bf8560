-- ===== src/Jobs/Scoping.antt =====
-- The user-scoped statements and the jobs of other users.
use connect_manager.Prelude.{ℕ, ◌≡◌, ◌≢◌, true, false, List, Option, arith}
use connect_manager.Db.Table.{select, owned_by}
use connect_manager.Db.Table.Laws.{select-update, select-delete, owned_by_iff}
use connect_manager.Db.Rows.{Uuid, Job}
use connect_manager.Jobs.{JobTable, cancel_job, delete_for_user, clear_completed_for_user}

abbrev pub jobs_of : Option Uuid → JobTable → List Job
jobs_of user_id t = select (λ j. owned_by user_id j.user_id) t.rows

module _ (u v : Option Uuid) (other : u ≢ v) where
  owned_apart : (w : Option Uuid) → owned_by u w ≡ true → owned_by v w ≡ false
  owned_apart w h = ground (arith, owned_by_iff u w, owned_by_iff v w)

  -- Cancelling, deleting and clearing as one user leave every other user's jobs as they were.
  pub scoped_to_user :
      (job_id : ℕ) (t : JobTable)
      → (jobs_of v (cancel_job job_id u t).0 ≡ jobs_of v t)
        × (jobs_of v (delete_for_user job_id u t).0 ≡ jobs_of v t)
        × (jobs_of v (clear_completed_for_user u t).0 ≡ jobs_of v t)
  unfolding cancel_job delete_for_user clear_completed_for_user
  scoped_to_user job_id t = (
    select-update _ _ _
        (λ r h. (ground (arith, owned_apart r.user_id), ground (arith, owned_apart r.user_id)))
        t.rows,
    select-delete _ _ (λ r h. ground (arith, owned_apart r.user_id)) t.rows,
    select-delete _ _ (λ r h. ground (arith, owned_apart r.user_id)) t.rows,
  )
