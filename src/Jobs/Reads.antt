-- ===== src/Jobs/Reads.antt =====
-- What a user reads, and what a user's cancellation does, row by row.
use mathlib.Core.Option
use mathlib.Core.List.{Perm}
use connect_manager.Prelude.{
  ℕ, ◌+◌, not, ◌≤◌, ◌≡◌, ◌≢◌, refl, Bool, true, false, List, [], ◌∷◌, Option, none, some, arith,
  ◌==◌, ◌&&◌, if◌then◌else◌, length, take, drop, length-take, ==_iff, inl, inr, Bool-cases, All,
  All-take, All-drop,
}
use connect_manager.Db.Table.{select, update, owned_by}
use connect_manager.Db.Table.Laws.{select-delete_self, select-delete, length-delete}
use connect_manager.Db.Order.{order_by_desc}
use connect_manager.Db.Order.Laws.{
  IsNewestFirst, order_by_desc-IsNewestFirst, order_by_desc-perm, window-IsNewestFirst,
  All-order_by_desc,
}
use connect_manager.Db.Repository
use connect_manager.Db.Repository.Laws.{count_at_key, get-update_ne}
use connect_manager.Db.Rows.{Uuid, Job, cancelled}
use connect_manager.Jobs.{
  JobTable, list_for_user, cancel_job, clear_completed_for_user, is_job_of, is_finished_of, get_job,
  is_terminal,
}
use connect_manager.Jobs.Scoping.{jobs_of}
use connect_manager.Jobs.Validity.{IsValid, job_id}

abbrev created_at : Job → ℕ
created_at j = j.created_at

All-owned :
    (u : Option Uuid) (rs : List Job)
    → All (λ j. owned_by u j.user_id ≡ true) (select (λ j. owned_by u j.user_id) rs)
unfolding select
All-owned u [] = tt
All-owned u (r ∷ rs) = elim (Bool-cases (owned_by u r.user_id)) [
  | inl e ↦ rw e (e, All-owned u rs)
  | inr e ↦ rw e (All-owned u rs)
]

-- A user's list is newest first, at most `limit` long and all the user's own; it is a window of a
-- permutation of the user's jobs.
pub list_for_user_lem :
    (u : Option Uuid) (limit offset : ℕ) (t : JobTable)
    → IsNewestFirst created_at (list_for_user u limit offset t)
      × (length (list_for_user u limit offset t) ≤ limit)
      × All (λ j. owned_by u j.user_id ≡ true) (list_for_user u limit offset t)
      × ((all : List Job) × Perm all (jobs_of u t)
          × (list_for_user u limit offset t ≡ take limit (drop offset all)))
unfolding list_for_user
list_for_user_lem u limit offset t =
    let mine = jobs_of u t in
    let sorted = order_by_desc created_at mine in
    (
      window-IsNewestFirst created_at limit offset sorted
          (order_by_desc-IsNewestFirst created_at mine),
      omega (arith, length-take limit (drop offset sorted)),
      All-take (λ j. owned_by u j.user_id ≡ true) limit _
          (All-drop (λ j. owned_by u j.user_id ≡ true) offset sorted
            (All-order_by_desc created_at (λ j. owned_by u j.user_id ≡ true) mine
              (All-owned u t.rows))),
      (sorted, order_by_desc-perm created_at mine, refl),
    )

-- Whether the row that the id names, if any, belongs to the user.
abbrev pub sees : Option Uuid → Option Job → Bool
sees u none = false
sees u (some j) = owned_by u j.user_id

abbrev pub as_cancelled : Job → Job
as_cancelled j = record j { status = cancelled }

pub get-cancel :
    (id : ℕ) (u : Option Uuid) (rs : List Job)
    → Repository.get job_id id (update (is_job_of id u) as_cancelled rs) ≡ (
        if sees u (Repository.get job_id id rs)
        then Option.map as_cancelled (Repository.get job_id id rs)
        else Repository.get job_id id rs)
unfolding Repository.get update
get-cancel id u [] = refl
get-cancel id u (r ∷ rs) = elim (Bool-cases (r.id == id)) [
  | inl e ↦ ground arith
  | inr e ↦ ground (arith, get-cancel id u rs)
]

-- In a valid table a cancellation reports true exactly when the id names a job of this user; that
-- job is then cancelled, whatever its status was, and a job of another id reads as before.
pub cancel_job_lem :
    (id k : ℕ) (u : Option Uuid) (t : JobTable)
    → IsValid t
    → k ≢ id
    → ((cancel_job id u t).1 ≡ sees u (get_job id t))
      × (get_job id (cancel_job id u t).0 ≡ (
          if sees u (get_job id t) then Option.map as_cancelled (get_job id t) else get_job id t))
      × (get_job k (cancel_job id u t).0 ≡ get_job k t)
unfolding cancel_job get_job
cancel_job_lem id k u t v other = (
  ground (arith, count_at_key job_id id (λ j. owned_by u j.user_id) t.rows v.distinct),
  get-cancel id u t.rows,
  get-update_ne job_id k _ _ (λ j. refl) (λ j e. ground (arith, ==_iff j.id id)) t.rows,
)

-- Clearing the history removes the user's finished jobs, all of them, and reports how many rows
-- went; the user's pending and running jobs stay.
pub clear_completed_lem :
    (u : Option Uuid) (t : JobTable)
    → (select (is_finished_of u) (clear_completed_for_user u t).0.rows ≡ [])
      × (length (clear_completed_for_user u t).0.rows + (clear_completed_for_user u t).1
          ≡ length t.rows)
      × (select
            (λ j. owned_by u j.user_id && not (is_terminal j.status))
            (clear_completed_for_user u t).0.rows
          ≡ select (λ j. owned_by u j.user_id && not (is_terminal j.status)) t.rows)
unfolding clear_completed_for_user
clear_completed_lem u t = (
  select-delete_self (is_finished_of u) t.rows,
  length-delete (is_finished_of u) t.rows,
  select-delete _ _ (λ j h. ground arith) t.rows,
)
