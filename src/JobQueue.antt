-- ===== src/JobQueue.antt =====
-- app/services/job_queue.py: jobs are stored, handed to the workers' queue in Valkey, cancelled and
-- counted. The log subscription is left out.
pub mod Status
mod Tests
use connect_manager.Prelude.{
  ℕ, String, Bool, true, false, List, [], ◌∷◌, ◌++◌, Option, none, some, str_eq, if◌then◌else◌,
  is_some,
}
use connect_manager.Db.Table.{Result, ok, err, bad_uuid, missing_sessionmaker, ◌>>=◌, count}
use connect_manager.Db.Rows.{
  Uuid, Time, Job, JobStatus, pending, running, completed, failed, cancelled,
}
use connect_manager.Jobs
use connect_manager.Jobs.{JobTable, list_for_user}

-- Whether a sessionmaker was injected, and the queue of the workers where there is a connection.
pub record JobQueue : Type 0 where
  pub has_sessionmaker : Bool
  pub pool : Option (List ℕ)

abbrev pub new_queue : JobQueue
new_queue = record { has_sessionmaker = false; pool = none }

abbrev pub set_sessionmaker : JobQueue → JobQueue
set_sessionmaker q = record q { has_sessionmaker = true }

-- `start` where the connection succeeds, or raises and is passed over.
abbrev pub start : Bool → JobQueue → JobQueue
start connects q = record q { pool = if connects then some [] else none }

abbrev pub stop : JobQueue → JobQueue
stop q = record q { pool = none }

abbrev pub enqueued : ℕ → Option (List ℕ) → Option (List ℕ)
enqueued id none = none
enqueued id (some ids) = some (ids ++ id ∷ [])

abbrev pub is_pending : Job → Bool
is_pending j = elim j.status [
  | pending ↦ true
  | running ↦ false
  | completed ↦ false
  | failed ↦ false
  | cancelled ↦ false
]

abbrev pub is_running : Job → Bool
is_running j = elim j.status [
  | pending ↦ false
  | running ↦ true
  | completed ↦ false
  | failed ↦ false
  | cancelled ↦ false
]

pub record QueueStatus : Type 0 where
  pub pending : ℕ
  pub running : ℕ
  pub connected : Bool

-- `uuid.UUID`, none where it raises.
module _ (parse_uuid : String → Option Uuid) where
  abbrev pub parsed : Option Uuid → Result (Option Uuid)
  parsed none = err bad_uuid
  parsed (some u) = ok (some u)

  unfoldable pub parse_user : Option String → Result (Option Uuid)
  parse_user none = ok none
  parse_user (some u) = if str_eq u "" then ok none else parsed (parse_uuid u)

  -- The guard and the user's id that every operation begins with.
  unfoldable pub begin : Option String → JobQueue → Result (Option Uuid)
  unfolding parse_user
  begin user_id q = if q.has_sessionmaker then parse_user user_id else err missing_sessionmaker

  unfoldable pub add_job :
      Time
      → (bucket prefix filespace_id datastore_id : String) → Option String
      → JobQueue
      → JobTable
      → Result (ℕ × (JobQueue × JobTable))
  unfolding begin
  add_job now bucket prefix filespace_id datastore_id user_id q t = do
    user ← begin user_id q
    let (t', job) = Jobs.create_job now user bucket prefix filespace_id datastore_id t
    ok (job.id, (record q { pool = enqueued job.id q.pool }, t'))

  unfoldable pub cancel_job : ℕ → Option String → JobQueue → JobTable → Result (JobTable × Bool)
  unfolding begin
  cancel_job job_id user_id q t = do user ← begin user_id q; ok (Jobs.cancel_job job_id user t)

  -- `list_for_user` has a default limit.
  unfoldable pub get_jobs : Option String → JobQueue → JobTable → Result (List Job)
  unfolding begin
  get_jobs user_id q t = do user ← begin user_id q; ok (list_for_user user 100 0 t)

  unfoldable pub get_queue_status : Option String → JobQueue → JobTable → Result QueueStatus
  unfolding get_jobs
  get_queue_status user_id q t = do
    jobs ← get_jobs user_id q t
    ok (record {
      pending = count is_pending jobs;
      running = count is_running jobs;
      connected = is_some q.pool;
    })
