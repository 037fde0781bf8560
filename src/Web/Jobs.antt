-- ===== src/Web/Jobs.antt =====
-- app/main.py: the handlers on import jobs.
pub mod Owners
use connect_manager.Prelude.{
  ℕ, String, Bool, true, false, ◌||◌, List, Option, none, some, str_eq, if◌then◌else◌,
}
use connect_manager.Text.Format.{text_or_default}
use connect_manager.Db.Table.{Result, ok, err, ◌>>=◌}
use connect_manager.Db.Rows.{Uuid, Job}
use connect_manager.Jobs
use connect_manager.Jobs.{JobTable}
use connect_manager.JobQueue
use connect_manager.JobQueue.{JobQueue, QueueStatus, get_jobs, get_queue_status, add_job}
use connect_manager.ActivityLog.JobActions.{job_queued}
use connect_manager.Credentials.Datastores.{Entry}
use connect_manager.Sessions.{get_datastore_by_id}
use connect_manager.Web.{Request, World, Env, state_of, note, with_session, with_uid, with_hydrated}

pub data Page : Type 0 where
  job_queue_page : List Job → QueueStatus → Page
  job_error : (error : String) → Page
  job_added : (job_id : ℕ) → (prefix : String) → Page

abbrev pub deleted : ℕ → Option Uuid → JobTable → JobTable
deleted job_id uid t = (Jobs.delete_for_user job_id uid t).0

abbrev pub cleared : Option Uuid → JobTable → JobTable
cleared uid t = (Jobs.clear_completed_for_user uid t).0

module _ (e : Env) where
  -- The list of the user's jobs that most handlers end with.
  unfoldable pub job_list : Request → World → Result Page
  unfolding get_jobs get_queue_status
  job_list r w = do
    jobs ← get_jobs e.parse_uuid r.user_id w.queue w.jobs
    status ← get_queue_status e.parse_uuid r.user_id w.queue w.jobs
    ok (job_queue_page jobs status)

  unfoldable pub list_jobs : Request → World → Result Page × World
  unfolding with_session job_list
  list_jobs r w = with_session e r (λ u w'. (job_list r w', w')) w

  abbrev pub after_cancel : Request → World → Result (JobTable × Bool) → Result Page × World
  after_cancel r w (err x) = (err x, w)
  after_cancel r w (ok (t, done)) = let w' = record w { jobs = t } in (job_list r w', w')

  unfoldable pub cancelled_in : ℕ → Request → String → World → Result Page × World
  unfolding job_list
  cancelled_in job_id r u w =
      after_cancel r w (JobQueue.cancel_job e.parse_uuid job_id r.user_id w.queue w.jobs)

  unfoldable pub cancel_job : ℕ → Request → World → Result Page × World
  unfolding with_session cancelled_in
  cancel_job job_id r w = with_session e r (cancelled_in job_id r) w

  -- The list after a statement on the table.
  unfoldable pub listed_with :
      Request → (Option Uuid → JobTable → JobTable) → Option Uuid → World → Result Page × World
  unfolding job_list
  listed_with r statement uid w =
      let w' = record w { jobs = statement uid w.jobs } in (job_list r w', w')

  unfoldable pub delete_job : ℕ → Request → World → Result Page × World
  unfolding with_session with_uid listed_with
  delete_job job_id r w = with_session e r (λ u. with_uid e r (listed_with r (deleted job_id))) w

  unfoldable pub clear_jobs : Request → World → Result Page × World
  unfolding with_session with_uid listed_with
  clear_jobs r w = with_session e r (λ u. with_uid e r (listed_with r cleared)) w

  abbrev pub after_add :
      String → Request → World → Result (ℕ × (JobQueue × JobTable)) → Result Page × World
  after_add prefix r w (err x) = (err x, w)
  after_add prefix r w (ok (job_id, (q, t))) = (
    ok (job_added job_id prefix),
    note e (job_queued r.user_id job_id (text_or_default prefix "/") none)
        (record w { jobs = t; queue = q }),
  )

  unfoldable pub queued_import :
      (prefix datastore_id : String) → Request → Option Entry → World → Result Page × World
  unfolding add_job
  queued_import prefix datastore_id r none w = (ok (job_error "DataStore credentials not found"), w)
  queued_import prefix datastore_id r (some cred) w =
      elim (str_eq cred.filespace_id "" || str_eq datastore_id "") [
        | true ↦ (ok (job_error "Missing filespace or datastore configuration"), w)
        | false ↦ elim (str_eq cred.bucket_name "") [
          | true ↦ (ok (job_error "No bucket specified"), w)
          | false ↦ after_add prefix r w (
              add_job e.parse_uuid e.now cred.bucket_name prefix cred.filespace_id datastore_id
                r.user_id w.queue w.jobs)
        ]
      ]

  abbrev pub import_for :
      (prefix datastore_id : String) → Request → String → World → Result Page × World
  import_for prefix datastore_id r u w =
      queued_import prefix datastore_id r (get_datastore_by_id datastore_id (state_of u w)) w

  unfoldable pub import_folder :
      (prefix datastore_id : String) → Request → World → Result Page × World
  unfolding with_session with_uid with_hydrated queued_import
  import_folder prefix datastore_id r w =
      with_session e r
        (λ u. with_uid e r λ uid. with_hydrated e r u uid (import_for prefix datastore_id r u)) w
