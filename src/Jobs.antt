-- ===== src/Jobs.antt =====
-- app/db/repositories/job.py: JobRepository, over the import_jobs table and its id sequence.
pub mod Scoping
pub mod Validity
pub mod Stale
pub mod Reads
pub mod Status
mod Tests
use connect_manager.Prelude.{
  ℕ, zero, suc, ◌+◌, ◌-◌, ◌*◌, String, Bool, true, false, ◌&&◌, List, [], ◌∷◌, Option, none, some,
  ltb, ◌==◌, if◌then◌else◌,
}
use connect_manager.Db.Table.{select, update, delete, count, insert, owned_by}
use connect_manager.Db.Order.{order_by_desc, window}
use connect_manager.Db.Rows.{
  Uuid, Time, microseconds_per_hour, Job, JobStatus, pending, running, completed, failed, cancelled,
}
use connect_manager.Db.Repository

-- The rows, and the next value of the autoincrement key.
pub record JobTable : Type 0 where
  pub rows : List Job
  pub next_id : ℕ

abbrev pub empty_jobs : JobTable
empty_jobs = record { rows = []; next_id = 1 }

unfoldable pub list_for_user : Option Uuid → ℕ → ℕ → JobTable → List Job
list_for_user user_id limit offset t =
    window limit offset
      (order_by_desc (λ j. j.created_at) (select (λ j. owned_by user_id j.user_id) t.rows))

unfoldable pub create_job :
    Time → Option Uuid → String → String → String → String → JobTable → JobTable × Job
create_job now user_id bucket prefix filespace_id datastore_id t =
    let job : Job = record {
      id = t.next_id;
      status = pending;
      bucket = bucket;
      prefix = prefix;
      filespace_id = filespace_id;
      datastore_id = datastore_id;
      total_files = 0;
      completed_files = 0;
      failed_files = 0;
      error_message = none;
      created_at = now;
      started_at = none;
      completed_at = none;
      user_id = user_id;
    } in
    (record { rows = insert job t.rows; next_id = suc t.next_id }, job)

-- WHERE id = job_id AND user_id = user_id (IS NULL for None).
abbrev pub is_job_of : ℕ → Option Uuid → Job → Bool
is_job_of job_id user_id j = j.id == job_id && owned_by user_id j.user_id

unfoldable pub cancel_job : ℕ → Option Uuid → JobTable → JobTable × Bool
cancel_job job_id user_id t = (
  record t {
    rows = update (is_job_of job_id user_id) (λ j. record j { status = cancelled }) t.rows;
  },
  ltb 0 (count (is_job_of job_id user_id) t.rows),
)

-- The keyword fields of `update_status`: the columns but the id and the status.
pub data Field : Type 0 where
  total_files completed_files failed_files : ℕ → Field
  error_message : Option String → Field
  set_bucket set_prefix set_filespace_id set_datastore_id : String → Field
  set_created_at : Time → Field
  set_started_at set_completed_at : Option Time → Field
  set_user_id : Option Uuid → Field

unfoldable pub set_fields : List Field → Job → Job
set_fields [] j = j
set_fields (total_files n ∷ fs) j = set_fields fs (record j { total_files = n })
set_fields (completed_files n ∷ fs) j = set_fields fs (record j { completed_files = n })
set_fields (failed_files n ∷ fs) j = set_fields fs (record j { failed_files = n })
set_fields (error_message s ∷ fs) j = set_fields fs (record j { error_message = s })
set_fields (set_bucket s ∷ fs) j = set_fields fs (record j { bucket = s })
set_fields (set_prefix s ∷ fs) j = set_fields fs (record j { prefix = s })
set_fields (set_filespace_id s ∷ fs) j = set_fields fs (record j { filespace_id = s })
set_fields (set_datastore_id s ∷ fs) j = set_fields fs (record j { datastore_id = s })
set_fields (set_created_at t ∷ fs) j = set_fields fs (record j { created_at = t })
set_fields (set_started_at t ∷ fs) j = set_fields fs (record j { started_at = t })
set_fields (set_completed_at t ∷ fs) j = set_fields fs (record j { completed_at = t })
set_fields (set_user_id u ∷ fs) j = set_fields fs (record j { user_id = u })

unfoldable pub update_status : ℕ → JobStatus → List Field → JobTable → JobTable × Option Job
update_status job_id status fields t =
    let (rows, job) =
      Repository.update_by_id (λ (j : Job). j.id) job_id
        (λ j. set_fields fields (record j { status = status })) t.rows in
    (record t { rows = rows }, job)

unfoldable pub get_job : ℕ → JobTable → Option Job
get_job job_id t = Repository.get (λ (j : Job). j.id) job_id t.rows

abbrev pub is_running : JobStatus → Bool
is_running running = true
is_running _ = false

-- `started_at < cutoff`, which is not true of NULL.
abbrev pub is_before : Time → Option Time → Bool
is_before cutoff none = false
is_before cutoff (some t) = ltb t cutoff

abbrev pub is_stale : Time → Job → Bool
is_stale cutoff j = is_running j.status && is_before cutoff j.started_at

unfoldable pub timeout_stale : Time → ℕ → JobTable → JobTable × ℕ
timeout_stale now hours t =
    let cutoff = now - hours * microseconds_per_hour in
    (
      record t {
        rows =
            update (is_stale cutoff)
              (λ j. record j { status = failed; error_message = some "timed out" }) t.rows;
      },
      count (is_stale cutoff) t.rows,
    )

unfoldable pub delete_for_user : ℕ → Option Uuid → JobTable → JobTable × Bool
delete_for_user job_id user_id t = (
  record t { rows = delete (is_job_of job_id user_id) t.rows },
  ltb 0 (count (is_job_of job_id user_id) t.rows),
)

abbrev pub is_terminal : JobStatus → Bool
is_terminal pending = false
is_terminal running = false
is_terminal completed = true
is_terminal failed = true
is_terminal cancelled = true

abbrev pub is_finished_of : Option Uuid → Job → Bool
is_finished_of user_id j = owned_by user_id j.user_id && is_terminal j.status

unfoldable pub clear_completed_for_user : Option Uuid → JobTable → JobTable × ℕ
clear_completed_for_user user_id t = (
  record t { rows = delete (is_finished_of user_id) t.rows },
  count (is_finished_of user_id) t.rows,
)

-- The keywords that the program's calls of `update_status` give.
pub data Keyword : Type 0 where
  given_total given_completed given_failed : ℕ → Keyword
  given_error : String → Keyword

abbrev pub fields_of : List Keyword → List Field
fields_of [] = []
fields_of (given_total n ∷ ks) = total_files n ∷ fields_of ks
fields_of (given_completed n ∷ ks) = completed_files n ∷ fields_of ks
fields_of (given_failed n ∷ ks) = failed_files n ∷ fields_of ks
fields_of (given_error s ∷ ks) = error_message (some s) ∷ fields_of ks

-- Every statement that some part of the program runs on the table.
pub data JobOp : Type 0 where
  create : Time → Option Uuid → String → String → String → String → JobOp
  cancel : ℕ → Option Uuid → JobOp
  set_status : ℕ → JobStatus → List Keyword → JobOp
  time_out : Time → ℕ → JobOp
  remove : ℕ → Option Uuid → JobOp
  clear : Option Uuid → JobOp

unfoldable pub apply : JobOp → JobTable → JobTable
apply (create now u b p f d) t = (create_job now u b p f d t).0
apply (cancel id u) t = (cancel_job id u t).0
apply (set_status id s ks) t = (update_status id s (fields_of ks) t).0
apply (time_out now h) t = (timeout_stale now h t).0
apply (remove id u) t = (delete_for_user id u t).0
apply (clear u) t = (clear_completed_for_user u t).0

unfoldable pub apply_all : List JobOp → JobTable → JobTable
unfolding apply
apply_all [] t = t
apply_all (op ∷ ops) t = apply_all ops (apply op t)
