-- ===== src/Processed.antt =====
-- app/db/repositories/job.py: ProcessedJobRepository, and app/services/idempotency.py: the
-- `idempotent` wrapper of every worker task.
pub mod AtMostOnce
mod Tests
use connect_manager.Prelude.{
  ℕ, String, Bool, true, false, not, ◌||◌, List, [], ◌∷◌, Option, none, some, str_eq, if◌then◌else◌,
}
use connect_manager.Db.Table.{Result, ok, err, update, insert}
use connect_manager.Db.Rows.{Time, ProcessedJob}

unfoldable pub has_row : String → List ProcessedJob → Bool
has_row job_id [] = false
has_row job_id (r ∷ rs) = str_eq r.job_id job_id || has_row job_id rs

abbrev pub processed_row : Time → String → Option String → Option String → ProcessedJob
processed_row now job_id worker_id result_status = record {
  job_id = job_id;
  processed_at = now;
  worker_id = worker_id;
  result_status = result_status;
}

-- INSERT ... ON CONFLICT (job_id) DO NOTHING, and whether a row was inserted.
unfoldable pub mark_processed :
    Time → String → Option String → Option String → List ProcessedJob → List ProcessedJob × Bool
unfolding has_row
mark_processed now job_id worker_id result_status rs =
    if has_row job_id rs
    then (rs, false)
    else (insert (processed_row now job_id worker_id result_status) rs, true)

unfoldable pub mark_failed : String → List ProcessedJob → List ProcessedJob
unfolding update
mark_failed job_id rs =
    update (λ r. str_eq r.job_id job_id) (λ r. record r { result_status = some "failed" }) rs

-- What the wrapper reads of ARQ's context and of the environment.
pub record Delivery : Type 0 where
  pub job_id : Option String
  pub hostname : Option String
  pub pod_name : Option String
  pub now : Time

-- The processed_jobs table beside all that a task body works on.
pub record TaskState {ℓ} (S : Type ℓ) : Type ℓ where
  pub processed : List ProcessedJob
  pub inner : S

-- `a or b`: an absent or empty text is falsy.
abbrev pub truthy : Option String → Bool
truthy none = false
truthy (some s) = not (str_eq s "")

abbrev pub text_or : Option String → Option String → Option String
text_or a b = if truthy a then a else b

abbrev as_some {ℓ} : {R : Type ℓ} → Result R → Result (Option R)
as_some (ok r) = ok (some r)
as_some (err e) = err e

module _ {ℓ} {S R : Type ℓ} where
  -- The body ran: an exception marks the row as failed and is raised again.
  unfoldable pub finish :
      String → List ProcessedJob → Result R × S → Result (Option R) × TaskState S
  unfolding mark_failed
  finish job_id rs (ok r, s) = (ok (some r), record { processed = rs; inner = s })
  finish job_id rs (err e, s) = (err e, record { processed = mark_failed job_id rs; inner = s })

  unfoldable pub claim :
      String → (S → Result R × S) → List ProcessedJob × Bool → S → Result (Option R) × TaskState S
  unfolding finish
  claim job_id func (rs, newly) s =
      if newly then finish job_id rs (func s) else (ok none, record { processed = rs; inner = s })

  abbrev undeduplicated : List ProcessedJob → Result R × S → Result (Option R) × TaskState S
  undeduplicated rs (r, s) = (as_some r, record { processed = rs; inner = s })

  unfoldable pub wrapper_of :
      Delivery → Option String → (S → Result R × S) → TaskState S → Result (Option R) × TaskState S
  unfolding claim
  wrapper_of d none func s = undeduplicated s.processed (func s.inner)
  wrapper_of d (some job_id) func s =
      if str_eq job_id ""
      then undeduplicated s.processed (func s.inner)
      else claim job_id func
          (mark_processed d.now job_id (text_or d.hostname d.pod_name) none s.processed) s.inner

  -- `idempotent(func)(ctx)`.
  unfoldable pub idempotent :
      (S → Result R × S) → Delivery → TaskState S → Result (Option R) × TaskState S
  unfolding wrapper_of
  idempotent func d s = wrapper_of d d.job_id func s
