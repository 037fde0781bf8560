-- ===== src/Jobs/Status.antt =====
-- `update_status`, read back, and over a cancellation.
use mathlib.Core.Option
use connect_manager.Prelude.{
  ℕ, ◌≡◌, refl, ap, ◌∙◌, sym, true, List, Option, some, arith, ◌==◌, if◌then◌else◌,
}
use connect_manager.Db.Table.{update}
use connect_manager.Db.Table.Laws.{update-update_absorb}
use connect_manager.Db.Repository.Laws.{get-update_self, update_by_id_lem}
use connect_manager.Db.Rows.{Uuid, Job, JobStatus}
use connect_manager.Jobs.{
  JobTable, Field, set_fields, cancel_job, update_status, get_job, is_job_of,
}
use connect_manager.Jobs.Validity.{job_id, id-set_fields}
use connect_manager.Jobs.Reads.{as_cancelled, get-cancel, sees}

abbrev pub with_status : JobStatus → List Field → Job → Job
with_status s fs j = set_fields fs (record j { status = s })

module _ (id : ℕ) (s : JobStatus) (fs : List Field) (t : JobTable) where
  -- What `update_status` wrote is what `get_job` reads.
  pub get_job-update_status :
      {j : Job}
      → get_job id t ≡ some j
      → get_job id (update_status id s fs t).0 ≡ some (with_status s fs j)
  unfolding get_job update_status
  get_job-update_status h =
      rw update_by_id_lem
        (get-update_self job_id id (with_status s fs) (λ r. id-set_fields fs _) t.rows h)

  pub update_status_lem :
      (update_status id s fs t).0
      ≡ record t { rows = update (λ j. j.id == id) (with_status s fs) t.rows }
  unfolding update_status
  update_status_lem = rw update_by_id_lem

module _ (id : ℕ) (s : JobStatus) (fs : List Field) (t : JobTable) (u : Option Uuid) where
  -- A status that is written over a cancellation leaves no trace of it.
  pub update_status-cancel :
      (update_status id s fs (cancel_job id u t).0).0 ≡ (update_status id s fs t).0
  unfolding cancel_job
  update_status-cancel =
      update_status_lem id s fs (cancel_job id u t).0
      ∙ ap (λ rows. record t { rows = rows })
          (update-update_absorb (λ j. j.id == id) (is_job_of id u) as_cancelled (with_status s fs)
            (λ j h. (ground arith, ground arith, refl)) t.rows)
      ∙ sym (update_status_lem id s fs t)

module _ (id : ℕ) (u : Option Uuid) (t : JobTable) {j : Job} (found : get_job id t ≡ some j) where
  pub get_job-cancel_cases :
      get_job id (cancel_job id u t).0 ≡ (if sees u (some j) then some (as_cancelled j) else some j)
  unfolding get_job cancel_job
  get_job-cancel_cases =
      get-cancel id u t.rows ∙ ap (λ o. if sees u o then Option.map as_cancelled o else o) found

  -- The owner's cancellation is what the next read finds.
  pub get_job-cancel :
      sees u (some j) ≡ true → get_job id (cancel_job id u t).0 ≡ some (as_cancelled j)
  get_job-cancel o = get_job-cancel_cases ∙ rw o refl
