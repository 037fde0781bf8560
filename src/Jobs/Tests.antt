-- ===== src/Jobs/Tests.antt =====
-- The job statements on a small table.
use connect_manager.Prelude.{◌≡◌, refl, true, List, [], ◌∷◌, some}
use connect_manager.Db.Rows.{running, completed}
use connect_manager.Db.Table.{count}
use connect_manager.Db.Repository
use connect_manager.Jobs.{
  JobTable, JobOp, create, set_status, given_total, apply_all, empty_jobs, cancel_job,
  timeout_stale, update_status, create_job, set_fields,
}
use connect_manager.Jobs.Stale.{timeout_stale_never}

abbrev script : List JobOp
script =
    create 10 (some 7) "b" "p/" "fs" "ds"
    ∷ create 20 (some 8) "b" "q/" "fs" "ds"
    ∷ create 30 (some 7) "b" "r/" "fs" "ds"
    ∷ set_status 1 running (given_total 3 ∷ [])
    ∷ set_status 3 completed []
    ∷ []

abbrev table : JobTable
table = apply_all script empty_jobs

timeout_stale_never_example : timeout_stale 9_000_000_000 1 table ≡ (table, 0)
timeout_stale_never_example = timeout_stale_never script 9_000_000_000 1

cancel_runs : (cancel_job 1 (some 7) table).1 ≡ true
unfolding cancel_job apply_all count update_status Repository.update_by_id create_job set_fields
cancel_runs = refl
