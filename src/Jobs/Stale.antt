-- ===== src/Jobs/Stale.antt =====
-- `timeout_stale` reads `started_at`, which no statement of the program writes.
use connect_manager.Prelude.{
  ℕ, ◌-◌, ◌*◌, ◌≡◌, refl, ◌∙◌, ap₂, false, List, [], ◌∷◌, none, arith, All, All-imp, All-append,
}
use connect_manager.Db.Table.Laws.{All-update, All-delete, count-eq-zero, update_of_none}
use connect_manager.Db.Repository.Laws.{update_by_id_lem}
use connect_manager.Db.Rows.{microseconds_per_hour, Time, Job}
use connect_manager.Jobs.{
  JobTable, update_status, create_job, cancel_job, timeout_stale, is_stale, delete_for_user,
  clear_completed_for_user, JobOp, create, cancel, set_status, time_out, remove, clear, apply,
  apply_all, empty_jobs,
}
use connect_manager.Jobs.Validity.{started_at-set_fields}

abbrev pub NeverStarted : Job → Type 0
NeverStarted j = j.started_at ≡ none

apply-NeverStarted :
    (op : JobOp) (t : JobTable) → All NeverStarted t.rows → All NeverStarted (apply op t).rows
unfolding apply create_job cancel_job timeout_stale delete_for_user clear_completed_for_user
apply-NeverStarted (create now u b p f d) t h = All-append NeverStarted t.rows _ h (refl, tt)
apply-NeverStarted (cancel id u) t h = All-update NeverStarted _ _ (λ j _ k. k) t.rows h
apply-NeverStarted (set_status id s fs) t h =
    unfold update_status in
    rw update_by_id_lem
      (All-update NeverStarted _ _ (λ r _ k. started_at-set_fields fs _ ∙ k) t.rows h)
apply-NeverStarted (time_out now k) t h = All-update NeverStarted _ _ (λ j _ k. k) t.rows h
apply-NeverStarted (remove id u) t h = All-delete NeverStarted _ t.rows h
apply-NeverStarted (clear u) t h = All-delete NeverStarted _ t.rows h

apply_all-NeverStarted :
    (ops : List JobOp) (t : JobTable)
    → All NeverStarted t.rows
    → All NeverStarted (apply_all ops t).rows
unfolding apply_all
apply_all-NeverStarted [] t h = h
apply_all-NeverStarted (op ∷ ops) t h =
    apply_all-NeverStarted ops (apply op t) (apply-NeverStarted op t h)

not-is_stale : (cutoff : Time) (j : Job) → NeverStarted j → is_stale cutoff j ≡ false
not-is_stale cutoff j h = ground arith

-- In a table that the program's own statements built from the empty one, `timeout_stale` fails no
-- job and changes nothing, at any time and for any age: a job left running stays running.
pub timeout_stale_never :
    (ops : List JobOp) (now : Time) (hours : ℕ)
    → timeout_stale now hours (apply_all ops empty_jobs) ≡ (apply_all ops empty_jobs, 0)
unfolding timeout_stale
timeout_stale_never ops now hours =
    let t = apply_all ops empty_jobs in
    let cutoff = now - hours * microseconds_per_hour in
    let none_stale : All (λ j. is_stale cutoff j ≡ false) t.rows =
      All-imp NeverStarted _ (not-is_stale cutoff) t.rows
        (apply_all-NeverStarted ops empty_jobs tt) in
    ap₂ (λ rows (n : ℕ). (record t { rows = rows }, n))
      (update_of_none (is_stale cutoff) _ t.rows none_stale)
      (count-eq-zero (is_stale cutoff) t.rows none_stale)
