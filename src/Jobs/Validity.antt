-- ===== src/Jobs/Validity.antt =====
-- The table's invariant: ids are distinct, and the sequence is past them.
mod Fields
pub use Fields.*
use connect_manager.Prelude.{
  ℕ, suc, ◌<◌, ◌≡◌, Bool, true, false, List, [], ◌∷◌, ◌++◌, Option, none, some, arith, All, All-imp,
  All-append, ltb, String, refl, inl, inr, Option-cases, if◌then◌else◌,
}
use connect_manager.Db.Table.{select, update, delete, count, insert, owned_by}
use connect_manager.Db.Table.Laws.{All-update, All-delete}
use connect_manager.Db.Repository
use connect_manager.Db.Repository.Laws.{
  HasDistinctKeys, HasDistinctKeys-update, HasDistinctKeys-delete, HasDistinctKeys-insert,
  update_by_id_lem,
}
use connect_manager.Db.Rows.{Uuid, Time, Job, JobStatus}
use connect_manager.Jobs.{
  JobTable, Field, fields_of, set_fields, update_status, create_job, cancel_job, timeout_stale,
  delete_for_user, clear_completed_for_user, JobOp, create, cancel, set_status, time_out, remove,
  clear, apply, apply_all, empty_jobs,
}

abbrev pub job_id : Job → ℕ
job_id j = j.id

pub record IsValid (t : JobTable) : Type 0 where
  pub distinct : HasDistinctKeys job_id t.rows
  pub below : All (λ j. j.id < t.next_id) t.rows

pub IsValid-update :
    (p : Job → Bool) (f : Job → Job)
    → ((j : Job) → (f j).id ≡ j.id)
    → (t : JobTable) → IsValid t
    → IsValid (record t { rows = update p f t.rows })
IsValid-update p f same t v = record {
  distinct = HasDistinctKeys-update job_id p f same t.rows v.distinct;
  below = All-update (λ j. j.id < t.next_id) p f (λ j _ h. omega (arith, same j)) t.rows v.below;
}

pub IsValid-delete :
    (p : Job → Bool) (t : JobTable) → IsValid t → IsValid (record t { rows = delete p t.rows })
IsValid-delete p t v = record {
  distinct = HasDistinctKeys-delete job_id p t.rows v.distinct;
  below = All-delete (λ j. j.id < t.next_id) p t.rows v.below;
}

pub create_job-IsValid :
    (now : Time) (u : Option Uuid) (b p f d : String) (t : JobTable)
    → IsValid t
    → IsValid (create_job now u b p f d t).0
unfolding create_job
create_job-IsValid now u b p f d t v = record {
  distinct = HasDistinctKeys-insert job_id _ t.rows v.below v.distinct;
  below =
      All-append (λ (j : Job). j.id < suc t.next_id) t.rows _
        (All-imp _ (λ j. j.id < suc t.next_id) (λ j h. omega arith) t.rows v.below)
        (omega arith, tt);
}

pub update_status-IsValid :
    (id : ℕ) (s : JobStatus) (fs : List Field) (t : JobTable)
    → IsValid t
    → IsValid (update_status id s fs t).0
unfolding update_status
update_status-IsValid id s fs t v =
    rw update_by_id_lem (IsValid-update _ _ (λ r. id-set_fields fs _) t v)

apply-IsValid : (op : JobOp) (t : JobTable) → IsValid t → IsValid (apply op t)
unfolding apply cancel_job timeout_stale delete_for_user clear_completed_for_user
apply-IsValid (create now u b p f d) t v = create_job-IsValid now u b p f d t v
apply-IsValid (cancel id u) t v = IsValid-update _ _ (λ j. refl) t v
apply-IsValid (set_status id s fs) t v = update_status-IsValid id s (fields_of fs) t v
apply-IsValid (time_out now h) t v = IsValid-update _ _ (λ j. refl) t v
apply-IsValid (remove id u) t v = IsValid-delete _ t v
apply-IsValid (clear u) t v = IsValid-delete _ t v

-- Whatever statements run, in any order, job ids stay distinct and below the sequence.
pub apply_all-IsValid : (ops : List JobOp) (t : JobTable) → IsValid t → IsValid (apply_all ops t)
unfolding apply_all
apply_all-IsValid [] t v = v
apply_all-IsValid (op ∷ ops) t v = apply_all-IsValid ops (apply op t) (apply-IsValid op t v)

pub IsValid-empty : IsValid empty_jobs
IsValid-empty = record { distinct = tt; below = tt }
