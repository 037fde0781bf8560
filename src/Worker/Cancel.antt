-- ===== src/Worker/Cancel.antt =====
-- When a cancellation reaches a running job, and when it is lost.
use connect_manager.Prelude.{
  ℕ, suc, ◌≡◌, refl, sym, ap, ◌∙◌, String, Bool, true, false, List, [], ◌∷◌, Option, some, take,
  if◌then◌else◌,
}
use connect_manager.Db.Table.{Result, ok, err}
use connect_manager.Db.Rows.{Uuid, Job, running}
use connect_manager.Jobs.{JobTable, JobOp, cancel, cancel_job, get_job, apply, apply_all}
use connect_manager.Jobs.Reads.{sees, as_cancelled}
use connect_manager.Jobs.Status.{update_status-cancel, get_job-cancel, get_job-cancel_cases}
use connect_manager.Worker.{
  Services, World, Progress, advance, run_batch, begin, read_job, write_job, import_batches, Setup,
  start_job, import_job, set_up, run_import, batch_size,
}
use connect_manager.Worker.Batches.{import_batches_stop}

module _ {X : Type 0} (sv : Services X) (job_id : ℕ) (j : Job) where
  -- The body reads nothing of the row's status.
  run_import-cancelled :
      (r : Result Setup) (w : World X)
      → run_import sv (as_cancelled j) job_id r w ≡ run_import sv j job_id r w
  unfolding run_import
  run_import-cancelled (err e) w = refl
  run_import-cancelled (ok s) w = refl

  start_job-cancelled :
      (w : World X)
      → start_job sv job_id (some (as_cancelled j), w) ≡ start_job sv job_id (some j, w)
  start_job-cancelled w =
      unfold start_job set_up in run_import-cancelled (set_up sv j) (write_job job_id running [] w)

module _ {X : Type 0} (sv : Services X) (job_id : ℕ) (u : Option Uuid) (t : JobTable)
    (rest : List (List JobOp)) (x : X) where
  -- A cancellation that commits while a batch is being imported is lost: the write of the counts
  -- leaves the same progress and the same world as if nobody had cancelled.
  pub cancel_lost_in_batch :
      (bucket : String) (keys : List String) (p : Progress)
      → advance sv job_id bucket keys p
          (record { jobs = t; others = (cancel job_id u ∷ []) ∷ rest; remote = x })
        ≡ advance sv job_id bucket keys p (record { jobs = t; others = [] ∷ rest; remote = x })
  unfolding advance write_job begin apply_all apply
  cancel_lost_in_batch bucket keys p =
      let r = run_batch sv bucket (take batch_size keys) p x in
      ap (λ jobs. (r.0, record { jobs = jobs; others = rest; remote = r.1 }))
        (update_status-cancel job_id running _ t u)

  -- A job that was cancelled before a worker takes it up is imported all the same, where nothing
  -- commits before the worker's first two transactions: the run, its summary and the world it leaves
  -- are those of the job that nobody cancelled.
  pub cancel_lost_before_start :
      (j : Job)
      → get_job job_id t ≡ some j
      → import_job sv job_id
          (record { jobs = (cancel_job job_id u t).0; others = [] ∷ [] ∷ rest; remote = x })
        ≡ import_job sv job_id (record { jobs = t; others = [] ∷ [] ∷ rest; remote = x })
  unfolding import_job read_job begin apply_all start_job write_job
  cancel_lost_before_start j h =
      ap (λ o. start_job sv job_id (o, world (cancel_job job_id u t).0))
        (get_job-cancel_cases job_id u t h)
      ∙ either (sees u (some j))
      ∙ ap
          (λ jobs.
            run_import sv j job_id (set_up sv j)
              (record { jobs = jobs; others = rest; remote = x }))
          (update_status-cancel job_id running [] t u)
      ∙ ap (λ o. start_job sv job_id (o, world t)) (sym h)
    where
      world : JobTable → World X
      world jobs = record { jobs = jobs; others = [] ∷ rest; remote = x }

      either :
          (b : Bool)
          → start_job sv job_id
              ((if b then some (as_cancelled j) else some j), world (cancel_job job_id u t).0)
            ≡ start_job sv job_id (some j, world (cancel_job job_id u t).0)
      either true = start_job-cancelled sv job_id j (world (cancel_job job_id u t).0)
      either false = refl

  -- The owner's cancellation that commits before a check ends the loop there, where a round is left:
  -- no file of the batch is imported, and the counts stay.
  pub cancel_seen_at_check :
      (fuel : ℕ) (bucket k : String) (ks : List String) (p : Progress) (j : Job)
      → get_job job_id t ≡ some j
      → sees u (some j) ≡ true
      → import_batches sv
          (suc fuel)
          job_id
          bucket
          (k ∷ ks)
          p
          (record { jobs = t; others = (cancel job_id u ∷ []) ∷ rest; remote = x })
        ≡ (p, record { jobs = (cancel_job job_id u t).0; others = rest; remote = x })
  cancel_seen_at_check fuel bucket k ks p j h o =
      import_batches_stop sv job_id bucket fuel k ks p
        (record { jobs = t; others = (cancel job_id u ∷ []) ∷ rest; remote = x })
        (unfold read_job begin apply_all apply in rw (get_job-cancel job_id u t h o) refl)
      ∙ unfold read_job begin apply_all apply in refl
