-- ===== src/Worker/Quiet.antt =====
-- A job that no other task touches: the row that it leaves.
use native.Mathlib.Nat.{zero-add}
use connect_manager.Text.{codes, lower, contains, joined}
use connect_manager.Prelude.{
  Bool, false, ◌||◌, ◌&&◌, ◌==◌, ◌++◌, ap, ◌∙◌, take-append-drop, ℕ, zero, suc, ◌+◌, ◌≤◌, ◌≡◌, refl,
  sym, subst, String, List, [], ◌∷◌, length, take, drop, arith, some, length-take, length-drop,
}
use connect_manager.Db.Table.{Fault, ok, err, count}
use connect_manager.Db.Rows.{Job, running, completed, failed}
use connect_manager.Jobs.{
  JobTable, Field, set_fields, get_job, update_status, error_message, total_files, completed_files,
  failed_files,
}
use connect_manager.Jobs.Status.{with_status, get_job-update_status}
use connect_manager.Worker.{
  Answer, answer, exception, classify, tally, Services, World, Progress, no_progress, Summary,
  failed_with, done, create_dirs, import_batches, advance, run_batch, finish_job, import_keys,
  import_listed, run_import, fail_job, start_job, import_job, read_job, write_job, begin,
  sorted_dirs, batch_size, Setup, set_up,
}
use connect_manager.Worker.Batches.{
  IsBalanced, run_batch-IsBalanced, handled, handled-run_batch, import_batches_go,
}

abbrev pub quiet : {X : Type 0} → JobTable → X → World X
quiet t x = record { jobs = t; others = []; remote = x }

-- The row of a job in the middle of its import agrees with the progress.
pub record IsAt (job_id files : ℕ) (p : Progress) (t : JobTable) : Type 0 where
  pub row : Job
  pub found : get_job job_id t ≡ some row
  pub status : row.status ≡ running
  pub total : row.total_files ≡ files
  pub completed : row.completed_files ≡ p.completed
  pub failed : row.failed_files ≡ p.failed

-- What the answers of LucidLink say of their files: imported, or there before.
abbrev pub is_new : Answer → Bool
is_new (exception m) = false
is_new (answer code m) = code == 200 || code == 201

abbrev pub was_there : Answer → Bool
was_there (exception m) = false
was_there (answer code m) =
    code == 409 || (code == 400 && contains (codes "already exists") (lower (codes m)))

-- One call of `import_file` for each key, in order: the answers, and the state after them.
abbrev pub imports : {X : Type 0} → Services X → String → List String → X → List Answer × X
imports sv bucket [] x = ([], x)
imports sv bucket (k ∷ ks) x =
    let (a, x') = sv.import_file k (joined "" (joined bucket k)) x in
    let (answers, x'') = imports sv bucket ks x' in (a ∷ answers, x'')

tally-is_new :
    (a : Answer) (p : Progress)
    → (tally (classify a) p).total_new ≡ p.total_new + count is_new (a ∷ [])
unfolding classify count
tally-is_new (exception m) p = omega arith
tally-is_new (answer code m) p = ground arith

tally-was_there :
    (a : Answer) (p : Progress)
    → (tally (classify a) p).total_skipped ≡ p.total_skipped + count was_there (a ∷ [])
unfolding classify count
tally-was_there (exception m) p = omega arith
tally-was_there (answer code m) p = ground arith

module _ {X : Type 0} (sv : Services X) (bucket : String) where
  run_batch-append :
      (ks ls : List String) (p : Progress) (x : X)
      → run_batch sv bucket (ks ++ ls) p x
        ≡ run_batch sv bucket ls (run_batch sv bucket ks p x).0 (run_batch sv bucket ks p x).1
  unfolding run_batch
  run_batch-append [] ls p x = refl
  run_batch-append (k ∷ ks) ls p x = run_batch-append ks ls _ _

  remote-run_batch :
      (ks : List String) (p : Progress) (x : X)
      → (run_batch sv bucket ks p x).1 ≡ (imports sv bucket ks x).1
  unfolding run_batch
  remote-run_batch [] p x = refl
  remote-run_batch (k ∷ ks) p x = remote-run_batch ks _ _

  new-run_batch :
      (ks : List String) (p : Progress) (x : X)
      → (run_batch sv bucket ks p x).0.total_new
        ≡ p.total_new + count is_new (imports sv bucket ks x).0
  unfolding run_batch count
  new-run_batch [] p x = omega arith
  new-run_batch (k ∷ ks) p x =
      let (a, x') = sv.import_file k (joined "" (joined bucket k)) x in
      ground (arith, new-run_batch ks (tally (classify a) p) x', tally-is_new a p)

  skipped-run_batch :
      (ks : List String) (p : Progress) (x : X)
      → (run_batch sv bucket ks p x).0.total_skipped
        ≡ p.total_skipped + count was_there (imports sv bucket ks x).0
  unfolding run_batch count
  skipped-run_batch [] p x = omega arith
  skipped-run_batch (k ∷ ks) p x =
      let (a, x') = sv.import_file k (joined "" (joined bucket k)) x in
      ground (arith, skipped-run_batch ks (tally (classify a) p) x', tally-was_there a p)

module _ {X : Type 0} (sv : Services X) (job_id : ℕ) (bucket : String) (files : ℕ) where
  abbrev counted : Progress → List Field
  counted p = completed_files p.completed ∷ failed_files p.failed ∷ []

  counted-IsAt :
      (p p' : Progress) (t : JobTable)
      → IsAt job_id files p t
      → IsAt job_id files p' (update_status job_id running (counted p') t).0
  counted-IsAt p p' t a = record {
    row = with_status running (counted p') a.row;
    found = get_job-update_status job_id running (counted p') t a.found;
    status = unfold set_fields in refl;
    total = unfold set_fields in a.total;
    completed = unfold set_fields in refl;
    failed = unfold set_fields in refl;
  }

  -- What the loop leaves where every key is imported.
  record Ran (keys : List String) (p : Progress) (x : X) (r : Progress × World X) : Type 0 where
    table : JobTable
    state : X
    world : r.1 ≡ quiet table state
    at : IsAt job_id files r.0 table
    all : handled r.0 ≡ handled p + length keys
    made : (r.0, state) ≡ run_batch sv bucket keys p x

  module _ (k : String) (ks : List String) (p : Progress) (t : JobTable) (x : X) where
    abbrev round : Progress × X
    round = run_batch sv bucket (take batch_size (k ∷ ks)) p x

    abbrev after_round : JobTable
    after_round = (update_status job_id running (counted round.0) t).0

    -- A round and the rest of the loop make the whole loop.
    Ran-round :
        (fuel : ℕ)
        → IsAt job_id files p t
        → Ran (drop batch_size (k ∷ ks)) round.0 round.1 (
            import_batches sv fuel job_id bucket
              (drop batch_size (k ∷ ks))
              round.0
              (quiet after_round round.1))
        → Ran (k ∷ ks) p x (import_batches sv (suc fuel) job_id bucket (k ∷ ks) p (quiet t x))
    unfolding advance write_job read_job begin
    Ran-round fuel a later =
        rw
          (import_batches_go sv job_id bucket fuel k ks p (quiet t x) (rw (a.found, a.status) refl))
          (record {
            table = later.table;
            state = later.state;
            world = later.world;
            at = later.at;
            all = omega (
              arith,
              later.all,
              handled-run_batch sv job_id bucket (take batch_size (k ∷ ks)) p x,
              length-take batch_size (k ∷ ks),
              length-drop batch_size (k ∷ ks),
            );
            made =
                later.made
                ∙ sym (
                    run_batch-append sv bucket (take batch_size (k ∷ ks)) (drop batch_size (k ∷ ks))
                      p x)
                ∙ ap (λ ls. run_batch sv bucket ls p x) (take-append-drop batch_size (k ∷ ks));
          })

  -- With as much fuel as there are keys, the loop ends by running out of keys.
  import_batches-Ran :
      (fuel : ℕ) (keys : List String) (p : Progress) (t : JobTable) (x : X)
      → length keys ≤ fuel
      → IsAt job_id files p t
      → Ran keys p x (import_batches sv fuel job_id bucket keys p (quiet t x))
  import_batches-Ran zero [] p t x h a =
      unfold import_batches in
      record {
        table = t;
        state = x;
        world = refl;
        at = a;
        all = omega arith;
        made = unfold run_batch in refl;
      }
  import_batches-Ran zero (k ∷ ks) p t x h a = absurd (omega arith)
  import_batches-Ran (suc fuel) [] p t x h a =
      unfold import_batches in
      record {
        table = t;
        state = x;
        world = refl;
        at = a;
        all = omega arith;
        made = unfold run_batch in refl;
      }
  import_batches-Ran (suc fuel) (k ∷ ks) p t x h a = Ran-round k ks p t x fuel a (
      import_batches-Ran fuel (drop batch_size (k ∷ ks)) (round k ks p t x).0
        (after_round k ks p t x) (round k ks p t x).1
        (omega (arith, length-drop batch_size (k ∷ ks))) (counted-IsAt p (round k ks p t x).0 t a))

-- The row and the summary of a job that imported all its files, and what its calls made of the remote.
pub record Finished {X : Type 0} (job_id files : ℕ) (made : List Answer × X) (r : Summary × World X)
    : Type 0 where
  pub counts : Progress
  pub summary : r.0 ≡ done counts.completed counts.failed counts.total_new counts.total_skipped
  pub row : Job
  pub found : get_job job_id r.1.jobs ≡ some row
  pub status : row.status ≡ completed
  pub total : row.total_files ≡ files
  pub completed_count : row.completed_files ≡ counts.completed
  pub failed_count : row.failed_files ≡ counts.failed
  pub all : counts.completed + counts.failed ≡ files
  pub new_count : counts.total_new ≡ count is_new made.0
  pub skipped_count : counts.total_skipped ≡ count was_there made.0
  pub balanced : counts.completed ≡ counts.total_new + counts.total_skipped
  pub remote : r.1.remote ≡ made.1

module _ {X : Type 0} (sv : Services X) (job_id : ℕ) (bucket : String) where
  finish_job-Finished :
      (p : Progress) (t : JobTable) (x x₀ : X) (files : ℕ) (keys : List String)
      → IsAt job_id files p t
      → handled p ≡ files
      → (p, x) ≡ run_batch sv bucket keys no_progress x₀
      → Finished job_id files (imports sv bucket keys x₀) (finish_job sv job_id (p, quiet t x))
  unfolding finish_job read_job write_job begin
  finish_job-Finished p t x x₀ files keys a e made =
      rw (a.found, a.status)
        (record {
          counts = p;
          summary = refl;
          row = with_status completed [] a.row;
          found = get_job-update_status job_id completed [] t a.found;
          status = unfold set_fields in refl;
          total = unfold set_fields in a.total;
          completed_count = unfold set_fields in a.completed;
          failed_count = unfold set_fields in a.failed;
          all = e;
          new_count =
              ap (λ r. r.0.total_new) made
              ∙ new-run_batch sv bucket keys no_progress x₀
              ∙ zero-add _;
          skipped_count =
              ap (λ r. r.0.total_skipped) made
              ∙ skipped-run_batch sv bucket keys no_progress x₀
              ∙ zero-add _;
          balanced = sym (
              subst (λ r. IsBalanced r.0) (sym made)
                (run_batch-IsBalanced sv job_id bucket keys no_progress x₀ refl));
          remote = ap (λ r. r.1) made ∙ remote-run_batch sv bucket keys no_progress x₀;
        })

  -- A job with files, whose row has its counters at 0 and which nobody else touches, imports them all.
  import_keys-Finished :
      (k : String) (ks : List String) (t : JobTable) (x : X) (j : Job)
      → get_job job_id t ≡ some j
      → j.completed_files ≡ 0
      → j.failed_files ≡ 0
      → Finished job_id
          (length (k ∷ ks))
          (imports sv bucket (k ∷ ks) (create_dirs sv (sorted_dirs bucket (k ∷ ks)) x))
          (import_keys sv job_id bucket (k ∷ ks) (quiet t x))
  unfolding import_keys read_job write_job begin set_fields
  import_keys-Finished k ks t x j h c f =
      let n = length (k ∷ ks) in
      let t' = (update_status job_id running (total_files n ∷ []) t).0 in
      let x' = create_dirs sv (sorted_dirs bucket (k ∷ ks)) x in
      let started = get_job-update_status job_id running (total_files n ∷ []) t h in
      let a : IsAt job_id n no_progress t' = record {
        row = with_status running (total_files n ∷ []) j;
        found = started;
        status = refl;
        total = refl;
        completed = c;
        failed = f;
      } in
      let b = import_batches sv n job_id bucket (k ∷ ks) no_progress (quiet t' x') in
      let r = import_batches-Ran sv job_id bucket n n (k ∷ ks) no_progress t' x' (omega arith) a in
      rw started (
        subst
          (λ w. Finished job_id n (imports sv bucket (k ∷ ks) x') (finish_job sv job_id (b.0, w)))
          (sym r.world)
          (finish_job-Finished b.0 r.table r.state x' n (k ∷ ks) r.at (omega (arith, r.all))
            r.made))

  module _ (t : JobTable) (x : X) (j : Job) (found : get_job job_id t ≡ some j) where
    abbrev started : JobTable
    started = (update_status job_id running [] t).0

    row_started : get_job job_id started ≡ some (record j { status = running })
    row_started = unfold set_fields in get_job-update_status job_id running [] t found

  -- Whatever makes the set-up or the listing raise, the row ends as failed with the exception's
  -- text, and the summary says the same.
  fail_job_lem :
      (e : Fault) (t : JobTable) (x : X) (j : Job)
      → get_job job_id t ≡ some j
      → ((fail_job sv job_id e (quiet t x)).0 ≡ failed_with (sv.describe e))
        × (get_job job_id (fail_job sv job_id e (quiet t x)).1.jobs
            ≡ some (record j { status = failed; error_message = some (sv.describe e) }))
  unfolding fail_job write_job begin
  fail_job_lem e t x j h = (
    refl,
    unfold set_fields in
        get_job-update_status job_id failed (error_message (some (sv.describe e)) ∷ []) t h,
  )

module _ {X : Type 0} (sv : Services X) (job_id : ℕ) (t : JobTable) (x : X) (j : Job)
    (found : get_job job_id t ≡ some j) where
  -- A job that no other task touches and whose set-up raises ends with status failed and the
  -- exception's text, in its row and in its summary.
  pub import_job_failed :
      (e : Fault)
      → set_up sv j ≡ err e
      → ((import_job sv job_id (quiet t x)).0 ≡ failed_with (sv.describe e))
        × (get_job job_id (import_job sv job_id (quiet t x)).1.jobs
            ≡ some (record j { status = failed; error_message = some (sv.describe e) }))
  unfolding import_job read_job write_job begin start_job run_import
  import_job_failed e h =
      rw (found, h)
        (fail_job_lem sv job_id "" e _ x (record j { status = running })
          (row_started sv job_id "" t x j found))

  -- With credentials at hand and files to import, a fresh job that no other task touches creates the
  -- folders and calls `import_file` for every listed file, once each and in order. Its row ends as
  -- completed, new and skipped files are those whose answers say so, and these with the failed ones add
  -- up to the files listed.
  pub import_job-Finished :
      (s : Setup) (k : String) (ks : List String)
      → set_up sv j ≡ ok s
      → sv.list_all_objects s.datastore j.bucket j.prefix ≡ ok (k ∷ ks)
      → j.completed_files ≡ 0
      → j.failed_files ≡ 0
      → Finished job_id
          (length (k ∷ ks))
          (imports sv j.bucket (k ∷ ks) (
            create_dirs sv
              (sorted_dirs j.bucket (k ∷ ks))
              (sv.configure s.token j.filespace_id j.datastore_id s.api_host x)))
          (import_job sv job_id (quiet t x))
  unfolding import_job read_job write_job begin start_job run_import import_listed
  import_job-Finished s k ks h l c f =
      rw (found, h, l)
        (import_keys-Finished sv job_id j.bucket k ks _ _ (record j { status = running })
          (row_started sv job_id "" t x j found) c f)
