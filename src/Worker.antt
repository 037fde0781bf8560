-- ===== src/Worker.antt =====
-- app/services/worker.py: `import_job`. Its database sessions are transactions on the job table,
-- and between two of them other tasks commit statements of their own.
pub mod Batches
pub mod Trace
pub mod Outcome
pub mod Cancel
pub mod Quiet
mod Tests
use connect_manager.Prelude.{
  ℕ, zero, suc, ◌+◌, String, Bool, true, false, ◌&&◌, ◌||◌, List, [], ◌∷◌, Option, none, some,
  length, take, drop, str_eq, or_else, ◌==◌, if◌then◌else◌,
}
use connect_manager.Db.Table.{Fault, Result, ok, err, missing_token, missing_datastore, ◌>>=◌}
use connect_manager.Db.Rows.{Uuid, Job, JobStatus, running, completed, failed, cancelled}
use connect_manager.Jobs.{
  JobTable, JobOp, Field, total_files, completed_files, failed_files, error_message, get_job,
  update_status, apply_all,
}
use connect_manager.Processed.{truthy, text_or}
use connect_manager.Text.{codes, lower, contains, dirname, joined, add_to_set, sorted_by_len}

-- What `asyncio.gather` returns for one call of `import_file`.
pub data Answer : Type 0 where
  answer : (status_code : ℕ) → (error_msg : String) → Answer
  exception : String → Answer

pub record DatastoreKeys : Type 0 where
  pub access_key : String
  pub secret_key : String
  pub endpoint : Option String
  pub region : Option String

-- The services that a job calls: S3, the LucidLink client with its state `X`, and the credential
-- helpers. `describe` is `str(e)`.
pub record Services (X : Type 0) : Type 0 where
  pub load_ll_token : Uuid → Result (Option String)
  pub legacy_token : Option Uuid → Option String
  pub get_datastore_credentials : String → Option Uuid → Result (Option DatastoreKeys)
  pub get_api_host : Option Uuid → Result (Option String)
  pub configure : String → String → String → String → X → X
  pub list_all_objects : DatastoreKeys → String → String → Result (List String)
  pub ensure_structure : String → X → (Bool × String) × X
  pub import_file : String → String → X → Answer × X
  pub describe : Fault → String

pub record World (X : Type 0) : Type 0 where
  pub jobs : JobTable
  -- What other tasks commit before each next transaction of this one.
  pub others : List (List JobOp)
  pub remote : X

-- The dict that the task returns.
pub data Summary : Type 0 where
  not_found no_files cancelled_before : Summary
  cancelled_during : (completed failed : ℕ) → Summary
  done : (completed failed new skipped : ℕ) → Summary
  failed_with : String → Summary

pub record Progress : Type 0 where
  pub completed : ℕ
  pub failed : ℕ
  pub total_new : ℕ
  pub total_skipped : ℕ

abbrev pub no_progress : Progress
no_progress = record { completed = 0; failed = 0; total_new = 0; total_skipped = 0 }

abbrev pub batch_size : ℕ
batch_size = 25

pub data Kind : Type 0 where
  fresh skip fail : Kind

unfoldable pub classify : Answer → Kind
unfolding contains lower
classify (exception e) = fail
classify (answer code msg) =
    if code == 200 || code == 201
    then fresh
    else if code == 409
    then skip
    else if code == 400 && contains (codes "already exists") (lower (codes msg))
    then skip
    else fail

abbrev pub tally : Kind → Progress → Progress
tally fresh p = record p { completed = suc p.completed; total_new = suc p.total_new }
tally skip p = record p { completed = suc p.completed; total_skipped = suc p.total_skipped }
tally fail p = record p { failed = suc p.failed }

abbrev pub is_cancelled : Option Job → Bool
is_cancelled none = false
is_cancelled (some j) = elim j.status [ cancelled ↦ true | _ ↦ false ]

module _ {X : Type 0} where
  -- A new transaction sees what the other tasks have committed.
  unfoldable pub begin : World X → World X
  begin w = elim w.others [
    | [] ↦ w
    | ops ∷ rest ↦ record w { jobs = apply_all ops w.jobs; others = rest }
  ]

  unfoldable pub read_job : ℕ → World X → Option Job × World X
  read_job job_id w = let w' = begin w in (get_job job_id w'.jobs, w')

  unfoldable pub write_job : ℕ → JobStatus → List Field → World X → World X
  write_job job_id status fields w =
      let w' = begin w in record w' { jobs = (update_status job_id status fields w'.jobs).0 }

-- The folders to create: the bucket and the directory of each key.
unfoldable pub add_dirs : String → List String → List String → List String
unfolding dirname add_to_set
add_dirs bucket dirs [] = dirs
add_dirs bucket dirs (k ∷ ks) =
    let d = dirname k in
    add_dirs bucket (if str_eq d "" then dirs else add_to_set dirs (joined bucket d)) ks

unfoldable pub sorted_dirs : String → List String → List String
unfolding add_dirs sorted_by_len
sorted_dirs bucket keys = sorted_by_len (add_dirs bucket (bucket ∷ []) keys)

abbrev pub ll_path : String → String → String
ll_path bucket key = joined "" (joined bucket key)

-- What must be in place before the import starts.
pub record Setup : Type 0 where
  pub token : String
  pub api_host : String
  pub datastore : DatastoreKeys

module _ {X : Type 0} (sv : Services X) where
  unfoldable pub create_dirs : List String → X → X
  create_dirs [] x = x
  create_dirs (d ∷ ds) x = create_dirs ds (sv.ensure_structure (joined d "dummy_file") x).1

  -- One batch: every answer counts once.
  unfoldable pub run_batch : String → List String → Progress → X → Progress × X
  unfolding classify
  run_batch bucket [] p x = (p, x)
  run_batch bucket (k ∷ ks) p x =
      let (a, x') = sv.import_file k (ll_path bucket k) x in
      run_batch bucket ks (tally (classify a) p) x'

  -- The rest of one round, after its check: the batch, and the write of the counts.
  unfoldable pub advance : ℕ → String → List String → Progress → World X → Progress × World X
  advance job_id bucket keys p w =
      let (p', x) = run_batch bucket (take batch_size keys) p w.remote in
      (
        p',
        write_job job_id running (completed_files p'.completed ∷ failed_files p'.failed ∷ [])
            (record w { remote = x }),
      )

  -- The loop over the batches; the fuel bounds their number.
  unfoldable pub import_batches :
      ℕ → ℕ → String → List String → Progress → World X → Progress × World X
  import_batches zero job_id bucket keys p w = (p, w)
  import_batches (suc fuel) job_id bucket [] p w = (p, w)
  import_batches (suc fuel) job_id bucket (k ∷ ks) p w =
      let (current, w₁) = read_job job_id w in
      elim (is_cancelled current) [
        | true ↦ (p, w₁)
        | false ↦
            let (p', w₂) = advance job_id bucket (k ∷ ks) p w₁ in
            import_batches fuel job_id bucket (drop batch_size (k ∷ ks)) p' w₂
      ]

  unfoldable pub finish_job : ℕ → Progress × World X → Summary × World X
  finish_job job_id (p, w) =
      let (current, w₁) = read_job job_id w in
      if is_cancelled current
      then (cancelled_during p.completed p.failed, w₁)
      else (done p.completed p.failed p.total_new p.total_skipped, write_job job_id completed [] w₁)

  unfoldable pub import_keys : ℕ → String → List String → World X → Summary × World X
  unfolding finish_job
  import_keys job_id bucket [] w = (no_files, write_job job_id completed (total_files 0 ∷ []) w)
  import_keys job_id bucket (k ∷ ks) w =
      let w₁ = write_job job_id running (total_files (length (k ∷ ks)) ∷ []) w in
      let w₂ = record w₁ { remote = create_dirs (sorted_dirs bucket (k ∷ ks)) w₁.remote } in
      let (current, w₃) = read_job job_id w₂ in
      if is_cancelled current
      then (cancelled_before, w₃)
      else finish_job job_id
          (import_batches (length (k ∷ ks)) job_id bucket (k ∷ ks) no_progress w₃)

  -- The user's token, or the one of the older store.
  unfoldable pub find_token : Option Uuid → Result String
  find_token none =
      let token = text_or none (sv.legacy_token none) in
      if truthy token then ok (or_else token "") else err missing_token
  find_token (some u) = do
    saved ← sv.load_ll_token u
    let token = text_or saved (sv.legacy_token (some u))
    if truthy token then ok (or_else token "") else err missing_token

  abbrev found_datastore : Option DatastoreKeys → Result DatastoreKeys
  found_datastore none = err missing_datastore
  found_datastore (some ds) = ok ds

  unfoldable pub set_up : Job → Result Setup
  unfolding find_token
  set_up job = do
    token ← find_token job.user_id
    found ← sv.get_datastore_credentials job.datastore_id job.user_id
    api_host ← sv.get_api_host job.user_id
    ds ← found_datastore found
    ok (record { token = token; api_host = or_else api_host ""; datastore = ds })

  -- The handler of every exception in the body.
  unfoldable pub fail_job : ℕ → Fault → World X → Summary × World X
  fail_job job_id e w = (
    failed_with (sv.describe e),
    write_job job_id failed (error_message (some (sv.describe e)) ∷ []) w,
  )

  unfoldable pub import_listed : ℕ → String → Result (List String) → World X → Summary × World X
  unfolding fail_job import_keys
  import_listed job_id bucket (err e) w = fail_job job_id e w
  import_listed job_id bucket (ok keys) w = import_keys job_id bucket keys w

  unfoldable pub run_import : Job → ℕ → Result Setup → World X → Summary × World X
  unfolding import_listed
  run_import job job_id (err e) w = fail_job job_id e w
  run_import job job_id (ok s) w =
      import_listed job_id job.bucket (sv.list_all_objects s.datastore job.bucket job.prefix)
        (record w {
          remote = sv.configure s.token job.filespace_id job.datastore_id s.api_host w.remote;
        })

  unfoldable pub start_job : ℕ → Option Job × World X → Summary × World X
  unfolding run_import
  start_job job_id (none, w) = (not_found, w)
  start_job job_id (some job, w) =
      run_import job job_id (set_up job) (write_job job_id running [] w)

  unfoldable pub import_job : ℕ → World X → Summary × World X
  unfolding start_job
  import_job job_id w = start_job job_id (read_job job_id w)
