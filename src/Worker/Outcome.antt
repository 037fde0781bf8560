-- ===== src/Worker/Outcome.antt =====
-- The summary of a job against the files that it imported.
use mathlib.Core.List.{append-nil}
use connect_manager.Prelude.{
  ℕ, ◌+◌, ◌≤◌, ◌≡◌, refl, sym, ap, ◌∙◌, String, Bool, true, false, List, [], ◌∷◌, ◌++◌, length,
  take, map, arith, inl, inr, Bool-cases, if◌then◌else◌,
}
use connect_manager.Db.Rows.{JobStatus}
use connect_manager.Worker.{
  Services, World, Progress, no_progress, Summary, cancelled_before, cancelled_during, done,
  create_dirs, import_batches, finish_job, import_keys, read_job, write_job, is_cancelled,
  total_files, sorted_dirs,
}
use connect_manager.Worker.Batches.{
  handled, IsBalanced, import_batches_inv, advance-IsBalanced, remote-read_job, remote-write_job,
}
use connect_manager.Worker.Trace.{Calls, recording, call, Imported, import_batches-Imported}

-- The files that the summary speaks of.
abbrev pub reported : Summary → ℕ
reported (cancelled_during c f) = c + f
reported (done c f n s) = c + f
reported _ = 0

-- Where the summary gives new and skipped files, they make up the completed ones.
abbrev pub AddsUp : Summary → Type 0
AddsUp (done c f n s) = n + s ≡ c
AddsUp _ = Unit

module _ {X : Type 0} (sv : Services X) (job_id : ℕ) (bucket : String) where
  calls-create_dirs : (ds : List String) (x : X × Calls) → (create_dirs (recording sv) ds x).1 ≡ x.1
  unfolding create_dirs
  calls-create_dirs [] x = refl
  calls-create_dirs (d ∷ ds) x = calls-create_dirs ds _

  -- What a summary and a world say of the keys, from the calls that had been made.
  pub record Accounts (keys : List String) (before : Calls) (r : Summary × World (X × Calls))
      : Type 0 where
    pub within : reported r.0 ≤ length keys
    pub calls : r.1.remote.1 ≡ before ++ map (call sv job_id bucket) (take (reported r.0) keys)
    pub adds_up : AddsUp r.0

  finish_job-Accounts :
      (keys : List String) (before : Calls) (p : Progress) (w : World (X × Calls))
      → IsBalanced p
      → handled p ≤ length keys
      → w.remote.1 ≡ before ++ map (call sv job_id bucket) (take (handled p) keys)
      → Accounts keys before (finish_job (recording sv) job_id (p, w))
  unfolding finish_job
  finish_job-Accounts keys before p w b h e =
      elim (Bool-cases (is_cancelled (read_job job_id w).0)) [
        | inl c ↦ rw (c, finish_job) (record { within = h; calls = read ∙ e; adds_up = tt })
        | inr c ↦
            rw (c, finish_job) (record { within = h; calls = written ∙ read ∙ e; adds_up = b })
      ]
    where
      read : (read_job job_id w).1.remote.1 ≡ w.remote.1
      read = ap (λ (x : X × Calls). x.1) (remote-read_job job_id w)

      written :
          (write_job job_id JobStatus.completed [] (read_job job_id w).1).remote.1
          ≡ (read_job job_id w).1.remote.1
      written = ap (λ (x : X × Calls). x.1) (remote-write_job job_id _ _ _)

  -- Before the loop no file is imported.
  calls-prepare :
      (keys : List String) (w : World (X × Calls))
      → (let w₁ = write_job job_id JobStatus.running (total_files (length keys) ∷ []) w in
          let w₂ : World (X × Calls) = record w₁ {
            remote = create_dirs (recording sv) (sorted_dirs bucket keys) w₁.remote;
          } in
          (read_job job_id w₂).1.remote.1)
        ≡ w.remote.1
  calls-prepare keys w =
      ap (λ (x : X × Calls). x.1) (remote-read_job job_id _)
      ∙ calls-create_dirs (sorted_dirs bucket keys) _
      ∙ ap (λ (x : X × Calls). x.1) (remote-write_job job_id w _ _)

  -- Whatever other tasks commit meanwhile: the files that the job imported are the first of its
  -- keys, in order and once each, and as many as its summary reports; new and skipped files add up
  -- to the completed ones.
  pub import_keys-Accounts :
      (keys : List String) (w : World (X × Calls))
      → Accounts keys w.remote.1 (import_keys (recording sv) job_id bucket keys w)
  unfolding import_keys
  import_keys-Accounts [] w = record {
    within = omega arith;
    calls = ap (λ (x : X × Calls). x.1) (remote-write_job job_id w _ _) ∙ sym (append-nil _);
    adds_up = tt;
  }
  import_keys-Accounts (k ∷ ks) w = either (is_cancelled (read_job job_id w₂).0)
    where
      keys : List String
      keys = k ∷ ks

      w₁ : World (X × Calls)
      w₁ = write_job job_id JobStatus.running (total_files (length keys) ∷ []) w

      w₂ : World (X × Calls)
      w₂ = record w₁ { remote = create_dirs (recording sv) (sorted_dirs bucket keys) w₁.remote }

      w₃ : World (X × Calls)
      w₃ = (read_job job_id w₂).1

      r : Progress × World (X × Calls)
      r = import_batches (recording sv) (length keys) job_id bucket keys no_progress w₃

      ran : Imported sv job_id bucket keys no_progress w₃ r
      ran = import_batches-Imported sv job_id bucket (length keys) keys no_progress w₃

      balanced : IsBalanced r.0
      balanced =
          import_batches_inv (recording sv) job_id bucket IsBalanced
            (advance-IsBalanced (recording sv) job_id bucket) (length keys) keys no_progress w₃
            (omega arith)

      number : handled r.0 ≡ ran.number
      number = omega (arith, ran.counted)

      finished : Accounts keys w.remote.1 (finish_job (recording sv) job_id r)
      finished =
          finish_job-Accounts keys w.remote.1 r.0 r.1 balanced (omega (arith, number, ran.within)) (
            ran.calls
            ∙ ap (λ (c : Calls). c ++ map (call sv job_id bucket) (take ran.number keys))
                (calls-prepare keys w)
            ∙ ap (λ n. w.remote.1 ++ map (call sv job_id bucket) (take n keys)) (sym number))

      either :
          (b : Bool)
          → Accounts keys w.remote.1
              (if b then (cancelled_before, w₃) else finish_job (recording sv) job_id r)
      either true = record {
        within = omega arith;
        calls = calls-prepare keys w ∙ sym (append-nil _);
        adds_up = tt;
      }
      either false = finished
