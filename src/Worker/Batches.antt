-- ===== src/Worker/Batches.antt =====
-- The batch loop accounts for every answer, whatever other tasks commit meanwhile.
use connect_manager.Prelude.{
  ℕ, zero, suc, ◌+◌, ◌≡◌, String, true, false, List, [], ◌∷◌, length, take, drop, arith, inl, inr,
  Bool-cases,
}
use connect_manager.Db.Rows.{JobStatus}
use connect_manager.Jobs.{Field}
use connect_manager.Worker.{
  Services, World, Progress, tally, Kind, fresh, skip, fail, classify, batch_size, run_batch,
  import_batches, advance, read_job, write_job, is_cancelled, ll_path, begin,
}

-- Files that have been counted one way or the other.
abbrev pub handled : Progress → ℕ
handled p = p.completed + p.failed

-- New and skipped files make up the completed ones.
abbrev pub IsBalanced : Progress → Type 0
IsBalanced p = p.total_new + p.total_skipped ≡ p.completed

tally-IsBalanced : (k : Kind) (p : Progress) → IsBalanced p → IsBalanced (tally k p)
tally-IsBalanced fresh p h = omega arith
tally-IsBalanced skip p h = omega arith
tally-IsBalanced fail p h = omega arith

handled-tally : (k : Kind) (p : Progress) → handled (tally k p) ≡ handled p + 1
handled-tally fresh p = omega arith
handled-tally skip p = omega arith
handled-tally fail p = omega arith

module _ {X : Type 0} (job_id : ℕ) (w : World X) where
  pub remote-read_job : (read_job job_id w).1.remote ≡ w.remote
  unfolding read_job begin
  remote-read_job = ground arith

  pub remote-write_job :
      (s : JobStatus) (fs : List Field) → (write_job job_id s fs w).remote ≡ w.remote
  unfolding write_job begin
  remote-write_job s fs = ground arith

module _ {X : Type 0} (sv : Services X) (job_id : ℕ) (bucket : String) where
  pub run_batch-IsBalanced :
      (ks : List String) (p : Progress) (x : X)
      → IsBalanced p
      → IsBalanced (run_batch sv bucket ks p x).0
  unfolding run_batch
  run_batch-IsBalanced [] p x h = h
  run_batch-IsBalanced (k ∷ ks) p x h =
      run_batch-IsBalanced ks _ _
        (tally-IsBalanced (classify (sv.import_file k (ll_path bucket k) x).0) p h)

  pub handled-run_batch :
      (ks : List String) (p : Progress) (x : X)
      → handled (run_batch sv bucket ks p x).0 ≡ handled p + length ks
  unfolding run_batch
  handled-run_batch [] p x = omega arith
  handled-run_batch (k ∷ ks) p x =
      let kind = classify (sv.import_file k (ll_path bucket k) x).0 in
      let x' = (sv.import_file k (ll_path bucket k) x).1 in
      omega (arith, handled-tally kind p, handled-run_batch ks (tally kind p) x')

  module _ (fuel : ℕ) (k : String) (ks : List String) (p : Progress) (w : World X) where
    -- A round that finds the job cancelled ends the loop.
    pub import_batches_stop :
        is_cancelled (read_job job_id w).0 ≡ true
        → import_batches sv (suc fuel) job_id bucket (k ∷ ks) p w ≡ (p, (read_job job_id w).1)
    unfolding import_batches
    import_batches_stop e = rw (e, import_batches)

    -- Any other round imports a batch and goes on with the keys after it.
    pub import_batches_go :
        is_cancelled (read_job job_id w).0 ≡ false
        → import_batches sv (suc fuel) job_id bucket (k ∷ ks) p w ≡ (
            let r = advance sv job_id bucket (k ∷ ks) p (read_job job_id w).1 in
            import_batches sv fuel job_id bucket (drop batch_size (k ∷ ks)) r.0 r.1)
    unfolding import_batches
    import_batches_go e = rw (e, import_batches)

  -- A property of the counts that every batch keeps holds at the end of the loop.
  pub import_batches_inv :
      (P : Progress → Type 0)
      → ((ks : List String) (p : Progress) (w : World X)
          → P p
          → P (advance sv job_id bucket ks p w).0)
      → (fuel : ℕ) (keys : List String) (p : Progress) (w : World X) → P p
      → P (import_batches sv fuel job_id bucket keys p w).0
  import_batches_inv P keep zero keys p w h = unfold import_batches in h
  import_batches_inv P keep (suc fuel) [] p w h = unfold import_batches in h
  import_batches_inv P keep (suc fuel) (k ∷ ks) p w h =
      elim (Bool-cases (is_cancelled (read_job job_id w).0)) [
        | inl e ↦ rw (import_batches_stop fuel k ks p w e) h
        | inr e ↦ rw (import_batches_go fuel k ks p w e) (
            import_batches_inv P keep fuel (drop batch_size (k ∷ ks)) _ _
              (keep (k ∷ ks) p (read_job job_id w).1 h))
      ]

  pub advance-IsBalanced :
      (ks : List String) (p : Progress) (w : World X)
      → IsBalanced p
      → IsBalanced (advance sv job_id bucket ks p w).0
  unfolding advance
  advance-IsBalanced ks p w h = run_batch-IsBalanced (take batch_size ks) p w.remote h
