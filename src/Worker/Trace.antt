-- ===== src/Worker/Trace.antt =====
-- Which files a job imports: the calls of `import_file`, recorded beside the services' own state.
use connect_manager.Prelude.{
  ℕ, zero, suc, ◌+◌, ◌≤◌, ◌≡◌, refl, sym, ap, ◌∙◌, String, List, [], ◌∷◌, ◌++◌, length, take, drop,
  map, arith, length-take, length-drop, inl, inr, Bool-cases,
}
use Prim.Native.Nat.add
use mathlib.Core.List.{append_assoc, append-nil, map-append}
use connect_manager.Worker.{
  Services, World, Progress, batch_size, run_batch, import_batches, advance, read_job, is_cancelled,
  ll_path,
}
use connect_manager.Worker.Batches.{
  handled, handled-run_batch, remote-read_job, remote-write_job, import_batches_stop,
  import_batches_go,
}

abbrev pub Calls : Type 0
Calls = List (String × String)

-- The same services, with each call of `import_file` recorded.
abbrev pub recording : {X : Type 0} → Services X → Services (X × Calls)
recording sv = record {
  load_ll_token = sv.load_ll_token;
  legacy_token = sv.legacy_token;
  get_datastore_credentials = sv.get_datastore_credentials;
  get_api_host = sv.get_api_host;
  configure =
      λ token filespace datastore host s. (sv.configure token filespace datastore host s.0, s.1);
  list_all_objects = sv.list_all_objects;
  ensure_structure = λ path s. let (r, x) = sv.ensure_structure path s.0 in (r, (x, s.1));
  import_file =
      λ key path s. let (a, x) = sv.import_file key path s.0 in (a, (x, s.1 ++ (key, path) ∷ []));
  describe = sv.describe;
}

take-append_more {ℓ} :
    {A : Type ℓ} (n m : ℕ) (xs : List A)
    → take (length (take n xs) + m) xs ≡ take n xs ++ take m (drop n xs)
take-append_more zero m xs = rw add.zero
take-append_more (suc n) zero [] = refl
take-append_more (suc n) (suc m) [] = rw add.zero
take-append_more (suc n) m (x ∷ xs) = rw add.suc (ap (λ ys. x ∷ ys) (take-append_more n m xs))

module _ {X : Type 0} (sv : Services X) (job_id : ℕ) (bucket : String) where
  abbrev pub call : String → String × String
  call key = (key, ll_path bucket key)

  calls-run_batch :
      (ks : List String) (p : Progress) (x : X × Calls)
      → (run_batch (recording sv) bucket ks p x).1.1 ≡ x.1 ++ map call ks
  unfolding run_batch
  calls-run_batch [] p x = sym (append-nil x.1)
  calls-run_batch (k ∷ ks) p x =
      calls-run_batch ks _ _ ∙ append_assoc x.1 (call k ∷ []) (map call ks)

  calls-advance :
      (ks : List String) (p : Progress) (w : World (X × Calls))
      → (advance (recording sv) job_id bucket ks p w).1.remote.1
        ≡ w.remote.1 ++ map call (take batch_size ks)
  unfolding advance
  calls-advance ks p w =
      ap (λ (x : X × Calls). x.1) (remote-write_job job_id _ _ _)
      ∙ calls-run_batch (take batch_size ks) p w.remote

  handled-advance :
      (ks : List String) (p : Progress) (w : World (X × Calls))
      → handled (advance (recording sv) job_id bucket ks p w).0
        ≡ handled p + length (take batch_size ks)
  unfolding advance
  handled-advance ks p w =
      handled-run_batch (recording sv) job_id bucket (take batch_size ks) p w.remote

  -- `r` is what the loop leaves of the progress `p` and the world `w`: it has counted some number
  -- of the keys, and it is the first that many keys, in order and once each, that it imported.
  pub record Imported (keys : List String) (p : Progress) (w : World (X × Calls))
      (r : Progress × World (X × Calls)) : Type 0 where
    pub number : ℕ
    pub within : number ≤ length keys
    pub counted : handled r.0 ≡ handled p + number
    pub calls : r.1.remote.1 ≡ w.remote.1 ++ map call (take number keys)

  Imported-none :
      (keys : List String) (p : Progress) (w w' : World (X × Calls))
      → w'.remote ≡ w.remote
      → Imported keys p w (p, w')
  Imported-none keys p w w' same = record {
    number = 0;
    within = omega arith;
    counted = omega arith;
    calls = ap (λ (x : X × Calls). x.1) same ∙ sym (append-nil _);
  }

  Imported-advance :
      (keys : List String) (p : Progress) (w w₁ : World (X × Calls))
      (r : Progress × World (X × Calls))
      → w₁.remote ≡ w.remote
      → (let s = advance (recording sv) job_id bucket keys p w₁ in
          Imported (drop batch_size keys) s.0 s.1 r)
      → Imported keys p w r
  Imported-advance keys p w w₁ r same h =
      let batch = take batch_size keys in
      let later = take h.number (drop batch_size keys) in
      record {
        number = length batch + h.number;
        within = omega (arith, length-take batch_size keys, length-drop batch_size keys);
        counted = omega (arith, handled-advance keys p w₁);
        calls =
            h.calls
            ∙ ap (λ (c : Calls). c ++ map call later)
                (calls-advance keys p w₁ ∙ ap (λ (x : X × Calls). x.1 ++ map call batch) same)
            ∙ append_assoc w.remote.1 (map call batch) (map call later)
            ∙ ap (λ (c : Calls). w.remote.1 ++ c)
                (sym (map-append call batch later)
                  ∙ ap (map call) (sym (take-append_more batch_size h.number keys)));
      }

  -- From any state, and whatever other tasks commit meanwhile, the loop imports an initial part of
  -- the keys: in order, each once, and as many as it counts.
  pub import_batches-Imported :
      (fuel : ℕ) (keys : List String) (p : Progress) (w : World (X × Calls))
      → Imported keys p w (import_batches (recording sv) fuel job_id bucket keys p w)
  import_batches-Imported zero keys p w = unfold import_batches in Imported-none keys p w w refl
  import_batches-Imported (suc fuel) [] p w = unfold import_batches in Imported-none [] p w w refl
  import_batches-Imported (suc fuel) (k ∷ ks) p w =
      let w₁ = (read_job job_id w).1 in
      elim (Bool-cases (is_cancelled (read_job job_id w).0)) [
        | inl e ↦
            rw (import_batches_stop (recording sv) job_id bucket fuel k ks p w e)
              (Imported-none (k ∷ ks) p w w₁ (remote-read_job job_id w))
        | inr e ↦ rw (import_batches_go (recording sv) job_id bucket fuel k ks p w e) (
            Imported-advance (k ∷ ks) p w w₁ _ (remote-read_job job_id w)
              (import_batches-Imported fuel (drop batch_size (k ∷ ks)) _ _))
      ]
