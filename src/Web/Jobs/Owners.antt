-- ===== src/Web/Jobs/Owners.antt =====
-- The requests on import jobs, and the jobs of the users who did not send them.
use connect_manager.Db.Order.{order_by_desc, window}
use connect_manager.Prelude.{
  ℕ, ◌≡◌, ◌≢◌, refl, ap, ◌∙◌, String, Bool, List, [], ◌∷◌, Option, none, some, arith, ◌||◌, str_eq,
  All, inl, inr, Bool-cases,
}
use connect_manager.Db.Table.{Result, ok, err, missing_sessionmaker, select, owned_by}
use connect_manager.Db.Table.Laws.{select-insert_skip, owned_by_iff, Ensures, Ensures-bind}
use connect_manager.Db.Rows.{Uuid, Job}
use connect_manager.Jobs.{JobTable, create_job, list_for_user}
use connect_manager.Jobs.Scoping.{jobs_of, scoped_to_user}
use connect_manager.JobQueue
use connect_manager.JobQueue.{JobQueue, begin, parse_user, add_job}
use connect_manager.Credentials.Datastores.{Entry}
use connect_manager.Sessions.{Dict, UserSession, get_datastore_by_id}
use connect_manager.Web.{Request, World, Env, parse_uid, state_of, with_uid, with_hydrated}
use connect_manager.Web.Keeps.{with_session-keeps, with_uid-keeps, with_hydrated-keeps}
use connect_manager.Web.Jobs.{
  Page, list_jobs, cancel_job, delete_job, clear_jobs, import_folder, queued_import, after_cancel,
  job_list, cancelled_in, deleted, cleared, listed_with, import_for, after_add,
}

-- The requests on import jobs, with the arguments of each.
pub data JobRequest : Type 0 where
  list_all clear_finished : JobRequest
  cancel_one delete_one : (job_id : ℕ) → JobRequest
  import_under : (prefix datastore_id : String) → JobRequest

unfoldable pub handle : Env → Request → JobRequest → World → Result Page × World
unfolding list_jobs cancel_job delete_job clear_jobs import_folder
handle e r list_all w = list_jobs e r w
handle e r clear_finished w = clear_jobs e r w
handle e r (cancel_one job_id) w = cancel_job e job_id r w
handle e r (delete_one job_id) w = delete_job e job_id r w
handle e r (import_under prefix datastore_id) w = import_folder e prefix datastore_id r w

-- A sequence of requests.
unfoldable pub handle_all : List (Env × Request × JobRequest) → World → World
unfolding handle
handle_all [] w = w
handle_all ((e, r, q) ∷ rest) w = handle_all rest (handle e r q w).1

-- The request is not one of the user's.
abbrev pub IsOther : Option Uuid → Env × Request × JobRequest → Type 0
IsOther v (e, r, q) = parse_uid e r ≢ ok v

parsed-apart :
    (v : Option Uuid) (e : Env) (r : Request) (uid : Option Uuid)
    → parse_uid e r ≢ ok v
    → parse_uid e r ≡ ok uid
    → uid ≢ v
parsed-apart v e r uid h p k = h (p ∙ ap ok k)

jobs_of-create_job :
    (v u : Option Uuid) (now : ℕ) (b p f d : String) (t : JobTable)
    → u ≢ v
    → jobs_of v (create_job now u b p f d t).0 ≡ jobs_of v t
unfolding create_job select
jobs_of-create_job v u now b p f d t h =
    select-insert_skip (λ j. owned_by v j.user_id) t.rows _ (ground (arith, h, owned_by_iff v u))

module _ (v : Option Uuid) (parse_uuid : String → Option Uuid) (user_id : Option String) where
  module _ (other : parse_user parse_uuid user_id ≢ ok v) where
    begin-apart : (q : JobQueue) (u : Option Uuid) → begin parse_uuid user_id q ≡ ok u → u ≢ v
    unfolding begin
    begin-apart q u e k = elim (Bool-cases q.has_sessionmaker) [
      | inl b ↦ other ((rw b at e) ∙ ap ok k)
      | inr b ↦ absurd (not_ok (rw b at e))
    ]
      where
        not_ok : err missing_sessionmaker ≢ ok u
        not_ok h = cc

    cancel_job-Ensures :
        (job_id : ℕ) (q : JobQueue) (t : JobTable)
        → Ensures
            (λ p. jobs_of v p.0 ≡ jobs_of v t)
            (JobQueue.cancel_job parse_uuid job_id user_id q t)
    unfolding JobQueue.cancel_job
    cancel_job-Ensures job_id q t =
        Ensures-bind (λ p. jobs_of v p.0 ≡ jobs_of v t) (begin parse_uuid user_id q) _
          λ u m. (scoped_to_user u v (begin-apart q u m) job_id t).0

    add_job-Ensures :
        (now : ℕ) (b p f d : String) (q : JobQueue) (t : JobTable)
        → Ensures (λ x. jobs_of v x.1.1 ≡ jobs_of v t) (add_job parse_uuid now b p f d user_id q t)
    unfolding add_job
    add_job-Ensures now b p f d q t =
        Ensures-bind (λ x. jobs_of v x.1.1 ≡ jobs_of v t) (begin parse_uuid user_id q) _
          λ u m. jobs_of-create_job v u now b p f d t (begin-apart q u m)

module _ (v : Option Uuid) (t : JobTable) where
  Same : World → Type 0
  Same w = jobs_of v w.jobs ≡ jobs_of v t

  quiet : (w : World) (d : Dict UserSession) → Same w → Same (record w { sessions = d })
  unfolding Same
  quiet w d h = h

  after_cancel-Same :
      (e : Env) (r : Request) (w : World) (o : Result (JobTable × Bool))
      → Ensures (λ p. jobs_of v p.0 ≡ jobs_of v w.jobs) o
      → Same w
      → Same (after_cancel e r w o).1
  unfolding Same
  after_cancel-Same e r w (err x) h k = k
  after_cancel-Same e r w (ok p) h k = h ∙ k

  after_add-Same :
      (e : Env) (prefix : String) (r : Request) (w : World)
      → (o : Result (ℕ × (JobQueue × JobTable)))
      → Ensures (λ x. jobs_of v x.1.1 ≡ jobs_of v w.jobs) o
      → Same w
      → Same (after_add e prefix r w o).1
  unfolding Same
  after_add-Same e prefix r w (err x) h k = k
  after_add-Same e prefix r w (ok x) h k = h ∙ k

  listed_with-Same :
      (e : Env) (r : Request) (f : Option Uuid → JobTable → JobTable) (uid : Option Uuid)
      (w : World)
      → jobs_of v (f uid w.jobs) ≡ jobs_of v w.jobs
      → Same w
      → Same (listed_with e r f uid w).1
  unfolding Same listed_with
  listed_with-Same e r f uid w h k = h ∙ k

  module _ (e : Env) (r : Request) (other : parse_uid e r ≢ ok v) where
    queued-Same :
        (prefix datastore_id : String) (cred : Option Entry) (w : World)
        → Same w
        → Same (queued_import e prefix datastore_id r cred w).1
    unfolding queued_import
    queued-Same prefix datastore_id none w q = q
    queued-Same prefix datastore_id (some cred) w q =
        elim (Bool-cases (str_eq cred.filespace_id "" || str_eq datastore_id "")) [
          | inl a ↦ rw (a, queued_import) q
          | inr a ↦
              rw (a, queued_import)
                (elim (Bool-cases (str_eq cred.bucket_name "")) [
                  | inl b ↦ rw b q
                  | inr b ↦ rw b (
                      after_add-Same e prefix r w _
                        (add_job-Ensures v e.parse_uuid r.user_id other e.now cred.bucket_name
                          prefix cred.filespace_id datastore_id w.queue w.jobs)
                        q)
                ])
        ]

    handle-Same : (q : JobRequest) (w : World) → Same w → Same (handle e r q w).1
    unfolding handle list_jobs cancel_job delete_job clear_jobs import_folder cancelled_in
    handle-Same list_all w h =
        with_session-keeps {P = Page} Same quiet e r (λ u w'. (job_list e r w', w')) (λ u w' k. k) w
          h
    handle-Same clear_finished w h =
        with_session-keeps {P = Page} Same quiet e r (λ u. with_uid e r (listed_with e r cleared))
          (λ u. with_uid-keeps {P = Page} Same quiet e r (listed_with e r cleared) λ uid w' m k.
            listed_with-Same e r cleared uid w'
              (scoped_to_user uid v (parsed-apart v e r uid other m) 0 w'.jobs).2 k)
          w h
    handle-Same (cancel_one job_id) w h =
        with_session-keeps {P = Page} Same quiet e r (cancelled_in e job_id r)
          (λ u w'.
            after_cancel-Same e r w' _
              (cancel_job-Ensures v e.parse_uuid r.user_id other job_id w'.queue w'.jobs))
          w h
    handle-Same (delete_one job_id) w h =
        with_session-keeps {P = Page} Same quiet e r
          (λ u. with_uid e r (listed_with e r (deleted job_id)))
          (λ u.
            with_uid-keeps {P = Page} Same quiet e r (listed_with e r (deleted job_id))
              λ uid w' m k.
                listed_with-Same e r (deleted job_id) uid w'
                  (scoped_to_user uid v (parsed-apart v e r uid other m) job_id w'.jobs).1 k)
          w h
    handle-Same (import_under prefix datastore_id) w h =
        with_session-keeps {P = Page} Same quiet e r
          (λ u. with_uid e r λ uid. with_hydrated e r u uid (import_for e prefix datastore_id r u))
          (λ u.
            with_uid-keeps {P = Page} Same quiet e r
              (λ uid. with_hydrated e r u uid (import_for e prefix datastore_id r u))
              λ uid w' m.
                with_hydrated-keeps {P = Page} Same quiet e r u uid
                  (import_for e prefix datastore_id r u)
                  (λ w''.
                    queued-Same prefix datastore_id
                      (get_datastore_by_id datastore_id (state_of u w'')) w'')
                  w')
          w h

handle_all-Same :
    (v : Option Uuid) (rs : List (Env × Request × JobRequest)) (w : World)
    → All (IsOther v) rs
    → jobs_of v (handle_all rs w).jobs ≡ jobs_of v w.jobs
unfolding handle_all Same
handle_all-Same v [] w h = refl
handle_all-Same v ((e, r, q) ∷ rest) w h =
    handle_all-Same v rest _ h.1 ∙ handle-Same v w.jobs e r h.0 q w refl

-- Whatever job requests the others send, a user's list of jobs stays as it was.
pub list_for_user-handle_all :
    (v : Option Uuid) (limit offset : ℕ) (rs : List (Env × Request × JobRequest)) (w : World)
    → All (IsOther v) rs
    → list_for_user v limit offset (handle_all rs w).jobs ≡ list_for_user v limit offset w.jobs
unfolding list_for_user
list_for_user-handle_all v limit offset rs w h =
    ap (λ js. window limit offset (order_by_desc (λ (j : Job). j.created_at) js))
      (handle_all-Same v rs w h)
