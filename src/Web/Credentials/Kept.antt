-- ===== src/Web/Credentials/Kept.antt =====
-- What browsing and the import jobs find after the credentials of a data store were saved or removed.
use connect_manager.Text.Format.{◌<>◌}
use connect_manager.Prelude.{
  ◌≤◌, ◌≡◌, ◌≢◌, refl, ap, ◌∙◌, String, false, [], ◌∷◌, Option, some, str_eq, eq_refl, inl, inr,
  Bool-cases,
}
use connect_manager.Db.Table.{ok, count}
use connect_manager.Db.Rows.{Uuid}
use connect_manager.Credentials.Datastores.{
  Entry, is_datastore_of, list_for_user, get_datastore_credentials,
}
use connect_manager.Credentials.Datastores.Saved.{Returned, get-save_datastore_credentials}
use connect_manager.Sessions
use connect_manager.Sessions.{
  Dict, find_in, put, UserSession, S3Keys, get_datastore_by_id, get_s3_service_for_datastore,
}
use connect_manager.Storage.{S3, reply, head_bucket}
use connect_manager.Web.{
  Request, World, Env, after_parse, parse_uid, state_of, set_state, say, opened, with_uid,
}
use connect_manager.Web.Keeps.{with_session_open}
use connect_manager.Web.Stores.{Page, service_keys}
use connect_manager.Web.Credentials.{
  Form, cached, form_saved, active, credentials_saved, save_credentials,
}

pub find-put_same : {V : Type 0} (k : String) (v : V) (d : Dict V) → find_in k (put k v d) ≡ some v
find-put_same k v [] = rw (eq_refl k) refl
find-put_same k v ((j, w) ∷ d) = elim (Bool-cases (str_eq j k)) [
  | inl e ↦ rw e (rw e refl)
  | inr e ↦ rw e (rw e (find-put_same k v d))
]

pub state-set : (u : String) (s : UserSession) (w : World) → state_of u (set_state u s w) ≡ s
state-set u s w = rw (find-put_same u s w.sessions) refl

-- The caches of a session.
abbrev pub caches : UserSession → Dict Entry × Dict S3Keys
caches s = (s.datastore_credentials, s.s3_services)

pub caches-say :
    (e : Env) (u message : String) (w : World)
    → caches (state_of u (say e u message w)) ≡ caches (state_of u w)
unfolding Sessions.log
caches-say e u message w =
    ap caches (state-set u (Sessions.log e.timestamp message (state_of u w)) w)

caches-active :
    (e : Env) (name u : String) (w : World)
    → caches (state_of u (active e name u w)) ≡ caches (state_of u w)
caches-active e name u w =
    ap caches (state-set u (record (state_of u w) { selected_datastore = name }) w)

module _ (connect_to : S3Keys → S3) (e : Env) (f : Form) (r : Request) (w : World) where
  abbrev pub form_keys : S3Keys
  form_keys = service_keys f.access_key f.secret_key f.entry.region f.entry.endpoint

  save_credentials-eq :
      (u : String) (uid : Option Uuid)
      → r.user_id ≡ some u
      → str_eq u "" ≡ false
      → parse_uid e r ≡ ok uid
      → (connect_to form_keys).head_bucket f.entry.bucket_name ≡ reply tt
      → save_credentials e connect_to f r w ≡ credentials_saved e f u uid (opened e u w) (ok tt)
  unfolding save_credentials with_uid head_bucket
  save_credentials-eq u uid m b p h =
      with_session_open {P = Page} e r
        (λ v. with_uid e r λ id w'.
          credentials_saved e f v id w' (head_bucket (connect_to form_keys) f.entry.bucket_name))
        w u m b
      ∙ rw (p, after_parse, head_bucket, h) refl

  caches_after :
      (u : String) (uid : Option Uuid) (w' : World)
      → caches (state_of u (credentials_saved e f u uid w' (ok tt)).1)
        ≡ caches (cached e f (state_of u (form_saved e f uid w')))
  unfolding credentials_saved
  caches_after u uid w' =
      let stored = form_saved e f uid w' in
      let filled = set_state u (cached e f (state_of u stored)) stored in
      caches-say e u ("Saved DataStore '" <> f.entry.datastore_name <> "' for browsing")
        (active e f.entry.datastore_name u filled)
      ∙ caches-active e f.entry.datastore_name u filled
      ∙ ap caches (state-set u (cached e f (state_of u stored)) stored)

  -- Credentials that open the bucket are read back from the table as they were entered, and browsing
  -- finds the data store and an S3 service with the key pair; the rows of other users stay.
  pub save_credentials-stored :
      (u : String) (uid : Uuid) (v : Option Uuid)
      → r.user_id ≡ some u
      → str_eq u "" ≡ false
      → parse_uid e r ≡ ok (some uid)
      → (connect_to form_keys).head_bucket f.entry.bucket_name ≡ reply tt
      → count (is_datastore_of f.datastore_id (some uid)) w.datastores.rows ≤ 1
      → some uid ≢ v
      → let w' = (save_credentials e connect_to f r w).1 in
        Returned f.datastore_id
          (some uid)
          f.entry
          f.access_key
          f.secret_key
          (get_datastore_credentials e.fernet f.datastore_id (some uid) w'.datastores)
        × (get_datastore_by_id f.datastore_id (state_of u w') ≡ some f.entry)
        × (get_s3_service_for_datastore f.datastore_id (state_of u w') ≡ some form_keys)
        × (list_for_user v w'.datastores ≡ list_for_user v w.datastores)
  unfolding credentials_saved get_datastore_by_id get_s3_service_for_datastore
  save_credentials-stored u uid v m b p h once other =
      let stored =
        get-save_datastore_credentials e.fernet e.now e.nonce f.datastore_id f.entry f.access_key
          f.secret_key uid v w.datastores once other in
      let old = state_of u (form_saved e f (some uid) (opened e u w)) in
      let kept = caches_after u (some uid) (opened e u w) in
      rw (save_credentials-eq u (some uid) m b p h) (
        stored.0,
        ap (λ c. find_in f.datastore_id c.0) kept
            ∙ find-put_same f.datastore_id f.entry old.datastore_credentials,
        ap (λ c. find_in f.datastore_id c.1) kept
            ∙ find-put_same f.datastore_id form_keys old.s3_services,
        stored.1,
      )
