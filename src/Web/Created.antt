-- ===== src/Web/Created.antt =====
-- app/main.py: the handlers that create, show and delete data stores of the LucidLink API.
use connect_manager.Text.Format.{◌<>◌}
use connect_manager.Prelude.{
  ℕ, String, Bool, true, false, List, [], ◌∷◌, Option, none, some, str_eq, or_else, ◌==◌,
  if◌then◌else◌,
}
use connect_manager.Db.Table.{Fault, Result, ok, err, key_error, value_error, ◌>>=◌}
use connect_manager.Db.Rows.{Uuid}
use connect_manager.Notifications.Values.{Json, str, bool, obj, nil, get}
use connect_manager.LucidLink.{new_client}
use connect_manager.LucidLink.Datastores.{
  Answered, value, message, get_datastore, delete_datastore, create_s3_datastore,
}
use connect_manager.ActivityLog.Actions.{app_datastore_created, app_datastore_deleted}
use connect_manager.Sessions.{find_in, removed, UserSession, S3Keys}
use connect_manager.Storage.{S3, head_bucket}
use connect_manager.Web.{
  Request, World, Env, state_of, set_state, say, note, http, with_session, with_uid,
}
use connect_manager.Web.Stores.{
  Row, Page, datastore_list, info_error, info_page, create_error, create_success, rows_of,
  store_with_id, selected_id, nonempty,
}
use connect_manager.Web.Datastores.{stores_listed, take_stores, emptied}
use connect_manager.Web.Credentials.{Form, cached, form_saved, credentials_deleted}

-- `result.get(key, default)` of the handler's page, which raises where the answer is no dict.
unfoldable pub info_of : String → String → Json → Result Page
unfolding get
info_of datastore_id name v = do
  params ← get v "s3StorageParams" (obj nil)
  shown_name ← get v "name" (str name)
  id ← get v "id" (str datastore_id)
  kind ← get v "kind" (str "Unknown")
  bucket ← get params "bucketName" (str "")
  region ← get params "region" (str "")
  endpoint ← get params "endpoint" (str "")
  virtual ← get params "useVirtualAddressing" (bool false)
  expiration ← get params "urlExpirationMinutes" (str "")
  ok (info_page shown_name id kind bucket region endpoint virtual expiration)

-- The store that the session has under the id, with the id of the selected filespace; an empty id counts
-- as none.
unfoldable pub located : String → UserSession → Option (String × String)
unfolding store_with_id
located datastore_id s = elim (store_with_id datastore_id s.datastores) [
  | none ↦ none
  | some (name, ds) ↦ let id = selected_id s in if str_eq id "" then none else some (name, id)
]

-- What is created: the name, the form with an id that is not known yet, and two choices.
pub record Creation : Type 0 where
  pub name : String
  pub bucket : String
  pub access_key : String
  pub secret_key : String
  pub region : String
  pub endpoint : Option String
  pub use_virtual_addressing : Option String
  pub url_expiration_minutes : Option ℕ

abbrev pub virtual_of : Option String → Bool
virtual_of none = true
virtual_of (some s) = if str_eq s "" then true else str_eq s "true"

-- `minutes or 10080`
abbrev pub minutes_of : Option ℕ → ℕ
minutes_of none = 10080
minutes_of (some n) = if n == 0 then 10080 else n

abbrev pub form_of : Creation → String → String → String → Form
form_of c id filespace_id filespace_name = record {
  datastore_id = id;
  entry = record {
    datastore_name = c.name;
    filespace_id = filespace_id;
    filespace_name = filespace_name;
    bucket_name = c.bucket;
    region = some c.region;
    endpoint = c.endpoint;
  };
  access_key = c.access_key;
  secret_key = c.secret_key;
}

-- The id in the last row that has the name.
unfoldable pub id_of_name : String → List Row → Option String
id_of_name name [] = none
id_of_name name (row ∷ rows) = elim (id_of_name name rows) [
  | some id ↦ some id
  | none ↦ if str_eq row.name name then some row.id else none
]

module _ (e : Env) where
  abbrev pub info_result : World → Result Page → Result Page × World
  info_result w o = (o, w)

  abbrev pub info_answer : String → String → Answered → Result Page
  info_answer datastore_id name (message m) = ok (info_error m)
  info_answer datastore_id name (value v) = info_of datastore_id name v

  unfoldable pub info_located :
      String → String → World → Option (String × String) → Result Page × World
  unfolding info_of get_datastore
  info_located datastore_id u w none = (ok (info_error "DataStore or filespace not found"), w)
  info_located datastore_id u w (some (name, filespace_id)) =
      let s = state_of u w in
      let (answer, sent) =
        get_datastore (http e) (new_client e.ll_host s.api_host) s.token filespace_id datastore_id
          s.api_host w.requests in
      (info_answer datastore_id name answer, record w { requests = sent })

  unfoldable pub datastore_info : (datastore_id : String) → Request → World → Result Page × World
  unfolding with_session located info_located
  datastore_info datastore_id r w =
      with_session e r
        (λ u w'. info_located datastore_id u w' (located datastore_id (state_of u w'))) w

  -- The list view at the end, with the error or the success.
  abbrev pub final_list :
      Option String → Option String → World → Result (List Row) → Result Page × World
  final_list error success w (err x) = (err x, w)
  final_list error success w (ok rows) = (ok (datastore_list rows error success), w)

  abbrev pub without_store : String → UserSession → UserSession
  without_store name s = record s { datastores = removed name s.datastores }

  -- What follows a deletion that the API has confirmed, and one that it has not.
  abbrev pub store_gone : String → String → World → World
  store_gone name u w =
      let w' = say e u ("Deleted DataStore: " <> name) w in
      set_state u (without_store name (state_of u w')) w'

  unfoldable pub store_removed :
      String → String → String → Request → Option Uuid → World → Result Page × World
  unfolding credentials_deleted rows_of
  store_removed datastore_id name u r uid w =
      let w' =
        note e (app_datastore_deleted r.user_id name none)
          (credentials_deleted e datastore_id u uid w) in
      final_list none (some ("DataStore '" <> name <> "' deleted")) w'
        (rows_of (state_of u w').datastores uid w'.datastores)

  abbrev pub store_kept : String → String → Option Uuid → World → Result Page × World
  store_kept result u uid w =
      final_list (some result) none w (rows_of (state_of u w).datastores uid w.datastores)

  abbrev pub after_deletion :
      String → String → String → Request → String × World → Result Page × World
  after_deletion datastore_id name u r (result, w) = elim (str_eq result "SUCCESS") [
    | true ↦ with_uid e r (store_removed datastore_id name u r) (store_gone name u w)
    | false ↦
        with_uid e r (store_kept result u) (say e u ("Error deleting DataStore: " <> result) w)
  ]

  unfoldable pub deletion_located :
      String → String → Request → World → Option (String × String) → Result Page × World
  unfolding store_removed rows_of with_uid delete_datastore
  deletion_located datastore_id u r w none =
      (ok (datastore_list [] (some "DataStore or filespace not found") none), w)
  deletion_located datastore_id u r w (some (name, filespace_id)) =
      let s = state_of u w in
      let (result, sent) =
        delete_datastore (http e) (new_client e.ll_host s.api_host) s.token filespace_id
          datastore_id s.api_host w.requests in
      after_deletion datastore_id name u r (result, record w { requests = sent })

  unfoldable pub remove_datastore : (datastore_id : String) → Request → World → Result Page × World
  unfolding with_session located deletion_located
  remove_datastore datastore_id r w =
      with_session e r
        (λ u w'. deletion_located datastore_id u r w' (located datastore_id (state_of u w'))) w

  abbrev pub refused_creation : String → String → String → World → Result Page × World
  refused_creation logged shown u w = (ok (create_error shown), say e u logged w)

  -- Only `head_bucket`'s own exceptions are ValueErrors.
  abbrev pub check_failed : Fault → String → World → Result Page × World
  check_failed (value_error m) u w =
      refused_creation ("S3 validation failed: " <> m) ("S3 access failed: " <> m) u w
  check_failed x u w =
      refused_creation ("S3 validation error: " <> e.describe x)
        ("Failed to validate S3 access: " <> e.describe x) u w

  abbrev pub credentials_added :
      Creation → String → String → Option Uuid → Option String → World → World
  credentials_added c filespace_id u uid none w = w
  credentials_added c filespace_id u uid (some id) w =
      let f = form_of c id filespace_id (state_of u w).selected_filespace in
      let w' = form_saved e f uid w in set_state u (cached e f (state_of u w')) w'

  abbrev pub known_id : Option String → Option String
  known_id none = none
  known_id (some id) = if str_eq id "" then none else some id

  abbrev pub creation_listed :
      Creation
      → String
      → String
      → Request
      → Option Uuid
      → Result (List Row) × World
      → Result Page × World
  creation_listed c filespace_id u r uid (err x, w) = (err x, w)
  creation_listed c filespace_id u r uid (ok rows, w) =
      let w' = credentials_added c filespace_id u uid (known_id (id_of_name c.name rows)) w in
      (
        ok (create_success rows ("DataStore '" <> c.name <> "' created successfully")),
        note e
            (app_datastore_created r.user_id c.name c.bucket (state_of u w').selected_filespace
              none)
            w',
      )

  -- What follows a creation that the API has confirmed.
  unfoldable pub store_added : Creation → String → String → Request → World → Result Page × World
  unfolding take_stores with_uid id_of_name
  store_added c filespace_id u r w =
      let (found, w') =
        stores_listed e filespace_id u (say e u ("DataStore '" <> c.name <> "' created") w) in
      with_uid e r
        (λ uid w''.
          creation_listed c filespace_id u r uid (take_stores e (some c.name) found uid u w''))
        (emptied e u w')

  abbrev pub after_creation :
      Creation → String → String → Request → String × World → Result Page × World
  after_creation c filespace_id u r (result, w) = elim (str_eq result "SUCCESS") [
    | true ↦ store_added c filespace_id u r w
    | false ↦ refused_creation ("Error creating datastore: " <> result) result u w
  ]

  -- `state.filespaces[state.selected_filespace]` raises where there is none.
  unfoldable pub create_in :
      Creation → String → Request → World → Option String → Result Page × World
  unfolding store_added create_s3_datastore
  create_in c u r w none = (err key_error, w)
  create_in c u r w (some filespace_id) =
      let s = state_of u w in
      let (result, sent) =
        create_s3_datastore (http e) (new_client e.ll_host s.api_host) s.token filespace_id c.name
          c.bucket c.region (or_else c.endpoint "") c.access_key c.secret_key s.api_host
          (virtual_of c.use_virtual_addressing) (minutes_of c.url_expiration_minutes) w.requests in
      after_creation c filespace_id u r (result, record w { requests = sent })

  abbrev pub after_check :
      Creation → String → Request → World → Result (Unit {0}) → Result Page × World
  after_check c u r w (err x) = check_failed x u w
  after_check c u r w (ok t) =
      let w' = say e u ("S3 access validated for bucket '" <> c.bucket <> "'") w in
      let s = state_of u w' in create_in c u r w' (find_in s.selected_filespace s.filespaces)

  unfoldable pub create_datastore : (S3Keys → S3) → Creation → Request → World → Result Page × World
  unfolding with_session create_in head_bucket
  create_datastore connect_to c r w =
      with_session e r
        (λ u w'. after_check c u r w' (
          head_bucket
            (connect_to (record {
              access_key = c.access_key;
              secret_key = c.secret_key;
              region = c.region;
              endpoint = nonempty c.endpoint;
            }))
            c.bucket))
        w
