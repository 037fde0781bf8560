-- ===== src/Web/Credentials.antt =====
-- app/main.py: connecting to a data store, its credentials, and the settings tab.
pub mod Kept
use Prim.Native.String
use connect_manager.Text.Format.{◌<>◌}
use connect_manager.Prelude.{
  ℕ, String, Bool, true, false, not, List, [], ◌∷◌, Option, none, some, str_eq, or_else, is_some,
  if◌then◌else◌,
}
use connect_manager.Db.Table.{Fault, Result, ok, err, value_error, ◌>>=◌}
use connect_manager.Db.Rows.{Uuid, DatastoreCredentials}
use connect_manager.Notifications.Values.{Json}
use connect_manager.LucidLink.{is_true}
use connect_manager.Credentials.Datastores.{
  DatastoreTable, Entry, get_for_datastore_user, save_datastore_credentials,
  delete_datastore_credentials,
}
use connect_manager.Sessions.{
  Dict, find_in, put, removed, UserSession, S3Keys, save_token, get_browsable_datastores,
}
use connect_manager.Storage.{S3, head_bucket}
use connect_manager.Web.{
  Request, World, Env, parse_uid, state_of, set_state, say, with_session, with_uid, with_hydrated,
}
use connect_manager.Web.Stores.{
  Row, Modal, Settings, Page, browser, not_connected, credentials_modal, connection_error,
  settings_page, keys, text_field, rows_of, store_with_id, selected_id, modal_for, service_keys,
}
use connect_manager.Web.Datastores.{token_saved}

-- The store that the session has under a name; an empty dict counts as none.
unfoldable pub chosen_store : String → UserSession → Result Json
chosen_store name s = elim (find_in name s.datastores) [
  | none ↦ err (value_error ("DataStore '" <> name <> "' not found"))
  | some ds ↦
      if is_true ds then ok ds else err (value_error ("DataStore '" <> name <> "' not found"))
]

unfoldable pub chosen_filespace : UserSession → Result String
chosen_filespace s =
    let id = selected_id s in
    if str_eq id "" then err (value_error "Please select a filespace first") else ok id

-- What `connect` finds: the store, its id, the user's id, and the user's credentials for the store.
pub record Found : Type 0 where
  pub store : Json
  pub id : String
  pub uid : Option Uuid
  pub row : Option DatastoreCredentials

-- `parsed` is what `_parse_uid` returns or raises.
unfoldable pub connection :
    String → UserSession → Result (Option Uuid) → DatastoreTable → Result Found
unfolding chosen_store chosen_filespace text_field get_for_datastore_user
connection name s parsed t = do
  ds ← chosen_store name s
  id ← text_field "id" ds
  filespace_id ← chosen_filespace s
  uid ← parsed
  row ← get_for_datastore_user id uid t
  ok (record { store = ds; id = id; uid = uid; row = row })

-- The arguments of the form with the credentials.
pub record Form : Type 0 where
  pub datastore_id : String
  pub entry : Entry
  pub access_key : String
  pub secret_key : String

module _ (e : Env) where
  abbrev pub active : String → String → World → World
  active name u w = set_state u (record (state_of u w) { selected_datastore = name }) w

  abbrev pub failed_connection : String → World → Fault → Result Page × World
  failed_connection u w x =
      (ok (connection_error (e.describe x)), say e u ("Connection error: " <> e.describe x) w)

  abbrev pub shown_modal : String → World → Result Modal → Result Page × World
  shown_modal u w (ok m) = (ok (credentials_modal m), w)
  shown_modal u w (err x) = failed_connection u w x

  abbrev pub with_row :
      String → String → World → Found → Option DatastoreCredentials → Result Page × World
  with_row name u w f (some row) =
      let w' = active name u w in
      let w'' = say e u ("Connected to DataStore: " <> name) (token_saved e u f.uid w') in
      (ok (browser (get_browsable_datastores (state_of u w'')) f.id), w'')
  with_row name u w f none = shown_modal u w (modal_for f.id name f.store (state_of u w))

  abbrev pub connected : String → String → World → Result Found → Result Page × World
  connected name u w (err x) = failed_connection u w x
  connected name u w (ok f) = with_row name u w f f.row

  -- Every exception becomes a page.
  unfoldable pub connect : (datastore : String) → Request → World → Result Page × World
  unfolding with_session modal_for save_token connection
  connect datastore r w =
      with_session e r
        (λ u w'.
          connected datastore u w'
            (connection datastore (state_of u w') (parse_uid e r) w'.datastores))
        w

  abbrev pub modal_page : World → Result Modal → Result Page × World
  modal_page w (ok m) = (ok (credentials_modal m), w)
  modal_page w (err x) = (err x, w)

  abbrev pub modal_found : String → String → World → Option (String × Json) → Result Page × World
  modal_found datastore_id u w none =
      (ok (connection_error ("DataStore " <> datastore_id <> " not found")), w)
  modal_found datastore_id u w (some (name, ds)) =
      modal_page w (modal_for datastore_id name ds (state_of u w))

  unfoldable pub datastore_credentials_modal :
      (datastore_id : String) → Request → World → Result Page × World
  unfolding with_session store_with_id modal_for
  datastore_credentials_modal datastore_id r w =
      with_session e r
        (λ u w'.
          modal_found datastore_id u w' (store_with_id datastore_id (state_of u w').datastores))
        w

  -- The caches of a session with a data store that has been saved.
  abbrev pub cached : Form → UserSession → UserSession
  cached f s = record s {
    datastore_credentials = put f.datastore_id f.entry s.datastore_credentials;
    s3_services =
        put f.datastore_id (service_keys f.access_key f.secret_key f.entry.region f.entry.endpoint)
          s.s3_services;
  }

  -- The row that a form is stored as.
  abbrev pub form_saved : Form → Option Uuid → World → World
  form_saved f uid w = record w {
    datastores =
        (save_datastore_credentials e.fernet e.now e.nonce f.datastore_id f.entry f.access_key
          f.secret_key uid w.datastores).0;
  }

  unfoldable pub credentials_saved :
      Form → String → Option Uuid → World → Result (Unit {0}) → Result Page × World
  unfolding save_datastore_credentials
  credentials_saved f u uid w (err x) = (
    ok (connection_error ("Failed to connect to S3: " <> e.describe x)),
    say e u ("Failed to save credentials: " <> e.describe x) w,
  )
  credentials_saved f u uid w (ok t) =
      let w' = form_saved f uid w in
      let w'' = active f.entry.datastore_name u (set_state u (cached f (state_of u w')) w') in
      let w''' = say e u ("Saved DataStore '" <> f.entry.datastore_name <> "' for browsing") w'' in
      (ok (browser (get_browsable_datastores (state_of u w''')) f.datastore_id), w''')

  -- `connect_to` makes the S3 service, whose bucket is looked at before anything is stored.
  unfoldable pub save_credentials : (S3Keys → S3) → Form → Request → World → Result Page × World
  unfolding with_session with_uid credentials_saved head_bucket
  save_credentials connect_to f r w =
      with_session e r
        (λ u. with_uid e r λ uid w'. credentials_saved f u uid w' (
          head_bucket
            (connect_to (service_keys f.access_key f.secret_key f.entry.region f.entry.endpoint))
            f.entry.bucket_name))
        w

  abbrev pub settings_of : String → World → Result (List Row) → Result Page × World
  settings_of u w (err x) = (err x, w)
  settings_of u w (ok rows) =
      let s = state_of u w in
      (
        ok (
            settings_page (record {
              filespaces = keys s.filespaces;
              datastores = rows;
              selected_filespace = s.selected_filespace;
              selected_datastore = s.selected_datastore;
              saved_token = s.token;
              saved_api_host = s.api_host;
              browsable = get_browsable_datastores s;
            })),
        w,
      )

  -- `tab_settings`, and `index` with the same data.
  unfoldable pub tab_settings : Request → World → Result Page × World
  unfolding with_session with_uid with_hydrated rows_of
  tab_settings r w =
      with_session e r
        (λ u. with_uid e r λ uid.
          with_hydrated e r u uid
            λ w'. settings_of u w' (rows_of (state_of u w').datastores uid w'.datastores))
        w

  -- The caches of a session without a data store.
  abbrev pub uncached : String → UserSession → UserSession
  uncached datastore_id s = record s {
    datastore_credentials = removed datastore_id s.datastore_credentials;
    s3_services = removed datastore_id s.s3_services;
  }

  abbrev pub forgotten : String → String → Bool → World → World
  forgotten datastore_id u true w = set_state u (uncached datastore_id (state_of u w)) w
  forgotten datastore_id u false w = w

  -- The row goes, and where there was one the caches follow.
  unfoldable pub credentials_deleted : String → String → Option Uuid → World → World
  unfolding delete_datastore_credentials
  credentials_deleted datastore_id u uid w =
      let (t, deleted) = delete_datastore_credentials datastore_id uid w.datastores in
      forgotten datastore_id u deleted (record w { datastores = t })

  abbrev pub told : String → String → Bool → World → World
  told datastore_id u true w = say e u ("Removed DataStore credentials for " <> datastore_id) w
  told datastore_id u false w = w

  unfoldable pub delete_credentials :
      (datastore_id : String) → Request → World → Result Page × World
  unfolding with_session with_uid credentials_deleted tab_settings
  delete_credentials datastore_id r w =
      with_session e r
        (λ u. with_uid e r λ uid w'. tab_settings r (
          told datastore_id u (delete_datastore_credentials datastore_id uid w'.datastores).1
            (credentials_deleted datastore_id u uid w')))
        w

  abbrev pub browser_of : String → World → List Entry → Result Page × World
  browser_of id w [] = (ok not_connected, w)
  browser_of id w (c ∷ cs) = (ok (browser (c ∷ cs) id), w)

  abbrev first_id : Dict Entry → String
  first_id [] = ""
  first_id ((id, c) ∷ d) = id

  unfoldable pub tab_browser : Request → World → Result Page × World
  unfolding with_session with_uid with_hydrated
  tab_browser r w =
      with_session e r
        (λ u. with_uid e r λ uid. with_hydrated e r u uid λ w'.
          let s = state_of u w' in
          browser_of (first_id s.datastore_credentials) w' (get_browsable_datastores s))
        w
