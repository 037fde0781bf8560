-- ===== src/Web/Stores.antt =====
-- app/main.py: what the handlers on data stores share: the list view, the modal for credentials, and
-- reading what the LucidLink API returned. An id or a name of the API is a text; another value raises.
use connect_manager.Prelude.{
  String, Bool, true, false, List, [], ◌∷◌, Option, none, some, str_eq, is_some, or_else,
  if◌then◌else◌,
}
use connect_manager.Text.Format.{text_or_default}
use connect_manager.Db.Table.{Result, ok, err, ◌>>=◌}
use connect_manager.Db.Rows.{Uuid}
use connect_manager.Notifications.Values.{Json, null, str, obj, nil, get, text_of, is_text}
use connect_manager.Credentials.Datastores.{DatastoreTable, Entry, get_for_datastore_user}
use connect_manager.Sessions.{Dict, find_in, put, UserSession, S3Keys}

-- An entry of the list view.
pub record Row : Type 0 where
  pub id : String
  pub name : String
  pub bucket : Json
  pub has_credentials : Bool

-- The modal that asks for credentials.
pub record Modal : Type 0 where
  pub datastore_id : String
  pub datastore_name : String
  pub filespace_id : String
  pub filespace_name : String
  pub bucket_name : Json
  pub region : Json
  pub endpoint : Json

-- The settings tab and the main page.
pub record Settings : Type 0 where
  pub filespaces : List String
  pub datastores : List Row
  pub selected_filespace : String
  pub selected_datastore : String
  pub saved_token : String
  pub saved_api_host : String
  pub browsable : List Entry

pub data Page : Type 0 where
  filespace_error : (error : String) → Page
  filespace_select : List String → Option String → List Row → Page
  datastore_list : List Row → (error success : Option String) → Page
  browser : List Entry → (active_datastore_id : String) → Page
  not_connected : Page
  credentials_modal : Modal → Page
  connection_error : (error : String) → Page
  settings_page : Settings → Page
  info_error : (error : String) → Page
  info_page : (name id kind bucket region endpoint virtual_addressing url_expiration : Json) → Page
  create_error : (error : String) → Page
  create_success : List Row → (success : String) → Page

abbrev pub keys {ℓ} : {V : Type ℓ} → List (String × V) → List String
keys [] = []
keys ((k, v) ∷ d) = k ∷ keys d

-- `value.get(key)` where the API has a text.
unfoldable pub text_field : String → Json → Result String
unfolding get
text_field key v = do x ← get v key null; text_of x

-- `ds.get("name", ds_id)`
unfoldable pub store_name : Json → Result String
unfolding get text_field
store_name ds = do id ← text_field "id" ds; x ← get ds "name" (str id); text_of x

-- `ds.get("s3StorageParams", {}).get(key, "")`
unfoldable pub storage_param : String → Json → Result Json
unfolding get
storage_param key ds = do params ← get ds "s3StorageParams" (obj nil); get params key (str "")

-- Whether the user has credentials for a data store.
unfoldable pub has_creds : String → Option Uuid → DatastoreTable → Result Bool
unfolding get_for_datastore_user
has_creds datastore_id uid t = do row ← get_for_datastore_user datastore_id uid t; ok (is_some row)

-- An entry of the list view; `known` is taken for credentials that are about to be saved.
unfoldable pub row_of : Bool → String → Json → Option Uuid → DatastoreTable → Result Row
unfolding text_field storage_param has_creds
row_of known name ds uid t = do
  id ← text_field "id" ds
  bucket ← storage_param "bucketName" ds
  found ← (if known then ok true else has_creds id uid t)
  ok (record { id = id; name = name; bucket = bucket; has_credentials = found })

-- The list view of the stores in the session.
unfoldable pub rows_of : Dict Json → Option Uuid → DatastoreTable → Result (List Row)
unfolding row_of
rows_of [] uid t = ok []
rows_of ((name, ds) ∷ d) uid t =
    let rest = rows_of d uid t in do row ← row_of false name ds uid t; rows ← rest; ok (row ∷ rows)

-- The loop that stores what `list_datastores` returned, with the entry of each store; `added` is the
-- name of a store that has just been created.
module _ (added : Option String) (uid : Option Uuid) (t : DatastoreTable) where
  abbrev pub is_added : Option String → String → Bool
  is_added none name = false
  is_added (some a) name = str_eq name a

  unfoldable pub taken : List Json → Dict Json → Result (List Row) × Dict Json
  unfolding store_name row_of
  taken [] d = (ok [], d)
  taken (ds ∷ rest) d = elim (store_name ds) [
    | err x ↦ (err x, d)
    | ok name ↦
        let d' = put name ds d in
        let later = taken rest d' in
        elim (row_of (is_added added name) name ds uid t) [
          | err x ↦ (err x, d')
          | ok row ↦ (later.0 >>= (λ rows. ok (row ∷ rows)), later.1)
        ]
  ]

-- `{fs.get("name"): fs.get("id") for fs in result}`
unfoldable pub filespaces_in : List Json → Dict String → Result (Dict String)
unfolding text_field
filespaces_in [] d = ok d
filespaces_in (fs ∷ rest) d = do
  name ← text_field "name" fs
  id ← text_field "id" fs
  filespaces_in rest (put name id d)

-- The name of the first store with an id.
abbrev pub has_id : String → Json → Bool
has_id id ds = elim (get ds "id" null) [ ok v ↦ is_text v id | err x ↦ false ]

unfoldable pub store_with_id : String → Dict Json → Option (String × Json)
unfolding get
store_with_id id [] = none
store_with_id id ((name, ds) ∷ d) =
    let rest = store_with_id id d in if has_id id ds then some (name, ds) else rest

-- `state.filespaces.get(state.selected_filespace, "")`
abbrev pub selected_id : UserSession → String
selected_id s = or_else (find_in s.selected_filespace s.filespaces) ""

unfoldable pub modal_for : String → String → Json → UserSession → Result Modal
unfolding storage_param
modal_for datastore_id name ds s = do
  bucket ← storage_param "bucketName" ds
  region ← storage_param "region" ds
  endpoint ← storage_param "endpoint" ds
  ok (record {
    datastore_id = datastore_id;
    datastore_name = name;
    filespace_id = selected_id s;
    filespace_name = s.selected_filespace;
    bucket_name = bucket;
    region = region;
    endpoint = endpoint;
  })

-- `S3Service(access_key, secret_key, region=region or "us-east-1", endpoint_url=endpoint or None)`
abbrev pub nonempty : Option String → Option String
nonempty none = none
nonempty (some s) = if str_eq s "" then none else some s

abbrev pub service_keys :
    (access_key secret_key : String) → (region endpoint : Option String) → S3Keys
service_keys access_key secret_key region endpoint = record {
  access_key = access_key;
  secret_key = secret_key;
  region = text_or_default (or_else region "") "us-east-1";
  endpoint = nonempty endpoint;
}
