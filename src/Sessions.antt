-- ===== src/Sessions.antt =====
-- app/services/user_state.py: what the process keeps in memory for each user, and how it is filled from
-- the tables.
pub mod Logs
use Prim.Native.String
use connect_manager.Prelude.{
  ℕ, ◌-◌, String, Bool, true, false, ◌&&◌, ◌||◌, not, List, [], ◌∷◌, ◌++◌, Option, none, some,
  str_eq, length, drop, ltb, or_else, is_some, if◌then◌else◌,
}
use connect_manager.Text.Format.{text_or_default}
use connect_manager.Db.Table.{Result, ok, err}
use connect_manager.Db.Rows.{Uuid, Time, UserSetting}
use connect_manager.Processed.{truthy}
use connect_manager.Notifications.Values.{Json}
use connect_manager.Credentials.Fernet.{Fernet}
use connect_manager.Credentials.Settings.{
  get_user_setting, set_user_setting, load_ll_token, save_ll_token,
}
use connect_manager.Credentials.Datastores.{
  DatastoreTable, Entry, Opened, list_all_datastore_credentials,
}

-- A dict in order of insertion.
abbrev pub Dict : Type 0 → Type 0
Dict V = List (String × V)

abbrev pub find_in : {V : Type 0} → String → Dict V → Option V
find_in k [] = none
find_in k ((j, v) ∷ d) = let later = find_in k d in if str_eq j k then some v else later

abbrev pub put : {V : Type 0} → String → V → Dict V → Dict V
put k v [] = (k, v) ∷ []
put k v ((j, w) ∷ d) = let later = put k v d in if str_eq j k then (j, v) ∷ d else (j, w) ∷ later

abbrev pub removed : {V : Type 0} → String → Dict V → Dict V
removed k [] = []
removed k ((j, w) ∷ d) = let later = removed k d in if str_eq j k then d else (j, w) ∷ later

abbrev pub values : {V : Type 0} → Dict V → List V
values [] = []
values ((k, v) ∷ d) = v ∷ values d

-- The arguments of `S3Service`.
pub record S3Keys : Type 0 where
  pub access_key : String
  pub secret_key : String
  pub region : String
  pub endpoint : Option String

-- The progress is in tenths. `is_connected`, `ll_client`, `current_prefix` and `is_importing`, which
-- nothing reads, are left out.
pub record UserSession : Type 0 where
  pub user_id : String
  pub token : String
  pub api_host : String
  pub filespaces : Dict String
  pub datastores : Dict Json
  pub selected_filespace : String
  pub selected_datastore : String
  pub progress : ℕ
  pub datastore_credentials : Dict Entry
  pub s3_services : Dict S3Keys
  pub logs : List String
  pub hydrated : Bool

abbrev pub max_logs : ℕ
max_logs = 500

abbrev pub new_session : String → UserSession
new_session user_id = record {
  user_id = user_id;
  token = "";
  api_host = "";
  filespaces = [];
  datastores = [];
  selected_filespace = "";
  selected_datastore = "";
  progress = 0;
  datastore_credentials = [];
  s3_services = [];
  logs = [];
  hydrated = false;
}

-- `saved` is what `secrets.get_user_token` returns.
abbrev pub load_from_db : Option String → UserSession → UserSession
load_from_db saved s = if truthy saved then record s { token = or_else saved "" } else s

unfoldable pub init_s3_service : Opened → UserSession → UserSession
init_s3_service o s = if str_eq o.access_key "" || str_eq o.secret_key "" then s else record s {
  s3_services =
      put o.datastore_id
        (record {
          access_key = o.access_key;
          secret_key = o.secret_key;
          region = text_or_default (or_else o.entry.region "") "us-east-1";
          endpoint = o.entry.endpoint;
        })
        s.s3_services;
}

unfoldable pub hydrate_rows : List Opened → UserSession → UserSession
unfolding init_s3_service
hydrate_rows [] s = s
hydrate_rows (o ∷ os) s = hydrate_rows os (
    init_s3_service o
      (record s { datastore_credentials = put o.datastore_id o.entry s.datastore_credentials }))

-- `self.logs[-500:]` once there are more.
unfoldable pub log : (timestamp message : String) → UserSession → UserSession
log timestamp message s =
    let logs = s.logs ++ String.◌++◌ "[" (String.◌++◌ timestamp (String.◌++◌ "] " message)) ∷ [] in
    record s {
      logs = if ltb max_logs (length logs) then drop (length logs - max_logs) logs else logs;
    }

module _ (f : Fernet) where
  abbrev pub with_rows : Result (List Opened) → UserSession → Result (Unit {0}) × UserSession
  with_rows (err e) s = (err e, s)
  with_rows (ok rows) s = (ok tt, record (hydrate_rows rows s) { hydrated = true })

  abbrev pub with_loaded :
      Option Uuid
      → DatastoreTable
      → Result (Option String)
      → UserSession
      → Result (Unit {0}) × UserSession
  with_loaded user_uuid ds (err e) s = (err e, s)
  with_loaded user_uuid ds (ok token) s =
      with_rows (list_all_datastore_credentials f user_uuid ds)
        (if truthy token then record s { token = or_else token "" } else s)

  abbrev pub token_in : Option Uuid → List UserSetting → Result (Option String)
  token_in none settings = ok none
  token_in (some u) settings = load_ll_token f u settings

  abbrev pub with_api_host :
      Option Uuid
      → List UserSetting
      → DatastoreTable
      → Result (Option String)
      → UserSession
      → Result (Unit {0}) × UserSession
  with_api_host user_uuid settings ds (err e) s = (err e, s)
  with_api_host user_uuid settings ds (ok host) s =
      with_loaded user_uuid ds (if str_eq s.token "" then token_in user_uuid settings else ok none)
        (if truthy host then record s { api_host = or_else host "" } else s)

  -- A call that raises leaves what was set before it.
  unfoldable pub hydrate :
      Option Uuid
      → List UserSetting
      → DatastoreTable
      → UserSession
      → Result (Unit {0}) × UserSession
  unfolding hydrate_rows
  hydrate user_uuid settings ds s = elim s.hydrated [
    | true ↦ (ok tt, s)
    | false ↦ with_api_host user_uuid settings ds (get_user_setting user_uuid "api_host" settings) s
  ]

  unfoldable pub save_api_host :
      Time → Option Uuid → UserSession → List UserSetting → List UserSetting
  save_api_host now none s settings = settings
  save_api_host now (some u) s settings =
      if str_eq s.api_host ""
      then settings
      else set_user_setting now u "api_host" s.api_host settings

  unfoldable pub save_token :
      Time → ℕ → Option Uuid → UserSession → List UserSetting → List UserSetting
  save_token now nonce none s settings = settings
  save_token now nonce (some u) s settings =
      if str_eq s.token "" then settings else save_ll_token f now nonce u s.token settings

unfoldable pub get_s3_service_for_datastore : String → UserSession → Option S3Keys
get_s3_service_for_datastore datastore_id s = find_in datastore_id s.s3_services

unfoldable pub get_datastore_by_id : String → UserSession → Option Entry
get_datastore_by_id datastore_id s = find_in datastore_id s.datastore_credentials

unfoldable pub get_browsable_datastores : UserSession → List Entry
get_browsable_datastores s = values s.datastore_credentials

-- `UserStateManager`.
unfoldable pub get_session :
    Option String → String → Dict UserSession → Dict UserSession × UserSession
get_session saved user_id sessions =
    let fresh = load_from_db saved (new_session user_id) in
    elim (find_in user_id sessions) [
      | some s ↦ (sessions, s)
      | none ↦ (put user_id fresh sessions, fresh)
    ]

unfoldable pub clear_session : String → Dict UserSession → Dict UserSession
clear_session user_id sessions = removed user_id sessions

unfoldable pub session_count : Dict UserSession → ℕ
session_count sessions = length sessions
