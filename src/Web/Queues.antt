-- ===== src/Web/Queues.antt =====
-- app/main.py: the handlers on SQS credentials, queues and events. What a template gets of a row is the
-- row itself; times and ids are shown as text by the templates.
pub mod Added
pub mod Obtained
pub mod Deleted
pub mod Effects
pub mod Looked
use Prim.Native.String
use connect_manager.Prelude.{
  ℕ, String, Bool, true, false, List, [], ◌∷◌, ◌++◌, Option, none, some, str_eq, or_else, is_some,
  if◌then◌else◌,
}
use connect_manager.Text.Format.{◌<>◌, shown, strip, is_space, text_or_default}
use connect_manager.Processed.{truthy}
use connect_manager.Db.Table.{
  Fault, Result, ok, err, bad_uuid, value_error, assertion_failed, ◌>>=◌,
}
use connect_manager.Db.Rows.{
  Uuid, DatastoreCredentials, SqsCredentials, SqsQueue, QueueStatus, active, paused, SqsEvent,
}
use connect_manager.ActivityLog.Admin.{sqs_credentials_saved, sqs_credentials_deleted}
use connect_manager.Credentials.Datastores.{DatastoreTable, Entry, get_for_datastore_user}
use connect_manager.Credentials.Sqs.{
  SqsCredentialsTable, Opened, get_for_user, get_sqs_credentials, save_sqs_credentials,
  delete_sqs_credentials,
}
use connect_manager.Queues.{
  QueueDb, list_queues_for_user, get_queue_for_user, update_status_for_user, list_events_for_user,
  count_today_for_queue, clear_for_user,
}
use connect_manager.Sessions.{get_browsable_datastores}
use connect_manager.Notifications.Service.{Listed, list_queues, get_queue_attributes, Attributes}
use connect_manager.Web.{Request, World, Env, state_of, say, note, with_session, with_uid}

-- `_creds_to_dict`: never the secret.
pub record CredsView : Type 0 where
  pub id : ℕ
  pub access_key : String
  pub region : String
  pub user_id : Option Uuid

abbrev pub creds_to_dict : Option SqsCredentials → Option CredsView
creds_to_dict none = none
creds_to_dict (some c) =
    some (record { id = c.id; access_key = c.access_key; region = c.region; user_id = c.user_id })

pub record QueueView : Type 0 where
  pub queue : SqsQueue
  pub events_today : ℕ
  pub datastore_name : Option String
  pub filespace_name : Option String

pub record QueueList : Type 0 where
  pub credentials : Option CredsView
  pub queues : List QueueView
  pub browsable : List Entry
  pub error : Option String
  pub success : Option String

pub data Page : Type 0 where
  sqs_tab : QueueList → List SqsEvent → Page
  queue_list : QueueList → Page
  queue_modal : List Entry → (error : Option String) → Page
  queue_error : (error : String) → Page
  queue_info : QueueView → (approximate_messages : Option String) → Page
  events_page : List SqsEvent → Page
  option_text : (message : String) → Page
  queue_options : List Listed → Page

abbrev store_name_of : Option DatastoreCredentials → Option String
store_name_of none = none
store_name_of (some c) = some c.datastore_name

abbrev filespace_name_of : Option DatastoreCredentials → Option String
filespace_name_of none = none
filespace_name_of (some c) = some c.filespace_name

module _ (e : Env) where
  unfoldable pub view_of : Option Uuid → QueueDb → DatastoreTable → SqsQueue → Result QueueView
  unfolding count_today_for_queue get_for_datastore_user
  view_of uid db t q = do
    cred ← get_for_datastore_user q.datastore_id uid t
    ok (record {
      queue = q;
      events_today = count_today_for_queue e.now q.id uid db;
      datastore_name = store_name_of cred;
      filespace_name = filespace_name_of cred;
    })

  -- `_enrich_queues_for_template`
  unfoldable pub enriched :
      Option Uuid → QueueDb → DatastoreTable → List SqsQueue → Result (List QueueView)
  unfolding view_of
  enriched uid db t [] = ok []
  enriched uid db t (q ∷ qs) =
      let rest = enriched uid db t qs in do v ← view_of uid db t q; vs ← rest; ok (v ∷ vs)

  abbrev pub credentials_of : Option Uuid → World → Option CredsView
  credentials_of uid w = creds_to_dict (get_for_user uid w.sqs_credentials)

  -- The list of the user's queues that most handlers end with.
  unfoldable pub listed :
      String → Option Uuid → (error success : Option String) → World → Result QueueList
  unfolding enriched list_queues_for_user get_for_user
  listed u uid error success w = do
    views ← enriched uid w.queues w.datastores (list_queues_for_user uid w.queues)
    ok (record {
      credentials = credentials_of uid w;
      queues = views;
      browsable = get_browsable_datastores (state_of u w);
      error = error;
      success = success;
    })

  abbrev pub list_page : Result QueueList → Result Page
  list_page (err x) = err x
  list_page (ok l) = ok (queue_list l)

  unfoldable pub sqs_page : String → Option Uuid → World → Result Page
  unfolding listed list_events_for_user
  sqs_page u uid w = do
    l ← listed u uid none none w
    ok (sqs_tab l (list_events_for_user uid 20 w.queues))

  unfoldable pub tab_sqs : Request → World → Result Page × World
  unfolding with_session with_uid sqs_page
  tab_sqs r w = with_session e r (λ u. with_uid e r λ uid w'. (sqs_page u uid w', w')) w

  -- The secret key that is saved: the one of the form, or the one that is there.
  abbrev pub secret_of : Option Opened → Result String
  secret_of none = err assertion_failed
  secret_of (some o) = ok o.secret_key

  unfoldable pub chosen_secret : Option String → Option Uuid → SqsCredentialsTable → Result String
  unfolding get_sqs_credentials get_for_user strip
  chosen_secret secret_key uid t =
      if truthy secret_key
      then (let s = strip is_space (or_else secret_key "") in
          if str_eq s "" then err (value_error "Secret key is required") else ok s)
      else if is_some (get_for_user uid t)
      then (do found ← get_sqs_credentials e.fernet uid t; secret_of found)
      else err (value_error "Secret key is required")

  abbrev pub failed_save : String → Option Uuid → World → Fault → Result Page × World
  failed_save u uid w x =
      let w' = say e u ("Failed to save SQS credentials: " <> e.describe x) w in
      (
        ok (
            queue_list (record {
              credentials = credentials_of uid w';
              queues = [];
              browsable = get_browsable_datastores (state_of u w');
              error = some (e.describe x);
              success = none;
            })),
        w',
      )

  abbrev pub sqs_saved : String → String → Option Uuid → World → World
  sqs_saved access_key secret uid w = record w {
    sqs_credentials =
        (save_sqs_credentials e.fernet e.now e.nonce access_key secret "us-east-1" uid
          w.sqs_credentials).0;
  }

  -- The commit comes before the list, so an exception there leaves the credentials saved.
  abbrev pub shown_or_failed : String → Option Uuid → World → Result QueueList → Result Page × World
  shown_or_failed u uid w (ok l) = (ok (queue_list l), w)
  shown_or_failed u uid w (err x) = failed_save u uid w x

  unfoldable pub save_with :
      String → String → Option Uuid → Request → World → Result String → Result Page × World
  unfolding save_sqs_credentials listed
  save_with access_key u uid r w (err x) = failed_save u uid w x
  save_with access_key u uid r w (ok secret) =
      let w' = say e u "SQS credentials saved" (sqs_saved access_key secret uid w) in
      let w'' = note e (sqs_credentials_saved r.user_id "us-east-1" none) w' in
      shown_or_failed u uid w'' (listed u uid none none w'')

  unfoldable pub save_credentials :
      (access_key : String) → (secret_key : Option String) → Request → World → Result Page × World
  unfolding with_session with_uid save_with chosen_secret
  save_credentials access_key secret_key r w =
      with_session e r
        (λ u. with_uid e r λ uid w'.
          save_with access_key u uid r w' (chosen_secret secret_key uid w'.sqs_credentials))
        w

  unfoldable pub delete_credentials : Request → World → Result Page × World
  unfolding with_session with_uid tab_sqs delete_sqs_credentials
  delete_credentials r w =
      with_session e r
        (λ u. with_uid e r λ uid w'. tab_sqs r (
          note e (sqs_credentials_deleted r.user_id none) (
            say e u "SQS credentials removed"
              (record w' { sqs_credentials = (delete_sqs_credentials uid w'.sqs_credentials).0 }))))
        w

  -- `uuid.UUID(queue_id)`
  unfoldable pub with_queue_id :
      String → (Uuid → World → Result Page × World) → World → Result Page × World
  with_queue_id queue_id rest w = elim (e.parse_uuid queue_id) [
    | none ↦ (err bad_uuid, w)
    | some id ↦ rest id w
  ]

  -- The name for the messages: the queue's, or the id in the URL.
  abbrev pub name_of : String → Option SqsQueue → String
  name_of queue_id none = queue_id
  name_of queue_id (some q) = text_or_default q.name queue_id

  abbrev pub status_shown :
      (queue_id verb u : String)
      → Option Uuid
      → World
      → Result (Option SqsQueue)
      → Result Page × World
  status_shown queue_id verb u uid w (err x) = (err x, w)
  status_shown queue_id verb u uid w (ok q) =
      let w' = say e u ("SQS queue '" <> name_of queue_id q <> "' " <> verb) w in
      (list_page (listed u uid none none w'), w')

  unfoldable pub set_status :
      (queue_id verb : String)
      → QueueStatus
      → (error_message : Option String) → String
      → Option Uuid
      → Uuid
      → World
      → Result Page × World
  unfolding update_status_for_user get_queue_for_user listed
  set_status queue_id verb status error_message u uid id w =
      let db = (update_status_for_user id uid status error_message w.queues).0 in
      status_shown queue_id verb u uid (record w { queues = db }) (get_queue_for_user id uid db)

  unfoldable pub pause_sqs_queue : (queue_id : String) → Request → World → Result Page × World
  unfolding with_session with_uid with_queue_id set_status
  pause_sqs_queue queue_id r w =
      with_session e r
        (λ u.
          with_uid e r
            λ uid. with_queue_id queue_id (set_status queue_id "paused" paused none u uid))
        w

  unfoldable pub resume_sqs_queue : (queue_id : String) → Request → World → Result Page × World
  unfolding with_session with_uid with_queue_id set_status
  resume_sqs_queue queue_id r w =
      with_session e r
        (λ u.
          with_uid e r
            λ uid. with_queue_id queue_id (set_status queue_id "resumed" active (some "") u uid))
        w

  -- `list_sqs_events` and the handler for its content.
  unfoldable pub list_sqs_events : (limit : ℕ) → Request → World → Result Page × World
  unfolding with_session with_uid list_events_for_user
  list_sqs_events limit r w =
      with_session e r
        (λ u.
          with_uid e r λ uid w'. (ok (events_page (list_events_for_user uid limit w'.queues)), w'))
        w

  unfoldable pub clear_sqs_events : Request → World → Result Page × World
  unfolding with_session with_uid clear_for_user shown
  clear_sqs_events r w =
      with_session e r
        (λ u. with_uid e r λ uid w'.
          let (db, deleted) = clear_for_user uid w'.queues in
          (
            ok (events_page []),
            say e u ("Cleared " <> shown deleted <> " SQS events") (record w' { queues = db }),
          ))
        w
