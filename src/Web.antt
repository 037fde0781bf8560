-- ===== src/Web.antt =====
-- app/main.py: the handlers of the web application. A request is what the middleware attached to it; a
-- handler gives the page that it renders, or the exception that it lets through, and the new state.
-- Pages are the values that the templates get.
pub mod Browse
pub mod Queues
pub mod Stores
pub mod Datastores
pub mod Credentials
pub mod Created
pub mod Jobs
pub mod Logs
pub mod Streams
pub mod Keeps
mod Tests
use connect_manager.Prelude.{
  ℕ, String, Bool, true, false, List, [], ◌∷◌, ◌++◌, Option, none, some, or_else, str_eq,
  if◌then◌else◌,
}
use connect_manager.Db.Table.{Fault, Result, ok, err, http_error, ◌>>=◌}
use connect_manager.Db.Rows.{Uuid, Time, UserSetting}
use connect_manager.Jobs.{JobTable}
use connect_manager.JobQueue
use connect_manager.JobQueue.{JobQueue, parse_user}
use connect_manager.ActivityLog
use connect_manager.ActivityLog.{LogTable}
use connect_manager.Credentials.Fernet.{Fernet}
use connect_manager.Credentials.Datastores.{DatastoreTable}
use connect_manager.Credentials.Sqs.{SqsCredentialsTable}
use connect_manager.Queues.{QueueDb}
use connect_manager.Notifications.Values.{Json}
use connect_manager.Notifications.Buckets.{Buckets}
use connect_manager.Notifications.Service.{Sqs}
use connect_manager.LucidLink
use connect_manager.LucidLink.{Reply, Http}
use connect_manager.Sessions
use connect_manager.Sessions.{Dict, find_in, put, UserSession, new_session, get_session, hydrate}

-- `request.state`
pub record Request : Type 0 where
  pub user_id : Option String
  pub is_admin : Bool

-- A call of AWS: the region, the action, and the queue or bucket.
pub record AwsCall : Type 0 where
  pub region : String
  pub action : String
  pub target : String

-- The tables, the job queue and the sessions in memory.
pub record World : Type 0 where
  pub sessions : Dict UserSession
  pub jobs : JobTable
  pub queue : JobQueue
  pub logs : LogTable
  pub settings : List UserSetting
  pub datastores : DatastoreTable
  pub sqs_credentials : SqsCredentialsTable
  pub queues : QueueDb
  -- What was sent to the LucidLink API, and what was called of AWS.
  pub requests : List LucidLink.Request
  pub aws_calls : List AwsCall

-- What a request finds around it: the clocks, a nonce and an id that are fresh, `uuid.UUID` and `str`, the
-- token in the secrets file, the cipher, `str(e)`, and whether an activity log entry gets stored.
pub record Env : Type 0 where
  pub now : Time
  pub timestamp : String
  pub nonce : ℕ
  pub fresh_id : Uuid
  pub parse_uuid : String → Option Uuid
  pub show_uuid : Uuid → String
  pub saved_token : String → Option String
  pub fernet : Fernet
  pub describe : Fault → String
  -- The answer of the LucidLink API to a request after earlier ones, and `LL_HOST`.
  pub answers : List LucidLink.Request → LucidLink.Request → Reply
  pub ll_host : String
  -- The clients of AWS for a key pair and a region.
  pub sqs : (access_key secret_key region : String) → Sqs (List AwsCall) Json
  pub buckets : (access_key secret_key region : String) → Buckets (List AwsCall)
  pub wired : Bool
  pub stores : Bool

-- `_parse_uid`
abbrev pub parse_uid : Env → Request → Result (Option Uuid)
parse_uid e r = parse_user e.parse_uuid r.user_id

-- The session of a user who has one.
abbrev pub state_of : String → World → UserSession
state_of u w = or_else (find_in u w.sessions) (new_session u)

abbrev pub set_state : String → UserSession → World → World
set_state u s w = record w { sessions = put u s w.sessions }

-- `state.log`
abbrev pub say : Env → String → String → World → World
say e u message w = set_state u (Sessions.log e.timestamp message (state_of u w)) w

-- A call of ActivityLogger.
abbrev pub note : Env → ActivityLog.Entry String → World → World
note e entry w = record w {
  logs = ActivityLog.log e.parse_uuid e.wired e.stores e.now entry w.logs;
}

-- The HTTP client, which records what it sends.
abbrev pub http : Env → Http (List LucidLink.Request)
http e = record {
  send = λ q sent. (e.answers sent q, sent ++ q ∷ []);
  ll_host = e.ll_host;
  describe = e.describe;
}

-- `get_user_session`
abbrev pub opened : Env → String → World → World
opened e u w = record w { sessions = (get_session (e.saved_token u) u w.sessions).0 }

module _ {P : Type 0} (e : Env) (r : Request) where
  -- `get_session_from_request`, and the rest of the handler for the user.
  unfoldable pub with_session : (String → World → Result P × World) → World → Result P × World
  unfolding get_session
  with_session rest w = elim r.user_id [
    | none ↦ (err (http_error 401 "Not authenticated"), w)
    | some u ↦ elim (str_eq u "") [
      | true ↦ (err (http_error 401 "Not authenticated"), w)
      | false ↦ rest u (opened e u w)
    ]
  ]

  abbrev pub after_parse :
      (Option Uuid → World → Result P × World) → World → Result (Option Uuid) → Result P × World
  after_parse rest w (err x) = (err x, w)
  after_parse rest w (ok uid) = rest uid w

  -- The rest of a handler after `_parse_uid`.
  unfoldable pub with_uid : (Option Uuid → World → Result P × World) → World → Result P × World
  with_uid rest w = after_parse rest w (parse_uid e r)

  abbrev pub after_hydrate :
      (World → Result P × World)
      → String
      → World
      → Result (Unit {0}) × UserSession
      → Result P × World
  after_hydrate rest u w (err x, s) = (err x, set_state u s w)
  after_hydrate rest u w (ok t, s) = rest (set_state u s w)

  -- `await state.hydrate(session, uid)`
  unfoldable pub with_hydrated :
      String → Option Uuid → (World → Result P × World) → World → Result P × World
  unfolding hydrate
  with_hydrated u uid rest w =
      after_hydrate rest u w (hydrate e.fernet uid w.settings w.datastores (state_of u w))
