-- ===== src/Web/Queues/Obtained.antt =====
-- app/main.py: the queue that is to be added, which is created in AWS or exists there.
use Prim.Native.Char.{code}
use connect_manager.Prelude.{
  ℕ, String, Bool, true, false, ◌&&◌, ◌||◌, List, Option, none, some, str_eq, or_else, leb, ◌==◌,
  if◌then◌else◌,
}
use connect_manager.Text.Format.{◌<>◌, after_prefix, begins_with}
use connect_manager.Processed.{truthy}
use connect_manager.Db.Table.{Result, ok, err, value_error, notification_error, ◌>>=◌}
use connect_manager.Db.Rows.{Uuid, DatastoreCredentials}
use connect_manager.Credentials.Datastores.{DatastoreTable, get_for_datastore_user}
use connect_manager.Credentials.Sqs.{SqsCredentialsTable, Opened, get_sqs_credentials}
use connect_manager.Notifications.QueueNames.{normalize_queue_input}
use connect_manager.Notifications.Buckets.{Wanted, add_sqs_notification}
use connect_manager.Notifications.Service.{
  QueueInfo, create_queue, validate_queue_url, configure_queue_for_s3,
}
use connect_manager.Web.{World, Env, AwsCall, say}

-- `re.match(r"^[a-zA-Z0-9_-]+$", name)`: a line feed may stand at the end.
abbrev is_name_code : ℕ → Bool
is_name_code c =
    (leb b'a' c && leb c b'z')
    || (leb b'A' c && leb c b'Z')
    || (leb b'0' c && leb c b'9')
    || c == b'_'
    || c == b'-'

unfoldable pub is_queue_name : String → Bool
is_queue_name String.[] = false
is_queue_name (String.◌∷◌ c String.[]) = is_name_code (code c)
is_queue_name (String.◌∷◌ c (String.◌∷◌ d s)) =
    let rest = is_queue_name (String.◌∷◌ d s) in
    is_name_code (code c) && ((code d == 10 && str_eq s "") || rest)

-- The longest prefix of characters of a region, and the rest.
abbrev is_region_code : ℕ → Bool
is_region_code c = (leb b'a' c && leb c b'z') || (leb b'0' c && leb c b'9') || c == b'-'

unfoldable pub region_prefix : String → String × String
region_prefix String.[] = ("", "")
region_prefix (String.◌∷◌ c s) =
    let (a, b) = region_prefix s in
    if is_region_code (code c) then (String.◌∷◌ c a, b) else ("", String.◌∷◌ c s)

unfoldable pub region_at : Option String → Option String
unfolding region_prefix after_prefix
region_at none = none
region_at (some rest) =
    let (region, tail) = region_prefix rest in
    if str_eq region ""
    then none
    else if begins_with tail ".amazonaws.com"
    then some region
    else none

-- `re.search(r"sqs\.([a-z0-9-]+)\.amazonaws\.com", url)`
unfoldable pub region_in : String → Option String
unfolding region_at after_prefix
region_in String.[] = none
region_in (String.◌∷◌ c s) =
    let later = region_in s in
    elim (region_at (after_prefix "sqs." (String.◌∷◌ c s))) [ some r ↦ some r | none ↦ later ]

-- The form of the modal.
pub record AddForm : Type 0 where
  pub mode : String
  pub queue_name : Option String
  pub queue_url : Option String
  pub queue_region : String
  pub datastore_id : String
  pub import_prefix : String
  pub configure_s3_policy : Option String

abbrev pub wants_policy : AddForm → String → Bool
wants_policy f bucket = str_eq (or_else f.configure_s3_policy "") "true" && not_empty bucket
  where
    not_empty : String → Bool
    not_empty s = if str_eq s "" then false else true

-- The keys of AWS that a user has saved.
abbrev pub usable : Option Opened → Result Opened
usable none = err (value_error "SQS credentials not configured")
usable (some o) =
    if str_eq o.access_key "" || str_eq o.secret_key ""
    then err (value_error "Invalid SQS credentials")
    else ok o

abbrev pub found_store : Option DatastoreCredentials → Result DatastoreCredentials
found_store none =
    err (value_error "DataStore credentials not found. Please add credentials in Settings first.")
found_store (some d) = ok d

module _ (e : Env) where
  -- The credentials and the data store that both modes begin with.
  unfoldable pub prepared :
      Option Uuid
      → String
      → SqsCredentialsTable
      → DatastoreTable
      → Result (Opened × DatastoreCredentials)
  unfolding get_sqs_credentials get_for_datastore_user
  prepared uid datastore_id creds t = do
    found ← get_sqs_credentials e.fernet uid creds
    keys ← usable found
    row ← get_for_datastore_user datastore_id uid t
    store ← found_store row
    ok (keys, store)

  abbrev pub calls_made : List AwsCall → World → World
  calls_made calls w = record w { aws_calls = calls }

  -- What S3 makes of the new queue is only logged.
  abbrev pub notified :
      String → String → Result Bool × List AwsCall → World → Result (Unit {0}) × World
  notified bucket u (ok b, calls) w = (
    ok tt,
    say e u ("Configured S3 bucket '" <> bucket <> "' to send events to queue")
        (calls_made calls w),
  )
  notified bucket u (err (notification_error m), calls) w =
      (ok tt, say e u ("Warning: Could not configure S3 notifications: " <> m) (calls_made calls w))
  notified bucket u (err x, calls) w = (err x, calls_made calls w)

  abbrev pub wanted : String → QueueInfo → Wanted
  wanted queue_name info = record {
    queue_arn = info.arn;
    notification_id = "LucidLink-" <> queue_name;
    events = none;
    prefix = "";
    suffix = "";
  }

  unfoldable pub policy_configured :
      (bucket region : String)
      → Opened
      → String
      → QueueInfo
      → String
      → World
      → Result (Unit {0}) × World
  unfolding configure_queue_for_s3 add_sqs_notification
  policy_configured bucket region keys queue_name info u w =
      let (a, calls) =
        configure_queue_for_s3 (e.sqs keys.access_key keys.secret_key region) info.url bucket
          w.aws_calls in
      elim a [
        | err x ↦ (err x, calls_made calls w)
        | ok b ↦
            let w' =
              say e u ("Configured queue policy for S3 bucket '" <> bucket <> "'")
                (calls_made calls w) in
            notified bucket u
              (add_sqs_notification (e.buckets keys.access_key keys.secret_key region) bucket
                (wanted queue_name info) w'.aws_calls)
              w'
      ]

  abbrev pub with_policy :
      AddForm
      → String
      → Opened
      → String
      → String
      → Result QueueInfo × List AwsCall
      → World
      → Result QueueInfo × World
  with_policy f bucket keys queue_name u (err x, calls) w = (err x, calls_made calls w)
  with_policy f bucket keys queue_name u (ok info, calls) w =
      let w' =
        say e u ("Created SQS queue '" <> queue_name <> "' in AWS (" <> f.queue_region <> ")")
          (calls_made calls w) in
      elim (wants_policy f bucket) [
        | false ↦ (ok info, w')
        | true ↦
            let (a, w'') = policy_configured bucket f.queue_region keys queue_name info u w' in
            (a >>= (λ t. ok info), w'')
      ]

  -- The mode "create".
  unfoldable pub queue_created :
      AddForm → String → Opened → String → World → Result QueueInfo × World
  unfolding policy_configured create_queue is_queue_name
  queue_created f bucket keys u w =
      let name = or_else f.queue_name "" in
      elim (str_eq name "") [
        | true ↦ (err (value_error "Queue name is required"), w)
        | false ↦ elim (is_queue_name name) [
          | false ↦ (
            err (
                value_error
                  "Queue name can only contain alphanumeric characters, hyphens, and underscores"),
            w,
          )
          | true ↦
              with_policy f bucket keys name u
                (create_queue (e.sqs keys.access_key keys.secret_key f.queue_region) name
                  w.aws_calls)
                w
        ]
      ]

  abbrev pub validated : AddForm → Opened → World → Option String → Result QueueInfo × World
  validated f keys w none = (err (value_error "Invalid queue URL or ARN format"), w)
  validated f keys w (some url) =
      let region = or_else (region_in url) f.queue_region in
      let (a, calls) =
        validate_queue_url (e.sqs keys.access_key keys.secret_key region) url w.aws_calls in
      (a, calls_made calls w)

  -- The other mode.
  unfoldable pub queue_named : AddForm → Opened → World → Result QueueInfo × World
  unfolding validate_queue_url normalize_queue_input region_in
  queue_named f keys w =
      if truthy f.queue_url
      then validated f keys w (normalize_queue_input (or_else f.queue_url ""))
      else (err (value_error "Queue URL or ARN is required"), w)

  abbrev pub queue_obtained : AddForm → String → Opened → String → World → Result QueueInfo × World
  queue_obtained f bucket keys u w =
      if str_eq f.mode "create" then queue_created f bucket keys u w else queue_named f keys w
