-- ===== src/Web/Queues/Looked.antt =====
-- app/main.py: looking queues up, those of a region in AWS and one that is stored.
use connect_manager.Prelude.{
  String, ◌||◌, List, [], ◌∷◌, Option, none, some, str_eq, or_else, if◌then◌else◌,
}
use connect_manager.Text.Format.{◌<>◌}
use connect_manager.Db.Table.{Result, ok, err, sqs_error}
use connect_manager.Db.Rows.{Uuid, SqsQueue}
use connect_manager.Credentials.Sqs.{Opened, get_sqs_credentials}
use connect_manager.Queues.{get_queue_for_user}
use connect_manager.Notifications.Service.{Attributes, Listed, list_queues, get_queue_attributes}
use connect_manager.Web.{Request, World, Env, with_session, with_uid}
use connect_manager.Web.Queues.{
  Page, QueueView, queue_error, queue_info, option_text, queue_options, view_of, with_queue_id,
}
use connect_manager.Web.Queues.Obtained.{calls_made}

module _ (e : Env) where
  abbrev pub options_page : String → Result (List Listed) → Page
  options_page region (ok []) = option_text ("No queues found in " <> region)
  options_page region (ok (q ∷ qs)) = queue_options (q ∷ qs)
  options_page region (err (sqs_error m)) = option_text ("Error: " <> m)
  options_page region (err x) = option_text "Error discovering queues"

  abbrev pub discovered : String → World → Result (Option Opened) → Result Page × World
  discovered region w (err x) = (ok (options_page region (err x)), w)
  discovered region w (ok none) = (ok (option_text "No credentials configured"), w)
  discovered region w (ok (some o)) =
      if str_eq o.access_key "" || str_eq o.secret_key ""
      then (ok (option_text "Invalid credentials"), w)
      else (let (a, calls) = list_queues (e.sqs o.access_key o.secret_key region) "" w.aws_calls in
          (ok (options_page region a), calls_made e calls w))

  -- This handler asks for no session.
  unfoldable pub discover_sqs_queues :
      (queue_region : String) → Request → World → Result Page × World
  unfolding with_uid get_sqs_credentials list_queues
  discover_sqs_queues queue_region r w =
      with_uid e r
        (λ uid w'. discovered queue_region w' (get_sqs_credentials e.fernet uid w'.sqs_credentials))
        w

  -- The depth of the queue in AWS, where it can be had; every exception is passed over.
  abbrev pub depth_of : Result Attributes → Option String
  depth_of (err x) = none
  depth_of (ok a) = some (or_else a.approximate_messages "0")

  unfoldable pub queue_depth : String → World → Result (Option Opened) → Option String × World
  unfolding get_queue_attributes
  queue_depth url w (err x) = (none, w)
  queue_depth url w (ok none) = (none, w)
  queue_depth url w (ok (some o)) =
      let region = if str_eq o.region "" then "us-east-1" else o.region in
      let (a, calls) =
        get_queue_attributes (e.sqs o.access_key o.secret_key region) url w.aws_calls in
      if str_eq o.access_key "" || str_eq o.secret_key ""
      then (none, w)
      else (depth_of a, calls_made e calls w)

  abbrev pub info_shown : Option Uuid → World → Result QueueView → Result Page × World
  info_shown uid w (err x) = (err x, w)
  info_shown uid w (ok v) =
      let (depth, w') =
        queue_depth v.queue.queue_url w (get_sqs_credentials e.fernet uid w.sqs_credentials) in
      (ok (queue_info v depth), w')

  abbrev pub info_found : Option Uuid → World → Result (Option SqsQueue) → Result Page × World
  info_found uid w (err x) = (err x, w)
  info_found uid w (ok none) = (ok (queue_error "Queue not found"), w)
  info_found uid w (ok (some q)) = info_shown uid w (view_of e uid w.queues w.datastores q)

  unfoldable pub sqs_queue_info : (queue_id : String) → Request → World → Result Page × World
  unfolding with_session with_uid with_queue_id view_of queue_depth get_queue_for_user
      get_sqs_credentials
  sqs_queue_info queue_id r w =
      with_session e r
        (λ u. with_uid e r λ uid.
          with_queue_id e queue_id λ id w'. info_found uid w' (get_queue_for_user id uid w'.queues))
        w
