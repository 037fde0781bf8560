-- ===== src/Notifications/Buckets.antt =====
-- app/services/sqs_service.py, S3NotificationService: which queues a bucket notifies, over a boto3 client
-- that is a parameter. The events and the filter of a queue's entry are JSON.
pub mod Configured
use Prim.Native.String
use connect_manager.Text.Format.{◌<>◌}
use connect_manager.Prelude.{
  ℕ, String, Bool, true, false, ◌&&◌, ◌||◌, not, List, [], ◌∷◌, ◌++◌, Option, none, some, str_eq,
  if◌then◌else◌,
}
use connect_manager.Text.{codes, lower, contains}
use connect_manager.Db.Table.{Fault, Result, ok, err, notification_error, ◌>>=◌}
use connect_manager.Notifications.Values.{
  Json, null, str, arr, obj, Items, end, item, Fields, nil, field,
}
use connect_manager.LucidLink.{is_true}

pub record QueueEntry : Type 0 where
  pub id : Option String
  pub queue_arn : Option String
  pub events : Json
  pub filter : Json

-- A notification configuration; a list that is missing is empty.
pub record Configuration : Type 0 where
  pub queues : List QueueEntry
  pub topics : List Json
  pub lambdas : List Json
  pub event_bridge : Option Json

-- What a call returns, or its `ClientError`: the code, the message and `str(e)`.
pub data Answer {ℓ} (A : Type ℓ) : Type ℓ where
  answered : A → Answer A
  client_error : (code message text : String) → Answer A

pub record Buckets (Y : Type 0) : Type 0 where
  pub get_configuration : (bucket : String) → Y → Answer Configuration × Y
  pub put_configuration : (bucket : String) → Configuration → Y → Answer (Unit {0}) × Y

abbrev pub is_text : Option String → String → Bool
is_text none t = false
is_text (some s) t = str_eq s t

-- The entries of other notifications, and those of other queues.
abbrev pub is_unrelated : String → String → QueueEntry → Bool
is_unrelated notification_id queue_arn q =
    not (is_text q.id notification_id) && not (is_text q.queue_arn queue_arn)

abbrev pub is_elsewhere : String → QueueEntry → Bool
is_elsewhere queue_arn q = not (is_text q.queue_arn queue_arn)

abbrev pub kept : (QueueEntry → Bool) → List QueueEntry → List QueueEntry
kept p [] = []
kept p (q ∷ qs) = let rest = kept p qs in if p q then q ∷ rest else rest

abbrev pub rule : String → String → Json
rule name value = obj (field "Name" (str name) (field "Value" (str value) nil))

abbrev pub with_rule : String → String → Items → Items
with_rule name value rules = if str_eq value "" then rules else item (rule name value) rules

abbrev pub filter_rules : String → String → Items
filter_rules prefix suffix = with_rule "prefix" prefix (with_rule "suffix" suffix end)

abbrev pub filter_of : Items → Json
filter_of end = null
filter_of (item r rs) = obj (field "Key" (obj (field "FilterRules" (arr (item r rs)) nil)) nil)

abbrev pub default_events : Json
default_events = arr (item (str "s3:ObjectCreated:*") end)

abbrev pub events_or : Option Json → Json
events_or none = default_events
events_or (some events) = events

-- `if current_config.get("EventBridgeConfiguration")`
abbrev pub kept_bridge : Option Json → Option Json
kept_bridge none = none
kept_bridge (some v) = if is_true v then some v else none

-- The configuration that is put: the given queues and the other notifications.
abbrev pub with_queues : List QueueEntry → Configuration → Configuration
with_queues queues c = record c { queues = queues; event_bridge = kept_bridge c.event_bridge }

-- The arguments of `add_sqs_notification` but the bucket.
pub record Wanted : Type 0 where
  pub queue_arn : String
  pub notification_id : String
  pub events : Option Json
  pub prefix : String
  pub suffix : String

abbrev pub entry_of : Wanted → QueueEntry
entry_of n = record {
  id = some n.notification_id;
  queue_arn = some n.queue_arn;
  events = events_or n.events;
  filter = filter_of (filter_rules n.prefix n.suffix);
}

unfoldable pub added : Wanted → Configuration → Configuration
added n c =
    with_queues (kept (is_unrelated n.notification_id n.queue_arn) c.queues ++ entry_of n ∷ []) c

unfoldable pub removed : String → Configuration → Configuration
removed queue_arn c = with_queues (kept (is_elsewhere queue_arn) c.queues) c

-- `word in text`
abbrev has_word : String → String → Bool
has_word word text = contains (codes word) (codes text)

unfoldable pub add_failure : String → String → Fault
unfolding contains lower
add_failure code message =
    if has_word "InvalidArgument" code
      || contains (codes "unable to validate") (lower (codes message))
    then notification_error (
        "S3 cannot send to SQS queue. Ensure the queue policy allows s3:SendMessage from this bucket. Error: "
        <> message)
    else notification_error ("Failed to configure bucket notifications: " <> message)

module _ {Y : Type 0} (s3 : Buckets Y) where
  abbrev pub read_answer : Answer Configuration → Result Configuration
  read_answer (answered c) = ok c
  read_answer (client_error code message text) =
      err (notification_error ("Failed to get bucket notifications: " <> text))

  unfoldable pub get_bucket_notification_configuration :
      (bucket : String) → Y → Result Configuration × Y
  get_bucket_notification_configuration bucket y =
      let (a, y') = s3.get_configuration bucket y in (read_answer a, y')

  abbrev pub put_answer : (String → String → String → Fault) → Answer (Unit {0}) → Result Bool
  put_answer failure (answered t) = ok true
  put_answer failure (client_error code message text) = err (failure code message text)

  abbrev pub put_changed :
      (String → String → String → Fault)
      → (Configuration → Configuration)
      → String
      → Result Configuration × Y
      → Result Bool × Y
  put_changed failure change bucket (err x, y) = (err x, y)
  put_changed failure change bucket (ok c, y) =
      let (a, y') = s3.put_configuration bucket (change c) y in (put_answer failure a, y')

  unfoldable pub add_sqs_notification : (bucket : String) → Wanted → Y → Result Bool × Y
  unfolding added add_failure get_bucket_notification_configuration
  add_sqs_notification bucket n y =
      put_changed (λ code message text. add_failure code message) (added n) bucket
        (get_bucket_notification_configuration bucket y)

  unfoldable pub remove_sqs_notification : (bucket queue_arn : String) → Y → Result Bool × Y
  unfolding removed get_bucket_notification_configuration
  remove_sqs_notification bucket queue_arn y =
      put_changed
        (λ code message text. notification_error ("Failed to remove bucket notification: " <> text))
        (removed queue_arn) bucket (get_bucket_notification_configuration bucket y)
