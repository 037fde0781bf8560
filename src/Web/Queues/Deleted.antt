-- ===== src/Web/Queues/Deleted.antt =====
-- app/main.py: deleting a queue, with what is left of it in AWS.
use connect_manager.Prelude.{
  String, Bool, true, false, ◌||◌, List, [], ◌∷◌, ◌++◌, Option, none, some, str_eq, or_else,
}
use connect_manager.Text.Format.{◌<>◌, text_or_default}
use connect_manager.Db.Table.{Result, ok, err, sqs_error, notification_error}
use connect_manager.Db.Rows.{Uuid, DatastoreCredentials, SqsQueue}
use connect_manager.ActivityLog.Admin.{sqs_queue_deleted}
use connect_manager.Credentials.Datastores.{get_for_datastore_user}
use connect_manager.Credentials.Sqs.{Opened, get_sqs_credentials}
use connect_manager.Queues.{get_queue_for_user, delete_queue_for_user}
use connect_manager.Notifications.Buckets.{remove_sqs_notification}
use connect_manager.Notifications.Service.{delete_queue}
use connect_manager.Web.{Request, World, Env, AwsCall, say, note, with_session, with_uid}
use connect_manager.Web.Queues.{Page, list_page, listed, with_queue_id}

abbrev pub joined : List String → String
joined [] = ""
joined (s ∷ []) = s
joined (s ∷ t ∷ ts) = s <> "; " <> joined (t ∷ ts)

module _ (e : Env) (u : String) where
  -- The errors of the cleanup, or an exception that it does not catch.
  abbrev pub Cleanup : Type 0
  Cleanup = Result (List String) × World

  abbrev pub notification_removed : String → Result Bool × List AwsCall → World → Cleanup
  notification_removed bucket (ok b, calls) w = (
    ok [],
    say e u ("Removed S3 notification from bucket '" <> bucket <> "'")
        (record w { aws_calls = calls }),
  )
  notification_removed bucket (err (notification_error m), calls) w =
      (ok (("S3 notification: " <> m) ∷ []), record w { aws_calls = calls })
  notification_removed bucket (err x, calls) w = (err x, record w { aws_calls = calls })

  abbrev pub remove_from :
      SqsQueue → String → Opened → World → Result (Option DatastoreCredentials) → Cleanup
  remove_from q arn keys w (err x) = (err x, w)
  remove_from q arn keys w (ok none) = (ok [], w)
  remove_from q arn keys w (ok (some store)) = elim (str_eq store.bucket_name "") [
    | true ↦ (ok [], w)
    | false ↦
        notification_removed store.bucket_name
          (remove_sqs_notification
            (e.buckets keys.access_key keys.secret_key (text_or_default q.region "us-east-1"))
            store.bucket_name arn w.aws_calls)
          w
  ]

  -- 1. The bucket's notification, where the queue has an ARN and a data store.
  unfoldable pub bucket_cleaned : SqsQueue → Option Uuid → Opened → World → Cleanup
  unfolding get_for_datastore_user remove_sqs_notification
  bucket_cleaned q uid keys w =
      let arn = or_else q.queue_arn "" in
      elim (str_eq arn "" || str_eq q.datastore_id "") [
        | true ↦ (ok [], w)
        | false ↦ remove_from q arn keys w (get_for_datastore_user q.datastore_id uid w.datastores)
      ]

  abbrev pub queue_gone : String → List String → Result Bool × List AwsCall → World → Cleanup
  queue_gone name errors (ok b, calls) w = (
    ok errors,
    say e u ("Deleted SQS queue '" <> name <> "' from AWS") (record w { aws_calls = calls }),
  )
  queue_gone name errors (err (sqs_error m), calls) w =
      (ok (errors ++ ("SQS queue: " <> m) ∷ []), record w { aws_calls = calls })
  queue_gone name errors (err x, calls) w = (err x, record w { aws_calls = calls })

  abbrev pub then_queue : SqsQueue → String → Opened → Cleanup → Cleanup
  then_queue q name keys (err x, w) = (err x, w)
  then_queue q name keys (ok errors, w) =
      queue_gone name errors
        (delete_queue (e.sqs keys.access_key keys.secret_key (text_or_default q.region "us-east-1"))
          q.queue_url w.aws_calls)
        w

  -- 2. The queue itself.
  unfoldable pub cleaned :
      SqsQueue → String → Option Uuid → World → Result (Option Opened) → Cleanup
  unfolding bucket_cleaned delete_queue
  cleaned q name uid w (err x) = (err x, w)
  cleaned q name uid w (ok none) = (ok [], w)
  cleaned q name uid w (ok (some keys)) =
      elim (str_eq q.queue_url "" || str_eq keys.access_key "" || str_eq keys.secret_key "") [
        | true ↦ (ok [], w)
        | false ↦ then_queue q name keys (bucket_cleaned q uid keys w)
      ]

  abbrev pub outcome_message : String → List String → String
  outcome_message name [] = "Queue '" <> name <> "' fully deleted"
  outcome_message name (x ∷ xs) =
      "Queue '" <> name <> "' removed (some AWS cleanup failed: " <> joined (x ∷ xs) <> ")"

  -- The row goes whatever the cleanup reports.
  unfoldable pub row_deleted :
      (queue_id name : String) → Request → Option Uuid → Uuid → Cleanup → Result Page × World
  unfolding delete_queue_for_user listed
  row_deleted queue_id name r uid id (err x, w) = (err x, w)
  row_deleted queue_id name r uid id (ok errors, w) =
      let fewer = record w { queues = (delete_queue_for_user id uid w.queues).0 } in
      let w' =
        note e (sqs_queue_deleted r.user_id name queue_id none)
          (say e u (outcome_message name errors) fewer) in
      (list_page e (listed e u uid none (some ("Queue '" <> name <> "' deleted")) w'), w')

  abbrev pub found_queue :
      (queue_id : String)
      → Request
      → Option Uuid
      → Uuid
      → World
      → Result (Option SqsQueue)
      → Result Page × World
  found_queue queue_id r uid id w (err x) = (err x, w)
  found_queue queue_id r uid id w (ok none) =
      (list_page e (listed e u uid (some "Queue not found") none w), w)
  found_queue queue_id r uid id w (ok (some q)) =
      let name = text_or_default q.name queue_id in
      row_deleted queue_id name r uid id
        (cleaned q name uid w (get_sqs_credentials e.fernet uid w.sqs_credentials))

  unfoldable pub delete_queue_in :
      (queue_id : String) → Request → Option Uuid → Uuid → World → Result Page × World
  unfolding row_deleted cleaned listed get_queue_for_user get_sqs_credentials
  delete_queue_in queue_id r uid id w =
      found_queue queue_id r uid id w (get_queue_for_user id uid w.queues)

unfoldable pub delete_sqs_queue : Env → (queue_id : String) → Request → World → Result Page × World
unfolding with_session with_uid with_queue_id delete_queue_in
delete_sqs_queue e queue_id r w =
    with_session e r
      (λ u. with_uid e r λ uid. with_queue_id e queue_id (delete_queue_in e u queue_id r uid)) w
