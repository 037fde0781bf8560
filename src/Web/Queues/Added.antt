-- ===== src/Web/Queues/Added.antt =====
-- app/main.py: adding a queue.
use connect_manager.Prelude.{String, List, Option, none, some, str_eq, if◌then◌else◌}
use connect_manager.Text.Format.{◌<>◌, strip, is_space}
use connect_manager.Db.Table.{Fault, Result, ok, err, sqs_error}
use connect_manager.Db.Rows.{Uuid, DatastoreCredentials, SqsQueue}
use connect_manager.ActivityLog.Admin.{sqs_queue_created}
use connect_manager.Credentials.Datastores.{Entry}
use connect_manager.Credentials.Sqs.{Opened}
use connect_manager.Queues.{QueueDb, save_sqs_queue}
use connect_manager.Sessions.{get_browsable_datastores}
use connect_manager.Notifications.Service.{QueueInfo}
use connect_manager.Web.{Request, World, Env, state_of, say, note, with_session, with_uid}
use connect_manager.Web.Queues.{Page, QueueList, queue_list, queue_modal, listed}
use connect_manager.Web.Queues.Obtained.{
  AddForm, prepared, queue_created, queue_named, queue_obtained,
}

module _ (e : Env) where
  -- The INSERT with its commit.
  unfoldable pub queue_stored :
      AddForm → String → Option Uuid → QueueInfo → QueueDb → Result (QueueDb × SqsQueue)
  unfolding save_sqs_queue strip
  queue_stored f filespace_id uid info db =
      save_sqs_queue e.fresh_id e.now info.url (some info.arn) info.name info.region f.datastore_id
        filespace_id (strip is_space f.import_prefix) uid db

  abbrev pub action_of : AddForm → String
  action_of f = if str_eq f.mode "create" then "created" else "added"

  abbrev pub modal_error : List Entry → Fault → World → Result Page × World
  modal_error browsable (sqs_error m) w =
      (ok (queue_modal browsable (some ("SQS error: " <> m))), w)
  modal_error browsable x w = (ok (queue_modal browsable (some (e.describe x))), w)

  abbrev pub final_page : List Entry → World → Result QueueList → Result Page × World
  final_page browsable w (err x) = modal_error browsable x w
  final_page browsable w (ok l) = (ok (queue_list l), w)

  abbrev pub after_insert :
      AddForm
      → List Entry
      → String
      → Option Uuid
      → Request
      → QueueInfo
      → World
      → Result (QueueDb × SqsQueue)
      → Result Page × World
  after_insert f browsable u uid r info w (err x) = modal_error browsable x w
  after_insert f browsable u uid r info w (ok (db, row)) =
      let w' = note e (sqs_queue_created r.user_id info.name (e.show_uuid row.id) none) (
        say e u ("SQS queue '" <> info.name <> "' " <> action_of f <> " for automatic imports")
          (record w { queues = db })) in
      final_page browsable w' (
        listed e u uid none
          (some ("Queue '" <> info.name <> "' " <> action_of f <> " successfully")) w')

  abbrev pub after_obtained :
      AddForm
      → List Entry
      → String
      → String
      → Option Uuid
      → Request
      → Result QueueInfo × World
      → Result Page × World
  after_obtained f browsable filespace_id u uid r (err x, w) = modal_error browsable x w
  after_obtained f browsable filespace_id u uid r (ok info, w) =
      after_insert f browsable u uid r info w (queue_stored f filespace_id uid info w.queues)

  abbrev pub after_prepared :
      AddForm
      → List Entry
      → String
      → Option Uuid
      → Request
      → World
      → Result (Opened × DatastoreCredentials)
      → Result Page × World
  after_prepared f browsable u uid r w (err x) = modal_error browsable x w
  after_prepared f browsable u uid r w (ok (keys, store)) =
      after_obtained f browsable store.filespace_id u uid r
        (queue_obtained e f store.bucket_name keys u w)

  unfoldable pub add_queue : AddForm → String → Option Uuid → Request → World → Result Page × World
  unfolding prepared queue_created queue_named queue_stored listed
  add_queue f u uid r w =
      after_prepared f (get_browsable_datastores (state_of u w)) u uid r w
        (prepared e uid f.datastore_id w.sqs_credentials w.datastores)

  unfoldable pub add_sqs_queue : AddForm → Request → World → Result Page × World
  unfolding with_session with_uid add_queue
  add_sqs_queue f r w = with_session e r (λ u. with_uid e r λ uid w'. add_queue f u uid r w') w
