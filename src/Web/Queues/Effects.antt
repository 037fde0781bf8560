-- ===== src/Web/Queues/Effects.antt =====
-- What a request to delete a queue leaves in the tables, whatever AWS answers.
use connect_manager.Prelude.{String, Bool}
use connect_manager.Notifications.Buckets.{Buckets}
use connect_manager.Notifications.Service.{Sqs}
use connect_manager.Db.Table.{Result, ok, err, sqs_error, notification_error}
use connect_manager.Web.{Env}
use connect_manager.Web.Queues.Deleted.{Cleanup}

-- The errors that the cleanup of a bucket's notification, and of the queue, reports.
abbrev IsNotified : Result Bool → Type 0
IsNotified (ok b) = Unit
IsNotified (err (notification_error m)) = Unit
IsNotified (err x) = ⊥

abbrev IsAnswered : Result Bool → Type 0
IsAnswered (ok b) = Unit
IsAnswered (err (sqs_error m)) = Unit
IsAnswered (err x) = ⊥

module _ (e : Env) (u : String) where
  -- The cleanup has not raised.
  abbrev IsOver : Cleanup e u → Type 0
  IsOver (ok errors, w) = Unit
  IsOver (err x, w) = ⊥
