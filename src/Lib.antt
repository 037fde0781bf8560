-- ===== src/Lib.antt =====
-- Connect Manager: a web application and a worker that link the objects of customers' S3 buckets
-- into LucidLink filespaces. The web tier (app/main.py) stores users, credentials, queues and jobs
-- in PostgreSQL; a worker (app/services/worker.py) takes the jobs from an ARQ queue and imports
-- files through the LucidLink API, while users may cancel them, and polls SQS queues for new objects
-- of the buckets. This library models the database layer, the worker's import task, the once-only
-- wrapper of tasks, the poller, the LucidLink client, authentication from the middleware to the
-- session records, stored credentials and secrets, the job queue, the sessions in memory, the
-- activity log, the S3 and SQS services, and most handlers of the web application.
--
-- Files and code:
--   Db, Db/Table, Db/Order, Db/Rows, Db/Repository: app/db/models.py and
--     app/db/repositories/base.py. A table is the list of its rows, a statement a function on it,
--     and a transaction one such function: a commit is the new table, an exception leaves the old.
--   Jobs: app/db/repositories/job.py, JobRepository, with the id sequence of import_jobs. `JobOp`
--     lists every statement that the program runs on that table, with the keywords that
--     its calls of update_status give.
--   Processed: ProcessedJobRepository of the same file, and app/services/idempotency.py.
--   Worker: app/services/worker.py, import_job and _import_job_body. The `World` holds the table,
--     the remote services' state, and what other tasks commit before each next transaction, so an
--     interleaving is an explicit sequence. S3, the LucidLink client and the credential helpers are
--     the record `Services`. Within a batch the calls run in the order of the keys; the source
--     gathers their answers in that order too. The loop over the batches runs on fuel: the number
--     of keys, which is enough since every round takes at least one key.
--   Auth: app/services/auth.py over app/db/repositories/user.py and user_session.py. bcrypt is
--     `Outside`, python-jose and the text of UUIDs are `Jwt`.
--   Credentials: app/services/state.py over app/db/repositories/datastore.py and settings.py. The
--     cipher of app/services/secrets.py is `Fernet`, with its round trip and Python's codecs.
--   Queues: SqsQueueRepository and SqsEventRepository of app/db/repositories/datastore.py. `QueueOp`
--     lists their statements.
--   Notifications: app/services/sqs_service.py. `Values` are the values that json.loads gives; `Codec` is
--     json.loads with unquote_plus. Notifications/Service and Notifications/Buckets are the calls of
--     boto3, whose clients are the records `Sqs` and `Buckets` over a state of their own.
--   Storage: app/services/s3_service.py, over the client `S3`. The loop of list_objects runs on fuel:
--     one more than its cap. A size in MB is a fraction.
--   Poller: app/services/sqs_poller.py over Queues, Credentials and Notifications. The `World` holds
--     their tables, the lock in Valkey and the state of what is outside (`Remote`); each session block
--     is one change of the tables. Poller/Lock has the lock with the steps of many workers.
--   LucidLink: app/services/lucidlink.py. `Http` is the HTTP client with the state behind it; a
--     request and a reply are values. The three attempts for a folder are recursion on their number.
--   Secrets: app/services/secrets.py in a container: the two files are the `Vault`.
--   Access: app/middleware/auth.py, and Access/Users: the handlers of app/routes/auth.py, over Auth.
--   ActivityLog: app/db/repositories/activity_log.py and app/services/activity_logger.py.
--   JobQueue: app/services/job_queue.py over Jobs.
--   Sessions: app/services/user_state.py over Credentials.
--   Web: app/main.py over all of these. A handler is a function from a request and the `World` (the
--     tables, the job queue, the sessions, the requests sent to LucidLink and the calls of AWS) to
--     the page or the exception, with the new world; `Env` is what it finds around it. `with_session`,
--     `with_uid` and `with_hydrated` are what handlers begin with. Web/Jobs, Web/Logs, Web/Streams,
--     Web/Browse, Web/Stores, Web/Datastores, Web/Credentials, Web/Created and Web/Queues are the
--     handlers by what they are about; Web/Keeps has what the three beginnings preserve. A stream is a
--     function from one suspension of its generator to the next.
--   Text, Prelude: the text operations that the code uses, shared names and lemmas.
--
-- UUIDs, ids and times (microseconds since the epoch) are natural numbers; a time before the epoch
-- does not arise, and a cutoff that would be earlier is 0. A UUID that the source draws, a salt, a
-- nonce and the current time are arguments. PostgreSQL's rules that the code relies on are in the
-- statements: NULL equals nothing, NULLs do not conflict under a unique constraint, and the events
-- of a deleted queue go with it.
--
-- Not modelled: the lines that the code prints, and the calls of ActivityLogger outside Web; ARQ and
-- Valkey beyond the poll lock and the list of enqueued jobs, which are I/O; in app/main.py the
-- login, index, help and account pages, the import of a single file, the modals that only render,
-- and the start and stop of the application; the health probes and the drain before a shutdown in
-- app/routes/health.py and app/services/shutdown.py; the system keyring and the derivation of keys,
-- the start-up check of the JWT secret, the bootstrap wizard, migrations and infrastructure, which
-- are configuration and I/O.
pub mod Prelude
pub mod Db
pub mod Jobs
pub mod Processed
pub mod Text
pub mod Worker
pub mod Auth
pub mod Credentials
pub mod Queues
pub mod Notifications
pub mod Poller
pub mod LucidLink
pub mod Secrets
pub mod Access
pub mod ActivityLog
pub mod JobQueue
pub mod Sessions
pub mod Storage
pub mod Web
