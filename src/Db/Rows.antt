-- ===== src/Db/Rows.antt =====
-- app/db/models.py: the columns of each table. A UUID is the number that its 128 bits spell, a
-- timestamp is in microseconds since the epoch, and NULL is `none`. A status column is an
-- enumeration of the literals that the program writes into it.
use connect_manager.Prelude.{ℕ, String, Bool, List, Option}

abbrev pub Uuid : Type 0
Uuid = ℕ

abbrev pub Time : Type 0
Time = ℕ

abbrev pub Bytes : Type 0
Bytes = List ℕ

abbrev pub microseconds_per_hour : ℕ
microseconds_per_hour = 3_600_000_000

abbrev pub microseconds_per_day : ℕ
microseconds_per_day = 86_400_000_000

pub record User : Type 0 where
  pub id : Uuid
  pub email : String
  pub password_hash : String
  pub display_name : Option String
  pub is_admin : Bool
  pub created_at : Time
  pub last_login : Option Time

pub record UserSession : Type 0 where
  pub id : Uuid
  pub user_id : Uuid
  pub created_at : Time
  pub expires_at : Time
  pub revoked : Bool

pub record DatastoreCredentials : Type 0 where
  pub id : ℕ
  pub datastore_id : String
  pub datastore_name : String
  pub filespace_id : String
  pub filespace_name : String
  pub bucket_name : String
  pub region : Option String
  pub endpoint : Option String
  pub credentials_key : Bytes
  pub user_id : Option Uuid
  pub created_at : Time

pub record SqsCredentials : Type 0 where
  pub id : ℕ
  pub access_key : String
  pub secret_key_encrypted : Bytes
  pub region : String
  pub user_id : Option Uuid
  pub created_at : Time

pub data QueueStatus : Type 0 where
  active paused : QueueStatus

pub record SqsQueue : Type 0 where
  pub id : Uuid
  pub queue_url : String
  pub queue_arn : Option String
  pub name : String
  pub region : String
  pub datastore_id : String
  pub filespace_id : String
  pub import_prefix : String
  pub status : QueueStatus
  pub user_id : Option Uuid
  pub created_at : Time
  pub last_poll_at : Option Time
  pub error_message : Option String

pub data EventStatus : Type 0 where
  pending processing completed skipped failed : EventStatus

pub record SqsEvent : Type 0 where
  pub id : Uuid
  pub queue_id : Uuid
  pub message_id : String
  pub event_type : String
  pub bucket : String
  pub object_key : String
  pub object_size : Option ℕ
  pub event_time : Option Time
  pub status : EventStatus
  pub job_id : Option String
  pub error_message : Option String
  pub created_at : Time

pub data JobStatus : Type 0 where
  pending running completed failed cancelled : JobStatus

pub record Job : Type 0 where
  pub id : ℕ
  pub status : JobStatus
  pub bucket : String
  pub prefix : String
  pub filespace_id : String
  pub datastore_id : String
  pub total_files : ℕ
  pub completed_files : ℕ
  pub failed_files : ℕ
  pub error_message : Option String
  pub created_at : Time
  pub started_at : Option Time
  pub completed_at : Option Time
  pub user_id : Option Uuid

pub record ProcessedJob : Type 0 where
  pub job_id : String
  pub processed_at : Time
  pub worker_id : Option String
  pub result_status : Option String

pub record UserSetting : Type 0 where
  pub user_id : Uuid
  pub key : String
  pub value : String
  pub updated_at : Time
