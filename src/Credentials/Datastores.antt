-- ===== src/Credentials/Datastores.antt =====
-- DatastoreCredentialsRepository, and the S3 credentials that state.py keeps in it. The key pair is
-- stored encrypted.
pub mod Saved
use connect_manager.Prelude.{
  ℕ, suc, String, Bool, true, false, ◌&&◌, List, [], ◌∷◌, Option, none, some, str_eq, ltb, ◌==◌,
  if◌then◌else◌,
}
use connect_manager.Db.Table.{
  Result, ok, err, ◌>>=◌, select, update, delete, count, insert, one_or_none, owned_by,
}
use connect_manager.Db.Rows.{Uuid, Time, Bytes, DatastoreCredentials}
use connect_manager.Credentials.Fernet.{Fernet, encrypt_creds, decrypt_creds}

pub record DatastoreTable : Type 0 where
  pub rows : List DatastoreCredentials
  pub next_id : ℕ

-- The arguments of `upsert` that name what is stored.
pub record Entry : Type 0 where
  pub datastore_name : String
  pub filespace_id : String
  pub filespace_name : String
  pub bucket_name : String
  pub region : Option String
  pub endpoint : Option String

-- WHERE datastore_id = ... AND user_id = ... (IS NULL for None).
abbrev pub is_datastore_of : String → Option Uuid → DatastoreCredentials → Bool
is_datastore_of datastore_id user_id d =
    str_eq d.datastore_id datastore_id && owned_by user_id d.user_id

-- The unique constraint (datastore_id, user_id): in PostgreSQL a NULL conflicts with nothing.
abbrev pub conflicts : String → Option Uuid → DatastoreCredentials → Bool
conflicts datastore_id none d = false
conflicts datastore_id (some user_id) d = is_datastore_of datastore_id (some user_id) d

unfoldable pub list_for_user : Option Uuid → DatastoreTable → List DatastoreCredentials
list_for_user user_id t = select (λ d. owned_by user_id d.user_id) t.rows

unfoldable pub get_for_datastore_user :
    String → Option Uuid → DatastoreTable → Result (Option DatastoreCredentials)
get_for_datastore_user datastore_id user_id t =
    one_or_none (select (is_datastore_of datastore_id user_id) t.rows)

-- DO UPDATE SET.
abbrev pub with_entry : Entry → Bytes → DatastoreCredentials → DatastoreCredentials
with_entry e credentials_key d = record d {
  datastore_name = e.datastore_name;
  filespace_id = e.filespace_id;
  filespace_name = e.filespace_name;
  bucket_name = e.bucket_name;
  credentials_key = credentials_key;
  region = e.region;
  endpoint = e.endpoint;
}

abbrev pub new_row : ℕ → Time → String → Entry → Bytes → Option Uuid → DatastoreCredentials
new_row id now datastore_id e credentials_key user_id = record {
  id = id;
  datastore_id = datastore_id;
  datastore_name = e.datastore_name;
  filespace_id = e.filespace_id;
  filespace_name = e.filespace_name;
  bucket_name = e.bucket_name;
  region = e.region;
  endpoint = e.endpoint;
  credentials_key = credentials_key;
  user_id = user_id;
  created_at = now;
}

unfoldable pub written :
    Time
    → String
    → Entry
    → Bytes
    → Option Uuid
    → DatastoreTable
    → List DatastoreCredentials
    → List DatastoreCredentials × DatastoreCredentials
written now datastore_id e key user_id t [] =
    let row = new_row t.next_id now datastore_id e key user_id in (insert row t.rows, row)
written now datastore_id e key user_id t (r ∷ _) =
    (update (conflicts datastore_id user_id) (with_entry e key) t.rows, with_entry e key r)

-- INSERT ... ON CONFLICT DO UPDATE ... RETURNING. The sequence moves on a conflict too.
unfoldable pub upsert :
    Time
    → String
    → Entry
    → Bytes
    → Option Uuid
    → DatastoreTable
    → DatastoreTable × DatastoreCredentials
unfolding written
upsert now datastore_id e key user_id t =
    let (rows, row) =
      written now datastore_id e key user_id t (select (conflicts datastore_id user_id) t.rows) in
    (record { rows = rows; next_id = suc t.next_id }, row)

unfoldable pub delete_for_datastore_user :
    String → Option Uuid → DatastoreTable → DatastoreTable × Bool
delete_for_datastore_user datastore_id user_id t = (
  record t { rows = delete (is_datastore_of datastore_id user_id) t.rows },
  ltb 0 (count (is_datastore_of datastore_id user_id) t.rows),
)

-- The dict that callers get, with the key pair decrypted.
pub record Opened : Type 0 where
  pub id : ℕ
  pub datastore_id : String
  pub entry : Entry
  pub access_key : String
  pub secret_key : String
  pub user_id : Option Uuid

abbrev pub opened : DatastoreCredentials → String → String → Opened
opened d access_key secret_key = record {
  id = d.id;
  datastore_id = d.datastore_id;
  entry = record {
    datastore_name = d.datastore_name;
    filespace_id = d.filespace_id;
    filespace_name = d.filespace_name;
    bucket_name = d.bucket_name;
    region = d.region;
    endpoint = d.endpoint;
  };
  access_key = access_key;
  secret_key = secret_key;
  user_id = d.user_id;
}

module _ (f : Fernet) where
  unfoldable pub save_datastore_credentials :
      Time
      → ℕ
      → String
      → Entry
      → String
      → String
      → Option Uuid
      → DatastoreTable
      → DatastoreTable × DatastoreCredentials
  save_datastore_credentials now nonce datastore_id e access_key secret_key user_id t =
      upsert now datastore_id e (encrypt_creds f nonce access_key secret_key) user_id t

  unfoldable pub open_row : DatastoreCredentials → Result Opened
  open_row d = do
    (access_key, secret_key) ← decrypt_creds f d.credentials_key
    ok (opened d access_key secret_key)

  unfoldable pub open_found : Option DatastoreCredentials → Result (Option Opened)
  unfolding open_row
  open_found none = ok none
  open_found (some d) = do o ← open_row d; ok (some o)

  unfoldable pub get_datastore_credentials :
      String → Option Uuid → DatastoreTable → Result (Option Opened)
  unfolding open_found
  get_datastore_credentials datastore_id user_id t = do
    row ← get_for_datastore_user datastore_id user_id t
    open_found row

  unfoldable pub open_all : List DatastoreCredentials → Result (List Opened)
  unfolding open_row
  open_all [] = ok []
  open_all (d ∷ ds) = let rest = open_all ds in do o ← open_row d; os ← rest; ok (o ∷ os)

  unfoldable pub list_all_datastore_credentials :
      Option Uuid → DatastoreTable → Result (List Opened)
  unfolding open_all
  list_all_datastore_credentials user_id t = open_all (list_for_user user_id t)

unfoldable pub delete_datastore_credentials :
    String → Option Uuid → DatastoreTable → DatastoreTable × Bool
delete_datastore_credentials datastore_id user_id t =
    delete_for_datastore_user datastore_id user_id t
