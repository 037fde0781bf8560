-- ===== src/Credentials/Sqs.antt =====
-- SqsCredentialsRepository, and the SQS credentials that state.py keeps in it: one row for a user,
-- as every save deletes what was there. The secret key is stored encrypted.
pub mod Saved
use connect_manager.Prelude.{
  ℕ, suc, String, Bool, true, false, List, [], ◌∷◌, Option, none, some, ltb, if◌then◌else◌,
}
use connect_manager.Db.Table.{Result, ok, err, ◌>>=◌, select, delete, count, insert, owned_by}
use connect_manager.Db.Rows.{Uuid, Time, Bytes, SqsCredentials}
use connect_manager.Credentials.Fernet.{Fernet}

pub record SqsCredentialsTable : Type 0 where
  pub rows : List SqsCredentials
  pub next_id : ℕ

abbrev pub is_of_user : Option Uuid → SqsCredentials → Bool
is_of_user user_id c = owned_by user_id c.user_id

unfoldable pub list_for_user : Option Uuid → SqsCredentialsTable → List SqsCredentials
list_for_user user_id t = select (is_of_user user_id) t.rows

abbrev pub first : List SqsCredentials → Option SqsCredentials
first [] = none
first (c ∷ cs) = some c

unfoldable pub get_for_user : Option Uuid → SqsCredentialsTable → Option SqsCredentials
get_for_user user_id t = first (list_for_user user_id t)

unfoldable pub delete_for_user : Option Uuid → SqsCredentialsTable → SqsCredentialsTable × ℕ
delete_for_user user_id t =
    (record t { rows = delete (is_of_user user_id) t.rows }, count (is_of_user user_id) t.rows)

unfoldable pub create :
    Time
    → String
    → Bytes
    → String
    → Option Uuid
    → SqsCredentialsTable
    → SqsCredentialsTable × SqsCredentials
create now access_key secret_key_encrypted region user_id t =
    let row : SqsCredentials = record {
      id = t.next_id;
      access_key = access_key;
      secret_key_encrypted = secret_key_encrypted;
      region = region;
      user_id = user_id;
      created_at = now;
    } in
    (record { rows = insert row t.rows; next_id = suc t.next_id }, row)

unfoldable pub upsert_for_user :
    Time
    → String
    → Bytes
    → String
    → Option Uuid
    → SqsCredentialsTable
    → SqsCredentialsTable × SqsCredentials
unfolding create delete_for_user
upsert_for_user now access_key secret_key_encrypted region user_id t =
    create now access_key secret_key_encrypted region user_id (delete_for_user user_id t).0

-- The dict that callers get.
pub record Opened : Type 0 where
  pub id : ℕ
  pub access_key : String
  pub secret_key : String
  pub region : String
  pub user_id : Option Uuid

abbrev pub opened : SqsCredentials → String → Opened
opened c secret_key = record {
  id = c.id;
  access_key = c.access_key;
  secret_key = secret_key;
  region = c.region;
  user_id = c.user_id;
}

module _ (f : Fernet) where
  unfoldable pub save_sqs_credentials :
      Time
      → ℕ
      → String
      → String
      → String
      → Option Uuid
      → SqsCredentialsTable
      → SqsCredentialsTable × SqsCredentials
  unfolding create delete_for_user
  save_sqs_credentials now nonce access_key secret_key region user_id t =
      create now access_key (f.encrypt nonce secret_key) region user_id
        (delete_for_user user_id t).0

  unfoldable pub open_row : SqsCredentials → Result Opened
  open_row c = do secret_key ← f.decrypt c.secret_key_encrypted; ok (opened c secret_key)

  unfoldable pub open_first : List SqsCredentials → Result (Option Opened)
  unfolding open_row
  open_first [] = ok none
  open_first (c ∷ cs) = do o ← open_row c; ok (some o)

  unfoldable pub get_sqs_credentials : Option Uuid → SqsCredentialsTable → Result (Option Opened)
  unfolding open_first list_for_user
  get_sqs_credentials user_id t = open_first (list_for_user user_id t)

  unfoldable pub open_all : List SqsCredentials → Result (List Opened)
  unfolding open_row
  open_all [] = ok []
  open_all (c ∷ cs) = let rest = open_all cs in do o ← open_row c; os ← rest; ok (o ∷ os)

  unfoldable pub list_sqs_credentials : Option Uuid → SqsCredentialsTable → Result (List Opened)
  unfolding open_all list_for_user
  list_sqs_credentials user_id t = open_all (list_for_user user_id t)

unfoldable pub delete_sqs_credentials :
    Option Uuid → SqsCredentialsTable → SqsCredentialsTable × Bool
unfolding delete_for_user
delete_sqs_credentials user_id t =
    let (t', deleted) = delete_for_user user_id t in (t', ltb 0 deleted)
