-- ===== src/Credentials/Sqs/Saved.antt =====
-- What is read back of saved SQS credentials.
use connect_manager.Prelude.{ℕ, ◌≡◌, ◌≢◌, refl, ◌∙◌, String, [], ◌∷◌, Option, some, arith}
use connect_manager.Db.Table.{ok, select, delete}
use connect_manager.Db.Table.Laws.{select-append, select-delete, select-delete_self, owned_by_iff}
use connect_manager.Db.Table.Keyed.{select-insert_other}
use connect_manager.Db.Rows.{Uuid, Time, SqsCredentials}
use connect_manager.Credentials.Fernet.{Fernet}
use connect_manager.Credentials.Sqs.{
  SqsCredentialsTable, is_of_user, list_for_user, opened, save_sqs_credentials, get_sqs_credentials,
  list_sqs_credentials, open_row,
}

module _ (f : Fernet) (now : Time) (nonce : ℕ) (access secret region : String) (u : Option Uuid)
    (t : SqsCredentialsTable) where
  abbrev saved : SqsCredentialsTable × SqsCredentials
  saved = save_sqs_credentials f now nonce access secret region u t

  list-save : list_for_user u saved.0 ≡ saved.1 ∷ []
  unfolding list_for_user save_sqs_credentials select
  list-save =
      select-append (is_of_user u) (delete (is_of_user u) t.rows) _
      ∙ rw (select-delete_self (is_of_user u) t.rows, (owned_by_iff u u).1 refl) refl

  open-saved : open_row f saved.1 ≡ ok (opened saved.1 secret)
  unfolding save_sqs_credentials open_row
  open-saved = rw f.decrypt-encrypt refl

  -- After a save the user reads the new key pair and region, the user's list holds it alone, however
  -- many rows the user had, and any other user's rows are as they were.
  pub get-save_sqs_credentials :
      (v : Option Uuid)
      → v ≢ u
      → (get_sqs_credentials f u saved.0
          ≡ ok (
              some (record {
                id = t.next_id;
                access_key = access;
                secret_key = secret;
                region = region;
                user_id = u;
              })))
        × (list_sqs_credentials f u saved.0 ≡ ok (opened saved.1 secret ∷ []))
        × (list_for_user v saved.0 ≡ list_for_user v t)
  get-save_sqs_credentials v other = (
    unfold get_sqs_credentials in
        (rw (list-save, open-saved) (unfold save_sqs_credentials in refl)),
    unfold list_sqs_credentials in (rw (list-save, open-saved) refl),
    unfold list_for_user save_sqs_credentials in
        (select-insert_other (is_of_user v) _ _ (ground (arith, owned_by_iff v u))
          ∙ select-delete (is_of_user v) (is_of_user u)
              (λ c h. ground (arith, h, owned_by_iff u c.user_id, owned_by_iff v c.user_id))
              t.rows),
  )
