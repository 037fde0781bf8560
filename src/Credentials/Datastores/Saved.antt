-- ===== src/Credentials/Datastores/Saved.antt =====
-- What is read back of saved S3 credentials.
use connect_manager.Prelude.{
  ℕ, suc, ◌≡◌, ◌≢◌, ◌≤◌, refl, ap, sym, ◌∙◌, String, true, false, List, [], ◌∷◌, Option, none, some,
  arith, eq_iff, eq_refl, ltb, eq_refl, inl, inr, Bool-cases,
}
use connect_manager.Db.Table.{Result, ok, err, multiple_results, select, count, owned_by}
use connect_manager.Db.Table.Laws.{select-update, count-append, owned_by_iff}
use connect_manager.Db.Table.Keyed.{
  select_of_zero, select_of_one, holds_of_found, one_or_none_of_many, count-singleton,
  select-insert_only, select-insert_other, select-update_one,
}
use connect_manager.Db.Rows.{Uuid, Time, Bytes, DatastoreCredentials}
use connect_manager.Credentials.Fernet.{Fernet, encrypt_creds, decrypt-encrypt_creds}
use connect_manager.Credentials.Datastores.{
  DatastoreTable, Entry, is_datastore_of, conflicts, list_for_user, get_for_datastore_user,
  with_entry, new_row, written, upsert, Opened, opened, save_datastore_credentials, open_row,
  get_datastore_credentials,
}

is_datastore_of-new_row :
    (id : ℕ) (now : Time) (name : String) (e : Entry) (key : Bytes) (u : Option Uuid)
    → is_datastore_of name u (new_row id now name e key u) ≡ true
is_datastore_of-new_row id now name e key u = ground (arith, eq_refl name, owned_by_iff u u)

-- What answers to the name and the user after an upsert: exactly one row, with the saved columns.
pub record Stored (name : String) (user : Option Uuid) (e : Entry) (key : Bytes)
    (t : DatastoreTable) : Type 0 where
  pub row : DatastoreCredentials
  pub found : select (is_datastore_of name user) t.rows ≡ row ∷ []
  pub columns : with_entry e key row ≡ row
  pub matching : is_datastore_of name user row ≡ true

upsert-Stored :
    (now : Time) (name : String) (e : Entry) (key : Bytes) (u : Uuid) (t : DatastoreTable)
    → count (is_datastore_of name (some u)) t.rows ≤ 1
    → Stored name (some u) e key (upsert now name e key (some u) t).0
unfolding upsert
upsert-Stored now name e key u t h =
    elim (Bool-cases (ltb 0 (count (is_datastore_of name (some u)) t.rows))) [
      | inl q ↦
          let (r, one) = select_of_one (is_datastore_of name (some u)) t.rows (ground (arith, q)) in
          rw one (record {
            row = with_entry e key r;
            found =
                select-update_one (is_datastore_of name (some u)) (with_entry e key) (λ _. refl)
                  t.rows one;
            columns = refl;
            matching = holds_of_found (is_datastore_of name (some u)) t.rows one;
          })
      | inr q ↦
          let free : count (is_datastore_of name (some u)) t.rows ≡ 0 = ground (arith, q) in
          rw (select_of_zero (is_datastore_of name (some u)) t.rows free) (record {
            row = new_row t.next_id now name e key (some u);
            found =
                select-insert_only (is_datastore_of name (some u)) _ t.rows free
                  (is_datastore_of-new_row t.next_id now name e key (some u));
            columns = refl;
            matching = is_datastore_of-new_row t.next_id now name e key (some u);
          })
    ]

list_for_user-written :
    (now : Time) (name : String) (e : Entry) (key : Bytes) (u : Uuid) (v : Option Uuid)
    (t : DatastoreTable) (hits : List DatastoreCredentials)
    → some u ≢ v
    → select (λ d. owned_by v d.user_id) (written now name e key (some u) t hits).0
      ≡ select (λ d. owned_by v d.user_id) t.rows
unfolding written
list_for_user-written now name e key u v t [] other =
    select-insert_other _ _ t.rows (ground (arith, owned_by_iff v (some u)))
list_for_user-written now name e key u v t (_ ∷ _) other =
    select-update _ _ _
      (λ r h.
        let apart : owned_by v r.user_id ≡ false =
          ground (arith, h, owned_by_iff (some u) r.user_id, owned_by_iff v r.user_id) in
        (apart, apart))
      t.rows

-- A row without a user never conflicts: it is added beside those that are there.
count-upsert_anonymous :
    (now : Time) (name : String) (e : Entry) (key : Bytes) (t : DatastoreTable)
    → count (is_datastore_of name none) (upsert now name e key none t).0.rows
      ≡ suc (count (is_datastore_of name none) t.rows)
unfolding upsert written select
count-upsert_anonymous now name e key t = rw (select_of_nothing t.rows) (
    count-append (is_datastore_of name none) t.rows _
    ∙ rw
        (
          count-singleton (is_datastore_of name none) (new_row t.next_id now name e key none),
          is_datastore_of-new_row t.next_id now name e key none,
        )
        (omega arith))
  where
    select_of_nothing : (rs : List DatastoreCredentials) → select (conflicts name none) rs ≡ []
    select_of_nothing [] = refl
    select_of_nothing (_ ∷ rs) = select_of_nothing rs

-- What a user is given back: the saved columns and key pair, under the user's name.
pub record Returned (name : String) (user : Option Uuid) (e : Entry) (access secret : String)
    (r : Result (Option Opened)) : Type 0 where
  pub found : Opened
  pub result : r ≡ ok (some found)
  pub entry : found.entry ≡ e
  pub access_key : found.access_key ≡ access
  pub secret_key : found.secret_key ≡ secret
  pub datastore_id : found.datastore_id ≡ name
  pub user_id : found.user_id ≡ user

module _ (f : Fernet) (now : Time) (nonce : ℕ) (name : String) (e : Entry)
    (access secret : String) where
  Stored-Returned :
      (user : Option Uuid) (t : DatastoreTable)
      → Stored name user e (encrypt_creds f nonce access secret) t
      → Returned name user e access secret (get_datastore_credentials f name user t)
  unfolding get_datastore_credentials get_for_datastore_user open_row
  Stored-Returned user t s =
      let key : s.row.credentials_key ≡ encrypt_creds f nonce access secret =
        ap (λ (r : DatastoreCredentials). r.credentials_key) (sym s.columns) in
      record {
        found = opened s.row access secret;
        result = rw (s.found, key, decrypt-encrypt_creds f nonce access secret) refl;
        entry = ap (λ r. (opened r access secret).entry) (sym s.columns);
        access_key = refl;
        secret_key = refl;
        datastore_id = ground (arith, s.matching, eq_iff s.row.datastore_id name);
        user_id = ground (arith, s.matching, owned_by_iff user s.row.user_id);
      }

  -- Where a user has at most one row for a datastore, what the user saves for it is what the user
  -- reads back, whether the row was new or replaced, and no other user's list changes.
  pub get-save_datastore_credentials :
      (u : Uuid) (v : Option Uuid) (t : DatastoreTable)
      → count (is_datastore_of name (some u)) t.rows ≤ 1
      → some u ≢ v
      → Returned name (some u) e access secret (
          get_datastore_credentials f name
            (some u)
            (save_datastore_credentials f now nonce name e access secret (some u) t).0)
        × (list_for_user v
              (save_datastore_credentials f now nonce name e access secret (some u) t).0
            ≡ list_for_user v t)
  unfolding save_datastore_credentials
  get-save_datastore_credentials u v t h other = (
    Stored-Returned (some u) _
        (upsert-Stored now name e (encrypt_creds f nonce access secret) u t h),
    unfold list_for_user upsert in
        list_for_user-written now name e (encrypt_creds f nonce access secret) u v t
          (select (conflicts name (some u)) t.rows) other,
  )

-- Credentials that are saved twice without a user for one datastore, with any columns and key pairs,
-- cannot be read any more: the read raises for more than one row.
pub get-save_twice_anonymous :
    (f : Fernet) (now later : Time) (nonce nonce' : ℕ) (name : String) (e e' : Entry)
    (access secret access' secret' : String) (t : DatastoreTable)
    → get_datastore_credentials f name none
        (save_datastore_credentials f later nonce' name e' access' secret' none
          (save_datastore_credentials f now nonce name e access secret none t).0).0
      ≡ err multiple_results
unfolding get_datastore_credentials get_for_datastore_user save_datastore_credentials
get-save_twice_anonymous f now later nonce nonce' name e e' access secret access' secret' t =
    let first = (upsert now name e (encrypt_creds f nonce access secret) none t).0 in
    let second = upsert later name e' (encrypt_creds f nonce' access' secret') none first in
    rw
      (one_or_none_of_many (is_datastore_of name none) second.0.rows (
        omega (
          arith,
          count-upsert_anonymous later name e' (encrypt_creds f nonce' access' secret') first,
          count-upsert_anonymous now name e (encrypt_creds f nonce access secret) t,
        )))
      refl
