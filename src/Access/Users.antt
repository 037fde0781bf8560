-- ===== src/Access/Users.antt =====
-- app/routes/auth.py: the handlers, which raise an HTTP error or answer, and the database that they
-- leave. A form has been parsed; templates, cookies and ActivityLogger calls are left out.
use Prim.Native.String.{◌++◌}
use connect_manager.Prelude.{
  ℕ, String, Bool, false, List, Option, none, some, str_eq, if◌then◌else◌, ◌==◌,
}
use connect_manager.Db.Table.{Result, ok, err, key_error, bad_uuid, assertion_failed, ◌>>=◌, delete}
use connect_manager.Db.Rows.{Uuid, Time, User}
use connect_manager.Db.Repository
use connect_manager.Processed.{truthy}
use connect_manager.Auth.Accounts
use connect_manager.Auth.Accounts.{
  AuthDb, Outside, user_id_of, authenticate_user, register_user, change_password, change_user_role,
  revoke_all_user_sessions,
}
use connect_manager.Auth.Tokens.{
  Claims, Jwt, decode_token, create_access_token, logout_user, logout_all_sessions,
}
use connect_manager.Text.Format.{begins_with, after_prefix, skipped}
use connect_manager.Access.{Request, Identity}

-- An answer with a body, or an HTTPException.
pub data Answer {ℓ} (A : Type ℓ) : Type ℓ where
  body : A → Answer A
  http_error : (code : ℕ) → (detail : String) → Answer A

-- The context of the account tab: the administrator, the users, an error or a success.
pub record AccountTab : Type 0 where
  pub current_user : Option User
  pub users : List User
  pub error : Option String
  pub success : Option String

abbrev pub account_tab : Option User → Option String → Option String → AuthDb → AccountTab
account_tab current error success db = record {
  current_user = current;
  users = Repository.list 1000 0 db.users;
  error = error;
  success = success;
}

abbrev pub email_of : Option User → String
email_of none = "unknown"
email_of (some u) = u.email

-- ON DELETE CASCADE: the sessions of the user go with the row.
unfoldable pub delete_user_row : Uuid → AuthDb → AuthDb × Bool
delete_user_row user_id db =
    let (users, deleted) = Repository.delete_by_id user_id_of user_id db.users in
    (record { users = users; sessions = delete (λ s. s.user_id == user_id) db.sessions }, deleted)

abbrev pub parsed {ℓ} : {A : Type ℓ} → Option A → Result A
parsed none = err bad_uuid
parsed (some a) = ok a

-- `get_token_from_request`: the cookie's token, or the one of an Authorization header.
abbrev pub bearer_of : Option String → Option String
bearer_of none = none
bearer_of (some h) = if begins_with h "Bearer " then some (skipped 7 h) else none

unfoldable pub get_token_from_request : Request → Option String
unfolding after_prefix skipped
get_token_from_request r = if truthy r.cookie then r.cookie else bearer_of r.authorization

-- `TokenData` of a payload, which raises where there is no "jti".
abbrev pub user_found : Claims → Option String → Result (Option Identity)
user_found c none = err key_error
user_found c (some session) = ok (
    some (record {
      user_id = c.sub;
      user_email = c.email;
      session_id = session;
      is_admin = c.is_admin;
    }))

module _ (jwt : Jwt String) (outside : Outside) where
  abbrev pub token_data : Option Claims → Result (Option Identity)
  token_data none = ok none
  token_data (some c) = user_found c c.jti

  abbrev pub user_of_token : Time → Option String → AuthDb → Result (Option Identity)
  user_of_token now none db = ok none
  user_of_token now (some token) db = do payload ← decode_token jwt now token db; token_data payload

  unfoldable pub get_current_user_optional : Time → Request → AuthDb → Result (Option Identity)
  unfolding get_token_from_request
  get_current_user_optional now r db =
      let token = get_token_from_request r in
      user_of_token now (if truthy token then token else none) db

  -- The rest of a handler for a user who is logged in.
  unfoldable pub get_current_user {ℓ} :
      {A : Type ℓ}
      → Time
      → Request
      → AuthDb
      → (Identity → Result (AuthDb × Answer A))
      → Result (AuthDb × Answer A)
  unfolding get_current_user_optional
  get_current_user now r db rest = get_current_user_optional now r db >>= λ found. elim found [
    | none ↦ ok (db, http_error 401 "Not authenticated")
    | some i ↦ rest i
  ]

  unfoldable pub require_admin {ℓ} :
      {A : Type ℓ}
      → Time
      → Request
      → AuthDb
      → (Identity → Result (AuthDb × Answer A))
      → Result (AuthDb × Answer A)
  unfolding get_current_user
  require_admin now r db rest =
      get_current_user now r db
        λ i. if i.is_admin then rest i else ok (db, http_error 403 "Admin access required")

  -- The user's email and display name, and the token of the cookie.
  abbrev pub LoggedIn : Type 0
  LoggedIn = (String × Option String) × String

  abbrev pub logged_in : ℕ → Time → Uuid → Accounts.Reply → Result (AuthDb × Answer LoggedIn)
  logged_in minutes now session_id (db, (none, error)) =
      if str_eq error "" then err assertion_failed else ok (db, http_error 401 error)
  logged_in minutes now session_id (db, (some u, error)) =
      if str_eq error ""
      then (create_access_token jwt minutes now session_id u.id u.email u.is_admin db >>= λ made.
          ok (made.0, body ((u.email, u.display_name), made.1)))
      else ok (db, http_error 401 error)

  unfoldable pub login :
      ℕ → Time → Uuid → (email password : String) → AuthDb → Result (AuthDb × Answer LoggedIn)
  login minutes now session_id email password db =
      authenticate_user outside now email password db >>= logged_in minutes now session_id

  abbrev pub logged_out : AuthDb → Option Identity → Result (AuthDb × Answer (Unit {0}))
  logged_out db none = ok (db, body tt)
  logged_out db (some i) = do
    session_id ← parsed (jwt.parse_uuid i.session_id)
    ok ((logout_user session_id db).0, body tt)

  unfoldable pub logout : Time → Request → AuthDb → Result (AuthDb × Answer (Unit {0}))
  unfolding get_current_user_optional
  logout now r db = get_current_user_optional now r db >>= logged_out db

  abbrev pub found_user : AuthDb → Option User → Answer User
  found_user db none = http_error 404 "User not found"
  found_user db (some u) = body u

  unfoldable pub get_me : Time → Request → AuthDb → Result (AuthDb × Answer User)
  unfolding get_current_user
  get_me now r db =
      get_current_user now r db
        λ i. ok (db, found_user db (Repository.get user_id_of i.user_id db.users))

  abbrev pub registered :
      ℕ → Time → Uuid → Accounts.Reply → Result (AuthDb × Answer (Uuid × String))
  registered minutes now session_id (db, (none, error)) =
      if str_eq error "" then err assertion_failed else ok (db, http_error 400 error)
  registered minutes now session_id (db, (some u, error)) =
      if str_eq error ""
      then (create_access_token jwt minutes now session_id u.id u.email u.is_admin db >>= λ made.
          ok (made.0, body (u.id, made.1)))
      else ok (db, http_error 400 error)

  -- `disabled` is DISABLE_REGISTRATION; `id`, `salt` and `session_id` are drawn.
  unfoldable pub register :
      Bool
      → Option String
      → ℕ
      → Time
      → (id : Uuid) (salt : ℕ) (session_id : Uuid) → (email password : String) → Option String
      → AuthDb
      → Result (AuthDb × Answer (Uuid × String))
  register disabled domain minutes now id salt session_id email password display_name db =
      if disabled
      then ok (db, http_error 403 "Registration is disabled")
      else register_user outside domain id now salt email password display_name false db
        >>= registered minutes now session_id

  unfoldable pub change_own_password :
      Time
      → Request
      → ℕ
      → (current_password new_password : String) → AuthDb
      → Result (AuthDb × Answer (Unit {0}))
  unfolding get_current_user
  change_own_password now r salt current_password new_password db = get_current_user now r db λ i.
      let (db', (success, error)) =
        change_password outside salt i.user_id current_password new_password db in
      ok (db', if success then body tt else http_error 400 error)

  unfoldable pub list_users : Time → Request → AuthDb → Result (AuthDb × Answer (List User))
  unfolding require_admin
  list_users now r db = require_admin now r db λ i. ok (db, body (Repository.list 1000 0 db.users))

  abbrev pub role_answer :
      Option User → Uuid → Bool → AuthDb × (Bool × String) → AuthDb × Answer AccountTab
  role_answer current target is_admin (db, (success, error)) =
      let email = email_of (Repository.get user_id_of target db.users) in
      let action = if is_admin then "promoted to admin" else "demoted to user" in
      (
        db,
        body (
            if success
            then account_tab current none (some (email ++ (" " ++ action))) db
            else account_tab current (some error) none db),
      )

  unfoldable pub change_role :
      Time → Request → (user_id : String) → Bool → AuthDb → Result (AuthDb × Answer AccountTab)
  unfolding require_admin
  change_role now r user_id is_admin db = require_admin now r db λ i.
      let current = Repository.get user_id_of i.user_id db.users in
      if str_eq user_id (jwt.show_uuid i.user_id)
      then ok (db, body (account_tab current (some "Cannot change your own role") none db))
      else do
        target ← parsed (jwt.parse_uuid user_id)
        ok (role_answer current target is_admin (change_user_role target is_admin db))

  -- Only a deletion that found its row is committed.
  abbrev pub deletion_answer : Option User → AuthDb → AuthDb × Bool → AuthDb × Answer AccountTab
  deletion_answer current db (db', deleted) =
      if deleted
      then (db', body (account_tab current none (some "User deleted successfully") db'))
      else (db, body (account_tab current (some "User not found") none db))

  unfoldable pub delete_user :
      Time → Request → (user_id : String) → AuthDb → Result (AuthDb × Answer AccountTab)
  unfolding require_admin delete_user_row
  delete_user now r user_id db = require_admin now r db λ i.
      let current = Repository.get user_id_of i.user_id db.users in
      if str_eq user_id (jwt.show_uuid i.user_id)
      then ok (db, body (account_tab current (some "Cannot delete your own account") none db))
      else do
        target ← parsed (jwt.parse_uuid user_id)
        ok (
            deletion_answer current db
              (delete_user_row target (revoke_all_user_sessions target db).0))

  unfoldable pub logout_everywhere : Time → Request → AuthDb → Result (AuthDb × Answer ℕ)
  unfolding get_current_user
  logout_everywhere now r db =
      get_current_user now r db
        λ i. let (db', n) = logout_all_sessions i.user_id db in ok (db', body n)
