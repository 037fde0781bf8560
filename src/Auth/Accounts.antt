-- ===== src/Auth/Accounts.antt =====
-- Users: registration, login, passwords and roles.
pub mod Changes
pub mod Invites
pub mod Login
use Prim.Native.String
use connect_manager.Prelude.{
  ℕ, suc, String, Bool, true, false, ◌&&◌, not, List, [], ◌∷◌, Option, none, some, length, str_eq,
  ltb, ◌==◌, if◌then◌else◌,
}
use connect_manager.Db.Table.{
  Fault, Result, ok, err, integrity_error, ◌>>=◌, select, update, count, insert, one_or_none,
}
use connect_manager.Db.Rows.{Uuid, Time, User, UserSession}
use connect_manager.Db.Repository
use connect_manager.Auth.Password.{validate_password_strength}
use connect_manager.Auth.Email.{is_address, domain_allowed}

pub record AuthDb : Type 0 where
  pub users : List User
  pub sessions : List UserSession

-- What the functions take from outside: passlib's bcrypt context, whose hashes draw a salt, the
-- Unicode class of decimal digits, and `str(exc)`.
pub record Outside : Type 0 where
  pub hash : (salt : ℕ) → String → String
  pub verify : String → String → Bool
  pub is_decimal : ℕ → Bool
  pub describe : Fault → String

abbrev pub with_users : List User → AuthDb → AuthDb
with_users us db = record db { users = us }

-- UserRepository and UserSessionRepository.
abbrev pub user_id_of : User → Uuid
user_id_of u = u.id

unfoldable pub get_by_email : String → AuthDb → Result (Option User)
get_by_email email db = one_or_none (select (λ u. str_eq u.email email) db.users)

unfoldable pub update_last_login : Time → Uuid → AuthDb → AuthDb
update_last_login now user_id db =
    with_users (update (λ u. u.id == user_id) (λ u. record u { last_login = some now }) db.users) db

unfoldable pub update_password : Uuid → String → AuthDb → AuthDb × Bool
update_password user_id password_hash db = (
  with_users
      (update (λ u. u.id == user_id) (λ u. record u { password_hash = password_hash }) db.users) db,
  ltb 0 (count (λ u. u.id == user_id) db.users),
)

-- INSERT INTO users: a taken email violates the unique constraint.
unfoldable pub create_user :
    Uuid → Time → String → String → Option String → Bool → AuthDb → Result (AuthDb × User)
create_user id now email password_hash display_name is_admin db =
    let user : User = record {
      id = id;
      email = email;
      password_hash = password_hash;
      display_name = display_name;
      is_admin = is_admin;
      created_at = now;
      last_login = none;
    } in
    if ltb 0 (count (λ u. str_eq u.email email) db.users)
    then err integrity_error
    else ok (with_users (insert user db.users) db, user)

abbrev pub is_live_of : Uuid → UserSession → Bool
is_live_of user_id s = s.user_id == user_id && not s.revoked

unfoldable pub revoke_all_user_sessions : Uuid → AuthDb → AuthDb × ℕ
revoke_all_user_sessions user_id db = (
  record db {
    sessions = update (is_live_of user_id) (λ s. record s { revoked = true }) db.sessions;
  },
  count (is_live_of user_id) db.sessions,
)

-- What a service function returns: the user or nothing, and a message.
abbrev pub Reply : Type 0
Reply = AuthDb × (Option User × String)

abbrev pub refuse : String → AuthDb → Reply
refuse message db = (db, (none, message))

abbrev domain_message : Option String → String
domain_message none = ""
domain_message (some domain) =
    String.◌++◌ "Only @" (String.◌++◌ domain " email addresses are allowed")

module _ (outside : Outside) where
  -- `session.refresh(user)` reads the row again, with its new `last_login`.
  unfoldable pub login : Time → String → AuthDb → Option User → Reply
  login now password db none = refuse "Invalid email or password" db
  login now password db (some u) =
      if outside.verify password u.password_hash
      then (let db' = update_last_login now u.id db in
          (db', (Repository.get user_id_of u.id db'.users, "")))
      else refuse "Invalid email or password" db

  unfoldable pub authenticate_user : Time → String → String → AuthDb → Result Reply
  unfolding login
  authenticate_user now email password db = do
    user ← get_by_email email db
    ok (login now password db user)

  unfoldable pub created : AuthDb → Result (AuthDb × User) → Reply
  created db (ok (db', user)) = (db', (some user, ""))
  created db (err e) = refuse (String.◌++◌ "Failed to create user: " (outside.describe e)) db

  -- The insertion, where the email is free.
  unfoldable pub register_new :
      Uuid → Time → ℕ → String → String → Option String → Bool → AuthDb → Option User → Reply
  unfolding created
  register_new id now salt email password display_name is_admin db (some existing) =
      refuse "Email already registered" db
  register_new id now salt email password display_name is_admin db none =
      created db (create_user id now email (outside.hash salt password) display_name is_admin db)

  unfoldable pub register_user :
      Option String
      → Uuid
      → Time
      → ℕ
      → String
      → String
      → Option String
      → Bool
      → AuthDb
      → Result Reply
  unfolding register_new
  register_user allowed_domain id now salt email password display_name is_admin db =
      let (strong, message) = validate_password_strength outside.is_decimal password in
      if not (is_address email)
      then ok (refuse "Invalid email format" db)
      else if not (domain_allowed allowed_domain email)
      then ok (refuse (domain_message allowed_domain) db)
      else if not strong
      then ok (refuse message db)
      else do
        existing ← get_by_email email db
        ok (register_new id now salt email password display_name is_admin db existing)

  unfoldable pub replace_password : ℕ → Uuid → String → AuthDb → AuthDb × (Bool × String)
  replace_password salt user_id new_password db =
      let (db', updated) = update_password user_id (outside.hash salt new_password) db in
      if updated
      then ((revoke_all_user_sessions user_id db').0, (true, ""))
      else (db, (false, "Failed to update password"))

  unfoldable pub change_found :
      ℕ → Uuid → String → String → AuthDb → Option User → AuthDb × (Bool × String)
  unfolding replace_password
  change_found salt user_id old_password new_password db none = (db, (false, "User not found"))
  change_found salt user_id old_password new_password db (some u) =
      let (strong, message) = validate_password_strength outside.is_decimal new_password in
      if not (outside.verify old_password u.password_hash)
      then (db, (false, "Current password is incorrect"))
      else if not strong
      then (db, (false, message))
      else replace_password salt user_id new_password db

  unfoldable pub change_password : ℕ → Uuid → String → String → AuthDb → AuthDb × (Bool × String)
  unfolding change_found
  change_password salt user_id old_password new_password db =
      change_found salt user_id old_password new_password db
        (Repository.get user_id_of user_id db.users)

  unfoldable pub ensure_admin_exists : Uuid → Time → ℕ → String → String → AuthDb → Result AuthDb
  ensure_admin_exists id now salt admin_email admin_password db =
      if Repository.count_all db.users == 0
      then (do
        made ←
            create_user id now admin_email (outside.hash salt admin_password) (some "Admin") true db
        ok made.0)
      else ok db

-- The new role, and the end of every session of the user.
unfoldable pub role_changed : Uuid → AuthDb → List User × Option User → AuthDb × (Bool × String)
role_changed user_id db (users, none) = (db, (false, "User not found"))
role_changed user_id db (users, some u) =
    ((revoke_all_user_sessions user_id (with_users users db)).0, (true, ""))

unfoldable pub change_user_role : Uuid → Bool → AuthDb → AuthDb × (Bool × String)
unfolding role_changed
change_user_role user_id is_admin db =
    role_changed user_id db
      (Repository.update_by_id user_id_of user_id (λ u. record u { is_admin = is_admin }) db.users)
