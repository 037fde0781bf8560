-- ===== src/Auth/Accounts/Invites.antt =====
-- `create_invite_user` of app/services/auth.py. The temporary password is what
-- `secrets.token_urlsafe(12)` draws, and is an argument.
use connect_manager.Prelude.{
  ltb, length, ℕ, ◌≡◌, refl, String, Bool, true, false, not, Option, none, some, str_eq,
  if◌then◌else◌,
}
use connect_manager.Db.Table.{Result, ok, err, assertion_failed, ◌>>=◌}
use connect_manager.Db.Rows.{Uuid, Time}
use connect_manager.Text.{codes}
use connect_manager.Auth.Password.{any, is_upper, is_lower, validate_password_strength}
use connect_manager.Auth.Email.{is_address, domain_allowed}
use connect_manager.Auth.Accounts.{AuthDb, Outside, Reply, register_user}

-- The new user's id, the temporary password, and a message.
pub record Invite : Type 0 where
  pub user_id : Option Uuid
  pub temp_password : String
  pub message : String

unfoldable pub invited : String → Reply → Result (AuthDb × Invite)
invited temp_password (db, (user, error)) =
    if not (str_eq error "")
    then ok (db, record { user_id = none; temp_password = ""; message = error })
    else elim user [
      | none ↦ err assertion_failed
      | some u ↦
          ok (db, record { user_id = some u.id; temp_password = temp_password; message = "" })
    ]

-- One test of a password, and the tests after it.
message_of_step :
    (b : Bool) (message : String) (rest : Bool × String)
    → str_eq message "" ≡ false
    → (rest.0 ≡ false → str_eq rest.1 "" ≡ false)
    → (if b then (false, message) else rest).0 ≡ false
    → str_eq (if b then (false, message) else rest).1 "" ≡ false
message_of_step true message rest said later weak = said
message_of_step false message rest said later weak = later weak

passed : (true ≡ false) → str_eq "" "" ≡ false
passed weak = absurd (cc)

-- A refused password comes with a message.
message_of_weak :
    (is_decimal : ℕ → Bool) (password : String)
    → (validate_password_strength is_decimal password).0 ≡ false
    → str_eq (validate_password_strength is_decimal password).1 "" ≡ false
unfolding validate_password_strength
message_of_weak is_decimal password =
    let s = codes password in
    let digit : Bool × String =
      if not (any is_decimal s)
      then (false, "Password must contain at least one digit")
      else (true, "") in
    let lower : Bool × String =
      if not (any is_lower s)
      then (false, "Password must contain at least one lowercase letter")
      else digit in
    let upper : Bool × String =
      if not (any is_upper s)
      then (false, "Password must contain at least one uppercase letter")
      else lower in
    message_of_step (ltb (length s) 8) "Password must be at least 8 characters" upper refl (
      message_of_step (not (any is_upper s)) "Password must contain at least one uppercase letter"
        lower refl
        (message_of_step (not (any is_lower s))
          "Password must contain at least one lowercase letter" digit refl
          (message_of_step (not (any is_decimal s)) "Password must contain at least one digit"
            (true, "") refl passed)))

module _ (outside : Outside) where
  unfoldable pub create_invite_user :
      Option String → Uuid → Time → ℕ → String → String → Bool → AuthDb → Result (AuthDb × Invite)
  create_invite_user allowed_domain id now salt temp_password email is_admin db = do
    reply ← register_user outside allowed_domain id now salt email temp_password none is_admin db
    invited temp_password reply

  -- An invitation to an allowed address whose drawn password is not strong is refused with the
  -- message about passwords, and makes no user.
  pub create_invite_user_weak :
      (allowed_domain : Option String) (id : Uuid) (now : Time) (salt : ℕ)
      (temp_password email : String) (is_admin : Bool) (db : AuthDb)
      → is_address email ≡ true
      → domain_allowed allowed_domain email ≡ true
      → (validate_password_strength outside.is_decimal temp_password).0 ≡ false
      → create_invite_user allowed_domain id now salt temp_password email is_admin db
        ≡ ok (
          db,
          record {
            user_id = none;
            temp_password = "";
            message = (validate_password_strength outside.is_decimal temp_password).1;
          },
        )
  unfolding create_invite_user register_user invited
  create_invite_user_weak allowed_domain id now salt temp_password email is_admin db a d weak =
      rw (a, d, weak, message_of_weak outside.is_decimal temp_password weak) refl
