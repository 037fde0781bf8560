-- ===== src/Auth/Tokens.antt =====
-- Access tokens and their session records.
pub mod Revocation
use connect_manager.Prelude.{
  ℕ, ◌+◌, ◌*◌, ◌<◌, ◌≡◌, String, Bool, true, false, ◌&&◌, ◌||◌, not, List, [], ◌∷◌, Option, none,
  some, str_eq, ltb, leb, ◌==◌, if◌then◌else◌, is_some,
}
use connect_manager.Db.Table.{
  Fault, Result, ok, err, integrity_error, bad_uuid, ◌>>=◌, select, update, count, insert,
  one_or_none,
}
use connect_manager.Db.Rows.{Uuid, Time, User, UserSession}
use connect_manager.Db.Repository
use connect_manager.Processed.{truthy}
use connect_manager.Auth.Accounts.{AuthDb, user_id_of, revoke_all_user_sessions}

pub record Claims : Type 0 where
  pub sub : Uuid
  pub email : String
  pub is_admin : Bool
  pub jti : Option String

-- python-jose under the process's secret, with its tokens `T`, and the text form of UUIDs. A token
-- that was encoded with an expiry decodes before it, and a UUID reads back.
pub record Jwt (T : Type 0) : Type 0 where
  pub encode : Claims → (exp : Time) → (iat : Time) → T
  pub decode : (now : Time) → T → Option Claims
  pub show_uuid : Uuid → String
  pub parse_uuid : String → Option Uuid
  pub decode-encode :
      (now exp iat : Time) (c : Claims) → now < exp → decode now (encode c exp iat) ≡ some c
  pub parse-show : (id : Uuid) → parse_uuid (show_uuid id) ≡ some id
  pub show-ne : (id : Uuid) → str_eq (show_uuid id) "" ≡ false

abbrev pub microseconds_per_minute : ℕ
microseconds_per_minute = 60_000_000

-- INSERT INTO user_sessions: the key is new and the user exists.
unfoldable pub create_session : Time → Uuid → Uuid → Time → AuthDb → Result AuthDb
create_session now user_id session_id expires_at db =
    let row : UserSession = record {
      id = session_id;
      user_id = user_id;
      created_at = now;
      expires_at = expires_at;
      revoked = false;
    } in
    if ltb 0 (count (λ s. s.id == session_id) db.sessions)
      || not (is_some (Repository.get user_id_of user_id db.users))
    then err integrity_error
    else ok (record db { sessions = insert row db.sessions })

abbrev pub is_active : Time → Uuid → UserSession → Bool
is_active now session_id s = s.id == session_id && not s.revoked && ltb now s.expires_at

unfoldable pub get_active_session : Time → Uuid → AuthDb → Result (Option UserSession)
get_active_session now session_id db = one_or_none (select (is_active now session_id) db.sessions)

unfoldable pub revoke_session : Uuid → AuthDb → AuthDb × Bool
revoke_session session_id db = (
  record db {
    sessions = update (λ s. s.id == session_id) (λ s. record s { revoked = true }) db.sessions;
  },
  ltb 0 (count (λ s. s.id == session_id) db.sessions),
)

unfoldable pub logout_user : Uuid → AuthDb → AuthDb × Bool
unfolding revoke_session
logout_user session_id db = revoke_session session_id db

unfoldable pub logout_all_sessions : Uuid → AuthDb → AuthDb × ℕ
logout_all_sessions user_id db = revoke_all_user_sessions user_id db

module _ {T : Type 0} (jwt : Jwt T) where
  -- `session_id` is the fresh `uuid4()`, and `minutes` is ACCESS_TOKEN_EXPIRE_MINUTES.
  unfoldable pub create_access_token :
      ℕ → Time → Uuid → Uuid → String → Bool → AuthDb → Result (AuthDb × T)
  create_access_token minutes now session_id user_id email is_admin db = do
    let expires_at = now + minutes * microseconds_per_minute
    db' ← create_session now user_id session_id expires_at db
    let claims : Claims = record {
      sub = user_id;
      email = email;
      is_admin = is_admin;
      jti = some (jwt.show_uuid session_id);
    }
    ok (db', jwt.encode claims expires_at now)

  unfoldable pub check_session : Time → Claims → Option Uuid → AuthDb → Result (Option Claims)
  check_session now claims none db = err bad_uuid
  check_session now claims (some session_id) db = do
    active ← get_active_session now session_id db
    ok (if is_some active then some claims else none)

  unfoldable pub check_jti : Time → Claims → Option String → AuthDb → Result (Option Claims)
  unfolding check_session
  check_jti now claims none db = ok (some claims)
  check_jti now claims (some raw) db =
      if str_eq raw "" then ok (some claims) else check_session now claims (jwt.parse_uuid raw) db

  unfoldable pub check_claims : Time → Option Claims → AuthDb → Result (Option Claims)
  unfolding check_jti
  check_claims now none db = ok none
  check_claims now (some claims) db = check_jti now claims claims.jti db

  unfoldable pub decode_token : Time → T → AuthDb → Result (Option Claims)
  unfolding check_claims
  decode_token now token db = check_claims now (jwt.decode now token) db
