-- ===== src/Access.antt =====
-- app/middleware/auth.py: which requests reach a handler. A token is a text here.
pub mod Users
pub mod Agreed
pub mod Refused
mod Tests
use Prim.Native.String.{◌++◌}
use connect_manager.Prelude.{
  ℕ, String, Bool, true, false, ◌||◌, not, List, [], ◌∷◌, Option, none, some, str_eq, if◌then◌else◌,
}
use connect_manager.Text.Format.{begins_with, after_prefix, skipped}
use connect_manager.Db.Table.{Result, ok, err, key_error, ◌>>=◌}
use connect_manager.Db.Rows.{Uuid, Time}
use connect_manager.Processed.{truthy}
use connect_manager.Auth.Accounts.{AuthDb}
use connect_manager.Auth.Tokens.{Claims, Jwt, decode_token}

abbrev pub public_paths : List String
public_paths =
    "/login" ∷ "/api/auth/login" ∷ "/api/auth/register" ∷ "/static" ∷ "/favicon.ico" ∷ "/health"
    ∷ "/ready" ∷ "/metrics" ∷ []

-- The path, the cookie `access_token` and the Authorization header of a request.
pub record Request : Type 0 where
  pub path : String
  pub cookie : Option String
  pub authorization : Option String

abbrev is_below : String → List String → Bool
is_below path [] = false
is_below path (p ∷ ps) =
    str_eq path p || begins_with path (p ++ "/") || begins_with path p || is_below path ps

unfoldable pub is_public_path : String → Bool
unfolding after_prefix
is_public_path path = is_below path public_paths

abbrev pub header_token : Option String → Option String
header_token none = none
header_token (some h) = if begins_with h "Bearer " then some (skipped 7 h) else none

unfoldable pub get_token : Request → Option String
unfolding after_prefix skipped
get_token r = if truthy r.cookie then r.cookie else header_token r.authorization

-- What the middleware attaches to the request.
pub record Identity : Type 0 where
  pub user_id : Uuid
  pub user_email : String
  pub session_id : String
  pub is_admin : Bool

pub data Outcome : Type 0 where
  forwarded : Option Identity → Outcome
  unauthorized : Outcome
  redirected : (url : String) → Outcome

unfoldable pub unauthorized_response : Request → Outcome
unfolding after_prefix
unauthorized_response r = if begins_with r.path "/api/" then unauthorized else redirected "/login"

-- `payload["jti"]` raises where the token has none.
abbrev pub identity_of : Claims → Option String → Result Identity
identity_of c none = err key_error
identity_of c (some raw) =
    ok (record { user_id = c.sub; user_email = c.email; session_id = raw; is_admin = c.is_admin })

module _ (jwt : Jwt String) where
  unfoldable pub admit : Request → Option Claims → Result Outcome
  unfolding unauthorized_response
  admit r none = ok (unauthorized_response r)
  admit r (some c) = do identity ← identity_of c c.jti; ok (forwarded (some identity))

  abbrev pub check_token : Time → Request → Option String → AuthDb → Result Outcome
  check_token now r none db = ok (unauthorized_response r)
  check_token now r (some token) db = do payload ← decode_token jwt now token db; admit r payload

  unfoldable pub dispatch : Time → Request → AuthDb → Result Outcome
  unfolding is_public_path get_token admit
  dispatch now r db =
      let token = get_token r in
      if is_public_path r.path
      then ok (forwarded none)
      else check_token now r (if truthy token then token else none) db
