-- ===== src/Auth/Tests.antt =====
-- A plain-text hash and a token that is its session's number, and the accounts on them.
use connect_manager.Prelude.{
  ℕ, ◌<◌, ◌≡◌, refl, Bool, false, [], ◌∷◌, none, some, arith, str_eq, eq_refl, ltb, leb, ◌&&◌,
  if◌then◌else◌,
}
use connect_manager.Db.Rows.{Time, User, UserSession}
use connect_manager.Db.Table.{ok, count, select}
use connect_manager.Db.Repository
use connect_manager.Text.Framed.{strokes, read_strokes, read-strokes, strokes-ne}
use connect_manager.Auth.Password.{validate_password_strength}
use connect_manager.Auth.Email.{is_address, domain_allowed}
use connect_manager.Auth.Accounts.{
  AuthDb, Outside, change_password, register_user, authenticate_user, update_last_login,
  get_by_email, create_user, update_password,
}
use connect_manager.Auth.Accounts.Login.{authenticate-register}
use connect_manager.Auth.Tokens.{
  Claims, Jwt, create_access_token, create_session, decode_token, logout_user,
}
use connect_manager.Auth.Tokens.Revocation.{
  decode-logout, decode-change_password, decode-create_access_token,
}

abbrev is_digit : ℕ → Bool
is_digit c = leb b'0' c && leb c b'9'

abbrev plain : Outside
plain = record {
  hash = λ salt p. p;
  verify = str_eq;
  is_decimal = is_digit;
  describe = λ e. "error";
}

abbrev empty : AuthDb
empty = record { users = []; sessions = [] }

abbrev ann : User
ann = record {
  id = 7;
  email = "ann@x.io";
  password_hash = "Secret12";
  display_name = none;
  is_admin = false;
  created_at = 5;
  last_login = none;
}

abbrev with_ann : AuthDb
with_ann = record { users = ann ∷ []; sessions = [] }

registered :
    register_user plain none 7 5 0 "ann@x.io" "Secret12" none false empty
    ≡ ok (with_ann, (some ann, ""))
unfolding register_user validate_password_strength is_address domain_allowed get_by_email select
    create_user count
registered = refl

authenticate-register_example :
    (authenticate_user plain 9 "ann@x.io" "Secret12" with_ann
      ≡ ok (update_last_login 9 7 with_ann, (some (record ann { last_login = some 9 }), "")))
    × (count (λ v. str_eq v.email "ann@x.io") with_ann.users ≡ 1)
unfolding Repository.get
authenticate-register_example =
    authenticate-register plain none 7 5 0 "ann@x.io" "Secret12" none false empty with_ann ann "" 9
      (eq_refl "Secret12") refl registered

abbrev session : UserSession
session = record { id = 3; user_id = 7; created_at = 5; expires_at = 100; revoked = false }

abbrev one_session : AuthDb
one_session = record { users = ann ∷ []; sessions = session ∷ [] }

abbrev Token : Type 0
Token = Claims × Time

unexpired :
    (now exp : Time) (c : Claims) → now < exp → (if ltb now exp then some c else none) ≡ some c
unexpired now exp c h = ground arith

abbrev open_tokens : Jwt Token
open_tokens = record {
  encode = λ c exp iat. (c, exp);
  decode = λ now t. if ltb now t.1 then some t.0 else none;
  show_uuid = strokes;
  parse_uuid = read_strokes;
  decode-encode = λ now exp iat c h. unexpired now exp c h;
  parse-show = read-strokes;
  show-ne = strokes-ne;
}

abbrev claims : Claims
claims = record { sub = 7; email = "ann@x.io"; is_admin = false; jti = some (strokes 3) }

abbrev signed_in : AuthDb
signed_in = record { users = ann ∷ []; sessions = record session { expires_at = 60_000_005 } ∷ [] }

signing_in :
    create_access_token open_tokens 1 5 3 7 "ann@x.io" false with_ann
    ≡ ok (signed_in, (claims, 60_000_005))
unfolding create_access_token create_session count Repository.get
signing_in = refl

decode-create_access_token_example :
    decode_token open_tokens 50 (claims, 60_000_005) signed_in ≡ ok (some claims)
decode-create_access_token_example =
    decode-create_access_token open_tokens 1 5 50 3 7 "ann@x.io" false with_ann signed_in
      (claims, 60_000_005) signing_in (omega arith)

decode-logout_example :
    decode_token open_tokens 50 (claims, 60_000_005) (logout_user 3 signed_in).0 ≡ ok none
decode-logout_example =
    decode-logout open_tokens 50 (claims, 60_000_005) (strokes 3) claims 3 refl refl refl refl
      signed_in

decode-change_password_example :
    decode_token open_tokens 50
      (claims, 60_000_005)
      (change_password plain 0 7 "Secret12" "Better34" signed_in).0
    ≡ ok none
unfolding change_password Repository.get validate_password_strength update_password count
decode-change_password_example =
    decode-change_password open_tokens 50 (claims, 60_000_005) (strokes 3) claims 3 refl refl refl
      refl 7 signed_in (λ e. refl, tt) plain 0 "Secret12" "Better34" refl
