-- ===== src/Access/Tests.antt =====
-- One user with a session, and tokens that say who holds them.
use connect_manager.Prelude.{
  ℕ, ◌<◌, ◌≡◌, refl, ap, ◌∙◌, String, Bool, true, false, List, [], ◌∷◌, Option, none, some, arith,
  str_eq, ltb, if◌then◌else◌, inr, or_else,
}
use connect_manager.Db.Table.{ok, select, update}
use connect_manager.Db.Rows.{Time, UserSession}
use connect_manager.Text.Framed.{
  strokes, read_strokes, read-strokes, strokes-ne, onto, texts, texts-onto,
}
use connect_manager.Auth.Accounts.{AuthDb, Outside}
use connect_manager.Auth.Tokens.{Claims, Jwt, logout_user, decode_token, get_active_session}
use connect_manager.Access.{
  Request, Identity, dispatch, unauthorized_response, get_token, is_public_path,
}
use connect_manager.Access.Users.{body, get_current_user_optional, logout}
use connect_manager.Access.Agreed.{seen, dispatch-get_current_user_optional}
use connect_manager.Access.Refused.{logout-dispatch}

abbrev flag : Bool → String
flag true = "t"
flag false = "f"

abbrev framed_jti : Option String → String → String
framed_jti none rest = onto "n" rest
framed_jti (some raw) rest = onto "j" (onto raw rest)

abbrev encoded : Claims → Time → String
encoded c exp =
    onto (strokes exp)
      (onto (strokes c.sub) (onto c.email (onto (flag c.is_admin) (framed_jti c.jti ""))))

abbrev jti_of : List String → Option String
jti_of (k ∷ raw ∷ ts) = some raw
jti_of ts = none

abbrev number : String → ℕ
number s = or_else (read_strokes s) 0

abbrev decoded : Time → List String → Option Claims
decoded now (exp ∷ sub ∷ email ∷ admin ∷ ts) =
    if ltb now (number exp)
    then some
        (record { sub = number sub; email = email; is_admin = str_eq admin "t"; jti = jti_of ts })
    else none
decoded now ts = none

jti_of_framed : (jti : Option String) → jti_of (texts (framed_jti jti "")) ≡ jti
jti_of_framed none = refl
jti_of_framed (some raw) = rw (texts-onto "j" (onto raw ""), texts-onto raw "") refl

flag_lem : (b : Bool) → str_eq (flag b) "t" ≡ b
flag_lem true = refl
flag_lem false = refl

number-strokes : (n : ℕ) → number (strokes n) ≡ n
number-strokes n = ap (λ o. or_else o 0) (read-strokes n)

texts-encoded :
    (c : Claims) (exp : Time)
    → texts (encoded c exp)
      ≡ strokes exp ∷ strokes c.sub ∷ c.email ∷ flag c.is_admin ∷ texts (framed_jti c.jti "")
texts-encoded c exp =
    let jti = framed_jti c.jti "" in
    let admin = onto (flag c.is_admin) jti in
    let email = onto c.email admin in
    rw
      (
        texts-onto (strokes exp) (onto (strokes c.sub) email),
        texts-onto (strokes c.sub) email,
        texts-onto c.email admin,
        texts-onto (flag c.is_admin) jti,
      )
      refl

decoded-encoded :
    (now exp iat : Time) (c : Claims) → now < exp → decoded now (texts (encoded c exp)) ≡ some c
decoded-encoded now exp iat c h = ap (decoded now) (texts-encoded c exp) ∙ unexpired
  where
    test : ltb now (number (strokes exp)) ≡ true
    test = rw (number-strokes exp) (ground (arith, h))

    unexpired :
        decoded now
          (strokes exp ∷ strokes c.sub ∷ c.email ∷ flag c.is_admin ∷ texts (framed_jti c.jti ""))
        ≡ some c
    unexpired = rw (test, number-strokes c.sub, flag_lem c.is_admin, jti_of_framed c.jti) refl

abbrev framed_tokens : Jwt String
framed_tokens = record {
  encode = λ c exp iat. encoded c exp;
  decode = λ now t. decoded now (texts t);
  show_uuid = strokes;
  parse_uuid = read_strokes;
  decode-encode = decoded-encoded;
  parse-show = read-strokes;
  show-ne = strokes-ne;
}

abbrev plain : Outside
plain = record {
  hash = λ salt p. p;
  verify = str_eq;
  is_decimal = λ c. false;
  describe = λ e. "error";
}

abbrev session : UserSession
session = record { id = 3; user_id = 7; created_at = 5; expires_at = 100; revoked = false }

abbrev db : AuthDb
db = record { users = []; sessions = session ∷ [] }

abbrev claims : Claims
claims = record { sub = 7; email = "a"; is_admin = false; jti = some (strokes 3) }

abbrev request : Request
request = record { path = "/"; cookie = some (encoded claims 50); authorization = none }

abbrev holder : Identity
holder = record { user_id = 7; user_email = "a"; session_id = strokes 3; is_admin = false }

dispatch-get_current_user_optional_example :
    seen (dispatch framed_tokens 9 request db)
    ≡ get_current_user_optional framed_tokens plain 9 request db
unfolding is_public_path
dispatch-get_current_user_optional_example =
    dispatch-get_current_user_optional framed_tokens plain 9 request db refl

logs_out :
    (get_current_user_optional framed_tokens plain 9 request db ≡ ok (some holder))
    × (logout framed_tokens plain 9 request db ≡ ok ((logout_user 3 db).0, body tt))
unfolding logout get_current_user_optional decode_token get_active_session select get_token
    logout_user update
logs_out = (refl, refl)

logout-dispatch_example :
    dispatch framed_tokens 9 request (logout_user 3 db).0 ≡ ok (unauthorized_response request)
unfolding is_public_path
logout-dispatch_example =
    logout-dispatch framed_tokens plain 9 9 request request holder db (logout_user 3 db).0
      logs_out.0 logs_out.1 refl refl refl (λ t. inr refl)
