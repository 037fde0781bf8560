-- ===== src/Access/Refused.antt =====
-- A logout ends what the middleware lets through.
use connect_manager.Prelude.{
  ◌≡◌, refl, ap, sym, ◌∙◌, subst, String, Bool, true, false, Option, none, some, str_eq,
  if◌then◌else◌, is_some, eq_iff, Bool-cases, inl, inr, ◌⊎◌,
}
use connect_manager.Db.Table.{Result, ok, err, ◌>>=◌}
use connect_manager.Db.Table.Laws.{>>=-eq-ok}
use connect_manager.Db.Rows.{Uuid, Time, UserSession}
use connect_manager.Auth.Accounts.{AuthDb, Outside}
use connect_manager.Auth.Tokens.{
  Claims, Jwt, decode_token, check_claims, check_jti, check_session, get_active_session,
  logout_user,
}
use connect_manager.Auth.Tokens.Revocation.{decode-logout}
use connect_manager.Access.{
  Request, get_token, Identity, unauthorized_response, admit, check_token, is_public_path, dispatch,
}
use connect_manager.Access.Users.{
  Answer, body, token_data, user_found, user_of_token, get_current_user_optional, logged_out,
  logout, parsed,
}
use connect_manager.Access.Agreed.{present, get_token_from_request_lem}

abbrev payload_or : Option Claims → Result (Option Claims) → Option Claims
payload_or d (ok o) = o
payload_or d (err e) = d

module _ (jwt : Jwt String) (outside : Outside) where
  -- The check of the claims gives back the claims that it was given.
  claims_of_check :
      (now : Time) (o : Option Claims) (db : AuthDb) (c : Claims)
      → check_claims jwt now o db ≡ ok (some c)
      → o ≡ some c
  unfolding check_claims check_jti check_session
  claims_of_check now none db c e = ap (payload_or none) e
  claims_of_check now (some c') db c e = go_jti c'.jti e
    where
      of_active :
          (a : Option UserSession)
          → (if is_some a then some c' else none) ≡ some c
          → some c' ≡ some c
      of_active none h = absurd (cc)
      of_active (some a) h = h

      of_session :
          (p : Option Uuid) → check_session jwt now c' p db ≡ ok (some c) → some c' ≡ some c
      of_session none h = absurd (cc)
      of_session (some sid) h =
          let (a, found, rest) =
            >>=-eq-ok (get_active_session now sid db)
              (λ a. ok (if is_some a then some c' else none)) h in
          of_active a (ap (payload_or none) rest)

      go_raw :
          (raw : String) (b : Bool)
          → (if b then ok (some c') else check_session jwt now c' (jwt.parse_uuid raw) db)
            ≡ ok (some c)
          → some c' ≡ some c
      go_raw raw true h = ap (payload_or none) h
      go_raw raw false h = of_session (jwt.parse_uuid raw) h

      go_jti : (jti : Option String) → check_jti jwt now c' jti db ≡ ok (some c) → some c' ≡ some c
      go_jti none h = ap (payload_or none) h
      go_jti (some raw) h = go_raw raw (str_eq raw "") h

  claims_of_decode :
      (now : Time) (token : String) (db : AuthDb) (c : Claims)
      → decode_token jwt now token db ≡ ok (some c)
      → jwt.decode now token ≡ some c
  unfolding decode_token
  claims_of_decode now token db c e = claims_of_check now (jwt.decode now token) db c e

  -- A user who is found has a token that decodes to claims with a session.
  abbrev Found : Time → Request → Identity → Type 0
  Found now r i =
      (token : String) × (c : Claims) × (present (get_token r) ≡ some token)
      × (jwt.decode now token ≡ some c)
      × (c.jti ≡ some i.session_id)

  Found-user :
      (now : Time) (r : Request) (db : AuthDb) (i : Identity)
      → get_current_user_optional jwt outside now r db ≡ ok (some i)
      → Found now r i
  unfolding get_current_user_optional
  Found-user now r db i e = go (present (get_token r)) refl (
      ap (λ t. user_of_token jwt outside now (present t) db) (sym (get_token_from_request_lem r))
      ∙ e)
    where
      none_in : Result (Option Identity) → Option Identity
      none_in (ok o) = o
      none_in (err f) = none

      session_in : Option Identity → String
      session_in (some j) = j.session_id
      session_in none = ""

      jti_of :
          (c : Claims) (jti : Option String)
          → user_found c jti ≡ ok (some i)
          → jti ≡ some i.session_id
      jti_of c none h = absurd (cc)
      jti_of c (some raw) h = ap (λ o. some (session_in (none_in o))) h

      of_payload :
          (payload : Option Claims)
          → token_data jwt outside payload ≡ ok (some i)
          → (c : Claims) × (payload ≡ some c) × (c.jti ≡ some i.session_id)
      of_payload none h = absurd (cc)
      of_payload (some c) h = (c, refl, jti_of c c.jti h)

      go :
          (t : Option String)
          → present (get_token r) ≡ t
          → user_of_token jwt outside now t db ≡ ok (some i)
          → Found now r i
      go none p h = absurd (cc)
      go (some token) p h =
          let (payload, decoded, rest) =
            >>=-eq-ok (decode_token jwt now token db) (token_data jwt outside) h in
          let (c, is_c, named) = of_payload payload rest in
          (token, c, p, claims_of_decode now token db c (decoded ∙ ap ok is_c), named)

  -- The text of a session id that could be parsed is not empty.
  not_empty :
      (raw : String) (session_id : Uuid)
      → jwt.parse_uuid "" ≡ none
      → jwt.parse_uuid raw ≡ some session_id
      → str_eq raw "" ≡ false
  not_empty raw session_id blank parses = elim (Bool-cases (str_eq raw "")) [
    | inl e ↦ absurd (differ (sym blank ∙ (ap jwt.parse_uuid (sym ((eq_iff raw "").0 e)) ∙ parses)))
    | inr e ↦ e
  ]
    where
      differ : none ≡ some session_id → ⊥
      differ e = cc

  decode_after_logout :
      (now' : Time) (token : String) (c : Claims) (raw : String) (session_id : Uuid) (db : AuthDb)
      → (jwt.decode now' token ≡ none) ⊎ (jwt.decode now' token ≡ some c)
      → c.jti ≡ some raw
      → str_eq raw "" ≡ false
      → jwt.parse_uuid raw ≡ some session_id
      → decode_token jwt now' token (logout_user session_id db).0 ≡ ok none
  unfolding decode_token
  decode_after_logout now' token c raw session_id db (inl gone) named filled parses = rw gone refl
  decode_after_logout now' token c raw session_id db (inr same) named filled parses =
      decode-logout jwt now' token raw c session_id same named filled parses db

  dispatch_of_dead :
      (now' : Time) (r : Request) (token : String) (db : AuthDb)
      → is_public_path r.path ≡ false
      → present (get_token r) ≡ some token
      → decode_token jwt now' token db ≡ ok none
      → dispatch jwt now' r db ≡ ok (unauthorized_response r)
  unfolding dispatch admit
  dispatch_of_dead now' r token db closed carried dead =
      rw closed (ap (λ t. check_token jwt now' r t db) carried ∙ rw dead refl)

  abbrev ended_by : AuthDb → Option Uuid → Result (AuthDb × Answer (Unit {0}))
  ended_by db sid = do session_id ← parsed sid; ok ((logout_user session_id db).0, body tt)

  state_in : Result (AuthDb × Answer (Unit {0})) → AuthDb → AuthDb
  state_in (ok (db, a)) d = db
  state_in (err e) d = d

  -- A logout that answered has revoked the session that the token names.
  session_of_logout :
      (i : Identity) (db db' : AuthDb) (sid : Option Uuid)
      → ended_by db sid ≡ ok (db', body tt)
      → (session_id : Uuid) × (sid ≡ some session_id) × ((logout_user session_id db).0 ≡ db')
  unfolding state_in
  session_of_logout i db db' none e = absurd (cc)
  session_of_logout i db db' (some session_id) e = (session_id, refl, ap (λ r. state_in r db) e)

  -- After the logout of a user who was found, every request with the same token is refused on every
  -- path that is not public, at every time at which the token decodes as before or has expired, where
  -- the empty text is no UUID.
  pub logout-dispatch :
      (now now' : Time) (r r' : Request) (i : Identity) (db db' : AuthDb)
      → get_current_user_optional jwt outside now r db ≡ ok (some i)
      → logout jwt outside now r db ≡ ok (db', body tt)
      → get_token r' ≡ get_token r
      → is_public_path r'.path ≡ false
      → jwt.parse_uuid "" ≡ none
      → ((t : String) → (jwt.decode now' t ≡ none) ⊎ (jwt.decode now' t ≡ jwt.decode now t))
      → dispatch jwt now' r' db' ≡ ok (unauthorized_response r')
  unfolding logout
  logout-dispatch now now' r r' i db db' found ended same closed blank later =
      let (token, c, carried, decodes, named) = Found-user now r db i found in
      let ran = ap (λ u. u >>= logged_out jwt outside db) (sym found) ∙ ended in
      let (session_id, parses, state) =
        session_of_logout i db db' (jwt.parse_uuid i.session_id) ran in
      let now_on : (jwt.decode now' token ≡ none) ⊎ (jwt.decode now' token ≡ some c) =
        elim (later token) [ inl e ↦ inl e | inr e ↦ inr (e ∙ decodes) ] in
      dispatch_of_dead now' r' token db' closed (ap present same ∙ carried) (
        subst (λ d. decode_token jwt now' token d ≡ ok none) state
          (decode_after_logout now' token c i.session_id session_id db now_on named
            (not_empty i.session_id session_id blank parses) parses))
