-- ===== src/Auth/Tokens/Revocation.antt =====
-- When a token is accepted, and what ends it.
use connect_manager.Prelude.{
  ℕ, ◌+◌, ◌*◌, ◌<◌, ◌≡◌, refl, ap, subst, sym, ◌∙◌, String, Bool, true, false, List, [], ◌∷◌, none,
  some, All, All-imp, arith, str_eq, ◌==◌, ==_iff, if◌then◌else◌, inl, inr, Bool-cases, is_some,
}
use connect_manager.Db.Table.{ok, select, update, count, insert, ◌>>=◌}
use connect_manager.Db.Table.Laws.{>>=-eq-ok, All-update_cases}
use connect_manager.Db.Rows.{Uuid, Time, User, UserSession}
use connect_manager.Auth.Accounts.{
  AuthDb, is_live_of, revoke_all_user_sessions, change_password, Outside, update_password,
  change_user_role,
}
use connect_manager.Auth.Accounts.Changes.{change_password_done, change_user_role_done}
use connect_manager.Auth.Tokens.{
  Claims, Jwt, create_session, create_access_token, get_active_session, is_active, logout_user,
  decode_token, check_claims, check_jti, check_session, microseconds_per_minute,
}

select_of_none :
    (p : UserSession → Bool) (ss : List UserSession) → All (λ s. p s ≡ false) ss → select p ss ≡ []
unfolding select
select_of_none p [] h = refl
select_of_none p (s ∷ ss) h = rw h.0 (select_of_none p ss h.1)

-- No session of this id is both unrevoked and unexpired.
abbrev pub IsDead : Uuid → AuthDb → Type 0
IsDead session_id db = All (λ (s : UserSession). s.id ≡ session_id → s.revoked ≡ true) db.sessions

dead_session :
    (now : Time) (session_id : Uuid) (db : AuthDb)
    → IsDead session_id db
    → get_active_session now session_id db ≡ ok none
unfolding get_active_session
dead_session now session_id db h =
    rw
      (select_of_none (is_active now session_id) db.sessions
        (All-imp _ (λ s. is_active now session_id s ≡ false) (λ s k. inactive s k) db.sessions h))
      refl
  where
    inactive :
        (s : UserSession)
        → (s.id ≡ session_id → s.revoked ≡ true)
        → is_active now session_id s ≡ false
    inactive s k = elim (Bool-cases (s.id == session_id)) [
      | inl e ↦ rw (k ((==_iff s.id session_id).0 e)) (ground arith)
      | inr e ↦ rw e refl
    ]

revoked_of_not_live :
    (user_id : Uuid) (s : UserSession)
    → is_live_of user_id s ≡ false
    → s.user_id ≡ user_id
    → s.revoked ≡ true
revoked_of_not_live user_id s e k = ground (arith, ==_iff s.user_id user_id)

module _ {T : Type 0} (jwt : Jwt T) (now : Time) (token : T) (raw : String) (claims : Claims)
    (session_id : Uuid) (decoded : jwt.decode now token ≡ some claims)
    (named : claims.jti ≡ some raw) (written : str_eq raw "" ≡ false)
    (parsed : jwt.parse_uuid raw ≡ some session_id) where
  -- The token is accepted exactly as its session is active.
  decode_token_of_session :
      (db : AuthDb)
      → decode_token jwt now token db ≡ (
          get_active_session now session_id db >>= λ a.
          ok (if is_some a then some claims else none))
  unfolding decode_token
  decode_token_of_session db =
      ap (λ o. check_claims jwt now o db) decoded
      ∙ ap (λ o. check_jti jwt now claims o db) named
      ∙ rw written (ap (λ o. check_session jwt now claims o db) parsed)

  pub decode_dead : (db : AuthDb) → IsDead session_id db → decode_token jwt now token db ≡ ok none
  decode_dead db h = decode_token_of_session db ∙ rw (dead_session now session_id db h) refl

  -- A token that decodes and names a session is not accepted after the logout from that session.
  pub decode-logout :
      (db : AuthDb) → decode_token jwt now token (logout_user session_id db).0 ≡ ok none
  unfolding logout_user
  decode-logout db = decode_dead _ (
      All-update_cases (λ s. s.id ≡ session_id → s.revoked ≡ true) _ _ (λ s e k. refl)
        (λ s e k. ground (arith, ==_iff s.id session_id)) db.sessions)

  -- Every session of the id is one of the user.
  module _ (user_id : Uuid) (db : AuthDb)
      (owned : All (λ (s : UserSession). s.id ≡ session_id → s.user_id ≡ user_id) db.sessions) where
    IsDead-revoke_all :
        (users : List User)
        → IsDead session_id (revoke_all_user_sessions user_id (record db { users = users })).0
    unfolding revoke_all_user_sessions update
    IsDead-revoke_all users = go db.sessions owned
      where
        row :
            (s : UserSession)
            → (s.id ≡ session_id → s.user_id ≡ user_id)
            → (let s' = if is_live_of user_id s then record s { revoked = true } else s in
                s'.id ≡ session_id → s'.revoked ≡ true)
        row s k = elim (Bool-cases (is_live_of user_id s)) [
          | inl e ↦ rw e (λ q. refl)
          | inr e ↦ rw e (λ q. revoked_of_not_live user_id s e (k q))
        ]

        go :
            (ss : List UserSession)
            → All (λ s. s.id ≡ session_id → s.user_id ≡ user_id) ss
            → All
                (λ s. s.id ≡ session_id → s.revoked ≡ true)
                (update (is_live_of user_id) (λ s. record s { revoked = true }) ss)
        go [] k = tt
        go (s ∷ ss) k = (row s k.0, go ss k.1)

    -- A token that decodes and names a session of the user is not accepted after a change of the
    -- user's password that reports success.
    pub decode-change_password :
        (outside : Outside) (salt : ℕ) (old new : String)
        → (change_password outside salt user_id old new db).1.0 ≡ true
        → decode_token jwt now token (change_password outside salt user_id old new db).0 ≡ ok none
    decode-change_password outside salt old new done =
        let c = change_password_done outside salt user_id old new db done in
        decode_dead _
          (subst (IsDead session_id) (sym c.state) (unfold update_password in IsDead-revoke_all _))

    -- A token that decodes and names a session of the user is not accepted after a change of the
    -- user's role that reports success.
    pub decode-change_user_role :
        (is_admin : Bool)
        → (change_user_role user_id is_admin db).1.0 ≡ true
        → decode_token jwt now token (change_user_role user_id is_admin db).0 ≡ ok none
    decode-change_user_role is_admin done =
        let (users, state) = change_user_role_done user_id is_admin db done in
        decode_dead _ (subst (IsDead session_id) (sym state) (IsDead-revoke_all users))

-- A fresh session id names the new row alone.
select-fresh :
    (now : Time) (session_id : Uuid) (row : UserSession) (ss : List UserSession)
    → count (λ s. s.id == session_id) ss ≡ 0
    → is_active now session_id row ≡ true
    → select (is_active now session_id) (insert row ss) ≡ row ∷ []
unfolding select count
select-fresh now session_id row [] h a = rw a refl
select-fresh now session_id row (s ∷ ss) h a = elim (Bool-cases (s.id == session_id)) [
  | inl e ↦ absurd (ground (arith, e))
  | inr e ↦ rw e (select-fresh now session_id row ss (ground (arith, e)) a)
]

abbrev session_row : Time → Uuid → Uuid → Time → UserSession
session_row now user_id session_id expires_at = record {
  id = session_id;
  user_id = user_id;
  created_at = now;
  expires_at = expires_at;
  revoked = false;
}

session_row-active :
    (later now : Time) (user_id session_id : Uuid) (expires_at : Time)
    → later < expires_at
    → is_active later session_id (session_row now user_id session_id expires_at) ≡ true
session_row-active later now user_id session_id expires_at h = ground arith

create_session_inv :
    (now : Time) (user_id session_id : Uuid) (expires_at : Time) (db db' : AuthDb)
    → create_session now user_id session_id expires_at db ≡ ok db'
    → (count (λ s. s.id == session_id) db.sessions ≡ 0)
      × (db' ≡ record db {
        sessions = insert (session_row now user_id session_id expires_at) db.sessions;
      })
unfolding create_session
create_session_inv now user_id session_id expires_at db db' h = ground arith

-- A token whose creation succeeded is accepted until it expires: `decode_token` gives back the
-- claims that it was created with.
pub decode-create_access_token :
    {T : Type 0} (jwt : Jwt T) (minutes : ℕ) (now later : Time) (session_id user_id : Uuid)
    (email : String) (is_admin : Bool) (db db' : AuthDb) (token : T)
    → create_access_token jwt minutes now session_id user_id email is_admin db ≡ ok (db', token)
    → later < now + minutes * microseconds_per_minute
    → decode_token jwt later token db'
      ≡ ok (
          some (record {
            sub = user_id;
            email = email;
            is_admin = is_admin;
            jti = some (jwt.show_uuid session_id);
          }))
unfolding create_access_token
decode-create_access_token jwt minutes now later session_id user_id email is_admin db db' token h
      soon =
    let expires_at = now + minutes * microseconds_per_minute in
    let claims : Claims = record {
      sub = user_id;
      email = email;
      is_admin = is_admin;
      jti = some (jwt.show_uuid session_id);
    } in
    let (made, inserted, result) =
      >>=-eq-ok (create_session now user_id session_id expires_at db) _ h in
    let (fresh, state) = create_session_inv now user_id session_id expires_at db made inserted in
    let encoded : jwt.encode claims expires_at now ≡ token = cc in
    let same : made ≡ db' = cc in
    decode_token_of_session jwt later token (jwt.show_uuid session_id) claims session_id
      (rw (← encoded) (jwt.decode-encode later expires_at now claims soon)) refl
      (jwt.show-ne session_id) (jwt.parse-show session_id) db'
    ∙ rw (← same, state)
        (unfold get_active_session in
          rw
            (select-fresh later session_id (session_row now user_id session_id expires_at)
              db.sessions fresh (session_row-active later now user_id session_id expires_at soon))
            refl)
