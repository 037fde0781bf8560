-- ===== src/Access/Agreed.antt =====
-- The middleware and the handlers agree on who is logged in.
use connect_manager.Prelude.{
  ◌≡◌, refl, String, Bool, true, false, Option, none, some, if◌then◌else◌, Bool-cases, inl, inr,
}
use connect_manager.Db.Table.{Result, ok, err, ◌>>=◌}
use connect_manager.Db.Rows.{Time}
use connect_manager.Processed.{truthy}
use connect_manager.Auth.Accounts.{AuthDb, Outside}
use connect_manager.Auth.Tokens.{Claims, Jwt, decode_token}
use connect_manager.Access.{
  Request, get_token, header_token, Identity, identity_of, Outcome, forwarded, unauthorized,
  redirected, unauthorized_response, admit, check_token, is_public_path, dispatch,
}
use connect_manager.Access.Users.{
  get_token_from_request, bearer_of, user_found, token_data, user_of_token,
  get_current_user_optional,
}

-- Who a request that was let through comes from.
abbrev pub seen : Result Outcome → Result (Option Identity)
seen (err e) = err e
seen (ok (forwarded i)) = ok i
seen (ok unauthorized) = ok none
seen (ok (redirected url)) = ok none

abbrev pub present : Option String → Option String
present token = if truthy token then token else none

-- Both look for the token in the same places.
pub get_token_from_request_lem : (r : Request) → get_token_from_request r ≡ get_token r
unfolding get_token_from_request get_token
get_token_from_request_lem r = elim (Bool-cases (truthy r.cookie)) [
  | inl e ↦ rw e refl
  | inr e ↦ rw e (headers r.authorization)
]
  where
    headers : (h : Option String) → bearer_of h ≡ header_token h
    headers none = refl
    headers (some h) = refl

module _ (jwt : Jwt String) (outside : Outside) where
  seen-admit :
      (r : Request) (payload : Option Claims)
      → seen (admit jwt r payload) ≡ token_data jwt outside payload
  unfolding admit unauthorized_response
  seen-admit r none = go _
    where
      go : (b : Bool) → seen (ok (if b then unauthorized else redirected "/login")) ≡ ok none
      go true = refl
      go false = refl
  seen-admit r (some c) = go c.jti
    where
      go :
          (jti : Option String)
          → seen (identity_of c jti >>= λ i. ok (forwarded (some i))) ≡ user_found c jti
      go none = refl
      go (some raw) = refl

  seen-check_token :
      (now : Time) (r : Request) (token : Option String) (db : AuthDb)
      → seen (check_token jwt now r token db) ≡ user_of_token jwt outside now token db
  unfolding admit
  seen-check_token now r none db = seen-admit r none
  seen-check_token now r (some token) db = go (decode_token jwt now token db)
    where
      go : (d : Result (Option Claims)) → seen (d >>= admit jwt r) ≡ (d >>= token_data jwt outside)
      go (err e) = refl
      go (ok payload) = seen-admit r payload

  -- On a path that is not public, the middleware lets a request through exactly for the user whom the
  -- handlers find in it, refuses it where they find none, and raises where they do.
  pub dispatch-get_current_user_optional :
      (now : Time) (r : Request) (db : AuthDb)
      → is_public_path r.path ≡ false
      → seen (dispatch jwt now r db) ≡ get_current_user_optional jwt outside now r db
  unfolding dispatch get_current_user_optional
  dispatch-get_current_user_optional now r db closed =
      rw (closed, get_token_from_request_lem r) (seen-check_token now r (present (get_token r)) db)
