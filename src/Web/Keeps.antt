-- ===== src/Web/Keeps.antt =====
-- What the steps that handlers share keep: a property of the tables passes through the session of the
-- request, its user's id and the fill of the session.
use connect_manager.Prelude.{
  ◌≡◌, refl, String, false, Option, some, str_eq, inl, inr, Bool-cases, Option-cases,
}
use connect_manager.Db.Table.{Result, ok, err, http_error}
use connect_manager.Db.Rows.{Uuid}
use connect_manager.Sessions.{Dict, UserSession, hydrate}
use connect_manager.Web.{
  Request, World, Env, parse_uid, state_of, opened, with_session, with_uid, with_hydrated,
  after_parse, after_hydrate,
}

-- A handler refuses the request, or goes on with the session of its user.
pub with_session_cases :
    {P : Type 0} (R : Result P × World → Type 0) (e : Env) (r : Request)
    → (rest : String → World → Result P × World) (w : World)
    → R (err (http_error 401 "Not authenticated"), w)
    → ((u : String) → r.user_id ≡ some u → R (rest u (opened e u w)))
    → R (with_session e r rest w)
unfolding with_session
with_session_cases R e r rest w refused h = elim (Option-cases r.user_id) [
  | inl n ↦ rw (n, with_session) refused
  | inr (u, n) ↦
      rw (n, with_session)
        (elim (Bool-cases (str_eq u "")) [ inl b ↦ rw b refused | inr b ↦ rw b (h u n) ])
]

-- A request of a user who is logged in.
pub with_session_open :
    {P : Type 0} (e : Env) (r : Request) (rest : String → World → Result P × World) (w : World)
    → (u : String) → r.user_id ≡ some u
    → str_eq u "" ≡ false
    → with_session e r rest w ≡ rest u (opened e u w)
unfolding with_session
with_session_open e r rest w u m b = rw (m, with_session, b) refl

module _ {P : Type 0} (Q : World → Type 0)
    (quiet : (w : World) (d : Dict UserSession) → Q w → Q (record w { sessions = d })) (e : Env)
    (r : Request) where
  pub with_session-keeps :
      (rest : String → World → Result P × World)
      → ((u : String) (w : World) → Q w → Q (rest u w).1)
      → (w : World) → Q w
      → Q (with_session e r rest w).1
  with_session-keeps rest h w q =
      with_session_cases (λ x. Q x.1) e r rest w q λ u m. h u (opened e u w) (quiet w _ q)

  pub with_uid-keeps :
      (rest : Option Uuid → World → Result P × World)
      → ((uid : Option Uuid) (w : World) → parse_uid e r ≡ ok uid → Q w → Q (rest uid w).1)
      → (w : World) → Q w
      → Q (with_uid e r rest w).1
  unfolding with_uid
  with_uid-keeps rest h w q = go (parse_uid e r) refl
    where
      go : (o : Result (Option Uuid)) → parse_uid e r ≡ o → Q (after_parse e r rest w o).1
      go (err x) m = q
      go (ok uid) m = h uid w m q

  pub with_hydrated-keeps :
      (u : String) (uid : Option Uuid) (rest : World → Result P × World)
      → ((w : World) → Q w → Q (rest w).1)
      → (w : World) → Q w
      → Q (with_hydrated e r u uid rest w).1
  unfolding with_hydrated
  with_hydrated-keeps u uid rest h w q =
      go (hydrate e.fernet uid w.settings w.datastores (state_of u w))
    where
      go : (o : Result (Unit {0}) × UserSession) → Q (after_hydrate e r rest u w o).1
      go (err x, s) = quiet w _ q
      go (ok t, s) = h _ (quiet w _ q)
