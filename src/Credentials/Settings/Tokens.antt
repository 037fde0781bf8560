-- ===== src/Credentials/Settings/Tokens.antt =====
-- A saved LucidLink token, and the settings beside it.
use connect_manager.Prelude.{
  ℕ, ◌≡◌, ◌≢◌, ◌≤◌, refl, ap, String, true, false, List, [], ◌∷◌, some, arith, str_eq, eq_iff,
  eq_refl, ltb, ==_iff, inl, inr, Bool-cases,
}
use connect_manager.Db.Table.{ok, count, one_or_none}
use connect_manager.Db.Table.Laws.{select-update, count-append}
use connect_manager.Db.Table.Keyed.{
  count-singleton, select_of_one, select-insert_only, select-insert_other, select-update_one,
  count-update_same,
}
use connect_manager.Db.Rows.{Uuid, Time, UserSetting}
use connect_manager.Credentials.Fernet.{Fernet}
use connect_manager.Credentials.Settings.{
  is_setting, value_of, get, upsert, save_ll_token, load_ll_token, token_key,
}

-- The primary key (user_id, key): no two rows share it.
abbrev pub IsKeyed : List UserSetting → Type 0
IsKeyed ss = (u : Uuid) (k : String) → count (is_setting u k) ss ≤ 1

abbrev rewritten : String → UserSetting → UserSetting
rewritten value s = record s { value = value }

abbrev row : Time → Uuid → String → String → UserSetting
row now user_id key value = record { user_id = user_id; key = key; value = value; updated_at = now }

is_setting-row :
    (now : Time) (u : Uuid) (k value : String) → is_setting u k (row now u k value) ≡ true
is_setting-row now u k value = ground (arith, eq_refl k)

-- A row of one key does not have another.
is_setting_apart :
    (u v : Uuid) (k l : String) (s : UserSetting)
    → is_setting u k (row 0 v l "") ≡ false
    → is_setting v l s ≡ true
    → is_setting u k s ≡ false
is_setting_apart u v k l s h e =
    ground (arith, eq_iff l k, eq_iff s.key l, eq_iff s.key k, eq_refl k)

get-upsert_self :
    (now : Time) (u : Uuid) (k value : String) (ss : List UserSetting)
    → count (is_setting u k) ss ≤ 1
    → get u k (upsert now u k value ss) ≡ ok (some value)
unfolding get upsert
get-upsert_self now u k value ss h = elim (Bool-cases (ltb 0 (count (is_setting u k) ss))) [
  | inl e ↦
      let (s, q) = select_of_one (is_setting u k) ss (ground (arith, e)) in
      rw e (
        ap (λ rs. value_of (one_or_none rs))
          (select-update_one (is_setting u k) (rewritten value) (λ r. refl) ss q))
  | inr e ↦ rw e (
      ap (λ rs. value_of (one_or_none rs))
        (select-insert_only (is_setting u k) (row now u k value) ss (ground (arith, e))
          (is_setting-row now u k value)))
]

get-upsert_other :
    (now : Time) (u v : Uuid) (k l value : String) (ss : List UserSetting)
    → is_setting v l (row 0 u k "") ≡ false
    → get v l (upsert now u k value ss) ≡ get v l ss
unfolding get upsert
get-upsert_other now u v k l value ss h = elim (Bool-cases (ltb 0 (count (is_setting u k) ss))) [
  | inl e ↦ rw e (
      ap (λ rs. value_of (one_or_none rs))
        (select-update (is_setting v l) (is_setting u k) (rewritten value)
          (λ s q. (is_setting_apart v u l k s h q, is_setting_apart v u l k s h q)) ss))
  | inr e ↦ rw e (
      ap (λ rs. value_of (one_or_none rs))
        (select-insert_other (is_setting v l) (row now u k value) ss (ground (arith, h))))
]

-- A new row's key was free, under whatever name it is read.
count_at_new :
    (now : Time) (u v : Uuid) (k l value : String) (ss : List UserSetting)
    → count (is_setting u k) ss ≡ 0
    → is_setting v l (row now u k value) ≡ true
    → count (is_setting v l) ss ≡ 0
count_at_new now u v k l value ss h q =
    let users : u ≡ v = (==_iff u v).0 (ground arith) in
    let keys : k ≡ l = ground (arith, eq_iff k l) in rw (← users, ← keys) h

upsert-IsKeyed :
    (now : Time) (u : Uuid) (k value : String) (ss : List UserSetting)
    → IsKeyed ss
    → IsKeyed (upsert now u k value ss)
unfolding upsert
upsert-IsKeyed now u k value ss h v l = elim (Bool-cases (ltb 0 (count (is_setting u k) ss))) [
  | inl e ↦
      rw (e, count-update_same (is_setting v l) (is_setting u k) (rewritten value) (λ r. refl) ss)
        (h v l)
  | inr e ↦
      rw
        (
          e,
          count-append (is_setting v l) ss (row now u k value ∷ []),
          count-singleton (is_setting v l) (row now u k value),
        )
        (ground (arith, h v l, count_at_new now u v k l value ss (ground (arith, e))))
]

module _ (f : Fernet) where
  -- A token that is not empty loads again for its user as it was saved, no other user's token
  -- changes, and the table stays keyed, where it was keyed before.
  pub load-save_ll_token :
      (now : Time) (nonce : ℕ) (u v : Uuid) (token : String) (ss : List UserSetting)
      → token ≢ ""
      → v ≢ u
      → IsKeyed ss
      → (load_ll_token f u (save_ll_token f now nonce u token ss) ≡ ok (some token))
        × (load_ll_token f v (save_ll_token f now nonce u token ss) ≡ load_ll_token f v ss)
        × IsKeyed (save_ll_token f now nonce u token ss)
  unfolding save_ll_token load_ll_token
  load-save_ll_token now nonce u v token ss named other keyed =
      let cipher = f.from_ascii (f.encrypt nonce token) in
      let filled : str_eq token "" ≡ false = ground (arith, eq_iff token "") in
      (
        rw
            (
              filled,
              get-upsert_self now u token_key cipher ss (keyed u token_key),
              f.token-ne,
              f.ascii_token,
              f.decrypt-encrypt,
            )
            refl,
        rw
            (
              filled,
              get-upsert_other now u v token_key token_key cipher ss (ground (arith, ==_iff u v)),
            )
            refl,
        rw filled (upsert-IsKeyed now u token_key cipher ss keyed),
      )
