-- ===== src/Credentials/Settings.antt =====
-- UserSettingsRepository, and the settings and LucidLink tokens that state.py keeps in it.
pub mod Tokens
use connect_manager.Prelude.{
  ℕ, suc, ◌≡◌, ◌≢◌, ◌≤◌, refl, ap, ◌∙◌, String, Bool, true, false, ◌&&◌, ◌||◌, not, List, [], ◌∷◌,
  Option, none, some, arith, str_eq, eq_iff, eq_refl, ltb, ◌==◌, ==_iff, if◌then◌else◌, inl, inr,
  Bool-cases,
}
use connect_manager.Db.Table.{
  Result, ok, err, ◌>>=◌, select, update, delete, count, insert, one_or_none, multiple_results,
}
use connect_manager.Db.Rows.{Uuid, Time, UserSetting}
use connect_manager.Credentials.Fernet.{Fernet}

abbrev pub is_setting : Uuid → String → UserSetting → Bool
is_setting user_id key s = s.user_id == user_id && str_eq s.key key

-- `scalar_one_or_none` of the value column.
abbrev pub value_of : Result (Option UserSetting) → Result (Option String)
value_of (ok none) = ok none
value_of (ok (some s)) = ok (some s.value)
value_of (err e) = err e

unfoldable pub get : Uuid → String → List UserSetting → Result (Option String)
get user_id key ss = value_of (one_or_none (select (is_setting user_id key) ss))

-- INSERT ... ON CONFLICT (user_id, key) DO UPDATE SET value: `updated_at` stays on a conflict.
unfoldable pub upsert : Time → Uuid → String → String → List UserSetting → List UserSetting
upsert now user_id key value ss =
    if ltb 0 (count (is_setting user_id key) ss)
    then update (is_setting user_id key) (λ s. record s { value = value }) ss
    else insert (record { user_id = user_id; key = key; value = value; updated_at = now }) ss

unfoldable pub delete_setting : Uuid → String → List UserSetting → List UserSetting × Bool
delete_setting user_id key ss =
    (delete (is_setting user_id key) ss, ltb 0 (count (is_setting user_id key) ss))

-- Nobody is logged in before the first authentication: no setting.
unfoldable pub get_user_setting : Option Uuid → String → List UserSetting → Result (Option String)
unfolding get
get_user_setting none key ss = ok none
get_user_setting (some u) key ss = get u key ss

unfoldable pub set_user_setting :
    Time → Uuid → String → String → List UserSetting → List UserSetting
set_user_setting now user_id key value ss = upsert now user_id key value ss

abbrev pub token_key : String
token_key = "ll_token_enc"

module _ (f : Fernet) where
  -- An empty token is not saved.
  unfoldable pub save_ll_token : Time → ℕ → Uuid → String → List UserSetting → List UserSetting
  save_ll_token now nonce user_id token ss =
      if str_eq token ""
      then ss
      else upsert now user_id token_key (f.from_ascii (f.encrypt nonce token)) ss

  unfoldable pub read_token : Option String → Result (Option String)
  read_token none = ok none
  read_token (some ciphertext) =
      if str_eq ciphertext ""
      then ok none
      else do token ← f.decrypt (f.to_ascii ciphertext); ok (some token)

  unfoldable pub load_ll_token : Uuid → List UserSetting → Result (Option String)
  unfolding read_token
  load_ll_token user_id ss = do ciphertext ← get user_id token_key ss; read_token ciphertext
