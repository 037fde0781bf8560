-- ===== src/Secrets.antt =====
-- app/services/secrets.py where DATA_DIR is set: an encrypted file that holds a dict of texts, and an
-- older file in plain text that is moved into it. The system keyring of a development machine is left out.
pub mod Named
pub mod Kept
mod Tests
use Prim.Native.String.{◌++◌}
use connect_manager.Prelude.{
  ℕ, suc, ◌≡◌, String, Bool, true, false, ◌||◌, List, [], ◌∷◌, Option, none, some, str_eq,
  if◌then◌else◌, is_some,
}
use connect_manager.Db.Table.{Result, ok, err, missing_token}
use connect_manager.Db.Rows.{Bytes}
use connect_manager.Processed.{truthy}
use connect_manager.Credentials.Fernet.{Fernet}

abbrev pub Dict : Type 0
Dict = List (String × String)

abbrev pub lookup : String → Dict → Option String
lookup k [] = none
lookup k ((j, v) ∷ d) = let later = lookup k d in if str_eq j k then some v else later

-- `d[key] = value`.
abbrev pub with_key : String → String → Dict → Dict
with_key k v [] = (k, v) ∷ []
with_key k v ((j, w) ∷ d) =
    let later = with_key k v d in if str_eq j k then (j, v) ∷ d else (j, w) ∷ later

-- `del d[key]`.
abbrev pub without_key : String → Dict → Dict
without_key k [] = []
without_key k ((j, w) ∷ d) = let later = without_key k d in if str_eq j k then d else (j, w) ∷ later

-- What is outside: the cipher (none where JWT_SECRET_KEY is not set), `json` on dicts of texts, and the
-- environment variable LL_<KEY> of a key. A file with other JSON does not arise.
pub record Outside : Type 0 where
  pub fernet : Option Fernet
  pub dumps : Dict → String
  pub loads : String → Option Dict
  pub override : String → Option String
  pub loads-dumps : (d : Dict) → loads (dumps d) ≡ some d

-- The two files; `nonce` is what the next encryption draws.
pub record Vault : Type 0 where
  pub file : Option Bytes
  pub legacy : Option String
  pub nonce : ℕ

module _ (o : Outside) where
  abbrev pub save_under : Option Fernet → Dict → Vault → Result Vault
  save_under none d v = err missing_token
  save_under (some f) d v =
      ok (record v { file = some (f.encrypt v.nonce (o.dumps d)); nonce = suc v.nonce })

  unfoldable pub save_secrets : Dict → Vault → Result Vault
  save_secrets d v = save_under o.fernet d v

  abbrev pub moved : Dict → Vault → Result Vault → Option Dict × Vault
  moved d v (err e) = (none, v)
  moved d v (ok v') = (some d, record v' { legacy = none })

  abbrev pub migrate_read : Vault → Option Dict → Option Dict × Vault
  migrate_read v none = (none, v)
  migrate_read v (some d) = moved d v (save_secrets d v)

  abbrev pub migrate_text : Vault → Option String → Option Dict × Vault
  migrate_text v none = (none, v)
  migrate_text v (some text) = migrate_read v (o.loads text)

  unfoldable pub migrate_legacy_secrets : Vault → Option Dict × Vault
  unfolding save_secrets
  migrate_legacy_secrets v = migrate_text v v.legacy

  abbrev pub parsed : Result String → Dict
  parsed (err e) = []
  parsed (ok text) = elim (o.loads text) [ none ↦ [] | some d ↦ d ]

  -- A file that does not decrypt or parse counts as empty.
  abbrev pub opened : Option Fernet → Option Bytes → Dict
  opened none file = []
  opened (some f) none = []
  opened (some f) (some b) = parsed (f.decrypt b)

  abbrev pub loaded : Option Dict × Vault → Dict × Vault
  loaded (some d, v) = (d, v)
  loaded (none, v) = (opened o.fernet v.file, v)

  unfoldable pub load_secrets : Vault → Dict × Vault
  unfolding migrate_legacy_secrets
  load_secrets v = loaded (migrate_legacy_secrets v)

  abbrev pub written : Vault → Result Vault → Result (Unit {0}) × Vault
  written v (err e) = (err e, v)
  written v (ok v') = (ok tt, v')

  unfoldable pub set_secret : String → String → Vault → Result (Unit {0}) × Vault
  unfolding load_secrets save_secrets
  set_secret key value v =
      let (d, v') = load_secrets v in
      let saved = written v' (save_secrets (with_key key value d) v') in
      if str_eq value "" then (ok tt, v) else saved

  unfoldable pub get_secret : String → Vault → Option String × Vault
  unfolding load_secrets
  get_secret key v =
      let (d, v') = load_secrets v in
      if truthy (o.override key) then (o.override key, v) else (lookup key d, v')

  abbrev pub removed : Vault → Result Vault → Bool × Vault
  removed v (err e) = (false, v)
  removed v (ok v') = (true, v')

  unfoldable pub delete_secret : String → Vault → Bool × Vault
  unfolding load_secrets save_secrets
  delete_secret key v =
      let (d, v') = load_secrets v in
      let saved = removed v' (save_secrets (without_key key d) v') in
      if is_some (lookup key d) then saved else (false, v')
