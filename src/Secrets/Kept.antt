-- ===== src/Secrets/Kept.antt =====
-- What is stored is read back, also where the older file is moved on the way.
use connect_manager.Prelude.{
  suc, ◌≡◌, refl, ap, ◌∙◌, String, false, [], ◌∷◌, Option, none, some, arith, str_eq, eq_iff,
  eq_refl, ◌⊎◌, inl, inr, Bool-cases,
}
use connect_manager.Db.Table.{ok}
use connect_manager.Processed.{truthy}
use connect_manager.Credentials.Fernet.{Fernet}
use connect_manager.Secrets.{
  Dict, lookup, with_key, Outside, Vault, save_secrets, migrate_legacy_secrets, migrate_text,
  migrate_read, opened, loaded, load_secrets, set_secret, get_secret,
}

lookup-with_key : (k v : String) (d : Dict) → lookup k (with_key k v d) ≡ some v
lookup-with_key k v [] = rw (eq_refl k) refl
lookup-with_key k v ((j, w) ∷ d) = ground (arith, lookup-with_key k v d)

lookup-with_key_other :
    (k v j : String) (d : Dict) → str_eq k j ≡ false → lookup j (with_key k v d) ≡ lookup j d
lookup-with_key_other k v j [] e = rw e refl
lookup-with_key_other k v j ((i, w) ∷ d) e = elim (Bool-cases (str_eq i k)) [
  | inl m ↦ rw (m, (eq_iff i k).0 m, e) refl
  | inr m ↦ rw (m, lookup-with_key_other k v j d e) refl
]

module _ (o : Outside) (f : Fernet) (keyed : o.fernet ≡ some f) where
  -- No older file is left that could be moved.
  IsQuiet : Vault → Type 0
  IsQuiet v = (v.legacy ≡ none) ⊎ ((text : String) × (v.legacy ≡ some text) × (o.loads text ≡ none))

  load_quiet : (v : Vault) → IsQuiet v → load_secrets o v ≡ (opened o o.fernet v.file, v)
  unfolding load_secrets migrate_legacy_secrets IsQuiet
  load_quiet v (inl e) = rw e refl
  load_quiet v (inr (text, e, k)) = rw (e, k) refl

  IsQuiet-read :
      (v : Vault) (text : String) (d : Option Dict)
      → v.legacy ≡ some text
      → o.loads text ≡ d
      → IsQuiet (loaded o (migrate_read o v d)).1
  unfolding save_secrets IsQuiet
  IsQuiet-read v text none e k = inr (text, e, k)
  IsQuiet-read v text (some d) e k = rw keyed (inl refl)

  IsQuiet-moved :
      (v : Vault) (l : Option String) → v.legacy ≡ l → IsQuiet (loaded o (migrate_text o v l)).1
  unfolding IsQuiet
  IsQuiet-moved v none e = inl e
  IsQuiet-moved v (some text) e = IsQuiet-read v text (o.loads text) e refl

  IsQuiet-load : (v : Vault) → IsQuiet (load_secrets o v).1
  unfolding load_secrets migrate_legacy_secrets
  IsQuiet-load v = IsQuiet-moved v v.legacy refl

  abbrev saved : Dict → Vault → Vault
  saved d v = record v { file = some (f.encrypt v.nonce (o.dumps d)); nonce = suc v.nonce }

  load-saved : (d : Dict) (v : Vault) → IsQuiet v → load_secrets o (saved d v) ≡ (d, saved d v)
  unfolding IsQuiet
  load-saved d v quiet =
      load_quiet (saved d v) quiet
      ∙ rw (keyed, f.decrypt-encrypt v.nonce (o.dumps d), o.loads-dumps d) refl

  set_secret_lem :
      (key value : String) (v : Vault)
      → str_eq value "" ≡ false
      → set_secret o key value v
        ≡ (ok tt, saved (with_key key value (load_secrets o v).0) (load_secrets o v).1)
  unfolding set_secret save_secrets
  set_secret_lem key value v e = rw (e, keyed) refl

  -- Under a key of the cipher, a text that is not empty is stored: it is read back under its name, the
  -- read changes nothing, and every other name reads as before, whether or not an older file was moved.
  pub get-set_secret :
      (key value other : String) (v : Vault)
      → str_eq value "" ≡ false
      → truthy (o.override key) ≡ false
      → str_eq key other ≡ false
      → ((set_secret o key value v).0 ≡ ok tt)
        × (get_secret o key (set_secret o key value v).1
            ≡ (some value, (set_secret o key value v).1))
        × ((get_secret o other (set_secret o key value v).1).0 ≡ (get_secret o other v).0)
  unfolding get_secret
  get-set_secret key value other v e free apart =
      let d = (load_secrets o v).0 in
      let w = (load_secrets o v).1 in
      let d' = with_key key value d in
      let read = load-saved d' w (IsQuiet-load v) in
      rw (set_secret_lem key value v e) (
        refl,
        rw (read, free) (ap (λ r. (r, saved d' w)) (lookup-with_key key value d)),
        elim (Bool-cases (truthy (o.override other))) [
          | inl b ↦ rw b refl
          | inr b ↦ rw (b, read) (lookup-with_key_other key value other d apart)
        ],
      )
