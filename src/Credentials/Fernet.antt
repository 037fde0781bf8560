-- ===== src/Credentials/Fernet.antt =====
-- What app/services/state.py takes from outside: the Fernet cipher of app/services/secrets.py under
-- one key, and Python's text and JSON codecs.
use connect_manager.Prelude.{ℕ, ◌≡◌, refl, String, false, str_eq}
use connect_manager.Db.Table.{Result, ok, ◌>>=◌}
use connect_manager.Db.Rows.{Bytes}

-- Each encryption draws a nonce. A token decrypts to its plaintext, is not empty, and is ASCII.
pub record Fernet : Type 0 where
  pub encrypt : (nonce : ℕ) → String → Bytes
  pub decrypt : Bytes → Result String
  pub from_ascii : Bytes → String
  pub to_ascii : String → Bytes
  pub dump_pair : String → String → String
  pub load_pair : String → Result (String × String)
  pub decrypt-encrypt : (nonce : ℕ) (s : String) → decrypt (encrypt nonce s) ≡ ok s
  pub ascii_token :
      (nonce : ℕ) (s : String) → to_ascii (from_ascii (encrypt nonce s)) ≡ encrypt nonce s
  pub token-ne : (nonce : ℕ) (s : String) → str_eq (from_ascii (encrypt nonce s)) "" ≡ false
  pub load-dump : (a b : String) → load_pair (dump_pair a b) ≡ ok (a, b)

module _ (f : Fernet) where
  unfoldable pub encrypt_creds : ℕ → String → String → Bytes
  encrypt_creds nonce access_key secret_key = f.encrypt nonce (f.dump_pair access_key secret_key)

  unfoldable pub decrypt_creds : Bytes → Result (String × String)
  decrypt_creds ciphertext = do text ← f.decrypt ciphertext; f.load_pair text

  pub decrypt-encrypt_creds :
      (nonce : ℕ) (a b : String) → decrypt_creds (encrypt_creds nonce a b) ≡ ok (a, b)
  unfolding decrypt_creds encrypt_creds
  decrypt-encrypt_creds nonce a b = rw (f.decrypt-encrypt, f.load-dump) refl
