-- ===== src/Secrets/Named.antt =====
-- The secrets that the program stores, under the names of their keys.
use Prim.Native.String.{◌++◌}
use connect_manager.Prelude.{String, Bool, false, ◌||◌, Option, none, some, str_eq, if◌then◌else◌}
use connect_manager.Db.Table.{Result, ok, err}
use connect_manager.Secrets.{Outside, Vault, set_secret, get_secret, delete_secret}

abbrev pub key_ll_token : String
key_ll_token = "lucidlink_api_token"

abbrev pub key_aws_access_key : String
key_aws_access_key = "aws_access_key"

abbrev pub key_aws_secret_key : String
key_aws_secret_key = "aws_secret_key"

abbrev pub user_key : String → String
user_key user_id = "ll_token_" ++ user_id

abbrev pub creds_key : String → String
creds_key key = "aws_creds_" ++ key

-- `json` on the dict of a key pair; a text of other JSON does not arise.
pub record Pairs : Type 0 where
  pub dump_pair : String → String → String
  pub load_pair : String → Option (Option String × Option String)

module _ (o : Outside) where
  unfoldable pub set_lucidlink_token : String → Vault → Result (Unit {0}) × Vault
  set_lucidlink_token token v = set_secret o key_ll_token token v

  unfoldable pub get_lucidlink_token : Vault → Option String × Vault
  get_lucidlink_token v = get_secret o key_ll_token v

  unfoldable pub delete_lucidlink_token : Vault → Bool × Vault
  delete_lucidlink_token v = delete_secret o key_ll_token v

  -- Setting an empty text does nothing, so the guards of the source are those of `set_secret`.
  unfoldable pub set_aws_credentials : String → String → Vault → Result (Unit {0}) × Vault
  set_aws_credentials access_key secret_key v =
      after_first (set_secret o key_aws_access_key access_key v)
    where
      after_first : Result (Unit {0}) × Vault → Result (Unit {0}) × Vault
      after_first (err e, w) = (err e, w)
      after_first (ok _, w) = set_secret o key_aws_secret_key secret_key w

  unfoldable pub get_aws_credentials : Vault → (Option String × Option String) × Vault
  get_aws_credentials v =
      let (a, v') = get_secret o key_aws_access_key v in
      let (s, v'') = get_secret o key_aws_secret_key v' in ((a, s), v'')

  unfoldable pub delete_aws_credentials : Vault → Vault
  delete_aws_credentials v =
      (delete_secret o key_aws_secret_key (delete_secret o key_aws_access_key v).1).1

  unfoldable pub clear_all_secrets : Vault → Vault
  unfolding delete_lucidlink_token delete_aws_credentials
  clear_all_secrets v = delete_aws_credentials (delete_lucidlink_token v).1

  unfoldable pub set_named_credentials :
      Pairs → String → String → String → Vault → Result (Unit {0}) × Vault
  set_named_credentials pairs key access_key secret_key v =
      if str_eq key "" || str_eq access_key "" || str_eq secret_key ""
      then (ok tt, v)
      else set_secret o (creds_key key) (pairs.dump_pair access_key secret_key) v

  abbrev pub pair_of : Option (Option String × Option String) → Option String × Option String
  pair_of none = (none, none)
  pair_of (some p) = p

  abbrev pub pair_in : Pairs → Option String → Option String × Option String
  pair_in pairs none = (none, none)
  pair_in pairs (some text) =
      if str_eq text "" then (none, none) else pair_of (pairs.load_pair text)

  unfoldable pub get_named_credentials :
      Pairs → String → Vault → (Option String × Option String) × Vault
  get_named_credentials pairs key v =
      let (text, v') = get_secret o (creds_key key) v in
      if str_eq key "" then ((none, none), v) else (pair_in pairs text, v')

  unfoldable pub delete_named_credentials : String → Vault → Bool × Vault
  delete_named_credentials key v =
      if str_eq key "" then (false, v) else delete_secret o (creds_key key) v

  unfoldable pub set_user_token : String → String → Vault → Result (Unit {0}) × Vault
  set_user_token user_id token v =
      if str_eq user_id "" || str_eq token ""
      then (ok tt, v)
      else set_secret o (user_key user_id) token v

  unfoldable pub get_user_token : String → Vault → Option String × Vault
  get_user_token user_id v =
      if str_eq user_id "" then (none, v) else get_secret o (user_key user_id) v

  unfoldable pub delete_user_token : String → Vault → Bool × Vault
  delete_user_token user_id v =
      if str_eq user_id "" then (false, v) else delete_secret o (user_key user_id) v
