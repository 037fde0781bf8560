-- ===== src/Storage.antt =====
-- app/services/s3_service.py: the S3 service over a boto3 client that is a parameter. The bucket does not
-- change while it is listed; a text is compared as its code points, and `str.lower`, the formatting of
-- a float and `str(e)` are parameters. The thread pool is left out.
pub mod Sorted
pub mod Listed
pub mod Ends
mod Tests
use Prim.Native.Char.{code}
use Prim.Native.String
use connect_manager.Prelude.{
  ℕ, zero, suc, ◌+◌, ◌*◌, String, Bool, true, false, List, [], ◌∷◌, ◌++◌, Option, none, some,
  str_eq, length, ltb, leb, ◌==◌, if◌then◌else◌,
}
use connect_manager.Text.Format.{◌<>◌, split_at, rstrip, shown, text_or_default}
use connect_manager.Db.Table.{Result, ok, err, key_error, value_error}
use connect_manager.Sessions.{S3Keys}

-- A size in MB is the quotient of two numbers.
pub record S3Item : Type 0 where
  pub name : String
  pub key : String
  pub is_folder : Bool
  pub size : ℕ × ℕ
  pub size_formatted : String

pub record S3ListResult : Type 0 where
  pub items : List S3Item
  pub total_count : ℕ
  pub is_truncated : Bool

-- The arguments of `boto3.client`.
pub record ClientArgs : Type 0 where
  pub region_name : String
  pub endpoint_url : Option String
  pub keys : Option (String × String)

abbrev nonempty : Option String → Option String
nonempty none = none
nonempty (some s) = if str_eq s "" then none else some s

abbrev keys_given : Option String → Option String → Option (String × String)
keys_given (some a) (some b) = some (a, b)
keys_given (some a) none = none
keys_given none b = none

-- `S3Service.__init__`
abbrev pub client_args : Option String → Option String → String → Option String → ClientArgs
client_args access_key secret_key region endpoint_url = record {
  region_name = region;
  endpoint_url = nonempty endpoint_url;
  keys = keys_given (nonempty access_key) (nonempty secret_key);
}

-- An object of a response.
pub record Object : Type 0 where
  pub key : String
  pub size : ℕ

-- A response to `list_objects_v2`; a list that is missing in it is empty.
pub record Response : Type 0 where
  pub common_prefixes : List String
  pub contents : List Object
  pub is_truncated : Bool
  pub next_token : Option String

-- What a call of boto3 returns, or its `ClientError` with the code and `str(e)`.
pub data Reply {ℓ} (A : Type ℓ) : Type ℓ where
  reply : A → Reply A
  client_error : (code text : String) → Reply A

pub record S3 : Type 0 where
  pub head_bucket : (bucket : String) → Reply (Unit {0})
  pub list_buckets : Reply (List String)
  pub list_objects_v2 : (bucket prefix : String) → Option String → Reply Response
  -- The pages of the paginator, up to its end or the error.
  pub paginate : (bucket prefix : String) → Reply (List (List Object))
  -- `text.lower()` by code points, and a quotient with a number of decimals.
  pub lower : String → List ℕ
  pub fixed : (decimals numerator denominator : ℕ) → String

-- `text.split("/")[-1]`
abbrev pub last : List String → String
last [] = ""
last (w ∷ []) = w
last (w ∷ v ∷ ws) = last (v ∷ ws)

abbrev pub is_slash : ℕ → Bool
is_slash c = c == b'/'

unfoldable pub folder_name : String → String
unfolding split_at rstrip
folder_name key = last (split_at b'/' (rstrip is_slash key))

unfoldable pub file_name : String → String
unfolding split_at
file_name key = last (split_at b'/' key)

abbrev pub folder_item : String → S3Item
folder_item key = record {
  name = folder_name key;
  key = key;
  is_folder = true;
  size = (0, 1);
  size_formatted = "";
}

-- Whether the first list of code points sorts strictly before the second.
abbrev pub precedes : List ℕ → List ℕ → Bool
precedes s [] = false
precedes [] (d ∷ t) = true
precedes (c ∷ s) (d ∷ t) = let rest = precedes s t in if c == d then rest else ltb c d

abbrev pub ends_with_slash : String → Bool
ends_with_slash String.[] = false
ends_with_slash (String.◌∷◌ c String.[]) = is_slash (code c)
ends_with_slash (String.◌∷◌ c (String.◌∷◌ d s)) = ends_with_slash (String.◌∷◌ d s)

abbrev kilo : ℕ
kilo = 1024

module _ (s3 : S3) where
  unfoldable pub format_size : ℕ → String
  unfolding shown
  format_size n =
      if ltb n kilo
      then shown n <> " B"
      else if ltb n (kilo * kilo)
      then s3.fixed 1 n kilo <> " KB"
      else if ltb n (kilo * kilo * kilo)
      then s3.fixed 2 n (kilo * kilo) <> " MB"
      else s3.fixed 2 n (kilo * kilo * kilo) <> " GB"

  unfoldable pub head_bucket : String → Result (Unit {0})
  head_bucket bucket = elim (s3.head_bucket bucket) [
    | reply u ↦ ok tt
    | client_error code text ↦ err (
        value_error (
          if str_eq code "404"
          then "Bucket '" <> bucket <> "' not found"
          else if str_eq code "403"
          then "Access denied to bucket '" <> bucket <> "'"
          else "Error accessing bucket: " <> text))
  ]

  unfoldable pub list_buckets : Result (List String)
  list_buckets = elim s3.list_buckets [
    | reply names ↦ ok names
    | client_error code text ↦ err (
        value_error (
          if str_eq code "403"
          then "Access denied - check your credentials"
          else "Error listing buckets: " <> text))
  ]

  abbrev pub file_item : Object → S3Item
  file_item o = record {
    name = file_name o.key;
    key = o.key;
    is_folder = false;
    size = (o.size, kilo * kilo);
    size_formatted = format_size o.size;
  }

  abbrev pub folders_in : List String → List S3Item
  folders_in [] = []
  folders_in (p ∷ ps) = folder_item p ∷ folders_in ps

  -- The placeholder of the listed folder itself is left out.
  unfoldable pub files_in : String → List Object → List S3Item
  unfolding file_name format_size
  files_in prefix [] = []
  files_in prefix (o ∷ os) =
      let rest = files_in prefix os in if str_eq o.key prefix then rest else file_item o ∷ rest

  -- `list.sort(key=lambda x: x.name.lower())`, a stable sort.
  unfoldable pub place_by_name : S3Item → List S3Item → List S3Item
  place_by_name x [] = x ∷ []
  place_by_name x (y ∷ ys) =
      let rest = place_by_name x ys in
      if precedes (s3.lower y.name) (s3.lower x.name) then y ∷ rest else x ∷ y ∷ ys

  unfoldable pub sort_by_name : List S3Item → List S3Item
  unfolding place_by_name
  sort_by_name [] = []
  sort_by_name (x ∷ xs) = place_by_name x (sort_by_name xs)

  -- What the loop has found when it ends.
  pub record Found : Type 0 where
    pub folders : List S3Item
    pub files : List S3Item
    pub is_truncated : Bool

  -- How the loop goes on after a page with what has been found, where `again` is its next round. A
  -- truncated response that has no token raises.
  module _ (again : String → List S3Item → List S3Item → Option (Result Found)) where
    abbrev pub next_page : Option String → List S3Item → List S3Item → Option (Result Found)
    next_page none ds fs = some (err key_error)
    next_page (some t) ds fs = again t ds fs

    abbrev pub after_page : ℕ → Response → List S3Item → List S3Item → Option (Result Found)
    after_page max_items r ds fs = elim (leb max_items (length ds + length fs)) [
      | true ↦ some (ok (record { folders = ds; files = fs; is_truncated = true }))
      | false ↦ elim r.is_truncated [
        | false ↦ some (ok (record { folders = ds; files = fs; is_truncated = false }))
        | true ↦ next_page r.next_token ds fs
      ]
    ]

    unfoldable pub with_reply :
        String → ℕ → Reply Response → List S3Item → List S3Item → Option (Result Found)
    unfolding files_in folder_name
    with_reply prefix max_items (client_error code text) ds fs =
        some (err (value_error ("Error listing objects: " <> text)))
    with_reply prefix max_items (reply r) ds fs =
        after_page max_items r (ds ++ folders_in r.common_prefixes)
          (fs ++ files_in prefix r.contents)

  unfoldable pub arranged : Found → S3ListResult
  unfolding sort_by_name
  arranged f =
      let items = sort_by_name f.folders ++ sort_by_name f.files in
      record { items = items; total_count = length items; is_truncated = f.is_truncated }

  abbrev pub listed : Option (Result Found) → Option (Result S3ListResult)
  listed none = none
  listed (some (err e)) = some (err e)
  listed (some (ok f)) = some (ok (arranged f))

  module _ (bucket prefix : String) (max_items : ℕ) where
    -- The `while True` loop; none where the fuel runs out.
    unfoldable pub list_pages :
        ℕ → Option String → List S3Item → List S3Item → Option (Result Found)
    unfolding with_reply
    list_pages zero token folders files = none
    list_pages (suc fuel) token folders files =
        with_reply (λ t. list_pages fuel (some t)) prefix max_items
          (s3.list_objects_v2 bucket prefix token) folders files

    unfoldable pub list_objects : ℕ → Option (Result S3ListResult)
    unfolding list_pages arranged
    list_objects fuel = listed (list_pages fuel none [] [])

  abbrev pub keys_in : List Object → List String
  keys_in [] = []
  keys_in (o ∷ os) = let rest = keys_in os in if ends_with_slash o.key then rest else o.key ∷ rest

  abbrev pub keys_on : List (List Object) → List String
  keys_on [] = []
  keys_on (p ∷ ps) = keys_in p ++ keys_on ps

  unfoldable pub list_all_objects : String → String → Result (List String)
  list_all_objects bucket prefix = elim (s3.paginate bucket prefix) [
    | reply pages ↦ ok (keys_on pages)
    | client_error code text ↦ err (value_error ("Error listing objects: " <> text))
  ]
