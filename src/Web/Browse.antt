-- ===== src/Web/Browse.antt =====
-- app/main.py: browsing a bucket in pages, and going up one level. The quotient under `ceil` is exact.
-- The loop of `list_objects` runs on the fuel that its cap calls for.
pub mod Pages
pub mod Up
use Prim.Native.Nat.{min, max}
use Prim.Native.String
use connect_manager.Prelude.{
  ℕ, suc, ◌+◌, ◌-◌, ◌*◌, ◌/◌, String, Bool, true, false, List, [], ◌∷◌, Option, none, some, take,
  drop, str_eq, if◌then◌else◌,
}
use connect_manager.Text.Format.{split_at, rstrip}
use connect_manager.Db.Table.{Fault, Result, ok, err, attribute_error}
use connect_manager.Credentials.Datastores.{Entry}
use connect_manager.Sessions.{S3Keys, get_datastore_by_id, get_s3_service_for_datastore}
use connect_manager.Storage.{S3, S3Item, S3ListResult, list_objects, is_slash}
use connect_manager.Web.{Request, World, Env, state_of, say, with_session, with_uid, with_hydrated}

-- Integers, as a query parameter has them.
pub data ℤ : Type 0 where
  pos : ℕ → ℤ
  negsuc : ℕ → ℤ

-- `max(low, min(i, high))` where low is at most high.
abbrev pub clamp : ℕ → ℕ → ℤ → ℕ
clamp low high (pos n) = max low (min n high)
clamp low high (negsuc n) = low

abbrev pub size_of_page : ℤ → ℕ
size_of_page page_size = clamp 10 200 page_size

-- `max(1, ceil(total / size))` for a size that is not 0.
unfoldable pub pages_for : ℕ → ℕ → ℕ
pages_for total size = max 1 ((total + (size - 1)) / size)

-- `items[start:end]` of a page that counts from 1.
unfoldable pub slice_for {ℓ} : {A : Type ℓ} → (page size : ℕ) → List A → List A
slice_for page size items = take size (drop ((page - 1) * size) items)

pub record Shown : Type 0 where
  pub datastore_id : String
  pub bucket : String
  pub prefix : String
  pub items : List S3Item
  pub page : ℕ
  pub page_size : ℕ
  pub total_pages : ℕ
  pub total_items : ℕ
  pub is_truncated : Bool

pub data Page : Type 0 where
  datastore_browser : Shown → Page
  connection_error : (error : String) → Page

unfoldable pub paged :
    (datastore_id bucket prefix : String) → (page page_size : ℤ) → S3ListResult → Shown
unfolding pages_for slice_for
paged datastore_id bucket prefix page page_size r =
    let size = size_of_page page_size in
    let pages = pages_for r.total_count size in
    let number = clamp 1 pages page in
    record {
      datastore_id = datastore_id;
      bucket = bucket;
      prefix = prefix;
      items = slice_for number size r.items;
      page = number;
      page_size = size;
      total_pages = pages;
      total_items = r.total_count;
      is_truncated = r.is_truncated;
    }

-- `list_objects` has this default.
abbrev pub max_items : ℕ
max_items = 5000

-- The prefix of the parent folder.
abbrev pub joined_by_slash : List String → String
joined_by_slash [] = ""
joined_by_slash (w ∷ []) = w
joined_by_slash (w ∷ v ∷ ws) = String.◌++◌ w (String.◌++◌ "/" (joined_by_slash (v ∷ ws)))

-- `parts[:-1]`
abbrev pub all_but_last : List String → List String
all_but_last [] = []
all_but_last (w ∷ []) = []
all_but_last (w ∷ v ∷ ws) = w ∷ all_but_last (v ∷ ws)

unfoldable pub with_slash : String → String
with_slash s = if str_eq s "" then "" else String.◌++◌ s "/"

unfoldable pub parent_prefix : String → String
unfolding split_at rstrip with_slash
parent_prefix prefix =
    if str_eq prefix ""
    then ""
    else with_slash (joined_by_slash (all_but_last (split_at b'/' (rstrip is_slash prefix))))

-- The S3 service of a pair of keys, and what the handler calls in the session.
module _ (connect : S3Keys → S3) (e : Env) where
  -- Nothing is returned where the fuel of the listing runs out.
  abbrev pub after_list :
      (datastore_id bucket prefix : String)
      → (page page_size : ℤ) → String
      → World
      → Option (Result S3ListResult)
      → Option (Page × World)
  after_list d b p page size u w none = none
  after_list d b p page size u w (some (err x)) =
      some
        (connection_error (e.describe x), say e u (String.◌++◌ "Browse error: " (e.describe x)) w)
  after_list d b p page size u w (some (ok r)) =
      some (datastore_browser (paged d b p page size r), w)

  abbrev pub with_service :
      (datastore_id prefix : String)
      → (page page_size : ℤ) → String
      → World
      → Entry
      → Option S3Keys
      → Option (Page × World)
  with_service d p page size u w cred none =
      some (connection_error "S3 service not initialized for this DataStore", w)
  with_service d p page size u w cred (some keys) =
      after_list d cred.bucket_name p page size u w
        (list_objects (connect keys) cred.bucket_name p max_items (suc max_items))

  abbrev pub with_cred :
      (datastore_id prefix : String)
      → (page page_size : ℤ) → String
      → World
      → Option Entry
      → Option (Page × World)
  with_cred d p page size u w none =
      some
        (connection_error "DataStore credentials not found. Please add credentials in Settings.", w)
  with_cred d p page size u w (some cred) =
      with_service d p page size u w cred (get_s3_service_for_datastore d (state_of u w))

  unfoldable pub browse_in :
      (datastore_id prefix : String)
      → (page page_size : ℤ) → String
      → World
      → Result (Option Page) × World
  unfolding list_objects
  browse_in d p page size u w =
      elim (with_cred d p page size u w (get_datastore_by_id d (state_of u w))) [
        | none ↦ (ok none, w)
        | some (shown, w') ↦ (ok (some shown), w')
      ]

  unfoldable pub browse_datastore :
      (datastore_id prefix : String)
      → (page page_size : ℤ) → Request
      → World
      → Result (Option Page) × World
  unfolding with_session with_uid with_hydrated browse_in
  browse_datastore d p page size r w =
      with_session e r
        (λ u. with_uid e r λ uid. with_hydrated e r u uid (browse_in d p page size u)) w

  -- The session that this handler passes on is no database session, so filling the cache with it raises.
  abbrev pub filled_only :
      String → (World → Result (Option Page) × World) → World → Result (Option Page) × World
  filled_only u rest w = elim (state_of u w).hydrated [
    | true ↦ rest w
    | false ↦ (err attribute_error, w)
  ]

  unfoldable pub browse_datastore_back :
      (datastore_id prefix : String)
      → (page_size : ℤ) → Request
      → World
      → Result (Option Page) × World
  unfolding with_session with_uid browse_in parent_prefix
  browse_datastore_back d p size r w =
      with_session e r
        (λ u. with_uid e r λ uid. filled_only u (browse_in d (parent_prefix p) (pos 1) size u)) w
