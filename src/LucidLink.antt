-- ===== src/LucidLink.antt =====
-- app/services/lucidlink.py: the client of the LucidLink API, over an HTTP client that is given.
-- The headers other than Authorization, the timeouts and the pool of connections are left out.
pub mod Datastores
pub mod Folders
pub mod Requests
pub mod Tree
pub mod Made
pub mod Names
mod Tests
use Prim.Native.String.{◌++◌}
use connect_manager.Prelude.{
  ℕ, String, Bool, true, false, ◌&&◌, ◌||◌, not, Option, none, some, str_eq, leb, ◌==◌,
  if◌then◌else◌,
}
use connect_manager.Text.Format.{shown, clipped, strip, is_space, remove_from, text_or_default}
use connect_manager.Db.Table.{Fault, Result, ok, err, ◌>>=◌}
use connect_manager.Notifications.Values.{
  Json, null, bool, num, other_num, str, arr, obj, Items, end, Fields, nil, field, find, get,
  default_to, is_text,
}

pub data Method : Type 0 where
  get_method : Method
  post_method : Method
  delete_method : Method

-- `path` is the query parameter, `payload` the JSON that is sent.
pub record Request : Type 0 where
  pub method : Method
  pub url : String
  pub authorization : String
  pub path : Option String
  pub payload : Option Json

-- `json` is what `resp.json()` returns or raises.
pub record Response : Type 0 where
  pub status : ℕ
  pub text : String
  pub json : Result Json

pub data Reply : Type 0 where
  response : Response → Reply
  timed_out : (message : String) → Reply
  connect_failed : (message : String) → Reply
  raised : (kind message : String) → Reply

-- The HTTP client with what it talks to, `LL_HOST`, and `str(e)` of a Python exception.
pub record Http (Y : Type 0) : Type 0 where
  pub send : Request → Y → Reply × Y
  pub ll_host : String
  pub describe : Fault → String

pub record Client : Type 0 where
  pub token : String
  pub filespace_id : String
  pub datastore_id : String
  pub base_url : String
  pub api_host : String

-- `LucidLinkClient(api_host)`.
abbrev pub new_client : String → String → Client
new_client ll_host api_host = record {
  token = "";
  filespace_id = "";
  datastore_id = "";
  base_url = "";
  api_host = text_or_default api_host ll_host;
}

unfoldable pub clean_token : String → String
unfolding strip remove_from
clean_token token = strip is_space (remove_from "Bearer " 0 token)

abbrev pub filespace_url : String → String → String
filespace_url host filespace_id = host ++ ("/filespaces/" ++ filespace_id)

unfoldable pub configure : String → String → String → String → Client → Client
unfolding clean_token
configure token filespace_id datastore_id api_host c =
    let host = text_or_default api_host c.api_host in
    record {
      token = clean_token token;
      filespace_id = filespace_id;
      datastore_id = datastore_id;
      base_url = filespace_url host filespace_id;
      api_host = host;
    }

abbrev pub bearer : String → String
bearer token = "Bearer " ++ token

-- What Python takes for true. A zero that is written as no natural number does not arise.
abbrev pub is_true : Json → Bool
is_true null = false
is_true (bool b) = b
is_true (num n) = not (n == 0)
is_true (other_num s) = true
is_true (str s) = not (str_eq s "")
is_true (arr end) = false
is_true (arr (Items.item v vs)) = true
is_true (obj nil) = false
is_true (obj (field k v fs)) = true

-- `data["data"].get("id") if "data" in data else data.get("id")`, and None where that raises.
abbrev pub id_of_found : Fields → Option Json → Result Json
id_of_found fs (some inner) = get inner "id" null
id_of_found fs none = get (obj fs) "id" null

abbrev pub or_null : Result Json → Json
or_null (ok v) = v
or_null (err e) = null

abbrev pub resolved_id : Result Json → Json
resolved_id (ok (obj fs)) = or_null (id_of_found fs (find "data" fs))
resolved_id (ok null) = null
resolved_id (ok (bool b)) = null
resolved_id (ok (num n)) = null
resolved_id (ok (other_num s)) = null
resolved_id (ok (str s)) = null
resolved_id (ok (arr xs)) = null
resolved_id (err e) = null

-- `data.get("id") or data.get("data", {}).get("id")`.
unfoldable pub created_id : Json → Result Json
unfolding get
created_id entry = do
  id ← get entry "id" null
  if is_true id then ok id else (do inner ← get entry "data" (obj nil); get inner "id" null)

abbrev pub http_message : ℕ → String → String
http_message status text = "HTTP " ++ (shown status ++ (": " ++ text))

module _ {Y : Type 0} (h : Http Y) where
  abbrev pub resolve_request : Client → String → Request
  resolve_request c path = record {
    method = get_method;
    url = c.base_url ++ "/entries/resolve";
    authorization = bearer c.token;
    path = some path;
    payload = none;
  }

  abbrev pub resolved : Reply → Json
  resolved (response r) = if r.status == 200 then resolved_id r.json else null
  resolved (timed_out message) = null
  resolved (connect_failed message) = null
  resolved (raised kind message) = null

  -- The id is null where there is none.
  unfoldable pub get_id_by_path : Client → String → Y → Json × Y
  unfolding find get
  get_id_by_path c path y = elim (str_eq c.base_url "") [
    | true ↦ (null, y)
    | false ↦ let (reply, y') = h.send (resolve_request c path) y in (resolved reply, y')
  ]

  abbrev pub folder_fields : String → Json → Fields
  folder_fields name parent_id =
      field "name" (str name) (
        field "type" (str "dir")
          (if is_true parent_id then field "parentId" parent_id nil else nil))

  abbrev pub create_request : Client → String → Json → Request
  create_request c name parent_id = record {
    method = post_method;
    url = c.base_url ++ "/entries";
    authorization = bearer c.token;
    path = none;
    payload = some (obj (folder_fields name parent_id));
  }

  abbrev pub created_or : Result Json → Json × String
  created_or (ok id) = (id, "")
  created_or (err e) = (null, h.describe e)

  abbrev pub created : Reply → Json × String
  created (response r) =
      if r.status == 200 || r.status == 201
      then created_or (r.json >>= created_id)
      else if r.status == 409
      then (str "CONFLICT", "")
      else (null, http_message r.status r.text)
  created (timed_out message) = (null, message)
  created (connect_failed message) = (null, message)
  created (raised kind message) = (null, message)

  unfoldable pub create_folder : Client → String → Json → Y → (Json × String) × Y
  unfolding created_id shown
  create_folder c name parent_id y = elim (str_eq c.base_url "") [
    | true ↦ ((null, "No base URL configured"), y)
    | false ↦ let (reply, y') = h.send (create_request c name parent_id) y in (created reply, y')
  ]

  abbrev pub import_request : Client → String → String → Request
  import_request c s3_key ll_path = record {
    method = post_method;
    url = c.base_url ++ "/external/entries";
    authorization = bearer c.token;
    path = none;
    payload = some (
        obj (
          field "path" (str ll_path) (
            field "kind" (str "SingleObjectFile") (
              field "dataStoreId" (str c.datastore_id)
                (field "singleObjectFileParams" (obj (field "objectId" (str s3_key) nil)) nil)))));
  }

  abbrev pub error_text : Response → String
  error_text r =
      if str_eq r.text "" then "HTTP " ++ (shown r.status ++ " (no body)") else clipped 500 r.text

  abbrev pub imported : Reply → ℕ × String
  imported (response r) = (r.status, if leb 400 r.status then error_text r else "")
  imported (timed_out message) = (500, "Request timeout")
  imported (connect_failed message) = (500, "Connection error: " ++ message)
  imported (raised kind message) = (500, "Exception: " ++ (kind ++ (": " ++ message)))

  unfoldable pub import_file : Client → String → String → Y → (ℕ × String) × Y
  unfolding shown clipped
  import_file c s3_key ll_path y = elim (str_eq c.base_url "") [
    | true ↦ ((500, "No base URL configured"), y)
    | false ↦ elim (str_eq c.datastore_id "") [
      | true ↦ ((500, "No datastore ID configured"), y)
      | false ↦ let (reply, y') = h.send (import_request c s3_key ll_path) y in (imported reply, y')
    ]
  ]
