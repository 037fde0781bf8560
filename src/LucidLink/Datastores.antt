-- ===== src/LucidLink/Datastores.antt =====
-- The client's calls about filespaces and data stores, which open a connection of their own.
use Prim.Native.String.{◌++◌}
use connect_manager.Prelude.{ℕ, String, Bool, ◌||◌, none, some, str_eq, ◌==◌, if◌then◌else◌}
use connect_manager.Text.Format.{shown, clipped, text_or_default}
use connect_manager.Db.Table.{Result, ok, err}
use connect_manager.Notifications.Values.{
  Json, null, bool, num, other_num, str, arr, obj, Items, item, end, Fields, nil, field, find,
  default_to,
}
use connect_manager.LucidLink.{
  Http, Client, Request, Method, get_method, post_method, delete_method, Reply, response, timed_out,
  connect_failed, raised, clean_token, bearer, http_message, filespace_url,
}

-- What a call returns: a value of JSON, or the text of an error.
pub data Answered : Type 0 where
  value : Json → Answered
  message : String → Answered

abbrev pub timeout_text : String
timeout_text = "TIMEOUT: Connection timed out"

abbrev pub connect_text : String
connect_text = "CONN_ERR: Cannot connect to LucidLink API"

-- `data["data"] if isinstance(data, dict) and "data" in data else data`.
abbrev pub unwrapped : Json → Json
unwrapped (obj fs) = default_to (obj fs) (find "data" fs)
unwrapped null = null
unwrapped (bool b) = bool b
unwrapped (num n) = num n
unwrapped (other_num s) = other_num s
unwrapped (str s) = str s
unwrapped (arr xs) = arr xs

-- A list is returned as it is; another value that is not wrapped becomes the only one.
abbrev pub filespaces_in : Json → Json
filespaces_in (arr xs) = arr xs
filespaces_in (obj fs) = default_to (arr (item (obj fs) end)) (find "data" fs)
filespaces_in null = arr (item null end)
filespaces_in (bool b) = arr (item (bool b) end)
filespaces_in (num n) = arr (item (num n) end)
filespaces_in (other_num s) = arr (item (other_num s) end)
filespaces_in (str s) = arr (item (str s) end)

abbrev pub list_or_none : Json → Items
list_or_none (arr xs) = xs
list_or_none null = end
list_or_none (bool b) = end
list_or_none (num n) = end
list_or_none (other_num s) = end
list_or_none (str s) = end
list_or_none (obj fs) = end

abbrev pub error_of : String → ℕ → String → String
error_of word status text = word ++ (shown status ++ (": " ++ text))

abbrev pub with_entry : String → String → Fields → Fields
with_entry key s fs = if str_eq s "" then fs else field key (str s) fs

-- The fields of `s3StorageParams`; the endpoint stands last.
abbrev pub storage_fields :
    (bucket access_key secret_key : String) → Bool → ℕ → String → String → Fields
storage_fields bucket access_key secret_key virtual minutes region endpoint =
    field "bucketName" (str bucket) (
      field "accessKey" (str access_key) (
        field "secretKey" (str secret_key) (
          field "useVirtualAddressing" (bool virtual) (
            field "urlExpirationMinutes" (num minutes)
              (with_entry "region" region (with_entry "endpoint" endpoint nil))))))

module _ {Y : Type 0} (h : Http Y) (c : Client) where
  abbrev pub stores_url : String → String → String
  stores_url api_host filespace_id =
      filespace_url (text_or_default api_host c.api_host) filespace_id ++ "/external/data-stores"

  abbrev pub plain_request : Method → String → String → Request
  plain_request method url token = record {
    method = method;
    url = url;
    authorization = bearer (clean_token token);
    path = none;
    payload = none;
  }

  abbrev pub conn_err : String → Answered
  conn_err text = message ("CONN_ERR: " ++ text)

  abbrev pub loaded : (Json → Json) → Result Json → Answered
  loaded read (ok v) = value (read v)
  loaded read (err e) = conn_err (h.describe e)

  abbrev pub filespaces_answer : Reply → Answered
  filespaces_answer (response r) =
      if r.status == 200
      then loaded filespaces_in r.json
      else if str_eq r.text ""
      then message ("HTTP " ++ shown r.status)
      else message (http_message r.status (clipped 200 r.text))
  filespaces_answer (timed_out m) = message timeout_text
  filespaces_answer (connect_failed m) = message connect_text
  filespaces_answer (raised kind m) = conn_err m

  unfoldable pub list_filespaces : String → String → Y → Answered × Y
  unfolding clean_token shown clipped find
  list_filespaces token api_host y =
      let (reply, y') =
        h.send
          (plain_request get_method (text_or_default api_host c.api_host ++ "/filespaces") token)
          y in
      (filespaces_answer reply, y')

  abbrev pub stores_in : Result Json → Items
  stores_in (ok v) = list_or_none (unwrapped v)
  stores_in (err e) = end

  abbrev pub datastores_answer : Reply → Items
  datastores_answer (response r) = if r.status == 200 then stores_in r.json else end
  datastores_answer (timed_out m) = end
  datastores_answer (connect_failed m) = end
  datastores_answer (raised kind m) = end

  unfoldable pub list_datastores : String → String → String → Y → Items × Y
  unfolding clean_token find
  list_datastores token filespace_id api_host y =
      let (reply, y') =
        h.send (plain_request get_method (stores_url api_host filespace_id) token) y in
      (datastores_answer reply, y')

  abbrev pub datastore_answer : Reply → Answered
  datastore_answer (response r) =
      if r.status == 200
      then loaded unwrapped r.json
      else message (error_of "ERROR_" r.status r.text)
  datastore_answer (timed_out m) = message timeout_text
  datastore_answer (connect_failed m) = message connect_text
  datastore_answer (raised kind m) = conn_err m

  abbrev pub store_url : String → String → String → String
  store_url api_host filespace_id datastore_id =
      stores_url api_host filespace_id ++ ("/" ++ datastore_id)

  unfoldable pub get_datastore : String → String → String → String → Y → Answered × Y
  unfolding clean_token shown find
  get_datastore token filespace_id datastore_id api_host y =
      let (reply, y') =
        h.send (plain_request get_method (store_url api_host filespace_id datastore_id) token) y in
      (datastore_answer reply, y')

  abbrev pub deletion_answer : Reply → String
  deletion_answer (response r) =
      if r.status == 200 || r.status == 204 then "SUCCESS" else error_of "Error " r.status r.text
  deletion_answer (timed_out m) = timeout_text
  deletion_answer (connect_failed m) = connect_text
  deletion_answer (raised kind m) = "Exception: " ++ m

  unfoldable pub delete_datastore : String → String → String → String → Y → String × Y
  unfolding clean_token shown
  delete_datastore token filespace_id datastore_id api_host y =
      let (reply, y') =
        h.send (plain_request delete_method (store_url api_host filespace_id datastore_id) token)
          y in
      (deletion_answer reply, y')

  abbrev pub creation_answer : Reply → String
  creation_answer (response r) =
      if r.status == 200 || r.status == 201 then "SUCCESS" else error_of "Error " r.status r.text
  creation_answer (timed_out m) = "Exception: " ++ m
  creation_answer (connect_failed m) = "Exception: " ++ m
  creation_answer (raised kind m) = "Exception: " ++ m

  abbrev pub store_payload : String → Fields → Json
  store_payload name fs = obj (
      field "name" (str name)
        (field "kind" (str "S3DataStore") (field "s3StorageParams" (obj fs) nil)))

  -- An endpoint that is None is the empty text here; the code treats both alike.
  unfoldable pub create_s3_datastore :
      (token filespace_id name bucket region endpoint access_key secret_key api_host : String)
      → (use_virtual_addressing : Bool) → (url_expiration_minutes : ℕ) → Y
      → String × Y
  unfolding clean_token shown
  create_s3_datastore token filespace_id name bucket region endpoint access_key secret_key api_host
        virtual minutes y =
      let fields = storage_fields bucket access_key secret_key virtual minutes region endpoint in
      let plain = plain_request post_method (stores_url api_host filespace_id) token in
      let (reply, y') = h.send (record plain { payload = some (store_payload name fields) }) y in
      (creation_answer reply, y')
