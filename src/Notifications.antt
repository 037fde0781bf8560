-- ===== src/Notifications.antt =====
-- app/services/sqs_service.py: what the service makes of messages and of queue names, without the
-- calls of boto3.
pub mod Values
pub mod Parsed
pub mod QueueNames
pub mod Buckets
pub mod Service
mod Tests
use Prim.Native.String
use connect_manager.Prelude.{
  ℕ, String, Bool, true, false, ◌&&◌, ◌||◌, not, List, [], ◌∷◌, Option, none, some, str_eq,
  if◌then◌else◌,
}
use connect_manager.Db.Table.{Result, ok, err, type_error, attribute_error, ◌>>=◌}
use connect_manager.Text.Format.{strip, is_space, begins_with, after_prefix, split_at}
use Values.{
  Json, null, bool, num, other_num, str, arr, obj, Fields, Items, nil, find, get, is_text, text_of,
  iterated,
}

-- `json.loads` (none where it raises JSONDecodeError) and `urllib.parse.unquote_plus`.
pub record Codec : Type 0 where
  pub loads : String → Option Json
  pub unquote_plus : String → String

pub record S3Event : Type 0 where
  pub event_type : Json
  pub bucket : Json
  pub key : String
  pub size : Json
  pub event_time : Json
  pub aws_region : Json

abbrev pub add_event : Option S3Event → List S3Event → List S3Event
add_event none es = es
add_event (some e) es = e ∷ es

module _ (codec : Codec) where
  -- The event of a record, by its parts.
  unfoldable pub event_of : Json → Json → Json → Json → String → Result S3Event
  unfolding get
  event_of r event_name bucket_info object_info key = do
    bucket ← get bucket_info "name" (str "")
    size ← get object_info "size" null
    event_time ← get r "eventTime" null
    aws_region ← get r "awsRegion" null
    ok (record {
      event_type = event_name;
      bucket = bucket;
      key = key;
      size = size;
      event_time = event_time;
      aws_region = aws_region;
    })

  -- The object key is decoded; test events and empty keys are passed over.
  unfoldable pub parse_object : Json → Json → Json → Json → Result (Option S3Event)
  unfolding get event_of
  parse_object r event_name bucket_info object_info = do
    raw_key ← get object_info "key" (str "")
    quoted ← text_of raw_key
    let key = codec.unquote_plus quoted
    if is_text event_name "s3:TestEvent" || str_eq key ""
        then ok none
        else (do e ← event_of r event_name bucket_info object_info key; ok (some e))

  -- One record: an event, or nothing where the record is passed over.
  unfoldable pub parse_record : Json → Result (Option S3Event)
  unfolding get parse_object
  parse_record r = do
    source ← get r "eventSource" null
    if not (is_text source "aws:s3") then ok none else (do
      event_name ← get r "eventName" (str "")
      s3_info ← get r "s3" (obj nil)
      bucket_info ← get s3_info "bucket" (obj nil)
      object_info ← get s3_info "object" (obj nil)
      parse_object r event_name bucket_info object_info)

  unfoldable pub parse_records : List Json → Result (List S3Event)
  unfolding parse_record
  parse_records [] = ok []
  parse_records (r ∷ rs) =
      let later = parse_records rs in do e ← parse_record r; es ← later; ok (add_event e es)

  unfoldable pub parse_data : Json → Result (List S3Event)
  unfolding parse_records
  parse_data d = do
    found ← get d "Records" (arr Values.end)
    records ← iterated found
    parse_records records

  abbrev pub parse_loaded : Option Json → Result (List S3Event)
  parse_loaded none = ok []
  parse_loaded (some d) = parse_data d

  -- An SNS envelope holds the notification in its "Message".
  abbrev pub unwrapped : Json → Option Json → Result (List S3Event)
  unwrapped d (some (str message)) = parse_loaded (codec.loads message)
  unwrapped d (some null) = parse_data d
  unwrapped d (some (bool b)) = parse_data d
  unwrapped d (some (num n)) = parse_data d
  unwrapped d (some (other_num s)) = parse_data d
  unwrapped d (some (arr xs)) = parse_data d
  unwrapped d (some (obj fs)) = parse_data d
  unwrapped d none = parse_data d

  -- `"Message" in data`, and the calls of `get`, raise for what is no dict.
  abbrev pub parse_body : Option Json → Result (List S3Event)
  parse_body none = ok []
  parse_body (some (obj fs)) = unwrapped (obj fs) (find "Message" fs)
  parse_body (some null) = err type_error
  parse_body (some (bool b)) = err type_error
  parse_body (some (num n)) = err type_error
  parse_body (some (other_num s)) = err type_error
  parse_body (some (str s)) = err attribute_error
  parse_body (some (arr xs)) = err attribute_error

  unfoldable pub parse_s3_events : String → Result (List S3Event)
  unfolding parse_data find
  parse_s3_events message_body = parse_body (codec.loads message_body)

abbrev pub create_patterns : List String
create_patterns =
    "ObjectCreated:Put" ∷ "ObjectCreated:Post" ∷ "ObjectCreated:Copy"
    ∷ "ObjectCreated:CompleteMultipartUpload" ∷ []

abbrev pub is_any_of : Json → List String → Bool
is_any_of v [] = false
is_any_of v (p ∷ ps) = is_text v p || is_any_of v ps

unfoldable pub is_create_event : Json → Bool
is_create_event event_type = is_any_of event_type create_patterns
