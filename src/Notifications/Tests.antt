-- ===== src/Notifications/Tests.antt =====
-- A notification of one file, alone and in an SNS envelope.
use connect_manager.Prelude.{◌≡◌, refl, true, [], ◌∷◌, ◌++◌, none, some, All, str_eq, if◌then◌else◌}
use connect_manager.Db.Table.{ok}
use connect_manager.Notifications.Values
use connect_manager.Notifications.Values.{
  Json, null, num, str, arr, obj, Fields, nil, field, find, get, iterated,
}
use connect_manager.Notifications.{
  Codec, S3Event, parse_s3_events, parse_data, parse_records, parse_record, parse_object, event_of,
}
use connect_manager.Notifications.Parsed.{IsImportable, parse_s3_events-All, parse_s3_events-sns}
use connect_manager.Notifications.Buckets.{
  Buckets, Configuration, Wanted, answered, entry_of, add_sqs_notification, remove_sqs_notification,
}
use connect_manager.Notifications.Buckets.Configured.{
  others, configuration, remove-add_sqs_notification,
}

abbrev object : Fields
object = field "key" (str "a/b.mov") (field "size" (num 7) nil)

abbrev one_record : Json
one_record = obj (
    field "eventSource" (str "aws:s3") (
      field "eventName" (str "ObjectCreated:Put") (
        field "s3"
          (obj (
            field "bucket" (obj (field "name" (str "media") nil))
              (field "object" (obj object) nil)))
          nil)))

abbrev notification : Fields
notification = field "Records" (arr (Values.item one_record Values.end)) nil

abbrev envelope : Fields
envelope = field "Message" (str "inner") nil

abbrev codec : Codec
codec = record {
  loads = λ s.
      if str_eq s "inner"
      then some (obj notification)
      else if str_eq s "outer"
      then some (obj envelope)
      else none;
  unquote_plus = λ s. s;
}

abbrev event : S3Event
event = record {
  event_type = str "ObjectCreated:Put";
  bucket = str "media";
  key = "a/b.mov";
  size = num 7;
  event_time = null;
  aws_region = null;
}

parsed : parse_s3_events codec "inner" ≡ ok (event ∷ [])
unfolding parse_s3_events parse_data parse_records parse_record parse_object event_of find get
parsed = refl

parse_s3_events-All_example : All IsImportable (event ∷ [])
parse_s3_events-All_example = parse_s3_events-All codec "inner" (event ∷ []) parsed

parse_s3_events-sns_example : parse_s3_events codec "outer" ≡ parse_s3_events codec "inner"
parse_s3_events-sns_example =
    parse_s3_events-sns codec "outer" "inner" envelope notification refl (unfold find in refl) refl
      (unfold find in refl)

-- A client that keeps the configuration of one bucket.
abbrev kept_in_memory : Buckets Configuration
kept_in_memory = record {
  get_configuration = λ b y. (answered y, y);
  put_configuration = λ b c y. (answered tt, c);
}

abbrev wanted : Wanted
wanted = record {
  queue_arn = "arn:aws:sqs:eu-west-1:123:media";
  notification_id = "connect";
  events = none;
  prefix = "in/";
  suffix = "";
}

abbrev before : Configuration
before = record {
  queues =
      record { id = some "other"; queue_arn = some "arn:other"; events = null; filter = null }
      ∷ record { id = some "connect"; queue_arn = some "arn:old"; events = null; filter = null }
      ∷ [];
  topics = str "topic" ∷ [];
  lambdas = [];
  event_bridge = none;
}

remove-add_sqs_notification_example :
    let (a, y') = add_sqs_notification kept_in_memory "media" wanted before in
    let (b, y'') = remove_sqs_notification kept_in_memory "media" wanted.queue_arn y' in
    (a ≡ ok true)
    × (b ≡ ok true)
    × (configuration kept_in_memory "media" y'
        ≡ ok (record (others wanted before) {
          queues = (others wanted before).queues ++ entry_of wanted ∷ [];
        }))
    × (configuration kept_in_memory "media" y'' ≡ ok (others wanted before))
remove-add_sqs_notification_example =
    remove-add_sqs_notification kept_in_memory "media" (λ b c y p. refl)
      ((λ c y. refl), (λ y. refl)) wanted before before refl
