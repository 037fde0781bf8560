-- ===== src/Notifications/Service.antt =====
-- app/services/sqs_service.py, SQSService: the calls on queues, over a boto3 client that is a parameter.
use Prim.Native.Nat.{min}
use connect_manager.Prelude.{
  ℕ, String, Bool, true, false, List, [], ◌∷◌, Option, none, some, str_eq, or_else, if◌then◌else◌,
}
use connect_manager.Text.Format.{◌<>◌, split_at}
use connect_manager.Db.Table.{Fault, Result, ok, err, sqs_error}
use connect_manager.Notifications.Values.{Json, str, arr, obj, end, item, nil, field}
use connect_manager.Notifications.QueueNames.{queue_name, queue_region, last_part, part}
use connect_manager.Notifications.Buckets.{Answer, answered, client_error}

-- The attributes of a queue that the code reads.
pub record Attributes : Type 0 where
  pub queue_arn : Option String
  pub approximate_messages : Option String

-- The client of a region; `dumps` is `json.dumps`.
pub record Sqs (Y M : Type 0) : Type 0 where
  pub region : String
  pub dumps : Json → String
  pub receive_message :
      (queue_url : String) → (max_messages wait_time_seconds : ℕ) → Y → Answer (List M) × Y
  pub delete_message : (queue_url receipt_handle : String) → Y → Answer (Unit {0}) × Y
  pub get_queue_attributes : (queue_url : String) → Y → Answer Attributes × Y
  pub create_queue :
      (queue_name : String) → (visibility_timeout message_retention : ℕ) → Y → Answer String × Y
  pub list_queues : (prefix : Option String) → Y → Answer (List String) × Y
  pub set_policy : (queue_url policy : String) → Y → Answer (Unit {0}) × Y
  pub delete_queue : (queue_url : String) → Y → Answer (Unit {0}) × Y

pub record QueueInfo : Type 0 where
  pub url : String
  pub arn : String
  pub name : String
  pub region : String
  pub approximate_messages : String

pub record Listed : Type 0 where
  pub url : String
  pub name : String

-- A `ClientError` becomes an SQSError with a message before it.
abbrev pub or_failed {ℓ} : {A : Type ℓ} → String → Answer A → Result A
or_failed what (answered a) = ok a
or_failed what (client_error code message text) = err (sqs_error (what <> text))

abbrev pub done : Result (Unit {0}) → Result Bool
done (ok t) = ok true
done (err x) = err x

abbrev pub default_timeout : ℕ
default_timeout = 300

abbrev pub default_retention : ℕ
default_retention = 345600

abbrev listed_urls : List String → List Listed
listed_urls [] = []
listed_urls (url ∷ urls) =
    record { url = url; name = last_part (split_at b'/' url) } ∷ listed_urls urls

unfoldable pub names_of : List String → List Listed
unfolding split_at
names_of urls = listed_urls urls

-- The policy that lets S3 send messages for a bucket.
abbrev pub statement : (queue_arn bucket_name account_id : String) → Json
statement queue_arn bucket_name account_id = obj (
    field "Sid" (str "AllowS3ToSendMessage") (
      field "Effect" (str "Allow") (
        field "Principal" (obj (field "Service" (str "s3.amazonaws.com") nil)) (
          field "Action" (str "sqs:SendMessage") (
            field "Resource" (str queue_arn) (
              field "Condition"
                (obj (
                  field "ArnLike"
                    (obj (field "aws:SourceArn" (str ("arn:aws:s3:::" <> bucket_name)) nil))
                    (field "StringEquals" (obj (field "aws:SourceAccount" (str account_id) nil))
                      nil)))
                nil))))))

abbrev pub policy_of : (queue_arn bucket_name account_id : String) → Json
policy_of queue_arn bucket_name account_id = obj (
    field "Version" (str "2012-10-17") (
      field "Id" (str "S3NotificationPolicy")
        (field "Statement" (arr (item (statement queue_arn bucket_name account_id) end)) nil)))

module _ {Y M : Type 0} (sqs : Sqs Y M) where
  unfoldable pub receive_messages : String → ℕ → ℕ → Y → Result (List M) × Y
  receive_messages queue_url max_messages wait y =
      let (a, y') = sqs.receive_message queue_url (min max_messages 10) wait y in
      (or_failed "Failed to receive messages: " a, y')

  unfoldable pub delete_message : String → String → Y → Result Bool × Y
  delete_message queue_url receipt_handle y =
      let (a, y') = sqs.delete_message queue_url receipt_handle y in
      (done (or_failed "Failed to delete message: " a), y')

  unfoldable pub get_queue_attributes : String → Y → Result Attributes × Y
  get_queue_attributes queue_url y =
      let (a, y') = sqs.get_queue_attributes queue_url y in
      (or_failed "Failed to get queue attributes: " a, y')

  abbrev pub info_of : String → Attributes → QueueInfo
  info_of queue_url a =
      let arn = or_else a.queue_arn "" in
      record {
        url = queue_url;
        arn = arn;
        name = queue_name queue_url arn;
        region = queue_region sqs.region arn;
        approximate_messages = or_else a.approximate_messages "0";
      }

  abbrev pub info_answer : String → Result Attributes → Result QueueInfo
  info_answer queue_url (err x) = err x
  info_answer queue_url (ok a) = ok (info_of queue_url a)

  unfoldable pub validate_queue_url : String → Y → Result QueueInfo × Y
  unfolding get_queue_attributes queue_name queue_region
  validate_queue_url queue_url y =
      let (a, y') = get_queue_attributes queue_url y in (info_answer queue_url a, y')

  abbrev pub creation_failure : String → String → String → Fault
  creation_failure queue_name code text =
      if str_eq code "QueueAlreadyExists"
      then sqs_error ("Queue '" <> queue_name <> "' already exists")
      else sqs_error ("Failed to create queue: " <> text)

  unfoldable pub created : String → Answer String → Y → Result QueueInfo × Y
  unfolding validate_queue_url
  created queue_name (client_error code message text) y =
      (err (creation_failure queue_name code text), y)
  created queue_name (answered url) y = validate_queue_url url y

  unfoldable pub create_queue : String → Y → Result QueueInfo × Y
  unfolding created
  create_queue queue_name y =
      let (a, y') = sqs.create_queue queue_name default_timeout default_retention y in
      created queue_name a y'

  abbrev pub prefix_of : String → Option String
  prefix_of prefix = if str_eq prefix "" then none else some prefix

  abbrev pub listing : Result (List String) → Result (List Listed)
  listing (err x) = err x
  listing (ok urls) = ok (names_of urls)

  unfoldable pub list_queues : String → Y → Result (List Listed) × Y
  unfolding names_of
  list_queues prefix y =
      let (a, y') = sqs.list_queues (prefix_of prefix) y in
      (listing (or_failed "Failed to list queues: " a), y')

  unfoldable pub set_queue_policy : String → String → Y → Result Bool × Y
  set_queue_policy queue_url policy y =
      let (a, y') = sqs.set_policy queue_url policy y in
      (done (or_failed "Failed to set queue policy: " a), y')

  abbrev pub account_of : String → String
  account_of arn = or_else (part 4 (split_at b':' arn)) ""

  unfoldable pub policy_set : String → String → Result Attributes → Y → Result Bool × Y
  unfolding split_at set_queue_policy
  policy_set queue_url bucket_name (err x) y = (err x, y)
  policy_set queue_url bucket_name (ok a) y =
      let arn = or_else a.queue_arn "" in
      let account_id = account_of arn in
      elim (str_eq arn "") [
        | true ↦ (err (sqs_error "Could not get queue ARN"), y)
        | false ↦ elim (str_eq account_id "") [
          | true ↦ (err (sqs_error "Could not determine AWS account ID"), y)
          | false ↦ set_queue_policy queue_url (sqs.dumps (policy_of arn bucket_name account_id)) y
        ]
      ]

  unfoldable pub configure_queue_for_s3 : (queue_url bucket_name : String) → Y → Result Bool × Y
  unfolding get_queue_attributes policy_set
  configure_queue_for_s3 queue_url bucket_name y =
      let (a, y') = get_queue_attributes queue_url y in policy_set queue_url bucket_name a y'

  unfoldable pub delete_queue : String → Y → Result Bool × Y
  delete_queue queue_url y =
      let (a, y') = sqs.delete_queue queue_url y in
      (done (or_failed "Failed to delete queue: " a), y')
