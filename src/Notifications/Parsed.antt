-- ===== src/Notifications/Parsed.antt =====
-- What the parsed events are, and what an SNS envelope changes.
use connect_manager.Prelude.{
  ◌≤◌, ◌≡◌, refl, String, false, length, ◌||◌, not, List, [], ◌∷◌, Option, none, some, All, arith,
  str_eq,
}
use connect_manager.Db.Table.{ok}
use connect_manager.Db.Table.Laws.{Ensures, Ensures-bind, Ensures-unless, Ensures-imp, Ensures_ok}
use connect_manager.Notifications.Values
use connect_manager.Notifications.Values.{
  arr, bool, num, other_num, Json, Fields, str, obj, null, nil, find, get, is_text, text_of,
  iterated,
}
use connect_manager.Notifications.{
  Codec, S3Event, event_of, parse_object, parse_record, add_event, parse_records, parse_data,
  parse_loaded, unwrapped, parse_body, parse_s3_events,
}

-- The key of an event is not empty, and the event is no test.
pub record IsImportable (e : S3Event) : Type 0 where
  pub keyed : str_eq e.key "" ≡ false
  pub no_test : is_text e.event_type "s3:TestEvent" ≡ false

abbrev IsImportable? : Option S3Event → Type 0
IsImportable? none = Unit
IsImportable? (some e) = IsImportable e

add_event-All :
    (e : Option S3Event) (es : List S3Event)
    → IsImportable? e
    → All IsImportable es
    → All IsImportable (add_event e es)
add_event-All none es h k = k
add_event-All (some e) es h k = (h, k)

module _ (codec : Codec) where
  abbrev Made : Json → String → S3Event → Type 0
  Made event_name key e = (e.event_type ≡ event_name) × (e.key ≡ key)

  event_of-Made :
      (r event_name bucket_info object_info : Json) (key : String)
      → Ensures (Made event_name key) (event_of codec r event_name bucket_info object_info key)
  unfolding event_of
  event_of-Made r event_name bucket_info object_info key =
      Ensures-bind _ (get bucket_info "name" (str "")) _ λ bucket _.
        Ensures-bind _ (get object_info "size" null) _ λ size _.
          Ensures-bind _ (get r "eventTime" null) _
            λ event_time _. Ensures-bind _ (get r "awsRegion" null) _ λ aws_region _. (refl, refl)

  parse_object-IsImportable :
      (r event_name bucket_info object_info : Json)
      → Ensures IsImportable? (parse_object codec r event_name bucket_info object_info)
  unfolding parse_object
  parse_object-IsImportable r event_name bucket_info object_info =
      Ensures-bind IsImportable? (get object_info "key" (str "")) _ λ raw_key _.
        Ensures-bind IsImportable? (text_of raw_key) _ λ quoted _.
          let key = codec.unquote_plus quoted in
          Ensures-unless IsImportable? (is_text event_name "s3:TestEvent" || str_eq key "") none _
            tt
            λ kept.
              Ensures-bind IsImportable? (event_of codec r event_name bucket_info object_info key) _
                λ e made.
                  let m =
                    Ensures_ok (Made event_name key) _ made
                      (event_of-Made r event_name bucket_info object_info key) in
                  record {
                    keyed = rw m.1 (ground (arith, kept));
                    no_test = rw m.0 (ground (arith, kept));
                  }

  parse_record-IsImportable : (r : Json) → Ensures IsImportable? (parse_record codec r)
  unfolding parse_record
  parse_record-IsImportable r = Ensures-bind IsImportable? (get r "eventSource" null) _ λ source _.
      Ensures-unless IsImportable? (not (is_text source "aws:s3")) none _ tt λ _.
        Ensures-bind IsImportable? (get r "eventName" (str "")) _ λ event_name _.
          Ensures-bind IsImportable? (get r "s3" (obj nil)) _ λ s3_info _.
            Ensures-bind IsImportable? (get s3_info "bucket" (obj nil)) _ λ bucket_info _.
              Ensures-bind IsImportable? (get s3_info "object" (obj nil)) _
                λ object_info _. parse_object-IsImportable r event_name bucket_info object_info

  -- Importable, and no more of them than there are records.
  abbrev Parsed : List Json → List S3Event → Type 0
  Parsed rs es = All IsImportable es × (length es ≤ length rs)

  parse_records-Parsed : (rs : List Json) → Ensures (Parsed rs) (parse_records codec rs)
  unfolding parse_records
  parse_records-Parsed [] = (tt, omega arith)
  parse_records-Parsed (r ∷ rs) = Ensures-bind (Parsed (r ∷ rs)) (parse_record codec r) _ λ e made.
      Ensures-bind (Parsed (r ∷ rs)) (parse_records codec rs) _ λ es later.
        let (good, short) = Ensures_ok (Parsed rs) _ later (parse_records-Parsed rs) in
        (
          add_event-All e es (Ensures_ok IsImportable? _ made (parse_record-IsImportable r)) good,
          ground (arith, short),
        )

  parse_data-All : (d : Json) → Ensures (All IsImportable) (parse_data codec d)
  unfolding parse_data
  parse_data-All d = Ensures-bind (All IsImportable) (get d "Records" (arr Values.end)) _ λ found _.
      Ensures-bind (All IsImportable) (iterated found) _ λ records _.
        Ensures-imp (Parsed records) (All IsImportable) _ (λ es h. h.0)
          (parse_records-Parsed records)

  parse_loaded-All : (d : Option Json) → Ensures (All IsImportable) (parse_loaded codec d)
  parse_loaded-All none = tt
  parse_loaded-All (some d) = parse_data-All d

  unwrapped-All :
      (d : Json) (message : Option Json) → Ensures (All IsImportable) (unwrapped codec d message)
  unwrapped-All d (some (str message)) = parse_loaded-All (codec.loads message)
  unwrapped-All d (some null) = parse_data-All d
  unwrapped-All d (some (bool b)) = parse_data-All d
  unwrapped-All d (some (num n)) = parse_data-All d
  unwrapped-All d (some (other_num s)) = parse_data-All d
  unwrapped-All d (some (arr xs)) = parse_data-All d
  unwrapped-All d (some (obj fs)) = parse_data-All d
  unwrapped-All d none = parse_data-All d

  parse_body-All : (d : Option Json) → Ensures (All IsImportable) (parse_body codec d)
  parse_body-All none = tt
  parse_body-All (some (obj fs)) = unwrapped-All (obj fs) (find "Message" fs)
  parse_body-All (some null) = tt
  parse_body-All (some (bool b)) = tt
  parse_body-All (some (num n)) = tt
  parse_body-All (some (other_num s)) = tt
  parse_body-All (some (str s)) = tt
  parse_body-All (some (arr xs)) = tt

  -- Whatever the body is, every event that parsing it returns has a key and is no test event.
  pub parse_s3_events-All :
      (body : String) (es : List S3Event) → parse_s3_events codec body ≡ ok es → All IsImportable es
  unfolding parse_s3_events
  parse_s3_events-All body es h =
      Ensures_ok (All IsImportable) _ h (parse_body-All (codec.loads body))

  -- A notification in an SNS envelope is parsed as the notification itself, where that is an object
  -- with no text of its own under "Message".
  pub parse_s3_events-sns :
      (body inner : String) (fs gs : Fields)
      → codec.loads body ≡ some (obj fs)
      → find "Message" fs ≡ some (str inner)
      → codec.loads inner ≡ some (obj gs)
      → find "Message" gs ≡ none
      → parse_s3_events codec body ≡ parse_s3_events codec inner
  unfolding parse_s3_events
  parse_s3_events-sns body inner fs gs b m i g = rw (b, m, i, g) refl
