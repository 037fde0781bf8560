-- ===== src/Notifications/Buckets/Configured.antt =====
-- What a bucket's configuration holds after a queue was added, and after it was removed again.
use mathlib.Core.List.{append-nil}
use connect_manager.Prelude.{
  false, ◌||◌, str_eq, if◌then◌else◌, ◌≡◌, refl, ap, ap₂, ◌∙◌, String, Bool, true, List, [], ◌∷◌,
  ◌++◌, Option, none, some, arith, eq_refl, inl, inr, Bool-cases,
}
use connect_manager.Db.Table.{Result, ok}
use connect_manager.Notifications.Values.{Json}
use connect_manager.LucidLink.{is_true}
use connect_manager.Notifications.Buckets.{
  is_text, Buckets, Configuration, QueueEntry, answered, Wanted, entry_of, is_unrelated,
  is_elsewhere, kept, kept_bridge, added, removed, put_changed, read_answer,
  get_bucket_notification_configuration, add_sqs_notification, remove_sqs_notification,
}

kept-append :
    (p : QueueEntry → Bool) (qs rs : List QueueEntry) → kept p (qs ++ rs) ≡ kept p qs ++ kept p rs
kept-append p [] rs = refl
kept-append p (q ∷ qs) rs = ground (arith, kept-append p qs rs)

-- Entries that are unrelated to a notification are none of the queue's.
kept-kept :
    (id arn : String) (qs : List QueueEntry)
    → kept (is_elsewhere arn) (kept (is_unrelated id arn) qs) ≡ kept (is_unrelated id arn) qs
kept-kept id arn [] = refl
kept-kept id arn (q ∷ qs) = elim (Bool-cases (is_unrelated id arn q)) [
  | inl e ↦ rw (e, elsewhere id arn q e) (ap (λ rs. q ∷ rs) (kept-kept id arn qs))
  | inr e ↦ rw e (kept-kept id arn qs)
]
  where
    elsewhere :
        (id arn : String) (q : QueueEntry)
        → is_unrelated id arn q ≡ true
        → is_elsewhere arn q ≡ true
    elsewhere id arn q e = ground (arith, e)

bridge-twice : (v : Option Json) → kept_bridge (kept_bridge v) ≡ kept_bridge v
bridge-twice none = refl
bridge-twice (some v) = elim (Bool-cases (is_true v)) [
  | inl e ↦ rw (e, kept_bridge, e) refl
  | inr e ↦ rw (e, kept_bridge) refl
]

-- Whether an entry has the id or the queue of a notification.
abbrev is_same : Option String → String → Bool
is_same none t = false
is_same (some s) t = str_eq s t

-- The entries of other queues that have other ids, in their order.
abbrev unrelated : Wanted → List QueueEntry → List QueueEntry
unrelated n [] = []
unrelated n (q ∷ qs) =
    let rest = unrelated n qs in
    if is_same q.id n.notification_id || is_same q.queue_arn n.queue_arn then rest else q ∷ rest

-- An EventBridge configuration that is not empty.
abbrev filled : Option Json → Option Json
filled none = none
filled (some v) = if is_true v then some v else none

-- The configuration with these entries, its own topics and functions, and the EventBridge configuration
-- unless that is empty.
abbrev pub other_parts : Wanted → Configuration → List QueueEntry → Configuration
other_parts n c qs = record {
  queues = qs;
  topics = c.topics;
  lambdas = c.lambdas;
  event_bridge = filled c.event_bridge;
}

abbrev pub others : Wanted → Configuration → Configuration
others n c = other_parts n c (unrelated n c.queues)

same_lem : (o : Option String) (t : String) → is_text o t ≡ is_same o t
same_lem none t = refl
same_lem (some s) t = refl

unrelated_lem :
    (n : Wanted) (qs : List QueueEntry)
    → kept (is_unrelated n.notification_id n.queue_arn) qs ≡ unrelated n qs
unrelated_lem n [] = refl
unrelated_lem n (q ∷ qs) =
    ground
      (arith, unrelated_lem n qs, same_lem q.id n.notification_id, same_lem q.queue_arn n.queue_arn)

filled_lem : (v : Option Json) → kept_bridge v ≡ filled v
filled_lem none = refl
filled_lem (some v) = refl

removed-added : (n : Wanted) (c : Configuration) → removed n.queue_arn (added n c) ≡ others n c
unfolding removed added
removed-added n c =
    let rest = kept (is_unrelated n.notification_id n.queue_arn) c.queues in
    ap₂ (λ qs b. record c { queues = qs; event_bridge = b })
      (kept-append (is_elsewhere n.queue_arn) rest (entry_of n ∷ [])
        ∙ ap₂ (λ qs rs. qs ++ rs) (kept-kept n.notification_id n.queue_arn c.queues) (own n)
        ∙ append-nil rest
        ∙ unrelated_lem n c.queues)
      (bridge-twice c.event_bridge ∙ filled_lem c.event_bridge)
  where
    own : (n : Wanted) → kept (is_elsewhere n.queue_arn) (entry_of n ∷ []) ≡ []
    own n = rw (eq_refl n.queue_arn) refl

added-others :
    (n : Wanted) (c : Configuration)
    → added n c ≡ other_parts n c (unrelated n c.queues ++ entry_of n ∷ [])
unfolding added
added-others n c =
    ap₂ (λ qs b. record c { queues = qs ++ entry_of n ∷ []; event_bridge = b })
      (unrelated_lem n c.queues) (filled_lem c.event_bridge)

module _ {Y : Type 0} (s3 : Buckets Y) where
  -- A configuration that was put is the one that is read.
  abbrev pub IsLawful : Type 0
  IsLawful =
      (bucket : String) (c : Configuration) (y : Y)
      → (s3.put_configuration bucket c y).0 ≡ answered tt
      → (s3.get_configuration bucket (s3.put_configuration bucket c y).1).0 ≡ answered c

  -- S3 accepts every configuration of the bucket, and reading changes nothing.
  abbrev pub Accepts : String → Type 0
  Accepts bucket =
      ((c : Configuration) (y : Y) → (s3.put_configuration bucket c y).0 ≡ answered tt)
      × ((y : Y) → (s3.get_configuration bucket y).1 ≡ y)

  abbrev pub configuration : String → Y → Result Configuration
  configuration bucket y = (get_bucket_notification_configuration s3 bucket y).0

  module _ (bucket : String) (lawful : IsLawful) (accepts : Accepts bucket) where
    add-eq :
        (n : Wanted) (c : Configuration) (y : Y)
        → (s3.get_configuration bucket y).0 ≡ answered c
        → add_sqs_notification s3 bucket n y
          ≡ (ok true, (s3.put_configuration bucket (added n c) y).1)
    unfolding add_sqs_notification get_bucket_notification_configuration
    add-eq n c y h = rw (h, accepts.1 y, put_changed, accepts.0 (added n c) y) refl

    remove-eq :
        (arn : String) (c : Configuration) (y : Y)
        → (s3.get_configuration bucket y).0 ≡ answered c
        → remove_sqs_notification s3 bucket arn y
          ≡ (ok true, (s3.put_configuration bucket (removed arn c) y).1)
    unfolding remove_sqs_notification get_bucket_notification_configuration
    remove-eq arn c y h = rw (h, accepts.1 y, put_changed, accepts.0 (removed arn c) y) refl

    -- Where S3 accepts the changes, adding a queue leaves the entries of other queues with other ids,
    -- the topics and the functions, and puts one entry for the queue; removing the queue then takes
    -- that entry alone. An EventBridge configuration stays unless it is empty.
    pub remove-add_sqs_notification :
        (n : Wanted) (c : Configuration) (y : Y)
        → (s3.get_configuration bucket y).0 ≡ answered c
        → let (a, y') = add_sqs_notification s3 bucket n y in
          let (b, y'') = remove_sqs_notification s3 bucket n.queue_arn y' in
          (a ≡ ok true)
          × (b ≡ ok true)
          × (configuration bucket y'
              ≡ ok (record (others n c) { queues = (others n c).queues ++ entry_of n ∷ [] }))
          × (configuration bucket y'' ≡ ok (others n c))
    unfolding get_bucket_notification_configuration added
    remove-add_sqs_notification n c y h =
        let put = lawful bucket (added n c) y (accepts.0 (added n c) y) in
        let y' = (s3.put_configuration bucket (added n c) y).1 in
        rw (add-eq n c y h, remove-eq n.queue_arn (added n c) y' put)
          (
            refl,
            refl,
            ap (read_answer s3) put ∙ ap ok (added-others n c),
            ap (read_answer s3) (
                  lawful bucket (removed n.queue_arn (added n c)) y'
                    (accepts.0 (removed n.queue_arn (added n c)) y'))
                ∙ ap ok (removed-added n c),
          )
