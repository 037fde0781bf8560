-- ===== src/Processed/AtMostOnce.antt =====
-- A task body runs once for each ARQ job id, however often and with whatever outcome it is
-- delivered.
use connect_manager.Prelude.{
  String, ◌≡◌, ◌≢◌, refl, Bool, false, not, ◌||◌, List, [], ◌∷◌, ◌++◌, Option, none, some, arith,
  All, str_eq, eq_iff, if◌then◌else◌, inl, inr, Bool-cases, map, ap, ◌∙◌,
}
use connect_manager.Db.Table.{Result, update, insert}
use connect_manager.Db.Rows.{Time, ProcessedJob}
use connect_manager.Processed.{
  has_row, processed_row, mark_processed, mark_failed, TaskState, idempotent, text_or,
}

has_row-insert :
    (k : String) (r : ProcessedJob) (rs : List ProcessedJob)
    → has_row k (insert r rs) ≡ (str_eq r.job_id k || has_row k rs)
unfolding has_row
has_row-insert k r [] = refl
has_row-insert k r (s ∷ rs) = ground (arith, has_row-insert k r rs)

has_row-mark_failed :
    (k j : String) (rs : List ProcessedJob) → has_row k (mark_failed j rs) ≡ has_row k rs
unfolding has_row mark_failed update
has_row-mark_failed k j [] = refl
has_row-mark_failed k j (r ∷ rs) = ground (arith, has_row-mark_failed k j rs)

module _ (now : Time) (id : String) (w r : Option String) (rs : List ProcessedJob) where
  -- Of the workers that race on one id, the first to insert is told so.
  pub newly-mark_processed : (mark_processed now id w r rs).1 ≡ not (has_row id rs)
  unfolding mark_processed
  newly-mark_processed = ground arith

  pub has_row-mark_processed :
      (k : String) → has_row k (mark_processed now id w r rs).0 ≡ (str_eq id k || has_row k rs)
  unfolding mark_processed
  has_row-mark_processed k = elim (Bool-cases (has_row id rs)) [
    | inl e ↦ rw e (ground (arith, e, eq_iff id k))
    | inr e ↦ rw e (has_row-insert k (processed_row now id w r) rs)
  ]

abbrev pub mem : String → List String → Bool
mem k [] = false
mem k (j ∷ js) = str_eq j k || mem k js

mem-append_one : (k j : String) (js : List String) → mem k (js ++ j ∷ []) ≡ (str_eq j k || mem k js)
mem-append_one k j [] = refl
mem-append_one k j (i ∷ js) = ground (arith, mem-append_one k j js)

-- The specification: the first occurrence of each id, in order.
unfoldable pub first_occurrences : List String → List String → List String
first_occurrences seen [] = seen
first_occurrences seen (k ∷ ks) = first_occurrences (if mem k seen then seen else seen ++ k ∷ []) ks

abbrev pub HasNoDuplicates : List String → Type 0
HasNoDuplicates [] = Unit
HasNoDuplicates (k ∷ ks) = (mem k ks ≡ false) × HasNoDuplicates ks

HasNoDuplicates-append_one :
    (k : String) (ks : List String)
    → mem k ks ≡ false
    → HasNoDuplicates ks
    → HasNoDuplicates (ks ++ k ∷ [])
HasNoDuplicates-append_one k [] m h = (refl, tt)
HasNoDuplicates-append_one k (j ∷ ks) m h = (
  ground (arith, mem-append_one j k ks, eq_iff j k, eq_iff k j),
  HasNoDuplicates-append_one k ks (ground arith) h.1,
)

pub first_occurrences-HasNoDuplicates :
    (seen ks : List String) → HasNoDuplicates seen → HasNoDuplicates (first_occurrences seen ks)
unfolding first_occurrences
first_occurrences-HasNoDuplicates seen [] h = h
first_occurrences-HasNoDuplicates seen (k ∷ ks) h = elim (Bool-cases (mem k seen)) [
  | inl e ↦ rw e (first_occurrences-HasNoDuplicates seen ks h)
  | inr e ↦ rw e (first_occurrences-HasNoDuplicates _ ks (HasNoDuplicates-append_one k seen e h))
]

-- One delivery of a task: the id that ARQ gave, the pod, and the time.
pub record Task : Type 0 where
  pub id : String
  pub hostname : Option String
  pub pod_name : Option String
  pub now : Time

module _ {S R : Type 0} (body : String → S → Result R × S) where
  -- The body of a task, with a record of the ids for which it ran.
  abbrev pub recorded : String → S × List String → Result R × (S × List String)
  recorded id (s, ran) = let (r, s') = body id s in (r, (s', ran ++ id ∷ []))

  unfoldable pub deliver_all : List Task → TaskState (S × List String) → TaskState (S × List String)
  deliver_all [] s = s
  deliver_all (t ∷ ts) s =
      deliver_all ts
        (idempotent (recorded t.id)
          (record { job_id = some t.id; hostname = t.hostname; pod_name = t.pod_name; now = t.now })
          s).1

  abbrev Agrees : TaskState (S × List String) → Type 0
  Agrees s = (k : String) → has_row k s.processed ≡ mem k s.inner.1

  abbrev delivered : Task → TaskState (S × List String) → TaskState (S × List String)
  delivered t s =
      (idempotent (recorded t.id)
        (record { job_id = some t.id; hostname = t.hostname; pod_name = t.pod_name; now = t.now })
        s).1

  module _ (t : Task) (s : TaskState (S × List String)) (named : t.id ≢ "") (h : Agrees s) where
    abbrev marked : List ProcessedJob × Bool
    marked = mark_processed t.now t.id (text_or t.hostname t.pod_name) none s.processed

    newly : marked.1 ≡ not (mem t.id s.inner.1)
    newly = rw newly-mark_processed (ap not (h t.id))

    ran-delivered :
        (delivered t s).inner.1 ≡ (if mem t.id s.inner.1 then s.inner.1 else s.inner.1 ++ t.id ∷ [])
    unfolding idempotent
    ran-delivered = ground (arith, newly, eq_iff t.id "", body t.id s.inner.0)

    Agrees-delivered : Agrees (delivered t s)
    unfolding idempotent
    Agrees-delivered k = ground (
      arith,
      newly,
      h k,
      h t.id,
      eq_iff t.id "",
      eq_iff t.id k,
      body t.id s.inner.0,
      mem-append_one k t.id s.inner.1,
      has_row-mark_processed t.now t.id (text_or t.hostname t.pod_name) none s.processed k,
      has_row-mark_failed k t.id marked.0,
    )

  ran-deliver_all :
      (ts : List Task) (s : TaskState (S × List String))
      → All (λ t. t.id ≢ "") ts
      → Agrees s
      → (deliver_all ts s).inner.1 ≡ first_occurrences s.inner.1 (map (λ t. t.id) ts)
  unfolding deliver_all first_occurrences
  ran-deliver_all [] s named h = refl
  ran-deliver_all (t ∷ ts) s named h =
      ran-deliver_all ts (delivered t s) named.1 (Agrees-delivered t s named.0 h)
      ∙ ap (λ seen. first_occurrences seen (map (λ t. t.id) ts)) (ran-delivered t s named.0 h)

  abbrev pub unclaimed : S → TaskState (S × List String)
  unclaimed s = record { processed = []; inner = (s, []) }

  -- From an empty table, the bodies that ran are those of the first delivery of each id, in the
  -- order of delivery, whether they return or raise; so no id runs twice.
  pub runs_once :
      (ts : List Task) (s : S)
      → All (λ t. t.id ≢ "") ts
      → ((deliver_all ts (unclaimed s)).inner.1 ≡ first_occurrences [] (map (λ t. t.id) ts))
        × HasNoDuplicates (deliver_all ts (unclaimed s)).inner.1
  runs_once ts s named =
      let ran = ran-deliver_all ts (unclaimed s) named (λ k. unfold has_row in refl) in
      (ran, rw ran (first_occurrences-HasNoDuplicates [] _ tt))
