-- ===== src/Db/Table/Keyed.antt =====
-- A statement's rows where at most one row matches, as under a primary key or a unique constraint.
use mathlib.Core.List.{append-nil}
use connect_manager.Prelude.{
  ◌+◌, ◌&&◌, All, ◌≤◌, ◌≡◌, refl, ap, ◌∙◌, Bool, true, false, List, [], ◌∷◌, arith, if◌then◌else◌,
  inl, inr, Bool-cases,
}
use connect_manager.Db.Table.{
  select, update, delete, count, insert, one_or_none, err, multiple_results,
}
use connect_manager.Db.Table.Laws.{select-append, select-update_same}

module _ {ℓ} {A : Type ℓ} (p : A → Bool) where
  pub select_of_zero : (rs : List A) → count p rs ≡ 0 → select p rs ≡ []
  unfolding select count
  select_of_zero [] h = refl
  select_of_zero (r ∷ rs) h = ground (arith, select_of_zero rs)

  pub select_of_one : (rs : List A) → count p rs ≡ 1 → (r : A) × (select p rs ≡ r ∷ [])
  unfolding select count
  select_of_one [] h = absurd (omega (arith, h))
  select_of_one (r ∷ rs) h = elim (Bool-cases (p r)) [
    | inl e ↦ (r, rw e (ap (λ ss. r ∷ ss) (select_of_zero rs (ground (arith, e)))))
    | inr e ↦ let (s, q) = select_of_one rs (ground (arith, e)) in (s, rw e q)
  ]

  -- A row that is read matches.
  pub holds_of_found : (rs : List A) {r : A} → select p rs ≡ r ∷ [] → p r ≡ true
  unfolding select
  holds_of_found [] h = absurd (cc)
  holds_of_found (s ∷ rs) {r} h = elim (Bool-cases (p s)) [
    | inl e ↦ ground (arith, e)
    | inr e ↦ holds_of_found rs (ground (arith, e))
  ]

  -- More than one matching row makes `scalar_one_or_none` raise.
  pub one_or_none_of_many :
      (rs : List A) → 2 ≤ count p rs → one_or_none (select p rs) ≡ err multiple_results
  unfolding select count
  one_or_none_of_many [] h = absurd (omega (arith, h))
  one_or_none_of_many (r ∷ rs) h = elim (Bool-cases (p r)) [
    | inl e ↦ rw e (many_left r rs (ground (arith, e)))
    | inr e ↦ rw e (one_or_none_of_many rs (ground (arith, e)))
  ]
    where
      many_left :
          (r : A) (rs : List A)
          → 1 ≤ count p rs
          → one_or_none (r ∷ select p rs) ≡ err multiple_results
      many_left r [] k = absurd (omega (arith, k))
      many_left r (s ∷ rs) k = elim (Bool-cases (p s)) [
        | inl e ↦ rw e refl
        | inr e ↦ rw e (many_left r rs (ground (arith, e)))
      ]

  -- The new row is the only one that matches.
  pub select-insert_only :
      (r : A) (rs : List A) → count p rs ≡ 0 → p r ≡ true → select p (insert r rs) ≡ r ∷ []
  unfolding select
  select-insert_only r rs h e = select-append p rs (r ∷ []) ∙ rw (select_of_zero rs h, e) refl

  -- A new row that does not match is not read.
  pub select-insert_other :
      (r : A) (rs : List A) → p r ≡ false → select p (insert r rs) ≡ select p rs
  unfolding select
  select-insert_other r rs e = select-append p rs (r ∷ []) ∙ rw (e, append-nil (select p rs)) refl

  -- The one row that matches, as an update of its other columns leaves it.
  pub select-update_one :
      (f : A → A)
      → ((r : A) → p (f r) ≡ p r)
      → (rs : List A) {r : A} → select p rs ≡ r ∷ []
      → select p (update p f rs) ≡ f r ∷ []
  unfolding update
  select-update_one f same rs h = select-update_same p f same rs ∙ rw h refl

pub count-singleton {ℓ} :
    {A : Type ℓ} (p : A → Bool) (r : A) → count p (r ∷ []) ≡ (if p r then 1 else 0)
unfolding count
count-singleton p r = ground arith

-- An update of other columns than the tested ones keeps the number of matching rows.
pub count-update_same {ℓ} :
    {A : Type ℓ} (q p : A → Bool) (f : A → A)
    → ((r : A) → q (f r) ≡ q r)
    → (rs : List A) → count q (update p f rs) ≡ count q rs
unfolding count update
count-update_same q p f same [] = refl
count-update_same q p f same (r ∷ rs) = ground (arith, same r, count-update_same q p f same rs)

-- The matching rows that a deletion leaves, and those that it takes.
pub count-delete {ℓ} :
    {A : Type ℓ} (q p : A → Bool) (rs : List A)
    → count q (delete p rs) + count (λ r. q r && p r) rs ≡ count q rs
unfolding count delete
count-delete q p [] = refl
count-delete q p (r ∷ rs) = ground (arith, count-delete q p rs)

-- What holds of the rows that a deletion leaves.
pub All-delete_cases {ℓ κ μ} :
    {A : Type ℓ} (P : A → Type κ) (Q : A → Type μ) (p : A → Bool)
    → ((r : A) → p r ≡ false → P r → Q r)
    → (rs : List A) → All P rs
    → All Q (delete p rs)
unfolding delete
All-delete_cases P Q p keep [] h = tt
All-delete_cases P Q p keep (r ∷ rs) h = elim (Bool-cases (p r)) [
  | inl e ↦ rw e (All-delete_cases P Q p keep rs h.1)
  | inr e ↦ rw e (keep r e h.0, All-delete_cases P Q p keep rs h.1)
]

pub count-delete_apart {ℓ} :
    {A : Type ℓ} (q p : A → Bool)
    → ((r : A) → p r ≡ true → q r ≡ false)
    → (rs : List A) → count q (delete p rs) ≡ count q rs
unfolding count delete
count-delete_apart q p apart [] = refl
count-delete_apart q p apart (r ∷ rs) = ground (arith, apart r, count-delete_apart q p apart rs)

pub count_mono {ℓ} :
    {A : Type ℓ} (p q : A → Bool)
    → ((r : A) → p r ≡ true → q r ≡ true)
    → (rs : List A) → count p rs ≤ count q rs
unfolding count
count_mono p q sub [] = omega arith
count_mono p q sub (r ∷ rs) = ground (arith, sub r, count_mono p q sub rs)

pub select-cong {ℓ} :
    {A : Type ℓ} (p q : A → Bool)
    → ((r : A) → p r ≡ q r)
    → (rs : List A) → select p rs ≡ select q rs
select-cong p q same rs = ap (λ t. select t rs) (λ i r. same r i)
