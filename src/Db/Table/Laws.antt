-- ===== src/Db/Table/Laws.antt =====
-- What one statement leaves in the rows that another statement reads.
use connect_manager.Prelude.{
  ℕ, ◌+◌, ◌≡◌, refl, subst, if◌then◌else◌, Bool, true, false, List, [], ◌∷◌, ◌++◌, Option, arith,
  length, All, ◌↔◌, inl, inr, Bool-cases,
}
use connect_manager.Db.Table.{
  insert, select, update, delete, count, owned_by, Result, ok, err, ◌>>=◌,
}

pub owned_by_iff : (u v : Option ℕ) → (owned_by u v ≡ true) ↔ (u ≡ v)
owned_by_iff u v = ground arith

module _ {ℓ κ} {A : Type ℓ} {B : Type κ} where
  -- A body that returned has passed its first call.
  pub >>=-eq-ok :
      (call : Result A) (rest : A → Result B) {final : B}
      → (call >>= rest) ≡ ok final
      → (value : A) × (call ≡ ok value) × (rest value ≡ ok final)
  >>=-eq-ok (err fault) rest returned = absurd (cc)
  >>=-eq-ok (ok value) rest returned = (value, refl, returned)

-- What holds of the value of a call that returns.
abbrev pub Ensures {ℓ κ} : {A : Type ℓ} → (A → Type κ) → Result A → Type κ
Ensures P (err e) = Unit
Ensures P (ok a) = P a

pub Ensures-bind {ℓ κ μ} :
    {A : Type ℓ} {B : Type κ} (P : B → Type μ) (call : Result A) (rest : A → Result B)
    → ((a : A) → call ≡ ok a → Ensures P (rest a))
    → Ensures P (call >>= rest)
Ensures-bind P (err e) rest h = tt
Ensures-bind P (ok a) rest h = h a refl

pub Ensures-unless {ℓ κ} :
    {A : Type ℓ} (P : A → Type κ) (b : Bool) (a : A) (r : Result A)
    → P a
    → (b ≡ false → Ensures P r)
    → Ensures P (if b then ok a else r)
Ensures-unless P true a r h k = h
Ensures-unless P false a r h k = k refl

pub Ensures-imp {ℓ κ μ} :
    {A : Type ℓ} (P : A → Type κ) (Q : A → Type μ) (r : Result A)
    → ((a : A) → P a → Q a)
    → Ensures P r
    → Ensures Q r
Ensures-imp P Q (err e) imp h = tt
Ensures-imp P Q (ok a) imp h = imp a h

pub Ensures-self {ℓ κ} :
    {A : Type ℓ} (P : A → Type κ) (r : Result A) → ((a : A) → r ≡ ok a → P a) → Ensures P r
Ensures-self P (err e) h = tt
Ensures-self P (ok a) h = h a refl

pub Ensures_ok {ℓ κ} :
    {A : Type ℓ} (P : A → Type κ) (r : Result A) {a : A} → r ≡ ok a → Ensures P r → P a
Ensures_ok P r e h = subst (Ensures P) e h

module _ {ℓ} {A : Type ℓ} where
  pub length-select : (p : A → Bool) (rs : List A) → length (select p rs) ≡ count p rs
  unfolding select count
  length-select p [] = refl
  length-select p (r ∷ rs) = ground (arith, length-select p rs)

  pub length-update : (p : A → Bool) (f : A → A) (rs : List A) → length (update p f rs) ≡ length rs
  unfolding update
  length-update p f [] = refl
  length-update p f (r ∷ rs) = ground (arith, length-update p f rs)

  pub length-delete : (p : A → Bool) (rs : List A) → length (delete p rs) + count p rs ≡ length rs
  unfolding delete count
  length-delete p [] = omega arith
  length-delete p (r ∷ rs) = ground (arith, length-delete p rs)

  pub select-append :
      (p : A → Bool) (rs ss : List A) → select p (rs ++ ss) ≡ select p rs ++ select p ss
  unfolding select
  select-append p [] ss = refl
  select-append p (r ∷ rs) ss = ground (arith, select-append p rs ss)

  -- A new row that is not selected.
  pub select-insert_skip :
      (p : A → Bool) (rs : List A) (r : A) → p r ≡ false → select p (insert r rs) ≡ select p rs
  unfolding select
  select-insert_skip p [] r h = rw h refl
  select-insert_skip p (s ∷ rs) r h = ground (arith, select-insert_skip p rs r h)

  pub count-append : (p : A → Bool) (rs ss : List A) → count p (rs ++ ss) ≡ count p rs + count p ss
  unfolding count
  count-append p [] ss = omega arith
  count-append p (r ∷ rs) ss = ground (arith, count-append p rs ss)

  -- A predicate that no updated row satisfies, before or after, reads the same rows.
  pub select-update :
      (q p : A → Bool) (f : A → A)
      → ((r : A) → p r ≡ true → (q r ≡ false) × (q (f r) ≡ false))
      → (rs : List A) → select q (update p f rs) ≡ select q rs
  unfolding select update
  select-update q p f apart [] = refl
  select-update q p f apart (r ∷ rs) = ground (arith, apart r, select-update q p f apart rs)

  pub select-delete :
      (q p : A → Bool)
      → ((r : A) → p r ≡ true → q r ≡ false)
      → (rs : List A) → select q (delete p rs) ≡ select q rs
  unfolding select delete
  select-delete q p apart [] = refl
  select-delete q p apart (r ∷ rs) = ground (arith, apart r, select-delete q p apart rs)

  -- What was deleted is gone.
  pub select-delete_self : (p : A → Bool) (rs : List A) → select p (delete p rs) ≡ []
  unfolding select delete
  select-delete_self p [] = refl
  select-delete_self p (r ∷ rs) = ground (arith, select-delete_self p rs)

  -- The rows of an untouching update are read through it.
  pub select-update_same :
      (p : A → Bool) (f : A → A)
      → ((r : A) → p (f r) ≡ p r)
      → (rs : List A) → select p (update p f rs) ≡ update (λ _. true) f (select p rs)
  unfolding select update
  select-update_same p f same [] = refl
  select-update_same p f same (r ∷ rs) = ground (arith, same r, select-update_same p f same rs)

  pub count-eq-zero : (p : A → Bool) (rs : List A) → All (λ r. p r ≡ false) rs → count p rs ≡ 0
  unfolding count
  count-eq-zero p [] h = refl
  count-eq-zero p (r ∷ rs) h = ground (arith, count-eq-zero p rs h.1)

  -- An update that matches no row changes nothing.
  pub update_of_none :
      (p : A → Bool) (f : A → A) (rs : List A) → All (λ r. p r ≡ false) rs → update p f rs ≡ rs
  unfolding update
  update_of_none p f [] h = refl
  update_of_none p f (r ∷ rs) h = ground (arith, update_of_none p f rs h.1)

  pub update_of_zero :
      (p : A → Bool) (f : A → A) (rs : List A) → count p rs ≡ 0 → update p f rs ≡ rs
  unfolding update count
  update_of_zero p f [] h = refl
  update_of_zero p f (r ∷ rs) h = ground (arith, update_of_zero p f rs)

  -- A second update that overwrites what the first one set makes the first one invisible.
  pub update-update_absorb :
      (p q : A → Bool) (f g : A → A)
      → ((r : A) → q r ≡ true → (p r ≡ true) × (p (f r) ≡ true) × (g (f r) ≡ g r))
      → (rs : List A) → update p g (update q f rs) ≡ update p g rs
  unfolding update
  update-update_absorb p q f g over [] = refl
  update-update_absorb p q f g over (r ∷ rs) =
      ground (arith, over r, update-update_absorb p q f g over rs)

module _ {ℓ κ} {A : Type ℓ} (P : A → Type κ) where
  pub All-select : (p : A → Bool) (rs : List A) → All P rs → All P (select p rs)
  unfolding select
  All-select p [] h = tt
  All-select p (r ∷ rs) h = elim (Bool-cases (p r)) [
    | inl e ↦ rw e (h.0, All-select p rs h.1)
    | inr e ↦ rw e (All-select p rs h.1)
  ]

  pub All-delete : (p : A → Bool) (rs : List A) → All P rs → All P (delete p rs)
  unfolding delete
  All-delete p [] h = tt
  All-delete p (r ∷ rs) h = elim (Bool-cases (p r)) [
    | inl e ↦ rw e (All-delete p rs h.1)
    | inr e ↦ rw e (h.0, All-delete p rs h.1)
  ]

  pub All-update :
      (p : A → Bool) (f : A → A)
      → ((r : A) → p r ≡ true → P r → P (f r))
      → (rs : List A) → All P rs
      → All P (update p f rs)
  unfolding update
  All-update p f keep [] h = tt
  All-update p f keep (r ∷ rs) h = elim (Bool-cases (p r)) [
    | inl e ↦ rw e (keep r e h.0, All-update p f keep rs h.1)
    | inr e ↦ rw e (h.0, All-update p f keep rs h.1)
  ]

  -- What the update makes true of the rows that match, and the test of those that do not.
  pub All-update_cases :
      (p : A → Bool) (f : A → A)
      → ((r : A) → p r ≡ true → P (f r))
      → ((r : A) → p r ≡ false → P r)
      → (rs : List A) → All P (update p f rs)
  unfolding update
  All-update_cases p f yes_case no_case [] = tt
  All-update_cases p f yes_case no_case (r ∷ rs) = elim (Bool-cases (p r)) [
    | inl e ↦ rw e (yes_case r e, All-update_cases p f yes_case no_case rs)
    | inr e ↦ rw e (no_case r e, All-update_cases p f yes_case no_case rs)
  ]
