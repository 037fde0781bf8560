-- ===== src/Db/Repository/Laws.antt =====
-- Tables whose keys are distinct and below the next key of their sequence, and what `get`,
-- `update_by_id` and `delete_by_id` do to them.
use mathlib.Core.Option
use connect_manager.Prelude.{
  ℕ, ◌<◌, ◌≡◌, ◌≢◌, refl, Bool, true, false, List, [], ◌∷◌, ◌++◌, none, some, arith, All,
  All-append, ltb, ◌&&◌, ◌==◌, ==_iff, All-imp, if◌then◌else◌, inl, inr, Bool-cases, Option-cases,
}
use connect_manager.Db.Table.{update, delete, count, insert}
use connect_manager.Db.Repository.{get, update_by_id}

module _ {ℓ} {A : Type ℓ} (pk : A → ℕ) where
  -- No two rows share their key.
  abbrev pub HasDistinctKeys : List A → Type ℓ
  HasDistinctKeys [] = Unit
  HasDistinctKeys (r ∷ rs) = All (λ s. pk s ≢ pk r) rs × HasDistinctKeys rs

  pub HasDistinctKeys-update :
      (p : A → Bool) (f : A → A)
      → ((r : A) → pk (f r) ≡ pk r)
      → (rs : List A) → HasDistinctKeys rs
      → HasDistinctKeys (update p f rs)
  unfolding update
  HasDistinctKeys-update p f same [] h = tt
  HasDistinctKeys-update p f same (r ∷ rs) h =
      (apart rs h.0, HasDistinctKeys-update p f same rs h.1)
    where
      key : (s : A) → pk (if p s then f s else s) ≡ pk s
      key s = ground (arith, same s)

      apart :
          (ss : List A)
          → All (λ s. pk s ≢ pk r) ss
          → All (λ s. pk s ≢ pk (if p r then f r else r)) (update p f ss)
      apart [] k = tt
      apart (s ∷ ss) k = (λ e. k.0 (ground (arith, key s, key r)), apart ss k.1)

  pub HasDistinctKeys-delete :
      (p : A → Bool) (rs : List A) → HasDistinctKeys rs → HasDistinctKeys (delete p rs)
  unfolding delete
  HasDistinctKeys-delete p [] h = tt
  HasDistinctKeys-delete p (r ∷ rs) h = elim (Bool-cases (p r)) [
    | inl e ↦ rw e (HasDistinctKeys-delete p rs h.1)
    | inr e ↦ rw e (apart rs h.0, HasDistinctKeys-delete p rs h.1)
  ]
    where
      apart : (ss : List A) → All (λ s. pk s ≢ pk r) ss → All (λ s. pk s ≢ pk r) (delete p ss)
      apart [] k = tt
      apart (s ∷ ss) k = elim (Bool-cases (p s)) [
        | inl e ↦ rw e (apart ss k.1)
        | inr e ↦ rw e (k.0, apart ss k.1)
      ]

  -- A fresh key keeps the keys distinct.
  pub HasDistinctKeys-insert :
      (r : A) (rs : List A)
      → All (λ s. pk s < pk r) rs
      → HasDistinctKeys rs
      → HasDistinctKeys (insert r rs)
  HasDistinctKeys-insert r [] k h = (tt, tt)
  HasDistinctKeys-insert r (s ∷ rs) k h = (apart rs h.0, HasDistinctKeys-insert r rs k.1 h.1)
    where
      apart : (ss : List A) → All (λ x. pk x ≢ pk s) ss → All (λ x. pk x ≢ pk s) (ss ++ r ∷ [])
      apart [] m = (λ e. omega (arith, k.0), tt)
      apart (x ∷ ss) m = (m.0, apart ss m.1)

  pub get-update_self :
      (id : ℕ) (f : A → A)
      → ((r : A) → pk (f r) ≡ pk r)
      → (rs : List A) {r : A} → get pk id rs ≡ some r
      → get pk id (update (λ s. pk s == id) f rs) ≡ some (f r)
  unfolding get update
  get-update_self id f same [] h = cc
  get-update_self id f same (s ∷ rs) {r} h =
      ground (arith, same s, get-update_self id f same rs {r = r})

  pub get-update_ne :
      (id : ℕ) (p : A → Bool) (f : A → A)
      → ((r : A) → pk (f r) ≡ pk r)
      → ((r : A) → pk r ≡ id → p r ≡ false)
      → (rs : List A) → get pk id (update p f rs) ≡ get pk id rs
  unfolding get update
  get-update_ne id p f same apart [] = refl
  get-update_ne id p f same apart (s ∷ rs) =
      ground (arith, same s, apart s, get-update_ne id p f same apart rs)

  pub get-delete_ne :
      (id : ℕ) (p : A → Bool)
      → ((r : A) → pk r ≡ id → p r ≡ false)
      → (rs : List A) → get pk id (delete p rs) ≡ get pk id rs
  unfolding get delete
  get-delete_ne id p apart [] = refl
  get-delete_ne id p apart (s ∷ rs) = ground (arith, apart s, get-delete_ne id p apart rs)

  -- With distinct keys a DELETE by key and more leaves no row of the key, where it matched one.
  -- A key that no row has keeps the keys distinct.
  pub HasDistinctKeys-insert_fresh :
      (r : A) (rs : List A)
      → count (λ s. pk s == pk r) rs ≡ 0
      → HasDistinctKeys rs
      → HasDistinctKeys (insert r rs)
  unfolding count
  HasDistinctKeys-insert_fresh r [] k h = (tt, tt)
  HasDistinctKeys-insert_fresh r (s ∷ rs) k h =
      let other : (pk s == pk r) ≡ false = ground (arith, k) in
      (
        All-append (λ x. pk x ≢ pk s) rs (r ∷ []) h.0
            ((λ e. ground (arith, other, ==_iff (pk s) (pk r))), tt),
        HasDistinctKeys-insert_fresh r rs (ground (arith, k)) h.1,
      )

  pub get_pk : (id : ℕ) (rs : List A) {r : A} → get pk id rs ≡ some r → pk r ≡ id
  unfolding get
  get_pk id [] h = cc
  get_pk id (s ∷ rs) {r} h = ground (arith, get_pk id rs {r = r})

  pub get_of_absent : (id : ℕ) (rs : List A) → All (λ s. pk s ≢ id) rs → get pk id rs ≡ none
  unfolding get
  get_of_absent id [] h = refl
  get_of_absent id (s ∷ rs) h = ground (arith, get_of_absent id rs h.1)

  -- A WHERE clause on the key and a test finds a row exactly when `get` finds one that passes.
  pub count_at_key :
      (id : ℕ) (q : A → Bool) (rs : List A)
      → HasDistinctKeys rs
      → ltb 0 (count (λ s. pk s == id && q s) rs)
        ≡ elim (get pk id rs) [ none ↦ false | some r ↦ q r ]
  unfolding get count
  count_at_key id q [] h = refl
  count_at_key id q (s ∷ rs) h = elim (Bool-cases (pk s == id)) [
    | inl e ↦ ground (arith, count_at_key id q rs h.1, get_of_absent id rs (absent e))
    | inr e ↦ ground (arith, count_at_key id q rs h.1)
  ]
    where
      absent : (pk s == id) ≡ true → All (λ x. pk x ≢ id) rs
      absent e =
          All-imp (λ x. pk x ≢ pk s) (λ x. pk x ≢ id)
            (λ x k p. k (ground (arith, ==_iff (pk s) id))) rs h.0

  update_of_absent :
      (id : ℕ) (f : A → A) (rs : List A) → get pk id rs ≡ none → update (λ s. pk s == id) f rs ≡ rs
  unfolding get update
  update_of_absent id f [] h = refl
  update_of_absent id f (s ∷ rs) h = ground (arith, update_of_absent id f rs)

  -- `update_by_id` is the UPDATE by key, and returns the updated row that it found.
  pub update_by_id_lem :
      (id : ℕ) (f : A → A) (rs : List A)
      → update_by_id pk id f rs ≡ (update (λ s. pk s == id) f rs, Option.map f (get pk id rs))
  unfolding update_by_id
  update_by_id_lem id f rs = elim (Option-cases (get pk id rs)) [
    | inl e ↦ ground (arith, update_of_absent id f rs e)
    | inr (r, e) ↦ ground arith
  ]

  -- A row with a key that no row had is what its key reads.
  pub get-insert :
      (r : A) (rs : List A) → get pk (pk r) rs ≡ none → get pk (pk r) (insert r rs) ≡ some r
  unfolding get
  get-insert r [] h = ground arith
  get-insert r (s ∷ rs) h = ground (arith, get-insert r rs)
