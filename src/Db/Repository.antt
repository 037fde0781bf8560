-- ===== src/Db/Repository.antt =====
-- app/db/repositories/base.py: AsyncRepository, over a table whose primary key is a number.
pub mod Laws
use connect_manager.Prelude.{
  ℕ, ◌<◌, Bool, true, false, List, [], ◌∷◌, Option, none, some, length, take, drop, ltb, ◌==◌,
  if◌then◌else◌,
}
use connect_manager.Db.Table.{select, update, delete, count}

module _ {ℓ} {A : Type ℓ} (pk : A → ℕ) where
  unfoldable pub get : ℕ → List A → Option A
  get id [] = none
  get id (r ∷ rs) = if pk r == id then some r else get id rs

  -- `setattr` for every given field, then the refreshed instance.
  unfoldable pub update_by_id : ℕ → (A → A) → List A → List A × Option A
  unfolding get update
  update_by_id id patch rs = elim (get id rs) [
    | none ↦ (rs, none)
    | some r ↦ (update (λ s. pk s == id) patch rs, some (patch r))
  ]

  unfoldable pub delete_by_id : ℕ → List A → List A × Bool
  unfolding delete count
  delete_by_id id rs = (delete (λ s. pk s == id) rs, ltb 0 (count (λ s. pk s == id) rs))

  unfoldable pub exists : ℕ → List A → Bool
  unfolding count
  exists id rs = ltb 0 (count (λ s. pk s == id) rs)

module _ {ℓ} {A : Type ℓ} where
  unfoldable pub list : ℕ → ℕ → List A → List A
  list limit offset rs = take limit (drop offset rs)

  unfoldable pub count_all : List A → ℕ
  count_all rs = length rs
