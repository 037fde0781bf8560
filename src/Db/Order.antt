-- ===== src/Db/Order.antt =====
-- `ORDER BY column [DESC] LIMIT n OFFSET k` on a result: a stable insertion sort, then a window.
pub mod Laws
use connect_manager.Prelude.{ℕ, List, [], ◌∷◌, ltb, take, drop, if◌then◌else◌}

module _ {ℓ} {A : Type ℓ} (column : A → ℕ) where
  unfoldable pub place : A → List A → List A
  place r [] = r ∷ []
  place r (s ∷ rs) = if ltb (column r) (column s) then s ∷ place r rs else r ∷ s ∷ rs

  unfoldable pub order_by_desc : List A → List A
  unfolding place
  order_by_desc [] = []
  order_by_desc (r ∷ rs) = place r (order_by_desc rs)

  unfoldable pub place_asc : A → List A → List A
  place_asc r [] = r ∷ []
  place_asc r (s ∷ rs) = if ltb (column s) (column r) then s ∷ place_asc r rs else r ∷ s ∷ rs

  unfoldable pub order_by : List A → List A
  unfolding place_asc
  order_by [] = []
  order_by (r ∷ rs) = place_asc r (order_by rs)

module _ {ℓ} {A : Type ℓ} where
  abbrev pub window : ℕ → ℕ → List A → List A
  window limit offset rs = take limit (drop offset rs)
