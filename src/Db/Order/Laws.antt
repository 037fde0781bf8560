-- ===== src/Db/Order/Laws.antt =====
-- An ordered read holds the selected rows, newest first.
use mathlib.Core.List.{Perm}
use mathlib.Core.List.Perm
use connect_manager.Prelude.{
  ℕ, zero, suc, ◌≤◌, List, [], ◌∷◌, arith, All, All-imp, ltb, inl, inr, Bool-cases, take, drop,
  All-take,
}
use connect_manager.Db.Order.{place, order_by_desc, window}

module _ {ℓ} {A : Type ℓ} (column : A → ℕ) where
  abbrev pub IsNewestFirst : List A → Type 0
  IsNewestFirst [] = Unit
  IsNewestFirst (r ∷ rs) = All (λ s. column s ≤ column r) rs × IsNewestFirst rs

  module _ {κ} (P : A → Type κ) where
    All-place : (r : A) (rs : List A) → P r → All P rs → All P (place column r rs)
    unfolding place
    All-place r [] p h = (p, tt)
    All-place r (s ∷ rs) p h = elim (Bool-cases (ltb (column r) (column s))) [
      | inl e ↦ rw e (h.0, All-place r rs p h.1)
      | inr e ↦ rw e (p, h)
    ]

    pub All-order_by_desc : (rs : List A) → All P rs → All P (order_by_desc column rs)
    unfolding order_by_desc
    All-order_by_desc [] h = tt
    All-order_by_desc (r ∷ rs) h = All-place r _ h.0 (All-order_by_desc rs h.1)

  place-IsNewestFirst : (r : A) (rs : List A) → IsNewestFirst rs → IsNewestFirst (place column r rs)
  unfolding place
  place-IsNewestFirst r [] h = (tt, tt)
  place-IsNewestFirst r (s ∷ rs) h = elim (Bool-cases (ltb (column r) (column s))) [
    | inl e ↦
        rw e (
          All-place (λ x. column x ≤ column s) r rs (ground arith) h.0,
          place-IsNewestFirst r rs h.1,
        )
    | inr e ↦
        let older : column s ≤ column r = ground arith in
        rw e (
          (
            older,
            All-imp (λ x. column x ≤ column s) (λ x. column x ≤ column r) (λ x k. omega arith) rs
                h.0,
          ),
          h,
        )
  ]

  pub order_by_desc-IsNewestFirst : (rs : List A) → IsNewestFirst (order_by_desc column rs)
  unfolding order_by_desc
  order_by_desc-IsNewestFirst [] = tt
  order_by_desc-IsNewestFirst (r ∷ rs) = place-IsNewestFirst r _ (order_by_desc-IsNewestFirst rs)

  place-perm : (r : A) (rs : List A) → Perm (place column r rs) (r ∷ rs)
  unfolding place
  place-perm r [] = Perm.refl _
  place-perm r (s ∷ rs) = elim (Bool-cases (ltb (column r) (column s))) [
    | inl e ↦ rw e (Perm.trans (Perm.cons s (place-perm r rs)) (Perm.swap _ _ _))
    | inr e ↦ rw e (Perm.refl _)
  ]

  pub order_by_desc-perm : (rs : List A) → Perm (order_by_desc column rs) rs
  unfolding order_by_desc
  order_by_desc-perm [] = Perm.refl []
  order_by_desc-perm (r ∷ rs) =
      Perm.trans (place-perm r (order_by_desc column rs)) (Perm.cons r (order_by_desc-perm rs))

  take-IsNewestFirst : (n : ℕ) (rs : List A) → IsNewestFirst rs → IsNewestFirst (take n rs)
  take-IsNewestFirst zero rs h = tt
  take-IsNewestFirst (suc n) [] h = tt
  take-IsNewestFirst (suc n) (r ∷ rs) h =
      (All-take (λ s. column s ≤ column r) n rs h.0, take-IsNewestFirst n rs h.1)

  drop-IsNewestFirst : (n : ℕ) (rs : List A) → IsNewestFirst rs → IsNewestFirst (drop n rs)
  drop-IsNewestFirst zero rs h = h
  drop-IsNewestFirst (suc n) [] h = tt
  drop-IsNewestFirst (suc n) (r ∷ rs) h = drop-IsNewestFirst n rs h.1

  pub window-IsNewestFirst :
      (limit offset : ℕ) (rs : List A) → IsNewestFirst rs → IsNewestFirst (window limit offset rs)
  window-IsNewestFirst limit offset rs h =
      take-IsNewestFirst limit _ (drop-IsNewestFirst offset rs h)
