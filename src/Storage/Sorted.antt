-- ===== src/Storage/Sorted.antt =====
-- The order by lower-cased name, and what the sort keeps.
use mathlib.Core.List.{Perm}
use mathlib.Core.List.Perm
use connect_manager.Prelude.{
  ℕ, suc, ◌≡◌, refl, ap, ◌∙◌, length, true, false, List, [], ◌∷◌, arith, All, All-imp, inl, inr,
  Bool-cases,
}
use connect_manager.Storage.{S3, S3Item, precedes, place_by_name, sort_by_name}

precedes-asym : (s t : List ℕ) → precedes s t ≡ true → precedes t s ≡ false
precedes-asym s [] e = absurd (cc)
precedes-asym [] (d ∷ t) e = refl
precedes-asym (c ∷ s) (d ∷ t) e = ground (arith, e, precedes-asym s t)

precedes_trans :
    (s t u : List ℕ) → precedes t s ≡ false → precedes u t ≡ false → precedes u s ≡ false
precedes_trans [] t u h k = refl
precedes_trans (c ∷ s) [] u h k = absurd (cc)
precedes_trans (c ∷ s) (d ∷ t) [] h k = absurd (cc)
precedes_trans (c ∷ s) (d ∷ t) (e ∷ u) h k = ground (arith, h, k, precedes_trans s t u)

module _ (s3 : S3) where
  -- No later item sorts before an earlier one.
  abbrev pub IsByName : List S3Item → Type 0
  IsByName [] = Unit
  IsByName (x ∷ xs) =
      All (λ y. precedes (s3.lower y.name) (s3.lower x.name) ≡ false) xs × IsByName xs

  module _ {κ} (P : S3Item → Type κ) where
    All-place : (x : S3Item) (xs : List S3Item) → P x → All P xs → All P (place_by_name s3 x xs)
    unfolding place_by_name
    All-place x [] p h = (p, tt)
    All-place x (y ∷ ys) p h = elim (Bool-cases (precedes (s3.lower y.name) (s3.lower x.name))) [
      | inl e ↦ rw e (h.0, All-place x ys p h.1)
      | inr e ↦ rw e (p, h)
    ]

    pub All-sort_by_name : (xs : List S3Item) → All P xs → All P (sort_by_name s3 xs)
    unfolding sort_by_name
    All-sort_by_name [] h = tt
    All-sort_by_name (x ∷ xs) h = All-place x _ h.0 (All-sort_by_name xs h.1)

  place-IsByName : (x : S3Item) (xs : List S3Item) → IsByName xs → IsByName (place_by_name s3 x xs)
  unfolding place_by_name
  place-IsByName x [] h = (tt, tt)
  place-IsByName x (y ∷ ys) h =
      let a = s3.lower x.name in
      let b = s3.lower y.name in
      elim (Bool-cases (precedes b a)) [
        | inl e ↦ rw e (
          All-place (λ z. precedes (s3.lower z.name) b ≡ false) x ys (precedes-asym b a e) h.0,
          place-IsByName x ys h.1,
        )
        | inr e ↦ rw e (
          (
            e,
            All-imp (λ z. precedes (s3.lower z.name) b ≡ false)
                (λ z. precedes (s3.lower z.name) a ≡ false)
                (λ z. precedes_trans a b (s3.lower z.name) e) ys h.0,
          ),
          h,
        )
      ]

  pub sort_by_name-IsByName : (xs : List S3Item) → IsByName (sort_by_name s3 xs)
  unfolding sort_by_name
  sort_by_name-IsByName [] = tt
  sort_by_name-IsByName (x ∷ xs) = place-IsByName x _ (sort_by_name-IsByName xs)

  place-perm : (x : S3Item) (xs : List S3Item) → Perm (place_by_name s3 x xs) (x ∷ xs)
  unfolding place_by_name
  place-perm x [] = Perm.refl _
  place-perm x (y ∷ ys) = elim (Bool-cases (precedes (s3.lower y.name) (s3.lower x.name))) [
    | inl e ↦ rw e (Perm.trans (Perm.cons y (place-perm x ys)) (Perm.swap _ _ _))
    | inr e ↦ rw e (Perm.refl _)
  ]

  pub sort_by_name-perm : (xs : List S3Item) → Perm (sort_by_name s3 xs) xs
  unfolding sort_by_name
  sort_by_name-perm [] = Perm.refl _
  sort_by_name-perm (x ∷ xs) =
      Perm.trans (place-perm x (sort_by_name s3 xs)) (Perm.cons x (sort_by_name-perm xs))

  length-place : (x : S3Item) (xs : List S3Item) → length (place_by_name s3 x xs) ≡ suc (length xs)
  unfolding place_by_name
  length-place x [] = refl
  length-place x (y ∷ ys) = elim (Bool-cases (precedes (s3.lower y.name) (s3.lower x.name))) [
    | inl e ↦ rw e (ap suc (length-place x ys))
    | inr e ↦ rw e refl
  ]

  pub length-sort_by_name : (xs : List S3Item) → length (sort_by_name s3 xs) ≡ length xs
  unfolding sort_by_name
  length-sort_by_name [] = refl
  length-sort_by_name (x ∷ xs) =
      length-place x (sort_by_name s3 xs) ∙ ap suc (length-sort_by_name xs)
