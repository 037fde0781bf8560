-- ===== src/Web/Browse/Pages.antt =====
-- The pages of a listing.
use native.Mathlib.Nat.{zero-add, suc-add, zero-mul, suc-mul, le_trans, mul-le-mul_right}
use connect_manager.Prelude.{
  ℕ, zero, suc, ◌+◌, ◌-◌, ◌*◌, ◌/◌, ◌≤◌, ◌≡◌, refl, sym, ap, ◌∙◌, String, List, [], ◌∷◌, ◌++◌,
  arith, length, take, drop, length-take, take_all,
}
use connect_manager.Storage.{S3Item, S3ListResult}
use connect_manager.Web.Browse.{
  ℤ, pos, negsuc, clamp, size_of_page, pages_for, slice_for, Shown, paged,
}

take-add {ℓ} :
    {A : Type ℓ} (m n : ℕ) (xs : List A) → take m xs ++ take n (drop m xs) ≡ take (m + n) xs
take-add zero n xs = rw (zero-add n) refl
take-add (suc m) zero [] = rw (suc-add m 0) refl
take-add (suc m) (suc n) [] = rw (suc-add m (suc n)) refl
take-add (suc m) n (x ∷ xs) = rw (suc-add m n) (ap (λ ys. x ∷ ys) (take-add m n xs))

-- The pages hold the whole list.
pages_for-covers : (total size : ℕ) → 1 ≤ size → total ≤ pages_for total size * size
unfolding pages_for
pages_for-covers total size h = le_trans held (mul-le-mul_right size (omega arith))
  where
    held : total ≤ (total + (size - 1)) / size * size
    held = omega arith

first_page : (total size : ℕ) → 1 ≤ pages_for total size
unfolding pages_for
first_page total size = omega arith

clamp-id : (n high : ℕ) → 1 ≤ n → n ≤ high → clamp 1 high (pos n) ≡ n
clamp-id n high h k = omega arith

clamp-bounds :
    (low high : ℕ) (i : ℤ) → low ≤ high → (low ≤ clamp low high i) × (clamp low high i ≤ high)
clamp-bounds low high (pos n) h = (omega arith, omega arith)
clamp-bounds low high (negsuc n) h = (omega arith, h)

module _ (datastore_id bucket prefix : String) (page_size : ℤ) (r : S3ListResult) where
  abbrev page : ℕ → Shown
  page n = paged datastore_id bucket prefix (pos n) page_size r

  -- The items of the first pages, in the order of the pages.
  abbrev pub items_upto : ℕ → List S3Item
  items_upto zero = []
  items_upto (suc n) = items_upto n ++ (page (suc n)).items

  items_upto-eq :
      (n : ℕ)
      → n ≤ pages_for r.total_count (size_of_page page_size)
      → items_upto n ≡ take (n * size_of_page page_size) r.items
  unfolding paged slice_for
  items_upto-eq zero h = rw (zero-mul (size_of_page page_size)) refl
  items_upto-eq (suc n) h =
      let size = size_of_page page_size in
      let before : n * size ≡ (suc n - 1) * size = ap (λ k. k * size) (omega arith) in
      rw
        (
          clamp-id (suc n) (pages_for r.total_count size) (omega arith) h,
          items_upto-eq n (omega (arith, h)),
          suc-mul n size,
          sym before,
        )
        (take-add (n * size) size r.items)

  -- The pages of a listing hold its items, each in one place and in order; a page that is asked for is
  -- between the first and the last one, and has between 10 and 200 items' room, which it keeps.
  pub items_upto-total_pages :
      (asked : ℤ)
      → r.total_count ≡ length r.items
      → let s = paged datastore_id bucket prefix asked page_size r in
        (items_upto s.total_pages ≡ r.items)
        × (1 ≤ s.page)
        × (s.page ≤ s.total_pages)
        × (10 ≤ s.page_size)
        × (s.page_size ≤ 200)
        × (length s.items ≤ s.page_size)
  unfolding paged slice_for
  items_upto-total_pages asked counted =
      let size = size_of_page page_size in
      let pages = pages_for r.total_count size in
      let sized = clamp-bounds 10 200 page_size (omega arith) in
      let numbered = clamp-bounds 1 pages asked (first_page r.total_count size) in
      (
        items_upto-eq pages (omega arith)
            ∙ take_all (pages * size) r.items (
                omega (arith, counted, pages_for-covers r.total_count size (omega (arith, sized)))),
        numbered.0,
        numbered.1,
        sized.0,
        sized.1,
        omega (arith, length-take size (drop ((clamp 1 pages asked - 1) * size) r.items)),
      )
