-- ===== src/Storage/Ends.antt =====
-- When the loop of a listing ends.
use connect_manager.Prelude.{
  ℕ, zero, suc, ◌+◌, ◌≤◌, ◌≡◌, ◌≢◌, refl, ◌⊎◌, String, true, false, List, [], ◌++◌, Option, none,
  some, arith, length, length-append, leb, inl, inr, Bool-cases, Option-cases,
}
use connect_manager.Db.Table.{Result, ok, err}
use connect_manager.Storage.{
  S3, S3Item, Response, Reply, reply, client_error, Found, folders_in, files_in, after_page,
  with_reply, list_pages, listed, list_objects,
}

module _ (s3 : S3) (bucket prefix : String) (max_items : ℕ) where
  -- The responses that are truncated hold at least one item each.
  abbrev pub IsFilled : Type 0
  IsFilled =
      (token : Option String) (r : Response)
      → s3.list_objects_v2 bucket prefix token ≡ reply r
      → r.is_truncated ≡ true
      → 1 ≤ length (folders_in s3 r.common_prefixes) + length (files_in s3 prefix r.contents)

  Reply-cases :
      (o : Reply Response)
      → ((code : String) × (text : String) × (o ≡ client_error code text))
        ⊎ ((r : Response) × (o ≡ reply r))
  Reply-cases (client_error code text) = inl (code, text, refl)
  Reply-cases (reply r) = inr (r, refl)

  after_page_ends :
      (again : String → List S3Item → List S3Item → Option (Result (Found s3)))
      → (r : Response) (ds fs : List S3Item)
      → ((u : String)
          → leb max_items (length ds + length fs) ≡ false
          → r.is_truncated ≡ true
          → again u ds fs ≢ none)
      → after_page s3 again max_items r ds fs ≢ none
  after_page_ends again r ds fs later = elim (Bool-cases (leb max_items (length ds + length fs))) [
    | inl c ↦ rw (c, after_page) (λ k. cc)
    | inr c ↦
        rw (c, after_page)
          (elim (Bool-cases r.is_truncated) [
            | inr t ↦ rw t (λ k. cc)
            | inl t ↦ rw t (elim (Option-cases r.next_token) [
              | inl n ↦ rw n (λ k. cc)
              | inr (u, n) ↦ rw n (later u c t)
            ])
          ])
  ]

  -- What the pages add stays below the cap while the loop goes on.
  room :
      IsFilled
      → (fuel : ℕ) (token : Option String) (r : Response) (ds fs : List S3Item)
      → s3.list_objects_v2 bucket prefix token ≡ reply r
      → r.is_truncated ≡ true
      → max_items ≤ fuel + (length ds + length fs)
      → suc max_items
        ≤ fuel
          + (length (ds ++ folders_in s3 r.common_prefixes)
              + length (fs ++ files_in s3 prefix r.contents))
  room filled fuel token r ds fs e t h = omega (
    arith,
    filled token r e t,
    length-append ds (folders_in s3 r.common_prefixes),
    length-append fs (files_in s3 prefix r.contents),
  )

  -- A round that ends unless the next one does not.
  first_page :
      (fuel : ℕ) (token : Option String) (ds fs : List S3Item)
      → ((r : Response) (u : String)
          → s3.list_objects_v2 bucket prefix token ≡ reply r
          → leb max_items (
              length (ds ++ folders_in s3 r.common_prefixes)
              + length (fs ++ files_in s3 prefix r.contents))
            ≡ false
          → r.is_truncated ≡ true
          → list_pages s3 bucket prefix max_items fuel
              (some u)
              (ds ++ folders_in s3 r.common_prefixes)
              (fs ++ files_in s3 prefix r.contents)
            ≢ none)
      → list_pages s3 bucket prefix max_items (suc fuel) token ds fs ≢ none
  unfolding list_pages with_reply
  first_page fuel token ds fs later = elim (Reply-cases (s3.list_objects_v2 bucket prefix token)) [
    | inl (code, text, e) ↦ rw (e, list_pages, with_reply) (λ k. cc)
    | inr (r, e) ↦
        rw (e, list_pages, with_reply) (after_page_ends _ r _ _ (λ u c t. later r u e c t))
  ]

  contra : {m n : ℕ} → leb m n ≡ false → ¬ (suc m ≤ n)
  contra h = ground arith

  list_pages_ends :
      IsFilled
      → (fuel : ℕ) (token : Option String) (ds fs : List S3Item)
      → max_items ≤ fuel + (length ds + length fs)
      → list_pages s3 bucket prefix max_items (suc fuel) token ds fs ≢ none
  unfolding list_pages with_reply
  list_pages_ends filled zero token ds fs h =
      first_page zero token ds fs
        (λ r u e c t. absurd (contra c (omega (arith, room filled zero token r ds fs e t h))))
  list_pages_ends filled (suc fuel) token ds fs h = first_page (suc fuel) token ds fs λ r u e c t.
      list_pages_ends filled fuel (some u) _ _
        (omega (arith, room filled (suc fuel) token r ds fs e t h))

  -- A listing whose truncated responses hold at least one item each ends within `max_items` rounds
  -- and one.
  pub list_objects-ends : IsFilled → list_objects s3 bucket prefix max_items (suc max_items) ≢ none
  unfolding list_objects
  list_objects-ends filled e =
      elim (Option-cases (list_pages s3 bucket prefix max_items (suc max_items) none [] [])) [
        | inl n ↦ list_pages_ends filled max_items none [] [] (omega arith) n
        | inr (o, n) ↦ shown o (rw (n, list_objects) at e)
      ]
    where
      shown : (o : Result (Found s3)) → listed s3 (some o) ≢ none
      shown (err x) k = cc
      shown (ok f) k = cc
