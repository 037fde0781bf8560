-- ===== src/Storage/Listed.antt =====
-- What a listing of a bucket contains, and when its loop ends.
use mathlib.Core.List.Perm
use mathlib.Core.List.{Perm, map, map-append, append-nil, append_assoc}
use connect_manager.Prelude.{
  ℕ, zero, suc, ◌+◌, ◌≤◌, ◌<◌, ◌≡◌, refl, sym, ap, subst, String, true, List, [], ◌∷◌, ◌++◌, Option,
  none, some, ap₂, ◌∙◌, if◌then◌else◌, Bool, false, arith, length, length-append, leb, All,
  All-append, inl, inr, Bool-cases, Option-cases, str_eq,
}
use connect_manager.Db.Table.{Result, ok, err}
use connect_manager.Storage.{
  S3, S3Item, S3ListResult, Object, Response, Reply, reply, client_error, Found, folders_in,
  files_in, after_page, with_reply, list_pages, arranged, listed, list_objects, sort_by_name,
}
use connect_manager.Storage.Sorted.{
  IsByName, sort_by_name-IsByName, All-sort_by_name, sort_by_name-perm, length-sort_by_name,
}

below : {m n : ℕ} → n < m → leb m n ≡ false
below h = ground arith

module _ (s3 : S3) (bucket prefix : String) where
  -- The responses that a listing from a token gets, each but the last truncated and with the next token.
  abbrev pub Serves : Option String → List Response → Type 0
  Serves token [] = ⊥
  Serves token (r ∷ []) =
      (s3.list_objects_v2 bucket prefix token ≡ reply r) × (r.is_truncated ≡ false)
  Serves token (r ∷ s ∷ rs) =
      (s3.list_objects_v2 bucket prefix token ≡ reply r)
      × (r.is_truncated ≡ true)
      × ((t : String) × (r.next_token ≡ some t) × Serves (some t) (s ∷ rs))

  abbrev pub folders_on : List Response → List S3Item
  folders_on [] = []
  folders_on (r ∷ rs) = folders_in s3 r.common_prefixes ++ folders_on rs

  abbrev pub files_on : List Response → List S3Item
  files_on [] = []
  files_on (r ∷ rs) = files_in s3 prefix r.contents ++ files_on rs

  -- The key of an item, whether it is a folder, and its size in bytes.
  abbrev pub fact : S3Item → String × Bool × ℕ
  fact x = (x.key, x.is_folder, x.size.0)

  -- What the pages say of folders: their common prefixes, in the order of the pages.
  abbrev pub prefix_facts : List String → List (String × Bool × ℕ)
  prefix_facts [] = []
  prefix_facts (p ∷ ps) = (p, true, 0) ∷ prefix_facts ps

  abbrev pub folders_served : List Response → List (String × Bool × ℕ)
  folders_served [] = []
  folders_served (r ∷ rs) = prefix_facts r.common_prefixes ++ folders_served rs

  -- What they say of files: every object but the one whose key is the prefix itself.
  abbrev pub object_facts : List Object → List (String × Bool × ℕ)
  object_facts [] = []
  object_facts (o ∷ os) =
      let rest = object_facts os in
      if str_eq o.key prefix then rest else (o.key, false, o.size) ∷ rest

  abbrev pub files_served : List Response → List (String × Bool × ℕ)
  files_served [] = []
  files_served (r ∷ rs) = object_facts r.contents ++ files_served rs

  prefix_facts_lem : (ps : List String) → map fact (folders_in s3 ps) ≡ prefix_facts ps
  prefix_facts_lem [] = refl
  prefix_facts_lem (p ∷ ps) = ap (λ qs. (p, true, 0) ∷ qs) (prefix_facts_lem ps)

  folders_served_lem : (rs : List Response) → map fact (folders_on rs) ≡ folders_served rs
  folders_served_lem [] = refl
  folders_served_lem (r ∷ rs) =
      map-append fact (folders_in s3 r.common_prefixes) (folders_on rs)
      ∙ ap₂ (λ a b. a ++ b) (prefix_facts_lem r.common_prefixes) (folders_served_lem rs)

  object_facts_lem : (os : List Object) → map fact (files_in s3 prefix os) ≡ object_facts os
  unfolding files_in
  object_facts_lem [] = refl
  object_facts_lem (o ∷ os) = elim (Bool-cases (str_eq o.key prefix)) [
    | inl e ↦ rw e (object_facts_lem os)
    | inr e ↦ rw e (ap (λ qs. (o.key, false, o.size) ∷ qs) (object_facts_lem os))
  ]

  files_served_lem : (rs : List Response) → map fact (files_on rs) ≡ files_served rs
  files_served_lem [] = refl
  files_served_lem (r ∷ rs) =
      map-append fact (files_in s3 prefix r.contents) (files_on rs)
      ∙ ap₂ (λ a b. a ++ b) (object_facts_lem r.contents) (files_served_lem rs)

  module _ (max_items : ℕ) where
    -- The loop appends what the pages hold.
    list_pages-Serves :
        (fuel : ℕ) (token : Option String) (rs : List Response) (ds fs : List S3Item)
        → Serves token rs
        → length rs ≤ fuel
        → length (ds ++ folders_on rs) + length (fs ++ files_on rs) < max_items
        → (list_pages s3 bucket prefix max_items fuel token ds fs)
          ≡ some (
              ok (record {
                folders = ds ++ folders_on rs;
                files = fs ++ files_on rs;
                is_truncated = false;
              }))
    unfolding list_pages with_reply
    list_pages-Serves fuel token [] ds fs h k l = absurd h
    list_pages-Serves zero token (r ∷ rs) ds fs h k l = absurd (omega (arith, k))
    list_pages-Serves (suc fuel) token (r ∷ []) ds fs h k l =
        let fits = below (
          rw
            (
              append-nil (folders_in s3 r.common_prefixes),
              append-nil (files_in s3 prefix r.contents),
            )
            at l) in
        rw
          (
            list_pages,
            h.0,
            with_reply,
            append-nil (folders_in s3 r.common_prefixes),
            append-nil (files_in s3 prefix r.contents),
            after_page,
            fits,
            h.1,
          )
          refl
    list_pages-Serves (suc fuel) token (r ∷ s ∷ rs) ds fs h k l =
        let ds' = ds ++ folders_in s3 r.common_prefixes in
        let fs' = fs ++ files_in s3 prefix r.contents in
        let l' =
          rw
            (
              sym (append_assoc ds (folders_in s3 r.common_prefixes) (folders_on (s ∷ rs))),
              sym (append_assoc fs (files_in s3 prefix r.contents) (files_on (s ∷ rs))),
            )
            at l in
        let fits : leb max_items (length ds' + length fs') ≡ false = below (
          omega (
            arith,
            l',
            length-append ds' (folders_on (s ∷ rs)),
            length-append fs' (files_on (s ∷ rs)),
          )) in
        rw
          (
            list_pages,
            h.0,
            with_reply,
            after_page,
            fits,
            h.1,
            h.2.1,
            sym (append_assoc ds (folders_in s3 r.common_prefixes) (folders_on (s ∷ rs))),
            sym (append_assoc fs (files_in s3 prefix r.contents) (files_on (s ∷ rs))),
          )
          (list_pages-Serves fuel (some h.2.0) (s ∷ rs) ds' fs' h.2.2 (omega (arith, k)) l')

    length-facts : (xs : List S3Item) → length (map fact xs) ≡ length xs
    length-facts [] = refl
    length-facts (x ∷ xs) = ap suc (length-facts xs)

    folder_count : (rs : List Response) → length (folders_on rs) ≡ length (folders_served rs)
    folder_count rs = sym (length-facts (folders_on rs)) ∙ ap length (folders_served_lem rs)

    file_count : (rs : List Response) → length (files_on rs) ≡ length (files_served rs)
    file_count rs = sym (length-facts (files_on rs)) ∙ ap length (files_served_lem rs)

    -- A bucket whose pages hold fewer than `max_items` items in all is listed completely within as many
    -- rounds as it has pages: the common prefixes of every page as folders and then its objects but the
    -- prefix itself as files, each once, with key and size.
    pub list_objects_complete :
        (fuel : ℕ) (rs : List Response)
        → Serves none rs
        → length rs ≤ fuel
        → length (folders_served rs) + length (files_served rs) < max_items
        → (r : S3ListResult) × (list_objects s3 bucket prefix max_items fuel ≡ some (ok r))
          × (r.is_truncated ≡ false)
          × ((ds : List S3Item) × (fs : List S3Item) × (r.items ≡ ds ++ fs)
              × Perm (map fact ds) (folders_served rs)
              × Perm (map fact fs) (files_served rs))
    unfolding list_objects arranged
    list_objects_complete fuel rs h k l = (
      _,
      ap (listed s3) (
          list_pages-Serves fuel none rs [] [] h k
            (omega (arith, l, folder_count rs, file_count rs))),
      refl,
      (
        _,
        _,
        refl,
        subst (Perm (map fact (sort_by_name s3 (folders_on rs)))) (folders_served_lem rs)
            (Perm.map fact (sort_by_name-perm s3 (folders_on rs))),
        subst (Perm (map fact (sort_by_name s3 (files_on rs)))) (files_served_lem rs)
            (Perm.map fact (sort_by_name-perm s3 (files_on rs))),
      ),
    )

    -- What the loop has found when it ends.
    record IsFound (f : Found s3) : Type 0 where
      folders : All (λ x. x.is_folder ≡ true) f.folders
      files : All (λ x. x.is_folder ≡ false) f.files
      capped : f.is_truncated ≡ leb max_items (length f.folders + length f.files)

    abbrev Ends : Option (Result (Found s3)) → Type 0
    Ends none = Unit
    Ends (some (err e)) = Unit
    Ends (some (ok f)) = IsFound f

    folders_in-All : (ps : List String) → All (λ x. x.is_folder ≡ true) (folders_in s3 ps)
    folders_in-All [] = tt
    folders_in-All (p ∷ ps) = (refl, folders_in-All ps)

    files_in-All : (os : List Object) → All (λ x. x.is_folder ≡ false) (files_in s3 prefix os)
    unfolding files_in
    files_in-All [] = tt
    files_in-All (o ∷ os) = elim (Bool-cases (str_eq o.key prefix)) [
      | inl e ↦ rw e (files_in-All os)
      | inr e ↦ rw e (refl, files_in-All os)
    ]

    module _ (again : String → List S3Item → List S3Item → Option (Result (Found s3)))
        (later : (t : String) (ds fs : List S3Item)
          → All (λ x. x.is_folder ≡ true) ds
          → All (λ x. x.is_folder ≡ false) fs
          → Ends (again t ds fs)) where
      after_page-Ends :
          (r : Response) (ds fs : List S3Item)
          → All (λ x. x.is_folder ≡ true) ds
          → All (λ x. x.is_folder ≡ false) fs
          → Ends (after_page s3 again max_items r ds fs)
      after_page-Ends r ds fs hd hf = elim (Bool-cases (leb max_items (length ds + length fs))) [
        | inl e ↦ rw (e, Ends, after_page) (record { folders = hd; files = hf; capped = sym e })
        | inr e ↦
            rw (e, Ends, after_page)
              (elim (Bool-cases r.is_truncated) [
                | inl t ↦
                    rw (t, Ends)
                      (elim (Option-cases r.next_token) [
                        | inl n ↦ rw (n, Ends) tt
                        | inr (u, n) ↦ rw (n, Ends) (later u ds fs hd hf)
                      ])
                | inr t ↦ rw (t, Ends) (record { folders = hd; files = hf; capped = sym e })
              ])
      ]

      with_reply-Ends :
          (r : Reply Response) (ds fs : List S3Item)
          → All (λ x. x.is_folder ≡ true) ds
          → All (λ x. x.is_folder ≡ false) fs
          → Ends (with_reply s3 again prefix max_items r ds fs)
      unfolding with_reply
      with_reply-Ends (client_error code text) ds fs hd hf = tt
      with_reply-Ends (reply r) ds fs hd hf =
          after_page-Ends r _ _ (All-append _ ds _ hd (folders_in-All r.common_prefixes))
            (All-append _ fs _ hf (files_in-All r.contents))

    list_pages-Ends :
        (fuel : ℕ) (token : Option String) (ds fs : List S3Item)
        → All (λ x. x.is_folder ≡ true) ds
        → All (λ x. x.is_folder ≡ false) fs
        → Ends (list_pages s3 bucket prefix max_items fuel token ds fs)
    unfolding list_pages
    list_pages-Ends zero token ds fs hd hf = tt
    list_pages-Ends (suc fuel) token ds fs hd hf =
        with_reply-Ends _ (λ t. list_pages-Ends fuel (some t))
          (s3.list_objects_v2 bucket prefix token) ds fs hd hf

    -- Folders before files, each by name; the count, and the cap.
    pub record IsArranged (r : S3ListResult) : Type 0 where
      pub parts :
          (ds : List S3Item) × (fs : List S3Item) × (r.items ≡ ds ++ fs)
          × All (λ x. x.is_folder ≡ true) ds
          × All (λ x. x.is_folder ≡ false) fs
          × IsByName s3 ds
          × IsByName s3 fs
      pub counted : r.total_count ≡ length r.items
      pub capped : r.is_truncated ≡ leb max_items r.total_count

    arranged-IsArranged : (f : Found s3) → IsFound f → IsArranged (arranged s3 f)
    unfolding arranged
    arranged-IsArranged f h = record {
      parts = (
        sort_by_name s3 f.folders,
        sort_by_name s3 f.files,
        refl,
        All-sort_by_name s3 (λ x. x.is_folder ≡ true) f.folders h.folders,
        All-sort_by_name s3 (λ x. x.is_folder ≡ false) f.files h.files,
        sort_by_name-IsByName s3 f.folders,
        sort_by_name-IsByName s3 f.files,
      );
      counted = refl;
      capped =
          rw
            (
              length-append (sort_by_name s3 f.folders) (sort_by_name s3 f.files),
              length-sort_by_name s3 f.folders,
              length-sort_by_name s3 f.files,
            )
            h.capped;
    }

    result_or : S3ListResult → Option (Result S3ListResult) → S3ListResult
    result_or d none = d
    result_or d (some (err e)) = d
    result_or d (some (ok r)) = r

    -- A listing that ends with a result has the folders before the files, each in the order of the
    -- lower-cased names; it counts its items, and is truncated when they are `max_items` or more.
    pub list_objects-IsArranged :
        (fuel : ℕ) (r : S3ListResult)
        → list_objects s3 bucket prefix max_items fuel ≡ some (ok r)
        → IsArranged r
    unfolding list_objects result_or
    list_objects-IsArranged fuel r e =
        go (list_pages s3 bucket prefix max_items fuel none [] [])
          (list_pages-Ends fuel none [] [] tt tt) e
      where
        go : (o : Option (Result (Found s3))) → Ends o → listed s3 o ≡ some (ok r) → IsArranged r
        go none h e' = absurd (cc)
        go (some (err x)) h e' = absurd (cc)
        go (some (ok f)) h e' =
            subst IsArranged (ap (result_or (arranged s3 f)) e') (arranged-IsArranged f h)
