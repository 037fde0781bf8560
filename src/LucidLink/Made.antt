-- ===== src/LucidLink/Made.antt =====
-- `ensure_structure` against a tree of folders: what it promises where it reports success.
use Prim.Native.String
use connect_manager.Prelude.{
  All, All-append, ℕ, zero, suc, ◌≡◌, refl, ap, sym, ◌∙◌, subst, String, Bool, true, false, List,
  [], ◌∷◌, ◌++◌, Option, none, some, Bool-cases, Option-cases, inl, inr, if◌then◌else◌,
}
use connect_manager.Text.Format.{text_or_default}
use connect_manager.Db.Table.{Result, ok, err}
use connect_manager.Notifications.Values.{Json, is_text}
use connect_manager.LucidLink.{Http, Client, get_id_by_path, create_folder, is_true}
use connect_manager.LucidLink.Tree.{
  IsName, extended, path_of, extended_snoc, path_of_snoc, Serves, IsCreated, Is-get_id_by_path,
  keeps-get_id_by_path, keeps-create_folder, IsCreated-create_folder,
}
use connect_manager.LucidLink.Names.{folders_of-All}
use connect_manager.LucidLink.Folders.{
  Attempt, reached, conflict, refused, judged, attempt, attempts, walk, folders_of,
  ensure_structure, from_root, ensure_folders, ensure_parsed,
}

abbrev succeeded : Result (Bool × String) → Bool
succeeded (ok r) = r.0
succeeded (err e) = false

module _ {Y : Type 0} (h : Http Y) (c : Client) (Is : Json → List String → Y → Type 0)
    (serves : Serves h c Is) where
  abbrev IsReached : List String → Attempt × Y → Type 0
  IsReached ns (reached id, y) = Is id ns y
  IsReached ns (conflict, y) = Unit
  IsReached ns (refused e, y) = Unit

  IsReached-judged :
      (ns : List String) (folder : String) (made : Json × String) (y : Y)
      → IsCreated h c Is serves ns (made, y)
      → IsReached ns (judged folder made, y)
  IsReached-judged ns folder (id, e) y k = go (is_text id "CONFLICT") (is_true id) (λ d f. k d f)
    where
      go :
          (b d : Bool)
          → (b ≡ false → d ≡ true → Is id ns y)
          → IsReached ns (
            (if b
                then conflict
                else if d
                then reached id
                else refused (text_or_default e (String.◌++◌ "Failed to create folder: " folder))),
            y,
          )
      go true d k = tt
      go false true k = k refl refl
      go false false k = tt

  IsReached-attempt :
      (ns : List String) (folder : String) (id : Json) (y : Y)
      → All IsName (ns ++ folder ∷ [])
      → Is id ns y
      → IsReached (ns ++ folder ∷ []) (attempt h c (path_of (ns ++ folder ∷ [])) folder id y)
  unfolding attempt
  IsReached-attempt ns folder id y names k =
      let path = path_of (ns ++ folder ∷ []) in
      let looked = get_id_by_path h c path y in
      elim (Bool-cases (is_true looked.0)) [
        | inl e ↦ rw (attempt, e) (Is-get_id_by_path h c Is serves (ns ++ folder ∷ []) y names e)
        | inr e ↦
            rw (attempt, e)
              (IsReached-judged _ folder (create_folder h c folder id looked.1).0 _ (
                IsCreated-create_folder h c Is serves ns folder id looked.1
                  (keeps-get_id_by_path h c Is serves path id ns y k)))
      ]

  keeps-attempt :
      (path folder : String) (id' id : Json) (ns : List String) (y : Y)
      → Is id ns y
      → Is id ns (attempt h c path folder id' y).1
  unfolding attempt
  keeps-attempt path folder id' id ns y k =
      let looked = get_id_by_path h c path y in
      let kept = keeps-get_id_by_path h c Is serves path id ns y k in
      elim (Bool-cases (is_true looked.0)) [
        | inl e ↦ rw (attempt, e) kept
        | inr e ↦ rw (attempt, e) (keeps-create_folder h c Is serves folder id' id ns looked.1 kept)
      ]

  -- The folder that the attempts ended with.
  abbrev IsFound : List String → (Option Json × String) × Y → Type 0
  IsFound ns ((some id, e), y) = Is id ns y
  IsFound ns ((none, e), y) = Unit

  -- Whatever holds of every attempt that reaches a folder, and is kept by each attempt, holds in the end.
  found_then :
      (Q : (Option Json × String) × Y → Type 0) (last : String) (r : Attempt × Y)
      (again : String → Y → (Option Json × String) × Y)
      → ((id : Json) → r.0 ≡ reached id → Q ((some id, last), r.1))
      → ((e : String) → Q (again e r.1))
      → Q (elim r.0 as (λ _. (Option Json × String) × Y) [
        | reached i ↦ ((some i, last), r.1)
        | conflict ↦ again last r.1
        | refused e ↦ again e r.1
      ])
  found_then Q last (reached i, t) again k later = k i refl
  found_then Q last (conflict, t) again k later = later last
  found_then Q last (refused e, t) again k later = later e

  keeps-attempts :
      (n : ℕ) (path folder : String) (id' id : Json) (last : String) (ns : List String) (y : Y)
      → Is id ns y
      → Is id ns (attempts h c n path folder id' last y).1
  unfolding attempts
  keeps-attempts zero path folder id' id last ns y k = k
  keeps-attempts (suc n) path folder id' id last ns y k =
      let kept = keeps-attempt path folder id' id ns y k in
      found_then (λ r. Is id ns r.1) last (attempt h c path folder id' y)
        (attempts h c n path folder id') (λ i e. kept)
        (λ e. keeps-attempts n path folder id' id e ns _ kept)

  IsFound-attempts :
      (n : ℕ) (ns : List String) (folder : String) (id : Json) (last : String) (y : Y)
      → All IsName (ns ++ folder ∷ [])
      → Is id ns y
      → IsFound (ns ++ folder ∷ []) (attempts h c n (path_of (ns ++ folder ∷ [])) folder id last y)
  unfolding attempts
  IsFound-attempts zero ns folder id last y names k = tt
  IsFound-attempts (suc n) ns folder id last y names k =
      let path = path_of (ns ++ folder ∷ []) in
      let tried = attempt h c path folder id y in
      found_then (IsFound (ns ++ folder ∷ [])) last tried (attempts h c n path folder id)
        (λ i e.
          subst (λ a. IsReached (ns ++ folder ∷ []) (a, tried.1)) e
            (IsReached-attempt ns folder id y names k))
        (λ e.
          IsFound-attempts n ns folder id e tried.1 names (keeps-attempt path folder id id ns y k))

  keeps-walk :
      (folders : List String) (path : String) (id' id : Json) (last : String) (ns : List String)
      (y : Y)
      → Is id ns y
      → Is id ns (walk h c folders path id' last y).1
  unfolding walk
  keeps-walk [] path id' id last ns y k = k
  keeps-walk (folder ∷ folders) path id' id last ns y k =
      let path' = String.◌++◌ path (String.◌++◌ "/" folder) in
      let tried = attempts h c 3 path' folder id' last y in
      let kept = keeps-attempts 3 path' folder id' id last ns y k in
      elim (Option-cases tried.0.0) [
        | inl e ↦ rw (walk, e) kept
        | inr (i, e) ↦ rw (walk, e) (keeps-walk folders path' i id tried.0.1 ns tried.1 kept)
      ]

  -- Every folder of a path is there: each has some entry.
  abbrev pub AreThere : List String → List String → Y → Type 0
  AreThere ns [] y = Unit
  AreThere ns (f ∷ fs) y = ((id : Json) × Is id (ns ++ f ∷ []) y) × AreThere (ns ++ f ∷ []) fs y

  IsFound_of :
      (ns : List String) (r : (Option Json × String) × Y) (id : Json)
      → r.0.0 ≡ some id
      → IsFound ns r
      → Is id ns r.1
  IsFound_of ns ((o, e), y) id found k = subst (λ o. IsFound ns ((o, e), y)) found k

  walked_then :
      (Q : (Bool × String) × Y → Type 0) (path : String) (tried : (Option Json × String) × Y)
      (next : Json → String → Y → (Bool × String) × Y)
      → ((id : Json) → tried.0.0 ≡ some id → Q (next id tried.0.1 tried.1))
      → ((e : String) → Q ((false, e), tried.1))
      → Q (elim tried.0.0 as (λ _. (Bool × String) × Y) [
        | some id ↦ next id tried.0.1 tried.1
        | none ↦ (
          (false, String.◌++◌ "Failed to create " (String.◌++◌ path (String.◌++◌ ": " tried.0.1))),
          tried.1,
        )
      ])
  walked_then Q path ((some id, e), y) next k fails = k id refl
  walked_then Q path ((none, e), y) next k fails = fails _

  AreThere-walk :
      (folders ns : List String) (path : String) (id : Json) (last : String) (y : Y)
      → path ≡ extended "" ns
      → All IsName ns
      → All IsName folders
      → Is id ns y
      → (walk h c folders path id last y).0.0 ≡ true
      → AreThere ns folders (walk h c folders path id last y).1
  unfolding walk
  AreThere-walk [] ns path id last y at names more k = λ success. tt
  AreThere-walk (folder ∷ folders) ns path id last y at names more k =
      let named = All-append IsName ns (folder ∷ []) names (more.0, tt) in
      let path' = String.◌++◌ path (String.◌++◌ "/" folder) in
      let tried = attempts h c 3 path' folder id last y in
      let same : path_of (ns ++ folder ∷ []) ≡ path' =
        path_of_snoc ns folder ∙ ap (λ p. String.◌++◌ p (String.◌++◌ "/" folder)) (sym at) in
      let same' : path' ≡ extended "" (ns ++ folder ∷ []) =
        ap (λ p. String.◌++◌ p (String.◌++◌ "/" folder)) at ∙ sym (extended_snoc "" ns folder) in
      let found =
        subst (λ p. IsFound (ns ++ folder ∷ []) (attempts h c 3 p folder id last y)) same
          (IsFound-attempts 3 ns folder id last y named k) in
      walked_then (λ r. r.0.0 ≡ true → AreThere ns (folder ∷ folders) r.1) path' tried
        (walk h c folders path')
        (λ i e success.
          let there = IsFound_of (ns ++ folder ∷ []) tried i e found in
          (
            (i, keeps-walk folders path' i i tried.0.1 (ns ++ folder ∷ []) tried.1 there),
            AreThere-walk folders (ns ++ folder ∷ []) path' i tried.0.1 tried.1 same' named more.1
                there success,
          ))
        (λ e success. absurd (cc))

  AreThere-from_root :
      (folders : List String) (looked : Json × Y)
      → All IsName folders
      → (is_true looked.0 ≡ true → Is looked.0 [] looked.1)
      → (from_root h c folders looked).0.0 ≡ true
      → AreThere [] folders (from_root h c folders looked).1
  AreThere-from_root folders looked names root = elim (Bool-cases (is_true looked.0)) [
    | inl e ↦
        rw (from_root, e) (AreThere-walk folders [] "" looked.0 "" looked.1 refl tt names (root e))
    | inr e ↦ rw (from_root, e) (λ success. absurd (cc))
  ]

  AreThere-ensure_folders :
      (folders : List String) (y : Y)
      → All IsName folders
      → (ensure_folders h c folders y).0.0 ≡ true
      → AreThere [] folders (ensure_folders h c folders y).1
  AreThere-ensure_folders [] y names = λ success. tt
  AreThere-ensure_folders (f ∷ fs) y names =
      AreThere-from_root (f ∷ fs) (get_id_by_path h c "/" y) names
        (Is-get_id_by_path h c Is serves [] y tt)

  -- Where the service keeps a tree of folders and `ensure_structure` reports success for a path, every
  -- folder of the path is in the tree.
  pub ensure_structure-AreThere :
      (full_key : String) (folders : List String) (y y' : Y) (message : String)
      → folders_of full_key ≡ ok folders
      → ensure_structure h c full_key y ≡ (ok (true, message), y')
      → AreThere [] folders y'
  unfolding ensure_structure
  ensure_structure-AreThere full_key folders y y' message parsed done =
      let ran : ensure_parsed h c (ok folders) y ≡ (ok (true, message), y') =
        subst (λ r. ensure_parsed h c r y ≡ (ok (true, message), y')) parsed done in
      subst (AreThere [] folders) (ap (λ r. r.1) ran) (
        AreThere-ensure_folders folders y (folders_of-All full_key folders parsed)
          (ap (λ r. succeeded r.0) ran))
