-- ===== src/LucidLink/Requests.antt =====
-- How many requests the creation of a path's folders sends.
use Prim.Native.String
use connect_manager.Prelude.{
  ℕ, zero, suc, ◌+◌, ◌*◌, ◌≤◌, ◌≡◌, String, List, [], ◌∷◌, Option, some, arith, length, Bool-cases,
  Option-cases, inl, inr, str_eq,
}
use connect_manager.Db.Table.{ok}
use connect_manager.Notifications.Values.{Json}
use connect_manager.LucidLink.{Http, Client, get_id_by_path, create_folder, is_true}
use connect_manager.LucidLink.Folders.{
  Attempt, reached, conflict, refused, attempt, attempts, walk, folders_of, ensure_structure,
  from_root,
}

-- The client that counts what it sends.
abbrev pub counted : {Y : Type 0} → Http Y → Http (Y × ℕ)
counted h = record {
  send = λ r s. let (reply, y) = h.send r s.0 in (reply, (y, suc s.1));
  ll_host = h.ll_host;
  describe = h.describe;
}

module _ {Y : Type 0} (h : Http Y) (c : Client) where
  sent_get_id_by_path :
      (path : String) (s : Y × ℕ) → (get_id_by_path (counted h) c path s).1.1 ≤ 1 + s.1
  unfolding get_id_by_path
  sent_get_id_by_path path s = elim (Bool-cases (str_eq c.base_url "")) [
    | inl e ↦ rw (get_id_by_path, e) (omega arith)
    | inr e ↦ rw (get_id_by_path, e) (omega arith)
  ]

  sent_create_folder :
      (name : String) (parent : Json) (s : Y × ℕ)
      → (create_folder (counted h) c name parent s).1.1 ≤ 1 + s.1
  unfolding create_folder
  sent_create_folder name parent s = elim (Bool-cases (str_eq c.base_url "")) [
    | inl e ↦ rw (create_folder, e) (omega arith)
    | inr e ↦ rw (create_folder, e) (omega arith)
  ]

  sent_attempt :
      (path folder : String) (id : Json) (s : Y × ℕ)
      → (attempt (counted h) c path folder id s).1.1 ≤ 2 + s.1
  unfolding attempt
  sent_attempt path folder id s =
      let looked = get_id_by_path (counted h) c path s in
      elim (Bool-cases (is_true looked.0)) [
        | inl e ↦ rw (attempt, e) (omega (arith, sent_get_id_by_path path s))
        | inr e ↦
            rw (attempt, e)
              (omega (arith, sent_get_id_by_path path s, sent_create_folder folder id looked.1))
      ]

  -- One attempt, and the attempts that are left.
  sent_then :
      (n m : ℕ) (last : String) (r : Attempt × (Y × ℕ))
      (again : String → Y × ℕ → (Option Json × String) × (Y × ℕ))
      → r.1.1 ≤ 2 + m
      → ((e : String) (t : Y × ℕ) → (again e t).1.1 ≤ 2 * n + t.1)
      → (elim r.0 as (λ _. (Option Json × String) × (Y × ℕ)) [
        | reached i ↦ ((some i, last), r.1)
        | conflict ↦ again last r.1
        | refused e ↦ again e r.1
      ]).1.1
        ≤ 2 * suc n + m
  sent_then n m last (reached i, t) again k later = omega (arith, k)
  sent_then n m last (conflict, t) again k later = omega (arith, k, later last t)
  sent_then n m last (refused e, t) again k later = omega (arith, k, later e t)

  sent_attempts :
      (n : ℕ) (path folder : String) (id : Json) (last : String) (s : Y × ℕ)
      → (attempts (counted h) c n path folder id last s).1.1 ≤ 2 * n + s.1
  unfolding attempts
  sent_attempts zero path folder id last s = omega arith
  sent_attempts (suc n) path folder id last s =
      sent_then n s.1 last (attempt (counted h) c path folder id s)
        (attempts (counted h) c n path folder id) (sent_attempt path folder id s)
        (sent_attempts n path folder id)

  sent_walk :
      (folders : List String) (path : String) (id : Json) (last : String) (s : Y × ℕ)
      → (walk (counted h) c folders path id last s).1.1 ≤ 6 * length folders + s.1
  unfolding walk
  sent_walk [] path id last s = omega arith
  sent_walk (folder ∷ folders) path id last s =
      let path' = String.◌++◌ path (String.◌++◌ "/" folder) in
      let tried = attempts (counted h) c 3 path' folder id last s in
      elim (Option-cases tried.0.0) [
        | inl e ↦ rw (walk, e) (omega (arith, sent_attempts 3 path' folder id last s))
        | inr (i, e) ↦
            rw (walk, e)
              (omega (
                arith,
                sent_attempts 3 path' folder id last s,
                sent_walk folders path' i tried.0.1 tried.1,
              ))
      ]

  sent_from_root :
      (folders : List String) (looked : Json × (Y × ℕ))
      → (from_root (counted h) c folders looked).1.1 ≤ 6 * length folders + looked.1.1
  sent_from_root folders looked = elim (Bool-cases (is_true looked.0)) [
    | inl e ↦ rw (from_root, e) (sent_walk folders "" looked.0 "" looked.1)
    | inr e ↦ rw (from_root, e) (omega arith)
  ]

  -- Creating the folders of a path sends at most one request for the root and six for each folder.
  pub ensure_structure-requests :
      (full_key : String) (folders : List String) (y : Y)
      → folders_of full_key ≡ ok folders
      → (ensure_structure (counted h) c full_key (y, 0)).1.1 ≤ 1 + 6 * length folders
  unfolding ensure_structure
  ensure_structure-requests full_key [] y e = rw e (omega arith)
  ensure_structure-requests full_key (folder ∷ folders) y e =
      let looked = get_id_by_path (counted h) c "/" (y, 0) in
      rw e (omega (arith, sent_get_id_by_path "/" (y, 0), sent_from_root (folder ∷ folders) looked))
