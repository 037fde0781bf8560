-- ===== src/LucidLink/Folders.antt =====
-- `ensure_structure`: every folder of a path is resolved or created, with up to three attempts. The
-- pauses between the attempts are left out.
use Prim.Native.Char.{code}
use Prim.Native.String.{◌++◌}
use connect_manager.Prelude.{
  ℕ, zero, suc, String, Bool, true, false, List, [], ◌∷◌, Option, none, some, str_eq, ◌==◌,
  if◌then◌else◌,
}
use connect_manager.Text.Format.{split_at, text_or_default}
use connect_manager.Db.Table.{Result, ok, err, index_error, ◌>>=◌}
use connect_manager.Notifications.Values.{Json, is_text}
use connect_manager.LucidLink.{Http, Client, get_id_by_path, create_folder, is_true}

-- The texts of a list that are not empty.
abbrev pub nonempty : List String → List String
nonempty [] = []
nonempty (w ∷ ws) = let rest = nonempty ws in if str_eq w "" then rest else w ∷ rest

abbrev pub ends_with_slash : String → Bool
ends_with_slash String.[] = false
ends_with_slash (String.◌∷◌ c String.[]) = code c == b'/'
ends_with_slash (String.◌∷◌ c (String.◌∷◌ d s)) = ends_with_slash (String.◌∷◌ d s)

-- `parts.pop()` raises for the empty list.
abbrev pub popped : List String → Result (List String)
popped [] = err index_error
popped (w ∷ []) = ok []
popped (w ∷ v ∷ ws) = let rest = popped (v ∷ ws) in rest >>= λ vs. ok (w ∷ vs)

unfoldable pub folders_of : String → Result (List String)
unfolding split_at
folders_of full_key =
    let parts = nonempty (split_at b'/' full_key) in
    if ends_with_slash full_key then ok parts else popped parts

-- What one attempt comes to.
pub data Attempt : Type 0 where
  reached : (id : Json) → Attempt
  conflict : Attempt
  refused : (error : String) → Attempt

abbrev pub judged : String → Json × String → Attempt
judged folder (nid, error) =
    if is_text nid "CONFLICT"
    then conflict
    else if is_true nid
    then reached nid
    else refused (text_or_default error ("Failed to create folder: " ++ folder))

module _ {Y : Type 0} (h : Http Y) (c : Client) where
  unfoldable pub attempt : String → String → Json → Y → Attempt × Y
  attempt check_path folder curr_id y =
      let (eid, y') = get_id_by_path h c check_path y in
      elim (is_true eid) [
        | true ↦ (reached eid, y')
        | false ↦ let (made, y'') = create_folder h c folder curr_id y' in (judged folder made, y'')
      ]

  -- The id that was reached, if any, and the last error.
  unfoldable pub attempts : ℕ → String → String → Json → String → Y → (Option Json × String) × Y
  unfolding attempt
  attempts zero check_path folder curr_id last_error y = ((none, last_error), y)
  attempts (suc n) check_path folder curr_id last_error y =
      let (a, y') = attempt check_path folder curr_id y in
      elim a [
        | reached id ↦ ((some id, last_error), y')
        | conflict ↦ attempts n check_path folder curr_id last_error y'
        | refused e ↦ attempts n check_path folder curr_id e y'
      ]

  unfoldable pub walk : List String → String → Json → String → Y → (Bool × String) × Y
  unfolding attempts
  walk [] check_path curr_id last_error y = ((true, ""), y)
  walk (folder ∷ folders) check_path curr_id last_error y =
      let path = check_path ++ ("/" ++ folder) in
      let ((found, e), y') = attempts 3 path folder curr_id last_error y in
      elim found [
        | some id ↦ walk folders path id e y'
        | none ↦ ((false, "Failed to create " ++ (path ++ (": " ++ e))), y')
      ]

  abbrev pub from_root : List String → Json × Y → (Bool × String) × Y
  from_root folders (root_id, y) = elim (is_true root_id) [
    | true ↦ walk folders "" root_id "" y
    | false ↦ ((false, "Could not resolve root folder ID"), y)
  ]

  abbrev pub ensure_folders : List String → Y → (Bool × String) × Y
  ensure_folders [] y = ((true, ""), y)
  ensure_folders (folder ∷ folders) y = from_root (folder ∷ folders) (get_id_by_path h c "/" y)

  abbrev pub ensure_parsed : Result (List String) → Y → Result (Bool × String) × Y
  ensure_parsed (err e) y = (err e, y)
  ensure_parsed (ok folders) y = let (r, y') = ensure_folders folders y in (ok r, y')

  unfoldable pub ensure_structure : String → Y → Result (Bool × String) × Y
  unfolding walk folders_of
  ensure_structure full_key y = ensure_parsed (folders_of full_key) y
