-- ===== src/LucidLink/Names.antt =====
-- The names of the folders of a path are not empty.
use connect_manager.Prelude.{
  All, ◌≡◌, String, Bool, true, false, List, [], ◌∷◌, Bool-cases, inl, inr, str_eq, if◌then◌else◌,
}
use connect_manager.Text.Format.{split_at}
use connect_manager.Db.Table.Laws.{Ensures, Ensures-bind, Ensures_ok}
use connect_manager.Db.Table.{ok}
use connect_manager.LucidLink.Tree.{IsName}
use connect_manager.LucidLink.Folders.{nonempty, popped, ends_with_slash, folders_of}

nonempty-All : (ws : List String) → All IsName (nonempty ws)
nonempty-All [] = tt
nonempty-All (w ∷ ws) = elim (Bool-cases (str_eq w "")) [
  | inl e ↦ rw (nonempty, e) (nonempty-All ws)
  | inr e ↦ rw (nonempty, e) (e, nonempty-All ws)
]

popped-All : (ws : List String) → All IsName ws → Ensures (All IsName) (popped ws)
popped-All [] h = tt
popped-All (w ∷ []) h = tt
popped-All (w ∷ v ∷ ws) h =
    Ensures-bind (All IsName) (popped (v ∷ ws)) _
      λ vs e. (h.0, Ensures_ok (All IsName) (popped (v ∷ ws)) e (popped-All (v ∷ ws) h.1))

pub folders_of-All :
    (full_key : String) (folders : List String)
    → folders_of full_key ≡ ok folders
    → All IsName folders
unfolding folders_of
folders_of-All full_key folders parsed = Ensures_ok (All IsName) (folders_of full_key) parsed (
    go (ends_with_slash full_key) (nonempty (split_at b'/' full_key))
      (nonempty-All (split_at b'/' full_key)))
  where
    go :
        (b : Bool) (ws : List String)
        → All IsName ws
        → Ensures (All IsName) (if b then ok ws else popped ws)
    go true ws h = h
    go false ws h = popped-All ws h
