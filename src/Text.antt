-- ===== src/Text.antt =====
-- The text operations of Python that the modelled code uses: `in` and `lower` on ASCII words,
-- `os.path.dirname`, joining with "/", and sorting by `len`.
pub mod Format
pub mod Framed
use Prim.Native.Char.{code}
use Prim.Native.String
use Prim.Native.String.{String, [], ◌∷◌, count}
use mathlib.Core.List.{List}
use connect_manager.Prelude.{
  ℕ, ◌+◌, Bool, true, false, ◌&&◌, ◌||◌, Option, none, some, str_eq, leb, ◌==◌, if◌then◌else◌,
}

abbrev pub codes : String → List ℕ
codes [] = List.[]
codes (c ∷ s) = List.◌∷◌ (code c) (codes s)

unfoldable pub lower : List ℕ → List ℕ
lower List.[] = List.[]
lower (List.◌∷◌ c s) = List.◌∷◌ (if leb b'A' c && leb c b'Z' then c + 32 else c) (lower s)

unfoldable pub has_prefix : List ℕ → List ℕ → Bool
has_prefix List.[] s = true
has_prefix (List.◌∷◌ c p) List.[] = false
has_prefix (List.◌∷◌ c p) (List.◌∷◌ d s) = c == d && has_prefix p s

-- `word in text`.
unfoldable pub contains : List ℕ → List ℕ → Bool
unfolding has_prefix
contains word List.[] = has_prefix word List.[]
contains word (List.◌∷◌ c s) = has_prefix word (List.◌∷◌ c s) || contains word s

-- The text up to and including its last slash.
head_of : String → Option String
head_of [] = none
head_of (c ∷ s) = elim (head_of s) [
  | some h ↦ some (c ∷ h)
  | none ↦ if code c == b'/' then some (c ∷ []) else none
]

rstrip_slash : String → String
rstrip_slash [] = []
rstrip_slash (c ∷ s) =
    let rest = rstrip_slash s in if str_eq rest "" && code c == b'/' then [] else c ∷ rest

abbrev stripped_head : Option String → String
stripped_head none = ""
stripped_head (some h) = let r = rstrip_slash h in if str_eq r "" then h else r

unfoldable pub dirname : String → String
unfolding head_of rstrip_slash
dirname path = stripped_head (head_of path)

abbrev pub joined : String → String → String
joined a b = String.◌++◌ a (String.◌++◌ "/" b)

-- `set.add`, in order of insertion.
unfoldable pub add_to_set : List String → String → List String
add_to_set List.[] s = List.◌∷◌ s List.[]
add_to_set (List.◌∷◌ t ts) s = if str_eq t s then List.◌∷◌ t ts else List.◌∷◌ t (add_to_set ts s)

place_by_len : String → List String → List String
place_by_len s List.[] = List.◌∷◌ s List.[]
place_by_len s (List.◌∷◌ t ts) =
    if leb (count s) (count t) then List.◌∷◌ s (List.◌∷◌ t ts) else List.◌∷◌ t (place_by_len s ts)

-- `sorted(texts, key=len)`.
unfoldable pub sorted_by_len : List String → List String
unfolding place_by_len
sorted_by_len List.[] = List.[]
sorted_by_len (List.◌∷◌ s ss) = place_by_len s (sorted_by_len ss)
