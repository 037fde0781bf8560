-- ===== src/Text/Format.antt =====
-- More text operations: a number in decimal, slices from the start, splitting at a character,
-- stripping, and removing every occurrence of a word.
use Prim.Native.Char.{Char, code}
use Prim.Native.String
use Prim.Native.String.{String, [], ◌∷◌, char_at}
use mathlib.Core.List.{List}
use connect_manager.Prelude.{
  ℕ, zero, suc, ◌-◌, ◌/◌, ◌%◌, ◌≡◌, refl, Bool, true, false, ◌&&◌, ◌||◌, Option, none, some, str_eq,
  leb, ltb, ◌==◌, if◌then◌else◌,
}

infixr 60 ◌<>◌
abbrev pub ◌<>◌ : String → String → String
a <> b = String.◌++◌ a b

-- The digits of a number before the text; the fuel bounds their number.
unfoldable pub shown_onto : ℕ → ℕ → String → String
shown_onto zero n rest = rest
shown_onto (suc fuel) n rest =
    let rest' = char_at "0123456789" (n % 10) ∷ rest in
    let more = shown_onto fuel (n / 10) rest' in if ltb n 10 then rest' else more

-- `str(n)`.
unfoldable pub shown : ℕ → String
unfolding shown_onto
shown n = shown_onto (suc n) n ""

-- `text[:n]`.
unfoldable pub clipped : ℕ → String → String
clipped zero s = ""
clipped (suc n) [] = ""
clipped (suc n) (c ∷ s) = c ∷ clipped n s

-- `text[n:]`.
unfoldable pub skipped : ℕ → String → String
skipped zero s = s
skipped (suc n) [] = ""
skipped (suc n) (c ∷ s) = skipped n s

abbrev pub onto_head : Char → List String → List String
onto_head c List.[] = List.◌∷◌ (c ∷ []) List.[]
onto_head c (List.◌∷◌ w ws) = List.◌∷◌ (c ∷ w) ws

-- `text.split(sep)` at one character.
unfoldable pub split_at : ℕ → String → List String
split_at sep [] = List.◌∷◌ "" List.[]
split_at sep (c ∷ s) =
    let rest = split_at sep s in if code c == sep then List.◌∷◌ "" rest else onto_head c rest

-- The text after a prefix that it has.
unfoldable pub after_prefix : String → String → Option String
after_prefix [] s = some s
after_prefix (p ∷ ps) [] = none
after_prefix (p ∷ ps) (c ∷ s) =
    let rest = after_prefix ps s in if code p == code c then rest else none

abbrev pub begins_with : String → String → Bool
begins_with s prefix = elim (after_prefix prefix s) [ none ↦ false | some r ↦ true ]

-- `text or default`.
abbrev pub text_or_default : String → String → String
text_or_default s default = if str_eq s "" then default else s

-- `text.replace(word, "")`: `skip` characters of an occurrence are still to be dropped.
unfoldable pub remove_from : String → ℕ → String → String
unfolding after_prefix
remove_from word skip [] = ""
remove_from word (suc skip) (c ∷ s) = remove_from word skip s
remove_from word zero (c ∷ s) =
    let hit = remove_from word (String.count word - 1) s in
    let miss = c ∷ remove_from word 0 s in if begins_with (c ∷ s) word then hit else miss

unfoldable pub lstrip : (ℕ → Bool) → String → String
lstrip p [] = ""
lstrip p (c ∷ s) = let rest = lstrip p s in if p (code c) then rest else c ∷ s

unfoldable pub rstrip : (ℕ → Bool) → String → String
rstrip p [] = ""
rstrip p (c ∷ s) = let rest = rstrip p s in if str_eq rest "" && p (code c) then "" else c ∷ rest

-- `text.strip(chars)`.
unfoldable pub strip : (ℕ → Bool) → String → String
unfolding lstrip rstrip
strip p s = rstrip p (lstrip p s)

-- The characters that `str.strip()` takes for white space.
abbrev pub is_space : ℕ → Bool
is_space c =
    (leb 9 c && leb c 13)
    || (leb 28 c && leb c 32)
    || c == 133
    || c == 160
    || c == 5760
    || (leb 8192 c && leb c 8202)
    || c == 8232
    || c == 8233
    || c == 8239
    || c == 8287
    || c == 12288

tests :
    (shown 0 ≡ "0")
    × (shown 1203 ≡ "1203")
    × (strip is_space " a b\n" ≡ "a b")
    × (remove_from "Bearer " 0 "Bearer xBearer y" ≡ "xy")
    × (clipped 2 "abc" ≡ "ab")
    × (split_at b'/' "a/b/" ≡ List.◌∷◌ "a" (List.◌∷◌ "b" (List.◌∷◌ "" List.[])))
unfolding shown strip remove_from clipped split_at
tests = (refl, refl, refl, refl, refl, refl)
