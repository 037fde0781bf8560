-- ===== src/Text/Framed.antt =====
-- Texts that stand in for what comes from outside: a number as a row of strokes, and several texts
-- framed into one.
use Prim.Native.Char.{Char, code}
use connect_manager.Prelude.{
  ℕ, zero, suc, ◌≡◌, refl, ap, String, false, List, [], ◌∷◌, Option, none, some, arith, str_eq,
  eq_iff, Bool-cases, inl, inr, ◌==◌, if◌then◌else◌,
}

-- A UUID as a row of strokes, one more than its number.
abbrev pub strokes : ℕ → String
strokes zero = "s"
strokes (suc n) = String.◌∷◌ "s" (strokes n)

abbrev pub count_strokes : String → ℕ
count_strokes String.[] = 0
count_strokes (String.◌∷◌ c s) = suc (count_strokes s)

abbrev pub read_strokes : String → Option ℕ
read_strokes String.[] = none
read_strokes (String.◌∷◌ c s) = some (count_strokes s)

pub count-strokes : (n : ℕ) → count_strokes (strokes n) ≡ suc n
count-strokes zero = refl
count-strokes (suc n) = ap suc (count-strokes n)

pub read-strokes : (n : ℕ) → read_strokes (strokes n) ≡ some n
read-strokes zero = refl
read-strokes (suc n) = ap some (count-strokes n)

pub strokes-ne : (n : ℕ) → str_eq (strokes n) "" ≡ false
strokes-ne n = elim (Bool-cases (str_eq (strokes n) "")) [
  | inl e ↦ absurd (omega (arith, count-strokes n, ap count_strokes ((eq_iff (strokes n) "").0 e)))
  | inr e ↦ e
]

-- Every character of a text is marked, and a comma ends it.
abbrev pub onto : String → String → String
onto String.[] rest = String.◌∷◌ "," rest
onto (String.◌∷◌ c t) rest = String.◌∷◌ "+" (String.◌∷◌ c (onto t rest))

abbrev pub push : Char → List String → List String
push c [] = []
push c (t ∷ ts) = String.◌∷◌ c t ∷ ts

abbrev pub texts : String → List String
texts String.[] = []
texts (String.◌∷◌ m String.[]) = "" ∷ []
texts (String.◌∷◌ m (String.◌∷◌ c s)) =
    let marked = push c (texts s) in
    let ended = "" ∷ texts (String.◌∷◌ c s) in if code m == b'+' then marked else ended

pub texts-onto : (t rest : String) → texts (onto t rest) ≡ t ∷ texts rest
texts-onto String.[] String.[] = refl
texts-onto String.[] (String.◌∷◌ c s) = refl
texts-onto (String.◌∷◌ c t) rest = ap (push c) (texts-onto t rest)
