-- ===== src/Web/Browse/Up.antt =====
-- Going up one level undoes going down.
use Prim.Native.Char.{Char, char, code}
use Prim.Native.String.{String, [], ◌∷◌, ◌++◌}
use mathlib.Core.List.{List, ◌++◌ as ◌+++◌}
use text.Mathlib.TextEquality.{Char-path}
use text.Mathlib.TextLemmas.{nil-append, cons-append, append_assoc, cons-ne-nil}
use connect_manager.Prelude.{
  ◌≡◌, refl, sym, ap, ◌∙◌, Bool, true, false, ◌&&◌, arith, str_eq, eq_iff, ==_iff, if◌then◌else◌,
  inl, inr, Bool-cases,
}
use connect_manager.Text.Format.{split_at, rstrip}
use connect_manager.Storage.{is_slash}
use connect_manager.Web.Browse.{joined_by_slash, all_but_last, with_slash, parent_prefix}

-- A name with no slash in it.
abbrev pub IsPlain : String → Type 0
IsPlain [] = Unit
IsPlain (c ∷ s) = (is_slash (code c) ≡ false) × IsPlain s

nonempty : (c : Char) (s : String) → str_eq (c ∷ s) "" ≡ false
nonempty c s = elim (Bool-cases (str_eq (c ∷ s) "")) [
  | inl e ↦ absurd (cons-ne-nil c s ((eq_iff (c ∷ s) "").0 e))
  | inr e ↦ e
]

abbrev slash : Char
slash = char 47 tt

slash-append : (s : String) → "/" ++ s ≡ slash ∷ s
slash-append s = cons-append slash "" s ∙ ap (λ t. slash ∷ t) (nil-append s)

split-cons : (q : String) → (w : String) × (ws : List String) × (split_at b'/' q ≡ List.◌∷◌ w ws)
unfolding split_at
split-cons [] = ("", List.[], refl)
split-cons (c ∷ q) = elim (Bool-cases (is_slash (code c))) [
  | inl e ↦ rw e ("", split_at b'/' q, refl)
  | inr e ↦ let (w, ws, m) = split-cons q in rw (e, m) (c ∷ w, ws, refl)
]

-- One character of the way.
rstrip-cons :
    (c : Char) (s : String)
    → ((str_eq (rstrip is_slash s) "" && is_slash (code c)) ≡ false)
    → rstrip is_slash (c ∷ s) ≡ c ∷ rstrip is_slash s
unfolding rstrip
rstrip-cons c s h = rw h refl

and-false : (b : Bool) → (b && false) ≡ false
and-false b = ground arith

append-ne : (p s : String) → str_eq s "" ≡ false → (str_eq (p ++ s) "" ≡ false)
append-ne [] s h = rw (nil-append s) h
append-ne (c ∷ p) s h = rw (cons-append c p s) (nonempty c (p ++ s))

rstrip-plain : (s : String) → IsPlain s → rstrip is_slash (s ++ "/") ≡ s
unfolding rstrip
rstrip-plain [] h = refl
rstrip-plain (c ∷ s) h = rw (cons-append c s "/") (
    rstrip-cons c (s ++ "/") (rw h.0 (and-false (str_eq (rstrip is_slash (s ++ "/")) "")))
    ∙ ap (λ t. c ∷ t) (rstrip-plain s h.1))

rstrip-append :
    (p s : String)
    → str_eq (rstrip is_slash s) "" ≡ false
    → rstrip is_slash (p ++ s) ≡ p ++ rstrip is_slash s
rstrip-append [] s h = rw (nil-append s, nil-append (rstrip is_slash s)) refl
rstrip-append (c ∷ p) s h =
    rw (cons-append c p s, cons-append c p (rstrip is_slash s))
      (rstrip-cons c (p ++ s) (rw (rstrip-append p s h, append-ne p (rstrip is_slash s) h) refl)
        ∙ ap (λ t. c ∷ t) (rstrip-append p s h))

split-plain : (s : String) → IsPlain s → split_at b'/' s ≡ List.◌∷◌ s List.[]
unfolding split_at
split-plain [] h = refl
split-plain (c ∷ s) h = rw (h.0, split-plain s h.1) refl

split-append :
    (q s : String)
    → IsPlain s
    → split_at b'/' (q ++ ("/" ++ s)) ≡ split_at b'/' q +++ List.◌∷◌ s List.[]
unfolding split_at
split-append [] s h =
    rw (nil-append ("/" ++ s), slash-append s) (ap (λ ws. List.◌∷◌ "" ws) (split-plain s h))
split-append (c ∷ q) s h =
    let (w, ws, m) = split-cons q in
    rw (cons-append c q ("/" ++ s), split-append q s h, m) (go (is_slash (code c)) w ws)
  where
    go :
        (b : Bool) (w : String) (ws : List String)
        → (if b
            then List.◌∷◌ "" (List.◌∷◌ w ws +++ List.◌∷◌ s List.[])
            else List.◌∷◌ (c ∷ w) (ws +++ List.◌∷◌ s List.[]))
          ≡ (if b then List.◌∷◌ "" (List.◌∷◌ w ws) else List.◌∷◌ (c ∷ w) ws) +++ List.◌∷◌ s List.[]
    go true w ws = refl
    go false w ws = refl

join-head :
    (c : Char) (w : String) (ws : List String)
    → joined_by_slash (List.◌∷◌ (c ∷ w) ws) ≡ c ∷ joined_by_slash (List.◌∷◌ w ws)
join-head c w List.[] = refl
join-head c w (List.◌∷◌ v vs) = cons-append c w ("/" ++ joined_by_slash (List.◌∷◌ v vs))

join-split : (q : String) → joined_by_slash (split_at b'/' q) ≡ q
unfolding split_at
join-split [] = refl
join-split (c ∷ q) =
    let (w, ws, m) = split-cons q in
    let rest : joined_by_slash (List.◌∷◌ w ws) ≡ q = ap joined_by_slash (sym m) ∙ join-split q in
    elim (Bool-cases (is_slash (code c))) [
      | inl e ↦
          let c-slash : slash ≡ c = sym (Char-path c slash ((==_iff (code c) 47).0 e)) in
          rw
            (
              e,
              m,
              nil-append ("/" ++ joined_by_slash (List.◌∷◌ w ws)),
              slash-append (joined_by_slash (List.◌∷◌ w ws)),
            )
            (ap (λ d. d ∷ joined_by_slash (List.◌∷◌ w ws)) c-slash ∙ ap (λ t. c ∷ t) rest)
      | inr e ↦ rw (e, m) (join-head c w ws ∙ ap (λ t. c ∷ t) rest)
    ]

all_but_last-append :
    (ws : List String) (s : String) → all_but_last (ws +++ List.◌∷◌ s List.[]) ≡ ws
all_but_last-append List.[] s = refl
all_but_last-append (List.◌∷◌ w List.[]) s = refl
all_but_last-append (List.◌∷◌ w (List.◌∷◌ v ws)) s =
    ap (λ vs. List.◌∷◌ w vs) (all_but_last-append (List.◌∷◌ v ws) s)

-- From a folder inside a folder, and from a folder at the top, the way up leads to where the way down
-- began: the name has no slash in it, and neither is empty.
pub parent_prefix-append :
    (q name : String)
    → str_eq q "" ≡ false
    → str_eq name "" ≡ false
    → IsPlain name
    → (parent_prefix ((q ++ "/") ++ (name ++ "/")) ≡ q ++ "/") × (parent_prefix (name ++ "/") ≡ "")
unfolding parent_prefix with_slash
parent_prefix-append q name hq hn h =
    let stripped : rstrip is_slash ((q ++ "/") ++ (name ++ "/")) ≡ q ++ ("/" ++ name) =
      rstrip-append (q ++ "/") (name ++ "/") (rw (rstrip-plain name h) hn)
      ∙ ap (λ t. (q ++ "/") ++ t) (rstrip-plain name h)
      ∙ append_assoc q "/" name in
    let slashed = append-ne name "/" refl in
    (
      rw
          (
            append-ne (q ++ "/") (name ++ "/") slashed,
            stripped,
            split-append q name h,
            all_but_last-append (split_at b'/' q) name,
            join-split q,
            hq,
          )
          refl,
      rw (slashed, rstrip-plain name h, split-plain name h) refl,
    )
