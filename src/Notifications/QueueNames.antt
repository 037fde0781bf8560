-- ===== src/Notifications/QueueNames.antt =====
-- Queue URLs and ARNs.
use Prim.Native.Char.{Char, code}
use Prim.Native.String.{String, [], ◌∷◌, ◌++◌}
use text.Mathlib.TextLemmas.{nil-append, cons-append}
use mathlib.Core.List.{List}
use connect_manager.Prelude.{
  ℕ, zero, suc, ◌≡◌, ◌≢◌, refl, false, not, Option, none, some, arith, str_eq, eq_iff, ◌==◌,
  if◌then◌else◌,
}
use connect_manager.Text.Format.{strip, is_space, begins_with, after_prefix, split_at}

-- `[^:]+:` and the rest: the text before the first colon, and after it.
unfoldable pub cut : ℕ → String → Option (String × String)
cut sep [] = none
cut sep (c ∷ s) =
    let later : Option (String × String) = elim (cut sep s) [
      | none ↦ none
      | some (a, b) ↦ some (c ∷ a, b)
    ] in
    if code c == sep then some ("", s) else later

-- `.+`: up to the end of the line.
unfoldable pub line_of : String → String
line_of [] = ""
line_of (c ∷ s) = let rest = line_of s in if code c == 10 then "" else c ∷ rest

abbrev pub url_of : String → String → String → String
url_of region account name =
    "https://sqs." ++ (region ++ (".amazonaws.com/" ++ (account ++ ("/" ++ name))))

unfoldable pub match_name : String → String → String → Option String
unfolding line_of
match_name region account rest =
    let name = line_of rest in if str_eq name "" then none else some (url_of region account name)

unfoldable pub match_account : String → Option (String × String) → Option String
unfolding match_name
match_account region none = none
match_account region (some (account, rest)) =
    if str_eq account "" then none else match_name region account rest

unfoldable pub match_region : Option (String × String) → Option String
unfolding match_account cut
match_region none = none
match_region (some (region, rest)) =
    if str_eq region "" then none else match_account region (cut b':' rest)

unfoldable pub match_arn : Option String → Option String
unfolding match_region cut
match_arn none = none
match_arn (some rest) = match_region (cut b':' rest)

unfoldable pub queue_url_from_arn : String → Option String
unfolding match_arn after_prefix
queue_url_from_arn arn = match_arn (after_prefix "arn:aws:sqs:" arn)

unfoldable pub normalize_queue_input : String → Option String
unfolding queue_url_from_arn strip after_prefix
normalize_queue_input input_str =
    let s = strip is_space input_str in
    if begins_with s "https://"
    then some s
    else if begins_with s "arn:aws:sqs:"
    then queue_url_from_arn s
    else none

abbrev pub last_part : List String → String
last_part List.[] = ""
last_part (List.◌∷◌ w List.[]) = w
last_part (List.◌∷◌ w (List.◌∷◌ v ws)) = last_part (List.◌∷◌ v ws)

abbrev pub part : ℕ → List String → Option String
part n List.[] = none
part zero (List.◌∷◌ w ws) = some w
part (suc n) (List.◌∷◌ w ws) = part n ws

-- The name and the region that `validate_queue_url` reads of the attributes.
unfoldable pub queue_name : String → String → String
unfolding split_at
queue_name queue_url arn =
    if not (str_eq arn "")
    then last_part (split_at b':' arn)
    else last_part (split_at b'/' queue_url)

abbrev part_or : String → Option String → String
part_or default none = default
part_or default (some w) = w

unfoldable pub queue_region : String → String → String
unfolding split_at
queue_region client_region arn = part_or client_region (part 3 (split_at b':' arn))

-- No character of the text is this one.
abbrev pub Lacks : ℕ → String → Type 0
Lacks sep [] = Unit
Lacks sep (c ∷ s) = ((code c == sep) ≡ false) × Lacks sep s

abbrev pub arn_of : String → String → String → String
arn_of region account name = "arn:aws:sqs:" ++ (region ++ (":" ∷ (account ++ (":" ∷ name))))

cut-append :
    (sep : Char) (a b : String) → Lacks (code sep) a → cut (code sep) (a ++ (sep ∷ b)) ≡ some (a, b)
unfolding cut
cut-append sep [] b h = rw (nil-append (sep ∷ b)) (ground arith)
cut-append sep (c ∷ a) b h = rw (cons-append c a (sep ∷ b), cut-append sep a b h.1, h.0) refl

line_of_lem : (s : String) → Lacks 10 s → line_of s ≡ s
unfolding line_of
line_of_lem [] h = refl
line_of_lem (c ∷ s) h = rw (h.0, line_of_lem s h.1) refl

after_prefix-append : (p s : String) → after_prefix p (p ++ s) ≡ some s
unfolding after_prefix
after_prefix-append [] s = rw (nil-append s) refl
after_prefix-append (c ∷ p) s = rw (cons-append c p s, after_prefix-append p s) (ground arith)

not_empty : (s : String) → s ≢ "" → str_eq s "" ≡ false
not_empty s h = ground (arith, eq_iff s "")

-- The ARN of a queue gives its URL back, where no part is empty, the region and the account hold no
-- colon and the name no line feed.
pub queue_url_from_arn-arn_of :
    (region account name : String)
    → region ≢ ""
    → account ≢ ""
    → name ≢ ""
    → Lacks b':' region
    → Lacks b':' account
    → Lacks 10 name
    → queue_url_from_arn (arn_of region account name) ≡ some (url_of region account name)
unfolding queue_url_from_arn
queue_url_from_arn-arn_of region account name r a n lr la ln =
    rw
      (
        after_prefix-append "arn:aws:sqs:" (region ++ (":" ∷ (account ++ (":" ∷ name)))),
        cut-append ":" region (account ++ (":" ∷ name)) lr,
        not_empty region r,
        cut-append ":" account name la,
        not_empty account a,
        line_of_lem name ln,
        not_empty name n,
      )
      refl
