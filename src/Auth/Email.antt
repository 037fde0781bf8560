-- ===== src/Auth/Email.antt =====
-- The address pattern of `register_user`, `^[a-zA-Z0-9_.+-]+@[a-zA-Z0-9-]+\.[a-zA-Z0-9-.]+$`, and
-- the allowed domain. `$` also matches before a last newline.
use mathlib.Core.List.{reverse}
use connect_manager.Prelude.{
  ℕ, ◌≡◌, refl, String, Bool, true, false, ◌&&◌, ◌||◌, List, [], ◌∷◌, Option, none, some, leb, ◌==◌,
  str_eq, if◌then◌else◌,
}
use connect_manager.Text.{codes, lower, has_prefix}

abbrev is_alphanumeric : ℕ → Bool
is_alphanumeric c =
    (leb b'a' c && leb c b'z') || (leb b'A' c && leb c b'Z') || (leb b'0' c && leb c b'9')

abbrev is_local : ℕ → Bool
is_local c = is_alphanumeric c || c == b'_' || c == b'.' || c == b'+' || c == b'-'

abbrev is_label : ℕ → Bool
is_label c = is_alphanumeric c || c == b'-'

abbrev is_domain : ℕ → Bool
is_domain c = is_label c || c == b'.'

-- `[a-zA-Z0-9-.]*$`; the state tells whether a character has been read.
unfoldable pub match_domain : Bool → List ℕ → Bool
match_domain some_read [] = some_read
match_domain some_read (c ∷ []) = is_domain c || (some_read && c == 10)
match_domain some_read (c ∷ d ∷ s) = is_domain c && match_domain true (d ∷ s)

-- `[a-zA-Z0-9-]*\.` and the rest.
unfoldable pub match_label : Bool → List ℕ → Bool
unfolding match_domain
match_label some_read [] = false
match_label some_read (c ∷ s) =
    let more = match_label true s in
    if c == b'.' then some_read && match_domain false s else is_label c && more

-- `[a-zA-Z0-9_.+-]*@` and the rest.
unfoldable pub match_local : Bool → List ℕ → Bool
unfolding match_label
match_local some_read [] = false
match_local some_read (c ∷ s) =
    let more = match_local true s in
    if c == b'@' then some_read && match_label false s else is_local c && more

unfoldable pub is_address : String → Bool
unfolding match_local
is_address email = match_local false (codes email)

-- `text.endswith(suffix)`.
unfoldable pub has_suffix : List ℕ → List ℕ → Bool
unfolding has_prefix
has_suffix suffix s = has_prefix (reverse suffix) (reverse s)

unfoldable pub domain_allowed : Option String → String → Bool
unfolding has_suffix lower
domain_allowed none email = true
domain_allowed (some domain) email =
    if str_eq domain ""
    then true
    else has_suffix (b'@' ∷ lower (codes domain)) (lower (codes email))

-- A last newline gets through the pattern.
newline_passes : is_address "a@b.c\n" ≡ true
unfolding is_address
newline_passes = refl

plain_tests : (is_address "me+x@host.example.com" ≡ true) × (is_address "me@host" ≡ false)
unfolding is_address
plain_tests = (refl, refl)
