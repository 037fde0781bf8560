-- ===== src/Auth/Password.antt =====
-- `validate_password_strength`: the length and three kinds of character.
use connect_manager.Prelude.{
  ℕ, ◌≤◌, ◌≡◌, ◌↔◌, String, Bool, true, false, not, ◌&&◌, ◌||◌, List, [], ◌∷◌, arith, length, ltb,
  leb, if◌then◌else◌,
}
use connect_manager.Text.{codes}

-- `re.search` of a one-character class.
abbrev pub any : (ℕ → Bool) → List ℕ → Bool
any p [] = false
any p (c ∷ s) = p c || any p s

abbrev pub is_upper : ℕ → Bool
is_upper c = leb b'A' c && leb c b'Z'

abbrev pub is_lower : ℕ → Bool
is_lower c = leb b'a' c && leb c b'z'

-- `is_decimal` is the class `\d` of Python's `re`, the decimal digits of Unicode.
module _ (is_decimal : ℕ → Bool) where
  unfoldable pub validate_password_strength : String → Bool × String
  validate_password_strength password =
      let s = codes password in
      if ltb (length s) 8
      then (false, "Password must be at least 8 characters")
      else if not (any is_upper s)
      then (false, "Password must contain at least one uppercase letter")
      else if not (any is_lower s)
      then (false, "Password must contain at least one lowercase letter")
      else if not (any is_decimal s)
      then (false, "Password must contain at least one digit")
      else (true, "")

  -- A password passes exactly when it is long enough and holds a character of each kind.
  validate_password_strength_iff :
      (password : String)
      → (validate_password_strength password).0 ≡ true
        ↔ (8 ≤ length (codes password))
          × (any is_upper (codes password) ≡ true)
          × (any is_lower (codes password) ≡ true)
          × (any is_decimal (codes password) ≡ true)
  unfolding validate_password_strength
  validate_password_strength_iff password = ground arith
