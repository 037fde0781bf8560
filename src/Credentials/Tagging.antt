-- ===== src/Credentials/Tagging.antt =====
-- A cipher that only tags its text, and codecs for it: an instance of what `Fernet` asks for.
use Prim.Native.Nat.{Ordering, lt, eq, gt, compare}
use Prim.Native.Char.{Char, char, code, nul, IsLt, IsScalar}
use connect_manager.Prelude.{
  ℕ, ◌≡◌, refl, String, false, [], ◌∷◌, arith, str_eq, eq_iff, Bool-cases, inl, inr, length, ap,
  ◌==◌, if◌then◌else◌,
}
use connect_manager.Text.{codes}
use connect_manager.Db.Table.{Result, ok, err, key_error}
use connect_manager.Db.Rows.{Bytes}
use connect_manager.Credentials.Fernet.{Fernet}

-- `IsScalar` by its three comparisons.
abbrev BothLt : Ordering → Ordering → Type 0
BothLt lt o = IsLt o
BothLt eq o = ⊥
BothLt gt o = ⊥

abbrev Scalar : Ordering → Ordering → Ordering → Type 0
Scalar lt p q = Unit
Scalar eq p q = BothLt p q
Scalar gt p q = BothLt p q

-- A character from its number.
abbrev made : (n : ℕ) (o p q : Ordering) → (Scalar o p q → IsScalar n) → Char
made n lt p q k = char n (k tt)
made n eq lt lt k = char n (k tt)
made n gt lt lt k = char n (k tt)
made n o p q k = nul

abbrev of_code : ℕ → Char
of_code n = made n (compare n 55296) (compare 57343 n) (compare n 1114112) (λ s. s)

made_lem :
    (n : ℕ) (o p q : Ordering) (k : Scalar o p q → IsScalar n) (s : Scalar o p q)
    → made n o p q k ≡ char n (k s)
made_lem n lt p q k s = refl
made_lem n eq lt lt k s = refl
made_lem n gt lt lt k s = refl
made_lem n eq lt eq k s = elim s [ ]
made_lem n eq lt gt k s = elim s [ ]
made_lem n eq eq q k s = elim s [ ]
made_lem n eq gt q k s = elim s [ ]
made_lem n gt lt eq k s = elim s [ ]
made_lem n gt lt gt k s = elim s [ ]
made_lem n gt eq q k s = elim s [ ]
made_lem n gt gt q k s = elim s [ ]

of_code-code : (c : Char) → of_code (code c) ≡ c
of_code-code (char n s) = made_lem n _ _ _ _ s

abbrev text : Bytes → String
text [] = String.[]
text (n ∷ ns) = String.◌∷◌ (of_code n) (text ns)

pub text-codes : (s : String) → text (codes s) ≡ s
text-codes String.[] = refl
text-codes (String.◌∷◌ c s) = λ i. String.◌∷◌ (of_code-code c i) (text-codes s i)

-- A tag before the text stands for the encryption.
abbrev untag : Bytes → Result String
untag [] = err key_error
untag (n ∷ ns) = ok (text ns)

-- A pair of texts: every character of the first one is marked, and a comma ends it.
abbrev pair : String → String → String
pair String.[] b = String.◌∷◌ "," b
pair (String.◌∷◌ c a) b = String.◌∷◌ "+" (String.◌∷◌ c (pair a b))

abbrev add_first : Char → Result (String × String) → Result (String × String)
add_first c (ok (a, b)) = ok (String.◌∷◌ c a, b)
add_first c (err e) = err e

abbrev split : String → Result (String × String)
split String.[] = err key_error
split (String.◌∷◌ m String.[]) = ok ("", "")
split (String.◌∷◌ m (String.◌∷◌ c s)) =
    let rest = split s in if code m == b'+' then add_first c rest else ok ("", String.◌∷◌ c s)

pub split-pair : (a b : String) → split (pair a b) ≡ ok (a, b)
split-pair String.[] String.[] = refl
split-pair String.[] (String.◌∷◌ c b) = refl
split-pair (String.◌∷◌ c a) b = ap (add_first c) (split-pair a b)

pub tag-ne : (s : String) → str_eq (text (b'!' ∷ codes s)) "" ≡ false
tag-ne s = elim (Bool-cases (str_eq (text (b'!' ∷ codes s)) "")) [
  | inl e ↦
      absurd (omega (arith, ap (λ t. length (codes t)) ((eq_iff (text (b'!' ∷ codes s)) "").0 e)))
  | inr e ↦ e
]

abbrev pub tagging : Fernet
tagging = record {
  encrypt = λ nonce s. b'!' ∷ codes s;
  decrypt = untag;
  from_ascii = text;
  to_ascii = codes;
  dump_pair = pair;
  load_pair = split;
  decrypt-encrypt = λ nonce s. ap ok (text-codes s);
  ascii_token = λ nonce s i. b'!' ∷ codes (text-codes s i);
  token-ne = λ nonce s. tag-ne s;
  load-dump = split-pair;
}
