-- ===== src/Notifications/Values.antt =====
-- The values that `json.loads` gives, and what the code does with them: an operation that a value
-- does not have raises.
use connect_manager.Prelude.{
  ℕ, String, Bool, false, List, [], ◌∷◌, Option, none, some, str_eq, if◌then◌else◌,
}
use connect_manager.Db.Table.{Result, ok, err, type_error, attribute_error}

-- `other_num` is a number that is no natural one, by its text.
mutual
  pub data Json : Type 0 where
    null : Json
    bool : Bool → Json
    num : ℕ → Json
    other_num : String → Json
    str : String → Json
    arr : Items → Json
    obj : Fields → Json

  pub data Items : Type 0 where
    end : Items
    item : Json → Items → Items

  pub data Fields : Type 0 where
    nil : Fields
    field : String → Json → Fields → Fields

-- A dict keeps the last value of a key that is given twice.
unfoldable pub find : String → Fields → Option Json
find key nil = none
find key (field k v fs) = elim (find key fs) [
  | some w ↦ some w
  | none ↦ if str_eq k key then some v else none
]

abbrev pub default_to : Json → Option Json → Json
default_to d none = d
default_to d (some v) = v

-- `value.get(key, default)`.
unfoldable pub get : Json → String → Json → Result Json
unfolding find
get (obj fs) key default = ok (default_to default (find key fs))
get null key default = err attribute_error
get (bool b) key default = err attribute_error
get (num n) key default = err attribute_error
get (other_num s) key default = err attribute_error
get (str s) key default = err attribute_error
get (arr xs) key default = err attribute_error

abbrev pub is_text : Json → String → Bool
is_text (str s) t = str_eq s t
is_text null t = false
is_text (bool b) t = false
is_text (num n) t = false
is_text (other_num s) t = false
is_text (arr xs) t = false
is_text (obj fs) t = false

-- What a call that wants a text makes of a value.
abbrev pub text_of : Json → Result String
text_of (str s) = ok s
text_of null = err type_error
text_of (bool b) = err type_error
text_of (num n) = err type_error
text_of (other_num s) = err type_error
text_of (arr xs) = err type_error
text_of (obj fs) = err type_error

abbrev pub items : Items → List Json
items end = []
items (item v xs) = v ∷ items xs

abbrev pub keys_of : Fields → List Json
keys_of nil = []
keys_of (field k v fs) = str k ∷ keys_of fs

-- What `for x in value` runs over: the characters of a text are texts, of which only their number
-- matters to the code.
abbrev pub iterated : Json → Result (List Json)
iterated (arr xs) = ok (items xs)
iterated (obj fs) = ok (keys_of fs)
iterated (str s) = if str_eq s "" then ok [] else ok (str s ∷ [])
iterated null = err type_error
iterated (bool b) = err type_error
iterated (num n) = err type_error
iterated (other_num s) = err type_error
