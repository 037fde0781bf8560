-- ===== src/Db/Table.antt =====
-- A table is the list of its rows, oldest first, and a statement of app/db/repositories is a
-- function on it: SELECT, UPDATE and DELETE with a WHERE clause, their row counts, and
-- `scalar_one_or_none` of a result.
pub mod Laws
pub mod Keyed
use connect_manager.Prelude.{
  ℕ, zero, suc, String, Bool, true, false, ◌&&◌, List, [], ◌∷◌, ◌++◌, Option, none, some, ◌==◌,
  if◌then◌else◌,
}

-- The exceptions which the modelled code raises or lets through.
pub data Fault : Type 0 where
  multiple_results : Fault
  integrity_error : Fault
  bad_uuid : Fault
  missing_sessionmaker : Fault
  assertion_failed : Fault
  type_error : Fault
  attribute_error : Fault
  data_error : Fault
  index_error : Fault
  sqs_error : (message : String) → Fault
  notification_error : (message : String) → Fault
  boto_error : Fault
  invalid_token : Fault
  key_error : Fault
  missing_token : Fault
  missing_datastore : Fault
  list_failed : String → Fault
  value_error : (message : String) → Fault
  http_error : (status_code : ℕ) → (detail : String) → Fault

-- What a call returns, or the exception that it raises.
pub data Result {ℓ} (A : Type ℓ) : Type ℓ where
  err : Fault → Result A
  ok : A → Result A

-- The rest of a function body after a call that may raise.
module _ {ℓ κ} {A : Type ℓ} {B : Type κ} where
  infixl 5 ◌>>=◌
  abbrev pub ◌>>=◌ : Result A → (A → Result B) → Result B
  err fault >>= rest = err fault
  ok value >>= rest = rest value

module _ {ℓ} {A : Type ℓ} where
  unfoldable pub select : (A → Bool) → List A → List A
  select p [] = []
  select p (r ∷ rs) = let rest = select p rs in if p r then r ∷ rest else rest

  unfoldable pub update : (A → Bool) → (A → A) → List A → List A
  update p f [] = []
  update p f (r ∷ rs) = (if p r then f r else r) ∷ update p f rs

  unfoldable pub delete : (A → Bool) → List A → List A
  delete p [] = []
  delete p (r ∷ rs) = let rest = delete p rs in if p r then rest else r ∷ rest

  -- `rowcount` of an UPDATE or DELETE, and `count(*)` of a SELECT.
  unfoldable pub count : (A → Bool) → List A → ℕ
  count p [] = 0
  count p (r ∷ rs) = let n = count p rs in if p r then suc n else n

  abbrev pub insert : A → List A → List A
  insert r rs = rs ++ r ∷ []

  -- `result.scalar_one_or_none()`: more than one row raises.
  abbrev pub one_or_none : List A → Result (Option A)
  one_or_none [] = ok none
  one_or_none (r ∷ []) = ok (some r)
  one_or_none (r ∷ s ∷ rs) = err multiple_results

-- `column IS NULL` for None and `column = value` otherwise, as every user-scoped statement has it.
-- A NULL column equals no value.
abbrev pub owned_by : Option ℕ → Option ℕ → Bool
owned_by none none = true
owned_by none (some v) = false
owned_by (some u) none = false
owned_by (some u) (some v) = v == u
