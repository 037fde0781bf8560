-- ===== src/Auth/Accounts/Changes.antt =====
-- What `change_password` does where it succeeds and where it fails.
use connect_manager.Prelude.{
  ℕ, ◌≡◌, refl, String, Bool, true, false, List, Option, none, some, arith,
}
use connect_manager.Db.Repository
use connect_manager.Db.Rows.{Uuid, User}
use connect_manager.Auth.Password.{validate_password_strength}
use connect_manager.Auth.Accounts.{
  AuthDb, Outside, user_id_of, change_found, change_password, update_password,
  revoke_all_user_sessions, change_user_role, role_changed,
}

module _ (outside : Outside) (salt : ℕ) (user_id : Uuid) (old new : String) (db : AuthDb) where
  pub record Changed (after : AuthDb) : Type 0 where
    pub user : User
    pub found : Repository.get user_id_of user_id db.users ≡ some user
    pub verified : outside.verify old user.password_hash ≡ true
    pub strong : (validate_password_strength outside.is_decimal new).0 ≡ true
    pub state :
        after
        ≡ (revoke_all_user_sessions user_id
            (update_password user_id (outside.hash salt new) db).0).0

  change_found_cases :
      (u : Option User)
      → Repository.get user_id_of user_id db.users ≡ u
      → (change_found outside salt user_id old new db u).1.0 ≡ true
      → Changed (change_found outside salt user_id old new db u).0
  unfolding change_found
  change_found_cases none e h = absurd (cc)
  change_found_cases (some u) e h = record {
    user = u;
    found = e;
    verified = ground arith;
    strong = ground arith;
    state = ground arith;
  }

  -- A change that reports success is what `Changed` says: the user exists and gave the old password,
  -- the new one is strong, and the state has the new hash and no live session of the user.
  pub change_password_done :
      (change_password outside salt user_id old new db).1.0 ≡ true
      → Changed (change_password outside salt user_id old new db).0
  unfolding change_password
  change_password_done h = change_found_cases _ refl h

  change_found_refused :
      (u : Option User)
      → (change_found outside salt user_id old new db u).1.0 ≡ false
      → (change_found outside salt user_id old new db u).0 ≡ db
  unfolding change_found
  change_found_refused none h = refl
  change_found_refused (some u) h = ground arith

  -- A refused change leaves users and sessions as they were.
  change_password_refused :
      (change_password outside salt user_id old new db).1.0 ≡ false
      → (change_password outside salt user_id old new db).0 ≡ db
  unfolding change_password
  change_password_refused h = change_found_refused _ h

role_changed_done :
    (user_id : Uuid) (db : AuthDb) (r : List User × Option User)
    → (role_changed user_id db r).1.0 ≡ true
    → (role_changed user_id db r).0
      ≡ (revoke_all_user_sessions user_id (record db { users = r.0 })).0
unfolding role_changed
role_changed_done user_id db (users, none) h = absurd (cc)
role_changed_done user_id db (users, some u) h = refl

pub change_user_role_done :
    (user_id : Uuid) (is_admin : Bool) (db : AuthDb)
    → (change_user_role user_id is_admin db).1.0 ≡ true
    → (users : List User) × ((change_user_role user_id is_admin db).0
        ≡ (revoke_all_user_sessions user_id (record db { users = users })).0)
unfolding change_user_role
change_user_role_done user_id is_admin db h = (_, role_changed_done user_id db _ h)
