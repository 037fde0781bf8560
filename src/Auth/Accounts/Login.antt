-- ===== src/Auth/Accounts/Login.antt =====
-- Registration and login against one another.
use connect_manager.Prelude.{
  ℕ, ◌≤◌, ◌≡◌, refl, ap, sym, ◌∙◌, String, Bool, true, List, [], ◌∷◌, Option, none, some, arith,
  if◌then◌else◌, str_eq, eq_refl,
}
use connect_manager.Db.Table.{Result, ok, err, select, count, insert, one_or_none}
use connect_manager.Db.Table.Laws.{>>=-eq-ok, count-append}
use connect_manager.Db.Repository.Laws.{get-update_self, get-insert}
use connect_manager.Db.Repository
use connect_manager.Db.Rows.{Uuid, Time, User}
use connect_manager.Auth.Accounts.{
  AuthDb, Outside, user_id_of, get_by_email, create_user, created, register_new, register_user,
  authenticate_user, login, update_last_login,
}

select_of_count : (p : User → Bool) (us : List User) → count p us ≡ 0 → select p us ≡ []
unfolding select count
select_of_count p [] h = refl
select_of_count p (u ∷ us) h = ground (arith, select_of_count p us)

select-insert_only :
    (p : User → Bool) (u : User) (us : List User)
    → count p us ≡ 0
    → p u ≡ true
    → select p (insert u us) ≡ u ∷ []
unfolding select count
select-insert_only p u [] h e = rw e refl
select-insert_only p u (v ∷ us) h e = ground (arith, select-insert_only p u us, e)

-- Emails are unique: no read by email finds two rows.
abbrev pub HasUniqueEmails : AuthDb → Type 0
HasUniqueEmails db = (email : String) → count (λ u. str_eq u.email email) db.users ≤ 1

abbrev new_user : Uuid → Time → String → String → Option String → Bool → User
new_user id now email hash display_name is_admin = record {
  id = id;
  email = email;
  password_hash = hash;
  display_name = display_name;
  is_admin = is_admin;
  created_at = now;
  last_login = none;
}

count_one : (p : User → Bool) (u : User) → count p (u ∷ []) ≡ (if p u then 1 else 0)
unfolding count
count_one p u = ground arith

create_user_inv :
    (id : Uuid) (now : Time) (email hash : String) (display_name : Option String) (is_admin : Bool)
    (db db' : AuthDb) (u : User)
    → create_user id now email hash display_name is_admin db ≡ ok (db', u)
    → (count (λ v. str_eq v.email email) db.users ≡ 0)
      × (u ≡ new_user id now email hash display_name is_admin)
      × (db' ≡ record db {
        users = insert (new_user id now email hash display_name is_admin) db.users;
      })
unfolding create_user
create_user_inv id now email hash display_name is_admin db db' u h = ground arith

-- What a registration that returned a user did.
module _ (outside : Outside) (allowed : Option String) (id : Uuid) (now : Time) (salt : ℕ)
    (email password : String) (display_name : Option String) (is_admin : Bool) (db db' : AuthDb)
    (u : User) (message : String) where
  abbrev row : User
  row = new_user id now email (outside.hash salt password) display_name is_admin

  abbrev Registered : Type 0
  Registered =
      (count (λ v. str_eq v.email email) db.users ≡ 0)
      × (u ≡ row)
      × (db' ≡ record db { users = insert row db.users })

  created_inv :
      (r : Result (AuthDb × User))
      → r ≡ create_user id now email (outside.hash salt password) display_name is_admin db
      → created outside db r ≡ (db', (some u, message))
      → Registered
  unfolding created
  created_inv (ok (d, v)) e h =
      let same : d ≡ db' = cc in
      let user : v ≡ u = cc in
      create_user_inv id now email _ display_name is_admin db db' u
        (sym e ∙ (λ i. ok (same i, user i)))
  created_inv (err f) e h = absurd (cc)

  register_new_inv :
      (existing : Option User)
      → register_new outside id now salt email password display_name is_admin db existing
        ≡ (db', (some u, message))
      → Registered
  unfolding register_new
  register_new_inv (some v) h = absurd (cc)
  register_new_inv none h = created_inv _ refl h

  register_user_inv :
      register_user outside allowed id now salt email password display_name is_admin db
        ≡ ok (db', (some u, message))
      → Registered
  unfolding register_user
  register_user_inv h =
      let (existing, _, made) =
        >>=-eq-ok (get_by_email email db)
          (λ e. ok (register_new outside id now salt email password display_name is_admin db e))
          {final = (db', (some u, message))} (ground arith) in
      register_new_inv existing (cc)

  abbrev logged_in : Time → User
  logged_in later = record row { last_login = some later }

  abbrev with_row : AuthDb
  with_row = record db { users = insert row db.users }

  read_row :
      count (λ v. str_eq v.email email) db.users ≡ 0 → get_by_email email with_row ≡ ok (some row)
  unfolding get_by_email
  read_row free =
      ap one_or_none
        (select-insert_only (λ v. str_eq v.email email) row db.users free (eq_refl email))

  login_row :
      (later : Time)
      → outside.verify password (outside.hash salt password) ≡ true
      → Repository.get user_id_of id db.users ≡ none
      → login outside later password with_row (some row)
        ≡ (update_last_login later id with_row, (some (logged_in later), ""))
  unfolding login update_last_login
  login_row later verifies fresh = rw verifies (
      ap (λ (o : Option User). (update_last_login later id with_row, (o, "")))
        (get-update_self user_id_of id (λ v. record v { last_login = some later }) (λ v. refl)
          (insert row db.users) (get-insert user_id_of row db.users fresh)))

  authenticate_row :
      (later : Time)
      → outside.verify password (outside.hash salt password) ≡ true
      → Repository.get user_id_of id db.users ≡ none
      → count (λ v. str_eq v.email email) db.users ≡ 0
      → (authenticate_user outside later email password with_row
          ≡ ok (update_last_login later id with_row, (some (logged_in later), "")))
        × (count (λ v. str_eq v.email email) with_row.users ≡ 1)
  unfolding authenticate_user
  authenticate_row later verifies fresh free = (
    rw (read_row free) (ap ok (login_row later verifies fresh)),
    count-append (λ v. str_eq v.email email) db.users (row ∷ [])
        ∙ rw (free, count_one (λ v. str_eq v.email email) row, eq_refl email) refl,
  )

  -- Whoever has just registered, under an id that was free and with a hash that verifies, logs in
  -- with the same email and password, as that user, and the login time is recorded; and the email
  -- names one user only.
  pub authenticate-register :
      (later : Time)
      → outside.verify password (outside.hash salt password) ≡ true
      → Repository.get user_id_of id db.users ≡ none
      → register_user outside allowed id now salt email password display_name is_admin db
        ≡ ok (db', (some u, message))
      → (authenticate_user outside later email password db'
          ≡ ok (update_last_login later id db', (some (record u { last_login = some later }), "")))
        × (count (λ v. str_eq v.email email) db'.users ≡ 1)
  authenticate-register later verifies fresh h =
      let (free, user, state) = register_user_inv h in
      rw (state, user) (authenticate_row later verifies fresh free)
