-- ===== src/Web/Logs.antt =====
-- app/main.py: the handlers on activity logs.
pub mod Admin
pub mod Cleared
use connect_manager.Prelude.{
  ℕ, String, Bool, true, false, ◌||◌, List, [], ◌∷◌, ◌++◌, Option, none, some, str_eq,
  if◌then◌else◌,
}
use connect_manager.Db.Table.{Result, ok, err, http_error, delete}
use connect_manager.ActivityLog.{ActivityLog, LogTable, alist_logs, acount_logs, aclear_logs}
use connect_manager.Web.{Request, World, Env, with_session}

-- What the templates of the logs get.
pub record Shown : Type 0 where
  pub logs : List ActivityLog
  pub total : ℕ
  pub limit : ℕ
  pub offset : ℕ
  pub category : String

pub data Page : Type 0 where
  logs_page : Shown → Page
  logs_tab : (active_subtab : String) → (is_admin : Bool) → Page

abbrev pub is_one_of : String → List String → Bool
is_one_of s [] = false
is_one_of s (t ∷ ts) = str_eq t s || is_one_of s ts

-- `valid_subtabs` and `valid_categories`
abbrev pub valid_categories : Request → List String
valid_categories r = "app" ∷ "jobs" ∷ "sqs" ∷ (if r.is_admin then "admin" ∷ [] else [])

module _ (e : Env) where
  unfoldable pub tab_logs : String → Request → World → Result Page × World
  unfolding with_session
  tab_logs subtab r w =
      with_session e r
        (λ u w'. (
          ok (
              logs_tab (if is_one_of subtab (valid_categories r) then subtab else "app")
                r.is_admin),
          w',
        ))
        w

  abbrev pub shown_to_user : (stored named : String) → (limit offset : ℕ) → Request → World → Page
  shown_to_user stored named limit offset r w = logs_page (record {
    logs = alist_logs e.parse_uuid (some stored) r.user_id limit offset false w.logs;
    total = acount_logs e.parse_uuid (some stored) r.user_id false w.logs;
    limit = limit;
    offset = offset;
    category = named;
  })

  -- `logs_app`, `logs_jobs` and `logs_sqs`, which differ in the category of the rows and its name.
  unfoldable pub user_logs :
      (stored named : String) → (limit offset : ℕ) → Request → World → Result Page × World
  unfolding with_session alist_logs acount_logs
  user_logs stored named limit offset r w =
      with_session e r (λ u w'. (ok (shown_to_user stored named limit offset r w'), w')) w

  abbrev pub logs_app : (limit offset : ℕ) → Request → World → Result Page × World
  logs_app limit offset r w = user_logs "app" "app" limit offset r w

  abbrev pub logs_jobs : (limit offset : ℕ) → Request → World → Result Page × World
  logs_jobs limit offset r w = user_logs "job" "jobs" limit offset r w

  abbrev pub logs_sqs : (limit offset : ℕ) → Request → World → Result Page × World
  logs_sqs limit offset r w = user_logs "sqs" "sqs" limit offset r w

  abbrev pub shown_to_admin : (limit offset : ℕ) → World → Page
  shown_to_admin limit offset w = logs_page (record {
    logs = alist_logs e.parse_uuid (some "admin") none limit offset true w.logs;
    total = acount_logs e.parse_uuid (some "admin") none true w.logs;
    limit = limit;
    offset = offset;
    category = "admin";
  })

  unfoldable pub logs_admin : (limit offset : ℕ) → Request → World → Result Page × World
  unfolding with_session alist_logs acount_logs
  logs_admin limit offset r w =
      with_session e r
        (λ u w'. elim r.is_admin [
          | false ↦ (err (http_error 403 "Admin access required"), w')
          | true ↦ (ok (shown_to_admin limit offset w'), w')
        ])
        w

  abbrev pub stored_category : String → String
  stored_category category = if str_eq category "jobs" then "job" else category

  abbrev pub emptied : String → Page
  emptied category =
      logs_page (record { logs = []; total = 0; limit = 100; offset = 0; category = category })

  -- The DELETE of the administrators' tab, whatever the user.
  unfoldable pub delete_category : String → LogTable → LogTable
  delete_category category t = record t {
    rows = delete (λ row. str_eq row.entry.category category) t.rows;
  }

  unfoldable pub cleared_logs : String → Request → LogTable → Result LogTable
  unfolding aclear_logs delete_category
  cleared_logs category r t = elim (is_one_of category (valid_categories r)) [
    | false ↦ err (http_error 400 "Invalid category")
    | true ↦ elim (str_eq category "admin") [
      | false ↦ ok (aclear_logs e.parse_uuid (some (stored_category category)) r.user_id t).0
      | true ↦ elim r.is_admin [
        | false ↦ err (http_error 403 "Admin access required")
        | true ↦ ok (delete_category (stored_category category) t)
      ]
    ]
  ]

  abbrev pub after_clear : String → World → Result LogTable → Result Page × World
  after_clear category w (err x) = (err x, w)
  after_clear category w (ok t) = (ok (emptied category), record w { logs = t })

  unfoldable pub clear_logs_category : String → Request → World → Result Page × World
  unfolding with_session cleared_logs
  clear_logs_category category r w =
      with_session e r (λ u w'. after_clear category w' (cleared_logs category r w'.logs)) w
