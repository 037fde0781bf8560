-- ===== src/Web/Logs/Admin.antt =====
-- The administrators' entries, and requests of other users.
use connect_manager.Prelude.{
  ℕ, ◌≡◌, ◌≢◌, ◌⊎◌, refl, ◌∙◌, String, Bool, true, false, List, Option, some, arith, str_eq, eq_iff,
  inl, inr, Bool-cases,
}
use connect_manager.Db.Table.{Result, ok, err, http_error, select}
use connect_manager.Db.Table.Laws.{select-delete, Ensures}
use connect_manager.Db.Rows.{Uuid}
use connect_manager.ActivityLog.{ActivityLog, LogTable, is_shown, aclear_logs, parse_user_id}
use connect_manager.Sessions.{Dict, UserSession}
use connect_manager.Web.{Request, World, Env}
use connect_manager.Web.Keeps.{with_session-keeps, with_session_cases}
use connect_manager.Web.Logs.{
  Page, is_one_of, valid_categories, stored_category, cleared_logs, after_clear,
  clear_logs_category, logs_admin, shown_to_admin,
}

abbrev is_admin_row : ActivityLog → Bool
is_admin_row row = str_eq row.entry.category "admin"

-- The answers 401 and 403.
abbrev pub IsRefused : Result Page → Type 0
IsRefused (err (http_error n detail)) = (n ≡ 401) ⊎ (n ≡ 403)
IsRefused _ = ⊥

-- The administrators' entries in a table.
abbrev pub admin_rows : LogTable → List ActivityLog
admin_rows t = select is_admin_row t.rows

-- A category that is not the administrators' one.
apart :
    (category : String) (u : Option Uuid) (row : ActivityLog)
    → category ≢ "admin"
    → is_shown (some category) u false row ≡ true
    → is_admin_row row ≡ false
apart category u row h shown =
    ground (arith, shown, h, eq_iff row.entry.category category, eq_iff row.entry.category "admin")

admin_rows-aclear_logs :
    (parse_uuid : String → Option Uuid) (category : String) (user_id : Option String) (t : LogTable)
    → category ≢ "admin"
    → admin_rows (aclear_logs parse_uuid (some category) user_id t).0 ≡ admin_rows t
unfolding aclear_logs
admin_rows-aclear_logs parse_uuid category user_id t h =
    select-delete is_admin_row (is_shown (some category) (parse_user_id parse_uuid user_id) false)
      (λ row. apart category (parse_user_id parse_uuid user_id) row h) t.rows

text-ne : (a b : String) → str_eq a b ≡ false → a ≢ b
text-ne a b h = ground (arith, h, eq_iff a b)

stored-ne :
    (e : Env) (category : String)
    → str_eq category "admin" ≡ false
    → stored_category e category ≢ "admin"
stored-ne e category h = elim (Bool-cases (str_eq category "jobs")) [
  | inl k ↦ rw (k, stored_category) (text-ne "job" "admin" refl)
  | inr k ↦ rw (k, stored_category) (text-ne category "admin" h)
]

module _ (e : Env) (r : Request) (plain : r.is_admin ≡ false) where
  cleared_logs-Ensures :
      (category : String) (t : LogTable)
      → Ensures (λ t'. admin_rows t' ≡ admin_rows t) (cleared_logs e category r t)
  unfolding cleared_logs
  cleared_logs-Ensures category t = elim (Bool-cases (is_one_of category (valid_categories r))) [
    | inr k ↦ rw (k, cleared_logs, Ensures) tt
    | inl k ↦
        rw (k, cleared_logs, Ensures)
          (elim (Bool-cases (str_eq category "admin")) [
            | inl a ↦ rw (a, plain) tt
            | inr a ↦ rw a (
                admin_rows-aclear_logs e.parse_uuid (stored_category e category) r.user_id t
                  (stored-ne e category a))
          ])
  ]

  module _ (t : LogTable) where
    Same : World → Type 0
    Same w = admin_rows w.logs ≡ admin_rows t

    quiet : (w : World) (d : Dict UserSession) → Same w → Same (record w { sessions = d })
    unfolding Same
    quiet w d h = h

    after_clear-Same :
        (category : String) (w : World) (o : Result LogTable)
        → Ensures (λ t'. admin_rows t' ≡ admin_rows w.logs) o
        → Same w
        → Same (after_clear e category w o).1
    unfolding Same
    after_clear-Same category w (err x) h k = k
    after_clear-Same category w (ok t') h k = h ∙ k

    clear-Same :
        (category : String) (w : World) → Same w → Same (clear_logs_category e category r w).1
    unfolding clear_logs_category
    clear-Same category =
        with_session-keeps {P = Page} Same quiet e r
          (λ u w'. after_clear e category w' (cleared_logs e category r w'.logs))
          (λ u w'.
            after_clear-Same category w' (cleared_logs e category r w'.logs)
              (cleared_logs-Ensures category w'.logs))

  refused :
      (limit offset : ℕ) (w : World)
      → IsRefused (logs_admin e limit offset r w).0
        × (admin_rows (logs_admin e limit offset r w).1.logs ≡ admin_rows w.logs)
  unfolding logs_admin
  refused limit offset w =
      with_session_cases {P = Page} (λ x. IsRefused x.0 × (admin_rows x.1.logs ≡ admin_rows w.logs))
        e r
        (λ u w'. elim r.is_admin [
          | false ↦ (err (http_error 403 "Admin access required"), w')
          | true ↦ (ok (shown_to_admin e limit offset w'), w')
        ])
        w (inl refl, refl) (λ u m. rw (plain, IsRefused) (inr refl, refl))

  -- A request without administrator rights keeps the administrators' entries, and reads none of them.
  pub admin_rows-clear_logs_category :
      (category : String) (limit offset : ℕ) (w : World)
      → (admin_rows (clear_logs_category e category r w).1.logs ≡ admin_rows w.logs)
        × IsRefused (logs_admin e limit offset r w).0
        × (admin_rows (logs_admin e limit offset r w).1.logs ≡ admin_rows w.logs)
  unfolding Same
  admin_rows-clear_logs_category category limit offset w =
      let read = refused limit offset w in (clear-Same w.logs category w refl, read.0, read.1)
