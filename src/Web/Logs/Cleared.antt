-- ===== src/Web/Logs/Cleared.antt =====
-- What a user sees after clearing a category of the own logs.
use connect_manager.Prelude.{
  ℕ, ◌≡◌, ◌≢◌, refl, sym, ap, ap₂, ◌∙◌, String, false, List, [], some, str_eq,
}
use connect_manager.Db.Table.{Result, ok}
use connect_manager.ActivityLog.{
  ActivityLog, LogTable, alist_logs, acount_logs, aclear_logs, parse_user_id,
}
use connect_manager.ActivityLog.Owners.{alist-aclear_logs, acount-aclear_logs}
use connect_manager.Web.{Request, World, Env, opened}
use connect_manager.Web.Keeps.{with_session_open}
use connect_manager.Web.Logs.{
  Page, logs_page, user_logs, shown_to_user, cleared_logs, after_clear, emptied,
  clear_logs_category,
}

-- The tabs of every user, by their names in the URL and in the table.
pub data Tab : Type 0 where
  app_tab jobs_tab sqs_tab : Tab

abbrev pub named : Tab → String
named app_tab = "app"
named jobs_tab = "jobs"
named sqs_tab = "sqs"

abbrev pub stored : Tab → String
stored app_tab = "app"
stored jobs_tab = "job"
stored sqs_tab = "sqs"

-- A tab's page with given rows.
abbrev pub page_of : Tab → (limit offset : ℕ) → List ActivityLog → ℕ → Result Page
page_of tab limit offset logs total = ok (
    logs_page
      (record { logs = logs; total = total; limit = limit; offset = offset; category = named tab }))

module _ (e : Env) where
  cleared_tab :
      (tab : Tab) (r : Request) (t : LogTable)
      → cleared_logs e (named tab) r t
        ≡ ok (aclear_logs e.parse_uuid (some (stored tab)) r.user_id t).0
  unfolding cleared_logs
  cleared_tab app_tab r t = refl
  cleared_tab jobs_tab r t = refl
  cleared_tab sqs_tab r t = refl

  abbrev cleared_world : Tab → Request → World → World
  cleared_world tab r w = record w {
    logs = (aclear_logs e.parse_uuid (some (stored tab)) r.user_id w.logs).0;
  }

  clear-eq :
      (tab : Tab) (r : Request) (w : World) (u : String)
      → r.user_id ≡ some u
      → str_eq u "" ≡ false
      → clear_logs_category e (named tab) r w
        ≡ (ok (emptied e (named tab)), cleared_world tab r (opened e u w))
  unfolding clear_logs_category
  clear-eq tab r w u m b =
      with_session_open {P = Page} e r
        (λ v w'. after_clear e (named tab) w' (cleared_logs e (named tab) r w'.logs)) w u m b
      ∙ ap (after_clear e (named tab) (opened e u w)) (cleared_tab tab r w.logs)

  read-eq :
      (tab : Tab) (limit offset : ℕ) (r : Request) (w : World) (u : String)
      → r.user_id ≡ some u
      → str_eq u "" ≡ false
      → (user_logs e (stored tab) (named tab) limit offset r w).0
        ≡ page_of tab limit offset
            (alist_logs e.parse_uuid (some (stored tab)) r.user_id limit offset false w.logs)
            (acount_logs e.parse_uuid (some (stored tab)) r.user_id false w.logs)
  unfolding user_logs
  read-eq tab limit offset r w u m b =
      ap (λ x. x.0)
        (with_session_open {P = Page} e r
          (λ v w'. (ok (shown_to_user e (stored tab) (named tab) limit offset r w'), w')) w u m b)

  -- After a user has cleared a tab, the tab shows no entry and counts none, while each tab of another user
  -- shows what it showed before.
  pub user_logs-clear_logs_category :
      (tab tab' : Tab) (limit offset : ℕ) (r r' : Request) (w : World) (u u' : String)
      → r.user_id ≡ some u
      → str_eq u "" ≡ false
      → r'.user_id ≡ some u'
      → str_eq u' "" ≡ false
      → parse_user_id e.parse_uuid r.user_id ≢ parse_user_id e.parse_uuid r'.user_id
      → let w' = (clear_logs_category e (named tab) r w).1 in
        ((user_logs e (stored tab) (named tab) limit offset r w').0 ≡ page_of tab limit offset [] 0)
        × ((user_logs e (stored tab') (named tab') limit offset r' w').0
            ≡ (user_logs e (stored tab') (named tab') limit offset r' w).0)
  user_logs-clear_logs_category tab tab' limit offset r r' w u u' m b m' b' differ =
      let w' = cleared_world tab r (opened e u w) in
      let listed =
        alist-aclear_logs e.parse_uuid (some (stored tab)) (some (stored tab')) r.user_id r'.user_id
          limit offset w.logs differ in
      let counted =
        acount-aclear_logs e.parse_uuid (some (stored tab)) (some (stored tab')) r.user_id
          r'.user_id w.logs differ in
      rw (clear-eq tab r w u m b) (
        read-eq tab limit offset r w' u m b ∙ ap₂ (page_of tab limit offset) listed.0 counted.0,
        read-eq tab' limit offset r' w' u' m' b'
            ∙ ap₂ (page_of tab' limit offset) listed.1 counted.1
            ∙ sym (read-eq tab' limit offset r' w u' m' b'),
      )
