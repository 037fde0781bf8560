-- ===== src/ActivityLog/Owners.antt =====
-- Whose logs a listing shows, and what clearing takes from it.
use connect_manager.Prelude.{
  ℕ, zero, suc, ◌+◌, ◌≡◌, ◌≢◌, refl, sym, ap, ◌∙◌, length, String, Bool, true, false, List, [], ◌∷◌,
  Option, arith, take, drop, if◌then◌else◌,
}
use connect_manager.Db.Table.{count, delete}
use connect_manager.Db.Table.Laws.{
  select-delete, select-delete_self, owned_by_iff, count-append, length-select,
}
use connect_manager.Db.Table.Keyed.{count-singleton}
use connect_manager.Db.Order.{order_by_desc}
use connect_manager.Db.Rows.{Uuid, Time}
use connect_manager.ActivityLog.{
  Entry, ActivityLog, LogTable, is_shown, parse_user_id, stored, log, alist_logs, acount_logs,
  aclear_logs,
}

module _ (parse_uuid : String → Option Uuid) where
  -- Logging adds one row, which every listing counts whose category and user it has.
  acount-log :
      (now : Time) (e : Entry String) (category user_id : Option String) (all : Bool) (t : LogTable)
      → acount_logs parse_uuid category user_id all (log parse_uuid true true now e t)
        ≡ acount_logs parse_uuid category user_id all t
          + (if is_shown category
                (parse_user_id parse_uuid user_id)
                all
                (record { id = t.next_id; entry = stored parse_uuid e; created_at = now })
              then 1
              else 0)
  unfolding acount_logs log
  acount-log now e category user_id all t =
      let row : ActivityLog = record {
        id = t.next_id;
        entry = stored parse_uuid e;
        created_at = now;
      } in
      let p = is_shown category (parse_user_id parse_uuid user_id) all in
      count-append p t.rows (row ∷ []) ∙ ap (λ n. count p t.rows + n) (count-singleton p row)

  -- No row is shown to two users.
  apart :
      (category category' : Option String) (u v : Option Uuid) (r : ActivityLog)
      → u ≢ v
      → is_shown category u false r ≡ true
      → is_shown category' v false r ≡ false
  apart category category' u v r h e =
      ground (arith, e, h, owned_by_iff u r.entry.user_id, owned_by_iff v r.entry.user_id)

  no_rows :
      (limit offset : ℕ)
      → take limit (drop offset (order_by_desc {A = ActivityLog} (λ r. r.created_at) [])) ≡ []
  unfolding order_by_desc
  no_rows zero zero = refl
  no_rows zero (suc n) = refl
  no_rows (suc m) zero = refl
  no_rows (suc m) (suc n) = refl

  -- Clearing takes as many rows as the user's count said, leaves the user no log of the category, and
  -- leaves every listing of another user, whatever its category, as it was.
  pub alist-aclear_logs :
      (category category' user_id other : Option String) (limit offset : ℕ) (t : LogTable)
      → parse_user_id parse_uuid user_id ≢ parse_user_id parse_uuid other
      → (alist_logs parse_uuid category user_id limit offset false
            (aclear_logs parse_uuid category user_id t).0
          ≡ [])
        × (alist_logs parse_uuid category' other limit offset false
              (aclear_logs parse_uuid category user_id t).0
            ≡ alist_logs parse_uuid category' other limit offset false t)
        × ((aclear_logs parse_uuid category user_id t).1
            ≡ acount_logs parse_uuid category user_id false t)
  unfolding alist_logs aclear_logs acount_logs
  alist-aclear_logs category category' user_id other limit offset t differ =
      let u = parse_user_id parse_uuid user_id in
      let v = parse_user_id parse_uuid other in
      let shown_rows = λ (rs : List ActivityLog).
        take limit (drop offset (order_by_desc (λ r. r.created_at) rs)) in
      (
        ap shown_rows (select-delete_self (is_shown category u false) t.rows)
            ∙ no_rows limit offset,
        ap shown_rows (
            select-delete (is_shown category' v false) (is_shown category u false)
              (λ r e. apart category category' u v r differ e) t.rows),
        refl,
      )

  -- The counts after a user has cleared a category.
  pub acount-aclear_logs :
      (category category' user_id other : Option String) (t : LogTable)
      → parse_user_id parse_uuid user_id ≢ parse_user_id parse_uuid other
      → (acount_logs parse_uuid category user_id false (aclear_logs parse_uuid category user_id t).0
          ≡ 0)
        × (acount_logs parse_uuid category' other false
              (aclear_logs parse_uuid category user_id t).0
            ≡ acount_logs parse_uuid category' other false t)
  unfolding acount_logs aclear_logs
  acount-aclear_logs category category' user_id other t differ =
      let p = is_shown category (parse_user_id parse_uuid user_id) false in
      let q = is_shown category' (parse_user_id parse_uuid other) false in
      let gone = delete p t.rows in
      (
        sym (length-select p gone) ∙ ap length (select-delete_self p t.rows),
        sym (length-select q gone)
            ∙ ap length (select-delete q p (λ r e. apart category category' _ _ r differ e) t.rows)
            ∙ length-select q t.rows,
      )
