-- ===== src/ActivityLog.antt =====
-- app/db/repositories/activity_log.py, and the functions of app/services/activity_logger.py on it: what
-- is stored, listed, counted and cleared.
pub mod Actions
pub mod JobActions
pub mod Admin
pub mod Owners
use connect_manager.Prelude.{
  ℕ, suc, ◌-◌, ◌*◌, String, Bool, true, false, ◌&&◌, ◌||◌, List, [], ◌∷◌, Option, none, some,
  str_eq, ltb, length, take, drop, if◌then◌else◌,
}
use connect_manager.Db.Table.{select, delete, count, insert, owned_by}
use connect_manager.Db.Order.{order_by_desc}
use connect_manager.Db.Rows.{Uuid, Time, microseconds_per_day}
use connect_manager.Notifications.Values.{Json}

-- The arguments of `log` and of `create_entry`; the user is a text for `log` and a UUID in the table.
pub record Entry (U : Type 0) : Type 0 where
  pub category : String
  pub action : String
  pub message : String
  pub level : String
  pub user_id : Option U
  pub details : Option Json
  pub related_id : Option String
  pub related_type : Option String
  pub ip_address : Option String

pub record ActivityLog : Type 0 where
  pub id : ℕ
  pub entry : Entry Uuid
  pub created_at : Time

pub record LogTable : Type 0 where
  pub rows : List ActivityLog
  pub next_id : ℕ

unfoldable pub create_entry : Time → Entry Uuid → LogTable → LogTable × ActivityLog
create_entry now e t =
    let row : ActivityLog = record { id = t.next_id; entry = e; created_at = now } in
    (record { rows = insert row t.rows; next_id = suc t.next_id }, row)

abbrev pub is_in : Option String → ActivityLog → Bool
is_in none r = true
is_in (some category) r = str_eq r.entry.category category

-- The WHERE clause of the listing and of the count.
abbrev pub is_shown : Option String → Option Uuid → Bool → ActivityLog → Bool
is_shown category user_id include_all_users r =
    is_in category r && (include_all_users || owned_by user_id r.entry.user_id)

unfoldable pub list_filtered :
    Option String → Option Uuid → Bool → ℕ → ℕ → LogTable → List ActivityLog
list_filtered category user_id include_all_users limit offset t = take limit (
    drop offset (
      order_by_desc (λ r. r.created_at)
        (select (is_shown category user_id include_all_users) t.rows)))

unfoldable pub count_filtered : Option String → Option Uuid → Bool → LogTable → ℕ
count_filtered category user_id include_all_users t =
    count (is_shown category user_id include_all_users) t.rows

unfoldable pub clear_for_user : Option String → Option Uuid → LogTable → LogTable × ℕ
clear_for_user category user_id t = (
  record t { rows = delete (is_shown category user_id false) t.rows },
  count (is_shown category user_id false) t.rows,
)

unfoldable pub clear_old : Time → ℕ → LogTable → LogTable × ℕ
clear_old now days t =
    let cutoff = now - days * microseconds_per_day in
    (
      record t { rows = delete (λ r. ltb r.created_at cutoff) t.rows },
      count (λ r. ltb r.created_at cutoff) t.rows,
    )

-- `uuid.UUID(text)`, none where it raises.
module _ (parse_uuid : String → Option Uuid) where
  unfoldable pub parse_user_id : Option String → Option Uuid
  parse_user_id none = none
  parse_user_id (some u) = parse_uuid u

  abbrev pub stored : Entry String → Entry Uuid
  stored e = record {
    category = e.category;
    action = e.action;
    message = e.message;
    level = e.level;
    user_id = parse_user_id e.user_id;
    details = e.details;
    related_id = e.related_id;
    related_type = e.related_type;
    ip_address = e.ip_address;
  }

  -- `now` is the time of the background insert, `wired` says that there is a sessionmaker and a running
  -- loop, and `stores` that the insert does not raise.
  unfoldable pub log : (wired stores : Bool) → Time → Entry String → LogTable → LogTable
  unfolding create_entry parse_user_id
  log wired stores now e t = if wired && stores then (create_entry now (stored e) t).0 else t

  unfoldable pub alist_logs :
      Option String → Option String → ℕ → ℕ → Bool → LogTable → List ActivityLog
  unfolding list_filtered parse_user_id
  alist_logs category user_id limit offset include_all_users t =
      list_filtered category (parse_user_id user_id) include_all_users limit offset t

  unfoldable pub acount_logs : Option String → Option String → Bool → LogTable → ℕ
  unfolding count_filtered parse_user_id
  acount_logs category user_id include_all_users t =
      count_filtered category (parse_user_id user_id) include_all_users t

  unfoldable pub aclear_logs : Option String → Option String → LogTable → LogTable × ℕ
  unfolding clear_for_user parse_user_id
  aclear_logs category user_id t = clear_for_user category (parse_user_id user_id) t
