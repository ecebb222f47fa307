-- ===== src/Db.antt =====
-- src/agent/shared/database.cpp: the table `activity_logs` and the statements on it.
-- SQLite is not modelled: a call gets the outcome of its statement as an argument, and a
-- statement that fails changes nothing (a query that fails gives the rows before the failure). What a statement selects and updates is its SQL text.
-- Wide texts are lists of UTF-16 units, and their conversion to UTF-8 and back is a parameter.
pub mod Update
pub mod Sorting
pub mod Order
pub mod Grows
pub mod Queue
pub mod Retry
pub mod Retention
mod Examples
use just_in_time.Prelude.{
  ℕ, zero, suc, ◌+◌, ◌-◌, ◌*◌, ◌^◌, ◌%◌, min, max, Bool, true, false, not, ◌&&◌, Option, none, some,
  List, [], ◌∷◌, ◌++◌, map, Bytes, bytes_eq, ℤ, leb, ltb, ◌==◌, if◌then◌else◌, length, take, drop,
  keep, any,
}

-- One row; `retry_count` and `next_retry_at` were added by ALTER TABLE and may be NULL.
pub record Row : Type 0 where
  pub id : ℕ
  pub device_id : Bytes
  pub process_name : Bytes
  pub window_title : Bytes
  pub duration_seconds : ℕ
  pub start_time : ℕ
  pub end_time : ℕ
  pub synced : ℕ
  pub created_at : ℕ
  pub retry_count : Option ℕ
  pub next_retry_at : Option ℕ

-- `handle` says that g_db is not null; `last_id` is AUTOINCREMENT's.
pub record Db : Type 0 where
  pub handle : Bool
  pub rows : List Row
  pub last_id : ℕ
  pub total_changes : ℕ

-- How a prepared statement ends: sqlite3_prepare_v2 fails, sqlite3_step fails, or SQLITE_DONE.
pub data Sql : Type 0 where
  prepare_failed step_failed done : Sql

-- `ActivityRecord` of includes/agent/core/activity.h
pub record ActivityRecord : Type 0 where
  pub process_name : List ℕ
  pub window_title : List ℕ
  pub start_time : ℕ
  pub end_time : ℕ
  pub duration_seconds : ℕ
  pub synced : ℕ

-- `SyncRecord` of includes/agent/agent/sync.h
pub record SyncRecord : Type 0 where
  pub id : ℕ
  pub device_id : Bytes
  pub process_name : List ℕ
  pub window_title : List ℕ
  pub duration_seconds : ℕ
  pub start_time : ℕ
  pub end_time : ℕ

-- The text conversions of includes/common/strutil.h, which are calls of Win32.
pub record Convert : Type 0 where
  pub to_utf8 : List ℕ → Bytes
  pub to_wide : Bytes → List ℕ

-- Runs a statement that writes: its effect and the return value `sqlite3_step(stmt) == SQLITE_DONE`.
abbrev pub execute : Sql → Db → Db → Db × ℕ
execute Sql.done after db = (after, 1)
execute Sql.prepare_failed after db = (db, 0)
execute Sql.step_failed after db = (db, 0)

-- `created_at` is filled by DEFAULT CURRENT_TIMESTAMP, the two retry columns by DEFAULT 0.
new_row : Convert → Bytes → ℕ → ActivityRecord → ℕ → Row
new_row c device now rec id = record {
  id = id;
  device_id = device;
  process_name = c.to_utf8 rec.process_name;
  window_title = c.to_utf8 rec.window_title;
  duration_seconds = rec.duration_seconds;
  start_time = rec.start_time;
  end_time = rec.end_time;
  synced = rec.synced;
  created_at = now;
  retry_count = some 0;
  next_retry_at = some 0;
}

-- With no open database the statement cannot be prepared.
abbrev pub outcome : Db → Sql → Sql
outcome db sql = if db.handle then sql else Sql.prepare_failed

unfoldable pub db_insert_activity : Convert → Bytes → ℕ → Sql → ActivityRecord → Db → Db × ℕ
unfolding new_row
db_insert_activity c device now sql rec db =
    execute (outcome db sql)
      (record db {
        rows = db.rows ++ new_row c device now rec (db.last_id + 1) ∷ [];
        last_id = db.last_id + 1;
        total_changes = db.total_changes + 1;
      })
      db

-- utf8ToWide(utf8, wide, wideSize): cut to the buffer less its final 0.
abbrev pub wide_cut : Convert → Bytes → ℕ → List ℕ
wide_cut c s size = take (size - 1) (c.to_wide s)

-- next_retry_at <= now; a comparison with NULL is not true
abbrev pub is_due : ℕ → Option ℕ → Bool
is_due now none = false
is_due now (some t) = leb t now

-- WHERE synced = 0 AND next_retry_at <= now
unfoldable pub is_pending : ℕ → Row → Bool
is_pending now r = r.synced == 0 && is_due now r.next_retry_at

abbrev pub retry_at : Row → ℕ
retry_at r = elim r.next_retry_at [ none ↦ 0 | some t ↦ t ]

-- ORDER BY next_retry_at ASC, id ASC; NULL comes first
unfoldable pub before : Row → Row → Bool
before a b =
    if ltb (retry_at a) (retry_at b)
    then true
    else if retry_at a == retry_at b
    then leb a.id b.id
    else false

unfoldable pub insert_row : Row → List Row → List Row
insert_row r [] = r ∷ []
insert_row r (x ∷ rows) = if before r x then r ∷ x ∷ rows else x ∷ insert_row r rows

unfoldable pub sort_rows : List Row → List Row
sort_rows [] = []
sort_rows (r ∷ rows) = insert_row r (sort_rows rows)

-- The rows that the query of `db_get_unsynced_records` returns.
unfoldable pub unsynced_rows : ℕ → ℕ → Db → List Row
unfolding is_pending sort_rows
unsynced_rows now limit db = take limit (sort_rows (keep (is_pending now) db.rows))

-- sqlite3_column_int keeps 32 bits; the buffer sizes are those of `SyncRecord`.
unfoldable pub to_sync_record : Convert → Row → SyncRecord
to_sync_record c r = record {
  id = r.id % 2 ^ 32;
  device_id = take 127 r.device_id;
  process_name = wide_cut c r.process_name 512;
  window_title = wide_cut c r.window_title 2048;
  duration_seconds = r.duration_seconds;
  start_time = r.start_time;
  end_time = r.end_time;
}

-- The loop ends at a step that gives no row: a query that cannot be prepared gives no record, and
-- one of which a step fails gives those of its first `given` rows.
unfoldable pub db_get_unsynced_records : Convert → ℕ → Sql → ℕ → ℕ → Db → List SyncRecord
unfolding unsynced_rows to_sync_record
db_get_unsynced_records c now sql given max_records db = elim (outcome db sql) [
  | Sql.done ↦ map (to_sync_record c) (unsynced_rows now max_records db)
  | Sql.step_failed ↦ map (to_sync_record c) (take given (unsynced_rows now max_records db))
  | Sql.prepare_failed ↦ []
]
