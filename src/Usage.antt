-- ===== src/Usage.antt =====
-- src/dashboard/localdb.cpp, which reads the agent's table, and db_get_today_app_summary of
-- src/agent/shared/database.cpp: what the queries select, sum and order. Rows that the order leaves
-- open stand in some fixed order. Sums stay below 2 ^ 63, where SQLite's SUM would fail.
pub mod Groups
pub mod Top
pub mod Days
pub mod Today
pub mod Summary
mod Examples
use just_in_time.Prelude.{
  ℕ, zero, suc, ◌+◌, ◌-◌, min, Bool, true, false, not, ◌&&◌, Option, none, some, List, [], ◌∷◌,
  ◌++◌, map, Bytes, codes, bytes_eq, leb, ltb, ◌==◌, if◌then◌else◌, length, take, keep, any, ℤ, pos,
  negsuc,
}
use just_in_time.Db.{Row, Db, Sql, Convert, wide_cut}
use just_in_time.Db.Update.{sum_seconds}

pub record AppUsage : Type 0 where
  pub process_name : Bytes
  pub total_seconds : ℕ

pub record DayTotal : Type 0 where
  pub date : Bytes
  pub total_seconds : ℕ

pub record Activity : Type 0 where
  pub process_name : Bytes
  pub window_title : Bytes
  pub duration : ℕ
  pub start_time : ℕ
  pub end_time : ℕ
  pub synced : Bool

-- How a query goes: whether it can be prepared, how many rows it gives before stepping fails, and
-- what sqlite3_errmsg says.
pub record Query : Type 0 where
  pub prepares : Bool
  pub gives : ℕ
  pub errmsg : Bytes

-- WHERE start_time >= ?1 AND start_time < ?2
abbrev pub is_between : ℕ → ℕ → Row → Bool
is_between start end r = leb start r.start_time && ltb r.start_time end

-- GROUP BY process_name, with the sum of the durations.
unfoldable pub add_to_group : Row → List AppUsage → List AppUsage
add_to_group r [] =
    record { process_name = r.process_name; total_seconds = r.duration_seconds } ∷ []
add_to_group r (u ∷ us) =
    if bytes_eq u.process_name r.process_name
    then record u { total_seconds = r.duration_seconds + u.total_seconds } ∷ us
    else u ∷ add_to_group r us

unfoldable pub group_by_process : List Row → List AppUsage
group_by_process [] = []
group_by_process (r ∷ rows) = add_to_group r (group_by_process rows)

-- ORDER BY total DESC
unfoldable pub insert_usage : AppUsage → List AppUsage → List AppUsage
insert_usage u [] = u ∷ []
insert_usage u (x ∷ us) =
    if leb x.total_seconds u.total_seconds then u ∷ x ∷ us else x ∷ insert_usage u us

unfoldable pub order_by_total : List AppUsage → List AppUsage
order_by_total [] = []
order_by_total (u ∷ us) = insert_usage u (order_by_total us)

-- The query that both programs make of the rows that they pick.
unfoldable pub largest : ℕ → List Row → List AppUsage
largest limit rows = take limit (order_by_total (group_by_process rows))

abbrev pub not_available : Bytes
not_available = codes "local database not available"

-- What every reader does with its statement: the rows, and what `err` is set to.
abbrev pub read {ℓ} : {A : Type ℓ} → Query → Db → List A → List A × Option Bytes
read q db rows =
    if not db.handle
    then ([], some not_available)
    else if not q.prepares
    then ([], some q.errmsg)
    else (take q.gives rows, none)

unfoldable pub usage_in_range : Query → ℕ → ℕ → Db → List AppUsage × Option Bytes
usage_in_range q start end db = read q db (largest 20 (keep (is_between start end) db.rows))

-- The sum over one day, which is NULL, read as 0, if no row is in it.
abbrev pub day_total : Query → ℕ → ℕ → Db → ℕ
day_total q start end db =
    if q.gives == 0 then 0 else sum_seconds (keep (is_between start end) db.rows)

-- The loop over the boundaries, with the query of each round; `date_of` is localtime and strftime.
unfoldable pub each_day : (ℕ → Bytes) → (ℕ → Query) → ℕ → List ℕ → Db → List DayTotal × Option Bytes
each_day date_of q start [] db = ([], none)
each_day date_of q start (end ∷ more) db =
    let (days, err) = each_day date_of q end more db in
    if (q start).prepares
    then (
      record { date = date_of start; total_seconds = day_total (q start) start end db } ∷ days,
      err,
    )
    else ([], some (q start).errmsg)

unfoldable pub daily_totals_in_range :
    (ℕ → Bytes) → (ℕ → Query) → List ℕ → Db → List DayTotal × Option Bytes
daily_totals_in_range date_of q [] db = if db.handle then ([], none) else ([], some not_available)
daily_totals_in_range date_of q (b ∷ bs) db =
    if db.handle then each_day date_of q b bs db else ([], some not_available)

abbrev pub activity_of : Row → Activity
activity_of r = record {
  process_name = r.process_name;
  window_title = r.window_title;
  duration = r.duration_seconds;
  start_time = r.start_time;
  end_time = r.end_time;
  synced = not (r.synced == 0);
}

-- ORDER BY start_time, oldest or newest first.
unfoldable pub insert_by : (ℕ → ℕ → Bool) → Row → List Row → List Row
insert_by first r [] = r ∷ []
insert_by first r (x ∷ rows) =
    if first r.start_time x.start_time then r ∷ x ∷ rows else x ∷ insert_by first r rows

unfoldable pub order_by_start : (ℕ → ℕ → Bool) → List Row → List Row
order_by_start first [] = []
order_by_start first (r ∷ rows) = insert_by first r (order_by_start first rows)

-- LIMIT with a negative number is no limit.
abbrev pub limited {ℓ} : {A : Type ℓ} → ℤ → List A → List A
limited (pos n) l = take n l
limited (negsuc n) l = l

unfoldable pub recent_activities : Query → ℤ → Db → List Activity × Option Bytes
recent_activities q limit db =
    read q db (map activity_of (limited limit (order_by_start (λ a b. leb b a) db.rows)))

unfoldable pub activities_for_day : Query → ℕ → ℕ → Db → List Activity × Option Bytes
activities_for_day q start end db =
    read q db (map activity_of (order_by_start leb (keep (is_between start end) db.rows)))

-- `DailyAppSummaryEntry`
pub record SummaryEntry : Type 0 where
  pub process_name : List ℕ
  pub total_seconds : ℕ

abbrev pub summary_max : ℕ
summary_max = 15

abbrev pub summary_entry : Convert → AppUsage → SummaryEntry
summary_entry c u = record {
  process_name = wide_cut c u.process_name 512;
  total_seconds = u.total_seconds;
}

unfoldable pub db_get_today_app_summary : Convert → Query → ℕ → ℕ → Db → List SummaryEntry
db_get_today_app_summary c q day_start max_entries db =
    if db.handle && q.prepares
    then map (summary_entry c) (
        take q.gives
          (largest (min max_entries summary_max) (keep (λ r. leb day_start r.start_time) db.rows)))
    else []
