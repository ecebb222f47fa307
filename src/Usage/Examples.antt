-- ===== src/Usage/Examples.antt =====
-- The theorems on sums at a table of four rows of two days.
use just_in_time.Prelude.{ℕ, ◌≡◌, refl, true, some, none, [], ◌∷◌, codes, Bytes, arith, keep}
use just_in_time.Db.{Row, Db, Convert}
use just_in_time.Usage.{
  Query, is_between, usage_in_range, daily_totals_in_range, activities_for_day,
  db_get_today_app_summary, add_to_group, group_by_process, insert_usage, order_by_total, largest,
}
use just_in_time.Usage.Top.{IsTop, usage_in_range-IsTop}
use just_in_time.Usage.Days.{
  sum_of_days, seconds_between, sum_of_activities, IsInOrder, daily_totals-partition,
  activities-day_total,
}
use just_in_time.Usage.Today.{AllAgree, today_app_summary-AllAgree}

abbrev row : ℕ → Bytes → ℕ → ℕ → Row
row id process seconds start = record {
  id = id;
  device_id = codes "pc";
  process_name = process;
  window_title = codes "a window";
  duration_seconds = seconds;
  start_time = start;
  end_time = 0;
  synced = 1;
  created_at = start;
  retry_count = some 0;
  next_retry_at = some 0;
}

abbrev table : Db
table = record {
  handle = true;
  rows =
      row 1 (codes "code.exe") 30 150
      ∷ row 2 (codes "game.exe") 50 120
      ∷ row 3 (codes "code.exe") 40 130
      ∷ row 4 (codes "game.exe") 500 230
      ∷ [];
  last_id = 4;
  total_changes = 4;
}

abbrev fine : Query
fine = record { prepares = true; gives = 100; errmsg = [] }

abbrev plain : Convert
plain = record { to_utf8 = λ s. s; to_wide = λ s. s }

abbrev date_of : ℕ → Bytes
date_of t = codes "2026-01-01"

first_day :
    (usage_in_range fine 100 200 table).0
    ≡ record { process_name = codes "code.exe"; total_seconds = 70 }
      ∷ record { process_name = codes "game.exe"; total_seconds = 50 }
      ∷ []
unfolding usage_in_range largest group_by_process add_to_group order_by_total insert_usage
first_day = refl

usage_in_range-IsTop_example :
    IsTop 20
      (keep (is_between 100 200) table.rows)
      (codes "chat.exe")
      (usage_in_range fine 100 200 table).0
    × ((usage_in_range fine 100 200 table).1 ≡ none)
usage_in_range-IsTop_example =
    usage_in_range-IsTop fine 100 200 table (codes "chat.exe") refl refl (omega arith)

daily_totals-partition_example :
    sum_of_days (daily_totals_in_range date_of (λ t. fine) (100 ∷ 200 ∷ 300 ∷ []) table).0
    ≡ seconds_between 100 300 table.rows
daily_totals-partition_example =
    daily_totals-partition date_of (λ t. fine) 100 (200 ∷ 300 ∷ []) table refl (λ t. refl)
      (λ t. omega arith) (omega arith, (omega arith, tt))

activities-day_total_example :
    IsInOrder (activities_for_day fine 100 200 table).0
    × ((daily_totals_in_range date_of (λ t. fine) (100 ∷ 200 ∷ []) table).0
        ≡ record {
          date = date_of 100;
          total_seconds = sum_of_activities (activities_for_day fine 100 200 table).0;
        }
          ∷ [])
activities-day_total_example =
    activities-day_total date_of (λ t. fine) fine 100 200 table refl refl (omega arith) refl
      (omega arith)

today_app_summary-AllAgree_example :
    AllAgree plain 100 table (db_get_today_app_summary plain fine 100 15 table)
today_app_summary-AllAgree_example =
    today_app_summary-AllAgree plain fine 100 15 table refl refl (refl, (refl, (refl, (refl, tt))))
