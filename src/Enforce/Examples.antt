-- ===== src/Enforce/Examples.antt =====
-- The theorems on limits at a child's machine with a game that has an hour a day.
use just_in_time.Prelude.{
  ℕ, ◌+◌, ◌-◌, ◌^◌, ◌<◌, ◌≡◌, refl, true, false, some, [], ◌∷◌, arith, codes, ℤ,
}
use just_in_time.Db.{Row, Sql, db_insert_activity}
use just_in_time.Db.Update.{sum_seconds, db_get_today_seconds}
use just_in_time.Activity.{Tracker, closed_now}
use just_in_time.Limits.{AppLimit}
use just_in_time.Enforce.{Check, find_limit, same_name, used_today}
use just_in_time.Enforce.Usage.{closed_seconds, used_today-closed}

abbrev game : AppLimit
game = record {
  id = ℤ.pos 7;
  process_name = codes "Game.exe";
  daily_limit_sec = ℤ.pos 3600;
  blocked = false;
}

-- 3000 seconds of the game are in the table.
abbrev played : Row
played = record {
  id = 1;
  device_id = codes "pc";
  process_name = codes "game.exe";
  window_title = codes "level 1";
  duration_seconds = 3000;
  start_time = 100000;
  end_time = 103000;
  synced = 0;
  created_at = 103000;
  retry_count = some 0;
  next_retry_at = some 0;
}

-- It is open again since 110000.
abbrev playing : Tracker
playing = record {
  last_window = record { window_title = codes "level 2"; process_name = codes "game.exe" };
  current_record = record {
    process_name = codes "game.exe";
    window_title = codes "level 2";
    start_time = 110000;
    end_time = 0;
    duration_seconds = 0;
    synced = 0;
  };
  finish_in_progress = false;
  suspended = false;
  inserted = [];
}

abbrev at : ℕ → Check
at now = record {
  env = record { now = now; is_excluded = λ _. false; min_duration_sec = ℤ.pos 2 };
  is_child = true;
  logged_in = true;
  day_start = 90000;
  db = record { handle = true; rows = played ∷ []; last_id = 1; total_changes = 1 };
  convert = record { to_utf8 = λ s. s; to_wide = λ s. s };
  statement = Sql.done;
  narrow = λ s. s;
  kills = λ _. true;
  max_events = 4;
}

found_game : find_limit (codes "game.exe") (game ∷ []) ≡ some game
unfolding find_limit same_name
found_game = refl

few_seconds : closed_seconds (at 110700) playing + ((at 110700).env.now - 110000) < 2 ^ 32
unfolding sum_seconds
few_seconds = omega arith

used_today-closed_example :
    let rec = closed_now (at 110700).env playing.current_record in
    let db' =
      (db_insert_activity (at 110700).convert (codes "pc") 110700 Sql.done rec (at 110700).db).0 in
    db_get_today_seconds (at 110700).convert 90000 Sql.done playing.current_record.process_name db'
    ≡ used_today (at 110700) playing
used_today-closed_example =
    used_today-closed (at 110700) (codes "pc") playing refl refl (omega arith) (omega arith)
      (omega arith) few_seconds
