-- ===== src/Agent/Examples.antt =====
-- The theorems on the cloud thread at a server that refuses the first two syncs.
use just_in_time.Prelude.{
  sym, codes, some, negsuc, inl, ◌≡◌, refl, true, false, List, [], ◌∷◌, ℕ, Bool, arith, pos,
}
use just_in_time.Agent.{
  Turn, cloud_loop, cloud_turn, cloud_start, sync_turn, limits_turn, backup_turn, summary_turn,
  next_backoff,
}
use just_in_time.Db.{Sql}
use just_in_time.Activity.{
  Tracker, ActiveWindow, Env, monitor_activity, look, close_current_session, initial,
  start_new_record,
}
use just_in_time.Enforce.{Reason, find_limit, same_name}
use just_in_time.Limits.{AppLimit}
use just_in_time.Agent.Watch.{WatchTurn, watch_turn, watch_start, watch_loop}
use just_in_time.Agent.Watch.Enforces.{watch_enforces}
use just_in_time.Agent.Schedule.{IsSpaced, last_sync_in, cloud_loop-IsSpaced, sync_resumes}

abbrev turn_at : ℕ → Bool → Turn
turn_at now ok = record {
  now = now;
  sync_interval_sec = pos 30;
  backup_interval_sec = pos 3600;
  summary_interval_sec = pos 300;
  sync_succeeds = ok;
}

-- 1050 is before the time of the second sync, and 1155 is the time of the third.
abbrev four_turns : List Turn
four_turns = turn_at 1000 false ∷ turn_at 1050 true ∷ turn_at 1065 false ∷ turn_at 1155 true ∷ []

cloud_loop-IsSpaced_example : IsSpaced 30 (cloud_loop four_turns (cloud_start 990)).jobs
cloud_loop-IsSpaced_example =
    cloud_loop-IsSpaced 30 990 four_turns (refl, (refl, (refl, (refl, tt))))

sync_resumes_example :
    last_sync_in (cloud_turn (turn_at 1785 true) (cloud_loop four_turns (cloud_start 990))).jobs
    ≡ 1785
unfolding cloud_loop cloud_turn sync_turn limits_turn backup_turn summary_turn next_backoff
sync_resumes_example =
    sync_resumes 30 990 four_turns (turn_at 1785 true) (refl, (refl, (refl, (refl, tt)))) refl
      (omega arith)

third_sync : last_sync_in (cloud_loop four_turns (cloud_start 990)).jobs ≡ 1155
unfolding cloud_loop cloud_turn sync_turn limits_turn backup_turn summary_turn next_backoff
third_sync = refl

abbrev game_window : ActiveWindow
game_window = record { window_title = codes "level 2"; process_name = codes "game.exe" }

abbrev env_at : ℕ → Env
env_at now = record { now = now; is_excluded = λ _. false; min_duration_sec = pos 2 }

abbrev game_limit : AppLimit
game_limit = record {
  id = pos 1;
  process_name = codes "game.exe";
  daily_limit_sec = negsuc 0;
  blocked = true;
}

-- The game is blocked; it is the window in use at every turn.
abbrev watch_at : ℕ → WatchTurn
watch_at now = record {
  paused = false;
  env = env_at now;
  window = some game_window;
  now = now;
  check = record {
    env = env_at now;
    is_child = true;
    logged_in = true;
    day_start = 0;
    db = record { handle = true; rows = []; last_id = 0; total_changes = 0 };
    convert = record { to_utf8 = λ s. s; to_wide = λ s. s };
    statement = Sql.done;
    narrow = λ s. s;
    kills = λ _. true;
    max_events = 8;
  };
  limits = game_limit ∷ [];
}

abbrev playing : Tracker
playing = start_new_record (env_at 1005) game_window initial

opened :
    watch_loop (watch_at 1005 ∷ []) (watch_start 1000 initial)
    ≡ record { tracker = playing; last_limit_check = 1000; notified = [] }
unfolding watch_loop watch_turn monitor_activity look
opened = refl

watch_enforces_example :
    ((watch_turn (watch_at 1025) (watch_start 1000 playing)).tracker
      ≡ close_current_session (env_at 1025) playing)
    × ((reason : Reason) × ((watch_turn (watch_at 1025) (watch_start 1000 playing)).notified
          ≡ record { process_name = codes "game.exe"; reason = reason } ∷ []))
unfolding start_new_record
watch_enforces_example =
    watch_enforces 1000 1005 initial (watch_at 1005 ∷ []) (watch_at 1025) game_limit
      (watch_start 1000 playing) playing (sym opened) (unfold monitor_activity look in refl)
      (omega arith) (omega arith, tt) (omega arith) refl refl refl refl
      (unfold find_limit same_name in refl) (inl refl) refl
