-- ===== src/Agent/Watch.antt =====
-- `watchLoop` of src/agent/agent/main.cpp: the thread that follows the window in use and, every 20
-- seconds, holds the open record against the parent's limits.
pub mod Enforces
use just_in_time.Prelude.{ℕ, ◌+◌, Bool, List, [], ◌∷◌, ◌++◌, Option, leb, if◌then◌else◌}
use just_in_time.Activity.{Tracker, Env, ActiveWindow, monitor_activity}
use just_in_time.Limits.{AppLimit}
use just_in_time.Enforce.{Check, Event, activity_check_limits}

-- What one turn of the loop reads: whether the tray is paused, what monitor_activity sees, the clock,
-- and what a check of the limits would see.
pub record WatchTurn : Type 0 where
  pub paused : Bool
  pub env : Env
  pub window : Option ActiveWindow
  pub now : ℕ
  pub check : Check
  pub limits : List AppLimit

-- `lastLimitCheck`, with the tracker, and the calls of notifyLimitBlocked so far.
pub record Watch : Type 0 where
  pub tracker : Tracker
  pub last_limit_check : ℕ
  pub notified : List Event

abbrev pub watched : WatchTurn → Tracker → Tracker
watched u t = if u.paused then t else monitor_activity u.env u.window t

-- The array `events` has room for eight.
abbrev pub limit_check : WatchTurn → Check
limit_check u = record u.check { max_events = 8 }

unfoldable pub watch_turn : WatchTurn → Watch → Watch
watch_turn u w =
    let t = watched u w.tracker in
    let (t', events) = activity_check_limits (limit_check u) u.limits t in
    if leb (w.last_limit_check + 20) u.now
    then record { tracker = t'; last_limit_check = u.now; notified = w.notified ++ events }
    else record w { tracker = t }

abbrev pub watch_start : ℕ → Tracker → Watch
watch_start now t = record { tracker = t; last_limit_check = now; notified = [] }

unfoldable pub watch_loop : List WatchTurn → Watch → Watch
watch_loop [] w = w
watch_loop (u ∷ us) w = watch_loop us (watch_turn u w)
