-- ===== src/Activity.antt =====
-- src/agent/core/activity.cpp: the activity tracker. Each function under the mutex is one step on the
-- shared variables; a function of the source is the sequence of its steps, and the two threads
-- that call them interleave between the steps (Activity/Threads.antt).
pub mod Time
pub mod Threads
mod Examples
use just_in_time.Prelude.{
  ℕ, ◌-◌, ◌^◌, ◌%◌, Bool, true, false, not, ◌||◌, ◌&&◌, Option, none, some, List, [], ◌∷◌, ◌++◌, ℤ,
  ltb_ℤ, bytes_eq, ltb, ◌==◌, if◌then◌else◌,
}
use just_in_time.Db.{ActivityRecord}

-- `ActiveWindow`: UTF-16 texts; an empty process name stands for "no window".
pub record ActiveWindow : Type 0 where
  pub window_title : List ℕ
  pub process_name : List ℕ

-- The variables of the anonymous namespace, and the records given to `db_insert_activity`.
pub record Tracker : Type 0 where
  pub last_window : ActiveWindow
  pub current_record : ActivityRecord
  pub finish_in_progress : Bool
  pub suspended : Bool
  pub inserted : List ActivityRecord

-- What a step reads of the outside: time(NULL), the exclusion list and `min_duration_sec`.
pub record Env : Type 0 where
  pub now : ℕ
  pub is_excluded : List ℕ → Bool
  pub min_duration_sec : ℤ

abbrev pub no_window : ActiveWindow
no_window = record { window_title = []; process_name = [] }

abbrev pub no_record : ActivityRecord
no_record = record {
  process_name = [];
  window_title = [];
  start_time = 0;
  end_time = 0;
  duration_seconds = 0;
  synced = 0;
}

abbrev pub initial : Tracker
initial = record {
  last_window = no_window;
  current_record = no_record;
  finish_in_progress = false;
  suspended = false;
  inserted = [];
}

abbrev pub is_empty : List ℕ → Bool
is_empty [] = true
is_empty (c ∷ s) = false

-- `startNewRecordLocked`, and the assignment of g_last_window beside each call of it.
unfoldable pub start_new_record : Env → ActiveWindow → Tracker → Tracker
start_new_record e w t = record t {
  last_window = w;
  current_record = record {
    process_name = w.process_name;
    window_title = w.window_title;
    start_time = e.now;
    end_time = 0;
    duration_seconds = 0;
    synced = 0;
  };
}

-- The open record as it is closed now. The cast to `long` keeps 32 bits, whose value is read without
-- a sign here: that is the value of the `long` for a record open for less than 2 ^ 31 seconds (68
-- years), and beyond that the source has a negative one.
unfoldable pub closed_now : Env → ActivityRecord → ActivityRecord
closed_now e rec = record rec {
  end_time = e.now;
  duration_seconds = if ltb rec.start_time e.now then (e.now - rec.start_time) % 2 ^ 32 else 0;
}

-- First section of `finishCurrentRecord`: `none` is an early return, and otherwise the snapshot.
unfoldable pub begin_finish : Env → Tracker → Tracker × Option ActivityRecord
unfolding closed_now
begin_finish e t = if t.finish_in_progress || t.current_record.start_time == 0 then (t, none) else (
  record t { finish_in_progress = true; current_record = closed_now e t.current_record },
  some (closed_now e t.current_record),
)

-- The body between the sections, with no lock held.
unfoldable pub save_record : Env → ActivityRecord → Tracker → Tracker
save_record e rec t =
    if e.is_excluded rec.process_name || ltb_ℤ (ℤ.pos rec.duration_seconds) e.min_duration_sec
    then t
    else record t { inserted = t.inserted ++ rec ∷ [] }

-- Last section of `finishCurrentRecord`.
unfoldable pub end_finish : Tracker → Tracker
end_finish t = record t { finish_in_progress = false }

finish_saved : Env → Option ActivityRecord → Tracker → Tracker
finish_saved e none t = t
finish_saved e (some rec) t = end_finish (save_record e rec t)

unfoldable pub finish_current_record : Env → Tracker → Tracker
unfolding begin_finish save_record end_finish finish_saved
finish_current_record e t = let (t', snapshot) = begin_finish e t in finish_saved e snapshot t'

-- `hasOpenRecord` of `closeCurrentSession`.
abbrev pub has_open_record : Tracker → Bool
has_open_record t = not (is_empty t.last_window.process_name)

-- Last section of `closeCurrentSession`.
unfoldable pub clear_session : Tracker → Tracker
clear_session t = record t { last_window = no_window; current_record = no_record }

unfoldable pub close_current_session : Env → Tracker → Tracker
unfolding finish_current_record clear_session
close_current_session e t =
    if has_open_record t then clear_session (finish_current_record e t) else t

-- How the first locked section of `monitor_activity` ends.
pub data Seen : Type 0 where
  returned changed : Seen

abbrev pub same_window : ActiveWindow → ActiveWindow → Bool
same_window a b = bytes_eq a.process_name b.process_name && bytes_eq a.window_title b.window_title

unfoldable pub look : Env → ActiveWindow → Tracker → Tracker × Seen
unfolding start_new_record
look e w t =
    if t.suspended
    then (t, returned)
    else if is_empty t.last_window.process_name
    then (start_new_record e w t, returned)
    else if same_window w t.last_window
    then (t, returned)
    else (t, changed)

-- Last section of `monitor_activity`.
unfoldable pub switch_record : Env → ActiveWindow → Tracker → Tracker
unfolding start_new_record
switch_record e w t = if t.suspended then t else start_new_record e w t

monitor_seen : Env → ActiveWindow → Tracker → Seen → Tracker
monitor_seen e w t returned = t
monitor_seen e w t changed = switch_record e w (finish_current_record e t)

-- `none` is a foreground window that `getActiveWindowInfo` cannot name.
unfoldable pub monitor_activity : Env → Option ActiveWindow → Tracker → Tracker
unfolding look switch_record finish_current_record monitor_seen
monitor_activity e none t = t
monitor_activity e (some w) t =
    if t.suspended then t else let (t', seen) = look e w t in monitor_seen e w t' seen

-- The first section of `activity_suspend`.
unfoldable pub set_suspended : Tracker → Tracker
set_suspended t = record t { suspended = true }

unfoldable pub activity_suspend : Env → Tracker → Tracker
unfolding set_suspended close_current_session
activity_suspend e t = close_current_session e (set_suspended t)

unfoldable pub activity_resume : Tracker → Tracker
activity_resume t = record t { suspended = false }

-- What `activity_get_current` copies out, into buffers that are large enough.
unfoldable pub activity_get_current : Tracker → List ℕ × List ℕ × ℕ
activity_get_current t =
    (t.current_record.process_name, t.current_record.window_title, t.current_record.start_time)
