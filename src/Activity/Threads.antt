-- ===== src/Activity/Threads.antt =====
-- src/agent/core/activity.cpp as its two threads run it: the watch thread (`monitor_activity`, and
-- `closeCurrentSession` from `activity_check_limits`) and the GUI thread (`activity_suspend`,
-- `activity_resume`). A step is what happens under one hold of the mutex, or the work between two.
pub mod Moves
pub mod Invariant
pub mod Race
pub mod Alone
use just_in_time.Prelude.{ℕ, Bool, true, false, Option, none, some, List, [], ◌∷◌, if◌then◌else◌}
use just_in_time.Db.{ActivityRecord}
use just_in_time.Activity.{
  ActiveWindow, Tracker, Env, Seen, initial, has_open_record, begin_finish, save_record, end_finish,
  clear_session, look, switch_record, set_suspended, activity_resume,
}

-- What the caller of `finishCurrentRecord` does behind it.
pub data After : Type 0 where
  then_switch : ActiveWindow → After
  then_clear : After

-- Where a thread stands; `peeked w` is behind the first test of g_suspended and the look at the
-- foreground window, `checking` before the test for an open record.
pub data Pc : Type 0 where
  idle checking clearing : Pc
  peeked : ActiveWindow → Pc
  finishing : After → Pc
  saving : ActivityRecord → After → Pc
  releasing : After → Pc
  switching : ActiveWindow → Pc

pub record System : Type 0 where
  pub tracker : Tracker
  pub watch : Pc
  pub gui : Pc

-- Where `finishCurrentRecord` returns to.
abbrev pub behind : After → Pc
behind (then_switch w) = switching w
behind then_clear = clearing

abbrev pub looked : ActiveWindow → Seen → Pc
looked w Seen.returned = idle
looked w Seen.changed = finishing (then_switch w)

abbrev pub begun : After → Option ActivityRecord → Pc
begun k none = behind k
begun k (some rec) = saving rec k

-- The next step of a thread that is inside a call.
unfoldable pub move : Env → Pc → Tracker → Tracker × Pc
move e idle t = (t, idle)
move e checking t = (t, if has_open_record t then finishing then_clear else idle)
move e clearing t = (clear_session t, idle)
move e (peeked w) t = let (t', seen) = look e w t in (t', looked w seen)
move e (finishing k) t = let (t', snapshot) = begin_finish e t in (t', begun k snapshot)
move e (saving rec k) t = (save_record e rec t, releasing k)
move e (releasing k) t = (end_finish t, behind k)
move e (switching w) t = (switch_record e w t, idle)

-- A call begins, or a thread moves on; the scheduler may pick any at any time.
pub data Action : Type 0 where
  monitor : ActiveWindow → Action
  close suspend resume : Action
  watch_moves gui_moves : Env → Action

-- A thread that is inside a call begins no other; a window has a process name.
abbrev pub begin_watch : Pc → Pc → Pc
begin_watch idle entered = entered
begin_watch busy entered = busy

begin_monitor : ActiveWindow → System → System
begin_monitor w s =
    if s.tracker.suspended then s else record s { watch = begin_watch s.watch (peeked w) }

begin_gui : Tracker → Pc → System → Pc → System
begin_gui t entered s idle = record s { tracker = t; gui = entered }
begin_gui t entered s busy = s

unfoldable pub act : Action → System → System
unfolding move begin_monitor begin_gui
act (monitor w) s = begin_monitor w s
act close s = record s { watch = begin_watch s.watch checking }
act suspend s = begin_gui (set_suspended s.tracker) checking s s.gui
act resume s = begin_gui (activity_resume s.tracker) idle s s.gui
act (watch_moves e) s =
    let (t, pc) = move e s.watch s.tracker in record s { tracker = t; watch = pc }
act (gui_moves e) s = let (t, pc) = move e s.gui s.tracker in record s { tracker = t; gui = pc }

-- An interleaving is a list of actions.
unfoldable pub run : List Action → System → System
unfolding act
run [] s = s
run (a ∷ actions) s = run actions (act a s)

abbrev pub started : System
started = record { tracker = initial; watch = idle; gui = idle }
