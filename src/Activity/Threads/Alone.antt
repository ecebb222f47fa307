-- ===== src/Activity/Threads/Alone.antt =====
-- The calls of activity.cpp as functions are what their steps do when no other thread comes between.
use just_in_time.Prelude.{◌≡◌, refl, Bool-cases, inl, inr, ◌||◌, ◌==◌, some, List, [], ◌∷◌}
use just_in_time.Activity.{
  ActiveWindow, Tracker, Env, is_empty, same_window, begin_finish, finish_current_record,
  monitor_activity, activity_suspend, close_current_session, look, set_suspended,
}
use just_in_time.Activity.Threads.{
  idle, Action, monitor, suspend, watch_moves, gui_moves, move, act, run,
}

-- The steps of one `monitor_activity`, with the clock standing still.
abbrev pub monitor_steps : Env → ActiveWindow → List Action
monitor_steps e w =
    monitor w ∷ watch_moves e ∷ watch_moves e ∷ watch_moves e ∷ watch_moves e ∷ watch_moves e ∷ []

abbrev pub suspend_steps : Env → List Action
suspend_steps e = suspend ∷ gui_moves e ∷ gui_moves e ∷ gui_moves e ∷ gui_moves e ∷ gui_moves e ∷ []

monitor_alone :
    (e : Env) (w : ActiveWindow) (t : Tracker)
    → run (monitor_steps e w) (record { tracker = t; watch = idle; gui = idle })
      ≡ record { tracker = monitor_activity e (some w) t; watch = idle; gui = idle }
unfolding run act move monitor_activity finish_current_record look begin_finish
monitor_alone e w t = elim (Bool-cases t.suspended) [
  | inl asleep ↦ simp asleep refl
  | inr awake ↦ elim (Bool-cases (is_empty t.last_window.process_name)) [
    | inl first ↦ simp (awake, first) refl
    | inr running ↦ elim (Bool-cases (same_window w t.last_window)) [
      | inl same ↦ simp (awake, running, same) refl
      | inr changed ↦ elim (Bool-cases (t.finish_in_progress || t.current_record.start_time == 0)) [
        | inl skip ↦ simp (awake, running, changed, skip) refl
        | inr go ↦ simp (awake, running, changed, go) refl
      ]
    ]
  ]
]

suspend_alone :
    (e : Env) (t : Tracker)
    → run (suspend_steps e) (record { tracker = t; watch = idle; gui = idle })
      ≡ record { tracker = activity_suspend e t; watch = idle; gui = idle }
unfolding run act move activity_suspend close_current_session finish_current_record set_suspended
    begin_finish
suspend_alone e t = elim (Bool-cases (is_empty t.last_window.process_name)) [
  | inl none_open ↦ simp none_open refl
  | inr some_open ↦ elim (Bool-cases (t.finish_in_progress || t.current_record.start_time == 0)) [
    | inl skip ↦ simp (some_open, skip) refl
    | inr go ↦ simp (some_open, go) refl
  ]
]

-- Run with nothing in between, the steps of a call do what the function of the call does: those of
-- `monitor_activity` at any state, and those of `activity_suspend` at any state.
pub run_alone :
    (e : Env) (w : ActiveWindow) (t : Tracker)
    → (run (monitor_steps e w) (record { tracker = t; watch = idle; gui = idle })
        ≡ record { tracker = monitor_activity e (some w) t; watch = idle; gui = idle })
      × (run (suspend_steps e) (record { tracker = t; watch = idle; gui = idle })
          ≡ record { tracker = activity_suspend e t; watch = idle; gui = idle })
run_alone e w t = (monitor_alone e w t, suspend_alone e t)
