-- ===== src/Activity/Threads/Race.antt =====
-- A hole in the latch g_finish_in_progress: it covers the saving of a record but not the time from
-- there to the next record's start, in which the old record still counts as open.
use just_in_time.Prelude.{
  ◌≡◌, ◌≢◌, false, ◌||◌, ◌==◌, List, [], ◌∷◌, ◌++◌, append_assoc, arith, ltb_ℤ, ℤ,
}
use just_in_time.Db.{ActivityRecord}
use just_in_time.Activity.{
  ActiveWindow, Tracker, Env, is_empty, same_window, closed_now, begin_finish, save_record,
  end_finish, clear_session, look, set_suspended,
}
use just_in_time.Activity.Threads.{
  idle, Action, monitor, suspend, watch_moves, gui_moves, move, act, run,
}

-- The watch thread sees another window and saves the open record; the machine is locked, and the
-- GUI thread runs all of `activity_suspend`, before the watch thread starts the next record.
abbrev pub locked_in_between : Env → Env → ActiveWindow → List Action
locked_in_between e e' w =
    monitor w
    ∷ watch_moves e
    ∷ watch_moves e
    ∷ watch_moves e
    ∷ watch_moves e
    ∷ suspend
    ∷ gui_moves e'
    ∷ gui_moves e'
    ∷ gui_moves e'
    ∷ gui_moves e'
    ∷ gui_moves e'
    ∷ []

abbrev pub Saves : Env → ActivityRecord → Type 0
Saves e r =
    (e.is_excluded r.process_name || ltb_ℤ (ℤ.pos r.duration_seconds) e.min_duration_sec) ≡ false

-- With a record open, both threads idle and neither filter in the way, this interleaving inserts
-- the same record twice, with the same start and the two times at which it was closed.
pub run_inserts_twice :
    (e e' : Env) (w : ActiveWindow) (t : Tracker)
    → t.suspended ≡ false
    → t.finish_in_progress ≡ false
    → is_empty t.last_window.process_name ≡ false
    → t.current_record.start_time ≢ 0
    → same_window w t.last_window ≡ false
    → Saves e (closed_now e t.current_record)
    → Saves e' (closed_now e' (closed_now e t.current_record))
    → (run
        (locked_in_between e e' w)
        (record { tracker = t; watch = idle; gui = idle })).tracker.inserted
      ≡ t.inserted
        ++ (closed_now e t.current_record ∷ closed_now e' (closed_now e t.current_record) ∷ [])
unfolding run act move look begin_finish save_record end_finish set_suspended clear_session
    closed_now
run_inserts_twice e e' w t awake free open_window opened changed stored stored' =
    let some_start : (t.current_record.start_time == 0) ≡ false = ground arith in
    simp (awake, free, open_window, some_start, changed, stored, stored')
      (append_assoc t.inserted _ _)
