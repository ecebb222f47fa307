-- ===== src/Activity/Examples.antt =====
-- The theorems on the tracker at a session with an editor and a browser.
use just_in_time.Prelude.{
  ℕ, ◌+◌, ◌≤◌, ◌≡◌, refl, true, false, some, List, [], ◌∷◌, ◌++◌, All, codes, ℤ, arith,
  if◌then◌else◌,
}
use just_in_time.Activity.{
  ActiveWindow, Tracker, Env, initial, closed_now, look, begin_finish, save_record, end_finish,
  set_suspended, clear_session, switch_record,
}
use just_in_time.Activity.Time.{Call, serve_all, InTurn, total_seconds, serve_all-InTurn}
use just_in_time.Activity.Threads.{
  Action, idle, monitor, suspend, watch_moves, gui_moves, act, move, run, started,
}
use just_in_time.Activity.Threads.Moves.{IsClosed, holds, HasNoRecord}
use just_in_time.Activity.Threads.Invariant.{ActionOk, run_saved, run_suspended}
use just_in_time.Activity.Threads.Race.{locked_in_between, run_inserts_twice}

abbrev editor : ActiveWindow
editor = record { window_title = codes "main.cpp"; process_name = codes "code.exe" }

abbrev browser : ActiveWindow
browser = record { window_title = codes "news"; process_name = codes "web.exe" }

abbrev at : ℕ → Env
at now = record { now = now; is_excluded = λ _. false; min_duration_sec = ℤ.pos 2 }

-- The editor is open since 1000.
abbrev editing : Tracker
editing = record {
  last_window = editor;
  current_record = record {
    process_name = codes "code.exe";
    window_title = codes "main.cpp";
    start_time = 1000;
    end_time = 0;
    duration_seconds = 0;
    synced = 0;
  };
  finish_in_progress = false;
  suspended = false;
  inserted = [];
}

abbrev day : List Call
day =
    Call.monitor (at 1000) (some editor)
    ∷ Call.monitor (at 1060) (some browser)
    ∷ Call.suspend (at 1100)
    ∷ Call.resume
    ∷ Call.monitor (at 5000) (some browser)
    ∷ []

serve_all-InTurn_example :
    InTurn 900 (serve_all day initial).inserted 6000
    × (900 + total_seconds (serve_all day initial).inserted ≤ 6000)
serve_all-InTurn_example = serve_all-InTurn 900 6000 day (omega arith)

-- The machine is locked while the editor's record is being saved.
abbrev locked : List Action
locked =
    monitor editor
    ∷ watch_moves (at 1000)
    ∷ monitor browser
    ∷ watch_moves (at 1060)
    ∷ watch_moves (at 1060)
    ∷ suspend
    ∷ gui_moves (at 1061)
    ∷ gui_moves (at 1061)
    ∷ gui_moves (at 1061)
    ∷ watch_moves (at 1062)
    ∷ watch_moves (at 1062)
    ∷ watch_moves (at 1062)
    ∷ []

named : All ActionOk locked
named = (refl, (tt, (refl, (tt, (tt, (tt, (tt, (tt, (tt, (tt, (tt, (tt, tt))))))))))))

run_saved_example :
    let s = run locked started in
    (holds s.watch + holds s.gui ≡ (if s.tracker.finish_in_progress then 1 else 0))
    × All IsClosed s.tracker.inserted
run_saved_example = run_saved locked named

locked_returned :
    ((run locked started).gui ≡ idle) × ((run locked started).tracker.suspended ≡ true)
unfolding run act move look begin_finish save_record end_finish set_suspended clear_session
    switch_record
locked_returned = (refl, refl)

run_suspended_example : HasNoRecord (run locked started).tracker
run_suspended_example = run_suspended locked named locked_returned.0 locked_returned.1

run_inserts_twice_example :
    (run
      (locked_in_between (at 1060) (at 1061) browser)
      (record { tracker = editing; watch = idle; gui = idle })).tracker.inserted
    ≡ editing.inserted
      ++ (closed_now (at 1060) editing.current_record
          ∷ closed_now (at 1061) (closed_now (at 1060) editing.current_record)
          ∷ [])
unfolding closed_now
run_inserts_twice_example =
    run_inserts_twice (at 1060) (at 1061) browser editing refl refl refl (omega arith) refl refl
      refl
