-- ===== src/Activity/Threads/Invariant.antt =====
-- What every interleaving of the two threads of activity.cpp keeps.
use just_in_time.Prelude.{
  ℕ, ◌+◌, ◌≡◌, refl, true, false, inl, inr, List, [], ◌∷◌, arith, All, Bool-cases, if◌then◌else◌,
}
use just_in_time.Activity.{
  Tracker, Env, is_empty, begin_finish, clear_session, set_suspended, activity_resume,
}
use just_in_time.Activity.Threads.Moves.{
  IsClosed, holds, PcOk, InSuspend, HasNoRecord, TrackerOk, move-Moves,
}
use just_in_time.Activity.Threads.{
  then_switch, then_clear, Pc, idle, checking, clearing, peeked, finishing, saving, releasing,
  switching, System, move, Action, monitor, close, suspend, resume, watch_moves, gui_moves,
  begin_watch, act, run, started,
}

-- Behind `activity_suspend`, and until `activity_resume`, there is no record.
abbrev Settled : Pc → Tracker → Type 0
Settled idle t = t.suspended ≡ true → HasNoRecord t
Settled busy t = Unit

record Good (s : System) : Type 0 where
  tracker_ok : TrackerOk (holds s.watch + holds s.gui) s.tracker
  watch_ok : PcOk s.watch
  gui_ok : PcOk s.gui
  in_suspend : InSuspend s.gui
  settled : Settled s.gui s.tracker

-- A window that is looked at has a process name: `getActiveWindowInfo` fails otherwise.
abbrev pub ActionOk : Action → Type 0
ActionOk (monitor w) = is_empty w.process_name ≡ false
ActionOk action = Unit

move-InSuspend : (e : Env) (pc : Pc) (t : Tracker) → InSuspend pc → InSuspend (move e pc t).1
unfolding move begin_finish
move-InSuspend e idle t h = tt
move-InSuspend e checking t h = ground arith
move-InSuspend e clearing t h = tt
move-InSuspend e (peeked w) t h = absurd h
move-InSuspend e (finishing (then_switch w)) t h = absurd h
move-InSuspend e (finishing then_clear) t h = ground arith
move-InSuspend e (saving rec (then_switch w)) t h = absurd h
move-InSuspend e (saving rec then_clear) t h = tt
move-InSuspend e (releasing (then_switch w)) t h = absurd h
move-InSuspend e (releasing then_clear) t h = tt
move-InSuspend e (switching w) t h = absurd h

move-Settled :
    (e : Env) (pc : Pc) (t : Tracker) (m : ℕ)
    → TrackerOk m t
    → InSuspend pc
    → Settled pc t
    → Settled (move e pc t).1 (move e pc t).0
unfolding move begin_finish clear_session
move-Settled e idle t m ok h s = s
move-Settled e checking t m ok h s = elim (Bool-cases (is_empty t.last_window.process_name)) [
  | inl none_open ↦ simp none_open (λ _. (refl, ok.empty_closed none_open))
  | inr some_open ↦ simp some_open tt
]
move-Settled e clearing t m ok h s = λ _. (refl, refl)
move-Settled e (peeked w) t m ok h s = absurd h
move-Settled e (finishing (then_switch w)) t m ok h s = absurd h
move-Settled e (finishing then_clear) t m ok h s = ground arith
move-Settled e (saving rec k) t m ok h s = tt
move-Settled e (releasing (then_switch w)) t m ok h s = absurd h
move-Settled e (releasing then_clear) t m ok h s = tt
move-Settled e (switching w) t m ok h s = absurd h

started-Good : Good started
started-Good = record {
  tracker_ok = record { empty_closed = λ _. refl; flag = refl; saved = tt };
  watch_ok = tt;
  gui_ok = tt;
  in_suspend = tt;
  settled = λ _. (refl, refl);
}

-- A step of the watch thread opens no record while tracking is suspended.
watch-Settled :
    (pc : Pc) (t t' : Tracker)
    → t'.suspended ≡ t.suspended
    → (t.suspended ≡ true → HasNoRecord t → HasNoRecord t')
    → Settled pc t
    → Settled pc t'
watch-Settled idle t t' same stays s = λ h. stays (cc (h, same)) (s (cc (h, same)))
watch-Settled checking t t' same stays s = tt
watch-Settled clearing t t' same stays s = tt
watch-Settled (peeked w) t t' same stays s = tt
watch-Settled (finishing k) t t' same stays s = tt
watch-Settled (saving rec k) t t' same stays s = tt
watch-Settled (releasing k) t t' same stays s = tt
watch-Settled (switching w) t t' same stays s = tt

TrackerOk-swap : (a b : ℕ) (t : Tracker) → TrackerOk (a + b) t → TrackerOk (b + a) t
TrackerOk-swap a b t ok = record {
  empty_closed = ok.empty_closed;
  flag = omega (arith, ok.flag);
  saved = ok.saved;
}

begin_watch-ok :
    (pc entered : Pc)
    → holds entered ≡ 0
    → PcOk entered
    → PcOk pc
    → (holds (begin_watch pc entered) ≡ holds pc) × PcOk (begin_watch pc entered)
begin_watch-ok idle entered h e p = (h, e)
begin_watch-ok checking entered h e p = (refl, p)
begin_watch-ok clearing entered h e p = (refl, p)
begin_watch-ok (peeked w) entered h e p = (refl, p)
begin_watch-ok (finishing k) entered h e p = (refl, p)
begin_watch-ok (saving rec k) entered h e p = (refl, p)
begin_watch-ok (releasing k) entered h e p = (refl, p)
begin_watch-ok (switching w) entered h e p = (refl, p)

act-Good : (a : Action) (s : System) → ActionOk a → Good s → Good (act a s)
unfolding act set_suspended activity_resume
act-Good (monitor w) s a g = elim (Bool-cases s.tracker.suspended) [
  | inl asleep ↦ simp asleep g
  | inr awake ↦
      let (same, ok) = begin_watch-ok s.watch (peeked w) refl a g.watch_ok in
      simp awake (record {
        tracker_ok = rw same g.tracker_ok;
        watch_ok = ok;
        gui_ok = g.gui_ok;
        in_suspend = g.in_suspend;
        settled = g.settled;
      })
]
act-Good close s a g =
    let (same, ok) = begin_watch-ok s.watch checking refl tt g.watch_ok in
    record {
      tracker_ok = rw same g.tracker_ok;
      watch_ok = ok;
      gui_ok = g.gui_ok;
      in_suspend = g.in_suspend;
      settled = g.settled;
    }
act-Good suspend s a g = ground (arith, g)
act-Good resume s a g = ground (arith, g)
act-Good (watch_moves e) s a g =
    let m = move-Moves e s.watch s.tracker (holds s.gui) g.tracker_ok g.watch_ok in
    record {
      tracker_ok = m.tracker_ok;
      watch_ok = m.pc_ok;
      gui_ok = g.gui_ok;
      in_suspend = g.in_suspend;
      settled = watch-Settled s.gui s.tracker _ m.same_suspended m.stays_closed g.settled;
    }
act-Good (gui_moves e) s a g =
    let ok = TrackerOk-swap (holds s.watch) (holds s.gui) s.tracker g.tracker_ok in
    let m = move-Moves e s.gui s.tracker (holds s.watch) ok g.gui_ok in
    record {
      tracker_ok = TrackerOk-swap _ (holds s.watch) _ m.tracker_ok;
      watch_ok = g.watch_ok;
      gui_ok = m.pc_ok;
      in_suspend = move-InSuspend e s.gui s.tracker g.in_suspend;
      settled = move-Settled e s.gui s.tracker _ g.tracker_ok g.in_suspend g.settled;
    }

run-Good :
    (actions : List Action) (s : System) → All ActionOk actions → Good s → Good (run actions s)
unfolding run
run-Good [] s ok g = g
run-Good (a ∷ actions) s ok g = run-Good actions (act a s) ok.1 (act-Good a s ok.0 g)

-- In every interleaving of the two threads from the start, at most one of them is in the part of
-- `finishCurrentRecord` that saves, and exactly when the flag is set; and each inserted record was
-- opened, with the time between its ends, of which 32 bits are kept, as duration (0 if the clock went
-- back).
pub run_saved :
    (actions : List Action)
    → All ActionOk actions
    → let s = run actions started in
      (holds s.watch + holds s.gui ≡ (if s.tracker.finish_in_progress then 1 else 0))
      × All IsClosed s.tracker.inserted
run_saved actions ok =
    let g = run-Good actions started ok started-Good in (g.tracker_ok.flag, g.tracker_ok.saved)

-- In every interleaving, once `activity_suspend` has returned and until `activity_resume`, no
-- record is open and no window is remembered, whatever the watch thread was in the middle of.
pub run_suspended :
    (actions : List Action)
    → All ActionOk actions
    → (run actions started).gui ≡ idle
    → (run actions started).tracker.suspended ≡ true
    → HasNoRecord (run actions started).tracker
run_suspended actions ok returned asleep =
    let g = run-Good actions started ok started-Good in
    let settled : Settled idle (run actions started).tracker = rw returned at g.settled in
    settled asleep
