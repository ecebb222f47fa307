-- ===== src/Activity/Time.antt =====
-- The time that src/agent/core/activity.cpp records, where its calls do not interleave.
use just_in_time.Prelude.{
  Bool, ◌∙◌, ℕ, ◌+◌, ◌≤◌, ◌≡◌, ◌≢◌, refl, true, false, Bool-cases, inl, inr, ◌||◌, ◌==◌, Option,
  none, some, List, [], ◌∷◌, ◌++◌, arith, if◌then◌else◌, ltb_ℤ, ℤ,
}
use just_in_time.Db.{ActivityRecord}
use just_in_time.Activity.{
  ActiveWindow, Tracker, Env, Seen, initial, is_empty, same_window, start_new_record, closed_now,
  begin_finish, save_record, end_finish, finish_current_record, clear_session,
  close_current_session, look, switch_record, monitor_seen, monitor_activity, set_suspended,
  activity_suspend, activity_resume,
}

-- The calls of the program, each with its clock.
pub data Call : Type 0 where
  monitor : Env → Option ActiveWindow → Call
  close suspend : Env → Call
  resume : Call

unfoldable pub serve : Call → Tracker → Tracker
serve (monitor e w) t = monitor_activity e w t
serve (close e) t = close_current_session e t
serve (suspend e) t = activity_suspend e t
serve resume t = activity_resume t

unfoldable pub serve_all : List Call → Tracker → Tracker
unfolding serve
serve_all [] t = t
serve_all (a ∷ calls) t = serve_all calls (serve a t)

-- The clock reads `from` or later at the first call, and never goes back up to `to`.
abbrev pub Ticks : ℕ → List Call → ℕ → Type 0
Ticks from [] to = from ≤ to
Ticks from (monitor e w ∷ calls) to = (from ≤ e.now) × Ticks e.now calls to
Ticks from (close e ∷ calls) to = (from ≤ e.now) × Ticks e.now calls to
Ticks from (suspend e ∷ calls) to = (from ≤ e.now) × Ticks e.now calls to
Ticks from (resume ∷ calls) to = Ticks from calls to

-- Each record ends before the next one starts, all between `from` and `to`.
abbrev pub InTurn : ℕ → List ActivityRecord → ℕ → Type 0
InTurn from [] to = from ≤ to
InTurn from (r ∷ rs) to =
    (from ≤ r.start_time)
    × (r.start_time + r.duration_seconds ≤ r.end_time)
    × InTurn r.end_time rs to

abbrev pub total_seconds : List ActivityRecord → ℕ
total_seconds [] = 0
total_seconds (r ∷ rs) = r.duration_seconds + total_seconds rs

InTurn-le :
    (from : ℕ) (rs : List ActivityRecord) (to : ℕ)
    → InTurn from rs to
    → from + total_seconds rs ≤ to
InTurn-le from [] to h = omega arith
InTurn-le from (r ∷ rs) to h = omega (arith, h.0, h.1, InTurn-le r.end_time rs to h.2)

InTurn-mono :
    (from : ℕ) (rs : List ActivityRecord) (a b : ℕ) → a ≤ b → InTurn from rs a → InTurn from rs b
InTurn-mono from [] a b h i = omega arith
InTurn-mono from (r ∷ rs) a b h i = (i.0, i.1, InTurn-mono r.end_time rs a b h i.2)

InTurn-append :
    (from : ℕ) (rs : List ActivityRecord) (r : ActivityRecord)
    → InTurn from rs r.start_time
    → r.start_time + r.duration_seconds ≤ r.end_time
    → InTurn from (rs ++ r ∷ []) r.end_time
InTurn-append from [] r h k = (h, k, omega arith)
InTurn-append from (x ∷ rs) r h k = (h.0, h.1, InTurn-append x.end_time rs r h.2 k)

-- What holds between calls, the last of which was at `now`.
record Between (from now : ℕ) (t : Tracker) : Type 0 where
  free : t.finish_in_progress ≡ false
  recorded : InTurn from t.inserted now
  open_record :
      t.current_record.start_time ≢ 0
      → InTurn from t.inserted t.current_record.start_time × (t.current_record.start_time ≤ now)

-- What holds behind `finishCurrentRecord`, where the record that was saved is still there.
abbrev Finished : ℕ → ℕ → Tracker → Tracker → Type 0
Finished from now t t' =
    (t'.finish_in_progress ≡ false) × InTurn from t'.inserted now × (t'.suspended ≡ t.suspended)

closed_now-time :
    (e : Env) (r : ActivityRecord)
    → r.start_time ≤ e.now
    → (closed_now e r).start_time + (closed_now e r).duration_seconds ≤ (closed_now e r).end_time
unfolding closed_now
closed_now-time e r h = ground arith

save_record-Finished :
    (from : ℕ) (e : Env) (rec : ActivityRecord) (t : Tracker)
    → InTurn from t.inserted rec.start_time
    → rec.start_time + rec.duration_seconds ≤ rec.end_time
    → InTurn from t.inserted e.now
    → rec.end_time ≡ e.now
    → Finished from e.now t (end_finish (save_record e rec t))
unfolding save_record end_finish
save_record-Finished from e rec t turn time_ok before now =
    let longer : InTurn from (t.inserted ++ rec ∷ []) e.now =
      rw (← now) (InTurn-append from t.inserted rec turn time_ok) in
    elim (Bool-cases
      (e.is_excluded rec.process_name || ltb_ℤ (ℤ.pos rec.duration_seconds) e.min_duration_sec)) [
        | inl skip ↦ simp skip (refl, before, refl)
        | inr stored ↦ simp stored (refl, longer, refl)
      ]

finish-Finished :
    (from now : ℕ) (e : Env) (t : Tracker)
    → now ≤ e.now
    → Between from now t
    → Finished from e.now t (finish_current_record e t)
unfolding finish_current_record begin_finish
finish-Finished from now e t later b =
    elim (Bool-cases (t.finish_in_progress || t.current_record.start_time == 0)) [
      | inl skip ↦ simp skip (b.free, InTurn-mono from t.inserted now e.now later b.recorded, refl)
      | inr go ↦
          let opened : t.current_record.start_time ≢ 0 = ground arith in
          let (turn, started) = b.open_record opened in
          simp go (
            save_record-Finished from e (closed_now e t.current_record) _ turn
              (closed_now-time e t.current_record (omega arith))
              (InTurn-mono from t.inserted now e.now later b.recorded) refl)
    ]

start-Between :
    (from : ℕ) (e : Env) (w : ActiveWindow) (t : Tracker)
    → t.finish_in_progress ≡ false
    → InTurn from t.inserted e.now
    → Between from e.now (start_new_record e w t)
unfolding start_new_record
start-Between from e w t free turn = record {
  free = free;
  recorded = turn;
  open_record = λ _. (turn, omega arith);
}

Between-later :
    (from now later : ℕ) (t : Tracker) → now ≤ later → Between from now t → Between from later t
Between-later from now later t h b = record {
  free = b.free;
  recorded = InTurn-mono from t.inserted now later h b.recorded;
  open_record = λ o. ((b.open_record o).0, omega (arith, (b.open_record o).1));
}

close-Between :
    (from now : ℕ) (e : Env) (t : Tracker)
    → now ≤ e.now
    → Between from now t
    → Between from e.now (close_current_session e t)
unfolding close_current_session clear_session
close-Between from now e t later b = elim (Bool-cases (is_empty t.last_window.process_name)) [
  | inl none_open ↦ simp none_open (Between-later from now e.now t later b)
  | inr some_open ↦
      let f = finish-Finished from now e t later b in
      simp some_open (record { free = f.0; recorded = f.1; open_record = λ o. absurd (o refl) })
]

switch-Between :
    (from : ℕ) (e : Env) (w : ActiveWindow) (t : Tracker)
    → t.suspended ≡ false
    → t.finish_in_progress ≡ false
    → InTurn from t.inserted e.now
    → Between from e.now (switch_record e w t)
unfolding switch_record
switch-Between from e w t awake free turn = go t.suspended awake
  where
    go : (b : Bool) → b ≡ false → Between from e.now (if b then t else start_new_record e w t)
    go true h = cc
    go false h = start-Between from e w t free turn

-- What the first section of `monitor_activity` may leave.
data Looks (e : Env) (w : ActiveWindow) (t : Tracker) (r : Tracker × Seen) : Type 0 where
  kept : r ≡ (t, Seen.returned) → Looks e w t r
  opened : r ≡ (start_new_record e w t, Seen.returned) → Looks e w t r
  moved : t.suspended ≡ false → r ≡ (t, Seen.changed) → Looks e w t r

look-Looks : (e : Env) (w : ActiveWindow) (t : Tracker) → Looks e w t (look e w t)
unfolding look
look-Looks e w t =
    go t.suspended (is_empty t.last_window.process_name) (same_window w t.last_window) refl
  where
    go :
        (asleep first same : Bool)
        → t.suspended ≡ asleep
        → Looks e w t (
            if◌then◌else◌ {A = Tracker × Seen} asleep
              (t, Seen.returned)
              (if◌then◌else◌ {A = Tracker × Seen} first
                (start_new_record e w t, Seen.returned)
                (if◌then◌else◌ {A = Tracker × Seen} same (t, Seen.returned) (t, Seen.changed))))
    go true first same h = kept refl
    go false true same h = opened refl
    go false false true h = kept refl
    go false false false h = moved h refl

monitor-Between :
    (from now : ℕ) (e : Env) (w : Option ActiveWindow) (t : Tracker)
    → now ≤ e.now
    → Between from now t
    → Between from e.now (monitor_activity e w t)
unfolding monitor_activity
monitor-Between from now e none t later b = Between-later from now e.now t later b
monitor-Between from now e (some w) t later b = go t.suspended
  where
    whole : Between from e.now t
    whole = Between-later from now e.now t later b

    seen : (r : Tracker × Seen) → Looks e w t r → Between from e.now (monitor_seen e w r.0 r.1)
    seen r (kept h) = rw h whole
    seen r (opened h) = rw h (start-Between from e w t b.free whole.recorded)
    seen r (moved awake h) =
        let f = finish-Finished from now e t later b in
        rw h (switch-Between from e w (finish_current_record e t) (f.2 ∙ awake) f.0 f.1)

    go :
        (a : Bool)
        → Between from e.now (if a then t else monitor_seen e w (look e w t).0 (look e w t).1)
    go true = whole
    go false = seen (look e w t) (look-Looks e w t)

serve-Between :
    (from now : ℕ) (calls : List Call) (to : ℕ) (t : Tracker)
    → Ticks now calls to
    → Between from now t
    → Between from to (serve_all calls t)
unfolding serve_all activity_suspend activity_resume set_suspended
serve-Between from now [] to t h b = Between-later from now to t h b
serve-Between from now (monitor e w ∷ calls) to t h b =
    serve-Between from e.now calls to _ h.1 (monitor-Between from now e w t h.0 b)
serve-Between from now (close e ∷ calls) to t h b =
    serve-Between from e.now calls to _ h.1 (close-Between from now e t h.0 b)
serve-Between from now (suspend e ∷ calls) to t h b = serve-Between from e.now calls to _ h.1 (
    close-Between from now e (set_suspended t) h.0
      (record { free = b.free; recorded = b.recorded; open_record = b.open_record }))
serve-Between from now (resume ∷ calls) to t h b =
    serve-Between from now calls to _ h
      (record { free = b.free; recorded = b.recorded; open_record = b.open_record })

-- If calls do not interleave and the clock never goes back, the inserted records follow one another
-- without overlap, and the seconds they sum up to are at most the time that passed.
pub serve_all-InTurn :
    (from to : ℕ) (calls : List Call)
    → Ticks from calls to
    → InTurn from (serve_all calls initial).inserted to
      × (from + total_seconds (serve_all calls initial).inserted ≤ to)
serve_all-InTurn from to calls h =
    let b =
      serve-Between from from calls to initial h
        (record { free = refl; recorded = omega arith; open_record = λ o. absurd (o refl) }) in
    (b.recorded, InTurn-le from (serve_all calls initial).inserted to b.recorded)
