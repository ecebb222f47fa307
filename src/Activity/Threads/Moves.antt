-- ===== src/Activity/Threads/Moves.antt =====
-- What one step of a thread of activity.cpp keeps, whatever the other thread is at.
use just_in_time.Prelude.{
  ℕ, ◌+◌, ◌-◌, ◌^◌, ◌%◌, ◌≡◌, ◌≢◌, refl, Bool, true, false, inl, inr, ◌||◌, [], ◌∷◌, arith, All,
  All-append, Bool-cases, if◌then◌else◌, ltb_ℤ, ◌==◌, ℤ,
}
use just_in_time.Db.{ActivityRecord}
use just_in_time.Activity.{
  ActiveWindow, Tracker, Env, Seen, is_empty, closed_now, start_new_record, begin_finish,
  save_record, end_finish, clear_session, look, same_window, switch_record,
}
use just_in_time.Activity.Threads.{
  After, then_switch, then_clear, Pc, idle, checking, clearing, peeked, finishing, saving,
  releasing, switching, behind, looked, begun, move,
}

-- A closed record: it was opened, and its duration is the time between its ends, cut to 32 bits.
abbrev pub IsClosed : ActivityRecord → Type 0
IsClosed r = (r.start_time ≢ 0) × (r.duration_seconds ≡ (r.end_time - r.start_time) % 2 ^ 32)

-- 1 inside the part of `finishCurrentRecord` that saves.
abbrev pub holds : Pc → ℕ
holds (saving rec k) = 1
holds (releasing k) = 1
holds pc = 0

abbrev pub NamesProcess : ActiveWindow → Type 0
NamesProcess w = is_empty w.process_name ≡ false

abbrev pub AfterOk : After → Type 0
AfterOk (then_switch w) = NamesProcess w
AfterOk then_clear = Unit

abbrev pub PcOk : Pc → Type 0
PcOk (peeked w) = NamesProcess w
PcOk (finishing k) = AfterOk k
PcOk (saving rec k) = IsClosed rec × AfterOk k
PcOk (releasing k) = AfterOk k
PcOk (switching w) = NamesProcess w
PcOk pc = Unit

-- Inside `activity_suspend`: no window is switched to from there.
abbrev pub InSuspend : Pc → Type 0
InSuspend idle = Unit
InSuspend checking = Unit
InSuspend clearing = Unit
InSuspend (finishing then_clear) = Unit
InSuspend (saving rec then_clear) = Unit
InSuspend (releasing then_clear) = Unit
InSuspend pc = ⊥

abbrev pub HasNoRecord : Tracker → Type 0
HasNoRecord t = (is_empty t.last_window.process_name ≡ true) × (t.current_record.start_time ≡ 0)

-- What the shared variables keep, with `n` threads inside the saving part.
pub record TrackerOk (n : ℕ) (t : Tracker) : Type 0 where
  pub empty_closed : is_empty t.last_window.process_name ≡ true → t.current_record.start_time ≡ 0
  pub flag : n ≡ (if t.finish_in_progress then 1 else 0)
  pub saved : All IsClosed t.inserted

closed_now-IsClosed : (e : Env) (r : ActivityRecord) → r.start_time ≢ 0 → IsClosed (closed_now e r)
unfolding closed_now
closed_now-IsClosed e r h = ground arith

-- What one thread's step keeps, whatever the other thread holds.
pub record Moves (m : ℕ) (t : Tracker) (next : Tracker × Pc) : Type 0 where
  pub tracker_ok : TrackerOk (holds next.1 + m) next.0
  pub pc_ok : PcOk next.1
  pub same_suspended : next.0.suspended ≡ t.suspended
  pub stays_closed : t.suspended ≡ true → HasNoRecord t → HasNoRecord next.0

save_record-Moves :
    (e : Env) (rec : ActivityRecord) (k : After) (t : Tracker) (m : ℕ)
    → IsClosed rec
    → AfterOk k
    → TrackerOk (1 + m) t
    → Moves m t (save_record e rec t, releasing k)
unfolding save_record
save_record-Moves e rec k t m c a ok =
    elim (Bool-cases
      (e.is_excluded rec.process_name || ltb_ℤ (ℤ.pos rec.duration_seconds) e.min_duration_sec)) [
        | inl skip ↦
            simp skip (record {
              tracker_ok = ok;
              pc_ok = a;
              same_suspended = refl;
              stays_closed = λ _ h. h;
            })
        | inr stored ↦ simp stored (record {
          tracker_ok = record {
            empty_closed = ok.empty_closed;
            flag = ok.flag;
            saved = All-append IsClosed t.inserted (rec ∷ []) ok.saved (c, tt);
          };
          pc_ok = a;
          same_suspended = refl;
          stays_closed = λ _ h. h;
        })
      ]

unchanged :
    (m : ℕ) (t : Tracker) (pc : Pc) → TrackerOk (holds pc + m) t → PcOk pc → Moves m t (t, pc)
unchanged m t pc ok p = record {
  tracker_ok = ok;
  pc_ok = p;
  same_suspended = refl;
  stays_closed = λ _ h. h;
}

start-Moves :
    (e : Env) (w : ActiveWindow) (t : Tracker) (m : ℕ)
    → NamesProcess w
    → t.suspended ≡ false
    → TrackerOk (0 + m) t
    → Moves m t (start_new_record e w t, idle)
unfolding start_new_record
start-Moves e w t m named awake ok = record {
  tracker_ok = record { empty_closed = λ h. cc; flag = ok.flag; saved = ok.saved };
  pc_ok = tt;
  same_suspended = refl;
  stays_closed = λ h _. cc;
}

look-Moves :
    (e : Env) (w : ActiveWindow) (t : Tracker) (m : ℕ)
    → NamesProcess w
    → TrackerOk (0 + m) t
    → Moves m t ((look e w t).0, looked w (look e w t).1)
unfolding look
look-Moves e w t m named ok = go t.suspended refl
  where
    go :
        (b : Bool)
        → t.suspended ≡ b
        → let next : Tracker × Seen =
            if b
            then (t, Seen.returned)
            else if is_empty t.last_window.process_name
            then (start_new_record e w t, Seen.returned)
            else if same_window w t.last_window
            then (t, Seen.returned)
            else (t, Seen.changed) in
          Moves m t (next.0, looked w next.1)
    go true asleep = unchanged m t idle ok tt
    go false awake = elim (Bool-cases (is_empty t.last_window.process_name)) [
      | inl first ↦ simp first (start-Moves e w t m named awake ok)
      | inr running ↦ elim (Bool-cases (same_window w t.last_window)) [
        | inl same ↦ simp (running, same) (unchanged m t idle ok tt)
        | inr changed ↦ simp (running, changed) (unchanged m t (finishing (then_switch w)) ok named)
      ]
    ]

behind-PcOk : (k : After) → AfterOk k → PcOk (behind k)
behind-PcOk (then_switch w) a = a
behind-PcOk then_clear a = tt

holds-behind : (k : After) → holds (behind k) ≡ 0
holds-behind (then_switch w) = refl
holds-behind then_clear = refl

begin_finish-Moves :
    (e : Env) (k : After) (t : Tracker) (m : ℕ)
    → AfterOk k
    → TrackerOk (0 + m) t
    → Moves m t ((begin_finish e t).0, begun k (begin_finish e t).1)
unfolding begin_finish
begin_finish-Moves e k t m a ok =
    elim (Bool-cases (t.finish_in_progress || t.current_record.start_time == 0)) [
      | inl skip ↦ simp skip (unchanged m t (behind k) (rw (holds-behind k) ok) (behind-PcOk k a))
      | inr go ↦
          let opened : t.current_record.start_time ≢ 0 = ground arith in
          simp go (record {
            tracker_ok = record {
              empty_closed = ok.empty_closed;
              flag = ground arith;
              saved = ok.saved;
            };
            pc_ok = (closed_now-IsClosed e t.current_record opened, a);
            same_suspended = refl;
            stays_closed = λ _ h. h;
          })
    ]

pub move-Moves :
    (e : Env) (pc : Pc) (t : Tracker) (m : ℕ)
    → TrackerOk (holds pc + m) t
    → PcOk pc
    → Moves m t (move e pc t)
unfolding move clear_session switch_record end_finish
move-Moves e idle t m ok p = unchanged m t idle ok p
move-Moves e checking t m ok p = elim (Bool-cases (is_empty t.last_window.process_name)) [
  | inl none_open ↦ simp none_open (unchanged m t idle ok p)
  | inr some_open ↦ simp some_open (unchanged m t (finishing then_clear) ok p)
]
move-Moves e clearing t m ok p = record {
  tracker_ok = record { empty_closed = λ _. refl; flag = ok.flag; saved = ok.saved };
  pc_ok = tt;
  same_suspended = refl;
  stays_closed = λ _ _. (refl, refl);
}
move-Moves e (peeked w) t m ok p = look-Moves e w t m p ok
move-Moves e (finishing k) t m ok p = begin_finish-Moves e k t m p ok
move-Moves e (saving rec k) t m ok p = save_record-Moves e rec k t m p.0 p.1 ok
move-Moves e (releasing k) t m ok p = record {
  tracker_ok = record {
    empty_closed = ok.empty_closed;
    flag = ground (arith, holds-behind k);
    saved = ok.saved;
  };
  pc_ok = behind-PcOk k p;
  same_suspended = refl;
  stays_closed = λ _ h. h;
}
move-Moves e (switching w) t m ok p = go t.suspended refl
  where
    go : (b : Bool) → t.suspended ≡ b → Moves m t (if b then t else start_new_record e w t, idle)
    go true asleep = unchanged m t idle ok tt
    go false awake = start-Moves e w t m p awake ok
