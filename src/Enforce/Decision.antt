-- ===== src/Enforce/Decision.antt =====
-- When `activity_check_limits` acts, and that it acts once.
use just_in_time.Prelude.{
  ℕ, ◌≤◌, ◌<◌, ◌≡◌, ◌≢◌, refl, ap, ◌∙◌, ◌⊎◌, inl, inr, Bool, true, false, ◌&&◌, none, some, List,
  [], ◌∷◌, ℤ, arith, Bytes, leb, leb→le, leb→lt, ltb, ◌==◌, if◌then◌else◌, Bool-cases, length,
}
use just_in_time.Activity.{
  Tracker, Env, is_empty, has_open_record, no_record, clear_session, close_current_session,
}
use just_in_time.Limits.{AppLimit}
use just_in_time.Enforce.{
  Check, Event, Reason, find_limit, used_today, judge, apply_limit, activity_check_limits,
}

-- What a parent's limit means: the app is blocked, or its seconds of today are used up.
abbrev pub IsReached : AppLimit → ℕ → Type 0
IsReached l used =
    (l.blocked ≡ true) ⊎ ((daily : ℕ) × (l.daily_limit_sec ≡ ℤ.pos daily) × (daily ≤ used))

no_limit :
    (l : AppLimit) (used n : ℕ)
    → l.blocked ≡ false
    → l.daily_limit_sec ≡ ℤ.negsuc n
    → ¬ (IsReached l used)
no_limit l used n e f (inl h) = cc
no_limit l used n e f (inr (d, h, le)) = cc

not_used :
    (l : AppLimit) (used daily : ℕ)
    → l.blocked ≡ false
    → l.daily_limit_sec ≡ ℤ.pos daily
    → leb daily used ≡ false
    → ¬ (IsReached l used)
not_used l used daily e f under (inl h) = cc
not_used l used daily e f under (inr (d, h, le)) = ground (arith, e, f, h, leb→lt _ _ under)

judge-IsReached :
    (l : AppLimit) (used : ℕ)
    → (IsReached l used → (reason : Reason) × (judge l used ≡ some reason))
      × (¬ (IsReached l used) → judge l used ≡ none)
unfolding judge
judge-IsReached l used = go l.blocked l.daily_limit_sec refl refl
  where
    go :
        (b : Bool) (d : ℤ)
        → l.blocked ≡ b
        → l.daily_limit_sec ≡ d
        → let verdict = if b then some Reason.blocked else elim d [
          | ℤ.pos daily ↦ if leb daily used then some Reason.time_up else none
          | ℤ.negsuc n ↦ none
        ] in
          (IsReached l used → (reason : Reason) × (verdict ≡ some reason))
          × (¬ (IsReached l used) → verdict ≡ none)
    go true d e f = (λ _. (Reason.blocked, refl), λ n. absurd (n (inl e)))
    go false (ℤ.negsuc n) e f = (λ reached. absurd (no_limit l used n e f reached), λ _. refl)
    go false (ℤ.pos daily) e f = elim (Bool-cases (leb daily used)) [
      | inl over ↦
          rw over (λ _. (Reason.time_up, refl), λ n. absurd (n (inr (daily, f, leb→le _ _ over))))
      | inr under ↦
          rw under (λ reached. absurd (not_used l used daily e f under reached), λ _. refl)
    ]

close-clear :
    (e : Env) (t : Tracker)
    → has_open_record t ≡ true
    → (close_current_session e t).current_record ≡ no_record
unfolding close_current_session clear_session
close-clear e t open_record = rw open_record

find_nothing : (name : Bytes) (l : AppLimit) → find_limit name [] ≢ some l
unfolding find_limit
find_nothing name l h = cc

check-applies :
    (k : Check) (limits : List AppLimit) (t : Tracker) (l : AppLimit)
    → k.is_child ≡ true
    → k.logged_in ≡ true
    → is_empty t.current_record.process_name ≡ false
    → find_limit (k.narrow t.current_record.process_name) limits ≡ some l
    → activity_check_limits k limits t ≡ apply_limit k t (some l)
unfolding activity_check_limits
check-applies k [] t l child logged named found = absurd (find_nothing _ l found)
check-applies k (x ∷ limits) t l child logged named found =
    let some_limits : (length (x ∷ limits) == 0) ≡ false = ground arith in
    simp (child, logged, some_limits, named) (ap (apply_limit k t) found)

check_nothing :
    (k : Check) (limits : List AppLimit) (t : Tracker)
    → is_empty t.current_record.process_name ≡ true
    → activity_check_limits k limits t ≡ (t, [])
unfolding activity_check_limits
check_nothing k limits t nobody = ground (arith, nobody)

-- On a child's machine that is logged in, with a record open and `l` the first entry for its app:
-- if the app is blocked or its seconds of today, the open record included, have reached the limit,
-- the record is closed, the app is reported if it is killed and there is room, and no later
-- check acts before another record is open; if not, nothing happens.
pub check_limits_lem :
    (k : Check) (limits : List AppLimit) (t : Tracker) (l : AppLimit)
    → k.is_child ≡ true
    → k.logged_in ≡ true
    → has_open_record t ≡ true
    → is_empty t.current_record.process_name ≡ false
    → find_limit (k.narrow t.current_record.process_name) limits ≡ some l
    → (IsReached l (used_today k t)
        → ((activity_check_limits k limits t).0 ≡ close_current_session k.env t)
          × (k.kills t.current_record.process_name ≡ true
              → 0 < k.max_events
              → (reason : Reason) × ((activity_check_limits k limits t).1
                  ≡ record { process_name = t.current_record.process_name; reason = reason } ∷ []))
          × ((k' : Check) (limits' : List AppLimit)
              → let t' = (activity_check_limits k limits t).0 in
                activity_check_limits k' limits' t' ≡ (t', [])))
      × (¬ (IsReached l (used_today k t)) → activity_check_limits k limits t ≡ (t, []))
unfolding apply_limit
check_limits_lem k limits t l child logged open_record named found =
    let applied = check-applies k limits t l child logged named found in
    let (reaching, sparing) = judge-IsReached l (used_today k t) in
    (
      (λ reached.
          let (reason, because) = reaching reached in
          let closed : (activity_check_limits k limits t).0 ≡ close_current_session k.env t =
            ap (λ r. r.0) applied ∙ rw because in
          (
            closed,
            (λ kills room. (reason, ap (λ r. r.1) applied ∙ rw because (reported kills room))),
            (λ k' limits'. check_nothing k' limits' (activity_check_limits k limits t).0 (
                ap (λ t'. is_empty t'.current_record.process_name) closed
                ∙ ap (λ rec. is_empty rec.process_name) (close-clear k.env t open_record))),
          )),
      (λ spare. applied ∙ rw (sparing spare)),
    )
  where
    reported :
        {reason : Reason}
        → k.kills t.current_record.process_name ≡ true
        → 0 < k.max_events
        → (if◌then◌else◌ {A = List Event}
            (k.kills t.current_record.process_name && ltb 0 k.max_events)
            (record { process_name = t.current_record.process_name; reason = reason } ∷ [])
            [])
          ≡ record { process_name = t.current_record.process_name; reason = reason } ∷ []
    reported kills room =
        let room' : ltb 0 k.max_events ≡ true = ground arith in simp (kills, room') refl
