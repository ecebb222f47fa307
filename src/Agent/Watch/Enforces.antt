-- ===== src/Agent/Watch/Enforces.antt =====
-- An app whose limit is reached is closed at the first turn that comes 20 seconds later.
use just_in_time.Prelude.{
  ℕ, ◌+◌, ◌≤◌, ◌≡◌, refl, sym, ap, ◌∙◌, Bool-cases, inl, inr, true, false, List, [], ◌∷◌, ◌++◌,
  some, arith, All, leb,
}
use just_in_time.Activity.{Tracker, is_empty, has_open_record, close_current_session}
use just_in_time.Limits.{AppLimit}
use just_in_time.Enforce.{Reason, find_limit, used_today, activity_check_limits}
use just_in_time.Enforce.Decision.{IsReached, check_limits_lem}
use just_in_time.Agent.Watch.{
  WatchTurn, Watch, watched, limit_check, watch_turn, watch_start, watch_loop,
}

abbrev pub AllBefore : ℕ → List WatchTurn → Type 0
AllBefore bound = All (λ u. u.now ≤ bound)

turn_before :
    (u : WatchTurn) (w : Watch) (bound : ℕ)
    → u.now ≤ bound
    → w.last_limit_check ≤ bound
    → (watch_turn u w).last_limit_check ≤ bound
unfolding watch_turn
turn_before u w bound h k = elim (Bool-cases (leb (w.last_limit_check + 20) u.now)) [
  | inl due ↦ rw due h
  | inr early ↦ rw early k
]

loop_before :
    (us : List WatchTurn) (w : Watch) (bound : ℕ)
    → AllBefore bound us
    → w.last_limit_check ≤ bound
    → (watch_loop us w).last_limit_check ≤ bound
unfolding watch_loop
loop_before [] w bound h k = k
loop_before (u ∷ us) w bound h k =
    loop_before us (watch_turn u w) bound h.1 (turn_before u w bound h.0 k)

turn_checks :
    (v : WatchTurn) (w : Watch)
    → w.last_limit_check + 20 ≤ v.now
    → let (t', events) = activity_check_limits (limit_check v) v.limits (watched v w.tracker) in
      watch_turn v w
      ≡ record { tracker = t'; last_limit_check = v.now; notified = w.notified ++ events }
unfolding watch_turn
turn_checks v w h =
    let due : leb (w.last_limit_check + 20) v.now ≡ true = ground arith in rw due refl

-- After any turns of the loop whose clocks showed at most `bound`, take a turn at bound + 20 or later
-- in which an app is open that has an entry, on a child's machine that is logged in. If the limit
-- is reached, this turn closes the record, and if the app is killed the user is told about it.
pub watch_enforces :
    (now bound : ℕ) (start : Tracker) (us : List WatchTurn) (v : WatchTurn) (l : AppLimit)
    (w : Watch) (t : Tracker)
    → w ≡ watch_loop us (watch_start now start)
    → t ≡ watched v w.tracker
    → now ≤ bound
    → AllBefore bound us
    → bound + 20 ≤ v.now
    → v.check.is_child ≡ true
    → v.check.logged_in ≡ true
    → has_open_record t ≡ true
    → is_empty t.current_record.process_name ≡ false
    → find_limit (v.check.narrow t.current_record.process_name) v.limits ≡ some l
    → IsReached l (used_today (limit_check v) t)
    → v.check.kills t.current_record.process_name ≡ true
    → ((watch_turn v w).tracker ≡ close_current_session v.check.env t)
      × ((reason : Reason) × ((watch_turn v w).notified
            ≡ w.notified
              ++ record { process_name = t.current_record.process_name; reason = reason } ∷ []))
watch_enforces now bound start us v l w t at seen early before late child logged opened named found
      reached kills =
    let last : (watch_loop us (watch_start now start)).last_limit_check ≤ bound =
      loop_before us (watch_start now start) bound before early in
    let last' : w.last_limit_check ≤ bound = rw at last in
    let checked = turn_checks v w (omega (arith, last', late)) in
    let (closed, told, _) =
      (check_limits_lem (limit_check v) v.limits t l child logged opened named found).0 reached in
    let (reason, event) = told kills (omega arith) in
    let check = activity_check_limits (limit_check v) v.limits in
    (
      ap (λ x. x.tracker) checked ∙ ap (λ x. (check x).0) (sym seen) ∙ closed,
      (
        reason,
        ap (λ x. x.notified) checked
            ∙ ap (λ x. w.notified ++ (check x).1) (sym seen)
            ∙ ap (λ e. w.notified ++ e) event,
      ),
    )
