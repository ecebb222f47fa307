-- ===== src/Agent/Schedule.antt =====
-- When the cloud thread syncs: never before its time, and never later than ten minutes behind it.
use just_in_time.Prelude.{
  ℕ, zero, suc, ◌+◌, ◌*◌, ◌^◌, ◌≤◌, ◌≡◌, refl, sym, ap, ◌∙◌, min, leb, if◌then◌else◌, Bool, true,
  false, List, [], ◌∷◌, arith, pos, All,
}
use just_in_time.Agent.{
  Turn, Job, Cloud, is_due, next_backoff, sync_now, sync_turn, limits_turn, backup_turn,
  summary_turn, cloud_turn, cloud_loop, cloud_start, sync, heartbeat, refresh_limits, backup,
  delete_old, summary,
}

-- How many syncs failed since the last one that succeeded.
abbrev pub streak : List Job → ℕ
streak [] = 0
streak (sync t true ∷ js) = 0
streak (sync t false ∷ js) = suc (streak js)
streak (heartbeat ∷ js) = streak js
streak (refresh_limits ∷ js) = streak js
streak (backup ∷ js) = streak js
streak (delete_old ∷ js) = streak js
streak (summary ∷ js) = streak js

abbrev pub last_sync_in : List Job → ℕ
last_sync_in [] = 0
last_sync_in (sync t ok ∷ js) = t
last_sync_in (heartbeat ∷ js) = last_sync_in js
last_sync_in (refresh_limits ∷ js) = last_sync_in js
last_sync_in (backup ∷ js) = last_sync_in js
last_sync_in (delete_old ∷ js) = last_sync_in js
last_sync_in (summary ∷ js) = last_sync_in js

-- 30 seconds after the first failure, twice as long after each further one, and at most 600.
abbrev pub delay : ℕ → ℕ
delay zero = 0
delay (suc k) = min (30 * 2 ^ k) 600

-- Each sync waited for the interval and the delay behind the sync before it.
abbrev pub IsSpaced : ℕ → List Job → Type 0
IsSpaced n [] = Unit
IsSpaced n (sync t ok ∷ js) = (last_sync_in js + n + delay (streak js) ≤ t) × IsSpaced n js
IsSpaced n (heartbeat ∷ js) = IsSpaced n js
IsSpaced n (refresh_limits ∷ js) = IsSpaced n js
IsSpaced n (backup ∷ js) = IsSpaced n js
IsSpaced n (delete_old ∷ js) = IsSpaced n js
IsSpaced n (summary ∷ js) = IsSpaced n js

-- The loop's variables agree with the jobs that were started.
record IsKept (n : ℕ) (c : Cloud) : Type 0 where
  last : c.last_sync ≡ last_sync_in c.jobs
  backoff : c.sync_backoff_sec ≡ delay (streak c.jobs)
  spaced : IsSpaced n c.jobs

pow_pos : (k : ℕ) → 1 ≤ 2 ^ k
pow_pos zero = omega arith
pow_pos (suc k) = omega (arith, pow_pos k)

next_delay : (k : ℕ) → next_backoff false (delay k) ≡ delay (suc k)
unfolding next_backoff
next_delay zero = refl
next_delay (suc k) = ground (arith, pow_pos k)

next_backoff-delay :
    (ok : Bool) (b at_time : ℕ) (js : List Job)
    → b ≡ delay (streak js)
    → next_backoff ok b ≡ delay (streak (sync at_time ok ∷ js))
next_backoff-delay true b at_time js h = unfold next_backoff in refl
next_backoff-delay false b at_time js h = ap (next_backoff false) h ∙ next_delay (streak js)

sync_now-IsKept :
    (n : ℕ) (t : Turn) (c : Cloud)
    → IsKept n c
    → is_due t.now c.last_sync (pos (n + c.sync_backoff_sec)) ≡ true
    → IsKept n (sync_now t c)
sync_now-IsKept n t c h due = record {
  last = refl;
  backoff = next_backoff-delay t.sync_succeeds c.sync_backoff_sec t.now c.jobs h.backoff;
  spaced = (ground (arith, due, h.last, h.backoff), h.spaced);
}

sync_turn-IsKept :
    (n : ℕ) (t : Turn) (c : Cloud)
    → t.sync_interval_sec ≡ pos n
    → IsKept n c
    → IsKept n (sync_turn t c)
unfolding sync_turn
sync_turn-IsKept n t c e h = rw e (go _ refl)
  where
    go :
        (b : Bool)
        → is_due t.now c.last_sync (pos (n + c.sync_backoff_sec)) ≡ b
        → IsKept n (if b then sync_now t c else c)
    go true due = sync_now-IsKept n t c h due
    go false due = h

-- Two things that a turn without a sync keeps.
abbrev IsKeptAt : ℕ → ℕ → Cloud → Type 0
IsKeptAt n last c = IsKept n c × (c.last_sync ≡ last)

either-IsKeptAt :
    (n last : ℕ) (b : Bool) (c c' : Cloud)
    → IsKeptAt n last c
    → IsKeptAt n last c'
    → IsKeptAt n last (if b then c else c')
either-IsKeptAt n last true c c' h h' = h
either-IsKeptAt n last false c c' h h' = h'

module _ (n last : ℕ) (t : Turn) where
  limits_turn-IsKeptAt : (c : Cloud) → IsKeptAt n last c → IsKeptAt n last (limits_turn t c)
  unfolding limits_turn
  limits_turn-IsKeptAt c h =
      either-IsKeptAt n last _ _ c
        (record { last = h.0.last; backoff = h.0.backoff; spaced = h.0.spaced }, h.1) h

  backup_turn-IsKeptAt : (c : Cloud) → IsKeptAt n last c → IsKeptAt n last (backup_turn t c)
  unfolding backup_turn
  backup_turn-IsKeptAt c h =
      either-IsKeptAt n last _ _ c
        (record { last = h.0.last; backoff = h.0.backoff; spaced = h.0.spaced }, h.1) h

  summary_turn-IsKeptAt : (c : Cloud) → IsKeptAt n last c → IsKeptAt n last (summary_turn t c)
  unfolding summary_turn
  summary_turn-IsKeptAt c h =
      either-IsKeptAt n last _ _ c
        (record { last = h.0.last; backoff = h.0.backoff; spaced = h.0.spaced }, h.1) h

cloud_turn-IsKeptAt :
    (n : ℕ) (t : Turn) (c : Cloud)
    → t.sync_interval_sec ≡ pos n
    → IsKept n c
    → IsKeptAt n (sync_turn t c).last_sync (cloud_turn t c)
unfolding cloud_turn
cloud_turn-IsKeptAt n t c e h =
    let last = (sync_turn t c).last_sync in
    let synced : IsKeptAt n last (sync_turn t c) = (sync_turn-IsKept n t c e h, refl) in
    summary_turn-IsKeptAt n last t _
      (backup_turn-IsKeptAt n last t _ (limits_turn-IsKeptAt n last t _ synced))

-- Every turn reads the same interval from the settings.
abbrev pub HasInterval : ℕ → Turn → Type 0
HasInterval n t = t.sync_interval_sec ≡ pos n

cloud_loop-IsKept :
    (n : ℕ) (ts : List Turn) (c : Cloud)
    → All (HasInterval n) ts
    → IsKept n c
    → IsKept n (cloud_loop ts c)
unfolding cloud_loop
cloud_loop-IsKept n [] c es h = h
cloud_loop-IsKept n (t ∷ ts) c es h =
    cloud_loop-IsKept n ts (cloud_turn t c) es.1 (cloud_turn-IsKeptAt n t c es.0 h).0

loop_from_start-IsKept :
    (n start : ℕ) (ts : List Turn)
    → All (HasInterval n) ts
    → IsKept n (cloud_loop ts (cloud_start start))
loop_from_start-IsKept n start ts es =
    cloud_loop-IsKept n ts (cloud_start start) es
      (record { last = refl; backoff = refl; spaced = tt })

-- If the sync interval stays the same, then however many turns the loop makes, whatever the clock
-- reads and whichever syncs fail, each sync comes at least the interval and the delay after the sync
-- before it: no delay after a success, 30 seconds after a first failure, twice as long after each
-- further failure in a row, and at most 600 seconds.
pub cloud_loop-IsSpaced :
    (n start : ℕ) (ts : List Turn)
    → All (HasInterval n) ts
    → IsSpaced n (cloud_loop ts (cloud_start start)).jobs
cloud_loop-IsSpaced n start ts es = (loop_from_start-IsKept n start ts es).spaced

delay_le : (k : ℕ) → delay k ≤ 600
delay_le zero = omega arith
delay_le (suc k) = omega arith

sync_turn_due :
    (n : ℕ) (t : Turn) (c : Cloud)
    → t.sync_interval_sec ≡ pos n
    → c.last_sync + (n + c.sync_backoff_sec) ≤ t.now
    → (sync_turn t c).last_sync ≡ t.now
unfolding sync_turn
sync_turn_due n t c e due =
    let yes_due : leb (c.last_sync + (n + c.sync_backoff_sec)) t.now ≡ true = ground arith in
    rw e (rw yes_due refl)

-- If the sync interval stays the same, then after any number of turns and failures a turn that comes
-- the interval and ten minutes after the last sync syncs again, at its own time.
pub sync_resumes :
    (n start : ℕ) (ts : List Turn) (t : Turn)
    → All (HasInterval n) ts
    → HasInterval n t
    → last_sync_in (cloud_loop ts (cloud_start start)).jobs + n + 600 ≤ t.now
    → last_sync_in (cloud_turn t (cloud_loop ts (cloud_start start))).jobs ≡ t.now
sync_resumes n start ts t es e late =
    let c = cloud_loop ts (cloud_start start) in
    let kept = loop_from_start-IsKept n start ts es in
    let (kept', last) = cloud_turn-IsKeptAt n t c e kept in
    let due : c.last_sync + (n + c.sync_backoff_sec) ≤ t.now =
      omega (arith, kept.last, kept.backoff, delay_le (streak c.jobs), late) in
    sym kept'.last ∙ last ∙ sync_turn_due n t c e due
