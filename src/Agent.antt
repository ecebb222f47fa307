-- ===== src/Agent.antt =====
-- `cloudLoop` of src/agent/agent/main.cpp: the thread that syncs, fetches limits, backs up and clears
-- old records, each when its time has come. What the jobs do is modelled in their own modules.
pub mod Schedule
pub mod Watch
mod Examples
use just_in_time.Prelude.{
  ℕ, ◌+◌, ◌-◌, ◌*◌, min, leb, ◌==◌, if◌then◌else◌, Bool, true, false, List, [], ◌∷◌, ℤ, pos, negsuc,
}

-- What one turn of the loop reads: the clock, the settings, and whether sync_pending_records returns
-- 0 if it is called.
pub record Turn : Type 0 where
  pub now : ℕ
  pub sync_interval_sec : ℤ
  pub backup_interval_sec : ℤ
  pub summary_interval_sec : ℤ
  pub sync_succeeds : Bool

-- The jobs that were started, with the time of a sync and its success.
pub data Job : Type 0 where
  sync : ℕ → Bool → Job
  heartbeat refresh_limits backup delete_old summary : Job

-- The variables of `cloudLoop`, and the jobs so far, the newest first.
pub record Cloud : Type 0 where
  pub last_sync : ℕ
  pub last_backup : ℕ
  pub last_summary : ℕ
  pub last_limits_pull : ℕ
  pub sync_backoff_sec : ℕ
  pub jobs : List Job

-- now - last >= interval, on signed numbers
abbrev pub is_due : ℕ → ℕ → ℤ → Bool
is_due now last (pos n) = leb (last + n) now
is_due now last (negsuc n) = leb last (now + n + 1)

-- A signed number and a natural one, for an interval far enough below 2 ^ 31 that no int overflows.
abbrev pub add_ℕ : ℤ → ℕ → ℤ
add_ℕ (pos n) m = pos (n + m)
add_ℕ (negsuc n) m = if leb (n + 1) m then pos (m - (n + 1)) else negsuc (n - m)

-- (std::min)(syncBackoffSec == 0 ? 30 : syncBackoffSec * 2, 600), or 0 after a success.
unfoldable pub next_backoff : Bool → ℕ → ℕ
next_backoff succeeds b = if succeeds then 0 else min (if b == 0 then 30 else b * 2) 600

abbrev pub sync_now : Turn → Cloud → Cloud
sync_now t c = record c {
  sync_backoff_sec = next_backoff t.sync_succeeds c.sync_backoff_sec;
  last_sync = t.now;
  jobs = heartbeat ∷ sync t.now t.sync_succeeds ∷ c.jobs;
}

unfoldable pub sync_turn : Turn → Cloud → Cloud
sync_turn t c =
    if is_due t.now c.last_sync (add_ℕ t.sync_interval_sec c.sync_backoff_sec)
    then sync_now t c
    else c

unfoldable pub limits_turn : Turn → Cloud → Cloud
limits_turn t c =
    if is_due t.now c.last_limits_pull (pos 60)
    then record c { last_limits_pull = t.now; jobs = refresh_limits ∷ c.jobs }
    else c

unfoldable pub backup_turn : Turn → Cloud → Cloud
backup_turn t c =
    if is_due t.now c.last_backup t.backup_interval_sec
    then record c { last_backup = t.now; jobs = delete_old ∷ backup ∷ c.jobs }
    else c

unfoldable pub summary_turn : Turn → Cloud → Cloud
summary_turn t c =
    if is_due t.now c.last_summary t.summary_interval_sec
    then record c { last_summary = t.now; jobs = summary ∷ c.jobs }
    else c

unfoldable pub cloud_turn : Turn → Cloud → Cloud
cloud_turn t c = summary_turn t (backup_turn t (limits_turn t (sync_turn t c)))

-- The loop starts with a backup.
abbrev pub cloud_start : ℕ → Cloud
cloud_start now = record {
  last_sync = 0;
  last_backup = now;
  last_summary = now;
  last_limits_pull = 0;
  sync_backoff_sec = 0;
  jobs = backup ∷ [];
}

unfoldable pub cloud_loop : List Turn → Cloud → Cloud
cloud_loop [] c = c
cloud_loop (t ∷ ts) c = cloud_loop ts (cloud_turn t c)
