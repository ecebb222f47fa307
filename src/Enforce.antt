-- ===== src/Enforce.antt =====
-- `activity_check_limits` of src/agent/core/activity.cpp: the watch thread closes and kills an app
-- that the parent has blocked, or that has used up its time.
pub mod Decision
pub mod Usage
mod Examples
use just_in_time.Prelude.{
  ℕ, ◌+◌, ◌-◌, ◌*◌, Bool, true, false, not, ◌&&◌, ◌||◌, Option, none, some, List, [], ◌∷◌, Bytes, ℤ,
  max, leb, ltb, ◌==◌, if◌then◌else◌, length,
}
use just_in_time.Db.{Db, Sql, Convert}
use just_in_time.Db.Update.{db_get_today_seconds}
use just_in_time.Activity.{Tracker, Env, is_empty, close_current_session}
use just_in_time.Limits.{AppLimit}

pub data Reason : Type 0 where
  blocked time_up : Reason

-- `ActivityLimitEvent`
pub record Event : Type 0 where
  pub process_name : List ℕ
  pub reason : Reason

-- What the function reads of the outside; `kills` is the return value of `killIfForeground`, and
-- `narrow` the conversion of a process name into 512 bytes of UTF-8.
pub record Check : Type 0 where
  pub env : Env
  pub is_child : Bool
  pub logged_in : Bool
  pub day_start : ℕ
  pub db : Db
  pub convert : Convert
  pub statement : Sql
  pub narrow : List ℕ → Bytes
  pub kills : List ℕ → Bool
  pub max_events : ℕ

-- The byte in lower case, in the C locale.
abbrev pub to_lower : ℕ → ℕ
to_lower c = if leb b'A' c && leb c b'Z' then c + 32 else c

-- _stricmp(a, b) == 0
unfoldable pub same_name : Bytes → Bytes → Bool
same_name [] [] = true
same_name [] (d ∷ b) = false
same_name (c ∷ a) [] = false
same_name (c ∷ a) (d ∷ b) = (to_lower c == to_lower d) && same_name a b

-- The first entry for the process: the loop ends there, whatever it finds.
unfoldable pub find_limit : Bytes → List AppLimit → Option AppLimit
find_limit name [] = none
find_limit name (l ∷ ls) = if same_name l.process_name name then some l else find_limit name ls

-- The open record's part of today.
abbrev pub open_seconds : Check → Tracker → ℕ
open_seconds k t =
    if ltb 0 t.current_record.start_time
    then k.env.now - max t.current_record.start_time k.day_start
    else 0

unfoldable pub used_today : Check → Tracker → ℕ
used_today k t =
    db_get_today_seconds k.convert k.day_start k.statement t.current_record.process_name k.db
    + open_seconds k t

-- The branches on the entry, with the time used if it is asked for: why to block, if at all.
unfoldable pub judge : AppLimit → ℕ → Option Reason
judge l used = if l.blocked then some Reason.blocked else elim l.daily_limit_sec [
  | ℤ.pos daily ↦ if leb daily used then some Reason.time_up else none
  | ℤ.negsuc n ↦ none
]

-- Behind `shouldBlock`: close the record, kill the app, report it.
block : Check → Tracker → Option Reason → Tracker × List Event
block k t none = (t, [])
block k t (some reason) = (
  close_current_session k.env t,
  if k.kills t.current_record.process_name && ltb 0 k.max_events
      then record { process_name = t.current_record.process_name; reason = reason } ∷ []
      else [],
)

unfoldable pub apply_limit : Check → Tracker → Option AppLimit → Tracker × List Event
unfolding block
apply_limit k t none = (t, [])
apply_limit k t (some l) = block k t (judge l (used_today k t))

unfoldable pub activity_check_limits : Check → List AppLimit → Tracker → Tracker × List Event
unfolding apply_limit
activity_check_limits k limits t =
    if not k.is_child
    then (t, [])
    else if not k.logged_in
    then (t, [])
    else if length limits == 0
    then (t, [])
    else if is_empty t.current_record.process_name
    then (t, [])
    else apply_limit k t (find_limit (k.narrow t.current_record.process_name) limits)
