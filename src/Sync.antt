-- ===== src/Sync.antt =====
-- src/agent/agent/sync.cpp: one cycle that sends what is not yet synced.
-- What the cycle calls outside the database is the interface `Env` over the state of the world:
-- the session, the clock, SQLite's outcomes and `network_send_batch`.
pub mod Safety
pub mod Offline
pub mod Report
pub mod Deliver
mod Examples
use just_in_time.Prelude.{
  ℕ, zero, suc, ◌-◌, Bool, true, false, Option, none, some, ◌>>=◌, List, [], ◌∷◌, map, ℤ, ltb, ◌==◌,
  if◌then◌else◌, length, take, drop, get_elem?,
}
use just_in_time.Batch.{SendOutcome, BatchReport, send_with_bisect}
use just_in_time.Db.{Db, Sql, Convert, SyncRecord, db_get_unsynced_records}
use just_in_time.Db.Update.{db_mark_synced_batch, db_mark_sync_failed}

-- The return value of `network_send_batch` and its `transport_error`.
pub record SendResult : Type 0 where
  pub sent : Bool
  pub transport_error : Bool

pub record Env (N : Type 0) : Type 0 where
  pub logged_in : N → Bool
  pub now : N → ℕ
  -- How the next SQLite statement ends.
  pub statement : N → Sql × N
  -- How many rows the next query gives if a step of it fails.
  pub given : N → ℕ
  -- Which statements of the next marked batch run.
  pub chunk_runs : N → ℕ → Bool
  pub send_batch : List SyncRecord → N → SendResult × N
  pub backoff_max : N → ℤ
  pub backoff_base : N → ℤ

pub record World (N : Type 0) : Type 0 where
  pub db : Db
  pub net : N

abbrev pub max_records : ℕ
max_records = 100

abbrev pub max_rounds_per_cycle : ℕ
max_rounds_per_cycle = 20

abbrev pub max_requests_per_round : ℕ
max_requests_per_round = 20

abbrev pub outcome_of : SendResult → SendOutcome
outcome_of r =
    if r.sent
    then SendOutcome.accepted
    else if r.transport_error
    then SendOutcome.transport_error
    else SendOutcome.rejected

-- How a round ends: the function returns, or the next round begins.
pub data RoundEnd (N : Type 0) : Type 0 where
  finish : ℤ → World N → RoundEnd N
  more : World N → RoundEnd N

-- records[idx].id
abbrev pub id_at : List SyncRecord → ℕ → ℕ
id_at records i = elim (get_elem? records i) [ none ↦ 0 | some r ↦ r.id ]

module _ {N : Type 0} (env : Env N) (c : Convert) where
  -- The λ that is handed to `sendWithBisect`.
  unfoldable pub send_range : List SyncRecord → ℕ → ℕ → N → SendOutcome × N
  send_range records lo hi n =
      let (r, n') = env.send_batch (take (hi - lo) (drop lo records)) n in (outcome_of r, n')

  -- The loop over `report.rejected`.
  unfoldable pub mark_failed_all : List ℕ → World N → World N
  mark_failed_all [] w = w
  mark_failed_all (id ∷ ids) w =
      let n = w.net in
      let (sql, n') = env.statement n in
      mark_failed_all ids (record {
        db =
            (db_mark_sync_failed (env.backoff_max n) (env.backoff_base n) (env.now n) sql id
              w.db).0;
        net = n';
      })

  abbrev pub mark_accepted : List ℕ → World N → World N
  mark_accepted ids w =
      if ltb 0 (length ids)
      then record w { db = (db_mark_synced_batch (env.chunk_runs w.net) ids w.db).0 }
      else w

  -- What a round does with the report of its batch.
  unfoldable pub settle_round : List SyncRecord → BatchReport → World N → RoundEnd N
  unfolding mark_failed_all
  settle_round records report w =
      let w' =
        mark_failed_all (map (id_at records) report.rejected)
          (mark_accepted (map (id_at records) report.accepted) w) in
      if report.aborted
      then finish (ℤ.negsuc 0) w'
      else if ltb (length records) max_records
      then finish (ℤ.pos 0) w'
      else more w'

  -- The records of a round, and the world after the query.
  abbrev pub fetch : World N → List SyncRecord × N
  fetch w =
      let (sql, n) = env.statement w.net in
      (db_get_unsynced_records c (env.now w.net) sql (env.given w.net) max_records w.db, n)

  -- `none` would mean that the loop of `sendWithBisect` ran out of fuel.
  unfoldable pub sync_round : World N → Option (RoundEnd N)
  unfolding settle_round send_range
  sync_round w =
      let (records, n) = fetch w in
      if length records == 0 then some (finish (ℤ.pos 0) (record w { net = n })) else do
        (report, n') ←
            send_with_bisect max_requests_per_round (send_range records) (length records) n
        some (settle_round records report (record w { net = n' }))

  unfoldable pub sync_rounds : ℕ → World N → Option (ℤ × World N)
  sync_rounds zero w = some (ℤ.pos 0, w)
  sync_rounds (suc rounds) w = do
    end ← sync_round w
    elim end [ finish code w' ↦ some (code, w') | more w' ↦ sync_rounds rounds w' ]

  unfoldable pub sync_pending_records : World N → Option (ℤ × World N)
  unfolding sync_rounds
  sync_pending_records w =
      if env.logged_in w.net then sync_rounds max_rounds_per_cycle w else some (ℤ.pos 0, w)
