-- ===== src/Sync/Deliver.antt =====
-- One bad record does not hold up the others: a round sends all good records of its batch.
use just_in_time.Prelude.{
  ℕ, zero, suc, ◌+◌, ◌≤◌, ◌<◌, ◌≡◌, refl, sym, ap, ap₂, ◌∙◌, Bool, true, ℤ, ltb, false, not, some,
  List, [], ◌∷◌, map, arith, ◌==◌, if◌then◌else◌, length, length-map, keep,
}
use just_in_time.Batch.{BatchReport}
use just_in_time.Db.{Row, Db, Sql, Convert, SyncRecord}
use just_in_time.Db.Update.{
  set_synced, set_failed, mark_chunk, mark_chunks, db_mark_synced_batch, db_mark_sync_failed,
}
use just_in_time.Db.Queue.{has_id, marked, mark_synced_batch_lem}
use just_in_time.Sync.Report.{ids_of, Refuses, bisected}
use just_in_time.Sync.{
  finish, more, mark_failed_all, mark_accepted, max_records, Env, World, id_at, fetch, settle_round,
  sync_round,
}

-- The rows after those with one of the ids are put off, by the clock and the settings as of `n`.
abbrev pub postponed : {N : Type 0} → Env N → N → List ℕ → List Row → List Row
postponed env n ids rows =
    map
      (λ r.
        if has_id ids r
        then set_failed (env.backoff_max n) (env.backoff_base n) (env.now n) r
        else r)
      rows

-- Every statement that writes is run.
abbrev pub Works : {N : Type 0} → Env N → Type 0
Works {N = N} env =
    ((n : N) → (env.statement n).0 ≡ Sql.done) × ((n : N) (k : ℕ) → env.chunk_runs n k ≡ true)

mark_chunks-handle :
    (rounds k : ℕ) (exec : ℕ → Bool) (ids : List ℕ) (db : Db) (ok : ℕ)
    → (mark_chunks rounds k exec ids (db, ok)).0.handle ≡ db.handle
unfolding mark_chunks mark_chunk
mark_chunks-handle zero k exec ids db ok = refl
mark_chunks-handle (suc rounds) k exec [] db ok = refl
mark_chunks-handle (suc rounds) k exec (i ∷ ids) db ok =
    mark_chunks-handle rounds (k + 1) exec _ _ _ ∙ ground arith

mark_batch-handle :
    (exec : ℕ → Bool) (ids : List ℕ) (db : Db)
    → (db_mark_synced_batch exec ids db).0.handle ≡ db.handle
unfolding db_mark_synced_batch
mark_batch-handle exec ids db = ground (arith, mark_chunks-handle (length ids) 0 exec ids db 1)

one_id :
    (i : ℕ) (f : Row → Row) (rows : List Row)
    → map (λ r. if r.id == i then f r else r) rows
      ≡ map (λ r. if has_id (i ∷ []) r then f r else r) rows
one_id i f [] = refl
one_id i f (r ∷ rows) = ap₂ (λ x l. x ∷ l) (ground arith) (one_id i f rows)

no_id : (f : Row → Row) (rows : List Row) → map (λ r. if has_id [] r then f r else r) rows ≡ rows
no_id f [] = refl
no_id f (r ∷ rows) = ap (λ l. r ∷ l) (no_id f rows)

module _ {N : Type 0} (env : Env N) (c : Convert) where
  mark_accepted-rows :
      (ids : List ℕ) (w : World N)
      → Works env
      → w.db.handle ≡ true
      → ((mark_accepted env c ids w).db.rows ≡ marked ids w.db.rows)
        × ((mark_accepted env c ids w).db.handle ≡ true)
  mark_accepted-rows [] w works up = (sym (no_id set_synced w.db.rows), up)
  mark_accepted-rows (i ∷ ids) w works up =
      let given : ltb 0 (length (i ∷ ids)) ≡ true = ground arith in
      let (rows, _) =
        mark_synced_batch_lem (env.chunk_runs w.net) (i ∷ ids) w.db up (omega arith)
          (works.1 w.net) in
      rw given (rows, mark_batch-handle (env.chunk_runs w.net) (i ∷ ids) w.db ∙ up)

  mark_failed_all-rows :
      (ids : List ℕ) (w : World N)
      → Works env
      → w.db.handle ≡ true
      → length ids ≤ 1
      → (mark_failed_all env c ids w).db.rows ≡ postponed env w.net ids w.db.rows
  unfolding mark_failed_all db_mark_sync_failed
  mark_failed_all-rows [] w works up one = sym (
      no_id (set_failed (env.backoff_max w.net) (env.backoff_base w.net) (env.now w.net)) w.db.rows)
  mark_failed_all-rows (i ∷ []) w works up one = rw (up, works.0 w.net) (one_id i _ w.db.rows)
  mark_failed_all-rows (i ∷ j ∷ ids) w works up one = absurd (omega arith)

  settle_round-end :
      (records : List SyncRecord) (report : BatchReport) (w : World N)
      → Works env
      → w.db.handle ≡ true
      → report.aborted ≡ false
      → length (map (id_at records) report.rejected) ≤ 1
      → (w' : World N) × (n : N) × (settle_round env c records report w
          ≡ (if ltb (length records) max_records then finish (ℤ.pos 0) w' else more w'))
        × (w'.db.rows
            ≡ postponed env n
                (map (id_at records) report.rejected)
                (marked (map (id_at records) report.accepted) w.db.rows))
  unfolding settle_round
  settle_round-end records report w works up whole one =
      let w1 = mark_accepted env c (map (id_at records) report.accepted) w in
      let accepted = mark_accepted-rows (map (id_at records) report.accepted) w works up in
      let failed =
        mark_failed_all-rows (map (id_at records) report.rejected) w1 works accepted.1 one in
      (
        mark_failed_all env c (map (id_at records) report.rejected) w1,
        w1.net,
        rw whole refl,
        failed ∙ ap (postponed env w1.net (map (id_at records) report.rejected)) accepted.0,
      )

  -- With the database open and every statement run, if the connection holds and the server refuses a
  -- request exactly when it holds a bad record, a round with at most one bad record runs to its end.
  -- In the table, all rows with the id of a good record of the round become synced, those with the
  -- id of the bad one are put off to a later try, and nothing else changes. The round is the last one
  -- of its cycle, with result 0, if it had fewer than 100 records, and else the next one begins.
  pub sync_round_delivers :
      (bad : SyncRecord → Bool) (w : World N)
      → Refuses bad env
      → Works env
      → w.db.handle ≡ true
      → 0 < length (fetch env c w).0
      → length (keep bad (fetch env c w).0) ≤ 1
      → (w' : World N) × (n : N) × (sync_round env c w
          ≡ some
              (if ltb (length (fetch env c w).0) max_records then finish (ℤ.pos 0) w' else more w'))
        × (w'.db.rows
            ≡ postponed env n
                (ids_of (keep bad (fetch env c w).0))
                (marked (ids_of (keep (λ r. not (bad r)) (fetch env c w).0)) w.db.rows))
  sync_round_delivers bad w refuses works up many one =
      let records = (fetch env c w).0 in
      let (report, n, runs, whole, good_ids, bad_ids) = bisected env c bad w refuses many one in
      let few : length (map (id_at records) report.rejected) ≤ 1 =
        omega (
          arith,
          one,
          ap length bad_ids,
          length-map (λ (r : SyncRecord). r.id) (keep bad records),
        ) in
      let (w', n', ends, rows) =
        settle_round-end records report (record w { net = n }) works up whole few in
      (
        w',
        n',
        runs ∙ ap some ends,
        rows
            ∙ ap₂ (λ refused accepted. postponed env n' refused (marked accepted w.db.rows)) bad_ids
                good_ids,
      )
