-- ===== src/Sync/Safety.antt =====
-- A sync cycle always ends, and whatever the network, the server and SQLite do, it loses no record.
use just_in_time.Prelude.{
  ℕ, zero, suc, ◌≡◌, ◌⊎◌, refl, inl, inr, Option, some, List, [], ◌∷◌, map, ℤ, ltb, ◌==◌,
  Bool-cases, length,
}
use just_in_time.Batch.{BatchReport}
use just_in_time.Batch.Partition.{send_with_bisect-Shares}
use just_in_time.Db.{Convert, SyncRecord}
use just_in_time.Db.Grows.{
  AllGrow, AllGrow-refl, AllGrow-trans, mark_failed-AllGrow, mark_synced-AllGrow,
}
use just_in_time.Db.Update.{db_mark_sync_failed}
use just_in_time.Sync.{
  Env, World, RoundEnd, finish, more, id_at, send_range, mark_failed_all, mark_accepted,
  settle_round, fetch, sync_round, sync_rounds, sync_pending_records, max_requests_per_round,
  max_rounds_per_cycle,
}

-- What holds of a round's end or a cycle's result: rows have only grown, and the code is 0 or -1.
abbrev EndsWell : {N : Type 0} → World N → RoundEnd N → Type 0
EndsWell w (finish code w') =
    AllGrow w.db.rows w'.db.rows × ((code ≡ ℤ.pos 0) ⊎ (code ≡ ℤ.negsuc 0))
EndsWell w (more w') = AllGrow w.db.rows w'.db.rows

module _ {N : Type 0} (env : Env N) (c : Convert) where
  mark_failed_all-AllGrow :
      (ids : List ℕ) (w : World N) → AllGrow w.db.rows (mark_failed_all env c ids w).db.rows
  unfolding mark_failed_all
  mark_failed_all-AllGrow [] w = AllGrow-refl w.db.rows
  mark_failed_all-AllGrow (id ∷ ids) w =
      let (sql, n) = env.statement w.net in
      let db' =
        (db_mark_sync_failed (env.backoff_max w.net) (env.backoff_base w.net) (env.now w.net) sql id
          w.db).0 in
      AllGrow-trans w.db.rows db'.rows _
        (mark_failed-AllGrow (env.backoff_max w.net) (env.backoff_base w.net) (env.now w.net) sql id
          w.db)
        (mark_failed_all-AllGrow ids (record { db = db'; net = n }))

  mark_accepted-AllGrow :
      (ids : List ℕ) (w : World N) → AllGrow w.db.rows (mark_accepted env c ids w).db.rows
  mark_accepted-AllGrow ids w = elim (Bool-cases (ltb 0 (length ids))) [
    | inl many ↦ rw many (mark_synced-AllGrow (env.chunk_runs w.net) ids w.db)
    | inr nobody ↦ rw nobody (AllGrow-refl w.db.rows)
  ]

  settle_round-EndsWell :
      (records : List SyncRecord) (report : BatchReport) (w : World N)
      → EndsWell w (settle_round env c records report w)
  unfolding settle_round
  settle_round-EndsWell records report w =
      let accepted = map (id_at records) report.accepted in
      let rejected = map (id_at records) report.rejected in
      let grown =
        AllGrow-trans w.db.rows (mark_accepted env c accepted w).db.rows _
          (mark_accepted-AllGrow accepted w)
          (mark_failed_all-AllGrow rejected (mark_accepted env c accepted w)) in
      elim (Bool-cases report.aborted) [
        | inl cut ↦ simp cut (grown, inr refl)
        | inr whole ↦ elim (Bool-cases (ltb (length records) 100)) [
          | inl last ↦ simp (whole, last) (grown, inl refl)
          | inr full ↦ simp (whole, full) grown
        ]
      ]

  sync_round-EndsWell :
      (w : World N) → (end : RoundEnd N) × (sync_round env c w ≡ some end) × EndsWell w end
  unfolding sync_round
  sync_round-EndsWell w =
      let (records, n) = fetch env c w in
      elim (Bool-cases (length records == 0)) [
        | inl nobody ↦
            rw nobody
              (finish (ℤ.pos 0) (record w { net = n }), refl, (AllGrow-refl w.db.rows, inl refl))
        | inr many ↦
            let (res, runs, _, _) =
              send_with_bisect-Shares max_requests_per_round (send_range env c records)
                (length records) n in
            rw many (
              rw runs (
                settle_round env c records res.0 (record w { net = res.1 }),
                refl,
                settle_round-EndsWell records res.0 (record w { net = res.1 }),
              ))
      ]

  abbrev CycleEnds : World N → Option (ℤ × World N) → Type 0
  CycleEnds w o =
      (code : ℤ) × (w' : World N) × (o ≡ some (code, w'))
      × AllGrow w.db.rows w'.db.rows
      × ((code ≡ ℤ.pos 0) ⊎ (code ≡ ℤ.negsuc 0))

  sync_rounds-ends : (rounds : ℕ) (w : World N) → CycleEnds w (sync_rounds env c rounds w)
  unfolding sync_rounds
  sync_rounds-ends zero w = (ℤ.pos 0, w, refl, AllGrow-refl w.db.rows, inl refl)
  sync_rounds-ends (suc rounds) w =
      let (end, runs, ends) = sync_round-EndsWell w in
      rw runs (after end ends (sync_rounds-ends rounds))
    where
      after :
          (end : RoundEnd N)
          → EndsWell w end
          → ((w' : World N) → CycleEnds w' (sync_rounds env c rounds w'))
          → CycleEnds w (elim end [
            | finish code w' ↦ some (code, w')
            | more w' ↦ sync_rounds env c rounds w'
          ])
      after (finish code w') e rest = (code, w', refl, e.0, e.1)
      after (more w') e rest =
          let (code, w'', runs, grown, codes) = rest w' in
          (code, w'', runs, AllGrow-trans w.db.rows w'.db.rows w''.db.rows e grown, codes)

  -- Whatever the network answers and however the statements end, also a query that fails after some of
  -- its rows, a cycle returns, with 0 or -1; the
  -- table has the same rows in the same order, with all that was tracked unchanged: a row may
  -- only become synced, and its count of refusals may only go up.
  pub sync_pending_records-AllGrow :
      (w : World N)
      → (code : ℤ) × (w' : World N) × (sync_pending_records env c w ≡ some (code, w'))
        × AllGrow w.db.rows w'.db.rows
        × ((code ≡ ℤ.pos 0) ⊎ (code ≡ ℤ.negsuc 0))
  unfolding sync_pending_records
  sync_pending_records-AllGrow w = elim (Bool-cases (env.logged_in w.net)) [
    | inl logged ↦ simp logged (sync_rounds-ends max_rounds_per_cycle w)
    | inr nobody ↦ simp nobody (ℤ.pos 0, w, refl, AllGrow-refl w.db.rows, inl refl)
  ]
