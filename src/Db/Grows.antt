-- ===== src/Db/Grows.antt =====
-- What the updates of the sync queue may change of a row.
use just_in_time.Prelude.{
  ℕ, zero, suc, ◌+◌, ◌≤◌, ◌≡◌, ◌⊎◌, inl, inr, Bool, true, false, ◌&&◌, List, [], ◌∷◌, map, ℤ, arith,
  ltb, ◌==◌, if◌then◌else◌, Bool-cases, length, take, drop, any,
}
use just_in_time.Db.{Row, Db, Sql, execute}
use just_in_time.Db.Update.{
  update_rows, set_synced, set_failed, retries, chunk_size, mark_chunk, mark_chunks,
  db_mark_synced_batch, db_mark_sync_failed,
}

-- What was tracked is as it was; a synced row stays synced; refusals are only counted up.
pub record Grows (a b : Row) : Type 0 where
  pub id : b.id ≡ a.id
  pub device_id : b.device_id ≡ a.device_id
  pub process_name : b.process_name ≡ a.process_name
  pub window_title : b.window_title ≡ a.window_title
  pub duration_seconds : b.duration_seconds ≡ a.duration_seconds
  pub start_time : b.start_time ≡ a.start_time
  pub end_time : b.end_time ≡ a.end_time
  pub created_at : b.created_at ≡ a.created_at
  pub synced : (b.synced ≡ a.synced) ⊎ (b.synced ≡ 1)
  pub retries_up : retries a ≤ retries b

-- Row by row, in the same order, none added and none removed.
abbrev pub AllGrow : List Row → List Row → Type 0
AllGrow [] [] = Unit
AllGrow [] (b ∷ after) = ⊥
AllGrow (a ∷ rows) [] = ⊥
AllGrow (a ∷ rows) (b ∷ after) = Grows a b × AllGrow rows after

Grows-refl : (a : Row) → Grows a a
Grows-refl a = ground arith

Grows-trans : (a b d : Row) → Grows a b → Grows b d → Grows a d
Grows-trans a b d h k = ground arith

pub AllGrow-refl : (rows : List Row) → AllGrow rows rows
AllGrow-refl [] = tt
AllGrow-refl (r ∷ rows) = (Grows-refl r, AllGrow-refl rows)

pub AllGrow-trans : (a b d : List Row) → AllGrow a b → AllGrow b d → AllGrow a d
AllGrow-trans [] [] [] h k = tt
AllGrow-trans [] [] (z ∷ d) h k = absurd k
AllGrow-trans [] (y ∷ b) d h k = absurd h
AllGrow-trans (x ∷ a) [] d h k = absurd h
AllGrow-trans (x ∷ a) (y ∷ b) [] h k = absurd k
AllGrow-trans (x ∷ a) (y ∷ b) (z ∷ d) h k = (Grows-trans x y z h.0 k.0, AllGrow-trans a b d h.1 k.1)

update-AllGrow :
    (test : Row → Bool) (set : Row → Row) (rows : List Row)
    → ((r : Row) → Grows r (set r))
    → AllGrow rows (map (λ r. if test r then set r else r) rows)
update-AllGrow test set [] h = tt
update-AllGrow test set (r ∷ rows) h = (one (test r), update-AllGrow test set rows h)
  where
    one : (b : Bool) → Grows r (if b then set r else r)
    one true = h r
    one false = Grows-refl r

set_synced-Grows : (r : Row) → Grows r (set_synced r)
set_synced-Grows r = ground arith

set_failed-Grows :
    (max_sec base_sec : ℤ) (now : ℕ) (r : Row) → Grows r (set_failed max_sec base_sec now r)
unfolding set_failed
set_failed-Grows max_sec base_sec now r = ground arith

pub mark_failed-AllGrow :
    (max_sec base_sec : ℤ) (now : ℕ) (sql : Sql) (id : ℕ) (db : Db)
    → AllGrow db.rows (db_mark_sync_failed max_sec base_sec now sql id db).0.rows
unfolding db_mark_sync_failed
mark_failed-AllGrow max_sec base_sec now sql id db = run db.handle sql
  where
    run :
        (b : Bool) (sql' : Sql)
        → AllGrow db.rows
            (if b
              then execute sql'
                  (update_rows (λ r. r.id == id) (set_failed max_sec base_sec now) db)
                  db
              else (db, 0)).0.rows
    run true Sql.done =
        update-AllGrow (λ r. r.id == id) (set_failed max_sec base_sec now) db.rows
          (set_failed-Grows max_sec base_sec now)
    run true Sql.prepare_failed = AllGrow-refl db.rows
    run true Sql.step_failed = AllGrow-refl db.rows
    run false sql' = AllGrow-refl db.rows

mark_chunk-AllGrow :
    (ran : Bool) (ids : List ℕ) (db : Db) → AllGrow db.rows (mark_chunk ran ids db).rows
unfolding mark_chunk
mark_chunk-AllGrow true ids db =
    update-AllGrow (λ r. any (λ i. r.id == i) ids) set_synced db.rows set_synced-Grows
mark_chunk-AllGrow false ids db = AllGrow-refl db.rows

mark_chunks-AllGrow :
    (rounds k : ℕ) (exec : ℕ → Bool) (ids : List ℕ) (db : Db) (ok : ℕ)
    → AllGrow db.rows (mark_chunks rounds k exec ids (db, ok)).0.rows
unfolding mark_chunks
mark_chunks-AllGrow zero k exec ids db ok = AllGrow-refl db.rows
mark_chunks-AllGrow (suc rounds) k exec [] db ok = AllGrow-refl db.rows
mark_chunks-AllGrow (suc rounds) k exec (i ∷ ids) db ok =
    let db' = mark_chunk (exec k) (take chunk_size (i ∷ ids)) db in
    let ok' : ℕ = if exec k then ok else 0 in
    AllGrow-trans db.rows db'.rows
      (mark_chunks rounds (k + 1) exec (drop chunk_size (i ∷ ids)) (db', ok')).0.rows
      (mark_chunk-AllGrow (exec k) (take chunk_size (i ∷ ids)) db)
      (mark_chunks-AllGrow rounds (k + 1) exec (drop chunk_size (i ∷ ids)) db' ok')

pub mark_synced-AllGrow :
    (exec : ℕ → Bool) (ids : List ℕ) (db : Db)
    → AllGrow db.rows (db_mark_synced_batch exec ids db).0.rows
unfolding db_mark_synced_batch
mark_synced-AllGrow exec ids db = elim (Bool-cases (db.handle && ltb 0 (length ids))) [
  | inl go ↦ simp go (mark_chunks-AllGrow (length ids) 0 exec ids db 1)
  | inr skip ↦ simp skip (AllGrow-refl db.rows)
]
