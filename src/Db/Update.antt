-- ===== src/Db/Update.antt =====
-- The statements of database.cpp that change rows, and the sums and counts over them.
use just_in_time.Prelude.{
  ℕ, zero, suc, ◌+◌, ◌*◌, ◌^◌, ◌%◌, min, max, Bool, false, not, ◌&&◌, none, some, List, [], ◌∷◌,
  map, bytes_eq, ℤ, leb, ltb, ◌==◌, if◌then◌else◌, length, take, drop, keep, any,
}
use just_in_time.Db.{Row, Db, Sql, Convert, execute, outcome}

-- UPDATE activity_logs SET … WHERE …
abbrev pub update_rows : (Row → Bool) → (Row → Row) → Db → Db
update_rows test set db = record db {
  rows = map (λ r. if test r then set r else r) db.rows;
  total_changes = db.total_changes + length (keep test db.rows);
}

abbrev pub set_synced : Row → Row
set_synced r = record r { synced = 1 }

unfoldable pub db_mark_synced : Sql → ℕ → Db → Db × ℕ
db_mark_synced sql id db =
    if db.handle then execute sql (update_rows (λ r. r.id == id) set_synced db) db else (db, 0)

abbrev pub chunk_size : ℕ
chunk_size = 500

-- One round: UPDATE … WHERE id IN (…)
unfoldable pub mark_chunk : Bool → List ℕ → Db → Db
mark_chunk ran ids db =
    if ran then update_rows (λ r. any (λ i. r.id == i) ids) set_synced db else db

-- The rounds over the ids from `offset` on; `exec k` says that statement k ran. Each round takes
-- at least one id, so as many rounds as ids are enough.
unfoldable pub mark_chunks : ℕ → ℕ → (ℕ → Bool) → List ℕ → Db × ℕ → Db × ℕ
unfolding mark_chunk
mark_chunks zero k exec ids (db, ok) = (db, ok)
mark_chunks (suc rounds) k exec [] (db, ok) = (db, ok)
mark_chunks (suc rounds) k exec (i ∷ ids) (db, ok) =
    mark_chunks rounds (k + 1) exec (drop chunk_size (i ∷ ids))
      (mark_chunk (exec k) (take chunk_size (i ∷ ids)) db, if exec k then ok else 0)

unfoldable pub db_mark_synced_batch : (ℕ → Bool) → List ℕ → Db → Db × ℕ
unfolding mark_chunks
db_mark_synced_batch exec ids db =
    if db.handle && ltb 0 (length ids) then mark_chunks (length ids) 0 exec ids (db, 1) else (db, 0)

-- COALESCE(retry_count, 0)
abbrev pub retries : Row → ℕ
retries r = elim r.retry_count [ none ↦ 0 | some n ↦ n ]

-- MAX(1, MIN(max, base << MIN(retry_count + 1, 20))) on 64-bit integers: a negative `int` shifted
-- stays negative, and a 32-bit one cannot overflow here.
unfoldable pub backoff_delay : ℤ → ℤ → ℕ → ℕ
backoff_delay (ℤ.negsuc m) base tries = 1
backoff_delay (ℤ.pos m) (ℤ.negsuc b) tries = 1
backoff_delay (ℤ.pos m) (ℤ.pos b) tries = max 1 (min m (b * 2 ^ min (tries + 1) 20))

unfoldable pub set_failed : ℤ → ℤ → ℕ → Row → Row
unfolding backoff_delay
set_failed max_sec base_sec now r = record r {
  retry_count = some (retries r + 1);
  next_retry_at = some (now + backoff_delay max_sec base_sec (retries r));
}

-- `max_sec` and `base_sec` are those of `settings_get`.
unfoldable pub db_mark_sync_failed : ℤ → ℤ → ℕ → Sql → ℕ → Db → Db × ℕ
unfolding set_failed
db_mark_sync_failed max_sec base_sec now sql id db =
    if db.handle
    then execute sql (update_rows (λ r. r.id == id) (set_failed max_sec base_sec now) db) db
    else (db, 0)

unfoldable pub db_count_unsynced : Sql → Db → ℕ
db_count_unsynced sql db = elim (outcome db sql) [
  | Sql.done ↦ length (keep (λ r. r.synced == 0) db.rows)
  | _ ↦ 0
]

-- synced = 1 AND created_at < datetime('now', '-<days> day')
unfoldable pub is_expired : ℕ → ℕ → Row → Bool
is_expired now days r = r.synced == 1 && ltb (r.created_at + days * 86400) now

unfoldable pub db_delete_old_records : ℕ → Sql → ℕ → Db → Db × ℕ
unfolding is_expired
db_delete_old_records now sql days db =
    if db.handle
    then execute sql
        (record db {
          rows = keep (λ r. not (is_expired now days r)) db.rows;
          total_changes = db.total_changes + length (keep (is_expired now days) db.rows);
        })
        db
    else (db, 0)

unfoldable pub sum_seconds : List Row → ℕ
sum_seconds [] = 0
sum_seconds (r ∷ rows) = r.duration_seconds + sum_seconds rows

-- SUM over process_name = ? AND start_time >= dayStart; the cast to `long` keeps 32 bits.
unfoldable pub db_get_today_seconds : Convert → ℕ → Sql → List ℕ → Db → ℕ
unfolding sum_seconds
db_get_today_seconds c day_start sql process db = elim (outcome db sql) [
  | Sql.done ↦
      sum_seconds (
        keep (λ r. bytes_eq r.process_name (c.to_utf8 process) && leb day_start r.start_time)
          db.rows)
      % 2 ^ 32
  | _ ↦ 0
]

unfoldable pub db_change_counter : Db → ℕ
db_change_counter db = if db.handle then db.total_changes else 0

unfoldable pub db_close : Db → Db
db_close db = record db { handle = false }
