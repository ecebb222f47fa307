-- ===== src/Enforce/Usage.antt =====
-- The seconds of today that limits are held against, while a record is open and when it is closed.
use just_in_time.Prelude.{
  ℕ, ◌+◌, ◌-◌, ◌^◌, ◌%◌, ◌≤◌, ◌<◌, ◌≡◌, refl, sym, ap, ◌∙◌, Bool, true, ◌&&◌, List, [], ◌∷◌, ◌++◌,
  arith, Bytes, bytes_eq, bytes_eq_refl, keep, keep-append, max, leb, ltb, if◌then◌else◌,
}
use just_in_time.Db.{ActivityRecord, Row, Db, Sql, Convert, db_insert_activity}
use just_in_time.Db.Update.{sum_seconds, db_get_today_seconds}
use just_in_time.Activity.{Tracker, closed_now}
use just_in_time.Enforce.{Check, open_seconds, used_today}

-- The rows that count for the app of the open record.
abbrev counts : Check → Tracker → Row → Bool
counts k t r =
    bytes_eq r.process_name (k.convert.to_utf8 t.current_record.process_name)
    && leb k.day_start r.start_time

-- Their seconds.
abbrev pub closed_seconds : Check → Tracker → ℕ
closed_seconds k t = sum_seconds (keep (counts k t) k.db.rows)

sum_seconds-append : (a b : List Row) → sum_seconds (a ++ b) ≡ sum_seconds a + sum_seconds b
unfolding sum_seconds
sum_seconds-append [] b = omega arith
sum_seconds-append (r ∷ a) b = omega (arith, sum_seconds-append a b)

today_open :
    (c : Convert) (day_start : ℕ) (process : List ℕ) (db : Db)
    → db.handle ≡ true
    → db_get_today_seconds c day_start Sql.done process db
      ≡ sum_seconds (
          keep
            (λ r. bytes_eq r.process_name (c.to_utf8 process) && leb day_start r.start_time)
            db.rows)
        % 2 ^ 32
unfolding db_get_today_seconds
today_open c day_start process db open_db = rw (open_db, db_get_today_seconds)

-- What an insertion that succeeds adds.
inserted_row :
    (c : Convert) (device : Bytes) (now : ℕ) (rec : ActivityRecord) (db : Db)
    → db.handle ≡ true
    → let db' = (db_insert_activity c device now Sql.done rec db).0 in
      (r : Row) × (db'.rows ≡ db.rows ++ r ∷ [])
      × (db'.handle ≡ true)
      × (r.process_name ≡ c.to_utf8 rec.process_name)
      × (r.start_time ≡ rec.start_time)
      × (r.duration_seconds ≡ rec.duration_seconds)
unfolding db_insert_activity
inserted_row c device now rec db open_db = simp open_db (_, refl, refl, refl, refl, refl)

sum_one :
    (test : Row → Bool) (r : Row)
    → test r ≡ true
    → sum_seconds (keep test (r ∷ [])) ≡ r.duration_seconds
unfolding sum_seconds
sum_one test r h = rw h (omega arith)

same_total :
    (closed start now day_start : ℕ)
    → 0 < start
    → day_start ≤ start
    → start ≤ now
    → closed + (now - start) < 2 ^ 32
    → (closed + (if ltb start now then (now - start) % 2 ^ 32 else 0)) % 2 ^ 32
      ≡ closed % 2 ^ 32 + (if ltb 0 start then now - max start day_start else 0)
same_total closed start now day_start opened today later small = ground arith

-- Closing loses no time: for a record opened today, the seconds that the table gives once the
-- record is closed and inserted are those that were counted with the record still open, up to
-- 2 ^ 32 seconds.
pub used_today-closed :
    (k : Check) (device : Bytes) (t : Tracker)
    → k.db.handle ≡ true
    → k.statement ≡ Sql.done
    → 0 < t.current_record.start_time
    → k.day_start ≤ t.current_record.start_time
    → t.current_record.start_time ≤ k.env.now
    → closed_seconds k t + (k.env.now - t.current_record.start_time) < 2 ^ 32
    → let rec = closed_now k.env t.current_record in
      let db' = (db_insert_activity k.convert device k.env.now Sql.done rec k.db).0 in
      db_get_today_seconds k.convert k.day_start Sql.done t.current_record.process_name db'
      ≡ used_today k t
unfolding used_today closed_now
used_today-closed k device t open_db done opened today later small =
    let rec = closed_now k.env t.current_record in
    let process = t.current_record.process_name in
    let db' = (db_insert_activity k.convert device k.env.now Sql.done rec k.db).0 in
    let (r, rows, open_db', name, start, duration) =
      inserted_row k.convert device k.env.now rec k.db open_db in
    let counted : counts k t r ≡ true =
      rw name (rw start (ground (arith, bytes_eq_refl (k.convert.to_utf8 process)))) in
    let total : sum_seconds (keep (counts k t) db'.rows)
        ≡ closed_seconds k t + rec.duration_seconds =
      ap (λ l. sum_seconds (keep (counts k t) l)) rows
      ∙ ap sum_seconds (keep-append (counts k t) k.db.rows (r ∷ []))
      ∙ sum_seconds-append (keep (counts k t) k.db.rows) (keep (counts k t) (r ∷ []))
      ∙ ap (λ n. closed_seconds k t + n) (sum_one (counts k t) r counted ∙ duration) in
    today_open k.convert k.day_start process db' open_db'
    ∙ ap (λ n. n % 2 ^ 32) total
    ∙ same_total (closed_seconds k t) t.current_record.start_time k.env.now k.day_start opened today
        later small
    ∙ ap (λ n. n + open_seconds k t)
        (sym (
          ap (λ s. db_get_today_seconds k.convert k.day_start s process k.db) done
          ∙ today_open k.convert k.day_start process k.db open_db))

-- On one day and with one record open, time only adds up: what is reached stays reached.
pub used_today_mono :
    (k : Check) (t : Tracker) (later : ℕ)
    → k.env.now ≤ later
    → used_today k t ≤ used_today (record k { env = record k.env { now = later } }) t
unfolding used_today
used_today_mono k t later h = ground arith
