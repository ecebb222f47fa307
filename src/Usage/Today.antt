-- ===== src/Usage/Today.antt =====
-- The overview's list of today's apps against the seconds that limits are held against.
use just_in_time.Prelude.{
  ℕ, zero, suc, ◌%◌, ◌^◌, min, ◌≡◌, refl, sym, ap, ◌∙◌, Bool, true, ◌&&◌, List, [], ◌∷◌, arith,
  Bytes, bytes_eq, keep, All, take, map, leb,
}
use just_in_time.Db.{Row, Db, Sql, Convert, wide_cut}
use just_in_time.Db.Update.{sum_seconds, db_get_today_seconds}
use just_in_time.Usage.{
  AppUsage, Query, SummaryEntry, summary_max, summary_entry, add_to_group, group_by_process,
  insert_usage, order_by_total, largest, db_get_today_app_summary,
}
use just_in_time.Usage.Groups.{seconds_of}
use just_in_time.Usage.Top.{AllExact, largest-IsTop}

-- Every process that the list of entries names comes from a row.
module _ (P : Bytes → Type 0) where
  abbrev Named : List AppUsage → Type 0
  Named = All (λ u. P u.process_name)

  abbrev FromRows : List Row → Type 0
  FromRows = All (λ r. P r.process_name)

  add-Named :
      (r : Row) (us : List AppUsage) → P r.process_name → Named us → Named (add_to_group r us)
  unfolding add_to_group
  add-Named r [] h a = (h, tt)
  add-Named r (u ∷ us) h a = ground (arith, add-Named r us h a.1)

  group-Named : (rows : List Row) → FromRows rows → Named (group_by_process rows)
  unfolding group_by_process
  group-Named [] a = tt
  group-Named (r ∷ rows) a = add-Named r (group_by_process rows) a.0 (group-Named rows a.1)

  insert-Named :
      (u : AppUsage) (us : List AppUsage) → P u.process_name → Named us → Named (insert_usage u us)
  unfolding insert_usage
  insert-Named u [] h a = (h, tt)
  insert-Named u (x ∷ us) h a = ground (arith, insert-Named u us h a.1)

  order-Named : (us : List AppUsage) → Named us → Named (order_by_total us)
  unfolding order_by_total
  order-Named [] a = tt
  order-Named (u ∷ us) a = insert-Named u (order_by_total us) a.0 (order-Named us a.1)

  take-Named : (k : ℕ) (us : List AppUsage) → Named us → Named (take k us)
  take-Named zero us a = tt
  take-Named (suc k) [] a = tt
  take-Named (suc k) (u ∷ us) a = (a.0, take-Named k us a.1)

  keep-FromRows : (p : Row → Bool) (rows : List Row) → FromRows rows → FromRows (keep p rows)
  keep-FromRows p [] a = tt
  keep-FromRows p (r ∷ rows) a = ground (arith, keep-FromRows p rows a.1)

  largest-Named : (k : ℕ) (rows : List Row) → FromRows rows → Named (largest k rows)
  unfolding largest
  largest-Named k rows a =
      take-Named k (order_by_total (group_by_process rows))
        (order-Named (group_by_process rows) (group-Named rows a))

-- Picking today's rows, then a process's, is picking both at once.
seconds_of-today :
    (n : Bytes) (day_start : ℕ) (rows : List Row)
    → seconds_of n (keep (λ r. leb day_start r.start_time) rows)
      ≡ sum_seconds (keep (λ r. bytes_eq r.process_name n && leb day_start r.start_time) rows)
unfolding sum_seconds
seconds_of-today n day_start [] = refl
seconds_of-today n day_start (r ∷ rows) = ground (arith, seconds_of-today n day_start rows)

-- The name survives the buffer of 512 wide characters.
abbrev pub IsKept : Convert → Bytes → Type 0
IsKept c n = c.to_utf8 (wide_cut c n 512) ≡ n

today_lem :
    (c : Convert) (day_start : ℕ) (n : Bytes) (db : Db)
    → db.handle ≡ true
    → IsKept c n
    → db_get_today_seconds c day_start Sql.done (wide_cut c n 512) db
      ≡ seconds_of n (keep (λ r. leb day_start r.start_time) db.rows) % 2 ^ 32
unfolding db_get_today_seconds
today_lem c day_start n db opened kept =
    rw (opened, kept) (ap (λ x. x % 2 ^ 32) (sym (seconds_of-today n day_start db.rows)))

-- Each entry agrees with what `db_get_today_seconds` says of its process.
abbrev pub AllAgree : Convert → ℕ → Db → List SummaryEntry → Type 0
AllAgree c day_start db =
    All
      (λ e. e.total_seconds % 2 ^ 32 ≡ db_get_today_seconds c day_start Sql.done e.process_name db)

entries-AllAgree :
    (c : Convert) (day_start : ℕ) (db : Db)
    → db.handle ≡ true
    → (k : ℕ) (us : List AppUsage) → All (λ u. IsKept c u.process_name) us
    → AllExact (keep (λ r. leb day_start r.start_time) db.rows) us
    → AllAgree c day_start db (map (summary_entry c) (take k us))
entries-AllAgree c day_start db opened zero us kept exact = tt
entries-AllAgree c day_start db opened (suc k) [] kept exact = tt
entries-AllAgree c day_start db opened (suc k) (u ∷ us) kept exact = (
  ap (λ x. x % 2 ^ 32) exact.0 ∙ sym (today_lem c day_start u.process_name db opened kept.0),
  entries-AllAgree c day_start db opened k us kept.1 exact.1,
)

-- With an open database and names that fit and convert back, every app of the overview shows, up to
-- the 32 bits of a `long`, the very seconds that `db_get_today_seconds` holds against its limit.
pub today_app_summary-AllAgree :
    (c : Convert) (q : Query) (day_start max_entries : ℕ) (db : Db)
    → db.handle ≡ true
    → q.prepares ≡ true
    → All (λ r. IsKept c r.process_name) db.rows
    → AllAgree c day_start db (db_get_today_app_summary c q day_start max_entries db)
unfolding db_get_today_app_summary
today_app_summary-AllAgree c q day_start max_entries db opened prepared kept =
    let today = keep (λ r. leb day_start r.start_time) db.rows in
    let limit = min max_entries summary_max in
    simp (opened, prepared)
      (entries-AllAgree c day_start db opened q.gives (largest limit today)
        (largest-Named (IsKept c) limit today
          (keep-FromRows (IsKept c) (λ r. leb day_start r.start_time) db.rows kept))
        (largest-IsTop limit today []).0)
