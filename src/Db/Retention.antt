-- ===== src/Db/Retention.antt =====
-- The clean-up of old rows never takes one that the cloud does not have.
use just_in_time.Prelude.{
  ℕ, ◌+◌, ◌*◌, ◌≡◌, refl, ap, Bool, true, not, inl, inr, List, [], ◌∷◌, arith, Bool-cases, keep,
  leb, ◌==◌,
}
use just_in_time.Db.{Row, Db, Sql}
use just_in_time.Db.Update.{is_expired, db_delete_old_records, db_count_unsynced}

keep-keep :
    (p q : Row → Bool) (rows : List Row)
    → ((r : Row) → p r ≡ true → q r ≡ true)
    → keep p (keep q rows) ≡ keep p rows
keep-keep p q [] h = refl
keep-keep p q (r ∷ rows) h = elim (Bool-cases (p r)) [
  | inl yes_p ↦ rw (h r yes_p) (rw yes_p (ap (λ l. r ∷ l) (keep-keep p q rows h)))
  | inr no_p ↦ ground (arith, keep-keep p q rows h)
]

abbrev pub is_unsynced : Row → Bool
is_unsynced r = r.synced == 0

-- Created within the last `days` days.
abbrev pub is_fresh : ℕ → ℕ → Row → Bool
is_fresh now days r = leb now (r.created_at + days * 86400)

unsynced_kept : (now days : ℕ) (r : Row) → is_unsynced r ≡ true → not (is_expired now days r) ≡ true
unfolding is_expired
unsynced_kept now days r h = ground arith

fresh_kept :
    (now days : ℕ) (r : Row) → is_fresh now days r ≡ true → not (is_expired now days r) ≡ true
unfolding is_expired
fresh_kept now days r h = ground arith

-- Whatever the outcome of the statement, deleting old records keeps every row that is not synced and
-- every row younger than the retention time, in order, so the count of unsynced rows stays.
pub delete_old_records_keeps :
    (now days : ℕ) (sql sql' : Sql) (db : Db)
    → let after = (db_delete_old_records now sql days db).0 in
      (keep is_unsynced after.rows ≡ keep is_unsynced db.rows)
      × (keep (is_fresh now days) after.rows ≡ keep (is_fresh now days) db.rows)
      × (db_count_unsynced sql' after ≡ db_count_unsynced sql' db)
unfolding db_delete_old_records db_count_unsynced
delete_old_records_keeps now days sql sql' db = ground (
  arith,
  keep-keep is_unsynced (λ r. not (is_expired now days r)) db.rows (unsynced_kept now days),
  keep-keep (is_fresh now days) (λ r. not (is_expired now days r)) db.rows (fresh_kept now days),
)
