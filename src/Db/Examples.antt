-- ===== src/Db/Examples.antt =====
-- The theorems on the table at a table of three rows.
use mathlib.Core.List.{Perm}
use just_in_time.Prelude.{
  ℕ, ◌≡◌, refl, true, some, List, [], ◌∷◌, ◌++◌, keep, min, length, All, codes, arith,
}
use just_in_time.Db.{Row, Db, Sql, unsynced_rows}
use just_in_time.Db.Order.{IsDue, IsInOrder, unsynced_rows_lem}
use just_in_time.Db.Update.{db_mark_synced_batch, db_delete_old_records, db_count_unsynced}
use just_in_time.Db.Queue.{marked, mark_synced_batch_lem}
use just_in_time.Db.Retention.{is_unsynced, is_fresh, delete_old_records_keeps}

abbrev row : ℕ → ℕ → ℕ → Row
row id synced next_retry = record {
  id = id;
  device_id = codes "pc";
  process_name = codes "code.exe";
  window_title = codes "main.cpp";
  duration_seconds = 30;
  start_time = 1000;
  end_time = 1030;
  synced = synced;
  created_at = 1030;
  retry_count = some 2;
  next_retry_at = some next_retry;
}

abbrev table : Db
table = record {
  handle = true;
  rows = row 1 0 2000 ∷ row 2 1 0 ∷ row 3 0 0 ∷ [];
  last_id = 3;
  total_changes = 3;
}

unsynced_rows_lem_example :
    (later : List Row) × (others : List Row) × Perm
      ((unsynced_rows 3000 1 table ++ later) ++ others)
      table.rows
    × All (IsDue 3000) (unsynced_rows 3000 1 table ++ later)
    × All (λ r. ¬ IsDue 3000 r) others
    × IsInOrder (unsynced_rows 3000 1 table ++ later)
    × (length (unsynced_rows 3000 1 table) ≡ min 1 (length (unsynced_rows 3000 1 table ++ later)))
unsynced_rows_lem_example = unsynced_rows_lem 3000 1 table

mark_synced_batch_lem_example :
    ((db_mark_synced_batch (λ _. true) (1 ∷ 3 ∷ []) table).0.rows ≡ marked (1 ∷ 3 ∷ []) table.rows)
    × ((db_mark_synced_batch (λ _. true) (1 ∷ 3 ∷ []) table).1 ≡ 1)
mark_synced_batch_lem_example =
    mark_synced_batch_lem (λ _. true) (1 ∷ 3 ∷ []) table refl (omega arith) (λ j. refl)

delete_old_records_keeps_example :
    let after = (db_delete_old_records 9000000 Sql.done 30 table).0 in
    (keep is_unsynced after.rows ≡ keep is_unsynced table.rows)
    × (keep (is_fresh 9000000 30) after.rows ≡ keep (is_fresh 9000000 30) table.rows)
    × (db_count_unsynced Sql.done after ≡ db_count_unsynced Sql.done table)
delete_old_records_keeps_example = delete_old_records_keeps 9000000 30 Sql.done Sql.done table
