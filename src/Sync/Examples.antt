-- ===== src/Sync/Examples.antt =====
-- The theorems on the sync cycle at a queue of two records, one of which the server refuses.
use just_in_time.Prelude.{
  ℕ, suc, ◌+◌, ◌≤◌, ◌<◌, ◌≡◌, ◌⊎◌, refl, Bool, true, false, not, some, List, [], ◌∷◌, keep, any,
  length, codes, ◌==◌, ltb, if◌then◌else◌, ℤ, arith,
}
use just_in_time.Db.{
  Row, Sql, Convert, SyncRecord, db_get_unsynced_records, unsynced_rows, sort_rows, insert_row,
  before, is_pending, to_sync_record,
}
use just_in_time.Db.Grows.{AllGrow}
use just_in_time.Sync.{
  finish, more, max_records, Env, World, SendResult, fetch, sync_round, sync_pending_records,
}
use just_in_time.Sync.Safety.{sync_pending_records-AllGrow}
use just_in_time.Sync.Report.{ids_of}
use just_in_time.Sync.Deliver.{postponed, sync_round_delivers}
use just_in_time.Db.Queue.{marked}

abbrev row : ℕ → Row
row id = record {
  id = id;
  device_id = codes "pc";
  process_name = codes "code.exe";
  window_title = codes "main.cpp";
  duration_seconds = 30;
  start_time = 1000;
  end_time = 1030;
  synced = 0;
  created_at = 1030;
  retry_count = some 0;
  next_retry_at = some 0;
}

-- Identity on ASCII texts.
abbrev ascii : Convert
ascii = record { to_utf8 = λ s. s; to_wide = λ s. s }

-- The world outside: a clock that counts the calls, the answer being `answer`.
abbrev outside : (List SyncRecord → SendResult) → Env ℕ
outside answer = record {
  logged_in = λ n. true;
  now = λ n. 5000 + n;
  statement = λ n. (Sql.done, n);
  given = λ n. 0;
  chunk_runs = λ n k. true;
  send_batch = λ records n. (answer records, suc n);
  backoff_max = λ n. ℤ.pos 3600;
  backoff_base = λ n. ℤ.pos 30;
}

abbrev is_two : SyncRecord → Bool
is_two r = r.id == 2

abbrev refuse_two : List SyncRecord → SendResult
refuse_two records = record { sent = not (any is_two records); transport_error = false }

abbrev refusing : Env ℕ
refusing = outside refuse_two

abbrev two_records : World ℕ
two_records = record {
  db = record { handle = true; rows = row 1 ∷ row 2 ∷ []; last_id = 2; total_changes = 2 };
  net = 0;
}

sync_pending_records-AllGrow_example :
    (code : ℤ) × (w' : World ℕ) × (sync_pending_records refusing ascii two_records
      ≡ some (code, w'))
    × AllGrow two_records.db.rows w'.db.rows
    × ((code ≡ ℤ.pos 0) ⊎ (code ≡ ℤ.negsuc 0))
sync_pending_records-AllGrow_example = sync_pending_records-AllGrow refusing ascii two_records

two_fetched :
    (answer : List SyncRecord → SendResult)
    → (0 < length (fetch (outside answer) ascii two_records).0)
      × (length (keep is_two (fetch (outside answer) ascii two_records).0) ≤ 1)
unfolding db_get_unsynced_records unsynced_rows sort_rows insert_row before is_pending
    to_sync_record
two_fetched answer = (omega arith, omega arith)

sync_round_delivers_example :
    (w' : World ℕ) × (n : ℕ) × (sync_round refusing ascii two_records
      ≡ some (
          if ltb (length (fetch refusing ascii two_records).0) max_records
          then finish (ℤ.pos 0) w'
          else more w'))
    × (w'.db.rows
        ≡ postponed refusing n (ids_of (keep is_two (fetch refusing ascii two_records).0)) (
            marked
              (ids_of (keep (λ r. not (is_two r)) (fetch refusing ascii two_records).0))
              two_records.db.rows))
sync_round_delivers_example =
    sync_round_delivers refusing ascii is_two two_records (λ records n. refl)
      ((λ n. refl), (λ n k. refl)) refl (two_fetched refuse_two).0 (two_fetched refuse_two).1
