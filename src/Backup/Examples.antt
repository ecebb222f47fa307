-- ===== src/Backup/Examples.antt =====
-- The theorems on backups at a directory with sixteen of them, and at an export of two rows.
use mathlib.Core.List.{Perm}
use just_in_time.Prelude.{
  ℕ, min, zero, suc, ◌+◌, ◌&&◌, Bool, bytes_eq, bytes_eq_refl, All, ap, ◌<◌, ◌≡◌, ◌≢◌, refl, true,
  false, not, none, some, List, [], ◌∷◌, ◌++◌, arith, Bytes, codes, length, keep, take,
}
use just_in_time.Db.{Row}
use just_in_time.Backup.{
  Stamp, Snapshot, backups_in, cleanup_old_backups, keep_count, is_backup, extension, name_le,
  backup_name, sort_names, insert_name, backup_create_snapshot,
}
use just_in_time.Backup.Newest.{IsDistinct}
use just_in_time.Backup.Kept.{IsEarlier, cleanup_keeps_newest}
use just_in_time.Backup.Names.{IsStamp, backup_name-IsEarlier}

abbrev at_minute : ℕ → Stamp
at_minute m = record { year = 2026; month = 3; day = 9; hour = 10; minute = m; second = 5 }

at_minute-IsStamp : (m : ℕ) → m < 100 → IsStamp (at_minute m)
at_minute-IsStamp m h = record {
  year = omega arith;
  month = omega arith;
  day = omega arith;
  hour = omega arith;
  minute = h;
  second = omega arith;
}

-- The name of a backup of one letter, in place of a time.
abbrev short_name : ℕ → Bytes
short_name c = codes "backup_" ++ (c ∷ codes ".json")

abbrev names : ℕ → List Bytes
names zero = codes "notes.json" ∷ []
names (suc n) = short_name (b'a' + n) ∷ names n

abbrev is_apart : Bytes → List Bytes → Bool
is_apart x [] = true
is_apart x (y ∷ ys) = not (bytes_eq y x) && is_apart x ys

abbrev is_distinct : List Bytes → Bool
is_distinct [] = true
is_distinct (x ∷ xs) = is_apart x xs && is_distinct xs

ne_of_test : (x y : Bytes) → bytes_eq y x ≡ false → y ≢ x
ne_of_test x y h e = cc (ap (λ z. bytes_eq z x) e, h, bytes_eq_refl x)

apart_of_test : (x : Bytes) (l : List Bytes) → is_apart x l ≡ true → All (λ y. y ≢ x) l
apart_of_test x [] h = tt
apart_of_test x (y ∷ l) h =
    (ne_of_test x y (ground (arith, h)), apart_of_test x l (ground (arith, h)))

IsDistinct-of_test : (l : List Bytes) → is_distinct l ≡ true → IsDistinct l
IsDistinct-of_test [] h = tt
IsDistinct-of_test (x ∷ l) h =
    (apart_of_test x l (ground (arith, h)), IsDistinct-of_test l (ground (arith, h)))

names-IsDistinct : IsDistinct (names 16)
names-IsDistinct = IsDistinct-of_test (names 16) refl

cleanup_keeps_newest_example :
    let dir' = cleanup_old_backups 17 (λ name. true) (names 16) in
    (removed : List Bytes) × Perm (removed ++ keep is_backup dir') (keep is_backup (names 16))
    × All (λ old. All (IsEarlier old) (keep is_backup dir')) removed
    × (length (keep is_backup dir') ≡ min keep_count (length (keep is_backup (names 16))))
    × (keep (λ name. not (is_backup name)) dir' ≡ keep (λ name. not (is_backup name)) (names 16))
cleanup_keeps_newest_example = cleanup_keeps_newest 17 (names 16) (omega arith) names-IsDistinct

two_removed :
    cleanup_old_backups 17 (λ name. true) (names 16) ≡ take 14 (names 16) ++ codes "notes.json" ∷ []
unfolding cleanup_old_backups backups_in is_backup extension sort_names insert_name name_le
two_removed = refl

backup_name-IsEarlier_example : IsEarlier (backup_name (at_minute 9)) (backup_name (at_minute 10))
backup_name-IsEarlier_example =
    backup_name-IsEarlier (at_minute 9) (at_minute 10) (at_minute-IsStamp 9 (omega arith))
      (at_minute-IsStamp 10 (omega arith)) (omega arith)

name_printed : backup_name (at_minute 9) ≡ codes "backup_20260309_100905.json"
unfolding backup_name
name_printed = refl

abbrev row : ℕ → Bytes → Row
row i title = record {
  id = i;
  device_id = codes "PC-0A1B2C3D";
  process_name = codes "code.exe";
  window_title = title;
  duration_seconds = 12;
  start_time = 100;
  end_time = 112;
  synced = 1;
  created_at = 112;
  retry_count = some 0;
  next_retry_at = none;
}

abbrev two_rows : List Row
two_rows = row 7 (codes "a } b") ∷ row 3 (codes "\"{") ∷ []

abbrev noon : ℕ → Bytes
noon t = codes "2026-03-09 12:00:00"

abbrev good : Snapshot
good = record {
  has_dir = true;
  exported = true;
  at_time = at_minute 9;
  listed = 20;
  removes = λ name. true;
}

snapshot_once :
    let (b, r) = backup_create_snapshot good 5 (record { last_changes = none; dir = [] }) in
    backup_create_snapshot good 5 b ≡ (b, 1)
unfolding backup_create_snapshot
snapshot_once = refl
