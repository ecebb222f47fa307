-- ===== src/Backup.antt =====
-- src/agent/shared/backup.cpp: snapshots of the table in a directory, of which the newest stay, and
-- `db_export_json` of src/agent/shared/database.cpp, which writes one. File names are lists of UTF-16
-- units. The success of each call of the file system comes from outside.
pub mod Sorting
pub mod Newest
pub mod Kept
pub mod Names
pub mod Export
mod Examples
use just_in_time.Prelude.{
  ℕ, ◌+◌, ◌-◌, ◌/◌, ◌%◌, leb, ltb, ◌==◌, if◌then◌else◌, Bool, true, false, not, ◌&&◌, Option, none,
  some, List, [], ◌∷◌, ◌++◌, Bytes, bytes_eq, codes, is_prefix, take, length, keep, any, print_ℕ,
  map,
}
use just_in_time.Json.{json_escape_string}
use just_in_time.Db.{Row, Db}

-- BACKUP_KEEP_COUNT
abbrev pub keep_count : ℕ
keep_count = 14

-- p.extension(): from the last dot on.
unfoldable pub extension : Bytes → Bytes
extension [] = []
extension (c ∷ s) = if (c == b'.') && not (any (λ d. d == b'.') s) then c ∷ s else extension s

unfoldable pub is_backup : Bytes → Bool
is_backup name = is_prefix (codes "backup_") name && bytes_eq (extension name) (codes ".json")

-- a <= b for paths in one directory: by code units
unfoldable pub name_le : Bytes → Bytes → Bool
name_le [] b = true
name_le (c ∷ a) [] = false
name_le (c ∷ a) (d ∷ b) =
    let rest = name_le a b in if ltb c d then true else if c == d then rest else false

unfoldable pub insert_name : Bytes → List Bytes → List Bytes
insert_name x [] = x ∷ []
insert_name x (y ∷ ys) = if name_le x y then x ∷ y ∷ ys else y ∷ insert_name x ys

-- std::sort(files.begin(), files.end()); the names in one directory differ.
unfoldable pub sort_names : List Bytes → List Bytes
sort_names [] = []
sort_names (x ∷ xs) = insert_name x (sort_names xs)

abbrev pub is_in : List Bytes → Bytes → Bool
is_in names name = any (bytes_eq name) names

unfoldable pub backups_in : List Bytes → List Bytes
backups_in dir = sort_names (keep is_backup dir)

-- The directory iterator gives `listed` names before it ends or fails, and `removes` says which
-- files can be removed.
unfoldable pub cleanup_old_backups : ℕ → (Bytes → Bool) → List Bytes → List Bytes
cleanup_old_backups listed removes dir =
    let files = backups_in (take listed dir) in
    let old = take (length files - keep_count) files in
    keep (λ name. not (is_in old name && removes name)) dir

-- `struct tm`, with the year as it is printed.
pub record Stamp : Type 0 where
  pub year : ℕ
  pub month : ℕ
  pub day : ℕ
  pub hour : ℕ
  pub minute : ℕ
  pub second : ℕ

-- %02d of a number below 100, and %04d of one below 10000
abbrev pub two_digits : ℕ → Bytes
two_digits n = (b'0' + n / 10) ∷ (b'0' + n % 10) ∷ []

abbrev pub four_digits : ℕ → Bytes
four_digits n = two_digits (n / 100) ++ two_digits (n % 100)

unfoldable pub backup_name : Stamp → Bytes
backup_name t =
    codes "backup_"
    ++ (four_digits t.year
        ++ (two_digits t.month
            ++ (two_digits t.day
                ++ (b'_'
                    ∷ (two_digits t.hour
                        ++ (two_digits t.minute ++ (two_digits t.second ++ codes ".json")))))))

-- `g_lastBackupChanges`, with `none` for -1, and the names in the directory.
pub record Backups : Type 0 where
  pub last_changes : Option ℕ
  pub dir : List Bytes

-- What one call meets: the directory can be made, the export succeeds, and the clean-up's outcomes.
pub record Snapshot : Type 0 where
  pub has_dir : Bool
  pub exported : Bool
  pub at_time : Stamp
  pub listed : ℕ
  pub removes : Bytes → Bool

abbrev pub is_unchanged : Option ℕ → ℕ → Bool
is_unchanged none changes = false
is_unchanged (some last) changes = last == changes

-- A file of that name is replaced.
abbrev pub add_file : Bytes → List Bytes → List Bytes
add_file name dir = if is_in dir name then dir else name ∷ dir

unfoldable pub backup_create_snapshot : Snapshot → ℕ → Backups → Backups × ℕ
backup_create_snapshot s changes b =
    if◌then◌else◌ {A = Backups × ℕ} (is_unchanged b.last_changes changes) (b, 1)
      (if◌then◌else◌ {A = Backups × ℕ} (s.has_dir && s.exported)
        (
          record {
            last_changes = some changes;
            dir = cleanup_old_backups s.listed s.removes (add_file (backup_name s.at_time) b.dir);
          },
          1,
        )
        (b, 0))

-- ORDER BY id
unfoldable pub insert_by_id : Row → List Row → List Row
insert_by_id r [] = r ∷ []
insert_by_id r (x ∷ xs) = if leb r.id x.id then r ∷ x ∷ xs else x ∷ insert_by_id r xs

unfoldable pub order_by_id : List Row → List Row
order_by_id [] = []
order_by_id (r ∷ rs) = insert_by_id r (order_by_id rs)

abbrev pub quoted : Bytes → Bytes
quoted s = b'"' ∷ (json_escape_string s ++ codes "\"")

-- `date` prints the time of `created_at`, as SQLite does.
unfoldable pub row_json : (ℕ → Bytes) → Row → Bytes
row_json date r =
    codes "{\"id\": "
    ++ (print_ℕ r.id
        ++ (codes ", \"device_id\": "
            ++ (quoted r.device_id
                ++ (codes ", \"process_name\": "
                    ++ (quoted r.process_name
                        ++ (codes ", \"window_title\": "
                            ++ (quoted r.window_title
                                ++ (codes ", \"duration_seconds\": "
                                    ++ (print_ℕ r.duration_seconds
                                        ++ (codes ", \"start_time\": "
                                            ++ (print_ℕ r.start_time
                                                ++ (codes ", \"end_time\": "
                                                    ++ (print_ℕ r.end_time
                                                        ++ (codes ", \"synced\": "
                                                            ++ (print_ℕ r.synced
                                                            ++ (codes ", \"created_at\": "
                                                            ++ (quoted (date r.created_at)
                                                            ++ codes "}")))))))))))))))))

-- The row in front of which `first` is false gets a comma.
unfoldable pub rows_json : (ℕ → Bytes) → Bool → List Row → Bytes
rows_json date first [] = []
rows_json date first (r ∷ rs) =
    (if first then codes "  " else b',' ∷ 10 ∷ codes "  ")
    ++ (row_json date r ++ rows_json date false rs)

-- The text of the rows that the query gives.
abbrev pub array_text : (ℕ → Bytes) → List Row → Bytes
array_text date given = b'[' ∷ 10 ∷ (rows_json date true given ++ (10 ∷ b']' ∷ 10 ∷ []))

-- The text if the query gives all rows.
unfoldable pub export_text : (ℕ → Bytes) → List Row → Bytes
export_text date rows = array_text date (order_by_id rows)

-- The target file and the file beside it with the ending .tmp.
pub record Files : Type 0 where
  pub target : Option Bytes
  pub tmp : Option Bytes

-- Which calls of one export succeed: opening the file, preparing the query, stepping it (`cut_at` is
-- the number of rows given before a step fails, with `none` if none does), writing (of which `partial`
-- stands in the file if it fails), and moving the file to its place.
pub record Exporting : Type 0 where
  pub opens : Bool
  pub prepares : Bool
  pub cut_at : Option ℕ
  pub writes : Bool
  pub moves : Bool
  pub partial : Bytes

-- DeleteFileW(tmp.c_str()); return 0;
abbrev pub dropped : Files → Files × ℕ
dropped fs = (record fs { tmp = none }, 0)

unfoldable pub write_export : Exporting → Bytes → Files → Files × ℕ
write_export e text fs =
    if◌then◌else◌ {A = Files × ℕ} (not e.prepares) (dropped (record fs { tmp = some [] })) (
      if◌then◌else◌ {A = Files × ℕ} (not e.writes) (dropped (record fs { tmp = some e.partial })) (
        if◌then◌else◌ {A = Files × ℕ} e.moves (record { target = some text; tmp = none }, 1)
          (dropped (record fs { tmp = some text }))))

-- The rows that the query gives; the loop ends at the first step that gives none.
unfoldable pub rows_given : Option ℕ → List Row → List Row
rows_given none rows = order_by_id rows
rows_given (some count) rows = take count (order_by_id rows)

unfoldable pub db_export_json : Exporting → (ℕ → Bytes) → Db → Files → Files × ℕ
db_export_json e date db fs =
    if◌then◌else◌ {A = Files × ℕ} (db.handle && e.opens)
      (write_export e (array_text date (rows_given e.cut_at db.rows)) fs) (fs, 0)
