-- ===== src/Backup/Export.antt =====
-- An export replaces the file as one, and the agent's own reader of JSON finds each row of it.
use just_in_time.Prelude.{ℕ, ◌≡◌, subst, ◌⊎◌, some, none, [], ◌∷◌, arith, Bytes, codes, print_ℕ}
use just_in_time.Json.Array.{Body}
use just_in_time.Db.{Row, Db}
use just_in_time.Backup.{
  Files, Exporting, export_text, array_text, rows_given, write_export, db_export_json,
}

abbrev chars : Bytes → Body → Body
chars [] b = b
chars (c ∷ s) b = Body.char c (chars s b)

-- A key with its colon and blank, and a comma with its blank.
abbrev key : Bytes → Body → Body
key k b = Body.quoted k (Body.char b':' (Body.char 32 b))

abbrev comma : Body → Body
comma b = Body.char b',' (Body.char 32 b)

abbrev number : Bytes → ℕ → Body → Body
number k n b = key k (chars (print_ℕ n) b)

abbrev text : Bytes → Bytes → Body → Body
text k s b = key k (Body.quoted s b)

-- The parts of a row's object, from the last field back.
module _ (date : ℕ → Bytes) (r : Row) where
  abbrev created : Body
  created = comma (text (codes "created_at") (date r.created_at) Body.end)

  abbrev synced_part : Body
  synced_part = comma (number (codes "synced") r.synced created)

  abbrev ended : Body
  ended = comma (number (codes "end_time") r.end_time synced_part)

  abbrev started : Body
  started = comma (number (codes "start_time") r.start_time ended)

  abbrev duration : Body
  duration = comma (number (codes "duration_seconds") r.duration_seconds started)

  abbrev title : Body
  title = comma (text (codes "window_title") r.window_title duration)

  abbrev process : Body
  process = comma (text (codes "process_name") r.process_name title)

  abbrev device : Body
  device = comma (text (codes "device_id") r.device_id process)

  abbrev row_body : Body
  row_body = number (codes "id") r.id device

-- The text behind the first row's separator.
abbrev end_text : Bytes
end_text = 10 ∷ b']' ∷ 10 ∷ []

-- The parts of a file that the export leaves: all of the new text at its place, or what was there.
abbrev pub IsWhole : Bytes → Files → Files × ℕ → Type 0
IsWhole text before (fs, result) =
    ((result ≡ 1) × (fs.target ≡ some text) × (fs.tmp ≡ none))
    ⊎ ((result ≡ 0) × (fs.target ≡ before.target))

-- Whichever calls fail, an export returns 1 and leaves the text of the rows that the query gave at
-- its place, and no other file, or it returns 0 and leaves the file that was there.
pub export_json-IsWhole :
    (e : Exporting) (date : ℕ → Bytes) (db : Db) (fs : Files)
    → IsWhole (array_text date (rows_given e.cut_at db.rows)) fs (db_export_json e date db fs)
unfolding db_export_json write_export
export_json-IsWhole e date db fs = ground arith

-- If no step of the query fails, the text that an export leaves is that of all rows.
pub export_json-IsWhole_table :
    (e : Exporting) (date : ℕ → Bytes) (db : Db) (fs : Files)
    → e.cut_at ≡ none
    → IsWhole (export_text date db.rows) fs (db_export_json e date db fs)
unfolding export_text rows_given
export_json-IsWhole_table e date db fs all =
    subst (λ o. IsWhole (array_text date (rows_given o db.rows)) fs (db_export_json e date db fs))
      all (export_json-IsWhole e date db fs)
