-- ===== src/Usage/Summary.antt =====
-- db_build_daily_summary_text of src/agent/shared/database.cpp: today's apps as lines of wide characters,
-- in the caller's buffer. A column of wide characters is padded by code units.
use just_in_time.Prelude.{
  ℕ, zero, suc, ◌-◌, ◌/◌, ◌%◌, ◌≤◌, ◌<◌, ◌≡◌, ◌⊎◌, Bool, true, false, ◌&&◌, List, [], ◌∷◌, ◌++◌,
  map, Bytes, codes, bytes_eq, leb, ltb, print_ℕ, if◌then◌else◌, length, take, keep,
}
use just_in_time.Db.{Row, Db, Convert, wide_cut}
use just_in_time.Usage.{AppUsage, Query, largest, order_by_start}

-- The subquery: the title of the newest of today's rows of the process.
abbrev pub first_title : List Row → Bytes
first_title [] = []
first_title (r ∷ rows) = r.window_title

unfoldable pub last_title : ℕ → List Row → Bytes → Bytes
last_title day_start rows name = first_title (
    order_by_start (λ a b. leb b a)
      (keep (λ r. bytes_eq r.process_name name && leb day_start r.start_time) rows))

-- A title of more than 50 characters ends in dots.
unfoldable pub short_title : List ℕ → List ℕ
short_title title = if ltb 50 (length title) then take 47 title ++ codes "..." else title

-- %-28ls and %02ld
unfoldable pub blanks : ℕ → List ℕ
blanks zero = []
blanks (suc n) = b' ' ∷ blanks n

abbrev pub column : List ℕ → List ℕ
column name = name ++ blanks (28 - length name)

abbrev pub two_places : ℕ → List ℕ
two_places n = if ltb n 10 then b'0' ∷ print_ℕ n else print_ℕ n

unfoldable pub clock : ℕ → List ℕ
clock total =
    two_places (total / 3600)
    ++ (b':' ∷ (two_places (total % 3600 / 60) ++ (b':' ∷ two_places (total % 60))))

abbrev pub title_part : List ℕ → List ℕ
title_part [] = []
title_part (c ∷ title) = codes "  - " ++ c ∷ title

unfoldable pub summary_line : Convert → ℕ → List Row → AppUsage → List ℕ
summary_line c day_start rows u =
    column (wide_cut c u.process_name 512)
    ++ (b' '
        ∷ (clock u.total_seconds
            ++ (title_part (short_title (wide_cut c (last_title day_start rows u.process_name) 512))
                ++ (10 ∷ []))))

-- The calls of swprintf into the `room` that is left, up to the first that fails; `left` says what such a
-- call leaves of a text that does not fit.
unfoldable pub fill : (ℕ → List ℕ → List ℕ) → ℕ → List (List ℕ) → List ℕ
fill left room [] = []
fill left room (l ∷ ls) =
    let rest = fill left (room - length l) ls in
    if ltb (length l) room then l ++ rest else left room l

abbrev pub no_data : List ℕ
no_data = codes "(No data yet today)"

-- The lines, or the one text if there are none, and the return value.
abbrev pub summary_of : (ℕ → List ℕ → List ℕ) → ℕ → List (List ℕ) → List ℕ × Bool
summary_of left room [] = (fill left room (no_data ∷ []), false)
summary_of left room (l ∷ ls) = (fill left room (l ∷ ls), true)

-- The lines of the apps that the query gives.
abbrev pub summary_lines : Convert → Query → ℕ → Db → List (List ℕ)
summary_lines c q day_start db =
    map (summary_line c day_start db.rows)
      (take q.gives (largest 15 (keep (λ r. leb day_start r.start_time) db.rows)))

unfoldable pub db_build_daily_summary_text :
    Convert → Query → (ℕ → List ℕ → List ℕ) → ℕ → ℕ → Db → List ℕ × Bool
db_build_daily_summary_text c q left day_start out_size db =
    if db.handle && q.prepares
    then summary_of left out_size (summary_lines c q day_start db)
    else ([], false)

abbrev pub joined : List (List ℕ) → List ℕ
joined [] = []
joined (l ∷ ls) = l ++ joined ls

-- The text without a limit.
abbrev pub whole_text : List (List ℕ) → List ℕ
whole_text [] = no_data
whole_text (l ∷ ls) = joined (l ∷ ls)

-- What is in the caller's buffer, and the whole text.
abbrev pub IsInBuffer : ℕ → List ℕ → List ℕ → Type 0
IsInBuffer size shown whole = (length shown < size) × ((shown ≡ whole) ⊎ (size ≤ length whole))
