-- ===== src/Settings/Entries.antt =====
-- The table that is read from a printed settings.ini holds the printed entries.
use just_in_time.Prelude.{
  ℕ, ◌≡◌, ◌≢◌, refl, ap, ◌∙◌, false, [], ◌∷◌, ◌++◌, arith, Bytes, ℤ, codes, All, All-append, length,
  IsInt32, ◌<◌, Lacks, lines, lines-line, cut_at-first, print_ℤ, IsNumeral, print_ℤ-IsNumeral,
}
use just_in_time.Settings.{
  AppSettings, Table, trim_newline, keep_unless_end, is_comment, insert_line, insert_lines,
  parse_ini_file, insert_found, put_all, entries, print_settings,
}

-- A text without line ends.
abbrev pub IsLine : Bytes → Type 0
IsLine s = Lacks 10 s × Lacks 13 s

abbrev pub IsKey : Bytes → Type 0
IsKey key = ((rest : Bytes) → is_comment (key ++ b'=' ∷ rest) ≡ false) × Lacks b'=' key × IsLine key

abbrev IsEntry : Bytes × Bytes → Type 0
IsEntry e = IsKey e.0 × IsLine e.1

abbrev pub onto_reversed : Table → Table → Table
onto_reversed [] table = table
onto_reversed (e ∷ es) table = onto_reversed es (e ∷ table)

trim_newline-IsLine : (s : Bytes) → IsLine s → trim_newline s ≡ s
unfolding trim_newline
trim_newline-IsLine [] h = refl
trim_newline-IsLine (c ∷ []) h = ground arith
trim_newline-IsLine (c ∷ d ∷ s) h =
    ap (keep_unless_end c) (trim_newline-IsLine (d ∷ s) (h.0.1, h.1.1))

entry-IsLine : (key value : Bytes) → IsKey key → IsLine value → IsLine (key ++ b'=' ∷ value)
entry-IsLine key value k v = (
  All-append (λ c. c ≢ 10) key (b'=' ∷ value) k.2.0 (omega arith, v.0),
  All-append (λ c. c ≢ 13) key (b'=' ∷ value) k.2.1 (omega arith, v.1),
)

insert-entry :
    (key value : Bytes) (table : Table)
    → IsKey key
    → IsLine value
    → insert_line (key ++ b'=' ∷ value) table ≡ (key, value) ∷ table
unfolding insert_line
insert-entry key value table k v =
    rw (trim_newline-IsLine (key ++ b'=' ∷ value) (entry-IsLine key value k v))
      (rw (k.0 value) (ap (λ found. insert_found found table) (cut_at-first b'=' key value k.1)))

insert-entries :
    (es table : Table)
    → All IsEntry es
    → insert_lines (lines (put_all es)) table ≡ onto_reversed es table
unfolding insert_lines lines
insert-entries [] table h = refl
insert-entries (e ∷ es) table h =
    let line : Bytes = e.0 ++ b'=' ∷ e.1 in
    ap (λ ls. insert_lines ls table)
      (lines-line line (put_all es) (entry-IsLine e.0 e.1 h.0.0 h.0.1).0)
    ∙ ap (insert_lines (lines (put_all es))) (insert-entry e.0 e.1 table h.0.0 h.0.1)
    ∙ insert-entries es (e ∷ table) h.1

numeral-IsLine : (s : Bytes) → All IsNumeral s → IsLine s
numeral-IsLine [] h = (tt, tt)
numeral-IsLine (c ∷ s) h =
    let (lf, cr) = numeral-IsLine s h.1 in ((ground (arith, h.0), lf), (ground (arith, h.0), cr))

print_ℤ-IsLine : (a : ℤ) → IsLine (print_ℤ a)
print_ℤ-IsLine a = numeral-IsLine (print_ℤ a) (print_ℤ-IsNumeral a)

-- A text that fits its buffer and its line.
abbrev pub Fits : ℕ → Bytes → Type 0
Fits size s = (length s < size) × IsLine s

-- The numbers are `int`s, and the texts fit their buffers and hold no line end.
pub record IsWritable (s : AppSettings) : Type 0 where
  pub sync_interval_sec : IsInt32 s.sync_interval_sec
  pub backup_interval_sec : IsInt32 s.backup_interval_sec
  pub summary_interval_sec : IsInt32 s.summary_interval_sec
  pub min_duration_sec : IsInt32 s.min_duration_sec
  pub autostart_enabled : IsInt32 s.autostart_enabled
  pub app_role : IsInt32 s.app_role
  pub language : IsInt32 s.language
  pub retry_backoff_base_sec : IsInt32 s.retry_backoff_base_sec
  pub retry_backoff_max_sec : IsInt32 s.retry_backoff_max_sec
  pub remote_view_enabled : IsInt32 s.remote_view_enabled
  pub remote_view_port : IsInt32 s.remote_view_port
  pub remote_view_token : Fits 64 s.remote_view_token
  pub excluded_processes : Fits 1024 s.excluded_processes
  pub supabase_url : Fits 256 s.supabase_url
  pub supabase_key : Fits 512 s.supabase_key

entries-IsEntry : (s : AppSettings) → IsWritable s → All IsEntry (entries s)
entries-IsEntry s w = (
  ((λ rest. refl, omega arith, (omega arith, omega arith)), print_ℤ-IsLine s.sync_interval_sec),
  (
    ((λ rest. refl, omega arith, (omega arith, omega arith)), print_ℤ-IsLine s.backup_interval_sec),
    (
      (
        (λ rest. refl, omega arith, (omega arith, omega arith)),
        print_ℤ-IsLine s.summary_interval_sec,
      ),
      (
        (
          (λ rest. refl, omega arith, (omega arith, omega arith)),
          print_ℤ-IsLine s.min_duration_sec,
        ),
        (
          (
            (λ rest. refl, omega arith, (omega arith, omega arith)),
            print_ℤ-IsLine s.autostart_enabled,
          ),
          (
            ((λ rest. refl, omega arith, (omega arith, omega arith)), print_ℤ-IsLine s.app_role),
            (
              ((λ rest. refl, omega arith, (omega arith, omega arith)), print_ℤ-IsLine s.language),
              (
                ((λ rest. refl, omega arith, (omega arith, omega arith)), w.excluded_processes.1),
                (
                  ((λ rest. refl, omega arith, (omega arith, omega arith)), w.supabase_url.1),
                  (
                    ((λ rest. refl, omega arith, (omega arith, omega arith)), w.supabase_key.1),
                    (
                      (
                        (λ rest. refl, omega arith, (omega arith, omega arith)),
                        print_ℤ-IsLine s.retry_backoff_base_sec,
                      ),
                      (
                        (
                          (λ rest. refl, omega arith, (omega arith, omega arith)),
                          print_ℤ-IsLine s.retry_backoff_max_sec,
                        ),
                        (
                          (
                            (λ rest. refl, omega arith, (omega arith, omega arith)),
                            print_ℤ-IsLine s.remote_view_enabled,
                          ),
                          (
                            (
                              (λ rest. refl, omega arith, (omega arith, omega arith)),
                              print_ℤ-IsLine s.remote_view_port,
                            ),
                            (
                              (
                                (λ rest. refl, omega arith, (omega arith, omega arith)),
                                w.remote_view_token.1,
                              ),
                              tt,
                            ),
                          ),
                        ),
                      ),
                    ),
                  ),
                ),
              ),
            ),
          ),
        ),
      ),
    ),
  ),
)

pub parse-print_settings :
    (s : AppSettings)
    → IsWritable s
    → parse_ini_file (print_settings s) ≡ onto_reversed (entries s) []
unfolding parse_ini_file print_settings insert_lines lines
parse-print_settings s w =
    let title : Bytes = codes "; JustInTime Agent - file cau hinh" in
    let skipped : insert_line title [] ≡ [] = unfold insert_line trim_newline in refl in
    ap (λ ls. insert_lines ls []) (lines-line title (put_all (entries s)) (omega arith))
    ∙ ap (insert_lines (lines (put_all (entries s)))) skipped
    ∙ insert-entries (entries s) [] (entries-IsEntry s w)
