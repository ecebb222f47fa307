-- ===== src/Limits/File.antt =====
-- What is written to limits.cache is what the next start of the agent reads back.
use just_in_time.Prelude.{
  ℕ, ◌+◌, ◌≤◌, ◌<◌, ◌≡◌, ◌≢◌, refl, sym, ap, ◌∙◌, Bool, true, false, none, some, List, [], ◌∷◌,
  ◌++◌, append_assoc, append-nil, map, arith, All, All-append, Bytes, codes, strip_prefix, lines,
  lines-line, cut_at, cut_at-first, chop_return, chop_return-none, Lacks, ℤ, IsInt32, print_ℤ,
  print_ℤ-IsNumeral, IsNumeral, strtol, strtol-print_ℤ, leb, ◌==◌, if◌then◌else◌, length,
  length-append, take_all,
}
use just_in_time.Limits.{
  AppLimit, Loaded, max_limits, is_set, print_limit, print_limits, print_cache, read_fields,
  add_fields, add_limit, read_line, read_lines, read_file,
}

-- An entry that fits a line: a short name without tab and line end that is no `user=` line.
pub record Fits (l : AppLimit) : Type 0 where
  pub named : l.process_name ≢ []
  pub short : length l.process_name ≤ 259
  pub no_tab : Lacks 9 l.process_name
  pub no_end : Lacks 10 l.process_name
  pub no_return : Lacks 13 l.process_name
  pub no_user : (rest : Bytes) → strip_prefix (codes "user=") (l.process_name ++ 9 ∷ rest) ≡ none
  pub small : IsInt32 l.daily_limit_sec

-- The file does not keep the ids.
abbrev pub without_id : AppLimit → AppLimit
without_id l = record l { id = ℤ.pos 0 }

numeral_Lacks : (d : ℕ) (s : Bytes) → d < 33 → All IsNumeral s → Lacks d s
numeral_Lacks d [] h p = tt
numeral_Lacks d (c ∷ s) h p = (ground arith, numeral_Lacks d s h p.1)

abbrev flag : Bool → Bytes
flag b = (if b then b'1' else b'0') ∷ []

is_set-flag : (b : Bool) → is_set (flag b) ≡ b
unfolding strtol
is_set-flag true = refl
is_set-flag false = refl

Lacks-flag : (d : ℕ) (b : Bool) → d < 33 → Lacks d (flag b)
Lacks-flag d true h = ground arith
Lacks-flag d false h = ground arith

Lacks-line :
    (d : ℕ) (l : AppLimit) → Lacks d l.process_name → d < 33 → d ≢ 9 → Lacks d (print_limit l)
unfolding print_limit
Lacks-line d l name h other =
    All-append (λ c. c ≢ d) l.process_name _ name
      (
        sym_ne other,
        All-append (λ c. c ≢ d) (print_ℤ l.daily_limit_sec) _
            (numeral_Lacks d (print_ℤ l.daily_limit_sec) h (print_ℤ-IsNumeral l.daily_limit_sec))
            (sym_ne other, Lacks-flag d l.blocked h),
      )
  where
    sym_ne : d ≢ 9 → 9 ≢ d
    sym_ne n = omega arith

fields_back :
    (l : AppLimit)
    → Fits l
    → read_fields l.process_name (print_ℤ l.daily_limit_sec) (flag l.blocked) ≡ without_id l
unfolding read_fields
fields_back l f = rw (take_all 259 l.process_name f.short) (
    rw (is_set-flag l.blocked) (
      ap
        (λ v. record {
          id = ℤ.pos 0;
          process_name = l.process_name;
          daily_limit_sec = v;
          blocked = l.blocked;
        })
        (ap strtol (sym (append-nil (print_ℤ l.daily_limit_sec)))
          ∙ strtol-print_ℤ l.daily_limit_sec [] f.small tt)))

read_line-entry :
    (k : Loaded) (line name rest daily blocked : Bytes)
    → strip_prefix (codes "user=") line ≡ none
    → cut_at 9 line ≡ some (name, rest)
    → cut_at 9 rest ≡ some (daily, blocked)
    → (length name == 0) ≡ false
    → leb 64 (length k.limits) ≡ false
    → read_line k line ≡ record k { limits = k.limits ++ read_fields name daily blocked ∷ [] }
unfolding read_line add_limit add_fields
read_line-entry k line name rest daily blocked no_user first second named room =
    simp no_user (ap (add_limit k) first ∙ ap (add_fields k name) second ∙ simp (named, room) refl)

read_line-print :
    (k : Loaded) (l : AppLimit)
    → Fits l
    → length k.limits < 64
    → read_line k (chop_return (print_limit l))
      ≡ record k { limits = k.limits ++ without_id l ∷ [] }
unfolding print_limit
read_line-print k l f room =
    let daily = print_ℤ l.daily_limit_sec in
    let numeral = numeral_Lacks 9 daily (omega arith) (print_ℤ-IsNumeral l.daily_limit_sec) in
    ap (read_line k)
      (chop_return-none (print_limit l) (Lacks-line 13 l f.no_return (omega arith) (omega arith)))
    ∙ read_line-entry k (print_limit l) l.process_name (daily ++ (9 ∷ flag l.blocked)) daily
        (flag l.blocked) (f.no_user (daily ++ (9 ∷ flag l.blocked)))
        (cut_at-first 9 l.process_name (daily ++ (9 ∷ flag l.blocked)) f.no_tab)
        (cut_at-first 9 daily (flag l.blocked) numeral) (nonempty l.process_name f.named)
        (ground arith)
    ∙ ap (λ x. record k { limits = k.limits ++ x ∷ [] }) (fields_back l f)
  where
    nonempty : (s : Bytes) → s ≢ [] → (length s == 0) ≡ false
    nonempty [] h = absurd (h refl)
    nonempty (c ∷ s) h = ground arith

read_lines-print :
    (ls : List AppLimit) (k : Loaded)
    → All Fits ls
    → length k.limits + length ls ≤ 64
    → read_lines k (lines (print_limits ls)) ≡ record k { limits = k.limits ++ map without_id ls }
unfolding read_lines print_limits
read_lines-print [] k f room =
    unfold lines in ap (λ x. record k { limits = x }) (sym (append-nil k.limits))
read_lines-print (l ∷ ls) k f room =
    let k' = record k { limits = k.limits ++ without_id l ∷ [] } in
    rw
      (lines-line (print_limit l) (print_limits ls)
        (Lacks-line 10 l f.0.no_end (omega arith) (omega arith)))
      (ap (λ x. read_lines x (lines (print_limits ls))) (read_line-print k l f.0 (omega arith))
        ∙ read_lines-print ls k' f.1 (omega (arith, length-append k.limits (without_id l ∷ [])))
        ∙ ap (λ x. record k { limits = x })
            (append_assoc k.limits (without_id l ∷ []) (map without_id ls)))

-- For a user id of one line, up to 64 entries that fit the format, and any numbers and flags, the
-- next load of the file gives the user and the entries as they were, in order, but for their ids.
pub read_file-print_cache :
    (user : Bytes) (ls : List AppLimit)
    → Lacks 10 user
    → Lacks 13 user
    → All Fits ls
    → length ls ≤ max_limits
    → read_file (some (print_cache user ls)) ≡ record { user_id = user; limits = map without_id ls }
unfolding read_file print_cache read_lines read_line
read_file-print_cache user ls no_end no_return fits room =
    let first = codes "user=" ++ user in
    ap (λ t. read_lines (record { user_id = []; limits = [] }) t)
      (lines-line first (print_limits ls)
        (All-append (λ c. c ≢ 10) (codes "user=") user (omega arith) no_end))
    ∙ ap
        (λ t.
          read_lines (read_line (record { user_id = []; limits = [] }) t) (lines (print_limits ls)))
        (chop_return-none first
          (All-append (λ c. c ≢ 13) (codes "user=") user (omega arith) no_return))
    ∙ read_lines-print ls (record { user_id = user; limits = [] }) fits (omega arith)
