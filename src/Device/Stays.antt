-- ===== src/Device/Stays.antt =====
-- The agent keeps its id and its name over restarts.
use just_in_time.Prelude.{
  ℕ, ◌≡◌, ◌≢◌, ◌⊎◌, inl, inr, refl, sym, ap, ◌∙◌, Bool, true, Option, none, some, List, [], ◌∷◌,
  ◌++◌, arith, Bytes, lines, lines-line, Lacks, All, onto_first,
}
use just_in_time.Settings.{trim_newline, keep_unless_end}
use just_in_time.Device.{
  Device, is_id, two_lines, device_text, parse_device_text, keep_or_create, load_or_create,
  restarted, write_device_file, device_set_label,
}

-- A well-formed id is one line.
pub record IsId (s : Bytes) : Type 0 where
  pub form : is_id s ≡ true
  pub no_end : Lacks 10 s
  pub no_return : Lacks 13 s

-- A text as `trim_newline` leaves it, of one line.
abbrev pub IsTrimmed : Bytes → Type 0
IsTrimmed s = Lacks 10 s × (trim_newline s ≡ s)

pub lines-device_text :
    (id label : Bytes)
    → Lacks 10 id
    → Lacks 10 label
    → lines (device_text id label) ≡ id ∷ label ∷ []
lines-device_text id label h h' =
    let last : lines (label ++ 10 ∷ []) ≡ label ∷ [] =
      lines-line label [] h' ∙ ap (λ l. label ∷ l) (unfold lines in refl) in
    lines-line id (label ++ 10 ∷ []) h ∙ ap (λ l. id ∷ l) last

trim-Lacks_return : (s : Bytes) → Lacks 10 s → Lacks 13 s → trim_newline s ≡ s
unfolding trim_newline
trim-Lacks_return [] h h' = refl
trim-Lacks_return (c ∷ []) h h' = ground arith
trim-Lacks_return (c ∷ d ∷ s) h h' = ap (keep_unless_end c) (trim-Lacks_return (d ∷ s) h.1 h'.1)

keep_unless_end-Lacks : (c : ℕ) (s : Bytes) → c ≢ 10 → Lacks 10 s → Lacks 10 (keep_unless_end c s)
keep_unless_end-Lacks c [] h h' = ground arith
keep_unless_end-Lacks c (d ∷ s) h h' = (h, h')

trim_newline-Lacks : (s : Bytes) → Lacks 10 s → Lacks 10 (trim_newline s)
unfolding trim_newline
trim_newline-Lacks [] h = tt
trim_newline-Lacks (c ∷ s) h =
    keep_unless_end-Lacks c (trim_newline s) h.0 (trim_newline-Lacks s h.1)

trim-keep_unless_end :
    (c : ℕ) (s : Bytes)
    → trim_newline s ≡ s
    → trim_newline (keep_unless_end c s) ≡ keep_unless_end c s
unfolding trim_newline
trim-keep_unless_end c [] h = ground arith
trim-keep_unless_end c (d ∷ s) h = ap (keep_unless_end c) h

trim-trim : (s : Bytes) → trim_newline (trim_newline s) ≡ trim_newline s
unfolding trim_newline
trim-trim [] = refl
trim-trim (c ∷ s) = trim-keep_unless_end c (trim_newline s) (trim-trim s)

onto_first-Lacks :
    (c : ℕ) (ls : List Bytes) → c ≢ 10 → All (Lacks 10) ls → All (Lacks 10) (onto_first c ls)
onto_first-Lacks c [] h all = ((h, tt), tt)
onto_first-Lacks c (l ∷ ls) h all = ((h, all.0), all.1)

lines-Lacks : (s : Bytes) → All (Lacks 10) (lines s)
unfolding lines
lines-Lacks [] = tt
lines-Lacks (c ∷ s) = ground (arith, lines-Lacks s, onto_first-Lacks c (lines s))

second-Lacks : (ls : List Bytes) → All (Lacks 10) ls → Lacks 10 (two_lines ls).1
second-Lacks [] h = tt
second-Lacks (a ∷ []) h = tt
second-Lacks (a ∷ b ∷ rest) h = h.1.0

pub label-IsTrimmed : (file : Option Bytes) → IsTrimmed (parse_device_text file).1
label-IsTrimmed none = (tt, unfold trim_newline in refl)
label-IsTrimmed (some text) =
    let line2 = (two_lines (lines text)).1 in
    (trim_newline-Lacks line2 (second-Lacks (lines text) (lines-Lacks text)), trim-trim line2)

pub parse-device_text :
    (id label : Bytes)
    → IsId id
    → IsTrimmed label
    → parse_device_text (some (device_text id label)) ≡ (id, label)
parse-device_text id label i l =
    rw (lines-device_text id label i.no_end l.0)
      (rw (trim-Lacks_return id i.no_end i.no_return) (rw l.1 (rw i.form refl)))

-- A file that holds an id is read, and stays.
pub load-kept :
    (written : Bool) (random id label : Bytes) (file : Option Bytes)
    → is_id id ≡ true
    → parse_device_text file ≡ (id, label)
    → load_or_create true written random (restarted file)
      ≡ record { loaded = true; id = id; label = label; file = file }
unfolding load_or_create
load-kept written random [] label file i e = cc
load-kept written random (c ∷ id) label file i e =
    ap (λ p. keep_or_create written random p (restarted file)) e

load-created :
    (random label : Bytes) (file : Option Bytes)
    → parse_device_text file ≡ ([], label)
    → load_or_create true true random (restarted file)
      ≡ record { loaded = true; id = random; label = label; file = some (device_text random label) }
unfolding load_or_create write_device_file
load-created random label file e = ap (λ p. keep_or_create true random p (restarted file)) e

-- What one start leaves, the next start finds.
pub record Stays (d : Device) : Type 0 where
  pub loaded : d.loaded ≡ true
  pub form : is_id d.id ≡ true
  pub parsed : parse_device_text d.file ≡ (d.id, d.label)

parsed_id :
    (file : Option Bytes)
    → ((parse_device_text file).0 ≡ []) ⊎ (is_id (parse_device_text file).0 ≡ true)
parsed_id none = inl refl
parsed_id (some text) = ground arith

pub load-Stays :
    (random : Bytes) (file : Option Bytes)
    → IsId random
    → Stays (load_or_create true true random (restarted file))
load-Stays random file i = go (parse_device_text file) refl (label-IsTrimmed file) (parsed_id file)
  where
    go :
        (p : Bytes × Bytes)
        → parse_device_text file ≡ p
        → IsTrimmed p.1
        → (p.0 ≡ []) ⊎ (is_id p.0 ≡ true)
        → Stays (load_or_create true true random (restarted file))
    go ([], label) e l _ =
        rw (load-created random label file e)
          (record { loaded = refl; form = i.form; parsed = parse-device_text random label i l })
    go (c ∷ id, label) e l (inl none_there) = cc
    go (c ∷ id, label) e l (inr form) =
        rw (load-kept true random (c ∷ id) label file form e)
          (record { loaded = refl; form = form; parsed = e })

pub load_again :
    (written : Bool) (random : Bytes) (d : Device)
    → Stays d
    → load_or_create true written random (restarted d.file) ≡ d
load_again written random d s = load-kept written random d.id d.label d.file s.form s.parsed ∙ λ i.
    record d { loaded = sym s.loaded i }

-- Whatever device.id holds, also if it is missing or broken: if the first start can write, then every
-- later start has the id and the name of the first one, whatever random id it could take and whether
-- or not it can write, and leaves the file as it is.
pub id_stays :
    (written : Bool) (random random' : Bytes) (file : Option Bytes)
    → IsId random
    → let d = load_or_create true true random (restarted file) in
      load_or_create true written random' (restarted d.file) ≡ d
id_stays written random random' file i =
    load_again written random' (load_or_create true true random (restarted file))
      (load-Stays random file i)

pub load_loaded :
    (has_path written : Bool) (random : Bytes) (d : Device)
    → d.loaded ≡ true
    → load_or_create has_path written random d ≡ d
unfolding load_or_create
load_loaded has_path written random d h = simp h

set_label_loaded :
    (random label : Bytes) (d : Device)
    → d.loaded ≡ true
    → (device_set_label true true random true label d).0
      ≡ record d { label = label; file = some (device_text d.id label) }
unfolding device_set_label write_device_file
set_label_loaded random label d h =
    ap {A = Device} (λ d'. record d' { label = label; file = some (device_text d'.id label) })
      (load_loaded true true random d h)

-- If the agent has an id and the file is written, a name of one line that is set is the name after
-- the next start, with the same id.
pub load-set_label :
    (written : Bool) (random random' label : Bytes) (d : Device)
    → d.loaded ≡ true
    → IsId d.id
    → IsTrimmed label
    → let d' = (device_set_label true true random true label d).0 in
      load_or_create true written random' (restarted d'.file) ≡ d'
load-set_label written random random' label d loaded i l =
    rw (set_label_loaded random label d loaded) (
      load_again written random' (record d { label = label; file = some (device_text d.id label) })
        (record { loaded = loaded; form = i.form; parsed = parse-device_text d.id label i l }))
