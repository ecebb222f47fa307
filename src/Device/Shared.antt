-- ===== src/Device/Shared.antt =====
-- The agent and the dashboard take the same id and the same name from device.id.
use just_in_time.Prelude.{
  ℕ, ◌≡◌, refl, sym, ap, ◌∙◌, Bool, true, Option, none, some, [], ◌∷◌, arith, Bytes, lines,
  Bool-cases, inl, inr,
}
use just_in_time.Settings.{trim_newline, keep_unless_end}
use just_in_time.Device.{
  Device, is_id, id_or_empty, two_lines, device_text, parse_device_text, load_or_create, restarted,
  write_device_file, read_device_file, trim_blanks, keep_unless_blank, load_config, display_label,
  label_or_default,
}
use just_in_time.Device.Stays.{Stays, load-kept, IsId, parse-device_text}

trim-keep_unless_end :
    (c : ℕ) (s : Bytes) → trim_blanks (keep_unless_end c s) ≡ keep_unless_blank c (trim_blanks s)
unfolding trim_blanks
trim-keep_unless_end c [] = ground arith
trim-keep_unless_end c (d ∷ s) = refl

-- The dashboard's trim does all that the agent's does.
trim_blanks-trim_newline : (s : Bytes) → trim_blanks (trim_newline s) ≡ trim_blanks s
unfolding trim_blanks trim_newline
trim_blanks-trim_newline [] = refl
trim_blanks-trim_newline (c ∷ s) =
    trim-keep_unless_end c (trim_newline s) ∙ ap (keep_unless_blank c) (trim_blanks-trim_newline s)

same_line : (s id : Bytes) → is_id id ≡ true → id_or_empty s ≡ id → s ≡ id
same_line s id form e = elim (Bool-cases (is_id s)) [
  | inl good ↦ rw good at e
  | inr bad ↦ let e' : [] ≡ id = rw bad at e in cc (ap is_id e')
]

same_id :
    (line id : Bytes)
    → is_id id ≡ true
    → id_or_empty (trim_newline line) ≡ id
    → trim_blanks id ≡ id
    → trim_blanks line ≡ id
same_id line id form e t =
    sym (trim_blanks-trim_newline line)
    ∙ ap trim_blanks (same_line (trim_newline line) id form e)
    ∙ t

read_same :
    (file : Option Bytes) (id label : Bytes)
    → is_id id ≡ true
    → parse_device_text file ≡ (id, label)
    → trim_blanks id ≡ id
    → trim_blanks label ≡ label
    → read_device_file file ≡ (id, label)
unfolding read_device_file
read_same none id label form e ti tl = ground (arith, e)
read_same (some text) id label form e ti tl =
    let (line1, line2) = two_lines (lines text) in
    let id_line = same_id line1 id form (ap (λ p. p.0) e) ti in
    let label_line = sym (trim_blanks-trim_newline line2) ∙ ap trim_blanks (ap (λ p. p.1) e) ∙ tl in
    rw id_line (rw label_line (rw form refl))

-- The dashboard, started over a file that the agent uses, shows the same computer: the agent's id and
-- the agent's name for it, also where the name is the default one. It leaves the file as it is. The
-- variable JUSTINTIME_DEVICE_ID is not set, and the id and the name must not end in a blank, which the
-- dashboard cuts off and the agent does not.
pub dashboard_agrees :
    (written : Bool) (random : Bytes) (env_port : Option Bytes) (d : Device)
    → Stays d
    → trim_blanks d.id ≡ d.id
    → trim_blanks d.label ≡ d.label
    → let (cfg, file') = load_config written random env_port none d.file in
      (cfg.device_id ≡ d.id)
      × (display_label file' cfg ≡ label_or_default d.label d.id)
      × (file' ≡ d.file)
unfolding load_config display_label
dashboard_agrees written random env_port d s ti tl =
    go d.id d.label (read_same d.file d.id d.label s.form s.parsed ti tl) s.form
  where
    go :
        (id label : Bytes)
        → read_device_file d.file ≡ (id, label)
        → is_id id ≡ true
        → let (cfg, file') = load_config written random env_port none d.file in
          (cfg.device_id ≡ id)
          × (display_label file' cfg ≡ label_or_default label id)
          × (file' ≡ d.file)
    go [] label e form = cc
    go (c ∷ id) [] e form = rw e (refl, rw e refl, refl)
    go (c ∷ id) (l ∷ label) e form = rw e (refl, rw e refl, refl)

-- The other way round: the id that the dashboard creates where there is no file is the one that the
-- agent has from its first start on.
pub agent_agrees :
    (written : Bool) (random random' : Bytes) (env_port : Option Bytes)
    → IsId random
    → let (cfg, file') = load_config true random env_port none none in
      (load_or_create true written random' (restarted file')).id ≡ cfg.device_id
unfolding load_config read_device_file write_device_file
agent_agrees written random random' env_port i =
    ap (λ d. d.id)
      (load-kept written random' random [] (some (device_text random [])) i.form
        (parse-device_text random [] i (tt, unfold trim_newline in refl)))
