-- ===== src/Settings/File.antt =====
-- The settings that are written to settings.ini are those that the next start reads.
use just_in_time.Prelude.{
  ◌≡◌, ◌<◌, refl, sym, ap, ◌∙◌, true, false, some, none, [], arith, Bytes, ℤ, take, take_all,
  length, print_ℤ, strtol, strtol-print_ℤ, IsInt32, append-nil, ◌==◌, Bool,
}
use just_in_time.Settings.{
  AppSettings, Store, lookup, parse_ini_file, print_settings, apply_ini_values, entries,
  settings_load, settings_save, settings_update, set_defaults,
}
use just_in_time.Settings.Entries.{IsWritable, IsLine, parse-print_settings, onto_reversed}

read_int : (a : ℤ) → IsInt32 a → strtol (print_ℤ a) ≡ a
read_int a h = ap strtol (sym (append-nil (print_ℤ a))) ∙ strtol-print_ℤ a [] h tt

apply-entries :
    (old s : AppSettings) → IsWritable s → apply_ini_values old (onto_reversed (entries s) []) ≡ s
unfolding apply_ini_values lookup
apply-entries old s w = λ i. record {
  sync_interval_sec = read_int s.sync_interval_sec w.sync_interval_sec i;
  backup_interval_sec = read_int s.backup_interval_sec w.backup_interval_sec i;
  summary_interval_sec = read_int s.summary_interval_sec w.summary_interval_sec i;
  min_duration_sec = read_int s.min_duration_sec w.min_duration_sec i;
  autostart_enabled = read_int s.autostart_enabled w.autostart_enabled i;
  app_role = read_int s.app_role w.app_role i;
  language = read_int s.language w.language i;
  retry_backoff_base_sec = read_int s.retry_backoff_base_sec w.retry_backoff_base_sec i;
  retry_backoff_max_sec = read_int s.retry_backoff_max_sec w.retry_backoff_max_sec i;
  remote_view_enabled = read_int s.remote_view_enabled w.remote_view_enabled i;
  remote_view_port = read_int s.remote_view_port w.remote_view_port i;
  remote_view_token = take_all 63 s.remote_view_token (omega (arith, w.remote_view_token.0)) i;
  excluded_processes = take_all 1023 s.excluded_processes (omega (arith, w.excluded_processes.0)) i;
  supabase_url = take_all 255 s.supabase_url (omega (arith, w.supabase_url.0)) i;
  supabase_key = take_all 511 s.supabase_key (omega (arith, w.supabase_key.0)) i;
}

-- settings.ini holds `s`.
abbrev saved_as : AppSettings → AppSettings → Store
saved_as s current = record { g_settings = current; file = some (print_settings s) }

load-saved :
    (created saved : Bool) (token : Bytes) (s current : AppSettings)
    → IsWritable s
    → 0 < length s.remote_view_token
    → settings_load true created saved token (saved_as s current) ≡ (saved_as s s, s)
unfolding settings_load
load-saved created saved token s current w h =
    let back : apply_ini_values set_defaults (parse_ini_file (print_settings s)) ≡ s =
      ap (apply_ini_values set_defaults) (parse-print_settings s w)
      ∙ apply-entries set_defaults s w in
    let more : (length s.remote_view_token == 0) ≡ false = ground arith in rw back (rw more refl)

-- If the file is written, settings with 32-bit numbers, with texts that fit their buffers and hold
-- no line end, and with a token, are those that the next start reads, all fifteen fields of them;
-- that start leaves the file as it is, whatever token it could have generated.
pub load-settings_update :
    (created saved : Bool) (token : Bytes) (s started : AppSettings) (st : Store)
    → IsWritable s
    → 0 < length s.remote_view_token
    → let st' = (settings_update true true s st).0 in
      settings_load true created saved token (record st' { g_settings = started })
      ≡ (record { g_settings = s; file = st'.file }, s)
unfolding settings_update settings_save
load-settings_update created saved token s started st w h =
    load-saved created saved token s started w h

abbrev pub first_settings : Bytes → AppSettings
first_settings token = record set_defaults { remote_view_token = take 63 token }

first_settings-IsWritable :
    (token : Bytes) → length token < 64 → IsLine token → IsWritable (first_settings token)
first_settings-IsWritable token short line =
    let e : take 63 token ≡ token = take_all 63 token (omega arith) in
    record {
      sync_interval_sec = omega arith;
      backup_interval_sec = omega arith;
      summary_interval_sec = omega arith;
      min_duration_sec = omega arith;
      autostart_enabled = omega arith;
      app_role = omega arith;
      language = omega arith;
      retry_backoff_base_sec = omega arith;
      retry_backoff_max_sec = omega arith;
      remote_view_enabled = omega arith;
      remote_view_port = omega arith;
      remote_view_token = rw e (short, line);
      excluded_processes = (omega arith, (tt, tt));
      supabase_url = (omega arith, (tt, tt));
      supabase_key = (omega arith, (tt, tt));
    }

-- The first start, without a file, generates a token, which is not empty, fits its buffer and holds
-- no line end; if the file is written then, whether or not the defaults were written before it,
-- every later start has the same settings, with that token, and generates no other.
pub first_start_stays :
    (created created' saved' : Bool) (token token' : Bytes) (started started' : AppSettings)
    → 0 < length token
    → length token < 64
    → IsLine token
    → let (st, s) =
        settings_load true created true token (record { g_settings = started; file = none }) in
      (s ≡ record set_defaults { remote_view_token = token })
      × (settings_load true created' saved' token' (record st { g_settings = started' }) ≡ (st, s))
unfolding settings_load settings_save
first_start_stays created created' saved' token token' started started' h short line =
    let e : take 63 token ≡ token = take_all 63 token (omega arith) in
    (
      ap (λ t. record set_defaults { remote_view_token = t }) e,
      load-saved created' saved' token' (first_settings token) started'
          (first_settings-IsWritable token short line) (rw e h),
    )
