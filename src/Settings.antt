-- ===== src/Settings.antt =====
-- src/agent/shared/settings.cpp: settings.ini, read at the start and written on every change, and the
-- list of apps that are not tracked. The texts are those the file streams give and take.
pub mod File
mod Entries
pub mod Excluded
mod Examples
use just_in_time.Prelude.{
  ℕ, ◌-◌, ◌==◌, if◌then◌else◌, Bool, true, false, ◌||◌, Option, none, some, List, [], ◌∷◌, ◌++◌,
  Bytes, codes, bytes_eq, ℤ, take, length, lines, cut_at, print_ℤ, strtol, onto_first,
}
use just_in_time.Enforce.{same_name}

-- `AppSettings`
pub record AppSettings : Type 0 where
  pub sync_interval_sec : ℤ
  pub backup_interval_sec : ℤ
  pub summary_interval_sec : ℤ
  pub min_duration_sec : ℤ
  pub autostart_enabled : ℤ
  pub app_role : ℤ
  pub language : ℤ
  pub retry_backoff_base_sec : ℤ
  pub retry_backoff_max_sec : ℤ
  pub remote_view_enabled : ℤ
  pub remote_view_port : ℤ
  pub remote_view_token : Bytes
  pub excluded_processes : Bytes
  pub supabase_url : Bytes
  pub supabase_key : Bytes

abbrev pub set_defaults : AppSettings
set_defaults = record {
  sync_interval_sec = ℤ.pos 30;
  backup_interval_sec = ℤ.pos 3600;
  summary_interval_sec = ℤ.pos 300;
  min_duration_sec = ℤ.pos 2;
  autostart_enabled = ℤ.pos 0;
  app_role = ℤ.pos 0;
  language = ℤ.pos 0;
  retry_backoff_base_sec = ℤ.pos 10;
  retry_backoff_max_sec = ℤ.pos 1800;
  remote_view_enabled = ℤ.pos 0;
  remote_view_port = ℤ.pos 8787;
  remote_view_token = [];
  excluded_processes = [];
  supabase_url = [];
  supabase_key = [];
}

-- while (!s.empty() && (s.back() == '\r' || s.back() == '\n')) s.pop_back();
abbrev pub keep_unless_end : ℕ → Bytes → Bytes
keep_unless_end c [] = if (c == 13) || (c == 10) then [] else c ∷ []
keep_unless_end c (d ∷ s) = c ∷ d ∷ s

unfoldable pub trim_newline : Bytes → Bytes
trim_newline [] = []
trim_newline (c ∷ s) = keep_unless_end c (trim_newline s)

unfoldable pub trim_leading_space : Bytes → Bytes
trim_leading_space [] = []
trim_leading_space (c ∷ s) = if c == 32 then trim_leading_space s else c ∷ s

-- The table of a parsed file; a new entry stands in front of the older ones, which it hides.
abbrev pub Table : Type 0
Table = List (Bytes × Bytes)

unfoldable pub lookup : Bytes → Table → Option Bytes
lookup key [] = none
lookup key (e ∷ table) = if bytes_eq e.0 key then some e.1 else lookup key table

abbrev pub is_comment : Bytes → Bool
is_comment [] = true
is_comment (c ∷ s) = (c == b';') || (c == b'#')

-- out[line.substr(0, eq)] = line.substr(eq + 1);
abbrev pub insert_found : Option (Bytes × Bytes) → Table → Table
insert_found none table = table
insert_found (some e) table = e ∷ table

unfoldable pub insert_line : Bytes → Table → Table
insert_line line table =
    if is_comment (trim_newline line)
    then table
    else insert_found (cut_at b'=' (trim_newline line)) table

unfoldable pub insert_lines : List Bytes → Table → Table
insert_lines [] table = table
insert_lines (l ∷ ls) table = insert_lines ls (insert_line l table)

unfoldable pub parse_ini_file : Bytes → Table
parse_ini_file text = insert_lines (lines text) []

abbrev pub int_or : Option Bytes → ℤ → ℤ
int_or none fallback = fallback
int_or (some s) fallback = strtol s

abbrev pub get_int : Table → Bytes → ℤ → ℤ
get_int ini key fallback = int_or (lookup key ini) fallback

abbrev pub text_or : Option Bytes → ℕ → Bytes → Bytes
text_or none size old = old
text_or (some s) size old = take (size - 1) s

abbrev pub get_str : Table → Bytes → ℕ → Bytes → Bytes
get_str ini key size old = text_or (lookup key ini) size old

unfoldable pub apply_ini_values : AppSettings → Table → AppSettings
apply_ini_values s ini = record {
  sync_interval_sec = get_int ini (codes "sync_interval_sec") s.sync_interval_sec;
  backup_interval_sec = get_int ini (codes "backup_interval_sec") s.backup_interval_sec;
  summary_interval_sec = get_int ini (codes "summary_interval_sec") s.summary_interval_sec;
  min_duration_sec = get_int ini (codes "min_duration_sec") s.min_duration_sec;
  autostart_enabled = get_int ini (codes "autostart_enabled") s.autostart_enabled;
  app_role = get_int ini (codes "app_role") s.app_role;
  language = get_int ini (codes "language") s.language;
  retry_backoff_base_sec = get_int ini (codes "retry_backoff_base_sec") s.retry_backoff_base_sec;
  retry_backoff_max_sec = get_int ini (codes "retry_backoff_max_sec") s.retry_backoff_max_sec;
  remote_view_enabled = get_int ini (codes "remote_view_enabled") s.remote_view_enabled;
  remote_view_port = get_int ini (codes "remote_view_port") s.remote_view_port;
  remote_view_token = get_str ini (codes "remote_view_token") 64 s.remote_view_token;
  excluded_processes = get_str ini (codes "excluded_processes") 1024 s.excluded_processes;
  supabase_url = get_str ini (codes "supabase_url") 256 s.supabase_url;
  supabase_key = get_str ini (codes "supabase_key") 512 s.supabase_key;
}

-- f << key << "=" << value << "\n"; in front of what follows.
abbrev pub put : Bytes → Bytes → Bytes → Bytes
put key value rest = (key ++ b'=' ∷ value) ++ 10 ∷ rest

abbrev pub put_all : Table → Bytes
put_all [] = []
put_all (e ∷ es) = put e.0 e.1 (put_all es)

abbrev pub entries : AppSettings → Table
entries s =
    (codes "sync_interval_sec", print_ℤ s.sync_interval_sec)
    ∷ (codes "backup_interval_sec", print_ℤ s.backup_interval_sec)
    ∷ (codes "summary_interval_sec", print_ℤ s.summary_interval_sec)
    ∷ (codes "min_duration_sec", print_ℤ s.min_duration_sec)
    ∷ (codes "autostart_enabled", print_ℤ s.autostart_enabled)
    ∷ (codes "app_role", print_ℤ s.app_role)
    ∷ (codes "language", print_ℤ s.language)
    ∷ (codes "excluded_processes", s.excluded_processes)
    ∷ (codes "supabase_url", s.supabase_url)
    ∷ (codes "supabase_key", s.supabase_key)
    ∷ (codes "retry_backoff_base_sec", print_ℤ s.retry_backoff_base_sec)
    ∷ (codes "retry_backoff_max_sec", print_ℤ s.retry_backoff_max_sec)
    ∷ (codes "remote_view_enabled", print_ℤ s.remote_view_enabled)
    ∷ (codes "remote_view_port", print_ℤ s.remote_view_port)
    ∷ (codes "remote_view_token", s.remote_view_token)
    ∷ []

unfoldable pub print_settings : AppSettings → Bytes
print_settings s = codes "; JustInTime Agent - file cau hinh" ++ 10 ∷ put_all (entries s)

-- `g_settings`, and settings.ini on the disk.
pub record Store : Type 0 where
  pub g_settings : AppSettings
  pub file : Option Bytes

-- `has_path`: getSettingsPath() is not empty; `written`: writeFileAtomic succeeds.
unfoldable pub settings_save : Bool → Bool → AppSettings → Store → Store × ℕ
settings_save has_path written s st =
    if◌then◌else◌ {A = Store × ℕ} has_path
      (if◌then◌else◌ {A = Store × ℕ} written (record st { file = some (print_settings s) }, 1)
        (st, 0))
      (st, 0)

-- The settings that the file gives, or the defaults, with the file that is created for them.
abbrev pub read_or_create : Bool → Store → Option Bytes → Store × AppSettings
read_or_create written st none = ((settings_save true written set_defaults st).0, set_defaults)
read_or_create written st (some text) = (st, apply_ini_values set_defaults (parse_ini_file text))

-- An empty token is replaced by a generated one, which is saved.
abbrev pub with_token : Bool → Bytes → Store × AppSettings → Store × AppSettings
with_token written token (st, s) =
    let s' = record s { remote_view_token = take 63 token } in
    if◌then◌else◌ {A = Store × AppSettings} (length s.remote_view_token == 0)
      ((settings_save true written s' st).0, s') (st, s)

-- g_settings = *out;
abbrev pub publish : Store × AppSettings → Store × AppSettings
publish (st, s) = (record st { g_settings = s }, s)

-- `created` and `saved` say whether the two writes succeed, `token` is a generated token.
unfoldable pub settings_load : Bool → Bool → Bool → Bytes → Store → Store × AppSettings
settings_load has_path created saved token st =
    if◌then◌else◌ {A = Store × AppSettings} has_path
      (publish (with_token saved token (read_or_create created st st.file)))
      (publish (st, set_defaults))

unfoldable pub settings_update : Bool → Bool → AppSettings → Store → Store × ℕ
settings_update has_path written s st =
    settings_save has_path written s (record st { g_settings = s })

-- while (std::getline(iss, token, ','))
unfoldable pub tokens_of : Bytes → List Bytes
tokens_of [] = []
tokens_of (c ∷ s) = if c == b',' then [] ∷ tokens_of s else onto_first c (tokens_of s)

unfoldable pub any_named : Bytes → List Bytes → Bool
any_named name [] = false
any_named name (t ∷ ts) = if same_name (trim_leading_space t) name then true else any_named name ts

-- `name` is the process's name in UTF-8.
unfoldable pub settings_is_process_excluded : Bytes → Store → Bool
settings_is_process_excluded name st =
    if length st.g_settings.excluded_processes == 0
    then false
    else any_named name (tokens_of st.g_settings.excluded_processes)

abbrev or_built_in : Bytes → Bytes → Bytes
or_built_in [] built_in = built_in
or_built_in (c ∷ s) built_in = c ∷ s

-- The built-in address and key serve where the settings have none.
unfoldable pub settings_get_supabase_config : ℕ → ℕ → Bytes → Bytes → Store → Bytes × Bytes
settings_get_supabase_config url_size key_size built_in_url built_in_key st = (
  take (url_size - 1) (or_built_in st.g_settings.supabase_url built_in_url),
  take (key_size - 1) (or_built_in st.g_settings.supabase_key built_in_key),
)
