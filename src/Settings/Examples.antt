-- ===== src/Settings/Examples.antt =====
-- The theorems on settings.ini at settings with two apps that are not tracked.
use just_in_time.Prelude.{◌≡◌, refl, true, none, [], ◌∷◌, lines, cut_at, arith, codes, ℤ, ◌++◌}
use just_in_time.Enforce.{same_name}
use just_in_time.Settings.{
  AppSettings, Store, set_defaults, settings_load, settings_update, settings_is_process_excluded,
  trim_leading_space, parse_ini_file, insert_lines, insert_line, trim_newline,
  settings_get_supabase_config, tokens_of, any_named,
}
use just_in_time.Settings.Entries.{IsWritable}
use just_in_time.Settings.File.{load-settings_update}

abbrev our_settings : AppSettings
our_settings = record set_defaults {
  min_duration_sec = ℤ.negsuc 0;
  remote_view_token = codes "ab12";
  excluded_processes = codes "code.exe, VLC.exe";
  supabase_url = codes "https://a.example/?k=v";
}

abbrev first_store : Store
first_store = record { g_settings = set_defaults; file = none }

our_settings-IsWritable : IsWritable our_settings
our_settings-IsWritable = record {
  sync_interval_sec = omega arith;
  backup_interval_sec = omega arith;
  summary_interval_sec = omega arith;
  min_duration_sec = omega arith;
  autostart_enabled = omega arith;
  app_role = omega arith;
  language = omega arith;
  retry_backoff_base_sec = omega arith;
  retry_backoff_max_sec = omega arith;
  remote_view_enabled = omega arith;
  remote_view_port = omega arith;
  remote_view_token = omega arith;
  excluded_processes = omega arith;
  supabase_url = omega arith;
  supabase_key = omega arith;
}

load-settings_update_example :
    settings_load true true true (codes "ff") (record {
      g_settings = set_defaults;
      file = (settings_update true true our_settings first_store).0.file;
    })
    ≡ (
      record {
        g_settings = our_settings;
        file = (settings_update true true our_settings first_store).0.file;
      },
      our_settings,
    )
load-settings_update_example =
    load-settings_update true true (codes "ff") our_settings set_defaults first_store
      our_settings-IsWritable (omega arith)

vlc_excluded :
    settings_is_process_excluded
      (codes "vlc.EXE")
      (record { g_settings = our_settings; file = none })
    ≡ true
unfolding settings_is_process_excluded tokens_of trim_leading_space same_name any_named
vlc_excluded = refl

-- A comment, a line without `=`, and a key that comes twice.
parsed :
    parse_ini_file (codes "; a=1" ++ 13 ∷ 10 ∷ codes "b" ++ 10 ∷ codes "c=1" ++ 10 ∷ codes "c=2=3")
    ≡ (codes "c", codes "2=3") ∷ (codes "c", codes "1") ∷ []
unfolding parse_ini_file insert_lines insert_line trim_newline lines cut_at
parsed = refl

built_in_config :
    settings_get_supabase_config 4 100 (codes "https") (codes "key") first_store
    ≡ (codes "htt", codes "key")
unfolding settings_get_supabase_config
built_in_config = refl
