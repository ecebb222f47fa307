-- ===== src/Dashboard.antt =====
-- src/dashboard/dashsession.cpp and src/dashboard/dashsettings.cpp: the dashboard's own session and its
-- settings, each in a file. A file is `none` if it cannot be opened.
pub mod Session
pub mod Settings
mod Examples
use just_in_time.Prelude.{
  ℕ, ◌-◌, ◌%◌, ◌^◌, Bool, true, false, Option, none, some, List, [], ◌∷◌, ◌++◌, Bytes, codes, ltb,
  ◌==◌, if◌then◌else◌, onto_first, ℤ, pos, negsuc,
}
use just_in_time.Auth.{Dpapi}
use just_in_time.Cloud.{
  Value, null, boolean, number, text, array, object, Fields, no_fields, field, find_field,
}

pub record DashSession : Type 0 where
  pub access_token : Bytes
  pub refresh_token : Bytes
  pub user_id : Bytes
  pub email : Bytes

-- The text that stands for a failure of dpapiProtect and dpapiUnprotect is the empty one.
abbrev pub or_empty : Option Bytes → Bytes
or_empty none = []
or_empty (some s) = s

abbrev pub session_text : DashSession → Bytes
session_text s =
    s.user_id
    ++ (10 ∷ (s.email ++ (10 ∷ (s.access_token ++ (10 ∷ (s.refresh_token ++ (10 ∷ [])))))))

-- `written` is what writeFileAtomic returns, which leaves the old file if it fails.
abbrev pub write_file : Bool → Bytes → Option Bytes → Option Bytes × Bool
write_file written new file = if written then (some new, true) else (file, false)

-- Writes an encrypted text, unless the encryption failed.
abbrev pub write_sealed : Bool → Bytes → Option Bytes → Option Bytes × Bool
write_sealed written [] file = (file, false)
write_sealed written (c ∷ enc) file = write_file written (c ∷ enc) file

unfoldable pub save_dash_session : Dpapi → Bool → DashSession → Option Bytes → Option Bytes × Bool
save_dash_session dpapi written s file =
    write_sealed written (or_empty (dpapi.protect (session_text s))) file

-- The loop over the text: what stands before, between and behind its line ends.
unfoldable pub pieces : Bytes → List Bytes
pieces [] = [] ∷ []
pieces (c ∷ s) = if c == 10 then [] ∷ pieces s else onto_first c (pieces s)

abbrev pub session_of : List Bytes → Option DashSession
session_of (user ∷ email ∷ access ∷ refresh ∷ more) =
    some (record { access_token = access; refresh_token = refresh; user_id = user; email = email })
session_of short = none

abbrev pub parse_session : Bytes → Option DashSession
parse_session [] = none
parse_session (c ∷ s) = session_of (pieces (c ∷ s))

abbrev pub open_session : Dpapi → Bytes → Option DashSession
open_session dpapi [] = none
open_session dpapi (c ∷ enc) = parse_session (or_empty (dpapi.unprotect (c ∷ enc)))

unfoldable pub load_dash_session : Dpapi → Option Bytes → Option DashSession
load_dash_session dpapi none = none
load_dash_session dpapi (some enc) = open_session dpapi enc

unfoldable pub clear_dash_session : Bool → Option Bytes → Option Bytes
clear_dash_session deleted file = if deleted then none else file

pub record DashSettings : Type 0 where
  pub font : Bytes
  pub language : Bytes
  pub cpu_threshold : ℤ
  pub ram_threshold : ℤ
  pub disk_threshold : ℤ
  pub time_format : Bytes
  pub default_period : Bytes
  pub gemini_api_key : Bytes

abbrev pub default_settings : DashSettings
default_settings = record {
  font = codes "sans";
  language = codes "en";
  cpu_threshold = pos 85;
  ram_threshold = pos 85;
  disk_threshold = pos 90;
  time_format = codes "24h";
  default_period = codes "today";
  gemini_api_key = [];
}

-- The code outside: nlohmann::json's parse and dump(2), DPAPI, and Win32's base64.
pub record Outside : Type 0 where
  pub parse : Bytes → Option Value
  pub dump_2 : Value → Bytes
  pub dpapi : Dpapi
  pub encode : Bytes → Bytes
  pub decode : Bytes → Option Bytes

abbrev pub wrapped : ℕ → ℤ
wrapped m = if ltb m (2 ^ 31) then pos m else negsuc (2 ^ 32 - 1 - m)

-- The conversion of a whole number of the file to int, which keeps 32 bits; fractions are left out.
unfoldable pub to_int : ℤ → ℤ
to_int (pos n) = wrapped (n % 2 ^ 32)
to_int (negsuc n) = wrapped (2 ^ 32 - 1 - n % 2 ^ 32)

-- if (data.contains(key) && data[key].is_string()) out.… = data[key];
abbrev pub string_or : Bytes → Option Value → Bytes
string_or old (some (text s)) = s
string_or old none = old
string_or old (some null) = old
string_or old (some (boolean b)) = old
string_or old (some (number n)) = old
string_or old (some (array vs)) = old
string_or old (some (object fs)) = old

abbrev pub int_or : ℤ → Option Value → ℤ
int_or old (some (number n)) = to_int n
int_or old none = old
int_or old (some null) = old
int_or old (some (boolean b)) = old
int_or old (some (text s)) = old
int_or old (some (array vs)) = old
int_or old (some (object fs)) = old

abbrev pub open_enc : Outside → Bytes → Bytes
open_enc o [] = []
open_enc o (d ∷ enc) = or_empty (o.dpapi.unprotect (d ∷ enc))

-- fromBase64, then dpapiUnprotect, where an empty text stays empty.
unfoldable pub open_key : Outside → Bytes → Bytes
open_key o [] = []
open_key o (c ∷ b64) = open_enc o (or_empty (o.decode (c ∷ b64)))

-- The encrypted key, or else the plain one of an older file.
abbrev pub key_from : Outside → Option Value → Bytes → Bytes
key_from o (some (text b64)) plain = open_key o b64
key_from o none plain = plain
key_from o (some null) plain = plain
key_from o (some (boolean b)) plain = plain
key_from o (some (number n)) plain = plain
key_from o (some (array vs)) plain = plain
key_from o (some (object fs)) plain = plain

unfoldable pub key_in : Outside → Fields → Bytes
key_in o fs =
    key_from o (find_field (codes "gemini_api_key_enc") fs)
      (string_or [] (find_field (codes "gemini_api_key") fs))

unfoldable pub settings_in : Outside → Fields → DashSettings
settings_in o fs = record {
  font = string_or default_settings.font (find_field (codes "font") fs);
  language = string_or default_settings.language (find_field (codes "language") fs);
  cpu_threshold = int_or default_settings.cpu_threshold (find_field (codes "cpu_threshold") fs);
  ram_threshold = int_or default_settings.ram_threshold (find_field (codes "ram_threshold") fs);
  disk_threshold = int_or default_settings.disk_threshold (find_field (codes "disk_threshold") fs);
  time_format = string_or default_settings.time_format (find_field (codes "time_format") fs);
  default_period =
      string_or default_settings.default_period (find_field (codes "default_period") fs);
  gemini_api_key = key_in o fs;
}

abbrev pub settings_of : Outside → Option Value → DashSettings
settings_of o (some (object fs)) = settings_in o fs
settings_of o none = default_settings
settings_of o (some null) = default_settings
settings_of o (some (boolean b)) = default_settings
settings_of o (some (number n)) = default_settings
settings_of o (some (text s)) = default_settings
settings_of o (some (array vs)) = default_settings

unfoldable pub load_dash_settings : Outside → Option Bytes → DashSettings
load_dash_settings o none = default_settings
load_dash_settings o (some s) = settings_of o (o.parse s)

-- The object to write, with these fields for the key.
unfoldable pub disk_fields : DashSettings → Fields → Fields
disk_fields s key = field (codes "font") (text s.font) (
    field (codes "language") (text s.language) (
      field (codes "cpu_threshold") (number s.cpu_threshold) (
        field (codes "ram_threshold") (number s.ram_threshold) (
          field (codes "disk_threshold") (number s.disk_threshold) (
            field (codes "time_format") (text s.time_format)
              (field (codes "default_period") (text s.default_period) key))))))

abbrev pub enc_field : Outside → Bytes → Fields
enc_field o enc = field (codes "gemini_api_key_enc") (text (o.encode enc)) no_fields

-- The fields for the key: none if there is no key, and nothing at all if it cannot be encrypted.
abbrev pub sealed_fields : Outside → Bytes → Option Fields
sealed_fields o [] = none
sealed_fields o (c ∷ enc) = some (enc_field o (c ∷ enc))

abbrev pub key_fields : Outside → Bytes → Option Fields
key_fields o [] = some no_fields
key_fields o (c ∷ key) = sealed_fields o (or_empty (o.dpapi.protect (c ∷ key)))

abbrev pub write_settings :
    Outside → Bool → DashSettings → Option Bytes → Option Fields → Option Bytes × Bool
write_settings o written s file none = (file, false)
write_settings o written s file (some key) =
    write_file written (o.dump_2 (object (disk_fields s key))) file

unfoldable pub save_dash_settings :
    Outside → Bool → DashSettings → Option Bytes → Option Bytes × Bool
save_dash_settings o written s file =
    write_settings o written s file (key_fields o s.gemini_api_key)
