-- ===== src/Device.antt =====
-- The id and the name of the computer in device.id, which two programs share: the agent
-- (src/agent/shared/device.cpp) and the dashboard (src/dashboard/dashconfig.cpp).
-- Random ids, the environment and the success of a write come from outside.
pub mod Stays
pub mod Shared
mod Examples
use just_in_time.Prelude.{
  ℕ, ◌-◌, ◌+◌, ◌*◌, ◌==◌, if◌then◌else◌, Bool, true, false, not, ◌&&◌, ◌||◌, Option, none, some,
  List, [], ◌∷◌, ◌++◌, Bytes, codes, is_prefix, take, drop, length, lines, leb, ltb, is_digit,
}
use just_in_time.Settings.{trim_newline}

-- `g_cachedId`, `g_cachedLabel` and `g_cacheLoaded` of the agent, and the file.
pub record Device : Type 0 where
  pub loaded : Bool
  pub id : Bytes
  pub label : Bytes
  pub file : Option Bytes

-- What two calls of std::getline give.
abbrev pub two_lines : List Bytes → Bytes × Bytes
two_lines [] = ([], [])
two_lines (a ∷ []) = (a, [])
two_lines (a ∷ b ∷ rest) = (a, b)

-- line1.rfind("PC-", 0) == 0 && line1.size() == 11
abbrev pub is_id : Bytes → Bool
is_id s = is_prefix (codes "PC-") s && length s == 11

abbrev pub device_text : Bytes → Bytes → Bytes
device_text id label = id ++ 10 ∷ (label ++ 10 ∷ [])

-- `writeFileAtomic` leaves the file as it was if it fails.
unfoldable pub write_device_file : Bool → Bytes → Bytes → Option Bytes → Option Bytes
write_device_file written id label before = if written then some (device_text id label) else before

-- The id, empty if the first line is none, and the label of the second line.
abbrev pub id_or_empty : Bytes → Bytes
id_or_empty line = if is_id line then line else []

abbrev pub parse_device_text : Option Bytes → Bytes × Bytes
parse_device_text none = ([], [])
parse_device_text (some text) =
    let (line1, line2) = two_lines (lines text) in
    (id_or_empty (trim_newline line1), trim_newline line2)

abbrev pub keep_or_create : Bool → Bytes → Bytes × Bytes → Device → Device
keep_or_create written random ([], label) d = record {
  loaded = true;
  id = random;
  label = label;
  file = write_device_file written random label d.file;
}
keep_or_create written random (c ∷ id, label) d = record d {
  loaded = true;
  id = c ∷ id;
  label = label;
}

-- `has_path`: deviceFilePath() is not empty, without which nothing is read or written.
unfoldable pub load_or_create : Bool → Bool → Bytes → Device → Device
load_or_create has_path written random d =
    if d.loaded
    then d
    else keep_or_create (has_path && written) random
        (parse_device_text (if has_path then d.file else none)) d

abbrev pub copy_to_buffer : Bytes → ℕ → Bytes
copy_to_buffer s size = take (size - 1) s

-- The calls of the agent; `size` is the size of the caller's buffer, and not 0.
unfoldable pub get_device_id : Bool → Bool → Bytes → ℕ → Device → Device × Bytes
get_device_id has_path written random size d =
    let d' = load_or_create has_path written random d in (d', copy_to_buffer d'.id size)

abbrev pub last_four : Bytes → Bytes
last_four id = if leb 4 (length id) then drop (length id - 4) id else id

abbrev pub label_or_default : Bytes → Bytes → Bytes
label_or_default [] id = codes "Computer " ++ last_four id
label_or_default (c ∷ label) id = c ∷ label

unfoldable pub device_get_label : Bool → Bool → Bytes → ℕ → Device → Device × Bytes
device_get_label has_path written random size d =
    let d' = load_or_create has_path written random d in
    (d', copy_to_buffer (label_or_default d'.label d'.id) size)

-- `saved` is the success of the write that this call itself makes.
unfoldable pub device_set_label : Bool → Bool → Bytes → Bool → Bytes → Device → Device × ℕ
device_set_label has_path written random saved label d =
    let d' = load_or_create has_path written random d in
    let ok = has_path && saved in
    (
      record d' { label = label; file = write_device_file ok d'.id label d'.file },
      if ok then 1 else 0,
    )

-- The agent after a restart.
abbrev pub restarted : Option Bytes → Device
restarted file = record { loaded = false; id = []; label = []; file = file }

-- The dashboard's `trim` takes blanks off too.
abbrev pub keep_unless_blank : ℕ → Bytes → Bytes
keep_unless_blank c [] = if (c == 13) || (c == 10) || (c == 32) then [] else c ∷ []
keep_unless_blank c (d ∷ s) = c ∷ d ∷ s

unfoldable pub trim_blanks : Bytes → Bytes
trim_blanks [] = []
trim_blanks (c ∷ s) = keep_unless_blank c (trim_blanks s)

-- The id, empty where the function returns false, and the label.
unfoldable pub read_device_file : Option Bytes → Bytes × Bytes
read_device_file none = ([], [])
read_device_file (some text) =
    let (line1, line2) = two_lines (lines text) in
    (id_or_empty (trim_blanks line1), trim_blanks line2)

-- `port`, `deviceId` and `deviceLabel` of the dashboard's `Config`.
pub record Config : Type 0 where
  pub port : ℕ
  pub device_id : Bytes
  pub device_label : Bytes

-- The loop over the characters of JUSTINTIME_PORT, for a number that fits an int; a character that is
-- no digit ends it.
unfoldable pub port_value : ℕ → Bytes → ℕ
port_value p [] = p
port_value p (c ∷ s) =
    let more = port_value (p * 10 + (c - b'0')) s in if is_digit c then more else 5000

abbrev pub port_of : Option Bytes → ℕ
port_of none = 5000
port_of (some []) = 5000
port_of (some (c ∷ s)) = if ltb 0 (port_value 0 (c ∷ s)) then port_value 0 (c ∷ s) else 5000

abbrev pub config_from_file :
    Bool → Bytes → ℕ → Bytes × Bytes → Option Bytes → Config × Option Bytes
config_from_file written random port ([], label) file = (
  record { port = port; device_id = random; device_label = [] },
  write_device_file written random [] file,
)
config_from_file written random port (c ∷ id, label) file =
    (record { port = port; device_id = c ∷ id; device_label = label }, file)

-- `env_port` and `env_id` are JUSTINTIME_PORT and JUSTINTIME_DEVICE_ID.
unfoldable pub load_config :
    Bool → Bytes → Option Bytes → Option Bytes → Option Bytes → Config × Option Bytes
load_config written random env_port none file =
    config_from_file written random (port_of env_port) (read_device_file file) file
load_config written random env_port (some []) file =
    config_from_file written random (port_of env_port) (read_device_file file) file
load_config written random env_port (some (c ∷ id)) file =
    (record { port = port_of env_port; device_id = c ∷ id; device_label = [] }, file)

abbrev pub first_label : Bytes × Bytes → Bytes → Bytes → Bytes
first_label ([], l) label id = label_or_default label id
first_label (c ∷ i, []) label id = label_or_default label id
first_label (c ∷ i, d ∷ l) label id = d ∷ l

unfoldable pub display_label : Option Bytes → Config → Bytes
display_label file cfg = first_label (read_device_file file) cfg.device_label cfg.device_id

unfoldable pub set_device_label : Bool → Bytes → Bytes → Option Bytes → Option Bytes
set_device_label written id label file = write_device_file written id label file
