-- ===== src/Limits.antt =====
-- src/agent/shared/applimits.cpp: the limits that a parent sets for the apps of a child, and the
-- cache of them on the child's machine, with its file limits.cache.
-- A call of Supabase is an argument: `none` if there was no answer, or the status and the body.
pub mod File
pub mod Offline
mod Examples
use just_in_time.Prelude.{
  ℕ, suc, ◌-◌, Bool, true, false, not, ◌&&◌, ◌||◌, Option, none, some, List, [], ◌∷◌, ◌++◌, map,
  Bytes, codes, bytes_eq, strip_prefix, lines, cut_at, chop_return, ℤ, eq_ℤ, is_nonneg, print_ℤ,
  strtol, leb, ltb, ◌==◌, if◌then◌else◌, length, take,
}
use just_in_time.Json.{
  json_escape_string, json_extract_string, json_extract_long, json_extract_bool, collect, Extracted,
}
use just_in_time.Auth.{Session, Answer, is_success}

-- `AppLimit`; `blocked` holds only 0 and 1.
pub record AppLimit : Type 0 where
  pub id : ℤ
  pub process_name : Bytes
  pub daily_limit_sec : ℤ
  pub blocked : Bool

-- g_cache, g_cacheUserId and g_cacheLoaded, and limits.cache: `none` if it cannot be opened.
pub record Cache : Type 0 where
  pub limits : List AppLimit
  pub user_id : Bytes
  pub loaded : Bool
  pub file : Option Bytes

abbrev pub max_limits : ℕ
max_limits = 64

unfoldable pub print_limit : AppLimit → Bytes
print_limit l =
    l.process_name
    ++ (9 ∷ (print_ℤ l.daily_limit_sec ++ (9 ∷ (if l.blocked then b'1' else b'0') ∷ [])))

unfoldable pub print_limits : List AppLimit → Bytes
unfolding print_limit
print_limits [] = []
print_limits (l ∷ ls) = print_limit l ++ 10 ∷ print_limits ls

unfoldable pub print_cache : Bytes → List AppLimit → Bytes
unfolding print_limits
print_cache user ls = codes "user=" ++ (user ++ 10 ∷ print_limits ls)

-- `saveCacheToDisk`; `written` is what `writeFileAtomic` returns, which leaves the old file if it fails.
unfoldable pub save_cache_to_disk : Bool → Cache → Cache
unfolding print_cache
save_cache_to_disk written k =
    if written then record k { file = some (print_cache k.user_id k.limits) } else k

-- What the loop over the lines has read so far.
pub record Loaded : Type 0 where
  pub user_id : Bytes
  pub limits : List AppLimit

-- std::atoi(…) != 0
abbrev pub is_set : Bytes → Bool
is_set s = not (eq_ℤ (strtol s) (ℤ.pos 0))

-- The fields of a line with two tabs: the name is cut to its buffer of 260 bytes.
unfoldable pub read_fields : Bytes → Bytes → Bytes → AppLimit
read_fields name daily blocked = record {
  id = ℤ.pos 0;
  process_name = take 259 name;
  daily_limit_sec = strtol daily;
  blocked = is_set blocked;
}

unfoldable pub add_fields : Loaded → Bytes → Option (Bytes × Bytes) → Loaded
unfolding read_fields
add_fields k name none = k
add_fields k name (some (daily, blocked)) =
    if length name == 0 || leb max_limits (length k.limits)
    then k
    else record k { limits = k.limits ++ read_fields name daily blocked ∷ [] }

unfoldable pub add_limit : Loaded → Option (Bytes × Bytes) → Loaded
unfolding add_fields
add_limit k none = k
add_limit k (some (name, rest)) = add_fields k name (cut_at 9 rest)

-- The body of the loop of `loadCacheFromDiskLocked`, for a line without its end.
unfoldable pub read_line : Loaded → Bytes → Loaded
unfolding add_limit
read_line k line = elim (strip_prefix (codes "user=") line) [
  | some user ↦ record k { user_id = user }
  | none ↦ add_limit k (cut_at 9 line)
]

unfoldable pub read_lines : Loaded → List Bytes → Loaded
unfolding read_line
read_lines k [] = k
read_lines k (l ∷ ls) = read_lines (read_line k (chop_return l)) ls

unfoldable pub read_file : Option Bytes → Loaded
unfolding read_lines
read_file none = record { user_id = []; limits = [] }
read_file (some text) = read_lines (record { user_id = []; limits = [] }) (lines text)

unfoldable pub load_cache_from_disk : Cache → Cache
unfolding read_file
load_cache_from_disk k =
    let r = read_file k.file in
    record { limits = r.limits; user_id = r.user_id; loaded = true; file = k.file }

-- What a failed reader leaves: the zeros of `memset`.
abbrev pub or_empty : Option Bytes → Bytes
or_empty none = []
or_empty (some s) = s

abbrev pub id_of : Option Extracted → ℤ
id_of none = ℤ.pos 0
id_of (some x) = x.value

-- -1 stands for no limit: the field is missing or null.
abbrev pub daily_of : Option Extracted → ℤ
daily_of none = ℤ.negsuc 0
daily_of (some x) = if x.found_null then ℤ.negsuc 0 else x.value

abbrev pub blocked_of : Option Bool → Bool
blocked_of none = false
blocked_of (some b) = b

-- One object of the response.
unfoldable pub parse_limit : Bytes → AppLimit
parse_limit obj = record {
  id = id_of (json_extract_long obj (codes "id"));
  process_name = or_empty (json_extract_string obj (codes "process_name") 260);
  daily_limit_sec = daily_of (json_extract_long obj (codes "daily_limit_sec"));
  blocked = blocked_of (json_extract_bool obj (codes "blocked"));
}

unfoldable pub parse_limits_response : Bytes → ℕ → List AppLimit
unfolding parse_limit
parse_limits_response response max_out = map parse_limit (collect max_out response 2048)

-- `none` is -1: the server could not be asked.
unfoldable pub fetch_limits : Session → Option Answer → Bytes → ℕ → Option (List AppLimit)
unfolding parse_limits_response
fetch_limits session answer child max_out =
    if not session.logged_in || length child == 0 then none else elim answer [
      | none ↦ none
      | some a ↦ if is_success a.status then some (parse_limits_response a.body max_out) else none
    ]

unfoldable pub applimits_list_for_child : Session → Option Answer → Bytes → ℕ → List AppLimit
unfolding fetch_limits
applimits_list_for_child session answer child max_out =
    elim (fetch_limits session answer child max_out) [ none ↦ [] | some ls ↦ ls ]

-- A cache that is not loaded is read from the file first; another account's limits do not count.
unfoldable pub applimits_get_my_limits : Session → ℕ → Cache → Cache × List AppLimit
applimits_get_my_limits session max_out k =
    if max_out == 0 || not session.logged_in
    then (k, [])
    else (let k' = if k.loaded then k else load_cache_from_disk k in
        (k', if bytes_eq k'.user_id session.user_id then take max_out k'.limits else []))

abbrev pub same_limit : AppLimit → AppLimit → Bool
same_limit a b =
    eq_ℤ a.id b.id
    && bytes_eq a.process_name b.process_name
    && eq_ℤ a.daily_limit_sec b.daily_limit_sec
    && (if a.blocked then b.blocked else not b.blocked)

-- The test on the sizes and the bytes; unused bytes of an entry are zero on both sides.
unfoldable pub same_limits : List AppLimit → List AppLimit → Bool
same_limits [] [] = true
same_limits [] (b ∷ ms) = false
same_limits (a ∷ ls) [] = false
same_limits (a ∷ ls) (b ∷ ms) = same_limit a b && same_limits ls ms

-- The part of `applimits_refresh_my_limits` under the mutex.
unfoldable pub store_fetched : Bool → Bytes → List AppLimit → Cache → Cache
unfolding same_limits save_cache_to_disk
store_fetched written user fetched k =
    let changed =
      not k.loaded || not (bytes_eq k.user_id user) || not (same_limits k.limits fetched) in
    let k' : Cache = record { limits = fetched; user_id = user; loaded = true; file = k.file } in
    if changed then save_cache_to_disk written k' else k'

keep_fetched : Bool → Bytes → Cache → Option (List AppLimit) → Cache × ℕ
keep_fetched written user k none = (k, 0)
keep_fetched written user k (some fetched) = (store_fetched written user fetched k, 1)

unfoldable pub applimits_refresh_my_limits : Session → Option Answer → Bool → Cache → Cache × ℕ
unfolding keep_fetched
applimits_refresh_my_limits session answer written k =
    if session.logged_in
    then keep_fetched written session.user_id k
        (fetch_limits session answer session.user_id max_limits)
    else (k, 0)

-- The body of the request of `applimits_set`.
unfoldable pub set_body : Bytes → Bytes → ℤ → Bool → Bytes
set_body child process daily blocked =
    codes "{\"child_user_id\":\""
    ++ (child
        ++ (codes "\",\"process_name\":\""
            ++ (json_escape_string process
                ++ (codes "\",\"daily_limit_sec\":"
                    ++ ((if is_nonneg daily then print_ℤ daily else codes "null")
                        ++ (codes ",\"blocked\":"
                            ++ ((if blocked then codes "true" else codes "false")
                                ++ codes "}")))))))
