-- ===== src/Auth.antt =====
-- src/agent/shared/auth.cpp: the session of the signed-in account, in memory and in session.dat.
-- An answer of Supabase Auth is an argument: `none` if the request did not get through. So are the
-- two calls of DPAPI and whether the file could be written.
pub mod File
pub mod Refresh
mod Examples
use just_in_time.Prelude.{
  ℕ, ◌+◌, ◌*◌, Bool, true, false, not, ◌&&◌, ◌||◌, Option, none, some, List, [], ◌∷◌, ◌++◌, Bytes,
  codes, lines, leb, ltb, ◌==◌, if◌then◌else◌, length, take, keep,
}
use just_in_time.Json.{json_escape, json_extract_string}

-- `AuthSession`
pub record Session : Type 0 where
  pub logged_in : Bool
  pub user_id : Bytes
  pub email : Bytes
  pub access_token : Bytes
  pub refresh_token : Bytes

-- The status of an HTTP answer, and the text that the caller's buffer holds of its body.
pub record Answer : Type 0 where
  pub status : ℕ
  pub body : Bytes

-- g_session, and session.dat: `none` if it cannot be opened.
pub record Auth : Type 0 where
  pub session : Session
  pub file : Option Bytes

-- CryptProtectData and CryptUnprotectData; `none` is a failure.
pub record Dpapi : Type 0 where
  pub protect : Bytes → Option Bytes
  pub unprotect : Bytes → Option Bytes

-- memset(&s, 0, sizeof(s))
abbrev pub no_session : Session
no_session = record {
  logged_in = false;
  user_id = [];
  email = [];
  access_token = [];
  refresh_token = [];
}

unfoldable pub print_session : Session → Bytes
print_session s =
    s.user_id ++ 10 ∷ (s.email ++ 10 ∷ (s.access_token ++ 10 ∷ (s.refresh_token ++ 10 ∷ [])))

-- `saveSessionToDisk`; the fields are short enough for its buffer.
unfoldable pub save_session_to_disk : Dpapi → Bool → Session → Option Bytes → Option Bytes
unfolding print_session
save_session_to_disk dpapi written s file = elim (dpapi.protect (print_session s)) [
  | none ↦ file
  | some sealed ↦ if written then some sealed else file
]

abbrev is_nonempty : Bytes → Bool
is_nonempty s = not (length s == 0)

-- The tokens of strtok(buf, "\n"), which skips empty ones.
abbrev pub tokens : Bytes → List Bytes
tokens s = keep is_nonempty (lines s)

unfoldable pub read_session : List Bytes → Option Session
read_session (user ∷ email ∷ access ∷ refresh ∷ rest) = some (record {
  logged_in = true;
  user_id = take 63 user;
  email = take 255 email;
  access_token = take 4095 access;
  refresh_token = take 511 refresh;
})
read_session short = none

unfoldable pub load_session_from_disk : Dpapi → Option Bytes → Option Session
unfolding read_session
load_session_from_disk dpapi none = none
load_session_from_disk dpapi (some enc) =
    if length enc == 0 then none else elim (dpapi.unprotect enc) [
      | none ↦ none
      | some text ↦ read_session (tokens (take 8191 text))
    ]

-- The field of a zeroed buffer of `size` bytes after `json_extract_string`.
abbrev pub field : Bytes → Bytes → ℕ → Bytes
field body key size = elim (json_extract_string body key size) [ none ↦ [] | some s ↦ s ]

abbrev pub is_success : ℕ → Bool
is_success status = leb 200 status && ltb status 300

-- The session that an answer describes; `none` if it has no access_token.
unfoldable pub session_in : Bytes → Option Session
session_in body = elim (json_extract_string body (codes "access_token") 4096) [
  | none ↦ none
  | some token ↦ some (record {
    logged_in = true;
    user_id = field body (codes "id") 64;
    email = field body (codes "email") 256;
    access_token = token;
    refresh_token = field body (codes "refresh_token") 512;
  })
]

-- What `doAuthFlow` reports: three failures, of which the last needs the mail to be confirmed and
-- counts as a success.
pub data Flow : Type 0 where
  no_connection : Flow
  refused : Bytes → Flow
  confirm_email logged_in : Flow

-- The first of the three fields that is there, or a text with the status.
unfoldable pub error_text : Bytes → Bytes → Bytes
error_text body otherwise = elim (json_extract_string body (codes "error_description") 512) [
  | some s ↦ s
  | none ↦ elim (json_extract_string body (codes "msg") 512) [
    | some s ↦ s
    | none ↦ elim (json_extract_string body (codes "message") 512) [ some s ↦ s | none ↦ otherwise ]
  ]
]

accept_flow : Dpapi → Bool → Option Session → Auth → Auth × Flow
accept_flow dpapi written none a = (a, confirm_email)
accept_flow dpapi written (some s) a =
    (record { session = s; file = save_session_to_disk dpapi written s a.file }, logged_in)

-- `doAuthFlow`, which is `auth_register` and `auth_login` at their two paths.
unfoldable pub do_auth_flow : Dpapi → Bool → Bytes → Option Answer → Auth → Auth × Flow
unfolding accept_flow
do_auth_flow dpapi written otherwise none a = (a, no_connection)
do_auth_flow dpapi written otherwise (some r) a =
    if is_success r.status
    then accept_flow dpapi written (session_in r.body) a
    else (a, refused (error_text r.body otherwise))

-- `deleted` is what DeleteFileW returns.
unfoldable pub auth_logout : Bool → Auth → Auth
auth_logout deleted a = record { session = no_session; file = if deleted then none else a.file }

abbrev pub or_old : Bytes → Bytes → Bytes
or_old [] old = old
or_old (c ∷ s) old = c ∷ s

-- The last locked section of `auth_refresh_session`: what the answer leaves out stays.
unfoldable pub merge_session : Session → Session → Session
merge_session s old = record s {
  user_id = or_old s.user_id old.user_id;
  email = or_old s.email old.email;
  refresh_token = or_old s.refresh_token old.refresh_token;
  logged_in = true;
}

store_refreshed : Dpapi → Bool → Option Session → Auth → Auth × ℕ
store_refreshed dpapi written none a = (a, 0)
store_refreshed dpapi written (some s) a =
    let s' = merge_session s a.session in
    (record { session = s'; file = save_session_to_disk dpapi written s' a.file }, 1)

-- What `auth_refresh_session` does with the answer, on the session as it is by then.
unfoldable pub finish_refresh : Dpapi → Bool → Bool → Option Answer → Auth → Auth × ℕ
unfolding store_refreshed
finish_refresh dpapi written deleted none a = (a, 0)
finish_refresh dpapi written deleted (some r) a =
    if is_success r.status
    then store_refreshed dpapi written (session_in r.body) a
    else (auth_logout deleted a, 0)

-- The request is made only if there is a refresh token.
unfoldable pub auth_refresh_session : Dpapi → Bool → Bool → Option Answer → Auth → Auth × ℕ
unfolding finish_refresh
auth_refresh_session dpapi written deleted answer a =
    if length a.session.refresh_token == 0
    then (a, 0)
    else finish_refresh dpapi written deleted answer a

load_found : Auth → Option Session → Auth × ℕ
load_found a none = (a, 0)
load_found a (some s) = (record a { session = s }, 1)

unfoldable pub auth_load_session : Dpapi → Auth → Auth × ℕ
unfolding load_found
auth_load_session dpapi a = load_found a (load_session_from_disk dpapi a.file)

-- The body of the request that `doAuthFlow` sends: its `jsonEscape` has room for any text.
unfoldable pub flow_body : Bytes → Bytes → Bytes
flow_body email password =
    let escaped = λ (s : Bytes). json_escape s (length s * 6 + 16) in
    codes "{\"email\":\""
    ++ (escaped email ++ (codes "\",\"password\":\"" ++ (escaped password ++ codes "\"}")))
