-- ===== src/RemoteView.antt =====
-- src/agent/agent/remoteview.cpp: a read-only HTTP server that asks for a token. Sockets and threads
-- are outside: a request is the text that `recv` gave, up to its first 0.
pub mod Request
pub mod Gate
pub mod Status
pub mod Lifecycle
mod Examples
use just_in_time.Prelude.{
  ℕ, zero, suc, ◌+◌, ◌-◌, ◌==◌, if◌then◌else◌, Bool, true, false, not, ◌&&◌, ◌||◌, Option, none,
  some, List, [], ◌∷◌, ◌++◌, Bytes, codes, bytes_eq, ℤ, print_ℕ, strstr, strip_prefix, is_prefix,
  is_space, length, drop, take, eq_ℤ, pos,
}
use just_in_time.Json.{json_escape_string}
use just_in_time.Db.{Convert}
use just_in_time.Activity.{Tracker, activity_get_current}
use just_in_time.Settings.{AppSettings}

pub record Response : Type 0 where
  pub status : ℕ
  pub status_text : Bytes
  pub body : Bytes

-- What `sendResponse` sends: the header, then the body.
unfoldable pub response_text : Response → Bytes
response_text r =
    codes "HTTP/1.1 "
    ++ (print_ℕ r.status
        ++ (32
            ∷ (r.status_text
                ++ (13
                    ∷ 10
                    ∷ (codes "Content-Type: application/json"
                        ++ (13
                            ∷ 10
                            ∷ (codes "Content-Length: "
                                ++ (print_ℕ (length r.body)
                                    ++ (13
                                        ∷ 10
                                        ∷ (codes "Connection: close"
                                            ++ (13 ∷ 10 ∷ 13 ∷ 10 ∷ r.body)))))))))))

-- while (end < path.size() && path[end] != '&' && path[end] != ' ')
unfoldable pub until_end : Bytes → Bytes
until_end [] = []
until_end (c ∷ s) = if (c == b'&') || (c == 32) then [] else c ∷ until_end s

abbrev pub token_at : Option Bytes → Bytes
token_at none = []
token_at (some s) = until_end (drop 6 s)

unfoldable pub extract_token : Bytes → Bytes
extract_token path = token_at (strstr path (codes "token="))

-- The conversion %<width>s of sscanf: blanks are skipped, then up to `width` other characters are
-- taken; the rest follows.
unfoldable pub skip_spaces : Bytes → Bytes
skip_spaces [] = []
skip_spaces (c ∷ s) = if is_space c then skip_spaces s else c ∷ s

abbrev pub onto_word : ℕ → Bytes × Bytes → Bytes × Bytes
onto_word c (word, rest) = (c ∷ word, rest)

unfoldable pub take_word : ℕ → Bytes → Bytes × Bytes
take_word zero s = ([], s)
take_word (suc width) [] = ([], [])
take_word (suc width) (c ∷ s) = if is_space c then ([], c ∷ s) else onto_word c (take_word width s)

abbrev pub scan_word : ℕ → Bytes → Bytes × Bytes
scan_word width s = take_word width (skip_spaces s)

-- sscanf(request, "%15s %511s", methodBuf, pathBuf)
unfoldable pub scan_request : Bytes → Bytes × Bytes
scan_request request =
    let (method, rest) = scan_word 15 request in
    let (path, _) = scan_word 511 rest in (method, path)

abbrev pub unauthorized : Response
unauthorized = record {
  status = 401;
  status_text = codes "Unauthorized";
  body = codes "{\"error\":\"Invalid or missing token\"}";
}

abbrev pub is_enabled : AppSettings → Bool
is_enabled s = not (eq_ℤ s.remote_view_enabled (pos 0))

unfoldable pub is_allowed : AppSettings → Bytes → Bytes → Bool
is_allowed s method path =
    bytes_eq method (codes "GET")
    && (is_enabled s
        && (not (length s.remote_view_token == 0)
            && bytes_eq (extract_token path) s.remote_view_token))

-- What the server may tell: the open record, and the text of db_build_daily_summary_text.
pub record Shown : Type 0 where
  pub tracker : Tracker
  pub summary : List ℕ
  pub convert : Convert

unfoldable pub status_body : Shown → Bytes
status_body k =
    let (process, title, since) = activity_get_current k.tracker in
    codes "{\"process_name\":\""
    ++ (json_escape_string (k.convert.to_utf8 process)
        ++ (codes "\",\"window_title\":\""
            ++ (json_escape_string (k.convert.to_utf8 title)
                ++ (codes "\",\"since\":" ++ (print_ℕ since ++ codes "}")))))

unfoldable pub today_body : Shown → Bytes
today_body k =
    codes "{\"summary\":\"" ++ (json_escape_string (k.convert.to_utf8 k.summary) ++ codes "\"}")

abbrev pub ok_response : Bytes → Response
ok_response body = record { status = 200; status_text = codes "OK"; body = body }

abbrev pub not_found : Response
not_found = record {
  status = 404;
  status_text = codes "Not Found";
  body = codes "{\"error\":\"Unknown endpoint. Try /status or /today\"}";
}

unfoldable pub endpoint : Shown → Bytes → Response
endpoint k path =
    if is_prefix (codes "/status") path
    then ok_response (status_body k)
    else if is_prefix (codes "/today") path
    then ok_response (today_body k)
    else not_found

-- `none` is a connection on which nothing was received, and nothing is sent.
unfoldable pub handle_client : AppSettings → Shown → Option Bytes → Option Response
handle_client s k none = none
handle_client s k (some request) =
    let (method, path) = scan_request request in
    some (if is_allowed s method path then endpoint k path else unauthorized)

-- `g_listen_socket` is open, `g_thread` is not NULL, and `g_running`; further the calls of WSAStartup
-- that no WSACleanup has answered, and the threads in `acceptLoop`. The sockets of clients, which such
-- a thread opens and closes, are not part of the state.
pub record Remote : Type 0 where
  pub listening : Bool
  pub has_thread : Bool
  pub running : Bool
  pub startups : ℕ
  pub accepting : ℕ

-- Which calls of one start succeed.
pub record Starting : Type 0 where
  pub starts_up : Bool
  pub gets_socket : Bool
  pub binds : Bool
  pub listens : Bool
  pub creates_thread : Bool

abbrev pub cleaned_up : Remote → Remote × ℕ
cleaned_up r = (record r { listening = false }, 0)

abbrev pub started : Starting → Remote → Remote × ℕ
started o r = (
  record r {
    listening = true;
    running = true;
    has_thread = o.creates_thread;
    startups = r.startups + 1;
    accepting = r.accepting + (if o.creates_thread then 1 else 0);
  },
  1,
)

unfoldable pub remoteview_start : AppSettings → Starting → Remote → Remote × ℕ
remoteview_start s o r =
    if◌then◌else◌ {A = Remote × ℕ} (not (is_enabled s)) (r, 1)
      (if◌then◌else◌ {A = Remote × ℕ} (not o.starts_up) (r, 0)
        (if◌then◌else◌ {A = Remote × ℕ} (o.gets_socket && (o.binds && o.listens)) (started o r)
          (cleaned_up r)))

-- `ends`: the thread ends within the two seconds for which it is waited.
unfoldable pub remoteview_stop : Bool → Remote → Remote
remoteview_stop ends r =
    if r.running
    then record {
      listening = false;
      has_thread = false;
      running = false;
      startups = r.startups - 1;
      accepting = r.accepting - (if r.has_thread && ends then 1 else 0);
    }
    else r

unfoldable pub remoteview_restart : AppSettings → Starting → Bool → Remote → Remote × ℕ
remoteview_restart s o ends r = remoteview_start s o (remoteview_stop ends r)
