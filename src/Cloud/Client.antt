-- ===== src/Cloud/Client.antt =====
-- `Client` of src/dashboard/cloud.cpp: one request for each method, two for an invitation.
use just_in_time.Prelude.{
  ℕ, ltb, if◌then◌else◌, Bool, true, false, Option, none, some, List, [], ◌∷◌, ◌++◌, Bytes, codes,
  ℤ, print_ℕ, print_ℤ, is_prefix,
}
use just_in_time.Auth.{Answer}
use just_in_time.Cloud.{
  Value, null, boolean, number, text, array, object, Fields, no_fields, field, Nlohmann, Result, ok,
  unauthorized, auth_error, api_error, json_error, ◌>>=◌, url_encode, read_answer,
}
use just_in_time.Cloud.Rows.{
  elements, each, DailyTotal, daily_total, RecentLog, recent_log, Message, message, ParentLink,
  parent_link, permission, AppLimit, app_limit, number_or_null,
}

-- What `Client::request` hands to httpsRequest, besides the fixed headers.
pub record Request : Type 0 where
  pub method : Bytes
  pub path : Bytes
  pub body : Option Value
  pub prefer : Bytes

-- The server and the network, over a state `N`.
pub record Server (N : Type 0) : Type 0 where
  pub lib : Nlohmann
  pub send : Request → N → Option Answer × N

abbrev pub minimal : Bytes
minimal = codes "return=minimal"

abbrev pub merge : Bytes
merge = codes "resolution=merge-duplicates,return=minimal"

abbrev pub get : Bytes → Request
get path = record { method = codes "GET"; path = path; body = none; prefer = [] }

abbrev pub change : Bytes → Bytes → Fields → Request
change method path fs = record {
  method = method;
  path = path;
  body = some (object fs);
  prefer = minimal;
}

abbrev pub one : Bytes → Value → Fields
one key v = field key v no_fields

abbrev pub day_filter : Bytes → Bytes → Bytes
day_filter [] [] = []
day_filter [] (d ∷ to_day) = codes "&day=lte." ++ d ∷ to_day
day_filter (c ∷ from_day) [] = codes "&day=gte." ++ c ∷ from_day
day_filter (c ∷ from_day) (d ∷ to_day) =
    codes "&and=(day.gte." ++ (c ∷ from_day ++ (codes ",day.lte." ++ (d ∷ to_day ++ codes ")")))

unfoldable pub daily_totals_request : Bytes → Bytes → Request
daily_totals_request from_day to_day = get (
    codes "/rest/v1/activity_daily_totals?select=*&order=day.desc,total_seconds.desc&limit=1000"
    ++ day_filter from_day to_day)

abbrev pub log_columns : Bytes
log_columns =
    codes
      "/rest/v1/activity_logs?select=device_id,process_name,window_title,duration_seconds,start_time,end_time"

unfoldable pub recent_logs_request : ℤ → Request
recent_logs_request limit =
    get (log_columns ++ (codes "&order=start_time.desc&limit=" ++ print_ℤ limit))

-- `since` is left out if it is not positive; the caller passes the start of a day.
unfoldable pub child_logs_request : Bytes → ℕ → ℤ → Request
child_logs_request child since limit = get (
    log_columns
    ++ (codes "&user_id=eq."
        ++ (url_encode child
            ++ ((if ltb 0 since then codes "&start_time=gte." ++ print_ℕ since else [])
                ++ (codes "&order=start_time.desc&limit=" ++ print_ℤ limit)))))

unfoldable pub send_message_request : Message → Request
send_message_request m = change (codes "POST") (codes "/rest/v1/device_messages") (
    field (codes "sender_device_id") (text m.sender_device_id) (
      field (codes "target_device_id") (text m.target_device_id)
        (field (codes "kind") (text m.kind) (one (codes "payload") (text m.payload)))))

unfoldable pub inbox_request : Bytes → ℤ → Request
inbox_request self limit = get (
    codes "/rest/v1/device_messages?target_device_id=eq."
    ++ (url_encode self ++ (codes "&order=created_at.desc&limit=" ++ print_ℤ limit)))

unfoldable pub thread_request : Bytes → Bytes → ℤ → Request
thread_request self other limit =
    let a = url_encode self in
    let b = url_encode other in
    get (
      codes "/rest/v1/device_messages?or=(and(sender_device_id.eq."
      ++ (a
          ++ (codes ",target_device_id.eq."
              ++ (b
                  ++ (codes "),and(sender_device_id.eq."
                      ++ (b
                          ++ (codes ",target_device_id.eq."
                              ++ (a
                                  ++ (codes "))&order=created_at.asc&limit="
                                      ++ print_ℤ limit)))))))))

-- `now` is the time as `snprintf` prints it.
unfoldable pub mark_read_request : ℤ → Bytes → Request
mark_read_request id now =
    change (codes "PATCH") (codes "/rest/v1/device_messages?id=eq." ++ print_ℤ id)
      (one (codes "read_at") (text now))

unfoldable pub find_user_request : Bytes → Request
find_user_request email = record {
  method = codes "POST";
  path = codes "/rest/v1/rpc/find_user_id_by_email";
  body = some (object (one (codes "target_email") (text email)));
  prefer = [];
}

unfoldable pub insert_link_request : Bytes → Request
insert_link_request child =
    change (codes "POST") (codes "/rest/v1/parent_links") (one (codes "child_user_id") (text child))

unfoldable pub link_status_request : ℤ → Bytes → Request
link_status_request id status =
    change (codes "PATCH") (codes "/rest/v1/parent_links?id=eq." ++ print_ℤ id)
      (one (codes "status") (text status))

unfoldable pub set_permission_request : ℤ → Bytes → Request
set_permission_request id level =
    change (codes "PATCH") (codes "/rest/v1/parent_links?id=eq." ++ print_ℤ id)
      (one (codes "permission_level") (text level))

unfoldable pub list_limits_request : Bytes → Request
list_limits_request child = get (
    codes "/rest/v1/app_limits?select=id,process_name,daily_limit_sec,blocked&child_user_id=eq."
    ++ (url_encode child ++ codes "&order=process_name.asc"))

unfoldable pub set_limit_request : Bytes → Bytes → Option ℤ → Bool → Request
set_limit_request child process daily blocked = record {
  method = codes "POST";
  path = codes "/rest/v1/app_limits?on_conflict=child_user_id,process_name";
  body = some (
      object (
        field (codes "child_user_id") (text child) (
          field (codes "process_name") (text process) (
            field (codes "blocked") (boolean blocked)
              (one (codes "daily_limit_sec") (number_or_null daily))))));
  prefer = merge;
}

abbrev pub delete_at : Bytes → Request
delete_at path = record { method = codes "DELETE"; path = path; body = none; prefer = minimal }

unfoldable pub delete_limit_request : ℤ → Request
delete_limit_request id = delete_at (codes "/rest/v1/app_limits?id=eq." ++ print_ℤ id)

unfoldable pub delete_heartbeat_request : Bytes → Request
delete_heartbeat_request device =
    delete_at (codes "/rest/v1/device_heartbeats?device_id=eq." ++ url_encode device)

abbrev pub links_request : Bytes → Request
links_request rpc = record {
  method = codes "POST";
  path = codes "/rest/v1/rpc/" ++ rpc;
  body = none;
  prefer = [];
}

module _ {N : Type 0} (s : Server N) where
  -- `Client::request`
  unfoldable pub request : Request → Bool → N → Result Value × N
  request r expect_array n = let (a, n') = s.send r n in (read_answer s.lib expect_array a, n')

  -- A request whose answer is read row by row.
  abbrev pub rows {ℓ} : {A : Type ℓ} → Request → (Value → Result A) → N → Result (List A) × N
  rows r read n = let (v, n') = request r true n in (v >>= λ arr. each read (elements arr), n')

  abbrev pub done : Request → N → Result (Unit {0}) × N
  done r n = let (v, n') = request r false n in (v >>= λ _. ok tt, n')

  unfoldable pub daily_totals : Bytes → Bytes → N → Result (List DailyTotal) × N
  daily_totals from_day to_day = rows (daily_totals_request from_day to_day) daily_total

  unfoldable pub recent_logs : ℤ → N → Result (List RecentLog) × N
  recent_logs limit = rows (recent_logs_request limit) recent_log

  unfoldable pub activity_logs_for_child : Bytes → ℕ → ℤ → N → Result (List RecentLog) × N
  activity_logs_for_child child since limit = rows (child_logs_request child since limit) recent_log

  unfoldable pub send_message : Message → N → Result (Unit {0}) × N
  send_message m = done (send_message_request m)

  unfoldable pub inbox : Bytes → ℤ → N → Result (List Message) × N
  inbox self limit = rows (inbox_request self limit) message

  unfoldable pub thread : Bytes → Bytes → ℤ → N → Result (List Message) × N
  thread self other limit = rows (thread_request self other limit) message

  unfoldable pub mark_read : ℤ → Bytes → N → Result (Unit {0}) × N
  mark_read id now = done (mark_read_request id now)

  unfoldable pub list_links_as_parent : N → Result (List ParentLink) × N
  list_links_as_parent =
      rows (links_request (codes "parent_links_for_parent"))
        (parent_link (codes "child_user_id") (codes "child_email"))

  unfoldable pub list_links_as_child : N → Result (List ParentLink) × N
  list_links_as_child =
      rows (links_request (codes "parent_links_for_child"))
        (parent_link (codes "parent_user_id") (codes "parent_email"))

  unfoldable pub approve_link : ℤ → N → Result (Unit {0}) × N
  approve_link id = done (link_status_request id (codes "approved"))

  unfoldable pub revoke_link : ℤ → N → Result (Unit {0}) × N
  revoke_link id = done (link_status_request id (codes "revoked"))

  unfoldable pub list_permissions : N → Result (List (ℤ × Bytes)) × N
  list_permissions =
      rows (get (codes "/rest/v1/parent_links?select=id,permission_level")) permission

  unfoldable pub set_permission : ℤ → Bytes → N → Result (Unit {0}) × N
  set_permission id level = done (set_permission_request id level)

  unfoldable pub list_limits_for_child : Bytes → N → Result (List AppLimit) × N
  list_limits_for_child child = rows (list_limits_request child) app_limit

  unfoldable pub set_limit : Bytes → Bytes → Option ℤ → Bool → N → Result (Unit {0}) × N
  set_limit child process daily blocked = done (set_limit_request child process daily blocked)

  unfoldable pub delete_limit : ℤ → N → Result (Unit {0}) × N
  delete_limit id = done (delete_limit_request id)

  unfoldable pub delete_heartbeat : Bytes → N → Result (Unit {0}) × N
  delete_heartbeat device = done (delete_heartbeat_request device)

-- msg.find(text) != npos
unfoldable pub contains : Bytes → Bytes → Bool
contains p [] = is_prefix p []
contains p (c ∷ s) = if is_prefix p (c ∷ s) then true else contains p s

-- The answer's text, or an empty one for any other value.
abbrev pub id_in : Value → Bytes
id_in (text s) = s
id_in null = []
id_in (boolean b) = []
id_in (number n) = []
id_in (array vs) = []
id_in (object fs) = []

abbrev pub already_linked : Bytes
already_linked = codes "already invited or linked with this account"

abbrev pub no_account : Bytes → Bytes
no_account email =
    codes "no JustInTime account found for \""
    ++ (email ++ codes "\" - they need to sign up/log in with this exact email first")

-- catch (const ApiError& e)
abbrev pub link_result : Result Value → Result (Unit {0})
link_result (ok v) = ok tt
link_result unauthorized = unauthorized
link_result (auth_error why) = auth_error why
link_result json_error = json_error
link_result (api_error why) =
    if contains (codes "409") why then api_error already_linked else api_error why

module _ {N : Type 0} (s : Server N) where
  abbrev pub invite_found : Bytes → Bytes → N → Result (Unit {0}) × N
  invite_found email [] n = (api_error (no_account email), n)
  invite_found email (c ∷ child) n =
      let (v, n') = request s (insert_link_request (c ∷ child)) false n in (link_result v, n')

  abbrev pub invite_looked_up : Bytes → Result Value × N → Result (Unit {0}) × N
  invite_looked_up email (ok v, n) = invite_found email (id_in v) n
  invite_looked_up email (unauthorized, n) = (unauthorized, n)
  invite_looked_up email (auth_error why, n) = (auth_error why, n)
  invite_looked_up email (api_error why, n) = (api_error why, n)
  invite_looked_up email (json_error, n) = (json_error, n)

  unfoldable pub invite_child : Bytes → N → Result (Unit {0}) × N
  invite_child email n = invite_looked_up email (request s (find_user_request email) false n)
