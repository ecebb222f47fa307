-- ===== src/Family.antt =====
-- src/agent/shared/parentlink.cpp and src/agent/shared/machines.cpp: the links between a parent's and a
-- child's account, and the machines of an account. A C string holds no byte 0; a null pointer for an
-- e-mail address is read as the empty one, which the code treats alike.
pub mod Invite
pub mod Room
mod Examples
use just_in_time.Prelude.{
  ℕ, ◌-◌, Bool, true, false, not, ◌&&◌, ◌||◌, Option, none, some, List, [], ◌∷◌, ◌++◌, map, Bytes,
  codes, bytes_eq, is_prefix, ℤ, pos, print_ℕ, print_ℤ, leb, ltb, ◌==◌, if◌then◌else◌, length, take,
  drop,
}
use just_in_time.Json.{json_escape_string, json_extract_string, json_extract_long, collect}
use just_in_time.Auth.{Answer, is_success}
use just_in_time.Limits.{or_empty, id_of}

-- The arguments of a call: no body or header is an empty one.
pub record Call : Type 0 where
  pub method : Bytes
  pub path : Bytes
  pub body : Bytes
  pub prefer : Bytes

-- `restclient_call` with a buffer of this many bytes, over a state `N`: `none` is its return value 0.
pub record Rest (N : Type 0) : Type 0 where
  pub call : Call → ℕ → N → Option Answer × N

-- What a call leaves: its return value, and `err_out` if it was written.
pub record Outcome : Type 0 where
  pub ok : Bool
  pub err : Option Bytes

abbrev pub success : Outcome
success = record { ok = true; err = none }

-- snprintf(err_out, err_out_size, …); return 0;
unfoldable pub failure : ℕ → Bytes → Outcome
failure err_out_size text = record { ok = false; err = some (take (err_out_size - 1) text) }

abbrev pub minimal : Bytes
minimal = codes "Prefer: return=minimal\r\n"

abbrev pub log_in_first : Bytes
log_in_first = codes "Ban can dang nhap truoc."

abbrev pub no_connection : Bytes
no_connection = codes "Khong the ket noi toi Supabase."

unfoldable pub server_error : Answer → Bytes
server_error a = codes "Loi tu server (HTTP " ++ (print_ℕ a.status ++ (codes "): " ++ a.body))

abbrev pub max_uuid : ℕ
max_uuid = 40

-- The text without its last byte, if this is `"`.
unfoldable pub without_end_quote : Bytes → Option Bytes
without_end_quote [] = none
without_end_quote (c ∷ []) = if c == b'"' then some [] else none
without_end_quote (c ∷ d ∷ s) = elim (without_end_quote (d ∷ s)) [
  | none ↦ none
  | some t ↦ some (c ∷ t)
]

unfoldable pub strip_json_quotes : Bytes → Bytes
strip_json_quotes [] = []
strip_json_quotes (c ∷ s) =
    let inner : Bytes = elim (without_end_quote s) [ none ↦ c ∷ s | some t ↦ t ] in
    if c == b'"' then inner else c ∷ s

abbrev pub is_empty : Bytes → Bool
is_empty [] = true
is_empty (c ∷ s) = false

abbrev pub find_user : Bytes → Call
find_user email = record {
  method = codes "POST";
  path = codes "/rest/v1/rpc/find_user_id_by_email";
  body = codes "{\"target_email\":\"" ++ (json_escape_string email ++ codes "\"}");
  prefer = [];
}

abbrev pub insert_link : Bytes → Call
insert_link child = record {
  method = codes "POST";
  path = codes "/rest/v1/parent_links";
  body = codes "{\"child_user_id\":\"" ++ (child ++ codes "\"}");
  prefer = minimal;
}

unfoldable pub already_linked : Bytes
already_linked = codes "Da co lien ket (dang cho hoac da duoc chap nhan) voi tai khoan nay roi."

unfoldable pub no_account : Bytes → Bytes
no_account email =
    codes "Khong tim thay tai khoan nao voi email \""
    ++ (email ++ codes "\". Con can dang ky/dang nhap JustInTime bang chinh email nay truoc.")

-- How the second request ends the call.
unfoldable pub insert_outcome : ℕ → Option Answer → Outcome
unfolding failure
insert_outcome size none = failure size no_connection
insert_outcome size (some a) =
    if is_success a.status
    then success
    else if a.status == 409
    then failure size already_linked
    else failure size (server_error a)

-- What the first answer says: the child's account, or why there is none.
pub data Lookup : Type 0 where
  found : Bytes → Lookup
  missing : Bytes → Lookup

unfoldable pub check_id : Bytes → Bytes → Lookup
check_id response [] = Lookup.missing (codes "Phan hoi khong hop le tu server: " ++ response)
check_id response (c ∷ child) =
    if leb max_uuid (length (c ∷ child))
    then Lookup.missing (codes "ID tra ve tu server qua dai, khong hop le.")
    else Lookup.found (c ∷ child)

unfoldable pub looked_up : Bytes → Option Answer → Lookup
unfolding check_id
looked_up email none = Lookup.missing no_connection
looked_up email (some a) =
    if not (is_success a.status)
    then Lookup.missing (server_error a)
    else if is_prefix (codes "null") a.body
    then Lookup.missing (no_account email)
    else check_id a.body (strip_json_quotes a.body)

unfoldable pub update_outcome : ℕ → Option Answer → Outcome
unfolding failure
update_outcome size none = failure size no_connection
update_outcome size (some a) =
    if is_success a.status then success else failure size (server_error a)

module _ {N : Type 0} (rest : Rest N) where
  unfoldable pub invite_found : ℕ → Lookup → N → Outcome × N
  invite_found size (missing why) n = (failure size why, n)
  invite_found size (found child) n =
      let (answer, n') = rest.call (insert_link child) 2048 n in (insert_outcome size answer, n')

  unfoldable pub parentlink_invite_child : Bool → Bytes → ℕ → N → Outcome × N
  unfolding invite_found
  parentlink_invite_child logged_in email size n =
      if not logged_in
      then (failure size log_in_first, n)
      else if is_empty email
      then (failure size (codes "Vui long nhap email cua con."), n)
      else (let (answer, n') = rest.call (find_user email) 2048 n in
          invite_found size (looked_up email answer) n')

  -- updateStatus
  unfoldable pub update_status : Bool → ℤ → Bytes → ℕ → N → Outcome × N
  update_status logged_in link_id status size n =
      if not logged_in
      then (failure size log_in_first, n)
      else (let (answer, n') =
            rest.call
              (record {
                method = codes "PATCH";
                path = codes "/rest/v1/parent_links?id=eq." ++ print_ℤ link_id;
                body = codes "{\"status\":\"" ++ (status ++ codes "\"}");
                prefer = minimal;
              })
              2048 n in
          (update_outcome size answer, n'))

  unfoldable pub parentlink_approve : Bool → ℤ → ℕ → N → Outcome × N
  unfolding update_status
  parentlink_approve logged_in link_id = update_status logged_in link_id (codes "approved")

  unfoldable pub parentlink_revoke : Bool → ℤ → ℕ → N → Outcome × N
  unfolding update_status
  parentlink_revoke logged_in link_id = update_status logged_in link_id (codes "revoked")

-- `ParentLink`
pub record Link : Type 0 where
  pub id : ℤ
  pub other_user_id : Bytes
  pub other_email : Bytes
  pub status : Bytes

-- The body of the loop of `listLinks`; a field that is missing stays zero.
unfoldable pub parse_link : Bytes → Bytes → Bytes → Link
parse_link uuid_field email_field obj = record {
  id = id_of (json_extract_long obj (codes "id"));
  other_user_id = or_empty (json_extract_string obj uuid_field max_uuid);
  other_email = or_empty (json_extract_string obj email_field 256);
  status = or_empty (json_extract_string obj (codes "status") 16);
}

-- What a reader makes of an answer: its objects, if the answer is a success.
abbrev pub objects : ℕ → ℕ → Option Answer → List Bytes
objects max_out size none = []
objects max_out size (some a) = if is_success a.status then collect max_out a.body size else []

-- `MachineHeartbeat`; its three loads are whole numbers here.
pub record Machine : Type 0 where
  pub device_id : Bytes
  pub hostname : Bytes
  pub last_seen : Bytes
  pub cpu_percent : ℤ
  pub ram_percent : ℤ
  pub disk_percent : ℤ

unfoldable pub parse_machine : Bytes → Machine
parse_machine obj = record {
  device_id = or_empty (json_extract_string obj (codes "device_id") 64);
  hostname = or_empty (json_extract_string obj (codes "hostname") 256);
  last_seen = or_empty (json_extract_string obj (codes "last_seen") 64);
  cpu_percent = id_of (json_extract_long obj (codes "cpu_percent"));
  ram_percent = id_of (json_extract_long obj (codes "ram_percent"));
  disk_percent = id_of (json_extract_long obj (codes "disk_percent"));
}

unfoldable pub heartbeat_text : Bytes → Bytes → Bytes
heartbeat_text device label =
    codes "{\"device_id\":\""
    ++ (json_escape_string device
        ++ (codes "\",\"hostname\":\""
            ++ (json_escape_string label
                ++ codes
                    "\",\"cpu_percent\":0,\"ram_percent\":0,\"disk_percent\":0,\"last_seen\":\"now()\"}")))

-- The text in `char body[512]`.
unfoldable pub heartbeat_body : Bytes → Bytes → Bytes
unfolding heartbeat_text
heartbeat_body device label = take 511 (heartbeat_text device label)

abbrev pub list_call : Bytes → Call
list_call rpc = record { method = codes "POST"; path = rpc; body = codes "{}"; prefer = [] }

abbrev pub succeeded : Option Answer → Bool
succeeded none = false
succeeded (some a) = is_success a.status

module _ {N : Type 0} (rest : Rest N) where
  unfoldable pub list_links : Bool → Bytes → Bytes → Bytes → ℕ → N → List Link × N
  unfolding parse_link
  list_links logged_in rpc uuid_field email_field max_out n =
      if not logged_in
      then ([], n)
      else (let (answer, n') = rest.call (list_call rpc) 16384 n in
          (map (parse_link uuid_field email_field) (objects max_out 2048 answer), n'))

  unfoldable pub parentlink_list_as_parent : Bool → ℕ → N → List Link × N
  unfolding list_links
  parentlink_list_as_parent logged_in =
      list_links logged_in (codes "/rest/v1/rpc/parent_links_for_parent") (codes "child_user_id")
        (codes "child_email")

  unfoldable pub parentlink_list_as_child : Bool → ℕ → N → List Link × N
  unfolding list_links
  parentlink_list_as_child logged_in =
      list_links logged_in (codes "/rest/v1/rpc/parent_links_for_child") (codes "parent_user_id")
        (codes "parent_email")

  -- `device` and `label` are what get_device_id and device_get_label leave in 32 and 128 bytes.
  unfoldable pub machines_push_heartbeat : Bool → Bytes → Bytes → N → Bool × N
  unfolding heartbeat_body
  machines_push_heartbeat logged_in device label n =
      if not logged_in
      then (false, n)
      else (let (answer, n') =
            rest.call
              (record {
                method = codes "POST";
                path = codes "/rest/v1/device_heartbeats?on_conflict=user_id,device_id";
                body = heartbeat_body device label;
                prefer = codes "Prefer: resolution=merge-duplicates,return=minimal\r\n";
              })
              512 n in
          (succeeded answer, n'))

  unfoldable pub machines_list : Bool → ℕ → N → List Machine × N
  unfolding parse_machine
  machines_list logged_in max_entries n =
      if max_entries == 0 || not logged_in
      then ([], n)
      else (let (answer, n') =
            rest.call
              (record {
                method = codes "GET";
                path = codes "/rest/v1/device_heartbeats?select=*&order=last_seen.desc";
                body = [];
                prefer = [];
              })
              8192 n in
          (map parse_machine (objects max_entries 1024 answer), n'))
