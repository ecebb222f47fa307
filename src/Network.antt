-- ===== src/Network.antt =====
-- src/agent/shared/restclient.cpp and src/agent/shared/network.cpp: requests with the token of the
-- session, which is refreshed once if the server answers 401.
pub mod Send
pub mod Stale
mod Examples
use just_in_time.Prelude.{
  ℕ, zero, suc, ◌-◌, Bool, true, false, not, ◌&&◌, ◌||◌, Option, none, some, List, [], ◌∷◌, ◌++◌,
  Bytes, codes, bytes_eq, print_ℕ, leb, ltb, ◌==◌, if◌then◌else◌, length, take,
}
use just_in_time.Json.{json_escape_string}
use just_in_time.Db.{SyncRecord}
use just_in_time.Sync.{SendResult}
use just_in_time.Auth.{Session, Answer, Auth, Dpapi, is_success, auth_refresh_session}

-- What is outside of the program: HTTP, DPAPI and the files, over a state `N`.
pub record Web (N : Type 0) : Type 0 where
  -- `httpsRequest` with this bearer token and body.
  pub request : Bytes → Bytes → N → Option Answer × N
  -- The request of `auth_refresh_session` with this refresh token.
  pub refresh : Bytes → N → Option Answer × N
  pub dpapi : Dpapi
  pub written : N → Bool
  pub deleted : N → Bool
  pub narrow : List ℕ → Bytes

pub record Client (N : Type 0) : Type 0 where
  pub auth : Auth
  pub net : N

-- `appendRecordJson`
unfoldable pub record_json : (List ℕ → Bytes) → SyncRecord → Bytes
record_json narrow r =
    codes "{\"device_id\":\""
    ++ (json_escape_string r.device_id
        ++ (codes "\",\"process_name\":\""
            ++ (json_escape_string (narrow r.process_name)
                ++ (codes "\",\"window_title\":\""
                    ++ (json_escape_string (narrow r.window_title)
                        ++ (codes "\",\"duration_seconds\":"
                            ++ (print_ℕ r.duration_seconds
                                ++ (codes ",\"start_time\":"
                                    ++ (print_ℕ r.start_time
                                        ++ (codes ",\"end_time\":"
                                            ++ (print_ℕ r.end_time ++ codes "}")))))))))))

unfoldable pub records_json : (List ℕ → Bytes) → List SyncRecord → Bytes
unfolding record_json
records_json narrow [] = codes "]"
records_json narrow (r ∷ rs) = b',' ∷ (record_json narrow r ++ records_json narrow rs)

-- One record is an object, several are an array.
unfoldable pub build_body : (List ℕ → Bytes) → List SyncRecord → Bytes
unfolding records_json
build_body narrow [] = codes "[]"
build_body narrow (r ∷ []) = record_json narrow r
build_body narrow (r ∷ s ∷ rs) = b'[' ∷ (record_json narrow r ++ records_json narrow (s ∷ rs))

unfoldable pub is_transient_status : ℕ → Bool
is_transient_status status =
    (status == 408) || (status == 429) || (status == 502) || (status == 503) || (status == 504)

abbrev pub sent_all : SendResult
sent_all = record { sent = true; transport_error = false }

abbrev pub not_now : SendResult
not_now = record { sent = false; transport_error = true }

abbrev pub refused : SendResult
refused = record { sent = false; transport_error = false }

-- How the function ends on an answer that it does not retry.
unfoldable pub result_of : Option Answer → SendResult
unfolding is_transient_status
result_of none = not_now
result_of (some r) =
    if is_success r.status
    then sent_all
    else if is_transient_status r.status
    then not_now
    else refused

abbrev pub is_unauthorized : Option Answer → Bool
is_unauthorized none = false
is_unauthorized (some r) = r.status == 401

-- The copy into `response_out`.
abbrev pub cut_body : ℕ → Option Answer → Option Answer
cut_body size none = none
cut_body size (some r) = some (record r { body = take (size - 1) r.body })

module _ {N : Type 0} (web : Web N) where
  refreshed : Client N → Client N × ℕ
  refreshed c =
      if length c.auth.session.refresh_token == 0
      then (c, 0)
      else (let (answer, n) = web.refresh c.auth.session.refresh_token c.net in
          let (auth, ok) =
            auth_refresh_session web.dpapi (web.written n) (web.deleted n) answer c.auth in
          (record { auth = auth; net = n }, ok))

  -- A token other than the used one has been refreshed by another thread meanwhile.
  unfoldable pub restclient_refresh_if_stale : Bytes → Client N → Client N × ℕ
  unfolding refreshed
  restclient_refresh_if_stale used_token c =
      if not c.auth.session.logged_in
      then (c, 0)
      else if not (length used_token == 0) && not (bytes_eq c.auth.session.access_token used_token)
      then (c, 1)
      else refreshed c

  -- One request of either loop, with the token as it is now.
  unfoldable pub attempt : Bytes → Client N → Option Answer × Client N
  attempt body c =
      let (answer, n) = web.request c.auth.session.access_token body c.net in
      (answer, record c { net = n })

  -- The loop of `network_send_batch`, with `more` attempts behind this one.
  unfoldable pub send_attempt : ℕ → Bytes → Client N → SendResult × Client N
  unfolding attempt restclient_refresh_if_stale
  send_attempt zero body c = let (answer, c') = attempt body c in (result_of answer, c')
  send_attempt (suc more) body c =
      let (answer, c') = attempt body c in
      let (c'', ok) = restclient_refresh_if_stale c.auth.session.access_token c' in
      let again = send_attempt more body c'' in
      if is_unauthorized answer
      then if ok == 0 then (not_now, c'') else again
      else (result_of answer, c')

  unfoldable pub network_send_batch : List SyncRecord → Client N → SendResult × Client N
  unfolding build_body
  network_send_batch records c =
      if length records == 0
      then (refused, c)
      else if not c.auth.session.logged_in
      then (not_now, c)
      else send_attempt 1 (build_body web.narrow records) c

  -- The loop of `restclient_call`.
  unfoldable pub call_attempt : ℕ → Bytes → Client N → Option Answer × Client N
  unfolding attempt restclient_refresh_if_stale
  call_attempt zero body c = attempt body c
  call_attempt (suc more) body c =
      let (answer, c') = attempt body c in
      let (c'', ok) = restclient_refresh_if_stale c.auth.session.access_token c' in
      let again = call_attempt more body c'' in
      if is_unauthorized answer && c.auth.session.logged_in
      then if ok == 0 then (answer, c'') else again
      else (answer, c')

  unfoldable pub restclient_call : Bytes → ℕ → Client N → Option Answer × Client N
  restclient_call body response_out_size c =
      if response_out_size == 0
      then (none, c)
      else (let (answer, c') = call_attempt 1 body c in (cut_body response_out_size answer, c'))
