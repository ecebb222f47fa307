-- ===== src/Network/Examples.antt =====
-- The theorems on requests at a server that knows one token.
use just_in_time.Prelude.{
  ℕ, ◌+◌, ◌≡◌, refl, true, false, none, some, [], ◌∷◌, arith, codes, bytes_eq, if◌then◌else◌,
}
use just_in_time.Json.{json_extract_string, find_value_pos, skip_blanks, string_at, copy_string}
use just_in_time.Db.{SyncRecord}
use just_in_time.Auth.{
  Answer, Dpapi, session_in, merge_session, finish_refresh, auth_refresh_session,
}
use just_in_time.Network.{
  Web, Client, build_body, is_transient_status, network_send_batch, restclient_refresh_if_stale,
}
use just_in_time.Network.Send.{Justified, send_batch-Justified}

abbrev plain : Dpapi
plain = record { protect = λ s. some s; unprotect = λ s. some s }

abbrev granted : Answer
granted = record { status = 200; body = codes "{\"access_token\":\"new\"}" }

-- The state counts the requests and the refreshes.
abbrev web : Web (ℕ × ℕ)
web = record {
  request = λ token body n. (
    some (if bytes_eq token (codes "new") then granted else record { status = 401; body = [] }),
    (n.0 + 1, n.1),
  );
  refresh = λ token n. (some granted, (n.0, n.1 + 1));
  dpapi = plain;
  written = λ n. true;
  deleted = λ n. true;
  narrow = λ s. s;
}

abbrev client : Client (ℕ × ℕ)
client = record {
  auth = record {
    session = record {
      logged_in = true;
      user_id = codes "u1";
      email = codes "a@b.c";
      access_token = codes "old";
      refresh_token = codes "r1";
    };
    file = none;
  };
  net = (0, 0);
}

abbrev entry : SyncRecord
entry = record {
  id = 1;
  device_id = codes "pc";
  process_name = codes "code.exe";
  window_title = codes "main.cpp";
  duration_seconds = 30;
  start_time = 1000;
  end_time = 1030;
}

send_batch-Justified_example :
    Justified web
      (build_body web.narrow (entry ∷ []))
      client
      (network_send_batch web (entry ∷ []) client).0
send_batch-Justified_example = send_batch-Justified web (entry ∷ []) client (omega arith)

overloaded : is_transient_status 503 ≡ true
unfolding is_transient_status
overloaded = refl

refreshed_token :
    ((restclient_refresh_if_stale web (codes "old") client).1 ≡ 1)
    × (bytes_eq
          (restclient_refresh_if_stale web (codes "old") client).0.auth.session.access_token
          (codes "old")
        ≡ false)
unfolding restclient_refresh_if_stale auth_refresh_session finish_refresh merge_session session_in
    json_extract_string find_value_pos skip_blanks string_at copy_string
refreshed_token = (refl, refl)
