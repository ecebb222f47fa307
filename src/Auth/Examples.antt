-- ===== src/Auth/Examples.antt =====
-- The theorems on sessions at a session as Supabase gives it.
use just_in_time.Prelude.{◌≡◌, refl, true, none, some, [], ◌∷◌, arith, codes}
use just_in_time.Json.{json_extract_string, find_value_pos, skip_blanks, string_at, copy_string}
use just_in_time.Auth.{
  Session, Answer, Auth, Dpapi, session_in, save_session_to_disk, auth_load_session,
  auth_refresh_session,
}
use just_in_time.Auth.File.{IsComplete, Restores, load-save_session}
use just_in_time.Auth.Refresh.{Ends, refresh_session-Ends}

abbrev signed_in : Session
signed_in = record {
  logged_in = true;
  user_id = codes "u1";
  email = codes "a@b.c";
  access_token = codes "old";
  refresh_token = codes "r1";
}

-- A cipher that puts one byte in front.
abbrev cipher : Dpapi
cipher = record {
  protect = λ s. some (1 ∷ s);
  unprotect = λ s. elim s [ [] ↦ none | ◌∷◌ c t ↦ some t ];
}

cipher-Restores : Restores cipher
cipher-Restores text = (1 ∷ text, refl, omega arith, refl)

signed_in-IsComplete : IsComplete signed_in
signed_in-IsComplete = record {
  logged_in = refl;
  user_id = omega arith;
  email = omega arith;
  access_token = omega arith;
  refresh_token = omega arith;
}

load-save_session_example :
    auth_load_session cipher
      (record { session = signed_in; file = save_session_to_disk cipher true signed_in none })
    ≡ (record { session = signed_in; file = save_session_to_disk cipher true signed_in none }, 1)
load-save_session_example =
    load-save_session cipher signed_in none signed_in cipher-Restores signed_in-IsComplete

abbrev start : Auth
start = record { session = signed_in; file = none }

abbrev new_token : Answer
new_token = record { status = 200; body = codes "{\"access_token\":\"new\"}" }

refresh_session-Ends_example :
    Ends signed_in (some new_token) (auth_refresh_session cipher true true (some new_token) start)
refresh_session-Ends_example =
    refresh_session-Ends cipher true true (some new_token) start (refl, omega arith, omega arith)

abbrev token_only : Session
token_only = record {
  logged_in = true;
  user_id = [];
  email = [];
  access_token = codes "new";
  refresh_token = [];
}

got_token : session_in new_token.body ≡ some token_only
unfolding session_in json_extract_string find_value_pos skip_blanks string_at copy_string
got_token = refl
