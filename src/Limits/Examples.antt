-- ===== src/Limits/Examples.antt =====
-- The theorems on limits.cache at the limits of a child with a blocked app and a timed one.
use just_in_time.Prelude.{
  ◌≡◌, refl, true, false, none, some, [], ◌∷◌, map, arith, codes, bytes_eq, ℤ, take, if◌then◌else◌,
  strtol, after_blanks, digits_value,
}
use just_in_time.Json.{
  collect, json_array_next, object_at, scan_object, skip_separators, json_extract_long,
  json_extract_string, json_extract_bool, find_value_pos, skip_blanks, long_at, string_at,
  copy_string, bool_at,
}
use just_in_time.Auth.{Session, Answer}
use just_in_time.Limits.{
  AppLimit, Cache, max_limits, fetch_limits, parse_limits_response, parse_limit,
  applimits_refresh_my_limits,
}
use just_in_time.Limits.File.{Fits, without_id}
use just_in_time.Limits.Offline.{limits_after_restart, limits_survive}

abbrev game : AppLimit
game = record {
  id = ℤ.pos 7;
  process_name = codes "game.exe";
  daily_limit_sec = ℤ.pos 3600;
  blocked = false;
}

abbrev chat : AppLimit
chat = record {
  id = ℤ.pos 8;
  process_name = codes "chat.exe";
  daily_limit_sec = ℤ.negsuc 0;
  blocked = true;
}

game-Fits : Fits game
game-Fits = record {
  named = λ e. cc;
  short = omega arith;
  no_tab = omega arith;
  no_end = omega arith;
  no_return = omega arith;
  no_user = λ rest. refl;
  small = omega arith;
}

chat-Fits : Fits chat
chat-Fits = record {
  named = λ e. cc;
  short = omega arith;
  no_tab = omega arith;
  no_end = omega arith;
  no_return = omega arith;
  no_user = λ rest. refl;
  small = omega arith;
}

abbrev child : Session
child = record {
  logged_in = true;
  user_id = codes "u1";
  email = [];
  access_token = codes "token";
  refresh_token = codes "r1";
}

abbrev answer : Answer
answer = record {
  status = 200;
  body =
      codes "[{\"id\":7,\"process_name\":\"game.exe\",\"daily_limit_sec\":3600,\"blocked\":false}]";
}

abbrev overloaded : Answer
overloaded = record { status = 503; body = [] }

abbrev fresh : Cache
fresh = record { limits = []; user_id = []; loaded = false; file = none }

got_game : fetch_limits child (some answer) (codes "u1") max_limits ≡ some (game ∷ [])
unfolding fetch_limits parse_limits_response parse_limit collect json_array_next object_at
    scan_object skip_separators json_extract_long json_extract_string json_extract_bool
    find_value_pos skip_blanks long_at string_at copy_string bool_at strtol after_blanks
    digits_value
got_game = refl

no_answer : fetch_limits child (some overloaded) (codes "u1") max_limits ≡ none
unfolding fetch_limits
no_answer = refl

limits_survive_example :
    limits_after_restart child 64
      (applimits_refresh_my_limits child
        (some overloaded)
        true
        (applimits_refresh_my_limits child (some answer) true fresh).0).0
    ≡ (if bytes_eq child.user_id child.user_id then take 64 (map without_id (game ∷ [])) else [])
limits_survive_example =
    limits_survive child child (some answer) (some overloaded) (game ∷ []) 64 fresh refl got_game
      no_answer (omega arith) (omega arith) (game-Fits, tt) (omega arith) (λ h. cc) refl
      (omega arith)
