-- ===== src/Cloud/Examples.antt =====
-- The theorems on the dashboard's requests at small servers.
use just_in_time.Prelude.{
  ◌≡◌, refl, false, none, some, Option, List, [], ◌∷◌, arith, Bytes, codes, pos, bytes_eq,
  if◌then◌else◌,
}
use just_in_time.Auth.{Answer}
use just_in_time.Backup.{sort_names, insert_name, name_le}
use just_in_time.Cloud.{
  Value, null, text, object, no_fields, field, ok, json_error, url_encode, find_field,
  logout_result,
}
use just_in_time.Cloud.Encode.{percent_decode, percent_decode-url_encode}
use just_in_time.Cloud.Rows.{
  DailyTotal, distinct_devices, add_new, collect_devices, each, recent_log,
}
use just_in_time.Cloud.Client.{Server, request, find_user_request, invite_child}
use just_in_time.Cloud.Invite.{IsChecked, invite_child-IsChecked}

percent_decode-url_encode_example : percent_decode (url_encode (codes "a b/é")) ≡ codes "a b/é"
percent_decode-url_encode_example = percent_decode-url_encode (codes "a b/é") (omega arith)

encoded : url_encode (codes "a b/~") ≡ codes "a%20b%2F~"
unfolding url_encode
encoded = refl

-- A server that gives its answers in turn, and a library whose texts are a number for each value.
abbrev script : List (Option Answer) → Option Answer × List (Option Answer)
script [] = (none, [])
script (a ∷ rest) = (a, rest)

-- It reads one text only: the id of an account.
abbrev read_id : Bytes → Option Value
read_id s = if bytes_eq s (codes "\"u1\"") then some (text (codes "u1")) else none

abbrev scripted : Server (List (Option Answer))
scripted = record {
  lib = record { parse = read_id; dump = λ v. codes "\"u1\""; what = λ s. [] };
  send = λ r n. script n;
}

abbrev found : Option Answer
found = some (record { status = 200; body = codes "\"u1\"" })

abbrev crashed : Option Answer
crashed = some (record { status = 500; body = codes "error 4091" })

invite_child-IsChecked_example :
    IsChecked scripted
      (request scripted (find_user_request (codes "a@b")) false (found ∷ crashed ∷ []))
      (invite_child scripted (codes "a@b") (found ∷ crashed ∷ []))
invite_child-IsChecked_example =
    invite_child-IsChecked scripted (codes "a@b") (found ∷ crashed ∷ [])

abbrev totals : List DailyTotal
totals =
    record { device_id = codes "PC-2"; process_name = []; day = []; total_seconds = pos 1 }
    ∷ record { device_id = codes "PC-1"; process_name = []; day = []; total_seconds = pos 2 }
    ∷ record { device_id = codes "PC-2"; process_name = []; day = []; total_seconds = pos 3 }
    ∷ []

two_devices : distinct_devices totals ≡ codes "PC-1" ∷ codes "PC-2" ∷ []
unfolding distinct_devices collect_devices add_new sort_names insert_name name_le
two_devices = refl

-- A column that is null makes the whole answer fail.
null_title :
    each recent_log (object (field (codes "window_title") null no_fields) ∷ []) ≡ json_error
unfolding each recent_log find_field
null_title = refl

expired : logout_result scripted.lib (some (record { status = 401; body = [] })) ≡ ok tt
unfolding logout_result
expired = refl
