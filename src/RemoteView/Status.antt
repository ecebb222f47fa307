-- ===== src/RemoteView/Status.antt =====
-- The agent's own reader of JSON finds the open app in the status.
use just_in_time.Prelude.{ℕ, ◌-◌, ◌<◌, ◌≡◌, refl, some, codes, All, take}
use just_in_time.Json.{json_extract_string}
use just_in_time.Json.Escape.{IsPrintable}
use just_in_time.Json.Extract.{extract_string-escape}
use just_in_time.Activity.{activity_get_current}
use just_in_time.RemoteView.{Shown, status_body}

-- From the status, `json_extract_string` gets the name of the open record's process, cut to the
-- caller's buffer, if the name has no control character; quotes and backslashes do it no harm.
pub extract-status_body :
    (k : Shown) (size : ℕ)
    → 0 < size
    → All IsPrintable (k.convert.to_utf8 k.tracker.current_record.process_name)
    → json_extract_string (status_body k) (codes "process_name") size
      ≡ some (take (size - 1) (k.convert.to_utf8 k.tracker.current_record.process_name))
unfolding status_body activity_get_current
extract-status_body k size room printable =
    extract_string-escape (codes "{") (codes "process_name")
      (k.convert.to_utf8 k.tracker.current_record.process_name) _ size (refl, tt) printable room
