-- ===== src/RemoteView/Examples.antt =====
-- The theorems on the remote view at a small server.
use just_in_time.Prelude.{
  ◌≡◌, refl, true, false, not, ◌&&◌, some, arith, codes, pos, length, bytes_eq, ◌==◌, if◌then◌else◌,
}
use just_in_time.Db.{Convert}
use just_in_time.Activity.{initial, no_record}
use just_in_time.Settings.{AppSettings, set_defaults}
use just_in_time.RemoteView.{
  Shown, Starting, unauthorized, ok_response, is_enabled, status_body, handle_client,
  remoteview_start, remoteview_stop, remoteview_restart,
}
use just_in_time.RemoteView.Gate.{status_request, status_needs_token}
use just_in_time.RemoteView.Lifecycle.{Reach, here, next, Step, at_rest, stop_cleans_up}

abbrev our_settings : AppSettings
our_settings = record set_defaults { remote_view_enabled = pos 1; remote_view_token = codes "5f" }

abbrev plain : Convert
plain = record { to_utf8 = λ s. s; to_wide = λ s. s }

abbrev shown : Shown
shown = record {
  tracker = record initial {
    current_record = record no_record { process_name = codes "co\"de"; start_time = 7 };
  };
  summary = codes "none";
  convert = plain;
}

status_needs_token_example :
    handle_client our_settings shown (some (status_request (codes "5f") (codes "HTTP/1.1")))
    ≡ some (
        if is_enabled our_settings
          && (not (length (codes "5f") == 0) && bytes_eq (codes "5f") (codes "5f"))
        then ok_response (status_body shown)
        else unauthorized)
status_needs_token_example =
    status_needs_token our_settings shown (codes "5f") (codes "HTTP/1.1") (refl, (refl, tt))
      (omega arith) (omega arith)

abbrev all_well : Starting
all_well = record {
  starts_up = true;
  gets_socket = true;
  binds = true;
  listens = true;
  creates_thread = true;
}

restarted_once :
    Reach
      (remoteview_restart our_settings all_well true
        (remoteview_start our_settings all_well at_rest).0).0
restarted_once =
    next (next here (Step.start our_settings all_well refl))
      (Step.restart our_settings all_well true)

stop_cleans_up_example :
    let r =
      (remoteview_restart our_settings all_well true
        (remoteview_start our_settings all_well at_rest).0).0 in
    ((remoteview_stop false r).listening ≡ false)
    × ((remoteview_stop false r).has_thread ≡ false)
    × ((remoteview_stop false r).startups ≡ 0)
stop_cleans_up_example =
    stop_cleans_up
      (remoteview_restart our_settings all_well true
        (remoteview_start our_settings all_well at_rest).0).0
      false restarted_once

-- A client that keeps its connection open lets the old thread live on beside the new one.
two_threads :
    (remoteview_restart our_settings all_well false
      (remoteview_start our_settings all_well at_rest).0).0.accepting
    ≡ 2
unfolding remoteview_restart remoteview_start remoteview_stop
two_threads = refl
