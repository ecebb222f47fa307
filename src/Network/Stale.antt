-- ===== src/Network/Stale.antt =====
-- When several threads meet a 401, and what a server in trouble does to the session.
use just_in_time.Prelude.{
  ℕ, ◌<◌, ◌≡◌, refl, Bool, true, false, not, Option, some, arith, Bytes, bytes_eq, ◌==◌,
  if◌then◌else◌, length,
}
use just_in_time.Auth.{
  Session, Answer, Auth, Dpapi, no_session, is_success, auth_logout, finish_refresh,
  auth_refresh_session,
}
use just_in_time.Auth.Refresh.{
  IsAlive, Ends, unanswered, tokenless, renewed, signed_out, refresh_session-Ends,
}
use just_in_time.Network.{Web, Client, is_transient_status, restclient_refresh_if_stale}

-- A status that network.cpp holds for a passing trouble of the server, and against no record, ends
-- the session when it answers a refresh: the user has to log in again.
pub refresh_overloaded :
    (dpapi : Dpapi) (written deleted : Bool) (r : Answer) (a : Auth)
    → is_transient_status r.status ≡ true
    → 0 < length a.session.refresh_token
    → (auth_refresh_session dpapi written deleted (some r) a).0.session ≡ no_session
unfolding auth_refresh_session finish_refresh auth_logout is_transient_status
refresh_overloaded dpapi written deleted r a transient some_token =
    let more : (length a.session.refresh_token == 0) ≡ false = ground arith in
    let bad : is_success r.status ≡ false = ground arith in simp (more, bad) refl

Ends-logged_in :
    (before : Session) (answer : Option Answer) (after : Auth × ℕ)
    → Ends before answer after
    → after.1 ≡ 1
    → after.0.session.logged_in ≡ true
Ends-logged_in before answer after (unanswered e same zero) ok = absurd (omega arith)
Ends-logged_in before answer after (tokenless r e good no_token same zero) ok = absurd (omega arith)
Ends-logged_in before answer after (renewed r s e good token h access one) ok = h.0
Ends-logged_in before answer after (signed_out r e bad gone zero) ok = absurd (omega arith)

module _ {N : Type 0} (web : Web N) where
  stale-logged_in :
      (used : Bytes) (c : Client N)
      → IsAlive c.auth.session
      → (restclient_refresh_if_stale web used c).1 ≡ 1
      → (restclient_refresh_if_stale web used c).0.auth.session.logged_in ≡ true
  unfolding restclient_refresh_if_stale
  stale-logged_in used c h =
      let (answer, n) = web.refresh c.auth.session.refresh_token c.net in
      go (not c.auth.session.logged_in) _ (length c.auth.session.refresh_token == 0) _ (
        Ends-logged_in c.auth.session answer _
          (refresh_session-Ends web.dpapi (web.written n) (web.deleted n) answer c.auth h))
    where
      go :
          (a b d : Bool) (r : Auth × ℕ)
          → (r.1 ≡ 1 → r.0.session.logged_in ≡ true)
          → let x =
              if◌then◌else◌ {A = Client N × ℕ} a
                (c, 0)
                (if◌then◌else◌ {A = Client N × ℕ} b
                  (c, 1)
                  (if◌then◌else◌ {A = Client N × ℕ} d
                    (c, 0)
                    (
                      record {
                        auth = r.0;
                        net = (web.refresh c.auth.session.refresh_token c.net).1;
                      },
                      r.1,
                    ))) in
            x.1 ≡ 1 → x.0.auth.session.logged_in ≡ true
      go true b d r logged ok = absurd (omega arith)
      go false true d r logged ok = h.0
      go false false true r logged ok = absurd (omega arith)
      go false false false r logged ok = logged ok

  stale_skips :
      (used : Bytes) (c : Client N)
      → c.auth.session.logged_in ≡ true
      → 0 < length used
      → bytes_eq c.auth.session.access_token used ≡ false
      → restclient_refresh_if_stale web used c ≡ (c, 1)
  unfolding restclient_refresh_if_stale
  stale_skips used c logged some_token changed =
      let more : (length used == 0) ≡ false = ground arith in simp (logged, more, changed) refl

  -- Threads that got a 401 with one token make one refresh in all: after it has brought another
  -- token, the next thread that comes with the old one goes on at once and changes nothing.
  pub refresh_once :
      (used : Bytes) (c : Client N)
      → IsAlive c.auth.session
      → 0 < length used
      → (restclient_refresh_if_stale web used c).1 ≡ 1
      → bytes_eq (restclient_refresh_if_stale web used c).0.auth.session.access_token used ≡ false
      → let c' = (restclient_refresh_if_stale web used c).0 in
        restclient_refresh_if_stale web used c' ≡ (c', 1)
  refresh_once used c h some_token ok changed =
      stale_skips used (restclient_refresh_if_stale web used c).0 (stale-logged_in used c h ok)
        some_token changed
