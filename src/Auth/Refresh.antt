-- ===== src/Auth/Refresh.antt =====
-- What refreshing the token does to the session.
use just_in_time.Prelude.{
  ℕ, ◌<◌, ◌≡◌, refl, Bool, true, false, inl, inr, Option, none, some, [], ◌∷◌, arith, Bytes, ◌==◌,
  Bool-cases, Option-cases, length,
}
use just_in_time.Auth.{
  Session, Answer, Auth, Dpapi, is_success, session_in, no_session, or_old, merge_session,
  auth_logout, finish_refresh, auth_refresh_session,
}

-- A user who is logged in and does not have to log in again.
abbrev pub IsAlive : Session → Type 0
IsAlive s = (s.logged_in ≡ true) × (0 < length s.refresh_token) × (0 < length s.user_id)

or_old-nonempty : (s old : Bytes) → 0 < length old → 0 < length (or_old s old)
or_old-nonempty [] old h = h
or_old-nonempty (c ∷ s) old h = omega arith

merge-IsAlive : (s old : Session) → IsAlive old → IsAlive (merge_session s old)
unfolding merge_session
merge-IsAlive s old alive = (
  refl,
  or_old-nonempty s.refresh_token old.refresh_token alive.1,
  or_old-nonempty s.user_id old.user_id alive.2,
)

-- How a refresh of a living session ends, by the answer that came.
pub data Ends (before : Session) (answer : Option Answer) (after : Auth × ℕ) : Type 0 where
  unanswered : answer ≡ none → after.0.session ≡ before → after.1 ≡ 0 → Ends before answer after
  tokenless :
      (r : Answer)
      → answer ≡ some r
      → is_success r.status ≡ true
      → session_in r.body ≡ none
      → after.0.session ≡ before
      → after.1 ≡ 0
      → Ends before answer after
  renewed :
      (r : Answer) (s : Session)
      → answer ≡ some r
      → is_success r.status ≡ true
      → session_in r.body ≡ some s
      → IsAlive after.0.session
      → after.0.session.access_token ≡ s.access_token
      → after.1 ≡ 1
      → Ends before answer after
  signed_out :
      (r : Answer)
      → answer ≡ some r
      → is_success r.status ≡ false
      → after.0.session ≡ no_session
      → after.1 ≡ 0
      → Ends before answer after

finish-Ends :
    (dpapi : Dpapi) (written deleted : Bool) (answer : Option Answer) (a : Auth)
    → IsAlive a.session
    → Ends a.session answer (finish_refresh dpapi written deleted answer a)
unfolding finish_refresh auth_logout merge_session
finish-Ends dpapi written deleted none a h = unanswered refl refl refl
finish-Ends dpapi written deleted (some r) a h = elim (Bool-cases (is_success r.status)) [
  | inl ok ↦ elim (Option-cases (session_in r.body)) [
    | inl no_token ↦ simp (ok, no_token) (tokenless r refl ok no_token refl refl)
    | inr (s, token) ↦
        simp (ok, token) (renewed r s refl ok token (merge-IsAlive s a.session h) refl refl)
  ]
  | inr bad ↦ simp bad (signed_out r refl bad refl refl)
]

-- With a session that is logged in and whose refresh token and user id are not empty, the answer
-- decides how a refresh ends. Without an answer, or with one of status 200 to 299 that brings no
-- token, the session stays as it was and the result is 0. An answer of 200 to 299 with a token gives
-- result 1 and a session that is logged in with that token and still has a refresh token and a user
-- id. Any other status leaves nobody logged in, with result 0.
pub refresh_session-Ends :
    (dpapi : Dpapi) (written deleted : Bool) (answer : Option Answer) (a : Auth)
    → IsAlive a.session
    → Ends a.session answer (auth_refresh_session dpapi written deleted answer a)
unfolding auth_refresh_session
refresh_session-Ends dpapi written deleted answer a h =
    let some_token : (length a.session.refresh_token == 0) ≡ false = ground arith in
    rw some_token (finish-Ends dpapi written deleted answer a h)
