-- ===== src/Dashboard/Session.antt =====
-- The dashboard's session survives a restart.
use just_in_time.Prelude.{
  ℕ, ◌≡◌, refl, sym, ap, ◌∙◌, true, Option, some, [], ◌∷◌, ◌++◌, Bytes, arith, Lacks,
}
use just_in_time.Auth.{Dpapi}
use just_in_time.Dashboard.{
  DashSession, session_text, save_dash_session, pieces, session_of, parse_session,
  load_dash_session,
}

pieces-line : (l rest : Bytes) → Lacks 10 l → pieces (l ++ 10 ∷ rest) ≡ l ∷ pieces rest
unfolding pieces
pieces-line [] rest h = refl
pieces-line (c ∷ l) rest h = ground (arith, pieces-line l rest h.1)

-- No field has a line end in it.
abbrev pub IsPlain : DashSession → Type 0
IsPlain s =
    Lacks 10 s.user_id × Lacks 10 s.email × Lacks 10 s.access_token × Lacks 10 s.refresh_token

session_of-text : (s : DashSession) → IsPlain s → session_of (pieces (session_text s)) ≡ some s
session_of-text s (user, mail, access, refresh) =
    rw
      (
        pieces-line s.user_id _ user,
        pieces-line s.email _ mail,
        pieces-line s.access_token _ access,
        pieces-line s.refresh_token _ refresh,
      )
      refl

-- DPAPI protects this text as one that is not empty, and opens it again.
abbrev pub Seals : Dpapi → Bytes → Type 0
Seals dpapi s =
    (c : ℕ) × (enc : Bytes) × (dpapi.protect s ≡ some (c ∷ enc))
    × (dpapi.unprotect (c ∷ enc) ≡ some s)

nonempty : (l r : Bytes) → (c : ℕ) × (s : Bytes) × (l ++ 10 ∷ r ≡ c ∷ s)
nonempty [] r = (10, r, refl)
nonempty (c ∷ l) r = (c, l ++ 10 ∷ r, refl)

parse_session-text : (s : DashSession) → IsPlain s → parse_session (session_text s) ≡ some s
parse_session-text s h =
    let (c, rest, e) = nonempty s.user_id _ in
    ap parse_session e ∙ ap (λ t. session_of (pieces t)) (sym e) ∙ session_of-text s h

-- If DPAPI opens what it sealed and the file can be written, saving a session whose fields have no
-- line end succeeds, and loading it gives the session back.
pub load-save_dash_session :
    (dpapi : Dpapi) (s : DashSession) (file : Option Bytes)
    → IsPlain s
    → Seals dpapi (session_text s)
    → ((save_dash_session dpapi true s file).1 ≡ true)
      × (load_dash_session dpapi (save_dash_session dpapi true s file).0 ≡ some s)
unfolding save_dash_session load_dash_session
load-save_dash_session dpapi s file h (c, enc, protected, opened) =
    rw protected (refl, rw opened (parse_session-text s h))
