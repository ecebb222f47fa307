-- ===== src/RemoteView/Gate.antt =====
-- Only the right token opens the server.
use just_in_time.Prelude.{
  ◌≤◌, ◌≡◌, refl, ◌==◌, if◌then◌else◌, Bool, true, false, not, ◌&&◌, none, some, [], ◌∷◌, ◌++◌,
  arith, Bytes, codes, All-append, Lacks, length, is_space, strstr, bytes_eq,
}
use just_in_time.Settings.{AppSettings}
use just_in_time.RemoteView.{
  Shown, unauthorized, ok_response, is_enabled, is_allowed, status_body, endpoint, handle_client,
  extract_token, scan_request,
}
use just_in_time.RemoteView.Request.{IsWord, Absent, Absent-path, scan-line, until_end-word}

-- A request of the page /status with a token, up to the blank behind its path, and the rest.
abbrev pub status_request : Bytes → Bytes → Bytes
status_request token rest = codes "GET " ++ ((codes "/status?token=" ++ token) ++ 32 ∷ rest)

token_there :
    (token : Bytes)
    → IsWord token
    → Lacks b'&' token
    → extract_token (codes "/status?token=" ++ token) ≡ token
unfolding extract_token
token_there token w h = until_end-word token w h

IsWord-start : IsWord (codes "/status?token=")
IsWord-start = (
  refl,
  (
    refl,
    (
      refl,
      (refl, (refl, (refl, (refl, (refl, (refl, (refl, (refl, (refl, (refl, (refl, tt))))))))))),
    ),
  ),
)

path-IsWord : (token : Bytes) → IsWord token → IsWord (codes "/status?token=" ++ token)
path-IsWord token w =
    All-append (λ c. is_space c ≡ false) (codes "/status?token=") token IsWord-start w

-- A request of /status with any token in it, a word without `&` that fits, is answered by the status
-- exactly if the server is enabled, has a token, and it is this one; else the answer is the fixed 401.
pub status_needs_token :
    (s : AppSettings) (k : Shown) (token rest : Bytes)
    → IsWord token
    → Lacks b'&' token
    → length token ≤ 490
    → handle_client s k (some (status_request token rest))
      ≡ some (
          if is_enabled s
            && (not (length s.remote_view_token == 0) && bytes_eq token s.remote_view_token)
          then ok_response (status_body k)
          else unauthorized)
unfolding handle_client is_allowed endpoint
status_needs_token s k token rest w h fits =
    let path = codes "/status?token=" ++ token in
    let short : length path ≤ 511 = omega arith in
    rw (scan-line path rest (path-IsWord token w) (omega arith) short)
      (rw (token_there token w h) refl)

never_empty :
    (a b : Bool) (token : Bytes)
    → (a && (b && (not (length token == 0) && bytes_eq [] token))) ≡ false
never_empty false b token = refl
never_empty true false token = refl
never_empty true true [] = refl
never_empty true true (c ∷ token) = ground arith

-- A request in which `token=` occurs nowhere is refused, whatever its method, its page and the
-- settings are, and nothing of the tracker's state is in the answer.
pub no_token_refused :
    (s : AppSettings) (k : Shown) (request : Bytes)
    → Absent (codes "token=") request
    → handle_client s k (some request) ≡ some unauthorized
unfolding handle_client
no_token_refused s k request h =
    let absent : strstr (scan_request request).1 (codes "token=") ≡ none =
      Absent-path (codes "token=") request refl h in
    let refused : is_allowed s (scan_request request).0 (scan_request request).1 ≡ false =
      unfold is_allowed extract_token in
      rw absent (never_empty _ (is_enabled s) s.remote_view_token) in
    rw refused refl
