-- ===== src/Auth/File.antt =====
-- A session survives a restart of the agent.
use just_in_time.Prelude.{
  ℕ, ◌≤◌, ◌<◌, ◌≡◌, refl, sym, ap, ◌∙◌, true, false, not, Option, some, [], ◌∷◌, ◌++◌, arith, Bytes,
  lines, lines-line, Lacks, length, length-append, take_all, keep, ◌==◌,
}
use just_in_time.Auth.{
  Session, Dpapi, print_session, save_session_to_disk, tokens, read_session, load_session_from_disk,
  auth_load_session,
}

-- A field that is not empty (strtok would skip its line) and fits its line and its buffer.
abbrev pub IsField : ℕ → Bytes → Type 0
IsField size s = (0 < length s) × (length s < size) × Lacks 10 s

pub record IsComplete (s : Session) : Type 0 where
  pub logged_in : s.logged_in ≡ true
  pub user_id : IsField 64 s.user_id
  pub email : IsField 256 s.email
  pub access_token : IsField 4096 s.access_token
  pub refresh_token : IsField 512 s.refresh_token

-- DPAPI gives back what it protected, and never an empty text for it.
abbrev pub Restores : Dpapi → Type 0
Restores dpapi =
    (text : Bytes)
    → (sealed : Bytes) × (dpapi.protect text ≡ some sealed)
      × (0 < length sealed)
      × (dpapi.unprotect sealed ≡ some text)

tokens-line :
    (l rest : Bytes) → 0 < length l → Lacks 10 l → tokens (l ++ 10 ∷ rest) ≡ l ∷ tokens rest
tokens-line l rest some_text lacks =
    let more : (length l == 0) ≡ false = ground arith in
    ap (keep (λ t. not (length t == 0))) (lines-line l rest lacks) ∙ rw more

print_session-short : (s : Session) → IsComplete s → length (print_session s) ≤ 8191
unfolding print_session
print_session-short s c =
    let refresh = s.refresh_token ++ 10 ∷ [] in
    let access = s.access_token ++ 10 ∷ refresh in
    let email = s.email ++ 10 ∷ access in
    omega (
      arith,
      length-append s.user_id (10 ∷ email),
      length-append s.email (10 ∷ access),
      length-append s.access_token (10 ∷ refresh),
      length-append s.refresh_token (10 ∷ []),
      c.user_id.1,
      c.email.1,
      c.access_token.1,
      c.refresh_token.1,
    )

tokens-print_session :
    (s : Session)
    → IsComplete s
    → tokens (print_session s) ≡ s.user_id ∷ s.email ∷ s.access_token ∷ s.refresh_token ∷ []
unfolding print_session
tokens-print_session s c =
    let none_left : tokens [] ≡ [] = unfold lines in refl in
    tokens-line s.user_id _ c.user_id.0 c.user_id.2
    ∙ ap (λ l. s.user_id ∷ l)
        (tokens-line s.email _ c.email.0 c.email.2
          ∙ ap (λ l. s.email ∷ l)
              (tokens-line s.access_token _ c.access_token.0 c.access_token.2
                ∙ ap (λ l. s.access_token ∷ l)
                    (tokens-line s.refresh_token [] c.refresh_token.0 c.refresh_token.2
                      ∙ ap (λ l. s.refresh_token ∷ l) none_left)))

read-print_session : (s : Session) → IsComplete s → read_session (tokens (print_session s)) ≡ some s
unfolding read_session
read-print_session s c =
    ap read_session (tokens-print_session s c)
    ∙ rw (take_all 63 s.user_id (omega (arith, c.user_id.1))) (
        rw (take_all 255 s.email (omega (arith, c.email.1))) (
          rw (take_all 4095 s.access_token (omega (arith, c.access_token.1))) (
            rw (take_all 511 s.refresh_token (omega (arith, c.refresh_token.1)))
              (ap (λ b. some (record s { logged_in = b })) (sym c.logged_in)))))

load-sealed :
    (dpapi : Dpapi) (sealed text : Bytes)
    → 0 < length sealed
    → dpapi.unprotect sealed ≡ some text
    → length text ≤ 8191
    → load_session_from_disk dpapi (some sealed) ≡ read_session (tokens text)
unfolding load_session_from_disk
load-sealed dpapi sealed text some_bytes opened short =
    let more : (length sealed == 0) ≡ false = ground arith in
    rw more (
      rw (opened, load_session_from_disk)
        (ap (λ t. read_session (tokens t)) (take_all 8191 text short)))

-- If DPAPI restores what it protects and the file is written, a session that is logged in, with four
-- fields that are not empty, fit their buffers and hold no line end, is read back whole by the next
-- start, with result 1.
pub load-save_session :
    (dpapi : Dpapi) (s : Session) (before : Option Bytes) (started : Session)
    → Restores dpapi
    → IsComplete s
    → auth_load_session dpapi
        (record { session = started; file = save_session_to_disk dpapi true s before })
      ≡ (record { session = s; file = save_session_to_disk dpapi true s before }, 1)
unfolding auth_load_session save_session_to_disk
load-save_session dpapi s before started restores c =
    let (sealed, protected, some_bytes, opened) = restores (print_session s) in
    let back =
      load-sealed dpapi sealed (print_session s) some_bytes opened (print_session-short s c)
      ∙ read-print_session s c in
    rw (protected, save_session_to_disk) (rw back)
