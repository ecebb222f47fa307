-- ===== src/Network/Send.antt =====
-- What the result of `network_send_batch` says about the server.
use just_in_time.Prelude.{
  ℕ, ◌+◌, ◌<◌, ◌≡◌, ◌≢◌, refl, sym, ap, ◌∙◌, inl, inr, true, false, Option, none, some, List, arith,
  Bytes, ◌==◌, Bool-cases, length,
}
use just_in_time.Db.{SyncRecord}
use just_in_time.Batch.{SendOutcome}
use just_in_time.Sync.{SendResult, outcome_of}
use just_in_time.Auth.{Answer, Auth, is_success}
use just_in_time.Network.{
  Web, Client, not_now, is_transient_status, result_of, is_unauthorized, attempt, send_attempt,
  build_body, network_send_batch, restclient_refresh_if_stale,
}

-- An answer that lets a record off, and one that is held against it.
abbrev pub Accepts : Answer → Type 0
Accepts r = is_success r.status ≡ true

abbrev pub Refuses : Answer → Type 0
Refuses r = (is_success r.status ≡ false) × (is_transient_status r.status ≡ false)

-- The refresh behind a first request with the token that this request had.
abbrev pub renewal : {N : Type 0} → Web N → Bytes → Client N → Client N × ℕ
renewal web body c =
    restclient_refresh_if_stale web c.auth.session.access_token (attempt web body c).1

-- The answer that decides for a client that starts with `c`: the first one, if it is not 401, or the
-- second, if the first was 401 and the refresh of the token between the two did not fail.
pub data Final {N : Type 0} (web : Web N) (body : Bytes) (c : Client N) (r : Answer) : Type 0 where
  at_once : (attempt web body c).0 ≡ some r → r.status ≢ 401 → Final web body c r
  on_retry :
      (r' : Answer)
      → (attempt web body c).0 ≡ some r'
      → r'.status ≡ 401
      → (renewal web body c).1 ≢ 0
      → (attempt web body (renewal web body c).0).0 ≡ some r
      → Final web body c r

-- The result stands for an answer to a request that was made with this body.
pub record Justified {N : Type 0} (web : Web N) (body : Bytes) (c : Client N) (result : SendResult)
    : Type 0 where
  pub on_sent : result.sent ≡ true → (r : Answer) × Final web body c r × Accepts r
  pub on_refused :
      outcome_of result ≡ SendOutcome.rejected → (r : Answer) × Final web body c r × Refuses r

module _ {N : Type 0} (web : Web N) where
  result_of-Justified :
      (body : Bytes) (c : Client N) (answer : Option Answer)
      → ((r : Answer) → answer ≡ some r → Final web body c r)
      → Justified web body c (result_of answer)
  unfolding result_of
  result_of-Justified body c none f = record { on_sent = λ h. cc; on_refused = λ h. cc }
  result_of-Justified body c (some r) f = elim (Bool-cases (is_success r.status)) [
    | inl ok ↦ simp ok (record { on_sent = λ _. (r, f r refl, ok); on_refused = λ h. cc })
    | inr bad ↦ elim (Bool-cases (is_transient_status r.status)) [
      | inl transient ↦ simp (bad, transient) (record { on_sent = λ h. cc; on_refused = λ h. cc })
      | inr refusal ↦
          simp (bad, refusal)
            (record { on_sent = λ h. cc; on_refused = λ _. (r, f r refl, (bad, refusal)) })
    ]
  ]

  not_now-Justified : (body : Bytes) (c : Client N) → Justified web body c not_now
  not_now-Justified body c = record { on_sent = λ h. cc; on_refused = λ h. cc }

  unauthorized_lem :
      (answer : Option Answer)
      → is_unauthorized answer ≡ true
      → (r : Answer) × (answer ≡ some r) × (r.status ≡ 401)
  unauthorized_lem none h = cc
  unauthorized_lem (some r) h = (r, refl, ground arith)

  authorized_lem :
      (answer : Option Answer) (r : Answer)
      → is_unauthorized answer ≡ false
      → answer ≡ some r
      → r.status ≢ 401
  authorized_lem answer r h e =
      let known : (r.status == 401) ≡ false = sym (ap is_unauthorized e) ∙ h in ground arith

  send_attempt-Justified :
      (body : Bytes) (c : Client N) → Justified web body c (send_attempt web 1 body c).0
  unfolding send_attempt
  send_attempt-Justified body c =
      let (answer, c') = attempt web body c in
      let (c'', ok) = restclient_refresh_if_stale web c.auth.session.access_token c' in
      elim (Bool-cases (is_unauthorized answer)) [
        | inl retry ↦ elim (Bool-cases (ok == 0)) [
          | inl failed ↦ simp (retry, failed) (not_now-Justified body c)
          | inr again ↦
              let (r', e, is_401) = unauthorized_lem answer retry in
              simp (retry, again)
                (result_of-Justified body c (attempt web body c'').0
                  (λ r e'. on_retry r' e is_401 (ground arith) e'))
        ]
        | inr final ↦
            simp final (
              result_of-Justified body c answer
                (λ r e. at_once e (authorized_lem answer r final e)))
      ]

  -- With records to send, a batch counts as sent only if the deciding answer has a status of 200 to
  -- 299, and as refused only if the deciding answer has another status that is none of the passing
  -- troubles (408, 429, 502, 503, 504). The deciding answer is that to a request that held exactly
  -- these records: the first answer, if it is not 401, or else the second, and then only if the
  -- refresh of the token in between did not fail. So no lost connection, failed refresh or missing
  -- login is held against a record.
  pub send_batch-Justified :
      (records : List SyncRecord) (c : Client N)
      → 0 < length records
      → Justified web (build_body web.narrow records) c (network_send_batch web records c).0
  unfolding network_send_batch
  send_batch-Justified records c many =
      let some_records : (length records == 0) ≡ false = ground arith in
      elim (Bool-cases c.auth.session.logged_in) [
        | inl logged ↦
            simp (some_records, logged) (send_attempt-Justified (build_body web.narrow records) c)
        | inr nobody ↦
            simp (some_records, nobody) (not_now-Justified (build_body web.narrow records) c)
      ]

-- What each call outside costs: a request counts 1, and a refresh does not.
abbrev pub Counts : {N : Type 0} → Web N → (N → ℕ) → (N → ℕ) → Type 0
Counts {N = N} web requests refreshes =
    ((token body : Bytes) (n : N)
      → (requests (web.request token body n).1 ≡ requests n + 1)
        × (refreshes (web.request token body n).1 ≡ refreshes n))
    × ((token : Bytes) (n : N)
        → (requests (web.refresh token n).1 ≡ requests n)
          × (refreshes (web.refresh token n).1 ≡ refreshes n + 1))
