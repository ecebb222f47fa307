-- ===== src/Sync/Offline.antt =====
-- Without a connection nothing is punished: the database stays as it was.
use just_in_time.Prelude.{
  ℕ, ◌<◌, ◌≡◌, refl, ap, true, false, some, List, [], ℤ, arith, ltb, ◌==◌, ◌-◌, take, drop, length,
}
use just_in_time.Batch.{SendOutcome, BatchReport, resume, settle, send_with_bisect}
use just_in_time.Db.{Convert, SyncRecord}
use just_in_time.Sync.{
  Env, World, finish, outcome_of, send_range, fetch, sync_round, sync_rounds, sync_pending_records,
}

-- The report of a batch whose first request does not get through.
abbrev cut_off : BatchReport
cut_off = record { accepted = []; rejected = []; aborted = true; requests = 1 }

bisect_offline :
    {S : Type 0} (send : ℕ → ℕ → S → SendOutcome × S) (n : ℕ) (s : S)
    → 0 < n
    → ((lo hi : ℕ) (s' : S) → (send lo hi s').0 ≡ SendOutcome.transport_error)
    → send_with_bisect 20 send n s ≡ some (cut_off, (send 0 n s).1)
unfolding send_with_bisect resume settle
bisect_offline send n s many offline =
    let go : ltb 0 n ≡ true = ground arith in simp (go, offline 0 n s) refl

module _ {N : Type 0} (env : Env N) (c : Convert) where
  round_offline :
      (w : World N)
      → 0 < length (fetch env c w).0
      → ((records : List SyncRecord) (n : N)
          → (env.send_batch records n).0 ≡ record { sent = false; transport_error = true })
      → (n : N) × (sync_round env c w ≡ some (finish (ℤ.negsuc 0) (record w { net = n })))
  unfolding sync_round
  round_offline w many offline =
      let (records, n) = fetch env c w in
      let send = send_range env c records in
      let some_records : (length records == 0) ≡ false = ground arith in
      let cut =
        bisect_offline send (length records) n many
          (λ lo hi s'. ap outcome_of (offline (take (hi - lo) (drop lo records)) s')) in
      ((send 0 (length records) n).1, rw some_records (rw cut))

  -- If a logged-in device has records to send and no request gets through, the cycle returns
  -- -1 and leaves the database, retry counts and retry times included, as it was.
  pub sync_offline_unchanged :
      (w : World N)
      → env.logged_in w.net ≡ true
      → 0 < length (fetch env c w).0
      → ((records : List SyncRecord) (n : N)
          → (env.send_batch records n).0 ≡ record { sent = false; transport_error = true })
      → (n : N) × (sync_pending_records env c w ≡ some (ℤ.negsuc 0, record w { net = n }))
  unfolding sync_pending_records sync_rounds
  sync_offline_unchanged w logged many offline =
      let (n, runs) = round_offline w many offline in (n, simp logged (rw runs))
