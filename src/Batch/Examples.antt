-- ===== src/Batch/Examples.antt =====
-- The theorems of batchsend.h at a batch of six records, the fourth of which the server refuses.
use just_in_time.Prelude.{
  ℕ, ◌+◌, ◌*◌, ◌≤◌, ◌<◌, ◌≡◌, ◌≢◌, refl, inr, Bool, some, ◌==◌, length, arith,
}
use just_in_time.Batch.{SendOutcome, BatchReport, send_with_bisect}
use just_in_time.Batch.Partition.{Shares, send_with_bisect-Shares}
use just_in_time.Batch.Verdict.{verdict, bad_below, Isolates, send_with_bisect-Isolates}
use just_in_time.Batch.Budget.{IsFinished, send_with_bisect-IsFinished}
use just_in_time.Batch.Progress.{send_with_bisect_progress}

abbrev is_fourth : ℕ → Bool
is_fourth i = i == 3

-- The state of the callback counts the requests.
abbrev server : ℕ → ℕ → ℕ → SendOutcome × ℕ
server lo hi n = (verdict is_fourth lo hi, n + 1)

send_with_bisect-Shares_example :
    (res : BatchReport × ℕ) × (send_with_bisect 20 server 6 0 ≡ some res)
    × Shares 6 res.0
    × (res.0.requests ≤ 20)
send_with_bisect-Shares_example = send_with_bisect-Shares 20 server 6 0

send_with_bisect-Isolates_example :
    (res : BatchReport × ℕ) × (send_with_bisect 20 server 6 0 ≡ some res)
    × Isolates is_fourth 6 res.0
send_with_bisect-Isolates_example =
    send_with_bisect-Isolates is_fourth 20 server 6 0 (λ lo hi s. inr refl)

send_with_bisect-IsFinished_example :
    (res : BatchReport × ℕ) × (send_with_bisect 20 server 6 0 ≡ some res)
    × IsFinished is_fourth 6 (1 + 2 * (3 * length (bad_below is_fourth 6))) res.0
send_with_bisect-IsFinished_example =
    send_with_bisect-IsFinished is_fourth 20 server 6 3 0 (omega arith) (omega arith)
      (λ lo hi s. refl)

answers : (lo hi : ℕ) → verdict is_fourth lo hi ≢ SendOutcome.transport_error
answers lo hi = ground arith

send_with_bisect_progress_example :
    (res : BatchReport × ℕ) × (send_with_bisect 4 server 6 0 ≡ some res)
    × (0 < length res.0.accepted + length res.0.rejected)
send_with_bisect_progress_example =
    send_with_bisect_progress 4 server 6 3 0 (omega arith) (omega arith) (omega arith)
      (λ lo hi s. answers lo hi)
