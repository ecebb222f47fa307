-- ===== src/Batch.antt =====
-- includes/agent/agent/batchsend.h: sending a batch with bisection around refused records.
-- `int` counts and budgets are natural numbers here: a negative one takes the same branches as 0.
mod Loop
pub mod Partition
pub mod Verdict
pub mod Budget
pub mod Progress
mod Examples
use just_in_time.Prelude.{
  ℕ, zero, suc, ◌+◌, ◌-◌, ◌/◌, Bool, true, false, Option, none, some, List, [], ◌∷◌, ◌++◌, leb, ltb,
  ◌==◌, if◌then◌else◌, range_from,
}

pub data SendOutcome : Type 0 where
  accepted rejected transport_error : SendOutcome

pub record BatchReport : Type 0 where
  pub accepted : List ℕ
  pub rejected : List ℕ
  pub aborted : Bool
  pub requests : ℕ

-- The records [lo, hi).
pub record Range : Type 0 where
  pub lo : ℕ
  pub hi : ℕ

abbrev pub empty_report : BatchReport
empty_report = record { accepted = []; rejected = []; aborted = false; requests = 0 }

abbrev pub mid : Range → ℕ
mid r = r.lo + (r.hi - r.lo) / 2

-- How a round of the loop ends: by `break`, or with the new stack and report.
pub data Next : Type 0 where
  stop : BatchReport → Next
  again : List Range → BatchReport → Next

-- The branches on the outcome, after `report.requests++`.
unfoldable pub settle : SendOutcome → Range → List Range → BatchReport → Next
settle SendOutcome.accepted r pending rep =
    again pending (record rep { accepted = rep.accepted ++ range_from r.lo (r.hi - r.lo) })
settle SendOutcome.transport_error r pending rep = stop (record rep { aborted = true })
settle SendOutcome.rejected r pending rep =
    if r.hi - r.lo == 1
    then again pending (record rep { rejected = rep.rejected ++ r.lo ∷ [] })
    else again (record { lo = r.lo; hi = mid r } ∷ record { lo = mid r; hi = r.hi } ∷ pending) rep

-- The next round, or the end of the loop.
unfoldable pub resume {ℓ} :
    {S : Type ℓ}
    → (List Range → BatchReport → S → Option (BatchReport × S))
    → Next
    → S
    → Option (BatchReport × S)
resume continue (stop rep) s = some (rep, s)
resume continue (again pending rep) s = continue pending rep s

-- The state `S` is whatever the callback `send` reads and changes.
module _ {ℓ} {S : Type ℓ} (max_requests : ℕ) (send : ℕ → ℕ → S → SendOutcome × S) where
  -- `while (!pending.empty())` on fuel; `none` means that the fuel ran out.
  unfoldable pub loop : ℕ → List Range → BatchReport → S → Option (BatchReport × S)
  loop zero pending rep s = none
  loop (suc fuel) [] rep s = some (rep, s)
  loop (suc fuel) (r ∷ pending) rep s =
      if leb max_requests rep.requests
      then some (record rep { aborted = true }, s)
      else let (outcome, s') = send r.lo r.hi s in
        resume (loop fuel) (settle outcome r pending (record rep { requests = rep.requests + 1 }))
          s'

  -- A round without `break` spends one request, so this fuel is enough.
  unfoldable pub send_with_bisect : ℕ → S → Option (BatchReport × S)
  unfolding loop
  send_with_bisect n s =
      loop (max_requests + 2) (if ltb 0 n then record { lo = 0; hi = n } ∷ [] else []) empty_report
        s
