-- ===== src/Batch/Progress.antt =====
-- While the connection holds, a batch settles at least one record: no refusal blocks the queue.
use native.Mathlib.Nat.{pow-succ'}
use just_in_time.Prelude.{
  ℕ, zero, suc, ◌+◌, ◌^◌, ◌-◌, ◌/◌, ◌≤◌, ◌<◌, ◌≡◌, ◌≢◌, refl, ◌⊎◌, inl, inr, some, List, [], ◌∷◌,
  ◌++◌, arith, true, false, ltb, ◌==◌, ==_ne, Bool-cases, length, length-append, range_from,
  length-range_from,
}
use just_in_time.Batch.{
  SendOutcome, BatchReport, Range, mid, settle, send_with_bisect, empty_report,
}
use just_in_time.Batch.Loop.{Leaves, loop_rule}

abbrev pub settled : BatchReport → ℕ
settled rep = length rep.accepted + length rep.rejected

-- The first waiting range can still be halved to one record within k requests in all.
abbrev Front : ℕ → List Range → ℕ → Type 0
Front k [] spent = ⊥
Front k (r ∷ pending) spent =
    (depth : ℕ) × (r.lo < r.hi) × (r.hi - r.lo ≤ 2 ^ depth) × (depth + spent ≤ k)

abbrev Moves : ℕ → List Range → BatchReport → Type 0
Moves k pending rep = (0 < settled rep) ⊎ Front k pending rep.requests

pub halves-le :
    (m d : ℕ) → 2 ≤ m → m ≤ 2 ^ d → (e : ℕ) × (d ≡ suc e) × (m / 2 ≤ 2 ^ e) × (m - m / 2 ≤ 2 ^ e)
halves-le m zero two h = absurd (omega arith)
halves-le m (suc d) two h = (d, refl, omega (arith, pow-succ' 2 d), omega (arith, pow-succ' 2 d))

length-snoc : (xs : List ℕ) (x : ℕ) → length (xs ++ x ∷ []) ≡ length xs + 1
length-snoc xs x = length-append xs (x ∷ [])

Moves-accepted :
    (k : ℕ) (r : Range) (pending : List Range) (rep : BatchReport)
    → Moves k (r ∷ pending) rep
    → 0 < length (rep.accepted ++ range_from r.lo (r.hi - r.lo)) + length rep.rejected
Moves-accepted k r pending rep (inl h) =
    omega (arith, length-append rep.accepted (range_from r.lo (r.hi - r.lo)))
Moves-accepted k r pending rep (inr (d, proper, small, deep)) = omega (
  arith,
  length-append rep.accepted (range_from r.lo (r.hi - r.lo)),
  length-range_from r.lo (r.hi - r.lo),
)

Moves-halves :
    (k : ℕ) (r : Range) (pending : List Range) (rep : BatchReport)
    → (r.hi - r.lo == 1) ≡ false
    → Moves k (r ∷ pending) rep
    → Moves k
        (record { lo = r.lo; hi = mid r } ∷ record { lo = mid r; hi = r.hi } ∷ pending)
        (record rep { requests = rep.requests + 1 })
Moves-halves k r pending rep many (inl h) = inl h
Moves-halves k r pending rep many (inr (d, proper, small, deep)) =
    let two : 2 ≤ r.hi - r.lo = omega (arith, ==_ne _ _ many) in
    let (e, is_suc, left, right) = halves-le (r.hi - r.lo) d two small in
    inr (e, omega arith, omega arith, omega arith)

-- A round that is not broken off by the network keeps the batch moving.
Moves-settle {ℓ} :
    {S : Type ℓ} (k : ℕ) (o : SendOutcome) (r : Range) (pending : List Range) (rep : BatchReport)
    (s : S)
    → o ≢ SendOutcome.transport_error
    → Moves k (r ∷ pending) rep
    → Leaves
        (λ p x _. Moves k p x)
        (λ x _. 0 < settled x)
        (settle o r pending (record rep { requests = rep.requests + 1 }))
        s
unfolding settle
Moves-settle k SendOutcome.accepted r pending rep s live m = inl (Moves-accepted k r pending rep m)
Moves-settle k SendOutcome.transport_error r pending rep s live m = absurd (live refl)
Moves-settle k SendOutcome.rejected r pending rep s live m = elim (Bool-cases (r.hi - r.lo == 1)) [
  | inl one ↦ rw one (inl (omega (arith, length-snoc rep.rejected r.lo)))
  | inr many ↦ rw many (Moves-halves k r pending rep many m)
]

module _ {ℓ} {S : Type ℓ} (max_requests : ℕ) (send : ℕ → ℕ → S → SendOutcome × S) where
  -- If no request of a non-empty batch of n ≤ 2 ^ k records meets a transport error and the budget
  -- is above k requests, at least one record is accepted or refused, whatever the server answers.
  pub send_with_bisect_progress :
      (n k : ℕ) (s : S)
      → 0 < n
      → n ≤ 2 ^ k
      → k < max_requests
      → ((lo hi : ℕ) (s' : S) → (send lo hi s').0 ≢ SendOutcome.transport_error)
      → (res : BatchReport × S) × (send_with_bisect max_requests send n s ≡ some res)
        × (0 < length res.0.accepted + length res.0.rejected)
  unfolding send_with_bisect
  send_with_bisect_progress n k s many small budget live =
      let start : ltb 0 n ≡ true = ground arith in
      let (res, runs, moved, _) =
        loop_rule max_requests send (λ p x _. Moves k p x) (λ x _. 0 < settled x)
          (λ rep _ m. elim m [ inl h ↦ h | inr h ↦ absurd h ])
          (λ r pending rep _ m full. elim m [
            | inl h ↦ h
            | inr (d, proper, short, deep) ↦ absurd (omega arith)
          ])
          (λ r pending rep s' m _.
            Moves-settle k (send r.lo r.hi s').0 r pending rep (send r.lo r.hi s').1
              (live r.lo r.hi s') m)
          (max_requests + 2) (record { lo = 0; hi = n } ∷ []) empty_report s (omega arith)
          (omega arith) (inr (k, many, omega arith, omega arith)) in
      rw start (res, runs, moved)
