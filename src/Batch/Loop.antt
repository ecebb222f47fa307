-- ===== src/Batch/Loop.antt =====
-- One rule for the loop of `sendWithBisect`: what every round keeps holds of the returned report.
use just_in_time.Prelude.{
  ℕ, zero, suc, ◌+◌, ◌≤◌, ◌<◌, ◌≡◌, refl, true, Option, some, List, [], ◌∷◌, inl, inr, arith, leb,
  leb→le, leb→lt, Bool-cases,
}
use just_in_time.Batch.{SendOutcome, BatchReport, Range, Next, stop, again, settle, resume, loop}

-- What a round leaves behind: `Q` of the report it breaks with, or `P` of the loop's new variables.
abbrev pub Leaves {ℓ κ} :
    {S : Type ℓ}
    → (List Range → BatchReport → S → Type κ)
    → (BatchReport → S → Type κ)
    → Next
    → S
    → Type κ
Leaves P Q (stop rep) s = Q rep s
Leaves P Q (again pending rep) s = P pending rep s

abbrev requests_of : Next → ℕ
requests_of (stop rep) = rep.requests
requests_of (again pending rep) = rep.requests

settle-requests :
    (o : SendOutcome) (r : Range) (pending : List Range) (rep : BatchReport)
    → requests_of (settle o r pending rep) ≡ rep.requests
unfolding settle
settle-requests o r pending rep = ground arith

module _ {ℓ κ} {S : Type ℓ} (max_requests : ℕ) (send : ℕ → ℕ → S → SendOutcome × S)
    (P : List Range → BatchReport → S → Type κ) (Q : BatchReport → S → Type κ)
    (finish : (rep : BatchReport) (s : S) → P [] rep s → Q rep s)
    (give_up : (r : Range) (pending : List Range) (rep : BatchReport) (s : S)
      → P (r ∷ pending) rep s
      → max_requests ≤ rep.requests
      → Q (record rep { aborted = true }) s)
    (round : (r : Range) (pending : List Range) (rep : BatchReport) (s : S)
      → P (r ∷ pending) rep s
      → rep.requests < max_requests
      → Leaves P Q
          (settle (send r.lo r.hi s).0 r pending (record rep { requests = rep.requests + 1 }))
          (send r.lo r.hi s).1) where
  abbrev Ends : Option (BatchReport × S) → Type (ℓ ⊔ κ)
  Ends o =
      (res : BatchReport × S) × (o ≡ some res) × Q res.0 res.1 × (res.0.requests ≤ max_requests)

  resume-Ends :
      (continue : List Range → BatchReport → S → Option (BatchReport × S)) (next : Next) (s : S)
      → requests_of next ≤ max_requests
      → Leaves P Q next s
      → ((pending : List Range) (rep : BatchReport)
          → rep.requests ≡ requests_of next
          → P pending rep s
          → Ends (continue pending rep s))
      → Ends (resume continue next s)
  unfolding resume
  resume-Ends continue (stop rep) s h q more = ((rep, s), refl, q, h)
  resume-Ends continue (again pending rep) s h p more = more pending rep refl p

  pub loop_rule :
      (fuel : ℕ) (pending : List Range) (rep : BatchReport) (s : S)
      → max_requests + 1 < fuel + rep.requests
      → rep.requests ≤ max_requests
      → P pending rep s
      → Ends (loop max_requests send fuel pending rep s)
  unfolding loop
  loop_rule zero pending rep s fits h p = absurd (omega arith)
  loop_rule (suc fuel) [] rep s fits h p = ((rep, s), refl, finish rep s p, h)
  loop_rule (suc fuel) (r ∷ pending) rep s fits h p =
      elim (Bool-cases (leb max_requests rep.requests)) [
        | inl full ↦ rw full (
          (record rep { aborted = true }, s),
          refl,
          give_up r pending rep s p (leb→le _ _ full),
          h,
        )
        | inr room ↦
            let paid = record rep { requests = rep.requests + 1 } in
            let (o, s') = send r.lo r.hi s in
            rw room (
              resume-Ends (loop max_requests send fuel) (settle o r pending paid) s'
                (omega (arith, settle-requests o r pending paid, leb→lt _ _ room))
                (round r pending rep s p (leb→lt _ _ room))
                (λ pending' rep' e p'.
                  loop_rule fuel pending' rep' s' (omega (arith, settle-requests o r pending paid))
                    (omega (arith, settle-requests o r pending paid, leb→lt _ _ room)) p'))
      ]

-- Two invariants of a round that does not break off hold together.
pub Leaves-join {ℓ} :
    {S : Type ℓ} (P P' : List Range → BatchReport → S → Type 0) (Q R : BatchReport → S → Type 0)
    (next : Next) (s : S)
    → Leaves P Q next s
    → Leaves P' (λ _ _. ⊥) next s
    → Leaves (λ p x s'. P p x s' × P' p x s') R next s
Leaves-join P P' Q R (stop rep) s h h' = absurd h'
Leaves-join P P' Q R (again pending rep) s h h' = (h, h')
