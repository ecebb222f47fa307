-- ===== src/Batch/Budget.antt =====
-- What bisection costs: about 2 · log2 n requests for each bad record, and one more.
use just_in_time.Prelude.{
  ℕ, suc, ◌+◌, ◌-◌, ◌*◌, ◌/◌, ◌^◌, ◌≤◌, ◌<◌, ◌≡◌, ap, ap₂, ◌∙◌, inl, inr, Bool, false, some, List,
  [], ◌∷◌, arith, ltb, ◌==◌, ==_ne, if◌then◌else◌, Bool-cases, keep, keep-append, length,
  length-append, range_from, range_from-append,
}
use just_in_time.Batch.{
  SendOutcome, BatchReport, Range, mid, settle, send_with_bisect, empty_report,
}
use just_in_time.Batch.Loop.{Leaves, Leaves-join, loop_rule}
use just_in_time.Batch.Verdict.{
  bad_between, verdict, good_below, bad_below, Inv, Isolates, Inv-start, Inv-settle, Inv-paid,
}
use just_in_time.Batch.Progress.{halves-le}

abbrev bads : (ℕ → Bool) → Range → ℕ
bads bad r = length (bad_between bad r.lo r.hi)

-- `left` requests are enough for the waiting ranges.
abbrev Affords : (ℕ → Bool) → List Range → ℕ → Type 0
Affords bad [] left = Unit
Affords bad (r ∷ pending) left =
    (depth later : ℕ) × (r.hi - r.lo ≤ 2 ^ depth)
    × (1 + 2 * (depth * bads bad r) + later ≤ left)
    × Affords bad pending later

Affords-mono :
    (bad : ℕ → Bool) (pending : List Range) (a b : ℕ)
    → a ≤ b
    → Affords bad pending a
    → Affords bad pending b
Affords-mono bad [] a b h p = tt
Affords-mono bad (r ∷ pending) a b h (d, later, small, fits, rest) =
    (d, later, small, omega arith, rest)

bads_halves :
    (bad : ℕ → Bool) (r : Range)
    → r.lo < r.hi
    → bads bad r
      ≡ bads bad (record { lo = r.lo; hi = mid r }) + bads bad (record { lo = mid r; hi = r.hi })
bads_halves bad r h =
    let m = (r.hi - r.lo) / 2 in
    let e : r.hi - r.lo ≡ m + (r.hi - r.lo - m) = omega arith in
    let left : m ≡ mid r - r.lo = omega arith in
    let right : r.hi - r.lo - m ≡ r.hi - mid r = omega arith in
    ap (λ k. length (keep bad (range_from r.lo k))) e
    ∙ ap (λ l. length (keep bad l)) (range_from-append r.lo m (r.hi - r.lo - m))
    ∙ ap length (keep-append bad (range_from r.lo m) (range_from (mid r) (r.hi - r.lo - m)))
    ∙ length-append (keep bad (range_from r.lo m)) (keep bad (range_from (mid r) (r.hi - r.lo - m)))
    ∙ ap₂ (λ a b. length (keep bad (range_from r.lo a)) + length (keep bad (range_from (mid r) b)))
        left right

cost_split :
    (d e b b₁ b₂ later left : ℕ)
    → d ≡ suc e
    → b ≡ b₁ + b₂
    → 1 ≤ b
    → 1 + 2 * (d * b) + later ≤ suc left
    → 1 + 2 * (e * b₁) + (1 + 2 * (e * b₂) + later) ≤ left
cost_split d e b b₁ b₂ later left is_suc sum some_bad fits =
    let fits' : 1 + 2 * (suc e * (b₁ + b₂)) + later ≤ suc left = rw (← is_suc) (rw (← sum) fits) in
    omega arith

Affords-halves :
    (bad : ℕ → Bool) (r : Range) (pending : List Range) (left : ℕ)
    → r.lo < r.hi
    → (r.hi - r.lo == 1) ≡ false
    → (bads bad r == 0) ≡ false
    → Affords bad (r ∷ pending) (suc left)
    → Affords bad
        (record { lo = r.lo; hi = mid r } ∷ record { lo = mid r; hi = r.hi } ∷ pending)
        left
Affords-halves bad r pending left h many dirty (d, later, small, fits, rest) =
    let two : 2 ≤ r.hi - r.lo = omega (arith, ==_ne _ _ many) in
    let (e, is_suc, short, long) = halves-le (r.hi - r.lo) d two small in
    let some_bad : 1 ≤ bads bad r = omega (arith, ==_ne _ _ dirty) in
    let right_cost = 1 + 2 * (e * bads bad (record { lo = mid r; hi = r.hi })) + later in
    (
      e,
      right_cost,
      omega arith,
      cost_split d e (bads bad r) _ _ later left is_suc (bads_halves bad r h) some_bad fits,
      (e, later, omega arith, omega arith, rest),
    )

Affords-pos :
    (bad : ℕ → Bool) (r : Range) (pending : List Range) (left : ℕ)
    → Affords bad (r ∷ pending) left
    → 0 < left
Affords-pos bad r pending left (d, later, small, fits, rest) = omega arith

Affords-settle {ℓ} :
    {S : Type ℓ} (bad : ℕ → Bool) (bound left : ℕ) (r : Range) (pending : List Range)
    (rep : BatchReport) (s : S)
    → r.lo < r.hi
    → rep.requests + left ≡ bound
    → Affords bad (r ∷ pending) (suc left)
    → Leaves
        (λ p x _. (left' : ℕ) × (x.requests + left' ≡ bound) × Affords bad p left')
        (λ _ _. ⊥)
        (settle (verdict bad r.lo r.hi) r pending rep)
        s
unfolding settle
Affords-settle bad bound left r pending rep s proper sum (d, later, small, fits, rest) =
    let after : Affords bad pending left = Affords-mono bad pending later left (omega arith) rest in
    elim (Bool-cases (bads bad r == 0)) [
      | inl clean ↦ rw clean (left, sum, after)
      | inr dirty ↦ rw dirty (elim (Bool-cases (r.hi - r.lo == 1)) [
        | inl one ↦ rw one (left, sum, after)
        | inr many ↦ rw many (
          left,
          sum,
          Affords-halves bad r pending left proper many dirty (d, later, small, fits, rest),
        )
      ])
    ]

-- The report of a run that was not cut short.
pub record IsFinished (bad : ℕ → Bool) (n bound : ℕ) (rep : BatchReport) : Type 0 where
  pub running : rep.aborted ≡ false
  pub accepted_good : rep.accepted ≡ good_below bad n
  pub rejected_bad : rep.rejected ≡ bad_below bad n
  pub spent : rep.requests ≤ bound

abbrev Within : (ℕ → Bool) → ℕ → ℕ → List Range → BatchReport → Type 0
Within bad n bound p x =
    Inv bad n p x × ((left : ℕ) × (x.requests + left ≡ bound) × Affords bad p left)

Within-finish :
    (bad : ℕ → Bool) (n bound : ℕ) (rep : BatchReport)
    → Within bad n bound [] rep
    → IsFinished bad n bound rep
Within-finish bad n bound rep (inv, (left, sum, _)) = record {
  running = inv.running;
  accepted_good = rw (← inv.chain) inv.right.accepted_good;
  rejected_bad = rw (← inv.chain) inv.right.rejected_bad;
  spent = omega arith;
}

Within-start :
    (bad : ℕ → Bool) (n depth bound : ℕ)
    → n ≤ 2 ^ depth
    → 1 + 2 * (depth * length (bad_below bad n)) ≤ bound
    → Within bad n bound (if ltb 0 n then record { lo = 0; hi = n } ∷ [] else []) empty_report
Within-start bad n depth bound small fits = (
  Inv-start bad n,
  (
    bound,
    omega arith,
    elim (Bool-cases (ltb 0 n)) [
      | inl many ↦
          rw many
            (depth, 0, omega arith, (let e : n - 0 ≡ n = omega arith in rw e (omega arith)), tt)
      | inr no_record ↦ rw no_record tt
    ],
  ),
)

Within-settle {ℓ} :
    {S : Type ℓ} (bad : ℕ → Bool) (n bound : ℕ) (o : SendOutcome) (r : Range) (pending : List Range)
    (rep : BatchReport) (s : S)
    → o ≡ verdict bad r.lo r.hi
    → Within bad n bound (r ∷ pending) rep
    → Leaves
        (λ p x _. Within bad n bound p x)
        (λ x _. IsFinished bad n bound x)
        (settle o r pending (record rep { requests = rep.requests + 1 }))
        s
Within-settle {S = S} bad n bound o r pending rep s e (inv, (left, sum, rest)) =
    let paid = record rep { requests = rep.requests + 1 } in
    let some_left : 0 < left = Affords-pos bad r pending left rest in
    let more : left ≡ suc (left - 1) = omega arith in
    rw e (
      Leaves-join {S = S} (λ p x _. Inv bad n p x)
        (λ p x _. (left' : ℕ) × (x.requests + left' ≡ bound) × Affords bad p left')
        (λ x _. Isolates bad n x) (λ x _. IsFinished bad n bound x)
        (settle (verdict bad r.lo r.hi) r pending paid) s
        (Inv-settle bad n r pending paid s (Inv-paid bad n (r ∷ pending) rep inv))
        (Affords-settle bad bound (left - 1) r pending paid s inv.chain.1 (omega arith)
          (Affords-mono bad (r ∷ pending) left (suc (left - 1)) (omega arith) rest)))

module _ {ℓ} {S : Type ℓ} (bad : ℕ → Bool) (max_requests : ℕ)
    (send : ℕ → ℕ → S → SendOutcome × S) where
  -- If every answer is the verdict of a server that refuses a request exactly when it holds a bad
  -- record, n ≤ 2 ^ depth and the budget is at least 1 + 2 · depth · (number of bad records), then
  -- the run is not aborted, spends no more than that, accepts exactly the good records and
  -- refuses exactly the bad ones, in order.
  pub send_with_bisect-IsFinished :
      (n depth : ℕ) (s : S)
      → n ≤ 2 ^ depth
      → 1 + 2 * (depth * length (bad_below bad n)) ≤ max_requests
      → ((lo hi : ℕ) (s' : S) → (send lo hi s').0 ≡ verdict bad lo hi)
      → (res : BatchReport × S) × (send_with_bisect max_requests send n s ≡ some res)
        × IsFinished bad n (1 + 2 * (depth * length (bad_below bad n))) res.0
  unfolding send_with_bisect
  send_with_bisect-IsFinished n depth s small budget judges =
      let bound = 1 + 2 * (depth * length (bad_below bad n)) in
      let (res, runs, done, _) =
        loop_rule max_requests send (λ p x _. Within bad n bound p x)
          (λ x _. IsFinished bad n bound x) (λ rep _ w. Within-finish bad n bound rep w)
          (λ r pending rep _ w full.
            let (left, sum, rest) = w.1 in
            let some_left : 0 < left = Affords-pos bad r pending left rest in absurd (omega arith))
          (λ r pending rep s' w _.
            Within-settle bad n bound (send r.lo r.hi s').0 r pending rep (send r.lo r.hi s').1
              (judges r.lo r.hi s') w)
          (max_requests + 2) _ empty_report s (omega arith) (omega arith)
          (Within-start bad n depth bound small (omega arith)) in
      (res, runs, done)
