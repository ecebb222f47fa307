-- ===== src/Batch/Partition.antt =====
-- Every record of a batch ends in one list of the report, once; only an aborted run leaves some out.
use just_in_time.Prelude.{
  ℕ, ◌+◌, ◌-◌, ◌≤◌, ◌<◌, ◌≡◌, ◌≢◌, refl, some, true, false, List, [], ◌∷◌, inl, inr, arith, leb,
  ltb, ltb→lt, ◌==◌, if◌then◌else◌, Bool-cases, All, count, count-append, count-range_from,
  range_from,
}
use just_in_time.Batch.{
  SendOutcome, BatchReport, Range, mid, settle, send_with_bisect, empty_report,
}
use just_in_time.Batch.Loop.{Leaves, loop_rule}

-- 1 if lo ≤ i < hi, and else 0.
abbrev pub inside : ℕ → ℕ → ℕ → ℕ
inside i lo hi = if leb lo i then if ltb i hi then 1 else 0 else 0

-- How many of the waiting ranges hold `i`.
abbrev covered : ℕ → List Range → ℕ
covered i [] = 0
covered i (r ∷ pending) = inside i r.lo r.hi + covered i pending

abbrev IsProper : Range → Type 0
IsProper r = r.lo < r.hi

record Inv (n : ℕ) (pending : List Range) (rep : BatchReport) : Type 0 where
  each_once :
      (i : ℕ) → count i rep.accepted + count i rep.rejected + covered i pending ≡ inside i 0 n
  proper : All IsProper pending
  running : rep.aborted ≡ false

pub record Shares (n : ℕ) (rep : BatchReport) : Type 0 where
  pub at_most_once : (i : ℕ) → count i rep.accepted + count i rep.rejected ≤ inside i 0 n
  pub complete :
      rep.aborted ≡ false → (i : ℕ) → count i rep.accepted + count i rep.rejected ≡ inside i 0 n

count_range :
    (i : ℕ) (r : Range) → IsProper r → count i (range_from r.lo (r.hi - r.lo)) ≡ inside i r.lo r.hi
count_range i r h =
    let e : r.lo + (r.hi - r.lo) ≡ r.hi = omega arith in
    ground (arith, e, count-range_from i r.lo (r.hi - r.lo))

-- Bisection loses no index and repeats none.
inside_halves :
    (i : ℕ) (r : Range)
    → IsProper r
    → inside i r.lo (mid r) + inside i (mid r) r.hi ≡ inside i r.lo r.hi
inside_halves i r h = ground arith

single : (i : ℕ) (r : Range) → (r.hi - r.lo == 1) ≡ true → inside i r.lo r.hi ≡ count i (r.lo ∷ [])
single i r h = ground arith

many_records : (r : Range) → (r.hi - r.lo == 1) ≡ false → r.hi - r.lo ≢ 1
many_records r h = ground arith

Inv-settle {ℓ} :
    {S : Type ℓ} (n : ℕ) (o : SendOutcome) (r : Range) (pending : List Range) (rep : BatchReport)
    (s : S)
    → Inv n (r ∷ pending) rep
    → Leaves (λ p x _. Inv n p x) (λ x _. Shares n x) (settle o r pending rep) s
unfolding settle
Inv-settle n SendOutcome.accepted r pending rep s inv = record {
  each_once = λ i. omega (
    arith,
    inv.each_once i,
    count_range i r inv.proper.0,
    count-append i rep.accepted (range_from r.lo (r.hi - r.lo)),
  );
  proper = inv.proper.1;
  running = inv.running;
}
Inv-settle n SendOutcome.transport_error r pending rep s inv = record {
  at_most_once = λ i. omega (arith, inv.each_once i);
  complete = λ e. cc;
}
Inv-settle n SendOutcome.rejected r pending rep s inv = elim (Bool-cases (r.hi - r.lo == 1)) [
  | inl one ↦ rw one (record {
    each_once = λ i.
        omega (arith, inv.each_once i, single i r one, count-append i rep.rejected (r.lo ∷ []));
    proper = inv.proper.1;
    running = inv.running;
  })
  | inr many ↦ rw many (record {
    each_once = λ i. omega (arith, inv.each_once i, inside_halves i r inv.proper.0);
    proper = (
      omega (arith, inv.proper.0, many_records r many),
      (omega (arith, inv.proper.0, many_records r many), inv.proper.1),
    );
    running = inv.running;
  })
]

Inv-start : (n : ℕ) → Inv n (if ltb 0 n then record { lo = 0; hi = n } ∷ [] else []) empty_report
Inv-start n = elim (Bool-cases (ltb 0 n)) [
  | inl some_records ↦ rw some_records (record {
    each_once = λ i. omega arith;
    proper = (ltb→lt _ _ some_records, tt);
    running = refl;
  })
  | inr no_record ↦
      rw no_record (record { each_once = λ i. ground arith; proper = tt; running = refl })
]

module _ {ℓ} {S : Type ℓ} (max_requests : ℕ) (send : ℕ → ℕ → S → SendOutcome × S) where
  -- For every budget and every callback, whatever it answers, a batch of n records ends with a
  -- report within the budget in which no index below n stands twice and no other index stands at
  -- all; unless the run was aborted, every index below n is accepted or refused exactly once.
  pub send_with_bisect-Shares :
      (n : ℕ) (s : S)
      → (res : BatchReport × S) × (send_with_bisect max_requests send n s ≡ some res)
        × Shares n res.0
        × (res.0.requests ≤ max_requests)
  unfolding send_with_bisect
  send_with_bisect-Shares n s =
      loop_rule max_requests send (λ p x _. Inv n p x) (λ x _. Shares n x)
        (λ rep _ inv. record {
          at_most_once = λ i. omega (arith, inv.each_once i);
          complete = λ _ i. omega (arith, inv.each_once i);
        })
        (λ r pending rep _ inv _. record {
          at_most_once = λ i. omega (arith, inv.each_once i);
          complete = λ e. cc;
        })
        (λ r pending rep s' inv _.
          Inv-settle n (send r.lo r.hi s').0 r pending (record rep { requests = rep.requests + 1 })
            (send r.lo r.hi s').1
            (record { each_once = inv.each_once; proper = inv.proper; running = inv.running }))
        (max_requests + 2) _ empty_report s (omega arith) (omega arith) (Inv-start n)
