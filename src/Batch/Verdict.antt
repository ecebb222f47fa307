-- ===== src/Batch/Verdict.antt =====
-- A server that refuses a request because of the records in it: bisection finds exactly those.
use native.Mathlib.Nat.{zero-add}
use just_in_time.Prelude.{
  ℕ, ◌+◌, ◌-◌, ◌≤◌, ◌<◌, ◌≡◌, ◌≢◌, refl, sym, ◌∙◌, ap, ◌⊎◌, inl, inr, Bool, true, false, not, some,
  List, [], ◌∷◌, ◌++◌, append-nil, arith, ltb, ltb→lt, ◌==◌, ==_iff, ==_ne, if◌then◌else◌,
  Bool-cases, keep, keep-append, keep-not, length, range_from, range_from-append,
}
use just_in_time.Batch.{
  SendOutcome, BatchReport, Range, mid, settle, send_with_bisect, empty_report,
}
use just_in_time.Batch.Loop.{Leaves, loop_rule}

abbrev pub bad_between : (ℕ → Bool) → ℕ → ℕ → List ℕ
bad_between bad lo hi = keep bad (range_from lo (hi - lo))

-- What a server answers that refuses a request exactly when it holds a bad record.
abbrev pub verdict : (ℕ → Bool) → ℕ → ℕ → SendOutcome
verdict bad lo hi =
    if length (bad_between bad lo hi) == 0 then SendOutcome.accepted else SendOutcome.rejected

-- The network may fail at any request; an answer that comes is the verdict.
abbrev pub Judges {ℓ} : {S : Type ℓ} → (ℕ → Bool) → (ℕ → ℕ → S → SendOutcome × S) → Type ℓ
Judges {S = S} bad send =
    (lo hi : ℕ) (s : S)
    → ((send lo hi s).0 ≡ SendOutcome.transport_error) ⊎ ((send lo hi s).0 ≡ verdict bad lo hi)

-- The waiting ranges cover [p, n) from left to right.
abbrev pub Chain : ℕ → ℕ → List Range → Type 0
Chain p n [] = p ≡ n
Chain p n (r ∷ pending) = (r.lo ≡ p) × (r.lo < r.hi) × Chain r.hi n pending

abbrev pub good_below : (ℕ → Bool) → ℕ → List ℕ
good_below bad p = keep (λ i. not (bad i)) (range_from 0 p)

abbrev pub bad_below : (ℕ → Bool) → ℕ → List ℕ
bad_below bad p = keep bad (range_from 0 p)

-- The report is right about the records below p.
pub record RightBelow (bad : ℕ → Bool) (p : ℕ) (rep : BatchReport) : Type 0 where
  pub accepted_good : rep.accepted ≡ good_below bad p
  pub rejected_bad : rep.rejected ≡ bad_below bad p

Chain-le : (p n : ℕ) (pending : List Range) → Chain p n pending → p ≤ n
Chain-le p n [] c = omega arith
Chain-le p n (r ∷ pending) c = omega (arith, Chain-le r.hi n pending c.2)

-- The records of the range [lo, hi), behind those below lo.
below_split :
    (f : ℕ → Bool) (lo hi : ℕ)
    → lo < hi
    → keep f (range_from 0 hi) ≡ keep f (range_from 0 lo) ++ keep f (range_from lo (hi - lo))
below_split f lo hi h =
    let e : hi ≡ lo + (hi - lo) = omega arith in
    ap (λ n. keep f (range_from 0 n)) e
    ∙ ap (keep f) (range_from-append 0 lo (hi - lo))
    ∙ keep-append f (range_from 0 lo) (range_from (0 + lo) (hi - lo))
    ∙ rw zero-add

RightBelow-accepted :
    (bad : ℕ → Bool) (lo hi : ℕ) (rep : BatchReport)
    → lo < hi
    → length (bad_between bad lo hi) ≡ 0
    → RightBelow bad lo rep
    → RightBelow bad hi (record rep { accepted = rep.accepted ++ range_from lo (hi - lo) })
RightBelow-accepted bad lo hi rep h none_bad right =
    let (no_bad, all_good) = keep-not bad (range_from lo (hi - lo)) none_bad in
    record {
      accepted_good =
          sym (below_split (λ i. not (bad i)) lo hi h ∙ cc (all_good, right.accepted_good));
      rejected_bad = sym (
          below_split bad lo hi h ∙ cc (no_bad, right.rejected_bad, append-nil (bad_below bad lo)));
    }

bad_single : (bad : ℕ → Bool) (lo : ℕ) → length (keep bad (lo ∷ [])) ≢ 0 → bad lo ≡ true
bad_single bad lo h = ground arith

-- A refused range of one record holds a bad one.
RightBelow-rejected :
    (bad : ℕ → Bool) (lo hi : ℕ) (rep : BatchReport)
    → hi - lo ≡ 1
    → length (bad_between bad lo hi) ≢ 0
    → RightBelow bad lo rep
    → RightBelow bad hi (record rep { rejected = rep.rejected ++ lo ∷ [] })
RightBelow-rejected bad lo hi rep one some_bad right =
    let is_bad = bad_single bad lo (rw one at some_bad) in
    let h : lo < hi = omega arith in
    record {
      accepted_good = sym (
          below_split (λ i. not (bad i)) lo hi h
          ∙ rw one (rw is_bad (rw append-nil (sym right.accepted_good))));
      rejected_bad = sym (
          below_split bad lo hi h
          ∙ rw one (rw is_bad (ap (λ l. l ++ lo ∷ []) (sym right.rejected_bad))));
    }

pub record Inv (bad : ℕ → Bool) (n : ℕ) (pending : List Range) (rep : BatchReport) : Type 0 where
  pub at : ℕ
  pub chain : Chain at n pending
  pub right : RightBelow bad at rep
  pub running : rep.aborted ≡ false

-- The report is right about the records below p, and p is n unless the run was aborted.
pub record Isolates (bad : ℕ → Bool) (n : ℕ) (rep : BatchReport) : Type 0 where
  pub at : ℕ
  pub within : at ≤ n
  pub right : RightBelow bad at rep
  pub whole : rep.aborted ≡ false → at ≡ n

Inv-stop :
    (bad : ℕ → Bool) (n : ℕ) (r : Range) (pending : List Range) (rep : BatchReport)
    → Inv bad n (r ∷ pending) rep
    → Isolates bad n (record rep { aborted = true })
Inv-stop bad n r pending rep inv = record {
  at = inv.at;
  within = Chain-le inv.at n (r ∷ pending) inv.chain;
  right = record { accepted_good = inv.right.accepted_good; rejected_bad = inv.right.rejected_bad };
  whole = λ e. cc;
}

halves_Chain :
    (n : ℕ) (r : Range) (pending : List Range)
    → r.lo < r.hi
    → (r.hi - r.lo == 1) ≡ false
    → Chain r.hi n pending
    → Chain r.lo n (record { lo = r.lo; hi = mid r } ∷ record { lo = mid r; hi = r.hi } ∷ pending)
halves_Chain n r pending h many c =
    let bounds : (r.lo < mid r) × (mid r < r.hi) = ground arith in
    (refl, bounds.0, (refl, bounds.1, c))

pub Inv-settle {ℓ} :
    {S : Type ℓ} (bad : ℕ → Bool) (n : ℕ) (r : Range) (pending : List Range) (rep : BatchReport)
    (s : S)
    → Inv bad n (r ∷ pending) rep
    → Leaves
        (λ p x _. Inv bad n p x)
        (λ x _. Isolates bad n x)
        (settle (verdict bad r.lo r.hi) r pending rep)
        s
unfolding settle
Inv-settle bad n r pending rep s inv =
    let here : RightBelow bad r.lo rep = rw inv.chain.0 inv.right in
    elim (Bool-cases (length (bad_between bad r.lo r.hi) == 0)) [
      | inl clean ↦ rw clean (record {
        at = r.hi;
        chain = inv.chain.2;
        right = RightBelow-accepted bad r.lo r.hi rep inv.chain.1 ((==_iff _ _).0 clean) here;
        running = inv.running;
      })
      | inr dirty ↦ rw dirty (elim (Bool-cases (r.hi - r.lo == 1)) [
        | inl one ↦ rw one (record {
          at = r.hi;
          chain = inv.chain.2;
          right = RightBelow-rejected bad r.lo r.hi rep ((==_iff _ _).0 one) (==_ne _ _ dirty) here;
          running = inv.running;
        })
        | inr many ↦ rw many (record {
          at = r.lo;
          chain = halves_Chain n r pending inv.chain.1 many inv.chain.2;
          right = here;
          running = inv.running;
        })
      ])
    ]

pub Inv-start :
    (bad : ℕ → Bool) (n : ℕ)
    → Inv bad n (if ltb 0 n then record { lo = 0; hi = n } ∷ [] else []) empty_report
Inv-start bad n = elim (Bool-cases (ltb 0 n)) [
  | inl many ↦ rw many (record {
    at = 0;
    chain = (refl, ltb→lt _ _ many, refl);
    right = record { accepted_good = refl; rejected_bad = refl };
    running = refl;
  })
  | inr no_record ↦ rw no_record (record {
    at = 0;
    chain = ground arith;
    right = record { accepted_good = refl; rejected_bad = refl };
    running = refl;
  })
]

pub Inv-paid :
    (bad : ℕ → Bool) (n : ℕ) (pending : List Range) (rep : BatchReport)
    → Inv bad n pending rep
    → Inv bad n pending (record rep { requests = rep.requests + 1 })
Inv-paid bad n pending rep inv = record {
  at = inv.at;
  chain = inv.chain;
  right = record { accepted_good = inv.right.accepted_good; rejected_bad = inv.right.rejected_bad };
  running = inv.running;
}

module _ {ℓ} {S : Type ℓ} (bad : ℕ → Bool) (max_requests : ℕ)
    (send : ℕ → ℕ → S → SendOutcome × S) where
  -- If every answer is the verdict of a server that refuses a request exactly when it holds a bad
  -- record, or else a transport error, then there is an index p ≤ n with: the accepted records are
  -- exactly the good ones below p and the refused ones exactly the bad ones below p, in order; and
  -- p is n unless the run was aborted.
  pub send_with_bisect-Isolates :
      (n : ℕ) (s : S)
      → Judges bad send
      → (res : BatchReport × S) × (send_with_bisect max_requests send n s ≡ some res)
        × Isolates bad n res.0
  unfolding send_with_bisect settle
  send_with_bisect-Isolates n s judges =
      let (res, runs, isolates, _) =
        loop_rule max_requests send (λ p x _. Inv bad n p x) (λ x _. Isolates bad n x)
          (λ rep _ inv. record {
            at = inv.at;
            within = omega (arith, inv.chain);
            right = inv.right;
            whole = λ _. inv.chain;
          })
          (λ r pending rep _ inv _. Inv-stop bad n r pending rep inv)
          (λ r pending rep s' inv _.
            let paid = record rep { requests = rep.requests + 1 } in
            elim (judges r.lo r.hi s') [
              | inl failed ↦
                  rw failed (Inv-stop bad n r pending paid (Inv-paid bad n (r ∷ pending) rep inv))
              | inr answered ↦ rw answered (
                  Inv-settle bad n r pending paid (send r.lo r.hi s').1
                    (Inv-paid bad n (r ∷ pending) rep inv))
            ])
          (max_requests + 2) _ empty_report s (omega arith) (omega arith) (Inv-start bad n) in
      (res, runs, isolates)
