-- ===== src/Sync/Report.antt =====
-- The report of a round in which the server refuses the bad records.
use just_in_time.Prelude.{
  ℕ, zero, suc, ◌+◌, ◌-◌, ◌≤◌, ◌<◌, ◌≡◌, refl, sym, ap, ap₂, ◌∙◌, inl, inr, Bool, false, not, none,
  some, List, [], ◌∷◌, map, arith, ◌==◌, if◌then◌else◌, Bool-cases, length, length-map, take, drop,
  any, keep, get_elem?, range_from,
}
use just_in_time.Batch.{SendOutcome, BatchReport}
use just_in_time.Batch.Verdict.{verdict, bad_below}
use just_in_time.Batch.Budget.{send_with_bisect-IsFinished}
use just_in_time.Db.{Convert, SyncRecord}
use just_in_time.Db.Order.{length-get_unsynced}
use just_in_time.Sync.{Env, World, id_at, outcome_of, send_range, fetch, settle_round, sync_round}

-- The test on records, as one on their indices.
pub at_index : (SyncRecord → Bool) → List SyncRecord → ℕ → Bool
at_index bad records i = elim (get_elem? records i) [ none ↦ false | some r ↦ bad r ]

at_index-none :
    (bad : SyncRecord → Bool) (records : List SyncRecord) (i : ℕ)
    → get_elem? records i ≡ none
    → at_index bad records i ≡ false
unfolding at_index
at_index-none bad records i e = rw (e, at_index)

at_index-some :
    (bad : SyncRecord → Bool) (records : List SyncRecord) (i : ℕ) (r : SyncRecord)
    → get_elem? records i ≡ some r
    → at_index bad records i ≡ bad r
unfolding at_index
at_index-some bad records i r e = rw (e, at_index)

id_at-some :
    (records : List SyncRecord) (i : ℕ) (r : SyncRecord)
    → get_elem? records i ≡ some r
    → id_at records i ≡ r.id
id_at-some records i r e = ground (arith, e)

-- What stands behind the first `i` records.
data Drop (records : List SyncRecord) (i : ℕ) : Type 0 where
  out :
      drop i records ≡ [] → drop (i + 1) records ≡ [] → get_elem? records i ≡ none → Drop records i
  at :
      (r : SyncRecord)
      → drop i records ≡ r ∷ drop (i + 1) records
      → get_elem? records i ≡ some r
      → Drop records i

Drop-cases : (records : List SyncRecord) (i : ℕ) → Drop records i
Drop-cases [] zero = out refl refl refl
Drop-cases [] (suc i) = out refl (ground arith) refl
Drop-cases (r ∷ records) zero = at r refl refl
Drop-cases (r ∷ records) (suc i) =
    let e' : suc i + 1 ≡ suc (i + 1) = omega arith in
    elim (Drop-cases records i) [ out a b e ↦ out a (rw e' b) e | at x a e ↦ at x (rw e' a) e ]

-- A request holds a bad record exactly when its range of indices does.
any_bad :
    (bad : SyncRecord → Bool) (records : List SyncRecord) (lo k : ℕ)
    → any bad (take k (drop lo records))
      ≡ not (length (keep (at_index bad records) (range_from lo k)) == 0)
any_bad bad records lo zero = refl
any_bad bad records lo (suc k) = elim (Drop-cases records lo) [
  | out a b e ↦
      let rest : any bad []
          ≡ not (length (keep (at_index bad records) (range_from (lo + 1) k)) == 0) =
        ap (any bad) (sym (take_nil k))
        ∙ ap (λ l. any bad (take k l)) (sym b)
        ∙ any_bad bad records (lo + 1) k in
      rw a (rw (at_index-none bad records lo e) rest)
  | at x a e ↦ rw a (
      rw (at_index-some bad records lo x e) (elim (Bool-cases (bad x)) [
        | inl is_bad ↦ rw is_bad (ground arith)
        | inr is_good ↦ rw is_good (any_bad bad records (lo + 1) k)
      ]))
]
  where
    take_nil : (n : ℕ) → take {A = SyncRecord} n [] ≡ []
    take_nil zero = refl
    take_nil (suc n) = refl

-- The ids of the records that pass a test, by their indices.
ids_from :
    (f : SyncRecord → Bool) (g : ℕ → Bool) (records : List SyncRecord) (lo : ℕ)
    (l : List SyncRecord)
    → drop lo records ≡ l
    → ((i : ℕ) (r : SyncRecord) → get_elem? records i ≡ some r → g i ≡ f r)
    → map (id_at records) (keep g (range_from lo (length l))) ≡ map (λ r. r.id) (keep f l)
ids_from f g records lo [] e h = refl
ids_from f g records lo (x ∷ l) e h = elim (Drop-cases records lo) [
  | out a b n ↦ cc
  | at y a n ↦
      let same : y ≡ x = cc in
      let rest : drop (lo + 1) records ≡ l = cc in
      let here : get_elem? records lo ≡ some x = n ∙ ap some same in
      let later = ids_from f g records (lo + 1) l rest h in
      rw (h lo x here) (elim (Bool-cases (f x)) [
        | inl passes ↦ rw passes (ap₂ (λ i is. i ∷ is) (id_at-some records lo x here) later)
        | inr fails ↦ rw fails later
      ])
]

abbrev pub ids_of : List SyncRecord → List ℕ
ids_of = map (λ r. r.id)

-- The server refuses a request because of the records in it, and the connection holds.
abbrev pub Refuses : {N : Type 0} → (SyncRecord → Bool) → Env N → Type 0
Refuses {N = N} bad env =
    (records : List SyncRecord) (n : N)
    → (env.send_batch records n).0
      ≡ record { sent = not (any bad records); transport_error = false }

bool_verdict :
    (b : Bool) (k : ℕ)
    → b ≡ not (k == 0)
    → outcome_of (record { sent = not b; transport_error = false })
      ≡ (if k == 0 then SendOutcome.accepted else SendOutcome.rejected)
bool_verdict b k e = ground arith

module _ {N : Type 0} (env : Env N) (c : Convert) (bad : SyncRecord → Bool) where
  send_range-verdict :
      (records : List SyncRecord) (lo hi : ℕ) (n : N)
      → Refuses bad env
      → (send_range env c records lo hi n).0 ≡ verdict (at_index bad records) lo hi
  unfolding send_range
  send_range-verdict records lo hi n refuses =
      ap outcome_of (refuses (take (hi - lo) (drop lo records)) n)
      ∙ bool_verdict _ _ (any_bad bad records lo (hi - lo))

  -- The report of such a round: it is not cut off, and holds the good and the bad ids.
  pub bisected :
      (w : World N)
      → Refuses bad env
      → 0 < length (fetch env c w).0
      → length (keep bad (fetch env c w).0) ≤ 1
      → (report : BatchReport) × (n : N) × (sync_round env c w
          ≡ some (settle_round env c (fetch env c w).0 report (record w { net = n })))
        × (report.aborted ≡ false)
        × (map (id_at (fetch env c w).0) report.accepted
            ≡ ids_of (keep (λ r. not (bad r)) (fetch env c w).0))
        × (map (id_at (fetch env c w).0) report.rejected ≡ ids_of (keep bad (fetch env c w).0))
  unfolding sync_round
  bisected w refuses many one =
      let (records, n) = fetch env c w in
      let badi = at_index bad records in
      let some_records : (length records == 0) ≡ false = ground arith in
      let good_ids =
        ids_from (λ r. not (bad r)) (λ i. not (badi i)) records 0 records refl
          (λ i r e. ap not (at_index-some bad records i r e)) in
      let bad_ids =
        ids_from bad badi records 0 records refl (λ i r e. at_index-some bad records i r e) in
      let few : length (bad_below badi (length records)) ≤ 1 = omega (
        arith,
        one,
        ap length bad_ids,
        length-map (id_at records) (bad_below badi (length records)),
        length-map (λ (r : SyncRecord). r.id) (keep bad records),
      ) in
      let small =
        length-get_unsynced c (env.now w.net) (env.statement w.net).0 (env.given w.net) 100 w.db in
      let (res, runs, done) =
        send_with_bisect-IsFinished badi 20 (send_range env c records) (length records) 7 n
          (omega arith) (omega arith) (λ lo hi s. send_range-verdict records lo hi s refuses) in
      (
        res.0,
        res.1,
        rw some_records (rw runs refl),
        done.running,
        ap (map (id_at records)) done.accepted_good ∙ good_ids,
        ap (map (id_at records)) done.rejected_bad ∙ bad_ids,
      )
