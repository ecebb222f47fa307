-- ===== src/Usage/Top.antt =====
-- What the list of the most used apps says.
use just_in_time.Prelude.{
  ℕ, zero, suc, ◌≤◌, ◌≡◌, refl, subst, sym, ap, ◌∙◌, ◌⊎◌, inl, inr, Bool-cases, true, false, none,
  List, [], ◌∷◌, arith, Bytes, bytes_eq, bytes_eq_refl, keep, All, take, take_all, length,
  length-take,
}
use just_in_time.Db.{Row, Db}
use just_in_time.Usage.{
  AppUsage, Query, is_between, group_by_process, order_by_total, largest, usage_in_range,
}
use just_in_time.Usage.Groups.{
  is_listed, total_of, seconds_of, IsApart, IsBelow, IsDescending, bytes_eq-sym,
  total_of-group_by_process, group_by_process-IsApart, order_by_total-IsApart, total_of-order,
  order_by_total-IsDescending,
}

take-IsBelow : (k n : ℕ) (us : List AppUsage) → IsBelow n us → IsBelow n (take k us)
take-IsBelow zero n us b = tt
take-IsBelow (suc k) n [] b = tt
take-IsBelow (suc k) n (u ∷ us) b = (b.0, take-IsBelow k n us b.1)

take-IsDescending : (k : ℕ) (us : List AppUsage) → IsDescending us → IsDescending (take k us)
take-IsDescending zero us d = tt
take-IsDescending (suc k) [] d = tt
take-IsDescending (suc k) (u ∷ us) d =
    (take-IsBelow k u.total_seconds us d.0, take-IsDescending k us d.1)

not_listed-take :
    (k : ℕ) (n : Bytes) (us : List AppUsage)
    → is_listed n us ≡ false
    → is_listed n (take k us) ≡ false
not_listed-take zero n us h = refl
not_listed-take (suc k) n [] h = refl
not_listed-take (suc k) n (u ∷ us) h = ground (arith, not_listed-take k n us)

take-IsApart : (k : ℕ) (us : List AppUsage) → IsApart us → IsApart (take k us)
take-IsApart zero us a = tt
take-IsApart (suc k) [] a = tt
take-IsApart (suc k) (u ∷ us) a = (not_listed-take k u.process_name us a.0, take-IsApart k us a.1)

-- Each of these entries shows what the rows sum to.
abbrev pub AllExact : List Row → List AppUsage → Type 0
AllExact rows = All (λ u. u.total_seconds ≡ seconds_of u.process_name rows)

abbrev AllOwn : List AppUsage → List AppUsage → Type 0
AllOwn whole = All (λ u. u.total_seconds ≡ total_of u.process_name whole)

onto-AllOwn :
    (u : AppUsage) (whole us : List AppUsage)
    → is_listed u.process_name us ≡ false
    → AllOwn whole us
    → AllOwn (u ∷ whole) us
onto-AllOwn u whole [] h a = tt
onto-AllOwn u whole (v ∷ us) h a =
    let apart : bytes_eq v.process_name u.process_name ≡ false = ground (arith, h) in
    let rest : is_listed u.process_name us ≡ false = ground (arith, h) in
    (rw (bytes_eq-sym u.process_name v.process_name ∙ apart) a.0, onto-AllOwn u whole us rest a.1)

IsApart-AllOwn : (us : List AppUsage) → IsApart us → AllOwn us us
IsApart-AllOwn [] a = tt
IsApart-AllOwn (u ∷ us) a =
    (rw (bytes_eq_refl u.process_name) refl, onto-AllOwn u us us a.0 (IsApart-AllOwn us a.1))

take-AllExact :
    (rows : List Row) (whole : List AppUsage)
    → ((n : Bytes) → total_of n whole ≡ seconds_of n rows)
    → (k : ℕ) (us : List AppUsage) → AllOwn whole us
    → AllExact rows (take k us)
take-AllExact rows whole h zero us a = tt
take-AllExact rows whole h (suc k) [] a = tt
take-AllExact rows whole h (suc k) (u ∷ us) a =
    (a.0 ∙ h u.process_name, take-AllExact rows whole h k us a.1)

total_of-bound : (n : Bytes) (m : ℕ) (us : List AppUsage) → IsBelow m us → total_of n us ≤ m
total_of-bound n m [] b = omega arith
total_of-bound n m (u ∷ us) b = ground (arith, total_of-bound n m us b.1)

abbrev pub IsAtLeast : ℕ → List AppUsage → Type 0
IsAtLeast n = All (λ u. n ≤ u.total_seconds)

-- A process with t seconds that `limit` entries leave out.
abbrev IsLeftOut : ℕ → ℕ → List AppUsage → Type 0
IsLeftOut limit t out = (t ≡ 0) ⊎ ((length out ≡ limit) × IsAtLeast t out)

IsLeftOut-behind :
    (k t : ℕ) (u : AppUsage) (out : List AppUsage)
    → t ≤ u.total_seconds
    → IsLeftOut k t out
    → IsLeftOut (suc k) t (u ∷ out)
IsLeftOut-behind k t u out h (inl e) = inl e
IsLeftOut-behind k t u out h (inr e) = inr (ap suc e.0, (h, e.1))

left_out :
    (k : ℕ) (n : Bytes) (us : List AppUsage)
    → IsDescending us
    → is_listed n (take k us) ≡ false
    → IsLeftOut k (total_of n us) (take k us)
left_out zero n us d h = inr (refl, tt)
left_out (suc k) n [] d h = inl refl
left_out (suc k) n (u ∷ us) d h =
    let apart : bytes_eq u.process_name n ≡ false = ground (arith, h) in
    let rest : is_listed n (take k us) ≡ false = ground (arith, h) in
    let skip : total_of n us ≡ total_of n (u ∷ us) = rw apart refl in
    subst (λ t. IsLeftOut (suc k) t (u ∷ take k us)) skip
      (IsLeftOut-behind k (total_of n us) u (take k us) (total_of-bound n u.total_seconds us d.0)
        (left_out k n us d.1 rest))

-- What `largest` makes of the rows, for one process n.
abbrev pub IsTop : ℕ → List Row → Bytes → List AppUsage → Type 0
IsTop limit rows n out =
    AllExact rows out
    × IsApart out
    × IsDescending out
    × ((is_listed n out ≡ true)
        ⊎ ((seconds_of n rows ≡ 0) ⊎ ((length out ≡ limit) × IsAtLeast (seconds_of n rows) out)))

pub largest-IsTop :
    (limit : ℕ) (rows : List Row) (n : Bytes) → IsTop limit rows n (largest limit rows)
unfolding largest
largest-IsTop limit rows n =
    let groups = group_by_process rows in
    let apart = group_by_process-IsApart rows in
    let sorted = order_by_total groups in
    let sorted_apart = order_by_total-IsApart groups apart in
    let down = order_by_total-IsDescending groups in
    let sums : (m : Bytes) → total_of m sorted ≡ seconds_of m rows =
      λ m. total_of-order m groups apart ∙ total_of-group_by_process m rows in
    (
      take-AllExact rows sorted sums limit sorted (IsApart-AllOwn sorted sorted_apart),
      take-IsApart limit sorted sorted_apart,
      take-IsDescending limit sorted down,
      elim (Bool-cases (is_listed n (take limit sorted))) [
        | inl there ↦ inl there
        | inr gone ↦ inr (rw (sym (sums n)) (left_out limit n sorted down gone))
      ],
    )

-- The apps shown for a range of time, if the query gives all its rows, are different apps, the most
-- used ones first, each with the sum of its rows in the range. Of any process it holds that it is
-- shown, or has no seconds in the range, or twenty apps are shown that all have at least as many.
pub usage_in_range-IsTop :
    (q : Query) (start end : ℕ) (db : Db) (n : Bytes)
    → db.handle ≡ true
    → q.prepares ≡ true
    → 20 ≤ q.gives
    → (IsTop 20 (keep (is_between start end) db.rows) n (usage_in_range q start end db).0)
      × ((usage_in_range q start end db).1 ≡ none)
unfolding usage_in_range
usage_in_range-IsTop q start end db n opened prepared all =
    let rows = keep (is_between start end) db.rows in
    let short : length (largest 20 rows) ≤ q.gives =
      unfold largest in omega (arith, length-take 20 (order_by_total (group_by_process rows))) in
    rw (opened, prepared, take_all q.gives (largest 20 rows) short) (largest-IsTop 20 rows n, refl)
