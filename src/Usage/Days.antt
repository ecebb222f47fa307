-- ===== src/Usage/Days.antt =====
-- The totals of days against the total of the whole range and the list of one day.
use just_in_time.Prelude.{
  ℕ, ◌+◌, ◌≤◌, ◌≡◌, refl, sym, ap, ◌∙◌, Bool-cases, inl, inr, true, false, List, [], ◌∷◌, arith,
  Bytes, keep, All, take, take_all, length, leb, leb→le, leb→lt, map, length-map, ◌==◌,
}
use just_in_time.Db.{Row, Db}
use just_in_time.Db.Update.{sum_seconds}
use just_in_time.Usage.{
  Activity, DayTotal, Query, is_between, each_day, daily_totals_in_range, activity_of, insert_by,
  order_by_start, activities_for_day,
}

abbrev pub seconds_between : ℕ → ℕ → List Row → ℕ
seconds_between start end rows = sum_seconds (keep (is_between start end) rows)

abbrev pub sum_of_days : List DayTotal → ℕ
sum_of_days [] = 0
sum_of_days (d ∷ ds) = d.total_seconds + sum_of_days ds

abbrev pub IsAscending : ℕ → List ℕ → Type 0
IsAscending b [] = Unit
IsAscending b (c ∷ bs) = (b ≤ c) × IsAscending c bs

abbrev pub last_of : ℕ → List ℕ → ℕ
last_of b [] = b
last_of b (c ∷ bs) = last_of c bs

last_of-bound : (b : ℕ) (bs : List ℕ) → IsAscending b bs → b ≤ last_of b bs
last_of-bound b [] a = omega arith
last_of-bound b (c ∷ bs) a = omega (arith, a.0, last_of-bound c bs a.1)

split_range :
    (a b c : ℕ) (rows : List Row)
    → a ≤ b
    → b ≤ c
    → seconds_between a b rows + seconds_between b c rows ≡ seconds_between a c rows
unfolding sum_seconds
split_range a b c [] h k = refl
split_range a b c (r ∷ rows) h k = ground (arith, split_range a b c rows h k)

empty_range : (a : ℕ) (rows : List Row) → seconds_between a a rows ≡ 0
unfolding sum_seconds
empty_range a [] = refl
empty_range a (r ∷ rows) = ground (arith, empty_range a rows)

each_day_sum :
    (date_of : ℕ → Bytes) (q : ℕ → Query) (b : ℕ) (bs : List ℕ) (db : Db)
    → ((t : ℕ) → (q t).prepares ≡ true)
    → ((t : ℕ) → 1 ≤ (q t).gives)
    → IsAscending b bs
    → sum_of_days (each_day date_of q b bs db).0 ≡ seconds_between b (last_of b bs) db.rows
unfolding each_day
each_day_sum date_of q b [] db prepared given a = sym (empty_range b db.rows)
each_day_sum date_of q b (c ∷ bs) db prepared given a =
    let some_row : ((q b).gives == 0) ≡ false = ground (arith, given b) in
    rw (prepared b, some_row)
      (ap (λ x. seconds_between b c db.rows + x) (each_day_sum date_of q c bs db prepared given a.1)
        ∙ split_range b c (last_of c bs) db.rows a.0 (last_of-bound c bs a.1))

-- For boundaries in order and queries that all go well, the totals of the days add up to the seconds
-- of all rows from the first boundary to the last.
pub daily_totals-partition :
    (date_of : ℕ → Bytes) (q : ℕ → Query) (b : ℕ) (bs : List ℕ) (db : Db)
    → db.handle ≡ true
    → ((t : ℕ) → (q t).prepares ≡ true)
    → ((t : ℕ) → 1 ≤ (q t).gives)
    → IsAscending b bs
    → sum_of_days (daily_totals_in_range date_of q (b ∷ bs) db).0
      ≡ seconds_between b (last_of b bs) db.rows
unfolding daily_totals_in_range
daily_totals-partition date_of q b bs db opened prepared given a =
    simp opened (each_day_sum date_of q b bs db prepared given a)

abbrev pub sum_of_activities : List Activity → ℕ
sum_of_activities [] = 0
sum_of_activities (x ∷ l) = x.duration + sum_of_activities l

sum-map : (rows : List Row) → sum_of_activities (map activity_of rows) ≡ sum_seconds rows
unfolding sum_seconds
sum-map [] = refl
sum-map (r ∷ rows) = ap (λ x. r.duration_seconds + x) (sum-map rows)

sum-insert :
    (r : Row) (rows : List Row)
    → sum_seconds (insert_by leb r rows) ≡ r.duration_seconds + sum_seconds rows
unfolding insert_by sum_seconds
sum-insert r [] = refl
sum-insert r (x ∷ rows) = ground (arith, sum-insert r rows)

sum-order : (rows : List Row) → sum_seconds (order_by_start leb rows) ≡ sum_seconds rows
unfolding order_by_start sum_seconds
sum-order [] = refl
sum-order (r ∷ rows) =
    sum-insert r (order_by_start leb rows) ∙ ap (λ x. r.duration_seconds + x) (sum-order rows)

length-insert : (r : Row) (rows : List Row) → length (insert_by leb r rows) ≡ 1 + length rows
unfolding insert_by
length-insert r [] = refl
length-insert r (x ∷ rows) = ground (arith, length-insert r rows)

length-order : (rows : List Row) → length (order_by_start leb rows) ≡ length rows
unfolding order_by_start
length-order [] = refl
length-order (r ∷ rows) =
    omega (arith, length-insert r (order_by_start leb rows), length-order rows)

-- Every row of the list starts at `a` or later.
abbrev IsFrom : ℕ → List Row → Type 0
IsFrom a = All (λ r. a ≤ r.start_time)

abbrev RowsInOrder : List Row → Type 0
RowsInOrder [] = Unit
RowsInOrder (r ∷ rows) = IsFrom r.start_time rows × RowsInOrder rows

abbrev pub IsInOrder : List Activity → Type 0
IsInOrder [] = Unit
IsInOrder (x ∷ l) = All (λ y. x.start_time ≤ y.start_time) l × IsInOrder l

IsFrom-le : (a b : ℕ) (rows : List Row) → a ≤ b → IsFrom b rows → IsFrom a rows
IsFrom-le a b [] h f = tt
IsFrom-le a b (r ∷ rows) h f = (omega (arith, f.0), IsFrom-le a b rows h f.1)

IsFrom-insert :
    (a : ℕ) (r : Row) (rows : List Row)
    → a ≤ r.start_time
    → IsFrom a rows
    → IsFrom a (insert_by leb r rows)
unfolding insert_by
IsFrom-insert a r [] h f = (h, tt)
IsFrom-insert a r (x ∷ rows) h f = ground (arith, IsFrom-insert a r rows)

insert-RowsInOrder :
    (r : Row) (rows : List Row) → RowsInOrder rows → RowsInOrder (insert_by leb r rows)
unfolding insert_by
insert-RowsInOrder r [] s = (tt, tt)
insert-RowsInOrder r (x ∷ rows) s = elim (Bool-cases (leb r.start_time x.start_time)) [
  | inl e ↦
      let le = leb→le r.start_time x.start_time e in
      rw e ((le, IsFrom-le r.start_time x.start_time rows le s.0), s)
  | inr e ↦
      let lt = leb→lt r.start_time x.start_time e in
      rw e
        (IsFrom-insert x.start_time r rows (omega (arith, lt)) s.0, insert-RowsInOrder r rows s.1)
]

order-RowsInOrder : (rows : List Row) → RowsInOrder (order_by_start leb rows)
unfolding order_by_start
order-RowsInOrder [] = tt
order-RowsInOrder (r ∷ rows) =
    insert-RowsInOrder r (order_by_start leb rows) (order-RowsInOrder rows)

map-from :
    (a : ℕ) (rows : List Row) → IsFrom a rows → All (λ y. a ≤ y.start_time) (map activity_of rows)
map-from a [] f = tt
map-from a (r ∷ rows) f = (f.0, map-from a rows f.1)

map-IsInOrder : (rows : List Row) → RowsInOrder rows → IsInOrder (map activity_of rows)
map-IsInOrder [] s = tt
map-IsInOrder (r ∷ rows) s = (map-from r.start_time rows s.0, map-IsInOrder rows s.1)

-- If both queries go well and give all their rows, the list of a day is in the order of the start
-- times and adds up to the one total that is shown for this day.
pub activities-day_total :
    (date_of : ℕ → Bytes) (q : ℕ → Query) (q' : Query) (start end : ℕ) (db : Db)
    → db.handle ≡ true
    → (q start).prepares ≡ true
    → 1 ≤ (q start).gives
    → q'.prepares ≡ true
    → length (keep (is_between start end) db.rows) ≤ q'.gives
    → IsInOrder (activities_for_day q' start end db).0
      × ((daily_totals_in_range date_of q (start ∷ end ∷ []) db).0
          ≡ record {
            date = date_of start;
            total_seconds = sum_of_activities (activities_for_day q' start end db).0;
          }
            ∷ [])
unfolding activities_for_day daily_totals_in_range each_day
activities-day_total date_of q q' start end db opened prepared given prepared' all =
    let picked = keep (is_between start end) db.rows in
    let rows = order_by_start leb picked in
    let some_row : ((q start).gives == 0) ≡ false = ground (arith, given) in
    let whole : take q'.gives (map activity_of rows) ≡ map activity_of rows =
      take_all q'.gives (map activity_of rows)
        (omega (arith, length-map activity_of rows, length-order picked, all)) in
    rw (opened, prepared, some_row, prepared', whole)
      (
        map-IsInOrder rows (order-RowsInOrder picked),
        ap {A = ℕ} (λ t. record { date = date_of start; total_seconds = t } ∷ [])
            (sym (sum-map rows ∙ sum-order picked)),
      )
