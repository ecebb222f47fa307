-- ===== src/Db/Order.antt =====
-- What the query of the sync queue returns: the rows that are due, in the order of their next try.
use mathlib.Core.List.{Perm}
use mathlib.Core.List.Perm
use just_in_time.Prelude.{
  ℕ, ◌≤◌, ◌<◌, ◌≡◌, refl, ap, ◌∙◌, Bool, ltb, not, some, none, Option, true, inl, inr, List, [],
  ◌∷◌, ◌++◌, arith, min, Bool-cases, All, length, length-take, length-map, map, take, drop, keep,
}
use just_in_time.Db.Sorting.{IsSorted, sort_rows-IsSorted, sort_rows-perm, take-append-drop}
use just_in_time.Db.{
  Row, Db, Sql, Convert, SyncRecord, outcome, to_sync_record, db_get_unsynced_records, before,
  insert_row, sort_rows, is_pending, is_due, retry_at, unsynced_rows,
}

-- A row that is to be sent now: it is not synced, and the time of its next try has come.
pub record IsDue (now : ℕ) (r : Row) : Type 0 where
  pub unsent : r.synced ≡ 0
  pub try_at : (t : ℕ) × (r.next_retry_at ≡ some t) × (t ≤ now)

-- Of two rows that have a time of their next try, the one to be tried earlier stands first, and at
-- the same time the one with the lower id.
pub data Precedes (a b : Row) : Type 0 where
  earlier : (t u : ℕ) → a.next_retry_at ≡ some t → b.next_retry_at ≡ some u → t < u → Precedes a b
  older : (t : ℕ) → a.next_retry_at ≡ some t → b.next_retry_at ≡ some t → a.id ≤ b.id → Precedes a b

abbrev pub IsInOrder : List Row → Type 0
IsInOrder [] = Unit
IsInOrder (r ∷ rows) = All (Precedes r) rows × IsInOrder rows

is_due-lem : (now : ℕ) (o : Option ℕ) → is_due now o ≡ true → (t : ℕ) × (o ≡ some t) × (t ≤ now)
is_due-lem now none h = cc
is_due-lem now (some t) h = (t, refl, ground arith)

is_due-some : (now t : ℕ) (o : Option ℕ) → o ≡ some t → t ≤ now → is_due now o ≡ true
is_due-some now t o e h = rw e (ground arith)

is_pending-IsDue : (now : ℕ) (r : Row) → is_pending now r ≡ true → IsDue now r
unfolding is_pending
is_pending-IsDue now r h = record {
  unsent = ground arith;
  try_at = is_due-lem now r.next_retry_at (ground arith);
}

IsDue-is_pending : (now : ℕ) (r : Row) → IsDue now r → is_pending now r ≡ true
unfolding is_pending
IsDue-is_pending now r d =
    let (t, e, h) = d.try_at in
    let due = is_due-some now t r.next_retry_at e h in let unsent = d.unsent in ground arith

retry_at-some : (o : Option ℕ) (t : ℕ) → o ≡ some t → elim o [ none ↦ 0 | some x ↦ x ] ≡ t
retry_at-some o t e = rw e refl

before-Precedes :
    (now : ℕ) (a b : Row) → IsDue now a → IsDue now b → before a b ≡ true → Precedes a b
unfolding before
before-Precedes now a b da db h =
    let (t, ea, _) = da.try_at in
    let (u, eb, _) = db.try_at in
    let at_t : retry_at a ≡ t = retry_at-some a.next_retry_at t ea in
    let at_u : retry_at b ≡ u = retry_at-some b.next_retry_at u eb in
    elim (Bool-cases (ltb t u)) [
      | inl lt ↦ earlier t u ea eb (ground arith)
      | inr ge ↦ let same : u ≡ t = ground arith in older t ea (eb ∙ ap some same) (ground arith)
    ]

All-Precedes :
    (now : ℕ) (a : Row) (rows : List Row)
    → IsDue now a
    → All (IsDue now) rows
    → All (λ x. before a x ≡ true) rows
    → All (Precedes a) rows
All-Precedes now a [] d ds h = tt
All-Precedes now a (x ∷ rows) d ds h =
    (before-Precedes now a x d ds.0 h.0, All-Precedes now a rows d ds.1 h.1)

IsSorted-IsInOrder :
    (now : ℕ) (rows : List Row) → All (IsDue now) rows → IsSorted rows → IsInOrder rows
IsSorted-IsInOrder now [] d s = tt
IsSorted-IsInOrder now (r ∷ rows) d s =
    (All-Precedes now r rows d.0 d.1 s.0, IsSorted-IsInOrder now rows d.1 s.1)

module _ (P : Row → Type 0) where
  All-insert : (r : Row) (rows : List Row) → P r → All P rows → All P (insert_row r rows)
  unfolding insert_row
  All-insert r [] h all = (h, tt)
  All-insert r (x ∷ rows) h all = elim (Bool-cases (before r x)) [
    | inl first ↦ rw first (h, all)
    | inr later ↦ rw later (all.0, All-insert r rows h all.1)
  ]

  All-sort_rows : (rows : List Row) → All P rows → All P (sort_rows rows)
  unfolding sort_rows
  All-sort_rows [] all = tt
  All-sort_rows (r ∷ rows) all = All-insert r (sort_rows rows) all.0 (All-sort_rows rows all.1)

All-IsDue : (now : ℕ) (rows : List Row) → All (IsDue now) (keep (is_pending now) rows)
All-IsDue now [] = tt
All-IsDue now (r ∷ rows) = elim (Bool-cases (is_pending now r)) [
  | inl e ↦ rw e (is_pending-IsDue now r e, All-IsDue now rows)
  | inr e ↦ rw e (All-IsDue now rows)
]

All-not-IsDue :
    (now : ℕ) (rows : List Row) → All (λ r. ¬ IsDue now r) (keep (λ r. not (is_pending now r)) rows)
All-not-IsDue now [] = tt
All-not-IsDue now (r ∷ rows) = elim (Bool-cases (is_pending now r)) [
  | inl e ↦ rw e (All-not-IsDue now rows)
  | inr e ↦ rw e ((λ d. cc (e, IsDue-is_pending now r d)), All-not-IsDue now rows)
]

Perm-middle : (r : Row) (xs ys : List Row) → Perm (xs ++ r ∷ ys) (r ∷ (xs ++ ys))
Perm-middle r [] ys = Perm.refl (r ∷ ys)
Perm-middle r (x ∷ xs) ys =
    Perm.trans (Perm.cons x (Perm-middle r xs ys)) (Perm.swap r x (xs ++ ys))

Perm-split :
    (p : Row → Bool) (rows : List Row) → Perm (keep p rows ++ keep (λ r. not (p r)) rows) rows
Perm-split p [] = Perm.refl []
Perm-split p (r ∷ rows) = elim (Bool-cases (p r)) [
  | inl e ↦ rw e (Perm.cons r (Perm-split p rows))
  | inr e ↦ rw e (Perm.trans (Perm-middle r (keep p rows) _) (Perm.cons r (Perm-split p rows)))
]

-- The query of the sync queue returns the first `limit` of the rows that are due: unsynced, with a
-- time of the next try that is not NULL and has come. The table's rows are those returned, the due
-- ones left for later and the others, none of which is due. The due ones stand in order of the time
-- of their next try, at the same time by id, and those returned are the first `limit` of them, or
-- all if there are fewer.
pub unsynced_rows_lem :
    (now limit : ℕ) (db : Db)
    → (later : List Row) × (others : List Row) × Perm
        ((unsynced_rows now limit db ++ later) ++ others)
        db.rows
      × All (IsDue now) (unsynced_rows now limit db ++ later)
      × All (λ r. ¬ IsDue now r) others
      × IsInOrder (unsynced_rows now limit db ++ later)
      × (length (unsynced_rows now limit db)
          ≡ min limit (length (unsynced_rows now limit db ++ later)))
unfolding unsynced_rows
unsynced_rows_lem now limit db =
    let due = keep (is_pending now) db.rows in
    let rows = sort_rows due in
    let whole = take-append-drop limit rows in
    let all_due = All-sort_rows (IsDue now) due (All-IsDue now db.rows) in
    (
      drop limit rows,
      keep (λ r. not (is_pending now r)) db.rows,
      rw whole (
          Perm.trans (Perm.append_right _ (sort_rows-perm due))
            (Perm-split (is_pending now) db.rows)),
      rw whole all_due,
      All-not-IsDue now db.rows,
      rw whole (IsSorted-IsInOrder now rows all_due (sort_rows-IsSorted due)),
      rw whole (length-take limit rows),
    )

length-records :
    (c : Convert) (limit : ℕ) (rows : List Row)
    → length rows ≤ limit
    → length (map (to_sync_record c) rows) ≤ limit
length-records c limit rows h = omega (arith, length-map (to_sync_record c) rows)

pub length-get_unsynced :
    (c : Convert) (now : ℕ) (sql : Sql) (given limit : ℕ) (db : Db)
    → length (db_get_unsynced_records c now sql given limit db) ≤ limit
unfolding db_get_unsynced_records
length-get_unsynced c now sql given limit db = bounded (outcome db sql)
  where
    rows : List Row
    rows = unsynced_rows now limit db

    few : length rows ≤ limit
    few =
        unfold unsynced_rows in
        omega (arith, length-take limit (sort_rows (keep (is_pending now) db.rows)))

    bounded :
        (o : Sql)
        → length {A = SyncRecord} (elim o [
          | Sql.done ↦ map (to_sync_record c) rows
          | Sql.step_failed ↦ map (to_sync_record c) (take given rows)
          | Sql.prepare_failed ↦ []
        ])
          ≤ limit
    bounded Sql.done = length-records c limit rows few
    bounded Sql.step_failed =
        length-records c limit (take given rows) (omega (arith, few, length-take given rows))
    bounded Sql.prepare_failed = omega arith
