-- ===== src/Db/Queue.antt =====
-- Marking a batch as synced: the chunks of 500 ids add up to one update.
use just_in_time.Prelude.{
  ℕ, zero, suc, ◌+◌, ◌≤◌, ◌<◌, ◌≡◌, refl, sym, ap, ap₂, ◌∙◌, Bool, true, false, inl, inr, List, [],
  ◌∷◌, ◌++◌, map, arith, Bool-cases, length, take, drop, any, ltb, ◌==◌, if◌then◌else◌,
}
use just_in_time.Db.{Row, Db}
use just_in_time.Db.Update.{update_rows, set_synced, chunk_size, mark_chunks, db_mark_synced_batch}

abbrev pub has_id : List ℕ → Row → Bool
has_id ids r = any (λ i. r.id == i) ids

-- The rows after all with one of the ids are marked.
abbrev pub marked : List ℕ → List Row → List Row
marked ids rows = map (λ r. if has_id ids r then set_synced r else r) rows

any-append :
    (p : ℕ → Bool) (xs ys : List ℕ) → any p (xs ++ ys) ≡ (if any p xs then true else any p ys)
any-append p [] ys = refl
any-append p (x ∷ xs) ys = ground (arith, any-append p xs ys)

abbrev mark_one : List ℕ → Row → Row
mark_one ids r = if has_id ids r then set_synced r else r

if_same : (b : Bool) (r : Row) → (if b then r else r) ≡ r
if_same true r = refl
if_same false r = refl

mark_twice : (xs ys : List ℕ) (r : Row) → mark_one ys (mark_one xs r) ≡ mark_one (xs ++ ys) r
mark_twice xs ys r = rw (any-append (λ i. r.id == i) xs ys) (elim (Bool-cases (has_id xs r)) [
  | inl h ↦ rw h (if_same (has_id ys r) (set_synced r))
  | inr h ↦ rw h
])

marked_twice :
    (xs ys : List ℕ) (rows : List Row) → marked ys (marked xs rows) ≡ marked (xs ++ ys) rows
marked_twice xs ys [] = refl
marked_twice xs ys (r ∷ rows) = ap₂ (λ x l. x ∷ l) (mark_twice xs ys r) (marked_twice xs ys rows)

marked_none : (rows : List Row) → marked [] rows ≡ rows
marked_none [] = refl
marked_none (r ∷ rows) = ap (λ l. r ∷ l) (marked_none rows)

take-append-drop : (n : ℕ) (xs : List ℕ) → take n xs ++ drop n xs ≡ xs
take-append-drop zero xs = refl
take-append-drop (suc n) [] = refl
take-append-drop (suc n) (x ∷ xs) = ap (λ l. x ∷ l) (take-append-drop n xs)

length-drop_le : (n : ℕ) (xs : List ℕ) → length (drop n xs) ≤ length xs
length-drop_le zero xs = omega arith
length-drop_le (suc n) [] = omega arith
length-drop_le (suc n) (x ∷ xs) = omega (arith, length-drop_le n xs)

mark_chunks_rounds :
    (rounds k : ℕ) (exec : ℕ → Bool) (ids : List ℕ) (db : Db)
    → length ids ≤ rounds
    → ((j : ℕ) → exec j ≡ true)
    → ((mark_chunks rounds k exec ids (db, 1)).0.rows ≡ marked ids db.rows)
      × ((mark_chunks rounds k exec ids (db, 1)).1 ≡ 1)
unfolding mark_chunks
mark_chunks_rounds zero k exec [] db fits ran = (sym (marked_none db.rows), refl)
mark_chunks_rounds zero k exec (i ∷ ids) db fits ran = absurd (omega arith)
mark_chunks_rounds (suc rounds) k exec [] db fits ran = (sym (marked_none db.rows), refl)
mark_chunks_rounds (suc rounds) k exec (i ∷ ids) db fits ran =
    let now = take chunk_size (i ∷ ids) in
    let later = drop chunk_size (i ∷ ids) in
    let (rows, ok) =
      mark_chunks_rounds rounds (k + 1) exec later (update_rows (has_id now) set_synced db)
        (omega (arith, length-drop_le 499 ids)) ran in
    rw (ran k, mark_chunks)
      (
        rows
            ∙ marked_twice now later db.rows
            ∙ ap (λ l. marked l db.rows) (take-append-drop chunk_size (i ∷ ids)),
        ok,
      )

-- With the database open, ids given and every statement run, `db_mark_synced_batch` returns 1, and
-- however many chunks there are, exactly the rows with one of the ids become synced, and nothing
-- else of any row changes.
pub mark_synced_batch_lem :
    (exec : ℕ → Bool) (ids : List ℕ) (db : Db)
    → db.handle ≡ true
    → 0 < length ids
    → ((j : ℕ) → exec j ≡ true)
    → ((db_mark_synced_batch exec ids db).0.rows ≡ marked ids db.rows)
      × ((db_mark_synced_batch exec ids db).1 ≡ 1)
unfolding db_mark_synced_batch
mark_synced_batch_lem exec ids db open_db given ran =
    let given' : ltb 0 (length ids) ≡ true = ground arith in
    simp (open_db, given') (mark_chunks_rounds (length ids) 0 exec ids db (omega arith) ran)
