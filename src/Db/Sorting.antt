-- ===== src/Db/Sorting.antt =====
-- The sort of the sync queue gives a sorted list of the same rows.
use mathlib.Core.List.{Perm}
use mathlib.Core.List.Perm
use just_in_time.Prelude.{
  ℕ, zero, suc, ◌≡◌, refl, ap, ◌∙◌, true, false, inl, inr, List, [], ◌∷◌, ◌++◌, arith, Bool-cases,
  All, length, take, drop,
}
use just_in_time.Db.{Row, before, insert_row, sort_rows}

-- Each row comes before all that follow it.
abbrev pub IsSorted : List Row → Type 0
IsSorted [] = Unit
IsSorted (r ∷ rows) = All (λ x. before r x ≡ true) rows × IsSorted rows

before_trans : (a b c : Row) → before a b ≡ true → before b c ≡ true → before a c ≡ true
unfolding before
before_trans a b c h k = ground arith

before_total : (a b : Row) → before a b ≡ false → before b a ≡ true
unfolding before
before_total a b h = ground arith

All-before :
    (a b : Row) (rows : List Row)
    → before a b ≡ true
    → All (λ x. before b x ≡ true) rows
    → All (λ x. before a x ≡ true) rows
All-before a b [] h all = tt
All-before a b (x ∷ rows) h all = (before_trans a b x h all.0, All-before a b rows h all.1)

All-insert_row :
    (a r : Row) (rows : List Row)
    → before a r ≡ true
    → All (λ x. before a x ≡ true) rows
    → All (λ x. before a x ≡ true) (insert_row r rows)
unfolding insert_row
All-insert_row a r [] h all = (h, tt)
All-insert_row a r (x ∷ rows) h all = elim (Bool-cases (before r x)) [
  | inl first ↦ rw first (h, all)
  | inr later ↦ rw later (all.0, All-insert_row a r rows h all.1)
]

insert_row-IsSorted : (r : Row) (rows : List Row) → IsSorted rows → IsSorted (insert_row r rows)
unfolding insert_row
insert_row-IsSorted r [] s = (tt, tt)
insert_row-IsSorted r (x ∷ rows) s = elim (Bool-cases (before r x)) [
  | inl first ↦ rw first ((first, All-before r x rows first s.0), s)
  | inr later ↦
      rw later
        (All-insert_row x r rows (before_total r x later) s.0, insert_row-IsSorted r rows s.1)
]

pub sort_rows-IsSorted : (rows : List Row) → IsSorted (sort_rows rows)
unfolding sort_rows
sort_rows-IsSorted [] = tt
sort_rows-IsSorted (r ∷ rows) = insert_row-IsSorted r (sort_rows rows) (sort_rows-IsSorted rows)

insert_row-perm : (r : Row) (rows : List Row) → Perm (insert_row r rows) (r ∷ rows)
unfolding insert_row
insert_row-perm r [] = Perm.refl (r ∷ [])
insert_row-perm r (x ∷ rows) = elim (Bool-cases (before r x)) [
  | inl first ↦ rw first (Perm.refl (r ∷ x ∷ rows))
  | inr later ↦ rw later (Perm.trans (Perm.cons x (insert_row-perm r rows)) (Perm.swap r x rows))
]

pub sort_rows-perm : (rows : List Row) → Perm (sort_rows rows) rows
unfolding sort_rows
sort_rows-perm [] = Perm.refl []
sort_rows-perm (r ∷ rows) =
    Perm.trans (insert_row-perm r (sort_rows rows)) (Perm.cons r (sort_rows-perm rows))

length-insert_row : (r : Row) (rows : List Row) → length (insert_row r rows) ≡ suc (length rows)
unfolding insert_row
length-insert_row r [] = refl
length-insert_row r (x ∷ rows) = ground (arith, length-insert_row r rows)

length-sort_rows : (rows : List Row) → length (sort_rows rows) ≡ length rows
unfolding sort_rows
length-sort_rows [] = refl
length-sort_rows (r ∷ rows) = length-insert_row r (sort_rows rows) ∙ ap suc (length-sort_rows rows)

pub take-append-drop : (n : ℕ) (rows : List Row) → take n rows ++ drop n rows ≡ rows
take-append-drop zero rows = refl
take-append-drop (suc n) [] = refl
take-append-drop (suc n) (r ∷ rows) = ap (λ l. r ∷ l) (take-append-drop n rows)
