-- ===== src/Backup/Newest.antt =====
-- What the clean-up leaves, as the end of the sorted list of backups.
use just_in_time.Prelude.{
  ℕ, zero, suc, ◌-◌, ◌≤◌, ◌≡◌, ◌≢◌, refl, sym, ap, ◌∙◌, Bool, Bool-cases, inl, inr, true, false,
  not, ◌&&◌, List, [], ◌∷◌, arith, Bytes, bytes_eq, bytes_eq→≡, bytes_eq_refl, length, keep, take,
  drop, take_all, All,
}
use just_in_time.Backup.{
  name_le, insert_name, sort_names, is_in, is_backup, backups_in, cleanup_old_backups, keep_count,
}
use just_in_time.Backup.Sorting.{keep-sort_names}

-- No name stands twice in the list.
abbrev pub IsDistinct : List Bytes → Type 0
IsDistinct [] = Unit
IsDistinct (x ∷ xs) = All (λ y. y ≢ x) xs × IsDistinct xs

module _ (p q : Bytes → Bool) where
  keep-keep : (l : List Bytes) → keep p (keep q l) ≡ keep q (keep p l)
  keep-keep [] = refl
  keep-keep (x ∷ l) = ground (arith, keep-keep l)

  keep_same : (l : List Bytes) → All (λ y. p y ≡ q y) l → keep p l ≡ keep q l
  keep_same [] h = refl
  keep_same (x ∷ l) h = ground (arith, keep_same l h.1, h.0)

  -- What `q` lets through anyway is not lost by picking with `q` first.
  keep-keep_weaker :
      (l : List Bytes) → ((y : Bytes) → p y ≡ true → q y ≡ true) → keep p (keep q l) ≡ keep p l
  keep-keep_weaker [] h = refl
  keep-keep_weaker (x ∷ l) h = ground (arith, keep-keep_weaker l h, h x)

module _ (P : Bytes → Type 0) where
  All-keep : (p : Bytes → Bool) (l : List Bytes) → All P l → All P (keep p l)
  All-keep p [] h = tt
  All-keep p (x ∷ l) h = elim (Bool-cases (p x)) [
    | inl e ↦ rw e (h.0, All-keep p l h.1)
    | inr e ↦ rw e (All-keep p l h.1)
  ]

  All-insert_name : (x : Bytes) (l : List Bytes) → P x → All P l → All P (insert_name x l)
  unfolding insert_name
  All-insert_name x [] hx h = (hx, tt)
  All-insert_name x (y ∷ l) hx h = elim (Bool-cases (name_le x y)) [
    | inl e ↦ rw e (hx, h)
    | inr e ↦ rw e (h.0, All-insert_name x l hx h.1)
  ]

  All-sort_names : (l : List Bytes) → All P l → All P (sort_names l)
  unfolding sort_names
  All-sort_names [] h = tt
  All-sort_names (x ∷ l) h = All-insert_name x (sort_names l) h.0 (All-sort_names l h.1)

  All-take : (n : ℕ) (l : List Bytes) → All P l → All P (take n l)
  All-take zero l h = tt
  All-take (suc n) [] h = tt
  All-take (suc n) (x ∷ l) h = (h.0, All-take n l h.1)

pub keep-IsDistinct : (p : Bytes → Bool) (l : List Bytes) → IsDistinct l → IsDistinct (keep p l)
keep-IsDistinct p [] d = tt
keep-IsDistinct p (x ∷ l) d = elim (Bool-cases (p x)) [
  | inl e ↦ rw e (All-keep (λ y. y ≢ x) p l d.0, keep-IsDistinct p l d.1)
  | inr e ↦ rw e (keep-IsDistinct p l d.1)
]

insert_name-IsDistinct :
    (x : Bytes) (l : List Bytes) → All (λ y. y ≢ x) l → IsDistinct l → IsDistinct (insert_name x l)
unfolding insert_name
insert_name-IsDistinct x [] h d = (tt, tt)
insert_name-IsDistinct x (y ∷ l) h d = elim (Bool-cases (name_le x y)) [
  | inl e ↦ rw e (h, d)
  | inr e ↦ rw e (
    All-insert_name (λ z. z ≢ y) x l (λ same. h.0 (sym same)) d.0,
    insert_name-IsDistinct x l h.1 d.1,
  )
]

pub sort_names-IsDistinct : (l : List Bytes) → IsDistinct l → IsDistinct (sort_names l)
unfolding sort_names
sort_names-IsDistinct [] d = tt
sort_names-IsDistinct (x ∷ l) d =
    insert_name-IsDistinct x (sort_names l) (All-sort_names (λ y. y ≢ x) l d.0)
      (sort_names-IsDistinct l d.1)

bytes_eq-ne : (a b : Bytes) → a ≢ b → bytes_eq a b ≡ false
bytes_eq-ne a b h = elim (Bool-cases (bytes_eq a b)) [
  | inl e ↦ absurd (h (bytes_eq→≡ a b e))
  | inr e ↦ e
]

keep-true : (l : List Bytes) → keep (λ y. true) l ≡ l
keep-true [] = refl
keep-true (x ∷ l) = ap (λ t. x ∷ t) (keep-true l)

is_in_others :
    (x : Bytes) (t l : List Bytes)
    → All (λ y. y ≢ x) l
    → All (λ y. not (is_in (x ∷ t) y) ≡ not (is_in t y)) l
is_in_others x t [] h = tt
is_in_others x t (y ∷ l) h = (rw (bytes_eq-ne y x h.0) refl, is_in_others x t l h.1)

-- In a list without repetitions, what is not among the first n is what stands behind them.
not_among_first :
    (n : ℕ) (l : List Bytes) → IsDistinct l → keep (λ y. not (is_in (take n l) y)) l ≡ drop n l
not_among_first zero l d = keep-true l
not_among_first (suc n) [] d = refl
not_among_first (suc n) (x ∷ l) d =
    let rest = λ (y : Bytes). not (is_in (x ∷ take n l) y) in
    let dropped : rest x ≡ false = rw (bytes_eq_refl x) refl in
    rw dropped (
      keep_same rest (λ y. not (is_in (take n l) y)) l (is_in_others x (take n l) l d.0)
      ∙ not_among_first n l d.1)

All-kept : (p : Bytes → Bool) (l : List Bytes) → All (λ y. p y ≡ true) (keep p l)
All-kept p [] = tt
All-kept p (x ∷ l) = elim (Bool-cases (p x)) [
  | inl e ↦ rw e (e, All-kept p l)
  | inr e ↦ rw e (All-kept p l)
]

is_in_kind :
    (p : Bytes → Bool) (y : Bytes) (l : List Bytes)
    → All (λ z. p z ≡ true) l
    → p y ≡ false
    → is_in l y ≡ false
is_in_kind p y [] h no_p = refl
is_in_kind p y (z ∷ l) h no_p =
    let differs : bytes_eq y z ≡ false = bytes_eq-ne y z (λ e. cc (ap p e, h.0)) in
    rw differs (is_in_kind p y l h.1 no_p)

abbrev oldest : List Bytes → List Bytes
oldest dir = take (length (backups_in dir) - keep_count) (backups_in dir)

stays_if_no_removal : (b : Bool) → not (b && true) ≡ not b
stays_if_no_removal true = refl
stays_if_no_removal false = refl

All-names : (P : Bytes → Type 0) → ((y : Bytes) → P y) → (l : List Bytes) → All P l
All-names P h [] = tt
All-names P h (x ∷ l) = (h x, All-names P h l)

cleanup_lem :
    (listed : ℕ) (dir : List Bytes)
    → length dir ≤ listed
    → cleanup_old_backups listed (λ name. true) dir ≡ keep (λ y. not (is_in (oldest dir) y)) dir
unfolding cleanup_old_backups
cleanup_lem listed dir whole = rw (take_all listed dir whole) (
    keep_same _ _ dir (
      All-names (λ y. not (is_in (oldest dir) y && true) ≡ not (is_in (oldest dir) y))
        (λ y. stays_if_no_removal (is_in (oldest dir) y)) dir))

is_other : (y : Bytes) → not (is_backup y) ≡ true → is_backup y ≡ false
is_other y h = ground (arith, h)

oldest_are_backups : (dir : List Bytes) → All (λ y. is_backup y ≡ true) (oldest dir)
unfolding backups_in
oldest_are_backups dir =
    All-take (λ y. is_backup y ≡ true) _ _
      (All-sort_names (λ y. is_backup y ≡ true) (keep is_backup dir) (All-kept is_backup dir))

-- What is left of a whole listing, in the code's order.
pub cleanup_backups :
    (listed : ℕ) (dir : List Bytes)
    → length dir ≤ listed
    → IsDistinct dir
    → let dir' = cleanup_old_backups listed (λ name. true) dir in
      (backups_in dir' ≡ drop (length (backups_in dir) - keep_count) (backups_in dir))
      × (keep (λ name. not (is_backup name)) dir' ≡ keep (λ name. not (is_backup name)) dir)
unfolding backups_in
cleanup_backups listed dir whole distinct =
    let young = λ (y : Bytes). not (is_in (oldest dir) y) in
    let files = sort_names (keep is_backup dir) in
    let files-IsDistinct =
      sort_names-IsDistinct (keep is_backup dir) (keep-IsDistinct is_backup dir distinct) in
    let newest : sort_names (keep is_backup (keep young dir))
        ≡ drop (length files - keep_count) files =
      ap sort_names (keep-keep is_backup young dir)
      ∙ sym (keep-sort_names young (keep is_backup dir))
      ∙ not_among_first (length files - keep_count) files files-IsDistinct in
    let others : keep (λ y. not (is_backup y)) (keep young dir)
        ≡ keep (λ y. not (is_backup y)) dir =
      keep-keep_weaker (λ y. not (is_backup y)) young dir
        (λ y other.
          rw (is_in_kind is_backup y (oldest dir) (oldest_are_backups dir) (is_other y other))
            refl) in
    rw (cleanup_lem listed dir whole) (newest, others)
