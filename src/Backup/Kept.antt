-- ===== src/Backup/Kept.antt =====
-- The clean-up of src/agent/shared/backup.cpp keeps the newest backups and all other files.
use mathlib.Core.List.{Perm}
use mathlib.Core.List.Perm
use just_in_time.Prelude.{
  ℕ, zero, suc, ◌-◌, ◌≤◌, ◌<◌, ◌≡◌, ◌≢◌, refl, sym, subst, ap, ap₂, ◌∙◌, Bool-cases, inl, inr, true,
  not, List, [], ◌∷◌, ◌++◌, arith, Bytes, length, keep, take, drop, All, ltb, min,
}
use just_in_time.Backup.{
  name_le, insert_name, sort_names, is_backup, backups_in, cleanup_old_backups, keep_count,
}
use just_in_time.Backup.Sorting.{IsBelow, IsSorted, sort_names-IsSorted}
use just_in_time.Backup.Newest.{IsDistinct, keep-IsDistinct, sort_names-IsDistinct, cleanup_backups}

-- The order of the dictionary: `a` is a beginning of `b`, or is lower at the first difference.
pub data IsEarlier : Bytes → Bytes → Type 0 where
  shorter : (d : ℕ) (b : Bytes) → IsEarlier [] (d ∷ b)
  lower : (c d : ℕ) (a b : Bytes) → c < d → IsEarlier (c ∷ a) (d ∷ b)
  further : (c d : ℕ) (a b : Bytes) → c ≡ d → IsEarlier a b → IsEarlier (c ∷ a) (d ∷ b)

pub name_le-IsEarlier : (a b : Bytes) → name_le a b ≡ true → b ≢ a → IsEarlier a b
unfolding name_le
name_le-IsEarlier [] [] h ne = absurd (ne refl)
name_le-IsEarlier [] (d ∷ b) h ne = shorter d b
name_le-IsEarlier (c ∷ a) [] h ne = cc
name_le-IsEarlier (c ∷ a) (d ∷ b) h ne = elim (Bool-cases (ltb c d)) [
  | inl lt ↦ lower c d a b (ground arith)
  | inr ge ↦
      let same : c ≡ d = ground arith in
      let le : name_le a b ≡ true = ground arith in
      further c d a b same (name_le-IsEarlier a b le (λ e. ne (ap₂ (λ x l. x ∷ l) (sym same) e)))
]

All-IsEarlier :
    (x : Bytes) (l : List Bytes) → IsBelow x l → All (λ y. y ≢ x) l → All (IsEarlier x) l
All-IsEarlier x [] b d = tt
All-IsEarlier x (y ∷ l) b d = (name_le-IsEarlier x y b.0 d.0, All-IsEarlier x l b.1 d.1)

All-drop : (P : Bytes → Type 0) (n : ℕ) (l : List Bytes) → All P l → All P (drop n l)
All-drop P zero l h = h
All-drop P (suc n) [] h = tt
All-drop P (suc n) (x ∷ l) h = All-drop P n l h.1

-- In a sorted list each name of the first n is earlier than each behind them.
take-IsEarlier :
    (n : ℕ) (l : List Bytes)
    → IsSorted l
    → IsDistinct l
    → All (λ old. All (IsEarlier old) (drop n l)) (take n l)
take-IsEarlier zero l s d = tt
take-IsEarlier (suc n) [] s d = tt
take-IsEarlier (suc n) (x ∷ l) s d =
    (All-drop (IsEarlier x) n l (All-IsEarlier x l s.0 d.0), take-IsEarlier n l s.1 d.1)

insert_name-perm : (x : Bytes) (l : List Bytes) → Perm (insert_name x l) (x ∷ l)
unfolding insert_name
insert_name-perm x [] = Perm.refl (x ∷ [])
insert_name-perm x (y ∷ l) = elim (Bool-cases (name_le x y)) [
  | inl le ↦ rw le (Perm.refl (x ∷ y ∷ l))
  | inr gt ↦ rw gt (Perm.trans (Perm.cons y (insert_name-perm x l)) (Perm.swap x y l))
]

sort_names-perm : (l : List Bytes) → Perm (sort_names l) l
unfolding sort_names
sort_names-perm [] = Perm.refl []
sort_names-perm (x ∷ l) =
    Perm.trans (insert_name-perm x (sort_names l)) (Perm.cons x (sort_names-perm l))

module _ (P : Bytes → Type 0) where
  insert_name-All : (x : Bytes) (l : List Bytes) → All P (insert_name x l) → All P (x ∷ l)
  unfolding insert_name
  insert_name-All x [] h = h
  insert_name-All x (y ∷ l) h = elim (Bool-cases (name_le x y)) [
    | inl le ↦ rw le at h
    | inr gt ↦
        let h' : All P (y ∷ insert_name x l) = rw gt at h in
        let inner = insert_name-All x l h'.1 in (inner.0, (h'.0, inner.1))
  ]

  sort_names-All : (l : List Bytes) → All P (sort_names l) → All P l
  unfolding sort_names
  sort_names-All [] h = tt
  sort_names-All (x ∷ l) h =
      let parts = insert_name-All x (sort_names l) h in (parts.0, sort_names-All l parts.1)

All-map : (P Q : Bytes → Type 0) → ((y : Bytes) → P y → Q y) → (l : List Bytes) → All P l → All Q l
All-map P Q f [] h = tt
All-map P Q f (x ∷ l) h = (f x h.0, All-map P Q f l h.1)

length-insert_name : (x : Bytes) (l : List Bytes) → length (insert_name x l) ≡ suc (length l)
unfolding insert_name
length-insert_name x [] = refl
length-insert_name x (y ∷ l) = ground (arith, length-insert_name x l)

length-sort_names : (l : List Bytes) → length (sort_names l) ≡ length l
unfolding sort_names
length-sort_names [] = refl
length-sort_names (x ∷ l) = length-insert_name x (sort_names l) ∙ ap suc (length-sort_names l)

length-drop : (n : ℕ) (l : List Bytes) → length (drop n l) ≡ length l - n
length-drop zero l = omega arith
length-drop (suc n) [] = omega arith
length-drop (suc n) (x ∷ l) = length-drop n l ∙ omega arith

take-append-drop : (n : ℕ) (l : List Bytes) → take n l ++ drop n l ≡ l
take-append-drop zero l = refl
take-append-drop (suc n) [] = refl
take-append-drop (suc n) (x ∷ l) = ap (λ t. x ∷ t) (take-append-drop n l)

-- If the whole directory, in which no name stands twice, is listed and each file can be removed, the
-- clean-up leaves 14 of the backups, or all if there are fewer. The backups of before are those left
-- and the removed ones, and the name of each removed one stands in the order of the dictionary before
-- that of each that is left. The files that are no backup are left, in their order.
pub cleanup_keeps_newest :
    (listed : ℕ) (dir : List Bytes)
    → length dir ≤ listed
    → IsDistinct dir
    → let dir' = cleanup_old_backups listed (λ name. true) dir in
      (removed : List Bytes) × Perm (removed ++ keep is_backup dir') (keep is_backup dir)
      × All (λ old. All (IsEarlier old) (keep is_backup dir')) removed
      × (length (keep is_backup dir') ≡ min keep_count (length (keep is_backup dir)))
      × (keep (λ name. not (is_backup name)) dir' ≡ keep (λ name. not (is_backup name)) dir)
unfolding backups_in
cleanup_keeps_newest listed dir whole distinct =
    let dir' = cleanup_old_backups listed (λ name. true) dir in
    let before = keep is_backup dir in
    let left = keep is_backup dir' in
    let files = sort_names before in
    let surplus = length files - keep_count in
    let (newest, others) = cleanup_backups listed dir whole distinct in
    let files-IsDistinct = sort_names-IsDistinct before (keep-IsDistinct is_backup dir distinct) in
    let earlier = take-IsEarlier surplus files (sort_names-IsSorted before) files-IsDistinct in
    let order : Perm left (drop surplus files) =
      subst (λ l. Perm left l) newest (Perm.symm (sort_names-perm left)) in
    (
      take surplus files,
      Perm.trans (Perm.append_left (take surplus files) order)
          (rw (take-append-drop surplus files) (sort_names-perm before)),
      All-map (λ old. All (IsEarlier old) (drop surplus files)) (λ old. All (IsEarlier old) left)
          (λ old h.
            sort_names-All (IsEarlier old) left (subst (All (IsEarlier old)) (sym newest) h))
          (take surplus files) earlier,
      omega (
        arith,
        sym (length-sort_names left) ∙ ap length newest,
        length-drop surplus files,
        length-sort_names before,
      ),
      others,
    )
