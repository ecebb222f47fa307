-- ===== src/Backup/Sorting.antt =====
-- The order of names is total, and sorting by it commutes with picking names out.
use just_in_time.Prelude.{
  ◌≡◌, refl, ◌∙◌, if◌then◌else◌, Bool, Bool-cases, inl, inr, true, false, List, [], ◌∷◌, arith,
  Bytes, keep, All,
}
use just_in_time.Backup.{name_le, insert_name, sort_names}

pub name_le_refl : (a : Bytes) → name_le a a ≡ true
unfolding name_le
name_le_refl [] = refl
name_le_refl (c ∷ a) = ground (arith, name_le_refl a)

pub name_le_total : (a b : Bytes) → name_le a b ≡ false → name_le b a ≡ true
unfolding name_le
name_le_total [] b h = cc
name_le_total (c ∷ a) [] h = refl
name_le_total (c ∷ a) (d ∷ b) h = ground (arith, name_le_total a b)

pub name_le_trans : (a b c : Bytes) → name_le a b ≡ true → name_le b c ≡ true → name_le a c ≡ true
unfolding name_le
name_le_trans [] b c h h' = refl
name_le_trans (x ∷ a) [] c h h' = cc
name_le_trans (x ∷ a) (y ∷ b) [] h h' = cc
name_le_trans (x ∷ a) (y ∷ b) (z ∷ c) h h' = ground (arith, name_le_trans a b c)

-- Every name of the list is at least `x`.
abbrev pub IsBelow : Bytes → List Bytes → Type 0
IsBelow x = All (λ y. name_le x y ≡ true)

abbrev pub IsSorted : List Bytes → Type 0
IsSorted [] = Unit
IsSorted (x ∷ xs) = IsBelow x xs × IsSorted xs

IsBelow-le : (x y : Bytes) (l : List Bytes) → name_le x y ≡ true → IsBelow y l → IsBelow x l
IsBelow-le x y [] h b = tt
IsBelow-le x y (z ∷ l) h b = (name_le_trans x y z h b.0, IsBelow-le x y l h b.1)

IsBelow-insert_name :
    (x y : Bytes) (l : List Bytes) → name_le x y ≡ true → IsBelow x l → IsBelow x (insert_name y l)
unfolding insert_name
IsBelow-insert_name x y [] h b = (h, tt)
IsBelow-insert_name x y (z ∷ l) h b = ground (arith, IsBelow-insert_name x y l)

insert_name-IsSorted : (x : Bytes) (l : List Bytes) → IsSorted l → IsSorted (insert_name x l)
unfolding insert_name
insert_name-IsSorted x [] s = (tt, tt)
insert_name-IsSorted x (y ∷ l) s = elim (Bool-cases (name_le x y)) [
  | inl le ↦ rw le ((le, IsBelow-le x y l le s.0), s)
  | inr gt ↦
      rw gt (IsBelow-insert_name y x l (name_le_total x y gt) s.0, insert_name-IsSorted x l s.1)
]

pub sort_names-IsSorted : (l : List Bytes) → IsSorted (sort_names l)
unfolding sort_names
sort_names-IsSorted [] = tt
sort_names-IsSorted (x ∷ l) = insert_name-IsSorted x (sort_names l) (sort_names-IsSorted l)

keep-IsBelow : (p : Bytes → Bool) (x : Bytes) (l : List Bytes) → IsBelow x l → IsBelow x (keep p l)
keep-IsBelow p x [] b = tt
keep-IsBelow p x (y ∷ l) b = ground (arith, keep-IsBelow p x l b.1)

insert_name-IsBelow : (x : Bytes) (l : List Bytes) → IsBelow x l → insert_name x l ≡ x ∷ l
unfolding insert_name
insert_name-IsBelow x [] b = refl
insert_name-IsBelow x (y ∷ l) b = rw b.0 refl

keep-insert_name :
    (p : Bytes → Bool) (x : Bytes) (l : List Bytes)
    → IsSorted l
    → keep p (insert_name x l) ≡ (if p x then insert_name x (keep p l) else keep p l)
unfolding insert_name
keep-insert_name p x [] s = refl
keep-insert_name p x (y ∷ l) s = elim (Bool-cases (name_le x y)) [
  | inl le ↦
      let below : IsBelow x (keep p (y ∷ l)) =
        keep-IsBelow p x (y ∷ l) (le, IsBelow-le x y l le s.0) in
      rw le (rw (insert_name-IsBelow x (keep p (y ∷ l)) below) refl)
  | inr gt ↦ rw gt (ground (arith, keep-insert_name p x l s.1, gt))
]

pub keep-sort_names :
    (p : Bytes → Bool) (l : List Bytes) → keep p (sort_names l) ≡ sort_names (keep p l)
unfolding sort_names
keep-sort_names p [] = refl
keep-sort_names p (x ∷ l) =
    keep-insert_name p x (sort_names l) (sort_names-IsSorted l)
    ∙ ground (arith, keep-sort_names p l)

-- Names all of which are at least those before them stand apart from these.
pub name_le_antisym : (a b : Bytes) → name_le a b ≡ true → name_le b a ≡ true → a ≡ b
unfolding name_le
name_le_antisym [] [] h h' = refl
name_le_antisym [] (d ∷ b) h h' = cc
name_le_antisym (c ∷ a) [] h h' = cc
name_le_antisym (c ∷ a) (d ∷ b) h h' = ground (arith, name_le_antisym a b)
