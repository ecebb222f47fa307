-- ===== src/Usage/Groups.antt =====
-- GROUP BY and ORDER BY: one entry for each process, with its sum, and the larger sums first.
use just_in_time.Prelude.{
  ℕ, ◌+◌, ◌≤◌, ◌≡◌, refl, sym, ap, ◌∙◌, if◌then◌else◌, Bool, Bool-cases, inl, inr, true, false,
  List, [], ◌∷◌, arith, Bytes, bytes_eq, bytes_eq→≡, leb, leb→le, leb→lt, keep, any, All,
}
use just_in_time.Db.{Row}
use just_in_time.Db.Update.{sum_seconds}
use just_in_time.Usage.{AppUsage, add_to_group, group_by_process, insert_usage, order_by_total}

-- The process has an entry, the seconds of its first entry, and its rows.
abbrev pub is_listed : Bytes → List AppUsage → Bool
is_listed n = any (λ u. bytes_eq u.process_name n)

abbrev pub total_of : Bytes → List AppUsage → ℕ
total_of n [] = 0
total_of n (u ∷ us) = if bytes_eq u.process_name n then u.total_seconds else total_of n us

abbrev pub seconds_of : Bytes → List Row → ℕ
seconds_of n rows = sum_seconds (keep (λ r. bytes_eq r.process_name n) rows)

-- No process has two entries.
abbrev pub IsApart : List AppUsage → Type 0
IsApart [] = Unit
IsApart (u ∷ us) = (is_listed u.process_name us ≡ false) × IsApart us

abbrev pub IsBelow : ℕ → List AppUsage → Type 0
IsBelow n = All (λ u. u.total_seconds ≤ n)

abbrev pub IsDescending : List AppUsage → Type 0
IsDescending [] = Unit
IsDescending (u ∷ us) = IsBelow u.total_seconds us × IsDescending us

-- What holds a text equal to one of two different texts tells it from the other.
pub bytes_eq-sym : (a b : Bytes) → bytes_eq a b ≡ bytes_eq b a
bytes_eq-sym [] [] = refl
bytes_eq-sym [] (d ∷ b) = refl
bytes_eq-sym (c ∷ a) [] = refl
bytes_eq-sym (c ∷ a) (d ∷ b) = ground (arith, bytes_eq-sym a b)

tells_apart : (a b n : Bytes) → bytes_eq a b ≡ false → bytes_eq a n ≡ true → bytes_eq b n ≡ false
tells_apart a b n h e = bytes_eq-sym b n ∙ ap (λ x. bytes_eq x b) (sym (bytes_eq→≡ a n e)) ∙ h

total_of-add :
    (n : Bytes) (r : Row) (us : List AppUsage)
    → total_of n (add_to_group r us)
      ≡ (if bytes_eq r.process_name n then r.duration_seconds + total_of n us else total_of n us)
unfolding add_to_group
total_of-add n r [] = ground arith
total_of-add n r (u ∷ us) = elim (Bool-cases (bytes_eq u.process_name r.process_name)) [
  | inl e ↦ rw (e, bytes_eq→≡ u.process_name r.process_name e) (ground arith)
  | inr e ↦ rw e (elim (Bool-cases (bytes_eq u.process_name n)) [
    | inl there ↦ rw (there, tells_apart u.process_name r.process_name n e there) refl
    | inr gone ↦ rw gone (total_of-add n r us)
  ])
]

-- An entry's sum is that of the process's rows.
pub total_of-group_by_process :
    (n : Bytes) (rows : List Row) → total_of n (group_by_process rows) ≡ seconds_of n rows
unfolding group_by_process sum_seconds
total_of-group_by_process n [] = refl
total_of-group_by_process n (r ∷ rows) =
    total_of-add n r (group_by_process rows) ∙ ground (arith, total_of-group_by_process n rows)

not_listed-add :
    (n : Bytes) (r : Row) (us : List AppUsage)
    → bytes_eq r.process_name n ≡ false
    → is_listed n us ≡ false
    → is_listed n (add_to_group r us) ≡ false
unfolding add_to_group
not_listed-add n r [] h k = rw h refl
not_listed-add n r (u ∷ us) h k = ground (arith, not_listed-add n r us)

add_to_group-IsApart : (r : Row) (us : List AppUsage) → IsApart us → IsApart (add_to_group r us)
unfolding add_to_group
add_to_group-IsApart r [] a = (refl, tt)
add_to_group-IsApart r (u ∷ us) a = elim (Bool-cases (bytes_eq u.process_name r.process_name)) [
  | inl e ↦ rw e a
  | inr e ↦ rw e (
    not_listed-add u.process_name r us (bytes_eq-sym r.process_name u.process_name ∙ e) a.0,
    add_to_group-IsApart r us a.1,
  )
]

pub group_by_process-IsApart : (rows : List Row) → IsApart (group_by_process rows)
unfolding group_by_process
group_by_process-IsApart [] = tt
group_by_process-IsApart (r ∷ rows) =
    add_to_group-IsApart r (group_by_process rows) (group_by_process-IsApart rows)

not_listed-insert :
    (n : Bytes) (u : AppUsage) (us : List AppUsage)
    → is_listed n (u ∷ us) ≡ false
    → is_listed n (insert_usage u us) ≡ false
unfolding insert_usage
not_listed-insert n u [] h = h
not_listed-insert n u (x ∷ us) h = ground (arith, not_listed-insert n u us)

insert_usage-IsApart :
    (u : AppUsage) (us : List AppUsage) → IsApart (u ∷ us) → IsApart (insert_usage u us)
unfolding insert_usage
insert_usage-IsApart u [] a = a
insert_usage-IsApart u (x ∷ us) a = elim (Bool-cases (leb x.total_seconds u.total_seconds)) [
  | inl e ↦ rw e a
  | inr e ↦
      let apart : bytes_eq x.process_name u.process_name ≡ false = ground (arith, a.0) in
      let rest : is_listed u.process_name us ≡ false = ground (arith, a.0) in
      rw e (
        not_listed-insert x.process_name u us
            (rw (bytes_eq-sym u.process_name x.process_name ∙ apart) a.1.0),
        insert_usage-IsApart u us (rest, a.1.1),
      )
]

total_of-insert :
    (n : Bytes) (u : AppUsage) (us : List AppUsage)
    → is_listed u.process_name us ≡ false
    → total_of n (insert_usage u us) ≡ total_of n (u ∷ us)
unfolding insert_usage
total_of-insert n u [] h = refl
total_of-insert n u (x ∷ us) h = elim (Bool-cases (leb x.total_seconds u.total_seconds)) [
  | inl e ↦ rw e refl
  | inr e ↦
      let apart : bytes_eq x.process_name u.process_name ≡ false = ground (arith, h) in
      let rest : is_listed u.process_name us ≡ false = ground (arith, h) in
      rw e (elim (Bool-cases (bytes_eq x.process_name n)) [
        | inl there ↦ rw (there, tells_apart x.process_name u.process_name n apart there) refl
        | inr gone ↦ rw gone (total_of-insert n u us rest)
      ])
]

not_listed-order :
    (n : Bytes) (us : List AppUsage)
    → is_listed n us ≡ false
    → is_listed n (order_by_total us) ≡ false
unfolding order_by_total
not_listed-order n [] h = refl
not_listed-order n (u ∷ us) h =
    not_listed-insert n u (order_by_total us) (ground (arith, h, not_listed-order n us))

pub order_by_total-IsApart : (us : List AppUsage) → IsApart us → IsApart (order_by_total us)
unfolding order_by_total
order_by_total-IsApart [] a = tt
order_by_total-IsApart (u ∷ us) a =
    insert_usage-IsApart u (order_by_total us)
      (not_listed-order u.process_name us a.0, order_by_total-IsApart us a.1)

-- Sorting changes no sum.
pub total_of-order :
    (n : Bytes) (us : List AppUsage) → IsApart us → total_of n (order_by_total us) ≡ total_of n us
unfolding order_by_total
total_of-order n [] a = refl
total_of-order n (u ∷ us) a =
    total_of-insert n u (order_by_total us) (not_listed-order u.process_name us a.0)
    ∙ ground (arith, total_of-order n us a.1)

IsBelow-le : (m n : ℕ) (us : List AppUsage) → m ≤ n → IsBelow m us → IsBelow n us
IsBelow-le m n [] h b = tt
IsBelow-le m n (u ∷ us) h b = (omega (arith, b.0), IsBelow-le m n us h b.1)

insert_usage-IsBelow :
    (n : ℕ) (u : AppUsage) (us : List AppUsage)
    → u.total_seconds ≤ n
    → IsBelow n us
    → IsBelow n (insert_usage u us)
unfolding insert_usage
insert_usage-IsBelow n u [] h b = (h, tt)
insert_usage-IsBelow n u (x ∷ us) h b = ground (arith, insert_usage-IsBelow n u us)

insert_usage-IsDescending :
    (u : AppUsage) (us : List AppUsage) → IsDescending us → IsDescending (insert_usage u us)
unfolding insert_usage
insert_usage-IsDescending u [] d = (tt, tt)
insert_usage-IsDescending u (x ∷ us) d = elim (Bool-cases (leb x.total_seconds u.total_seconds)) [
  | inl e ↦
      let le = leb→le x.total_seconds u.total_seconds e in
      rw e ((le, IsBelow-le x.total_seconds u.total_seconds us le d.0), d)
  | inr e ↦
      let lt = leb→lt x.total_seconds u.total_seconds e in
      rw e (
        insert_usage-IsBelow x.total_seconds u us (omega (arith, lt)) d.0,
        insert_usage-IsDescending u us d.1,
      )
]

pub order_by_total-IsDescending : (us : List AppUsage) → IsDescending (order_by_total us)
unfolding order_by_total
order_by_total-IsDescending [] = tt
order_by_total-IsDescending (u ∷ us) =
    insert_usage-IsDescending u (order_by_total us) (order_by_total-IsDescending us)
