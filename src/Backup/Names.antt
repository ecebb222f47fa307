-- ===== src/Backup/Names.antt =====
-- Backups sort by name as they sort by time.
use just_in_time.Prelude.{
  ℕ, ◌+◌, ◌*◌, ◌/◌, ◌%◌, ◌<◌, ◌≡◌, refl, ap, ap₂, ◌∙◌, leb, ltb, ◌==◌, if◌then◌else◌, Bool, true,
  false, ◌∷◌, ◌++◌, arith, Bytes, codes,
}
use just_in_time.Backup.Sorting.{name_le_refl}
use just_in_time.Backup.Kept.{IsEarlier, name_le-IsEarlier}
use just_in_time.Backup.{Stamp, name_le, two_digits, four_digits, backup_name}

-- A time that `localtime_s` gives: fields of two digits, and a year of at most four.
pub record IsStamp (t : Stamp) : Type 0 where
  pub year : t.year < 10000
  pub month : t.month < 100
  pub day : t.day < 100
  pub hour : t.hour < 100
  pub minute : t.minute < 100
  pub second : t.second < 100

-- The fields read as one number, the years first.
abbrev pub time_value : Stamp → ℕ
time_value t =
    ((((t.year * 100 + t.month) * 100 + t.day) * 100 + t.hour) * 100 + t.minute) * 100 + t.second

-- The first differing field decides.
abbrev by_field : ℕ → ℕ → Bool → Bool
by_field m n rest = if ltb m n then true else if m == n then rest else false

name_le-digit : (c d : ℕ) (a b : Bytes) → name_le (c ∷ a) (d ∷ b) ≡ by_field c d (name_le a b)
unfolding name_le
name_le-digit c d a b = refl

name_le-two_digits :
    (m n : ℕ) (a b : Bytes)
    → m < 100
    → n < 100
    → name_le (two_digits m ++ a) (two_digits n ++ b) ≡ by_field m n (name_le a b)
unfolding name_le
name_le-two_digits m n a b h h' = ground arith

-- Two fields, the second below 100, decide as the one number that they make up.
join_fields :
    (m n a b : ℕ) (rest : Bool)
    → a < 100
    → b < 100
    → by_field m n (by_field a b rest) ≡ by_field (m * 100 + a) (n * 100 + b) rest
join_fields m n a b rest h h' = ground arith

by_field-last : (m n : ℕ) → by_field m n true ≡ leb m n
by_field-last m n = ground arith

hundreds : (m : ℕ) → m / 100 * 100 + m % 100 ≡ m
hundreds m = omega arith

name_le-four_digits :
    (m n : ℕ) (a b : Bytes)
    → m < 10000
    → n < 10000
    → name_le (four_digits m ++ a) (four_digits n ++ b) ≡ by_field m n (name_le a b)
name_le-four_digits m n a b h h' =
    name_le-two_digits (m / 100) (n / 100) _ _ (omega arith) (omega arith)
    ∙ ap (by_field (m / 100) (n / 100))
        (name_le-two_digits (m % 100) (n % 100) a b (omega arith) (omega arith))
    ∙ join_fields (m / 100) (n / 100) (m % 100) (n % 100) (name_le a b) (omega arith) (omega arith)
    ∙ ap₂ (λ x y. by_field x y (name_le a b)) (hundreds m) (hundreds n)

same_start : (a b : Bytes) → name_le (codes "backup_" ++ a) (codes "backup_" ++ b) ≡ name_le a b
unfolding name_le
same_start a b = refl

abbrev clock_part : Stamp → Bytes
clock_part t = two_digits t.hour ++ (two_digits t.minute ++ (two_digits t.second ++ codes ".json"))

same_end : name_le (codes ".json") (codes ".json") ≡ true
unfolding name_le
same_end = refl

clock_order :
    (t u : Stamp)
    → IsStamp t
    → IsStamp u
    → name_le (b'_' ∷ clock_part t) (b'_' ∷ clock_part u)
      ≡ by_field t.hour u.hour (by_field t.minute u.minute (by_field t.second u.second true))
clock_order t u h h' =
    name_le-digit b'_' b'_' (clock_part t) (clock_part u)
    ∙ name_le-two_digits t.hour u.hour _ _ h.hour h'.hour
    ∙ ap (by_field t.hour u.hour) (
        name_le-two_digits t.minute u.minute _ _ h.minute h'.minute
        ∙ ap (by_field t.minute u.minute) (
            name_le-two_digits t.second u.second _ _ h.second h'.second
            ∙ ap (by_field t.second u.second) same_end))

-- For any two times with fields in range, the names of their backups are in order exactly if the
-- times are: sorting the names sorts the backups by time, as the clean-up expects.
pub backup_name-order :
    (t u : Stamp)
    → IsStamp t
    → IsStamp u
    → name_le (backup_name t) (backup_name u) ≡ leb (time_value t) (time_value u)
unfolding backup_name
backup_name-order t u h h' =
    same_start _ _
    ∙ name_le-four_digits t.year u.year _ _ h.year h'.year
    ∙ ap (by_field t.year u.year) (
        name_le-two_digits t.month u.month _ _ h.month h'.month
        ∙ ap (by_field t.month u.month) (
            name_le-two_digits t.day u.day _ _ h.day h'.day
            ∙ ap (by_field t.day u.day) (clock_order t u h h')))
    ∙ join_fields t.year u.year t.month u.month _ h.month h'.month
    ∙ join_fields _ _ t.day u.day _ h.day h'.day
    ∙ join_fields _ _ t.hour u.hour _ h.hour h'.hour
    ∙ join_fields _ _ t.minute u.minute _ h.minute h'.minute
    ∙ join_fields _ _ t.second u.second true h.second h'.second
    ∙ by_field-last (time_value t) (time_value u)

-- For any two times with fields in range, the name of the backup of the earlier one stands before that
-- of the later one in the order of the dictionary.
pub backup_name-IsEarlier :
    (t u : Stamp)
    → IsStamp t
    → IsStamp u
    → time_value t < time_value u
    → IsEarlier (backup_name t) (backup_name u)
backup_name-IsEarlier t u h h' before =
    let le : name_le (backup_name t) (backup_name u) ≡ true =
      backup_name-order t u h h' ∙ ground arith in
    let not_ge : name_le (backup_name u) (backup_name t) ≡ false =
      backup_name-order u t h' h ∙ ground arith in
    name_le-IsEarlier (backup_name t) (backup_name u) le (λ same.
      cc (not_ge, le, ap (λ n. name_le n (backup_name t)) same, name_le_refl (backup_name t)))
