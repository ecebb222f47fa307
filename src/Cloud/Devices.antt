-- ===== src/Cloud/Devices.antt =====
-- The dashboard's list of devices: sorted, without repetitions, and with every device of the totals.
use just_in_time.Prelude.{
  ◌≡◌, ◌≢◌, refl, sym, ap, ◌∙◌, if◌then◌else◌, Bool, Bool-cases, inl, inr, true, false, List, [],
  ◌∷◌, ◌++◌, Bytes, bytes_eq, bytes_eq_refl, bytes_eq→≡, All, All-append, any, arith,
}
use just_in_time.Backup.{is_in, sort_names, insert_name}
use just_in_time.Backup.Sorting.{IsSorted, sort_names-IsSorted}
use just_in_time.Backup.Newest.{IsDistinct, sort_names-IsDistinct}
use just_in_time.Cloud.Rows.{DailyTotal, add_new, collect_devices, distinct_devices}

-- Either of two, as a test.
abbrev either : Bool → Bool → Bool
either true b = true
either false b = b

either-false : (b : Bool) → either b false ≡ b
either-false true = refl
either-false false = refl

is_in-append : (d : Bytes) (a b : List Bytes) → is_in (a ++ b) d ≡ either (is_in a d) (is_in b d)
is_in-append d [] b = refl
is_in-append d (x ∷ a) b = ground (arith, is_in-append d a b)

is_in-insert_name : (d x : Bytes) (l : List Bytes) → is_in (insert_name x l) d ≡ is_in (x ∷ l) d
unfolding insert_name
is_in-insert_name d x [] = refl
is_in-insert_name d x (y ∷ l) = ground (arith, is_in-insert_name d x l)

is_in-sort_names : (d : Bytes) (l : List Bytes) → is_in (sort_names l) d ≡ is_in l d
unfolding sort_names
is_in-sort_names d [] = refl
is_in-sort_names d (x ∷ l) =
    is_in-insert_name d x (sort_names l) ∙ ground (arith, is_in-sort_names d l)

already :
    (d x : Bytes) (out : List Bytes)
    → is_in out x ≡ true
    → is_in out d ≡ either (is_in out d) (bytes_eq d x)
already d x out h = elim (Bool-cases (bytes_eq d x)) [
  | inl e ↦ let there : is_in out d ≡ true = ap (is_in out) (bytes_eq→≡ d x e) ∙ h in rw there refl
  | inr e ↦ rw e (sym (either-false (is_in out d)))
]

last_one : (a b : Bool) → either a (if b then true else false) ≡ either a b
last_one true b = refl
last_one false true = refl
last_one false false = refl

is_in-add_new :
    (d x : Bytes) (out : List Bytes) → is_in (add_new x out) d ≡ either (is_in out d) (bytes_eq d x)
unfolding add_new
is_in-add_new d x out = elim (Bool-cases (is_in out x)) [
  | inl old ↦ rw old (already d x out old)
  | inr new ↦ rw new (is_in-append d out (x ∷ []) ∙ last_one (is_in out d) (bytes_eq d x))
]

not_in_ne : (x : Bytes) (l : List Bytes) → is_in l x ≡ false → All (λ y. x ≢ y) l
not_in_ne x [] h = tt
not_in_ne x (y ∷ l) h =
    let differs : bytes_eq x y ≡ false = ground (arith, h) in
    (
      (λ e. cc (ap (λ z. bytes_eq z y) e, differs, bytes_eq_refl y)),
      not_in_ne x l (ground (arith, h)),
    )

append-IsDistinct :
    (x : Bytes) (l : List Bytes) → All (λ y. x ≢ y) l → IsDistinct l → IsDistinct (l ++ x ∷ [])
append-IsDistinct x [] h d = (tt, tt)
append-IsDistinct x (y ∷ l) h d =
    (All-append (λ z. z ≢ y) l (x ∷ []) d.0 (h.0, tt), append-IsDistinct x l h.1 d.1)

add_new-IsDistinct : (x : Bytes) (out : List Bytes) → IsDistinct out → IsDistinct (add_new x out)
unfolding add_new
add_new-IsDistinct x out d = elim (Bool-cases (is_in out x)) [
  | inl old ↦ rw old d
  | inr new ↦ rw new (append-IsDistinct x out (not_in_ne x out new) d)
]

collect_devices-IsDistinct :
    (ts : List DailyTotal) (out : List Bytes) → IsDistinct out → IsDistinct (collect_devices ts out)
unfolding collect_devices
collect_devices-IsDistinct [] out d = d
collect_devices-IsDistinct (t ∷ ts) out d =
    collect_devices-IsDistinct ts (add_new t.device_id out) (add_new-IsDistinct t.device_id out d)

either_if : (a b : Bool) → either a b ≡ (if a then true else b)
either_if true b = refl
either_if false b = refl

either_assoc : (a b c : Bool) → either (either a b) c ≡ either a (either b c)
either_assoc true b c = refl
either_assoc false b c = refl

is_in-collect_devices :
    (d : Bytes) (ts : List DailyTotal) (out : List Bytes)
    → is_in (collect_devices ts out) d ≡ either (is_in out d) (any (λ t. bytes_eq d t.device_id) ts)
unfolding collect_devices
is_in-collect_devices d [] out = sym (either-false (is_in out d))
is_in-collect_devices d (t ∷ ts) out =
    is_in-collect_devices d ts (add_new t.device_id out)
    ∙ ap (λ b. either b (any (λ u. bytes_eq d u.device_id) ts)) (is_in-add_new d t.device_id out)
    ∙ either_assoc (is_in out d) (bytes_eq d t.device_id) _
    ∙ ap (either (is_in out d)) (either_if (bytes_eq d t.device_id) _)

-- The list of devices is sorted and names no device twice, and a device is in it exactly if one of
-- the totals has it.
pub distinct_devices_lem :
    (ts : List DailyTotal)
    → IsSorted (distinct_devices ts)
      × IsDistinct (distinct_devices ts)
      × ((d : Bytes) → is_in (distinct_devices ts) d ≡ any (λ t. bytes_eq d t.device_id) ts)
unfolding distinct_devices
distinct_devices_lem ts = (
  sort_names-IsSorted (collect_devices ts []),
  sort_names-IsDistinct (collect_devices ts []) (collect_devices-IsDistinct ts [] tt),
  λ d. is_in-sort_names d (collect_devices ts []) ∙ is_in-collect_devices d ts [],
)
