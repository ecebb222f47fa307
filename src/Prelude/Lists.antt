-- ===== src/Prelude/Lists.antt =====
-- Lists measured and indexed by native numbers, under the library's names.
use Prim.Native.Nat.{ℕ, zero, suc, ◌+◌, ◌≤◌, min}
use mathlib.Core.Path.{◌≡◌, refl, ap, ap₂}
use mathlib.Core.Bool.{Bool, true, false, not}
use mathlib.Core.Option.{Option, none, some}
use mathlib.Core.List.{List, [], ◌∷◌, ◌++◌, map}
use native.Mathlib.Omega.{arith}
use just_in_time.Prelude.Tests.{leb, ltb, ◌==◌, if◌then◌else◌}

module _ {ℓ} {A : Type ℓ} where
  abbrev pub length : List A → ℕ
  length [] = 0
  length (x ∷ xs) = suc (length xs)

  abbrev pub get_elem? : List A → ℕ → Option A
  get_elem? [] i = none
  get_elem? (x ∷ xs) zero = some x
  get_elem? (x ∷ xs) (suc i) = get_elem? xs i

  abbrev pub take : ℕ → List A → List A
  take zero xs = []
  take (suc n) [] = []
  take (suc n) (x ∷ xs) = x ∷ take n xs

  abbrev pub drop : ℕ → List A → List A
  drop zero xs = xs
  drop (suc n) [] = []
  drop (suc n) (x ∷ xs) = drop n xs

  -- The elements that pass a test, kept in order.
  abbrev pub keep : (A → Bool) → List A → List A
  keep p [] = []
  keep p (x ∷ xs) = if p x then x ∷ keep p xs else keep p xs

  abbrev pub any : (A → Bool) → List A → Bool
  any p [] = false
  any p (x ∷ xs) = if p x then true else any p xs

module _ {ℓ} {A : Type ℓ} where
  pub length-append : (xs ys : List A) → length (xs ++ ys) ≡ length xs + length ys
  length-append [] ys = omega arith
  length-append (x ∷ xs) ys = omega (arith, length-append xs ys)

  pub length-take : (n : ℕ) (xs : List A) → length (take n xs) ≡ min n (length xs)
  length-take zero xs = omega arith
  length-take (suc n) [] = omega arith
  length-take (suc n) (x ∷ xs) = omega (arith, length-take n xs)

  pub take_all : (n : ℕ) (xs : List A) → length xs ≤ n → take n xs ≡ xs
  take_all zero [] h = refl
  take_all zero (x ∷ xs) h = absurd (omega arith)
  take_all (suc n) [] h = refl
  take_all (suc n) (x ∷ xs) h = ap (λ l. x ∷ l) (take_all n xs (omega arith))

  pub length-keep : (p : A → Bool) (xs : List A) → length (keep p xs) ≤ length xs
  length-keep p [] = omega arith
  length-keep p (x ∷ xs) = ground (arith, length-keep p xs)

  pub keep-append : (p : A → Bool) (xs ys : List A) → keep p (xs ++ ys) ≡ keep p xs ++ keep p ys
  keep-append p [] ys = refl
  keep-append p (x ∷ xs) ys = ground (arith, keep-append p xs ys)

module _ {ℓ κ} {A : Type ℓ} where
  abbrev pub All : (A → Type κ) → List A → Type κ
  All P [] = Unit
  All P (x ∷ xs) = P x × All P xs

module _ {ℓ κ} {A : Type ℓ} (P : A → Type κ) where
  pub All-append : (xs ys : List A) → All P xs → All P ys → All P (xs ++ ys)
  All-append [] ys hx hy = hy
  All-append (x ∷ xs) ys hx hy = (hx.0, All-append xs ys hx.1 hy)

-- How often a number occurs in a list.
abbrev pub count : ℕ → List ℕ → ℕ
count i [] = 0
count i (j ∷ js) = (if j == i then 1 else 0) + count i js

pub count-append :
    (i : ℕ) (front back : List ℕ) → count i (front ++ back) ≡ count i front + count i back
count-append i [] back = omega arith
count-append i (j ∷ front) back = ground (arith, count-append i front back)

-- The n numbers from lo on.
abbrev pub range_from : ℕ → ℕ → List ℕ
range_from lo zero = []
range_from lo (suc n) = lo ∷ range_from (lo + 1) n

pub range_from-append :
    (lo a b : ℕ) → range_from lo (a + b) ≡ range_from lo a ++ range_from (lo + a) b
range_from-append lo zero b = ap₂ range_from (omega arith) (omega arith)
range_from-append lo (suc a) b =
    let e : suc a + b ≡ suc (a + b) = omega arith in
    let e' : lo + suc a ≡ lo + 1 + a = omega arith in
    rw e (rw e' (ap (λ l. lo ∷ l) (range_from-append (lo + 1) a b)))

pub count-range_from :
    (i lo n : ℕ)
    → count i (range_from lo n) ≡ (if leb lo i then if ltb i (lo + n) then 1 else 0 else 0)
count-range_from i lo zero = ground arith
count-range_from i lo (suc n) = ground (arith, count-range_from i (lo + 1) n)

-- A test that no element passes keeps nothing, and its negation keeps everything.
pub keep-not {ℓ} :
    {A : Type ℓ} (p : A → Bool) (xs : List A)
    → length (keep p xs) ≡ 0
    → (keep p xs ≡ []) × (keep (λ x. not (p x)) xs ≡ xs)
keep-not p [] h = (refl, refl)
keep-not p (x ∷ xs) h = ground (arith, keep-not p xs)

pub length-range_from : (lo n : ℕ) → length (range_from lo n) ≡ n
length-range_from lo zero = refl
length-range_from lo (suc n) = ap suc (length-range_from (lo + 1) n)

pub length-map {ℓ κ} :
    {A : Type ℓ} {B : Type κ} (f : A → B) (xs : List A) → length (map f xs) ≡ length xs
length-map f [] = refl
length-map f (x ∷ xs) = ap suc (length-map f xs)
