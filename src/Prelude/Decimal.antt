-- ===== src/Prelude/Decimal.antt =====
-- Decimal print and parse: std::to_string, `operator<<` on numbers, strtol and atoi.
use Prim.Native.Nat.{ℕ, zero, suc, ◌+◌, ◌-◌, ◌*◌, ◌/◌, ◌%◌, ◌≤◌, ◌<◌, min}
use mathlib.Core.Path.{◌≡◌, refl, ap, ◌∙◌}
use mathlib.Core.Bool.{true, false, ◌||◌}
use mathlib.Core.List.{[], ◌∷◌, ◌++◌}
use mathlib.Core.Logic.{◌≢◌, inl, inr}
use native.Mathlib.Omega.{arith}
use just_in_time.Prelude.Tests.{ltb, ◌==◌, if◌then◌else◌, Bool-cases, ltb→lt}
use just_in_time.Prelude.Lists.{All}
use just_in_time.Prelude.Text.{Bytes, codes, is_digit, is_space}
use just_in_time.Prelude.Int.{ℤ, pos, negsuc, int_max, IsInt32}

-- The digits of `n` in front of `out`; more fuel than `n` is enough.
unfoldable pub digits : ℕ → ℕ → Bytes → Bytes
digits zero n out = out
digits (suc fuel) n out =
    let more = digits fuel (n / 10) ((b'0' + n % 10) ∷ out) in
    if ltb n 10 then (b'0' + n) ∷ out else more

unfoldable pub print_ℕ : ℕ → Bytes
unfolding digits
print_ℕ n = digits (suc n) n []

unfoldable pub print_ℤ : ℤ → Bytes
unfolding print_ℕ
print_ℤ (pos n) = print_ℕ n
print_ℤ (negsuc n) = b'-' ∷ print_ℕ (n + 1)

-- The number that the leading digits spell behind `acc`.
unfoldable pub digits_value : ℕ → Bytes → ℕ
digits_value acc [] = acc
digits_value acc (c ∷ s) =
    let more = digits_value (acc * 10 + (c - b'0')) s in if is_digit c then more else acc

-- A negative value of the magnitude `n`; both ends saturate, as the C library's do.
abbrev pub negate : ℕ → ℤ
negate zero = pos 0
negate (suc n) = negsuc (min n int_max)

unfoldable pub after_blanks : Bytes → ℤ
unfolding digits_value
after_blanks [] = pos 0
after_blanks (c ∷ s) =
    if c == b'-'
    then negate (digits_value 0 s)
    else if c == b'+'
    then pos (min (digits_value 0 s) int_max)
    else pos (min (digits_value 0 (c ∷ s)) int_max)

-- strtol(s, nullptr, 10), and atoi(s)
unfoldable pub strtol : Bytes → ℤ
unfolding after_blanks
strtol [] = pos 0
strtol (c ∷ s) = if is_space c then strtol s else after_blanks (c ∷ s)

-- A text that ends a number before it.
abbrev pub EndsNumber : Bytes → Type 0
EndsNumber [] = Unit
EndsNumber (c ∷ s) = is_digit c ≡ false

abbrev StartsNumber : Bytes → Type 0
StartsNumber [] = ⊥
StartsNumber (c ∷ s) = is_digit c ≡ true

digits-append :
    (fuel n : ℕ) (out rest : Bytes) → digits fuel n out ++ rest ≡ digits fuel n (out ++ rest)
unfolding digits
digits-append zero n out rest = refl
digits-append (suc fuel) n out rest =
    ground (arith, digits-append fuel (n / 10) ((b'0' + n % 10) ∷ out) rest)

-- Reading the last digit of `n` behind the digits before it gives `n`.
last_digit :
    (n : ℕ) (out : Bytes) → digits_value (n / 10) ((b'0' + n % 10) ∷ out) ≡ digits_value n out
unfolding digits_value
last_digit n out =
    let e : n / 10 * 10 + (b'0' + n % 10 - b'0') ≡ n = omega arith in ground (arith, e)

only_digit : (n : ℕ) (out : Bytes) → n < 10 → digits_value 0 ((b'0' + n) ∷ out) ≡ digits_value n out
unfolding digits_value
only_digit n out h = let e : 0 * 10 + (b'0' + n - b'0') ≡ n = omega arith in ground (arith, e)

digits_read :
    (fuel n : ℕ) (out : Bytes) → n < fuel → digits_value 0 (digits fuel n out) ≡ digits_value n out
unfolding digits
digits_read zero n out h = absurd (omega arith)
digits_read (suc fuel) n out h = elim (Bool-cases (ltb n 10)) [
  | inl small ↦ rw small (only_digit n out (ltb→lt _ _ small))
  | inr large ↦
      rw large (digits_read fuel (n / 10) ((b'0' + n % 10) ∷ out) (ground arith) ∙ last_digit n out)
]

digits-StartsNumber : (fuel n : ℕ) (out : Bytes) → n < fuel → StartsNumber (digits fuel n out)
unfolding digits
digits-StartsNumber zero n out h = absurd (omega arith)
digits-StartsNumber (suc fuel) n out h = elim (Bool-cases (ltb n 10)) [
  | inl small ↦ rw small (ground arith)
  | inr large ↦ rw large (digits-StartsNumber fuel (n / 10) ((b'0' + n % 10) ∷ out) (ground arith))
]

digits_value_end : (n : ℕ) (rest : Bytes) → EndsNumber rest → digits_value n rest ≡ n
unfolding digits_value
digits_value_end n [] h = refl
digits_value_end n (c ∷ rest) h = rw h

read_back :
    (n : ℕ) (rest : Bytes)
    → EndsNumber rest
    → (digits_value 0 (print_ℕ n ++ rest) ≡ n) × StartsNumber (print_ℕ n ++ rest)
unfolding print_ℕ
read_back n rest h =
    let e : digits (suc n) n [] ++ rest ≡ digits (suc n) n rest = digits-append (suc n) n [] rest in
    (
      rw e (digits_read (suc n) n rest (omega arith) ∙ digits_value_end n rest h),
      rw e (digits-StartsNumber (suc n) n rest (omega arith)),
    )

strtol_digits : (s : Bytes) → StartsNumber s → strtol s ≡ pos (min (digits_value 0 s) int_max)
unfolding strtol
strtol_digits [] h = absurd h
strtol_digits (c ∷ s) h = ground arith

strtol_minus : (s : Bytes) → strtol (b'-' ∷ s) ≡ negate (digits_value 0 s)
unfolding strtol
strtol_minus s = refl

negate_lem : (n : ℕ) → n ≤ int_max → negate (n + 1) ≡ negsuc n
negate_lem n h = let e : n + 1 ≡ suc n = omega arith in rw e (ap negsuc (omega arith))

-- A printed 32-bit number is read back, whatever text that is no digit stands behind it.
pub strtol-print_ℤ :
    (a : ℤ) (rest : Bytes) → IsInt32 a → EndsNumber rest → strtol (print_ℤ a ++ rest) ≡ a
unfolding print_ℤ
strtol-print_ℤ (pos n) rest h ends =
    let (value, starts) = read_back n rest ends in
    strtol_digits (print_ℕ n ++ rest) starts ∙ ap pos (omega (arith, value))
strtol-print_ℤ (negsuc n) rest h ends =
    let (value, starts) = read_back (n + 1) rest ends in
    strtol_minus (print_ℕ (n + 1) ++ rest) ∙ ap negate value ∙ negate_lem n h

-- Every byte of a printed number is a digit or a minus sign.
abbrev pub IsNumeral : ℕ → Type 0
IsNumeral c = (is_digit c || c == b'-') ≡ true

digits-IsNumeral :
    (fuel n : ℕ) (out : Bytes) → All IsNumeral out → n < fuel → All IsNumeral (digits fuel n out)
unfolding digits
digits-IsNumeral zero n out all h = all
digits-IsNumeral (suc fuel) n out all h = elim (Bool-cases (ltb n 10)) [
  | inl small ↦ rw small (ground arith, all)
  | inr large ↦
      rw large
        (digits-IsNumeral fuel (n / 10) ((b'0' + n % 10) ∷ out) (ground arith, all) (ground arith))
]

pub print_ℤ-IsNumeral : (a : ℤ) → All IsNumeral (print_ℤ a)
unfolding print_ℤ
print_ℤ-IsNumeral (pos n) = digits-IsNumeral (suc n) n [] tt (omega arith)
print_ℤ-IsNumeral (negsuc n) = (refl, digits-IsNumeral (suc (n + 1)) (n + 1) [] tt (omega arith))

digits-ne-nil : (fuel n : ℕ) (out : Bytes) → n < fuel → digits fuel n out ≢ []
digits-ne-nil fuel n out h e = rw e at (digits-StartsNumber fuel n out h)

pub print_ℤ-ne-nil : (a : ℤ) → print_ℤ a ≢ []
unfolding print_ℤ
print_ℤ-ne-nil (pos n) = digits-ne-nil (suc n) n [] (omega arith)
print_ℤ-ne-nil (negsuc n) = cc

print_read : strtol (codes "  -42x") ≡ negsuc 41
unfolding strtol
print_read = refl
