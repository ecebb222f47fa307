-- ===== src/Prelude/Int.antt =====
-- Signed integers over the native numbers: `int` and `long` are 32 bits wide on Windows.
use Prim.Native.Nat.{ℕ, ◌-◌, ◌^◌, ◌≤◌}
use mathlib.Core.Path.{◌≡◌}
use mathlib.Core.Bool.{Bool, true, false}
use native.Mathlib.Omega.{arith}
use just_in_time.Prelude.Tests.{ltb, leb, ◌==◌}

-- `negsuc n` is -(n + 1).
pub data ℤ : Type 0 where
  pos : ℕ → ℤ
  negsuc : ℕ → ℤ

abbrev pub int_max : ℕ
int_max = 2 ^ 31 - 1

-- The values of a 32-bit `int`.
abbrev pub IsInt32 : ℤ → Type 0
IsInt32 (pos n) = n ≤ int_max
IsInt32 (negsuc n) = n ≤ int_max

-- a >= 0
abbrev pub is_nonneg : ℤ → Bool
is_nonneg (pos n) = true
is_nonneg (negsuc n) = false

-- a == b
abbrev pub eq_ℤ : ℤ → ℤ → Bool
eq_ℤ (pos a) (pos b) = a == b
eq_ℤ (pos a) (negsuc b) = false
eq_ℤ (negsuc a) (pos b) = false
eq_ℤ (negsuc a) (negsuc b) = a == b

-- a < b
abbrev pub ltb_ℤ : ℤ → ℤ → Bool
ltb_ℤ (pos a) (pos b) = ltb a b
ltb_ℤ (pos a) (negsuc b) = false
ltb_ℤ (negsuc a) (pos b) = true
ltb_ℤ (negsuc a) (negsuc b) = ltb b a

-- a <= b
abbrev pub leb_ℤ : ℤ → ℤ → Bool
leb_ℤ (pos a) (pos b) = leb a b
leb_ℤ (pos a) (negsuc b) = false
leb_ℤ (negsuc a) (pos b) = true
leb_ℤ (negsuc a) (negsuc b) = leb b a

pub eq_ℤ→≡ : (a b : ℤ) → eq_ℤ a b ≡ true → a ≡ b
eq_ℤ→≡ (pos a) (pos b) h = ground arith
eq_ℤ→≡ (pos a) (negsuc b) h = cc
eq_ℤ→≡ (negsuc a) (pos b) h = cc
eq_ℤ→≡ (negsuc a) (negsuc b) h = ground arith
