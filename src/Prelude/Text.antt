-- ===== src/Prelude/Text.antt =====
-- C strings and std::string as lists of bytes (UTF-16 texts as lists of code units), and the
-- functions of the C and C++ standard libraries that the sources call on them.
use Prim.Native.Nat.{ℕ}
use Prim.Native.Char.{code}
use Prim.Native.String.{String}
use mathlib.Core.Path.{◌≡◌, refl}
use mathlib.Core.Bool.{Bool, true, false, ◌&&◌, ◌||◌}
use mathlib.Core.Option.{Option, none, some}
use mathlib.Core.List.{List, [], ◌∷◌, ◌++◌}
use native.Mathlib.Omega.{arith}
use just_in_time.Prelude.Tests.{leb, ◌==◌, if◌then◌else◌}

-- No text holds the byte 0: a C string ends there.
abbrev pub Bytes : Type 0
Bytes = List ℕ

-- The bytes of an ASCII literal.
abbrev pub codes : String → Bytes
codes String.[] = []
codes (String.◌∷◌ c s) = code c ∷ codes s

-- a == b
abbrev pub bytes_eq : Bytes → Bytes → Bool
bytes_eq [] [] = true
bytes_eq [] (d ∷ b) = false
bytes_eq (c ∷ a) [] = false
bytes_eq (c ∷ a) (d ∷ b) = (c == d) && bytes_eq a b

-- s.rfind(prefix, 0) == 0, strncmp(s, prefix, n) == 0: what stands behind the prefix.
abbrev pub strip_prefix : Bytes → Bytes → Option Bytes
strip_prefix [] s = some s
strip_prefix (c ∷ p) [] = none
strip_prefix (c ∷ p) (d ∷ s) = if c == d then strip_prefix p s else none

abbrev pub is_prefix : Bytes → Bytes → Bool
is_prefix [] s = true
is_prefix (c ∷ p) [] = false
is_prefix (c ∷ p) (d ∷ s) = (c == d) && is_prefix p s

-- strstr and strchr, with what the found pointer points at.
abbrev pub strstr : Bytes → Bytes → Option Bytes
strstr [] p = if is_prefix p [] then some [] else none
strstr (c ∷ s) p = if is_prefix p (c ∷ s) then some (c ∷ s) else strstr s p

abbrev pub strchr : Bytes → ℕ → Option Bytes
strchr [] d = none
strchr (c ∷ s) d = if c == d then some (c ∷ s) else strchr s d

abbrev pub is_digit : ℕ → Bool
is_digit c = leb b'0' c && leb c b'9'

-- isspace: blank, \t \n \v \f \r
abbrev pub is_space : ℕ → Bool
is_space c = (c == 32) || (leb 9 c && leb c 13)

pub bytes_eq_refl : (a : Bytes) → bytes_eq a a ≡ true
bytes_eq_refl [] = refl
bytes_eq_refl (c ∷ a) = ground (arith, bytes_eq_refl a)

pub bytes_eq→≡ : (a b : Bytes) → bytes_eq a b ≡ true → a ≡ b
bytes_eq→≡ [] [] h = refl
bytes_eq→≡ [] (d ∷ b) h = cc
bytes_eq→≡ (c ∷ a) [] h = cc
bytes_eq→≡ (c ∷ a) (d ∷ b) h = ground (arith, bytes_eq→≡ a b)

pub is_prefix-append : (p s : Bytes) → is_prefix p (p ++ s) ≡ true
is_prefix-append [] s = refl
is_prefix-append (c ∷ p) s = ground (arith, is_prefix-append p s)
