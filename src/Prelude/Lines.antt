-- ===== src/Prelude/Lines.antt =====
-- Texts cut at a character: std::getline, and std::string::find with a character.
use Prim.Native.Nat.{ℕ}
use mathlib.Core.Path.{◌≡◌, refl, ap}
use mathlib.Core.Logic.{◌≢◌}
use mathlib.Core.Option.{Option, none, some}
use mathlib.Core.List.{List, [], ◌∷◌, ◌++◌}
use native.Mathlib.Omega.{arith}
use just_in_time.Prelude.Tests.{◌==◌, if◌then◌else◌}
use just_in_time.Prelude.Lists.{All}
use just_in_time.Prelude.Text.{Bytes}

-- `c` in front of the first line.
abbrev pub onto_first : ℕ → List Bytes → List Bytes
onto_first c [] = (c ∷ []) ∷ []
onto_first c (l ∷ ls) = (c ∷ l) ∷ ls

-- while (std::getline(f, line)): an empty rest behind the last line end is no line.
unfoldable pub lines : Bytes → List Bytes
lines [] = []
lines (c ∷ s) = if c == 10 then [] ∷ lines s else onto_first c (lines s)

-- What stands before and behind the first `d`; `none` is npos.
unfoldable pub cut_at : ℕ → Bytes → Option (Bytes × Bytes)
cut_at d [] = none
cut_at d (c ∷ s) =
    let later = λ (r : Bytes × Bytes). some (c ∷ r.0, r.1) in
    if c == d then some ([], s) else elim (cut_at d s) [ none ↦ none | some r ↦ later r ]

-- if (!line.empty() && line.back() == '\r') line.pop_back();
unfoldable pub chop_return : Bytes → Bytes
chop_return [] = []
chop_return (c ∷ []) = if c == 13 then [] else c ∷ []
chop_return (c ∷ d ∷ s) = c ∷ chop_return (d ∷ s)

abbrev pub Lacks : ℕ → Bytes → Type 0
Lacks d = All (λ c. c ≢ d)

pub lines-line : (l rest : Bytes) → Lacks 10 l → lines (l ++ 10 ∷ rest) ≡ l ∷ lines rest
unfolding lines
lines-line [] rest h = refl
lines-line (c ∷ l) rest h = ground (arith, lines-line l rest h.1)

pub cut_at-first : (d : ℕ) (a b : Bytes) → Lacks d a → cut_at d (a ++ d ∷ b) ≡ some (a, b)
unfolding cut_at
cut_at-first d [] b h = ground arith
cut_at-first d (c ∷ a) b h = ground (arith, cut_at-first d a b h.1)

pub chop_return-none : (s : Bytes) → Lacks 13 s → chop_return s ≡ s
unfolding chop_return
chop_return-none [] h = refl
chop_return-none (c ∷ []) h = ground arith
chop_return-none (c ∷ d ∷ s) h = ap (λ l. c ∷ l) (chop_return-none (d ∷ s) h.1)
