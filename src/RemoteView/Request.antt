-- ===== src/RemoteView/Request.antt =====
-- What the scan of a request's first line gives.
use just_in_time.Prelude.{
  ℕ, zero, suc, ◌≤◌, ◌<◌, ◌≡◌, refl, ap, ◌∙◌, Bool-cases, inl, inr, true, false, none, [], ◌∷◌,
  ◌++◌, arith, Bytes, codes, All, Lacks, length, is_space, is_prefix, strstr,
}
use just_in_time.RemoteView.{until_end, skip_spaces, take_word, onto_word, scan_word, scan_request}

-- No character of the word is a blank or a line end.
abbrev pub IsWord : Bytes → Type 0
IsWord = All (λ c. is_space c ≡ false)

take_word-word :
    (width : ℕ) (w rest : Bytes)
    → IsWord w
    → length w ≤ width
    → take_word width (w ++ 32 ∷ rest) ≡ (w, 32 ∷ rest)
unfolding take_word
take_word-word zero [] rest h fits = refl
take_word-word zero (c ∷ w) rest h fits = absurd (omega arith)
take_word-word (suc width) [] rest h fits = refl
take_word-word (suc width) (c ∷ w) rest h fits =
    rw h.0 (ap (onto_word c) (take_word-word width w rest h.1 (omega arith)))

skip_none : (c : ℕ) (s : Bytes) → is_space c ≡ false → skip_spaces (c ∷ s) ≡ c ∷ s
unfolding skip_spaces
skip_none c s h = rw h refl

pub scan-line :
    (path rest : Bytes)
    → IsWord path
    → 0 < length path
    → length path ≤ 511
    → scan_request (codes "GET " ++ (path ++ 32 ∷ rest)) ≡ (codes "GET", path)
unfolding scan_request take_word skip_spaces
scan-line [] rest h some_path fits = absurd (omega arith)
scan-line (c ∷ path) rest h some_path fits =
    ap (λ (r : Bytes × Bytes). (codes "GET", r.0))
      (ap (take_word 511) (skip_none c (path ++ 32 ∷ rest) h.0)
        ∙ take_word-word 511 (c ∷ path) rest h fits)

pub until_end-word : (s : Bytes) → IsWord s → Lacks b'&' s → until_end s ≡ s
unfolding until_end
until_end-word [] h h' = refl
until_end-word (c ∷ s) h h' = ground (arith, until_end-word s h.1 h'.1, h.0, h'.0)

-- The text occurs nowhere.
abbrev pub Absent : Bytes → Bytes → Type 0
Absent p s = strstr s p ≡ none

Absent-tail : (p : Bytes) (c : ℕ) (s : Bytes) → Absent p (c ∷ s) → Absent p s
Absent-tail p c s h = ground (arith, h)

is_prefix-longer : (p a b : Bytes) → is_prefix p a ≡ true → is_prefix p (a ++ b) ≡ true
is_prefix-longer [] a b h = refl
is_prefix-longer (c ∷ p) [] b h = cc
is_prefix-longer (c ∷ p) (d ∷ a) b h = ground (arith, is_prefix-longer p a b)

Absent-here : (p : Bytes) (c : ℕ) (s : Bytes) → Absent p (c ∷ s) → is_prefix p (c ∷ s) ≡ false
Absent-here p c s h = ground (arith, h)

Absent-cons :
    (p : Bytes) (c : ℕ) (s : Bytes) → is_prefix p (c ∷ s) ≡ false → Absent p s → Absent p (c ∷ s)
Absent-cons p c s h h' = rw h h'

not_prefix : (p a b : Bytes) → is_prefix p (a ++ b) ≡ false → is_prefix p a ≡ false
not_prefix p a b h = elim (Bool-cases (is_prefix p a)) [
  | inl e ↦ cc (is_prefix-longer p a b e, h)
  | inr e ↦ e
]

Absent-front : (p a b : Bytes) → is_prefix p [] ≡ false → Absent p (a ++ b) → Absent p a
Absent-front p [] b some_text h = rw some_text refl
Absent-front p (c ∷ a) b some_text h =
    Absent-cons p c a (not_prefix p (c ∷ a) b (Absent-here p c (a ++ b) h))
      (Absent-front p a b some_text (Absent-tail p c (a ++ b) h))

Absent-skip_spaces : (p s : Bytes) → Absent p s → Absent p (skip_spaces s)
unfolding skip_spaces
Absent-skip_spaces p [] h = h
Absent-skip_spaces p (c ∷ s) h = elim (Bool-cases (is_space c)) [
  | inl e ↦ rw e (Absent-skip_spaces p s (Absent-tail p c s h))
  | inr e ↦ rw e h
]

take_word-append : (width : ℕ) (s : Bytes) → let (w, rest) = take_word width s in w ++ rest ≡ s
unfolding take_word
take_word-append zero s = refl
take_word-append (suc width) [] = refl
take_word-append (suc width) (c ∷ s) = elim (Bool-cases (is_space c)) [
  | inl e ↦ rw e refl
  | inr e ↦ rw e (ap (λ l. c ∷ l) (take_word-append width s))
]

Absent-rest : (p a b : Bytes) → Absent p (a ++ b) → Absent p b
Absent-rest p [] b h = h
Absent-rest p (c ∷ a) b h = Absent-rest p a b (Absent-tail p c (a ++ b) h)

-- A text that is nowhere in the request is nowhere in the path that is scanned from it.
pub Absent-path :
    (p request : Bytes)
    → is_prefix p [] ≡ false
    → Absent p request
    → Absent p (scan_request request).1
unfolding scan_request
Absent-path p request some_text h =
    let (method, rest) = scan_word 15 request in
    let start : Absent p (skip_spaces request) = Absent-skip_spaces p request h in
    let split : Absent p (method ++ rest) = rw (take_word-append 15 (skip_spaces request)) start in
    let behind : Absent p (skip_spaces rest) =
      Absent-skip_spaces p rest (Absent-rest p method rest split) in
    let (path, left) = scan_word 511 rest in
    Absent-front p path left some_text (rw (take_word-append 511 (skip_spaces rest)) behind)
