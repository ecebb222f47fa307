-- ===== src/Json/Escape.antt =====
-- What the two escaping functions write, and that a JSON reader gets the text back.
use just_in_time.Prelude.{
  ℕ, zero, suc, ◌+◌, ◌-◌, ◌*◌, ◌≤◌, ◌<◌, ◌≡◌, refl, ap, ◌∙◌, false, inl, inr, Option, none, some,
  [], ◌∷◌, ◌++◌, append_assoc, arith, Bytes, leb, leb→lt, ltb, ◌==◌, if◌then◌else◌, Bool-cases,
  length, length-append, All, All-append,
}
use just_in_time.Json.{escape_byte, json_escape_string, json_escape_loop, json_escape}

abbrev hex_value : ℕ → ℕ
hex_value c = if leb b'a' c then c - b'a' + 10 else c - b'0'

-- What an escape of two characters stands for (RFC 8259, section 7).
abbrev simple_escape : ℕ → Option ℕ
simple_escape c =
    if c == b'"'
    then some b'"'
    else if c == b'\\'
    then some b'\\'
    else if c == b'n'
    then some 10
    else if c == b'r'
    then some 13
    else if c == b't'
    then some 9
    else none

-- Where a reader of JSON string contents stands; `hex` has so many digits to come behind its own.
pub data Mode : Type 0 where
  plain escape : Mode
  hex : ℕ → ℕ → Mode

abbrev emit : ℕ → Option (Bytes × Bytes) → Option (Bytes × Bytes)
emit c none = none
emit c (some (out, rest)) = some (c ∷ out, rest)

-- A reader of JSON string contents up to the closing quote, written from RFC 8259: it refuses raw
-- control characters and unknown escapes, and gives the text and what stands behind the quote.
unfoldable pub read_string : Mode → Bytes → Option (Bytes × Bytes)
read_string mode [] = none
read_string plain (c ∷ s) =
    let escaped = read_string escape s in
    let copied = emit c (read_string plain s) in
    if c == b'"'
    then some ([], s)
    else if c == b'\\'
    then escaped
    else if ltb c 32
    then none
    else copied
read_string escape (c ∷ s) =
    let digits = read_string (hex 3 0) s in
    let simple = λ (d : ℕ). emit d (read_string plain s) in
    if c == b'u' then digits else elim (simple_escape c) [ none ↦ none | some d ↦ simple d ]
read_string (hex zero v) (c ∷ s) = emit (v * 16 + hex_value c) (read_string plain s)
read_string (hex (suc k) v) (c ∷ s) = read_string (hex k (v * 16 + hex_value c)) s

read-escape_byte :
    (c : ℕ) (s : Bytes) → read_string plain (escape_byte c ++ s) ≡ emit c (read_string plain s)
unfolding read_string escape_byte
read-escape_byte c s = ground arith

-- Whatever bytes a text holds, a JSON reader that meets the escaped text and a quote gives the text
-- back, and stops behind that quote.
pub read_string-json_escape_string :
    (s rest : Bytes) → read_string plain (json_escape_string s ++ b'"' ∷ rest) ≡ some (s, rest)
unfolding json_escape_string
read_string-json_escape_string [] rest = unfold read_string in refl
read_string-json_escape_string (c ∷ s) rest = rw append_assoc (
    read-escape_byte c (json_escape_string s ++ b'"' ∷ rest)
    ∙ ap (emit c) (read_string-json_escape_string s rest))

length-escape_byte : (c : ℕ) → (length (escape_byte c) ≤ 6) × (0 < length (escape_byte c))
unfolding escape_byte
length-escape_byte c = ground arith

json_escape_loop-fits : (s : Bytes) (j n : ℕ) → j < n → j + length (json_escape_loop s j n) < n
unfolding json_escape_loop
json_escape_loop-fits [] j n h = omega arith
json_escape_loop-fits (c ∷ s) j n h =
    let k = j + length (escape_byte c) in
    elim (Bool-cases (leb n (j + 7))) [
      | inl full ↦ rw full (omega arith)
      | inr room ↦ rw room (
          omega (
            arith,
            length-append (escape_byte c) (json_escape_loop s k n),
            json_escape_loop-fits s k n (omega (arith, length-escape_byte c, leb→lt _ _ room)),
          ))
    ]

json_escape_loop-whole :
    (s : Bytes) (j n : ℕ) → j + 6 * length s + 1 < n → json_escape_loop s j n ≡ json_escape_string s
unfolding json_escape_loop json_escape_string
json_escape_loop-whole [] j n h = refl
json_escape_loop-whole (c ∷ s) j n h =
    let room : leb n (j + 7) ≡ false = ground arith in
    rw room (
      ap (λ l. escape_byte c ++ l)
        (json_escape_loop-whole s (j + length (escape_byte c)) n
          (omega (arith, length-escape_byte c))))

-- Into a buffer of any size but 0, `json_escape` writes a text that leaves room for the final 0;
-- if the buffer has at least 6 bytes for each byte of the input and 2 more, the text is
-- the one that the unbounded `jsonEscape` gives.
pub json_escape_bounds :
    (s : Bytes) (n : ℕ)
    → 0 < n
    → (length (json_escape s n) < n)
      × (6 * length s + 2 ≤ n → json_escape s n ≡ json_escape_string s)
unfolding json_escape
json_escape_bounds s n h = (
  omega (arith, json_escape_loop-fits s 0 n h),
  λ room. json_escape_loop-whole s 0 n (omega arith),
)

abbrev pub IsPrintable : ℕ → Type 0
IsPrintable c = 32 ≤ c

escape_byte-IsPrintable : (c : ℕ) → All IsPrintable (escape_byte c)
unfolding escape_byte
escape_byte-IsPrintable c = ground arith

-- No control character stands in an escaped text.
pub json_escape_string-IsPrintable : (s : Bytes) → All IsPrintable (json_escape_string s)
unfolding json_escape_string
json_escape_string-IsPrintable [] = tt
json_escape_string-IsPrintable (c ∷ s) =
    All-append IsPrintable (escape_byte c) (json_escape_string s) (escape_byte-IsPrintable c)
      (json_escape_string-IsPrintable s)
