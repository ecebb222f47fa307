-- ===== src/Json/Extract.antt =====
-- What the field readers of jsonutil.cpp get out of an object that was printed.
use just_in_time.Prelude.{
  ℕ, zero, suc, ◌-◌, ◌≤◌, ◌<◌, ◌≡◌, ◌≢◌, refl, ap, ◌∙◌, sym, true, false, some, [], ◌∷◌, ◌++◌,
  append_assoc, arith, All, Bytes, codes, ltb, length, drop, take, is_prefix, is_prefix-append,
  strstr, ℤ, IsInt32, EndsNumber, IsNumeral, print_ℤ, print_ℤ-IsNumeral, print_ℤ-ne-nil,
  strtol-print_ℤ,
}
use just_in_time.Json.{
  key_pattern, escape_byte, json_escape_string, skip_blanks, find_value_pos, copy_string,
  json_extract_string, json_extract_long,
}
use just_in_time.Json.Escape.{IsPrintable}

-- The quoted key stands nowhere before its place behind `pre`.
abbrev pub NotBefore : Bytes → Bytes → Bytes → Type 0
NotBefore pattern [] rest = Unit
NotBefore pattern (c ∷ pre) rest =
    (is_prefix pattern (c ∷ (pre ++ (pattern ++ rest))) ≡ false) × NotBefore pattern pre rest

-- The object text from its start to the value of a field.
abbrev pub field_text : Bytes → Bytes → Bytes → Bytes
field_text pre key value = pre ++ (key_pattern key ++ b':' ∷ value)

strstr_here : (pattern rest : Bytes) → strstr (pattern ++ rest) pattern ≡ some (pattern ++ rest)
strstr_here [] [] = refl
strstr_here [] (x ∷ rest) = refl
strstr_here (c ∷ pattern) rest = rw (is_prefix-append (c ∷ pattern) rest)

strstr_first :
    (pattern pre rest : Bytes)
    → NotBefore pattern pre rest
    → strstr (pre ++ (pattern ++ rest)) pattern ≡ some (pattern ++ rest)
strstr_first pattern [] rest h = strstr_here pattern rest
strstr_first pattern (c ∷ pre) rest h = rw h.0 (strstr_first pattern pre rest h.1)

drop_front : (p s : Bytes) → drop (length p) (p ++ s) ≡ s
drop_front [] s = refl
drop_front (c ∷ p) s = drop_front p s

-- The value is not blank at its start, so none of it is skipped.
abbrev StartsValue : Bytes → Type 0
StartsValue [] = Unit
StartsValue (c ∷ s) = 32 < c

skip_none : (s : Bytes) → StartsValue s → skip_blanks s ≡ s
unfolding skip_blanks
skip_none [] h = refl
skip_none (c ∷ s) h = ground arith

find_value-field :
    (pre key value : Bytes)
    → NotBefore (key_pattern key) pre (b':' ∷ value)
    → StartsValue value
    → find_value_pos (field_text pre key value) key ≡ some value
unfolding find_value_pos
find_value-field pre key value first starts =
    rw (strstr_first (key_pattern key) pre (b':' ∷ value) first)
      (rw (drop_front (key_pattern key) (b':' ∷ value)) (ap some (skip_none value starts)))

copy_byte :
    (room c x : ℕ) (s : Bytes)
    → 32 ≤ c
    → copy_string (suc room) (escape_byte c ++ x ∷ s) ≡ c ∷ copy_string room (x ∷ s)
unfolding copy_string escape_byte
copy_byte room c x s h = ground arith

copy_quote : (room : ℕ) (rest : Bytes) → copy_string room (b'"' ∷ rest) ≡ []
unfolding copy_string
copy_quote zero rest = refl
copy_quote (suc room) [] = refl
copy_quote (suc room) (x ∷ rest) = refl

copy_escaped :
    (room : ℕ) (s rest : Bytes)
    → All IsPrintable s
    → copy_string room (json_escape_string s ++ b'"' ∷ rest) ≡ take room s
unfolding json_escape_string
copy_escaped zero s rest p = unfold copy_string in refl
copy_escaped (suc room) [] rest p = copy_quote (suc room) rest
copy_escaped (suc room) (c ∷ s) rest p =
    let (x, t, e) = starts (json_escape_string s) in
    ap (copy_string (suc room)) (append_assoc (escape_byte c) (json_escape_string s) (b'"' ∷ rest))
    ∙ ap (λ l. copy_string (suc room) (escape_byte c ++ l)) e
    ∙ copy_byte room c x t p.0
    ∙ ap (λ l. c ∷ copy_string room l) (sym e)
    ∙ ap (λ l. c ∷ l) (copy_escaped room s rest p.1)
  where
    starts : (l : Bytes) → (x : ℕ) × (t : Bytes) × (l ++ b'"' ∷ rest ≡ x ∷ t)
    starts [] = (b'"', rest, refl)
    starts (x ∷ l) = (x, l ++ b'"' ∷ rest, refl)

-- A string field written by `jsonEscape` is read back by `json_extract_string`, cut to the size
-- of the buffer less one, if its text has no control character and the quoted key stands
-- nowhere before the field.
pub extract_string-escape :
    (pre key s rest : Bytes) (out_size : ℕ)
    → NotBefore (key_pattern key) pre (b':' ∷ b'"' ∷ (json_escape_string s ++ b'"' ∷ rest))
    → All IsPrintable s
    → 0 < out_size
    → json_extract_string
        (field_text pre key (b'"' ∷ (json_escape_string s ++ b'"' ∷ rest)))
        key
        out_size
      ≡ some (take (out_size - 1) s)
unfolding json_extract_string
extract_string-escape pre key s rest out_size first printable room =
    let has_room : ltb 0 out_size ≡ true = ground arith in
    rw (find_value-field pre key (b'"' ∷ (json_escape_string s ++ b'"' ∷ rest)) first (omega arith))
      (rw has_room (ap some (copy_escaped (out_size - 1) s rest printable)))

numeral_starts :
    (s rest : Bytes)
    → All IsNumeral s
    → s ≢ []
    → StartsValue (s ++ rest) × (is_prefix (codes "null") (s ++ rest) ≡ false)
numeral_starts [] rest p h = absurd (h refl)
numeral_starts (c ∷ s) rest p h = ground arith

-- A printed 32-bit number is read back by `json_extract_long`, and not taken for `null`.
pub extract_long-print_ℤ :
    (pre key rest : Bytes) (a : ℤ)
    → NotBefore (key_pattern key) pre (b':' ∷ (print_ℤ a ++ rest))
    → IsInt32 a
    → EndsNumber rest
    → json_extract_long (field_text pre key (print_ℤ a ++ rest)) key
      ≡ some (record { value = a; found_null = false })
unfolding json_extract_long
extract_long-print_ℤ pre key rest a first small ends =
    let (starts, no_null) =
      numeral_starts (print_ℤ a) rest (print_ℤ-IsNumeral a) (print_ℤ-ne-nil a) in
    rw (find_value-field pre key (print_ℤ a ++ rest) first starts) (
      rw no_null (
        ap (λ v. some (record { value = v; found_null = false }))
          (strtol-print_ℤ a rest small ends)))
