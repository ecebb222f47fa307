-- ===== src/Json.antt =====
-- src/agent/shared/jsonutil.cpp and `jsonEscape` of includes/common/strutil.h: writing JSON text and
-- reading single fields out of it. A `const char*` into a text is the rest of the text from there,
-- and null is `none`; an out-buffer of n bytes is the text that is left in it, without its final 0.
pub mod Escape
pub mod Extract
pub mod Array
mod Examples
use just_in_time.Prelude.{
  ℕ, zero, suc, ◌+◌, ◌-◌, ◌/◌, ◌%◌, Bool, true, false, not, ◌&&◌, ◌||◌, Option, none, some, List,
  [], ◌∷◌, ◌++◌, Bytes, codes, leb, ltb, ◌==◌, if◌then◌else◌, length, take, drop, ℤ, strtol, ◌>>=◌,
  strstr, strchr, is_prefix,
}

-- %x of one digit
abbrev pub hex_digit : ℕ → ℕ
hex_digit d = if ltb d 10 then b'0' + d else b'a' + (d - 10)

-- What the `switch` appends for one byte.
unfoldable pub escape_byte : ℕ → Bytes
escape_byte c =
    if c == b'"'
    then b'\\' ∷ b'"' ∷ []
    else if c == b'\\'
    then b'\\' ∷ b'\\' ∷ []
    else if c == 10
    then b'\\' ∷ b'n' ∷ []
    else if c == 13
    then b'\\' ∷ b'r' ∷ []
    else if c == 9
    then b'\\' ∷ b't' ∷ []
    else if ltb c 32
    then b'\\' ∷ b'u' ∷ b'0' ∷ b'0' ∷ hex_digit (c / 16) ∷ hex_digit (c % 16) ∷ []
    else c ∷ []

-- jit::jsonEscape
unfoldable pub json_escape_string : Bytes → Bytes
json_escape_string [] = []
json_escape_string (c ∷ s) = escape_byte c ++ json_escape_string s

-- The loop of `json_escape`: `j` bytes are written, and seven more must fit.
unfoldable pub json_escape_loop : Bytes → ℕ → ℕ → Bytes
json_escape_loop [] j output_size = []
json_escape_loop (c ∷ s) j output_size =
    let rest = json_escape_loop s (j + length (escape_byte c)) output_size in
    if leb output_size (j + 7) then [] else escape_byte c ++ rest

unfoldable pub json_escape : Bytes → ℕ → Bytes
unfolding json_escape_loop
json_escape input output_size = json_escape_loop input 0 output_size

-- `"key"`, as it is searched for.
abbrev pub key_pattern : Bytes → Bytes
key_pattern key = b'"' ∷ key ++ b'"' ∷ []

unfoldable pub skip_blanks : Bytes → Bytes
skip_blanks [] = []
skip_blanks (c ∷ s) =
    if (c == b' ') || (c == 9) || (c == 10) || (c == 13) then skip_blanks s else c ∷ s

unfoldable pub find_value_pos : Bytes → Bytes → Option Bytes
unfolding skip_blanks
find_value_pos json key = do
  pos ← strstr json (key_pattern key)
  colon ← strchr (drop (length (key_pattern key)) pos) b':'
  some (skip_blanks (drop 1 colon))

-- The copying loop of `json_extract_string`, with room for `room` more bytes.
unfoldable pub copy_string : ℕ → Bytes → Bytes
copy_string zero s = []
copy_string (suc room) [] = []
copy_string (suc room) (c ∷ []) = if c == b'"' then [] else c ∷ []
copy_string (suc room) (c ∷ d ∷ s) =
    let escaped = d ∷ copy_string room s in
    let plain = c ∷ copy_string room (d ∷ s) in
    if c == b'"' then [] else if c == b'\\' then escaped else plain

unfoldable pub string_at : Bytes → ℕ → Option Bytes
string_at [] out_size = none
string_at (c ∷ s) out_size =
    if (c == b'"') && ltb 0 out_size then some (copy_string (out_size - 1) s) else none

-- `none` is the return value 0, which leaves `out` as it was.
unfoldable pub json_extract_string : Bytes → Bytes → ℕ → Option Bytes
unfolding find_value_pos copy_string string_at
json_extract_string json key out_size = do pos ← find_value_pos json key; string_at pos out_size

unfoldable pub bool_at : Bytes → Option Bool
bool_at pos =
    if is_prefix (codes "true") pos
    then some true
    else if is_prefix (codes "false") pos
    then some false
    else none

unfoldable pub json_extract_bool : Bytes → Bytes → Option Bool
unfolding find_value_pos bool_at
json_extract_bool json key = do pos ← find_value_pos json key; bool_at pos

-- What `json_extract_long` stores: the value, and whether it was `null`.
pub record Extracted : Type 0 where
  pub value : ℤ
  pub found_null : Bool

unfoldable pub long_at : Bytes → Extracted
unfolding strtol
long_at pos =
    if is_prefix (codes "null") pos
    then record { value = ℤ.pos 0; found_null = true }
    else record { value = strtol pos; found_null = false }

unfoldable pub json_extract_long : Bytes → Bytes → Option Extracted
unfolding find_value_pos long_at
json_extract_long json key = do pos ← find_value_pos json key; some (long_at pos)

unfoldable pub skip_separators : Bytes → Bytes
skip_separators [] = []
skip_separators (c ∷ s) =
    if (c == b' ') || (c == 9) || (c == 10) || (c == 13) || (c == b'[') || (c == b',')
    then skip_separators s
    else c ∷ s

-- The text passed over, and the cursor behind it.
abbrev pub passed : Bytes → Bytes × Bytes → Bytes × Bytes
passed s (obj, rest) = (s ++ obj, rest)

-- The loop of `json_array_next` over the characters, with `depth` and `in_string`. A `}` is met
-- at a depth above 0 only: the text begins with `{`, and the loop ends where the depth comes to 0.
unfoldable pub scan_object : ℕ → Bool → Bytes → Bytes × Bytes
scan_object depth in_string [] = ([], [])
scan_object depth true (c ∷ []) = (c ∷ [], [])
scan_object depth true (c ∷ d ∷ s) =
    let escaped = passed (c ∷ d ∷ []) (scan_object depth true s) in
    let after = passed (c ∷ []) (scan_object depth (not (c == b'"')) (d ∷ s)) in
    if c == b'\\' then escaped else after
scan_object depth false (c ∷ s) =
    let quoted = passed (c ∷ []) (scan_object depth true s) in
    let opened = passed (c ∷ []) (scan_object (depth + 1) false s) in
    let closed = passed (c ∷ []) (scan_object (depth - 1) false s) in
    let plain = passed (c ∷ []) (scan_object depth false s) in
    if c == b'"'
    then quoted
    else if c == b'{'
    then opened
    else if c == b'}'
    then (if depth - 1 == 0 then (c ∷ [], s) else closed)
    else plain

-- What one call leaves: the object if the return value is 1, and the cursor.
pub record ArrayNext : Type 0 where
  pub object : Option Bytes
  pub cursor : Bytes

unfoldable pub object_at : Bytes → ℕ → ArrayNext
object_at [] obj_out_size = record { object = none; cursor = [] }
object_at (c ∷ s) obj_out_size =
    if c == b'{'
    then (let (obj, rest) = scan_object 0 false (c ∷ s) in
        record { object = some (take (obj_out_size - 1) obj); cursor = rest })
    else record { object = none; cursor = c ∷ s }

unfoldable pub json_array_next : Bytes → ℕ → ArrayNext
unfolding skip_separators scan_object object_at
json_array_next cursor obj_out_size =
    if obj_out_size == 0
    then record { object = none; cursor = cursor }
    else object_at (skip_separators cursor) obj_out_size

-- `while (count < max_out && json_array_next(&cursor, obj, sizeof(obj)))`, the loop of every reader
-- of a response: the objects in turn.
unfoldable pub collect : ℕ → Bytes → ℕ → List Bytes
collect zero cursor obj_out_size = []
collect (suc room) cursor obj_out_size =
    let rest = collect room (json_array_next cursor obj_out_size).cursor obj_out_size in
    elim (json_array_next cursor obj_out_size).object [ none ↦ [] | some obj ↦ obj ∷ rest ]
