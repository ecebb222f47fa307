-- ===== src/Json/Array.antt =====
-- `json_array_next` cuts an array of objects exactly where its objects end.
use just_in_time.Prelude.{
  ℕ, zero, suc, ◌+◌, ◌-◌, ◌<◌, ◌≡◌, ◌≢◌, refl, ap, ◌∙◌, sym, true, false, inl, inr, none, some,
  List, [], ◌∷◌, ◌++◌, append_assoc, arith, All, map, ◌⊎◌, Bytes, ◌==◌, length, take, take_all,
}
use just_in_time.Json.{
  escape_byte, json_escape_string, passed, scan_object, json_array_next, skip_separators, object_at,
  collect,
}

-- The text between the braces of an object: single characters outside strings, strings (given
-- unescaped) and braced parts, each with the text that follows.
pub data Body : Type 0 where
  end : Body
  char : ℕ → Body → Body
  quoted : Bytes → Body → Body
  braced : Body → Body → Body

-- A single character is none of the three that the scan counts.
abbrev pub IsBody : Body → Type 0
IsBody end = Unit
IsBody (char c b) = (c ≢ b'"') × (c ≢ b'{') × (c ≢ b'}') × IsBody b
IsBody (quoted s b) = IsBody b
IsBody (braced a b) = IsBody a × IsBody b

abbrev pub print_body : Body → Bytes
print_body end = []
print_body (char c b) = c ∷ print_body b
print_body (quoted s b) = b'"' ∷ (json_escape_string s ++ b'"' ∷ print_body b)
print_body (braced a b) = b'{' ∷ (print_body a ++ b'}' ∷ print_body b)

passed-passed : (s t : Bytes) (r : Bytes × Bytes) → passed s (passed t r) ≡ passed (s ++ t) r
passed-passed s t r = ap (λ l. (l, r.1)) (sym (append_assoc s t r.0))

-- Inside a string the scan goes over an escaped byte without leaving the string.
scan-escape_byte :
    (c depth x : ℕ) (s : Bytes)
    → scan_object depth true (escape_byte c ++ x ∷ s)
      ≡ passed (escape_byte c) (scan_object depth true (x ∷ s))
unfolding scan_object escape_byte
scan-escape_byte c depth x s = ground arith

nonempty : (s rest : Bytes) → (x : ℕ) × (t : Bytes) × (json_escape_string s ++ b'"' ∷ rest ≡ x ∷ t)
nonempty s rest = first (json_escape_string s)
  where
    first : (l : Bytes) → (x : ℕ) × (t : Bytes) × (l ++ b'"' ∷ rest ≡ x ∷ t)
    first [] = (b'"', rest, refl)
    first (x ∷ l) = (x, l ++ b'"' ∷ rest, refl)

scan_quote :
    (depth : ℕ) (rest : Bytes)
    → scan_object depth true (b'"' ∷ rest) ≡ passed (b'"' ∷ []) (scan_object depth false rest)
unfolding scan_object
scan_quote depth [] = refl
scan_quote depth (x ∷ rest) = refl

-- An escaped text and a quote end the string that they stand in, nowhere earlier.
scan_string :
    (s : Bytes) (depth : ℕ) (rest : Bytes)
    → scan_object depth true (json_escape_string s ++ b'"' ∷ rest)
      ≡ passed (json_escape_string s ++ b'"' ∷ []) (scan_object depth false rest)
unfolding json_escape_string
scan_string [] depth rest = scan_quote depth rest
scan_string (c ∷ s) depth rest =
    let (x, t, e) = nonempty s rest in
    rw append_assoc (
      ap (λ l. scan_object depth true (escape_byte c ++ l)) e
      ∙ scan-escape_byte c depth x t
      ∙ ap (λ l. passed (escape_byte c) (scan_object depth true l)) (sym e)
      ∙ ap (passed (escape_byte c)) (scan_string s depth rest)
      ∙ passed-passed (escape_byte c) (json_escape_string s ++ b'"' ∷ [])
          (scan_object depth false rest)
      ∙ ap (λ l. passed l (scan_object depth false rest))
          (sym (append_assoc (escape_byte c) (json_escape_string s) (b'"' ∷ []))))

-- One step of the scan outside strings.
scan_open_quote :
    (n : ℕ) (s : Bytes) → scan_object n false (b'"' ∷ s) ≡ passed (b'"' ∷ []) (scan_object n true s)
unfolding scan_object
scan_open_quote n s = refl

scan_open_brace :
    (n : ℕ) (s : Bytes)
    → scan_object n false (b'{' ∷ s) ≡ passed (b'{' ∷ []) (scan_object (n + 1) false s)
unfolding scan_object
scan_open_brace n s = refl

scan_close_brace :
    (n : ℕ) (s : Bytes)
    → 0 < n
    → scan_object (n + 1) false (b'}' ∷ s) ≡ passed (b'}' ∷ []) (scan_object n false s)
unfolding scan_object
scan_close_brace n s h =
    let e : n + 1 - 1 ≡ n = omega arith in
    let more : (n == 0) ≡ false = ground arith in rw e (rw more)

scan_char :
    (n c : ℕ) (s : Bytes)
    → (c ≢ b'"') × (c ≢ b'{') × (c ≢ b'}')
    → scan_object n false (c ∷ s) ≡ passed (c ∷ []) (scan_object n false s)
unfolding scan_object
scan_char n c s h = ground arith

scan_body :
    (b : Body) (n : ℕ) (rest : Bytes)
    → 0 < n
    → IsBody b
    → scan_object n false (print_body b ++ rest) ≡ passed (print_body b) (scan_object n false rest)
scan_body end n rest h p = refl
scan_body (char c b) n rest h p =
    scan_char n c (print_body b ++ rest) (p.0, p.1, p.2)
    ∙ ap (passed (c ∷ [])) (scan_body b n rest h p.3)
scan_body (quoted s b) n rest h p =
    let text = json_escape_string s in
    ap (λ l. scan_object n false (b'"' ∷ l)) (append_assoc text (b'"' ∷ print_body b) rest)
    ∙ scan_open_quote n (text ++ b'"' ∷ (print_body b ++ rest))
    ∙ ap (passed (b'"' ∷ [])) (
        scan_string s n (print_body b ++ rest)
        ∙ ap (passed (text ++ b'"' ∷ [])) (scan_body b n rest h p)
        ∙ passed-passed (text ++ b'"' ∷ []) (print_body b) (scan_object n false rest)
        ∙ ap (λ l. passed l (scan_object n false rest))
            (append_assoc text (b'"' ∷ []) (print_body b)))
scan_body (braced a b) n rest h p =
    ap (λ l. scan_object n false (b'{' ∷ l))
      (append_assoc (print_body a) (b'}' ∷ print_body b) rest)
    ∙ scan_open_brace n (print_body a ++ b'}' ∷ (print_body b ++ rest))
    ∙ ap (passed (b'{' ∷ [])) (
        scan_body a (n + 1) (b'}' ∷ (print_body b ++ rest)) (omega arith) p.0
        ∙ ap (passed (print_body a)) (
            scan_close_brace n (print_body b ++ rest) h
            ∙ ap (passed (b'}' ∷ [])) (scan_body b n rest h p.1))
        ∙ passed-passed (print_body a) (b'}' ∷ print_body b) (scan_object n false rest))

abbrev pub print_object : Body → Bytes
print_object b = b'{' ∷ (print_body b ++ b'}' ∷ [])

scan_last_brace : (s : Bytes) → scan_object 1 false (b'}' ∷ s) ≡ (b'}' ∷ [], s)
unfolding scan_object
scan_last_brace s = refl

scan_print_object :
    (b : Body) (rest : Bytes)
    → IsBody b
    → scan_object 0 false (print_object b ++ rest) ≡ (print_object b, rest)
scan_print_object b rest p =
    ap (λ l. scan_object 0 false (b'{' ∷ l)) (append_assoc (print_body b) (b'}' ∷ []) rest)
    ∙ scan_open_brace 0 (print_body b ++ b'}' ∷ rest)
    ∙ ap (passed (b'{' ∷ [])) (
        scan_body b 1 (b'}' ∷ rest) (omega arith) p
        ∙ ap (passed (print_body b)) (scan_last_brace rest))

-- One object behind the bracket or the comma before it.
pub next_object :
    (x : ℕ) (b : Body) (rest : Bytes) (n : ℕ)
    → (x ≡ b'[') ⊎ (x ≡ b',')
    → IsBody b
    → length (print_object b) < n
    → json_array_next (x ∷ (print_object b ++ rest)) n
      ≡ record { object = some (print_object b); cursor = rest }
unfolding json_array_next
next_object x b rest n sep p fits =
    let room : (n == 0) ≡ false = ground arith in
    let skipped : skip_separators (x ∷ (print_object b ++ rest)) ≡ print_object b ++ rest =
      ground arith in
    rw room (
      ap (λ l. object_at l n) skipped
      ∙ ap (λ (r : Bytes × Bytes). record { object = some (take (n - 1) r.0); cursor = r.1 })
          (scan_print_object b rest p)
      ∙ ap (λ o. record { object = some o; cursor = rest })
          (take_all (n - 1) (print_object b) (omega arith)))

pub take_nil : (n : ℕ) → take {A = Bytes} n [] ≡ []
take_nil zero = refl
take_nil (suc n) = refl

-- The objects of an array, each behind a comma, and the closing bracket.
abbrev pub print_more : List Body → Bytes
print_more [] = b']' ∷ []
print_more (b ∷ bs) = b',' ∷ (print_object b ++ print_more bs)

abbrev pub print_array : List Body → Bytes
print_array [] = b'[' ∷ b']' ∷ []
print_array (b ∷ bs) = b'[' ∷ (print_object b ++ print_more bs)

abbrev pub Fits : ℕ → List Body → Type 0
Fits n = All (λ b. IsBody b × (length (print_object b) < n))

pub collect_next :
    (room n : ℕ) (cursor obj rest : Bytes)
    → json_array_next cursor n ≡ record { object = some obj; cursor = rest }
    → collect (suc room) cursor n ≡ obj ∷ collect room rest n
unfolding collect
collect_next room n cursor obj rest e = ground (arith, e)

pub collect_end :
    (room n : ℕ) (cursor : Bytes)
    → (json_array_next cursor n).object ≡ none
    → collect room cursor n ≡ []
unfolding collect
collect_end zero n cursor e = refl
collect_end (suc room) n cursor e = rw (e, collect)

no_object : (n : ℕ) → (json_array_next (b']' ∷ []) n).object ≡ none
unfolding json_array_next
no_object n = ground arith

no_objects : (n : ℕ) → (json_array_next (b'[' ∷ b']' ∷ []) n).object ≡ none
unfolding json_array_next
no_objects n = ground arith

collect_behind :
    (room : ℕ) (x : ℕ) (b : Body) (bs : List Body) (n : ℕ)
    → (x ≡ b'[') ⊎ (x ≡ b',')
    → Fits n (b ∷ bs)
    → ((r : ℕ) → collect r (print_more bs) n ≡ take r (map print_object bs))
    → collect room (x ∷ (print_object b ++ print_more bs)) n ≡ take room (map print_object (b ∷ bs))
collect_behind zero x b bs n sep p more = unfold collect in refl
collect_behind (suc room) x b bs n sep p more =
    collect_next room n _ (print_object b) (print_more bs)
      (next_object x b (print_more bs) n sep p.0.0 p.0.1)
    ∙ ap (λ l. print_object b ∷ l) (more room)

collect_more :
    (bs : List Body) (n : ℕ)
    → Fits n bs
    → (room : ℕ) → collect room (print_more bs) n ≡ take room (map print_object bs)
collect_more [] n p room = collect_end room n (b']' ∷ []) (no_object n) ∙ sym (take_nil room)
collect_more (b ∷ bs) n p room =
    collect_behind room b',' b bs n (inr refl) p (collect_more bs n p.1)

-- For an array of well-formed objects, strings with any bytes and nested objects included, each
-- shorter than the caller's buffer, the callers' loop gets exactly the texts of its objects, in
-- order, up to the number of objects for which the caller has room.
pub collect-print_array :
    (bs : List Body) (n room : ℕ)
    → Fits n bs
    → collect room (print_array bs) n ≡ take room (map print_object bs)
collect-print_array [] n room p =
    collect_end room n (b'[' ∷ b']' ∷ []) (no_objects n) ∙ sym (take_nil room)
collect-print_array (b ∷ bs) n room p =
    collect_behind room b'[' b bs n (inl refl) p (collect_more bs n p.1)
