-- ===== src/Settings/Excluded.antt =====
-- Which apps the list of excluded processes names.
use just_in_time.Prelude.{
  ℕ, zero, suc, map, ◌≡◌, ◌<◌, refl, ap, ◌∙◌, false, [], List, ◌∷◌, ◌++◌, arith, Bytes, length, any,
  ◌==◌, Lacks, All, onto_first, length-append,
}
use just_in_time.Enforce.{same_name}
use just_in_time.Settings.{
  Store, tokens_of, trim_leading_space, any_named, settings_is_process_excluded,
}

-- A name of the list: not empty, without a comma, and not with a blank in front.
abbrev pub IsListed : Bytes → Type 0
IsListed name = (0 < length name) × Lacks b',' name × (trim_leading_space name ≡ name)

abbrev pub blanks : ℕ → Bytes → Bytes
blanks zero s = s
blanks (suc n) s = 32 ∷ blanks n s

-- The names, each behind a number of blanks, with commas between them.
unfoldable pub join_names : List (ℕ × Bytes) → Bytes
join_names [] = []
join_names ((n, name) ∷ []) = blanks n name
join_names ((n, name) ∷ e ∷ es) = blanks n name ++ b',' ∷ join_names (e ∷ es)

tokens_of-comma :
    (a rest : Bytes) → Lacks b',' a → tokens_of (a ++ b',' ∷ rest) ≡ a ∷ tokens_of rest
unfolding tokens_of
tokens_of-comma [] rest h = refl
tokens_of-comma (c ∷ a) rest h = ground (arith, tokens_of-comma a rest h.1)

tokens_of-last : (c : ℕ) (a : Bytes) → Lacks b',' (c ∷ a) → tokens_of (c ∷ a) ≡ (c ∷ a) ∷ []
unfolding tokens_of
tokens_of-last c [] h = ground arith
tokens_of-last c (d ∷ a) h =
    let e = tokens_of-last d a h.1 in
    let no : (c == b',') ≡ false = ground arith in rw no (ap (onto_first c) e)

trim-blanks : (n : ℕ) (name : Bytes) → trim_leading_space (blanks n name) ≡ trim_leading_space name
unfolding trim_leading_space
trim-blanks zero name = refl
trim-blanks (suc n) name = trim-blanks n name

blanks-Lacks : (n : ℕ) (name : Bytes) → Lacks b',' name → Lacks b',' (blanks n name)
blanks-Lacks zero name h = h
blanks-Lacks (suc n) name h = (omega arith, blanks-Lacks n name h)

blanks-some : (n : ℕ) (name : Bytes) → 0 < length name → 0 < length (blanks n name)
blanks-some zero name h = h
blanks-some (suc n) name h = omega arith

tokens_of-one : (a : Bytes) → 0 < length a → Lacks b',' a → tokens_of a ≡ a ∷ []
tokens_of-one [] h lacks = absurd (omega arith)
tokens_of-one (c ∷ a) h lacks = tokens_of-last c a lacks

tokens_of-join_names :
    (es : List (ℕ × Bytes))
    → All (λ e. IsListed e.1) es
    → tokens_of (join_names es) ≡ map (λ e. blanks e.0 e.1) es
unfolding join_names
tokens_of-join_names [] h = unfold tokens_of in refl
tokens_of-join_names ((n, name) ∷ []) h =
    tokens_of-one (blanks n name) (blanks-some n name h.0.0) (blanks-Lacks n name h.0.1)
tokens_of-join_names ((n, name) ∷ e ∷ es) h =
    tokens_of-comma (blanks n name) (join_names (e ∷ es)) (blanks-Lacks n name h.0.1)
    ∙ ap (λ ts. blanks n name ∷ ts) (tokens_of-join_names (e ∷ es) h.1)

any_named-blanks :
    (name : Bytes) (es : List (ℕ × Bytes))
    → All (λ e. IsListed e.1) es
    → any_named name (map (λ e. blanks e.0 e.1) es) ≡ any (λ e. same_name e.1 name) es
unfolding any_named
any_named-blanks name [] h = refl
any_named-blanks name (e ∷ es) h =
    rw (trim-blanks e.0 e.1) (rw h.0.2 (rw (any_named-blanks name es h.1) refl))

join_names-some :
    (e : ℕ × Bytes) (es : List (ℕ × Bytes)) → IsListed e.1 → 0 < length (join_names (e ∷ es))
unfolding join_names
join_names-some (n, name) [] h = blanks-some n name h.0
join_names-some (n, name) (e ∷ es) h =
    omega (arith, length-append (blanks n name) (b',' ∷ join_names (e ∷ es)))

-- If the setting lists names with commas between them and any number of blanks before each, and no
-- name is empty, has a comma or starts with a blank, then a process is excluded exactly if one of
-- the names is its name up to the case of ASCII letters.
pub is_process_excluded-join_names :
    (name : Bytes) (st : Store) (es : List (ℕ × Bytes))
    → st.g_settings.excluded_processes ≡ join_names es
    → All (λ e. IsListed e.1) es
    → settings_is_process_excluded name st ≡ any (λ e. same_name e.1 name) es
unfolding settings_is_process_excluded join_names
is_process_excluded-join_names name st [] listed h = rw listed refl
is_process_excluded-join_names name st (e ∷ es) listed h =
    let some_text : (length (join_names (e ∷ es)) == 0) ≡ false =
      ground (arith, join_names-some e es h.0) in
    rw listed (
      rw some_text
        (ap (any_named name) (tokens_of-join_names (e ∷ es) h) ∙ any_named-blanks name (e ∷ es) h))
