-- ===== src/Cloud/Encode.antt =====
-- Percent-encoding is undone by decoding, but for the bytes below 16.
use just_in_time.Prelude.{
  ℕ, ◌+◌, ◌-◌, ◌*◌, ◌/◌, ◌%◌, ◌≤◌, ◌<◌, ◌≡◌, ◌≢◌, refl, ap, ap₂, ◌∙◌, ltb, ◌==◌, if◌then◌else◌,
  Bool-cases, inl, inr, true, false, [], ◌∷◌, arith, Bytes, All, is_digit,
}
use just_in_time.Cloud.{url_encode, hex, is_unreserved}

-- The digit that a character stands for, and the decoder of RFC 3986: `%` and two digits.
abbrev pub unhex : ℕ → ℕ
unhex c = if is_digit c then c - b'0' else c - b'A' + 10

unfoldable pub percent_decode : Bytes → Bytes
percent_decode [] = []
percent_decode (c ∷ []) = c ∷ []
percent_decode (c ∷ d ∷ []) = c ∷ d ∷ []
percent_decode (c ∷ d ∷ e ∷ s) = elim (c == b'%') [
  | true ↦ (unhex d * 16 + unhex e) ∷ percent_decode s
  | false ↦ c ∷ percent_decode (d ∷ e ∷ s)
]

decode_plain : (c : ℕ) (s : Bytes) → c ≢ b'%' → percent_decode (c ∷ s) ≡ c ∷ percent_decode s
unfolding percent_decode
decode_plain c [] h = refl
decode_plain c (d ∷ []) h = refl
decode_plain c (d ∷ e ∷ s) h =
    let no : (c == b'%') ≡ false = ground arith in rw (no, percent_decode) refl

decode_escape :
    (d e : ℕ) (s : Bytes)
    → percent_decode (b'%' ∷ d ∷ e ∷ s) ≡ (unhex d * 16 + unhex e) ∷ percent_decode s
unfolding percent_decode
decode_escape d e s = refl

unhex-hex : (n : ℕ) → n < 16 → unhex (hex n) ≡ n
unhex-hex n h = ground arith

unreserved_plain : (c : ℕ) → is_unreserved c ≡ true → c ≢ b'%'
unreserved_plain c h = ground (arith, h)

-- Decoding gives back any text of bytes from 16 on.
pub percent_decode-url_encode :
    (s : Bytes) → All (λ c. (16 ≤ c) × (c < 256)) s → percent_decode (url_encode s) ≡ s
unfolding url_encode
percent_decode-url_encode [] h = unfold percent_decode in refl
percent_decode-url_encode (c ∷ s) h = elim (Bool-cases (is_unreserved c)) [
  | inl plain ↦ rw plain (
      decode_plain c (url_encode s) (unreserved_plain c plain)
      ∙ ap (λ t. c ∷ t) (percent_decode-url_encode s h.1))
  | inr escaped ↦
      let two : ltb c 16 ≡ false = ground arith in
      let high : unhex (hex (c / 16)) ≡ c / 16 = unhex-hex (c / 16) (omega arith) in
      let low : unhex (hex (c % 16)) ≡ c % 16 = unhex-hex (c % 16) (omega arith) in
      rw escaped (
        rw two (
          decode_escape (hex (c / 16)) (hex (c % 16)) (url_encode s)
          ∙ ap₂ (λ (x : ℕ) t. x ∷ t) (omega (arith, high, low)) (percent_decode-url_encode s h.1)))
]

-- A byte below 16 is written with one digit: together with a hexadecimal digit behind it, it is read
-- as another byte, and both are lost.
pub url_encode_control :
    (c d : ℕ) (s : Bytes)
    → c < 16
    → d < 16
    → percent_decode (url_encode (c ∷ hex d ∷ s)) ≡ (c * 16 + d) ∷ percent_decode (url_encode s)
unfolding url_encode
url_encode_control c d s h h' =
    let escaped : is_unreserved c ≡ false = ground arith in
    let one_digit : ltb c 16 ≡ true = ground arith in
    let plain : is_unreserved (hex d) ≡ true = ground arith in
    let first : unhex (hex c) ≡ c = unhex-hex c h in
    let second : unhex (hex d) ≡ d = unhex-hex d h' in
    rw escaped (
      rw one_digit (
        rw plain (
          decode_escape (hex c) (hex d) (url_encode s)
          ∙ ap (λ (x : ℕ). x ∷ percent_decode (url_encode s)) (omega (arith, first, second)))))
