-- ===== src/Url/Codec.antt =====
-- A text that was percent-encoded is decoded to itself.
use homedeck.Base.{
  ℕ, ◌+◌, ◌*◌, ◌/◌, ◌%◌, ◌<◌, ◌≢◌, ◌≡◌, refl, ◌∙◌, ap, true, List, [], ◌∷◌, arith, Bool-cases, inl,
  inr, All,
}
use homedeck.Codec.Hex.{IsByte}
use homedeck.Url.{
  url_decode, url_encode, hex_value, unplus, upper_hex_digit, is_unreserved, is_xdigit,
}

hex_value-upper_hex_digit : (v : ℕ) → v < 16 → hex_value (upper_hex_digit v) ≡ v
unfolding hex_value upper_hex_digit
hex_value-upper_hex_digit v h = ground arith

is_xdigit-upper_hex_digit : (v : ℕ) → v < 16 → is_xdigit (upper_hex_digit v) ≡ true
unfolding upper_hex_digit
is_xdigit-upper_hex_digit v h = ground arith

decode_escape :
    (d e : ℕ) (rest : List ℕ)
    → is_xdigit d ≡ true
    → is_xdigit e ≡ true
    → url_decode (b'%' ∷ d ∷ e ∷ rest) ≡ (hex_value d * 16 + hex_value e) ∷ url_decode rest
unfolding url_decode
decode_escape d e rest p q = ground (arith, p, q)

decode_plain :
    (c : ℕ) (rest : List ℕ) → c ≢ b'%' → c ≢ b'+' → url_decode (c ∷ rest) ≡ c ∷ url_decode rest
unfolding url_decode unplus
decode_plain c [] p q = ground (arith, p, q)
decode_plain c (d ∷ []) p q = ground (arith, p, q)
decode_plain c (d ∷ e ∷ rest) p q = ground (arith, p, q)

nothing : url_decode [] ≡ []
unfolding url_decode
nothing = refl

reserved : (c : ℕ) → is_unreserved c ≡ true → (c ≢ b'%') × (c ≢ b'+')
unfolding is_unreserved
reserved c h = ((λ e. ground arith), λ e. ground arith)

digits :
    (c : ℕ)
    → c < 256
    → hex_value (upper_hex_digit (c / 16)) * 16 + hex_value (upper_hex_digit (c % 16)) ≡ c
digits c h =
    rw
      (
        hex_value-upper_hex_digit (c / 16) (omega (arith, h)),
        hex_value-upper_hex_digit (c % 16) (omega arith),
      )
      (omega arith)

ap2 : {a b : ℕ} {l m : List ℕ} → a ≡ b → l ≡ m → a ∷ l ≡ b ∷ m
ap2 p q = cc

-- Decoding gives back the bytes that were encoded.
pub url_decode-url_encode : (text : List ℕ) → All IsByte text → url_decode (url_encode text) ≡ text
unfolding url_encode
url_decode-url_encode [] h = nothing
url_decode-url_encode (c ∷ cs) h = elim (Bool-cases (is_unreserved c)) [
  | inl plain ↦ rw plain (
      decode_plain c (url_encode cs) (reserved c plain).0 (reserved c plain).1
      ∙ ap (λ l. c ∷ l) (url_decode-url_encode cs h.1))
  | inr escaped ↦ rw escaped (
      decode_escape (upper_hex_digit (c / 16)) (upper_hex_digit (c % 16)) (url_encode cs)
        (is_xdigit-upper_hex_digit (c / 16) (omega (arith, h.0)))
        (is_xdigit-upper_hex_digit (c % 16) (omega arith))
      ∙ ap2 (digits c h.0) (url_decode-url_encode cs h.1))
]

-- A character that means nothing in a form.
abbrev pub IsClean : ℕ → Type 0
IsClean c = (c ≢ b'&') × (c ≢ b'=')

IsClean-is_unreserved : (c : ℕ) → is_unreserved c ≡ true → IsClean c
unfolding is_unreserved
IsClean-is_unreserved c h = ((λ e. ground arith), λ e. ground arith)

IsClean-upper_hex_digit : (v : ℕ) → v < 16 → IsClean (upper_hex_digit v)
unfolding upper_hex_digit
IsClean-upper_hex_digit v h = ((λ e. ground arith), λ e. ground arith)

-- An encoded text has no character that means something in a form.
pub url_encode-IsClean : (text : List ℕ) → All IsByte text → All IsClean (url_encode text)
unfolding url_encode
url_encode-IsClean [] h = tt
url_encode-IsClean (c ∷ cs) h = elim (Bool-cases (is_unreserved c)) [
  | inl plain ↦ rw plain (IsClean-is_unreserved c plain, url_encode-IsClean cs h.1)
  | inr escaped ↦ rw escaped (
    (omega arith, omega arith),
    (
      IsClean-upper_hex_digit (c / 16) (omega (arith, h.0)),
      (IsClean-upper_hex_digit (c % 16) (omega arith), url_encode-IsClean cs h.1),
    ),
  )
]
