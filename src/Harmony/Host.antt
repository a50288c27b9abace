-- ===== src/Harmony/Host.antt =====
-- The tests of src/core/host_validation.h and those that src/core/harmony_connection.cpp builds on
-- them, in the C locale.
use homedeck.Base.{
  ℕ, ◌≡◌, ◌≢◌, ◌<◌, refl, Bool, true, false, not, ◌&&◌, ◌||◌, List, [], ◌∷◌, arith, ltb, leb, ◌==◌,
  if◌then◌else◌, length, is_empty, bytes_eq, All,
}
use homedeck.Base.Text.{codes}
use homedeck.Codec.Decimal.{is_digit}
use homedeck.Codec.Hex.{is_space}

abbrev pub is_alnum : ℕ → Bool
is_alnum c = is_digit c || leb b'A' c && leb c b'Z' || leb b'a' c && leb c b'z'

any : (ℕ → Bool) → List ℕ → Bool
any p [] = false
any p (c ∷ cs) = p c || any p cs

-- `value.find("://") != npos`.
has_scheme : List ℕ → Bool
has_scheme (c ∷ d ∷ e ∷ rest) = c == b':' && d == b'/' && e == b'/' || has_scheme (d ∷ e ∷ rest)
has_scheme _ = false

unsafe_byte : ℕ → Bool
unsafe_byte c = is_space c || leb 128 c || ltb c 32 || c == 127

url_byte : ℕ → Bool
url_byte c = c == b'/' || c == b'#' || c == b'?' || c == b'@'

unfoldable pub has_unsafe_host_chars : List ℕ → Bool → Bool
unfolding any has_scheme unsafe_byte url_byte
has_unsafe_host_chars value allow_colon =
    if has_scheme value
    then true
    else if any unsafe_byte value
    then true
    else if any url_byte value
    then true
    else not allow_colon && any (λ c. c == b':') value

last_is : ℕ → List ℕ → Bool
last_is b [] = false
last_is b (c ∷ []) = c == b
last_is b (c ∷ d ∷ cs) = last_is b (d ∷ cs)

first_is : ℕ → List ℕ → Bool
first_is b [] = false
first_is b (c ∷ cs) = c == b

unfoldable pub is_valid_hostname_label : List ℕ → Bool
unfolding any first_is last_is
is_valid_hostname_label label =
    if is_empty label || ltb 63 (length label)
    then false
    else if first_is b'-' label || last_is b'-' label
    then false
    else not (any (λ c. not (is_alnum c) && not (c == b'-')) label)

unfoldable pub is_valid_hub_id : List ℕ → Bool
unfolding any
is_valid_hub_id value = not (is_empty value) && not (any (λ c. not (is_alnum c)) value)

unfoldable pub is_valid_hub_host : List ℕ → Bool
unfolding has_unsafe_host_chars
is_valid_hub_host value = not (has_unsafe_host_chars value false)

abbrev pub hub_host_key : List ℕ
hub_host_key = codes "hub_host"

unfoldable pub is_valid_harmony_setting : List ℕ → List ℕ → Bool
unfolding is_valid_hub_host
is_valid_harmony_setting key value = not (bytes_eq key hub_host_key) || is_valid_hub_host value

any-All : (p : ℕ → Bool) (xs : List ℕ) → any p xs ≡ false → All (λ c. p c ≡ false) xs
unfolding any
any-All p [] h = tt
any-All p (x ∷ xs) h = (ground arith, any-All p xs (ground arith))

All-any : (p : ℕ → Bool) (xs : List ℕ) → All (λ c. p c ≡ false) xs → any p xs ≡ false
unfolding any
All-any p [] h = refl
All-any p (x ∷ xs) h = ground (arith, All-any p xs h.1)

-- A byte that may stand in a host of a URL: none of a delimiter, white space or a control byte.
pub record IsPlain (c : ℕ) : Type 0 where
  pub no_slash : c ≢ b'/'
  pub no_query : c ≢ b'?'
  pub no_fragment : c ≢ b'#'
  pub no_user : c ≢ b'@'
  pub no_port : c ≢ b':'
  pub printable : (32 < c) × (c < 127)

plain :
    (xs : List ℕ)
    → All (λ c. unsafe_byte c ≡ false) xs
    → All (λ c. url_byte c ≡ false) xs
    → All (λ c. (c == b':') ≡ false) xs
    → All IsPlain xs
unfolding unsafe_byte url_byte
plain [] a b c = tt
plain (x ∷ xs) a b c = (
  record {
    no_slash = ground arith;
    no_query = ground arith;
    no_fragment = ground arith;
    no_user = ground arith;
    no_port = ground arith;
    printable = (ground arith, ground arith);
  },
  plain xs a.1 b.1 c.1,
)

-- A host that passes has plain bytes alone.
pub is_valid_hub_host-IsPlain : (h : List ℕ) → is_valid_hub_host h ≡ true → All IsPlain h
unfolding is_valid_hub_host has_unsafe_host_chars
is_valid_hub_host-IsPlain h e =
    plain h (any-All unsafe_byte h (ground arith)) (any-All url_byte h (ground arith))
      (any-All (λ c. c == b':') h (ground arith))

not-false : (b : Bool) → not b ≡ false → b ≡ true
not-false true e = refl
not-false false e = absurd (ground arith)

alnum : (xs : List ℕ) → All (λ c. not (is_alnum c) ≡ false) xs → All (λ c. is_alnum c ≡ true) xs
alnum [] h = tt
alnum (x ∷ xs) h = (not-false (is_alnum x) h.0, alnum xs h.1)

-- An id that passes is not empty, and alphanumeric.
pub is_valid_hub_id-IsAlnum :
    (v : List ℕ) → is_valid_hub_id v ≡ true → (v ≢ []) × All (λ c. is_alnum c ≡ true) v
unfolding is_valid_hub_id
is_valid_hub_id-IsAlnum [] e = absurd (ground arith)
is_valid_hub_id-IsAlnum (c ∷ cs) e =
    ((λ q. cc q), alnum (c ∷ cs) (any-All (λ c. not (is_alnum c)) (c ∷ cs) (ground arith)))
