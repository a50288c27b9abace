-- ===== src/Url.antt =====
-- src/core/url_codec.cpp, and `UrlEncode` of src/core/weather_routes.cpp. A text is the list of its bytes.
pub mod Codec
pub mod Form
mod Examples
use homedeck.Base.{
  ℕ, ◌+◌, ◌-◌, ◌*◌, ◌/◌, ◌%◌, Bool, true, false, not, ◌&&◌, ◌||◌, Option, none, some, List, [], ◌∷◌,
  ◌++◌, ltb, leb, ◌==◌, if◌then◌else◌, drop, length, is_empty,
}
use homedeck.Codec.Decimal.{is_digit}

abbrev pub is_alpha : ℕ → Bool
is_alpha c = leb b'A' c && leb c b'Z' || leb b'a' c && leb c b'z'

abbrev pub is_xdigit : ℕ → Bool
is_xdigit c = is_digit c || (leb b'A' c && leb c b'F' || leb b'a' c && leb c b'f')

abbrev pub to_lower : ℕ → ℕ
to_lower c = if leb b'A' c && leb c b'Z' then c + 32 else c

-- `hex_value`, of a character that `isxdigit` admits.
pub hex_value : ℕ → ℕ
hex_value c = if is_digit c then c - b'0' else to_lower c - b'a' + 10

pub unplus : ℕ → ℕ
unplus c = if c == b'+' then b' ' else c

unfoldable pub url_decode : List ℕ → List ℕ
unfolding hex_value unplus
url_decode [] = []
url_decode (c ∷ []) = unplus c ∷ []
url_decode (c ∷ d ∷ []) = unplus c ∷ url_decode (d ∷ [])
url_decode (c ∷ d ∷ e ∷ rest) =
    let escaped = url_decode rest in
    let plain = url_decode (d ∷ e ∷ rest) in
    if c == b'%' && is_xdigit d && is_xdigit e
    then (hex_value d * 16 + hex_value e) ∷ escaped
    else unplus c ∷ plain

-- `kHexDigits[v]`.
pub upper_hex_digit : ℕ → ℕ
upper_hex_digit v = if ltb v 10 then b'0' + v else b'A' + (v - 10)

pub is_unreserved : ℕ → Bool
is_unreserved c = is_digit c || is_alpha c || (c == b'-' || c == b'_' || c == b'.' || c == b'~')

unfoldable pub url_encode : List ℕ → List ℕ
unfolding upper_hex_digit is_unreserved
url_encode [] = []
url_encode (c ∷ cs) =
    if is_unreserved c
    then c ∷ url_encode cs
    else b'%' ∷ upper_hex_digit (c / 16) ∷ upper_hex_digit (c % 16) ∷ url_encode cs

-- `starts_with` at one position of the search, with what stands behind the prefix.
pub strip : List ℕ → List ℕ → Option (List ℕ)
strip [] text = some text
strip (p ∷ prefix) [] = none
strip (p ∷ prefix) (c ∷ text) = if p == c then strip prefix text else none

-- `substr` as far as the next `&`.
pub until_ampersand : List ℕ → List ℕ
until_ampersand [] = []
until_ampersand (c ∷ text) = if c == b'&' then [] else c ∷ until_ampersand text

pub prefer {ℓ} : {A : Type ℓ} → Option A → Option A → Option A
prefer (some a) other = some a
prefer none other = other

-- One position after the other; `boundary` says that it is the first, or stands behind a `&`.
pub find_field : List ℕ → Bool → List ℕ → Option (List ℕ)
unfolding strip until_ampersand prefer
find_field prefix boundary [] = none
find_field prefix boundary (c ∷ text) =
    prefer (if boundary then strip prefix (c ∷ text) else none) (find_field prefix (c == b'&') text)

-- The value behind a prefix that was found.
pub form_value : Option (List ℕ) → Option (List ℕ)
unfolding until_ampersand url_decode
form_value none = none
form_value (some rest) = some (url_decode (until_ampersand rest))

unfoldable pub parse_form_field : List ℕ → List ℕ → Option (List ℕ)
unfolding find_field form_value
parse_form_field form_data key = form_value (find_field (key ++ (b'=' ∷ [])) true form_data)
