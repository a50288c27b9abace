-- ===== src/Auth/Examples.antt =====
-- The theorems on the text formats of the authentication at concrete values.
use homedeck.Base.{◌≡◌, refl, some, [], ◌∷◌, arith, bytes_eq}
use homedeck.Base.Int.{pos}
use homedeck.Base.Text.{codes}
use homedeck.Codec.Hex.{to_hex}
use homedeck.Auth.Stored.{
  pbkdf2_iterations, parse_stored_password_hash, encode_password, parse-encode_password,
}
use homedeck.Auth.Cookie.{
  Cookie, extract_cookie, print_cookies, find_cookie, extract_cookie-print_cookies,
}

parse-encode_password_example :
    parse_stored_password_hash (
      some (record {
        schema_version = pos 1;
        value = encode_password (1 ∷ 255 ∷ []) (to_hex (36 ∷ []));
      }))
    ≡ some (record { iterations = pbkdf2_iterations; salt = 1 ∷ 255 ∷ []; hash = 36 ∷ [] })
parse-encode_password_example =
    parse-encode_password
      (record { schema_version = pos 1; value = encode_password (1 ∷ 255 ∷ []) (to_hex (36 ∷ [])) })
      (1 ∷ 255 ∷ []) (36 ∷ []) (λ e. cc e) (λ e. cc e) (omega arith) (omega arith) refl

abbrev theme : Cookie
theme = record { first = b't'; more = codes "heme"; value = codes "dark" }

abbrev session : Cookie
session = record { first = b's'; more = codes "ession"; value = codes "00ff=" }

extract_cookie-print_cookies_example :
    extract_cookie (print_cookies theme (session ∷ [])) (codes "session")
    ≡ find_cookie (codes "session") (theme ∷ session ∷ [])
extract_cookie-print_cookies_example =
    extract_cookie-print_cookies (codes "session") theme (session ∷ []) (omega arith) (omega arith)

found : find_cookie (codes "session") (theme ∷ session ∷ []) ≡ some (codes "00ff=")
unfolding find_cookie bytes_eq
found = refl
