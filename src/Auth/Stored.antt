-- ===== src/Auth/Stored.antt =====
-- The stored password record of src/core/admin_auth_service.cpp:
-- `pbkdf2-sha256$<iterations>$<salt>$<hash>`.
use homedeck.Base.{
  ℕ, ◌/◌, ◌%◌, ◌≡◌, refl, ◌∙◌, ap, ◌≢◌, false, not, ◌||◌, Option, none, some, List, [], ◌∷◌, ◌++◌,
  arith, ◌==◌, leb, if◌then◌else◌, bytes_eq, All, is_empty,
}
use homedeck.Base.Text.{codes}
use homedeck.Codec.Decimal.{
  to_string, from_chars, max_unsigned, from_chars-to_string, to_string-All, ◌>>=◌,
}
use homedeck.Codec.Hex.{to_hex, from_hex, from_hex-to_hex, IsByte, hex_digit}
use homedeck.Storage.{VersionedValue}

abbrev pub pbkdf2_iterations : ℕ
pbkdf2_iterations = 25000

abbrev pub max_stored_pbkdf2_iterations : ℕ
max_stored_pbkdf2_iterations = 1000000

pub record StoredPasswordHash : Type 0 where
  pub iterations : ℕ
  pub salt : List ℕ
  pub hash : List ℕ

-- `std::getline(stream, line, '$')`: the text up to the delimiter, and the text behind it. At the
-- end of the stream the line stays empty.
pub get_line : List ℕ → List ℕ × List ℕ
get_line [] = ([], [])
get_line (c ∷ cs) =
    let (line, rest) = get_line cs in if c == b'$' then ([], cs) else (c ∷ line, rest)

abbrev algorithm_name : List ℕ
algorithm_name = codes "pbkdf2-sha256"

check_iterations : ℕ → Option ℕ
check_iterations n = if n == 0 || not (leb n max_stored_pbkdf2_iterations) then none else some n

-- The four fields of a record.
parse_fields : List ℕ → List ℕ → List ℕ → List ℕ → Option StoredPasswordHash
unfolding check_iterations
parse_fields algorithm iterations_str salt_hex hash_hex =
    if not (bytes_eq algorithm algorithm_name) || is_empty salt_hex || is_empty hash_hex
    then none
    else do
      n ← from_chars max_unsigned iterations_str
      iterations ← check_iterations n
      salt ← from_hex salt_hex
      hash ← from_hex hash_hex
      some (record { iterations = iterations; salt = salt; hash = hash })

parse_text : List ℕ → Option StoredPasswordHash
unfolding get_line parse_fields
parse_text text =
    let (algorithm, rest₁) = get_line text in
    let (iterations_str, rest₂) = get_line rest₁ in
    let (salt_hex, rest₃) = get_line rest₂ in
    let (hash_hex, rest₄) = get_line rest₃ in
    parse_fields algorithm iterations_str salt_hex hash_hex

unfoldable pub parse_stored_password_hash : Option VersionedValue → Option StoredPasswordHash
unfolding parse_text
parse_stored_password_hash none = none
parse_stored_password_hash (some stored) = parse_text stored.value

-- The text that `SetInitialPassword` writes, from the hash as hexadecimal text.
unfoldable pub encode_password : List ℕ → List ℕ → List ℕ
encode_password salt hash_hex =
    algorithm_name
    ++ (b'$' ∷ (to_string pbkdf2_iterations ++ (b'$' ∷ (to_hex salt ++ (b'$' ∷ hash_hex)))))

get_line-append :
    (xs ys : List ℕ) → All (λ c. c ≢ b'$') xs → get_line (xs ++ (b'$' ∷ ys)) ≡ (xs, ys)
unfolding get_line
get_line-append [] ys h = refl
get_line-append (x ∷ xs) ys h = ground (arith, get_line-append xs ys h.1)

get_line_end : (xs : List ℕ) → All (λ c. c ≢ b'$') xs → get_line xs ≡ (xs, [])
unfolding get_line
get_line_end [] h = refl
get_line_end (x ∷ xs) h = ground (arith, get_line_end xs h.1)

hex_digit_ne : (v : ℕ) → hex_digit v ≢ b'$'
hex_digit_ne v = ground arith

to_hex-All : (bs : List ℕ) → All (λ c. c ≢ b'$') (to_hex bs)
unfolding to_hex
to_hex-All [] = tt
to_hex-All (b ∷ bs) = (hex_digit_ne (b / 16), (hex_digit_ne (b % 16), to_hex-All bs))

to_hex_nonempty : (bs : List ℕ) → bs ≢ [] → is_empty (to_hex bs) ≡ false
unfolding to_hex
to_hex_nonempty [] n = absurd (n refl)
to_hex_nonempty (b ∷ bs) n = refl

parse_fields-encode :
    (salt hash : List ℕ)
    → salt ≢ []
    → hash ≢ []
    → All IsByte salt
    → All IsByte hash
    → parse_fields algorithm_name (to_string pbkdf2_iterations) (to_hex salt) (to_hex hash)
      ≡ some (record { iterations = pbkdf2_iterations; salt = salt; hash = hash })
unfolding parse_fields bytes_eq
parse_fields-encode salt hash sn hn sb hb = rw (
  to_hex_nonempty salt sn,
  to_hex_nonempty hash hn,
  from_chars-to_string max_unsigned pbkdf2_iterations (omega arith),
  from_hex-to_hex salt sn sb,
  from_hex-to_hex hash hn hb,
)

parse_text_fields :
    (a b c d : List ℕ)
    → All (λ x. x ≢ b'$') a
    → All (λ x. x ≢ b'$') b
    → All (λ x. x ≢ b'$') c
    → All (λ x. x ≢ b'$') d
    → parse_text (a ++ (b'$' ∷ (b ++ (b'$' ∷ (c ++ (b'$' ∷ d)))))) ≡ parse_fields a b c d
unfolding parse_text
parse_text_fields a b c d ha hb hc hd =
    rw (get_line-append a (b ++ (b'$' ∷ (c ++ (b'$' ∷ d)))) ha)
      (rw (get_line-append b (c ++ (b'$' ∷ d)) hb) (rw (get_line-append c d hc, get_line_end d hd)))

-- The record that is written for a salt and a hash is parsed back to them, with the iteration
-- count that the hash was made with.
pub parse-encode_password :
    (v : VersionedValue) (salt hash : List ℕ)
    → salt ≢ []
    → hash ≢ []
    → All IsByte salt
    → All IsByte hash
    → v.value ≡ encode_password salt (to_hex hash)
    → parse_stored_password_hash (some v)
      ≡ some (record { iterations = pbkdf2_iterations; salt = salt; hash = hash })
unfolding parse_stored_password_hash encode_password
parse-encode_password v salt hash sn hn sb hb e =
    ap parse_text e
    ∙ parse_text_fields algorithm_name (to_string pbkdf2_iterations) (to_hex salt) (to_hex hash)
        (omega arith) (to_string-All (λ c. c ≢ b'$') (λ c lo hi. omega arith) pbkdf2_iterations)
        (to_hex-All salt) (to_hex-All hash)
    ∙ parse_fields-encode salt hash sn hn sb hb
