-- ===== src/Codec/Hex.antt =====
-- `ToHex` and `FromHex` of src/core/admin_auth_service.cpp, with `sscanf("%2x")` as the C standard
-- describes it.
use homedeck.Base.{
  ℕ, zero, suc, ◌+◌, ◌-◌, ◌*◌, ◌/◌, ◌%◌, ◌≤◌, ◌<◌, ◌≡◌, refl, ◌∙◌, Bool, false, ◌&&◌, ◌||◌, not,
  Option, none, some, List, [], ◌∷◌, arith, ltb, leb, if◌then◌else◌, All, ◌==◌, ◌≢◌, length, drop,
  is_empty,
}
use homedeck.Codec.Decimal.{is_digit, ◌>>=◌}

-- `kDigits[value]`.
abbrev pub hex_digit : ℕ → ℕ
hex_digit v = if ltb v 10 then b'0' + v else b'a' + (v - 10)

unfoldable pub to_hex : List ℕ → List ℕ
to_hex [] = []
to_hex (b ∷ bs) = hex_digit (b / 16) ∷ hex_digit (b % 16) ∷ to_hex bs

-- The value of a hexadecimal digit of either case.
unfoldable pub hex_value? : ℕ → Option ℕ
hex_value? c =
    if is_digit c
    then some (c - b'0')
    else if leb b'a' c && leb c b'f'
    then some (c - b'a' + 10)
    else if leb b'A' c && leb c b'F'
    then some (c - b'A' + 10)
    else none

abbrev pub is_space : ℕ → Bool
is_space c = leb 9 c && leb c 13 || c == b' '

skip_space : List ℕ → List ℕ
skip_space [] = []
skip_space (c ∷ cs) = if is_space c then skip_space cs else c ∷ cs

-- One character is left of the width, behind the first character's value.
second_digit : ℕ → ℕ → Option ℕ → Option ℕ
second_digit c h (some l) = some (h * 16 + l)
second_digit c h none = some h

-- At most two characters behind white space: a sign counts as one, and `0x` begins a prefix that
-- no digit follows.
scan : List ℕ → Option ℕ
unfolding hex_value? second_digit
scan [] = none
scan (c ∷ []) = hex_value? c
scan (c ∷ d ∷ rest) =
    if c == b'+'
    then hex_value? d
    else if c == b'-'
    then hex_value? d >>= (λ v. some ((4294967296 - v) % 4294967296))
    else if c == b'0' && (d == b'x' || d == b'X')
    then none
    else hex_value? c >>= (λ h. second_digit c h (hex_value? d))

unfoldable pub scan_hex2 : List ℕ → Option ℕ
unfolding skip_space scan
scan_hex2 text = scan (skip_space text)

-- The loop over the `n` pairs; a byte is cut from the `unsigned int` that was read.
pub from_hex_loop : ℕ → List ℕ → Option (List ℕ)
from_hex_loop zero text = some []
from_hex_loop (suc n) text = do
  v ← scan_hex2 text
  bytes ← from_hex_loop n (drop 2 text)
  some ((v % 256) ∷ bytes)

unfoldable pub from_hex : List ℕ → Option (List ℕ)
unfolding from_hex_loop
from_hex text =
    if is_empty text || not (length text % 2 == 0)
    then none
    else from_hex_loop (length text / 2) text

abbrev pub IsByte : ℕ → Type 0
IsByte b = b < 256

hex_value?-hex_digit : (v : ℕ) → v < 16 → hex_value? (hex_digit v) ≡ some v
unfolding hex_value?
hex_value?-hex_digit v h = ground arith

no_space : (c : ℕ) → b'-' < c → is_space c ≡ false
no_space c h = ground arith

no_sign : (c s : ℕ) → s < c → (c == s) ≡ false
no_sign c s h = ground arith

-- `hex_digit` prints a character that scanning takes for a digit at once.
scan_of_value :
    (c d h l : ℕ) (rest : List ℕ)
    → b'-' < c
    → d < b'x'
    → d ≢ b'X'
    → hex_value? c ≡ some h
    → hex_value? d ≡ some l
    → scan_hex2 (c ∷ d ∷ rest) ≡ some (h * 16 + l)
unfolding scan_hex2
scan_of_value c d h l rest lo hi x p q =
    simp (no_space c lo) (rw (no_sign c b'+' (omega arith), no_sign c b'-' lo, p, q) (ground arith))

hex_digit_range :
    (v : ℕ) → v < 16 → (b'0' ≤ hex_digit v) × (hex_digit v ≤ b'f') × (hex_digit v ≢ b'X')
hex_digit_range v h = ground arith

scan_pair :
    (h l : ℕ) (rest : List ℕ)
    → h < 16
    → l < 16
    → scan_hex2 (hex_digit h ∷ hex_digit l ∷ rest) ≡ some (h * 16 + l)
scan_pair h l rest p q =
    let hr = hex_digit_range h p in
    let lr = hex_digit_range l q in
    scan_of_value (hex_digit h) (hex_digit l) h l rest (omega arith) (omega arith) lr.2
      (hex_value?-hex_digit h p) (hex_value?-hex_digit l q)

pub length-to_hex : (bs : List ℕ) → length (to_hex bs) ≡ 2 * length bs
unfolding to_hex
length-to_hex [] = omega arith
length-to_hex (b ∷ bs) = omega (arith, length-to_hex bs)

from_hex_loop-to_hex :
    (bs : List ℕ) → All IsByte bs → from_hex_loop (length bs) (to_hex bs) ≡ some bs
unfolding from_hex_loop to_hex
from_hex_loop-to_hex [] h = refl
from_hex_loop-to_hex (b ∷ bs) h =
    rw
      (
        scan_pair (b / 16) (b % 16) (to_hex bs) (omega arith) (omega arith),
        from_hex_loop-to_hex bs h.1,
      )
      (ground arith)

even_loop :
    (text : List ℕ) (n : ℕ)
    → is_empty text ≡ false
    → length text ≡ n * 2
    → from_hex text ≡ from_hex_loop n text
unfolding from_hex
even_loop text n e l = rw (e, l) (ground arith)

-- Bytes that were printed in hexadecimal are read back. (The empty text is refused.)
pub from_hex-to_hex : (bs : List ℕ) → bs ≢ [] → All IsByte bs → from_hex (to_hex bs) ≡ some bs
unfolding from_hex to_hex
from_hex-to_hex [] n h = absurd (n refl)
from_hex-to_hex (b ∷ bs) n h =
    even_loop (hex_digit (b / 16) ∷ hex_digit (b % 16) ∷ to_hex bs) (suc (length bs)) refl
      (omega (arith, length-to_hex bs))
    ∙ from_hex_loop-to_hex (b ∷ bs) h
