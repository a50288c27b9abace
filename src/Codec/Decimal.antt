-- ===== src/Codec/Decimal.antt =====
-- `std::to_string` and `std::from_chars` in base 10, as the source uses them: it accepts a number
-- only if `from_chars` consumed the whole text.
use homedeck.Base.{
  ℕ, zero, suc, ◌+◌, ◌-◌, ◌*◌, ◌/◌, ◌%◌, ◌≤◌, ◌<◌, ◌≡◌, refl, ◌∙◌, Bool, ◌&&◌, Option, none, some,
  List, [], ◌∷◌, ◌++◌, arith, ltb, leb, if◌then◌else◌, All, All-append, ◌==◌, Bool-cases, inl, inr,
  ltb→lt, ltb→le,
}
use homedeck.Base.Int.{ℤ, pos, negsuc}

infixl 5 ◌>>=◌
abbrev pub ◌>>=◌ {ℓ κ} : {A : Type ℓ} {B : Type κ} → Option A → (A → Option B) → Option B
none >>= f = none
some a >>= f = f a

abbrev pub is_digit : ℕ → Bool
is_digit c = leb b'0' c && leb c b'9'

-- The decimal digits of a number below `10 ^ fuel`.
unfoldable pub digits : ℕ → ℕ → List ℕ
digits zero n = []
digits (suc fuel) n =
    let rest = digits fuel (n / 10) in
    if ltb n 10 then (b'0' + n) ∷ [] else rest ++ (b'0' + n % 10) ∷ []

unfoldable pub to_string : ℕ → List ℕ
unfolding digits
to_string n = digits (suc n) n

unfoldable pub to_string_ℤ : ℤ → List ℕ
unfolding to_string
to_string_ℤ (pos n) = to_string n
to_string_ℤ (negsuc n) = b'-' ∷ to_string (suc n)

-- The value of a text of digits behind those read already; nothing if another byte is met.
unfoldable pub read_digits : ℕ → List ℕ → Option ℕ
read_digits acc [] = some acc
read_digits acc (c ∷ cs) = if is_digit c then read_digits (acc * 10 + (c - b'0')) cs else none

-- A number of at least one digit that is at most `limit`.
unfoldable pub from_chars : ℕ → List ℕ → Option ℕ
unfolding read_digits
from_chars limit [] = none
from_chars limit (c ∷ cs) = read_digits 0 (c ∷ cs) >>= λ n. if leb n limit then some n else none

abbrev pub max_unsigned : ℕ
max_unsigned = 4294967295

abbrev pub max_int : ℕ
max_int = 2147483647

abbrev negate : ℕ → ℤ
negate zero = pos 0
negate (suc n) = negsuc n

-- `from_chars` into an `int`: a minus sign is read, a plus sign is not.
unfoldable pub from_chars_int : List ℕ → Option ℤ
unfolding from_chars
from_chars_int [] = none
from_chars_int (c ∷ cs) =
    if c == b'-'
    then from_chars (suc max_int) cs >>= (λ n. some (negate n))
    else from_chars max_int (c ∷ cs) >>= (λ n. some (pos n))

read_digits-append :
    (acc : ℕ) (xs ys : List ℕ)
    → read_digits acc (xs ++ ys) ≡ (read_digits acc xs >>= λ n. read_digits n ys)
unfolding read_digits
read_digits-append acc [] ys = refl
read_digits-append acc (x ∷ xs) ys =
    ground (arith, read_digits-append (acc * 10 + (x - b'0')) xs ys)

read_digits-digits : (fuel n : ℕ) → n < fuel → read_digits 0 (digits fuel n) ≡ some n
unfolding digits read_digits
read_digits-digits zero n h = absurd (omega arith)
read_digits-digits (suc fuel) n h = ground (
  arith,
  read_digits-append 0 (digits fuel (n / 10)) ((b'0' + n % 10) ∷ []),
  read_digits-digits fuel (n / 10),
)

-- A printed number begins with a digit.
digits_first :
    (fuel n : ℕ)
    → n < fuel
    → (c : ℕ) × (cs : List ℕ) × (digits fuel n ≡ c ∷ cs) × (b'0' ≤ c) × (c ≤ b'9')
unfolding digits
digits_first zero n h = absurd (omega arith)
digits_first (suc fuel) n h = elim (Bool-cases (ltb n 10)) [
  | inl small ↦ (b'0' + n, [], rw small, omega arith, omega (arith, ltb→lt n 10 small))
  | inr large ↦
      let (c, cs, e, lo, hi) = digits_first fuel (n / 10) (omega (arith, ltb→le n 10 large)) in
      (c, cs ++ (b'0' + n % 10) ∷ [], rw (large, e), lo, hi)
]

from_chars_first :
    (limit : ℕ) (text : List ℕ) (c : ℕ) (cs : List ℕ)
    → text ≡ c ∷ cs
    → from_chars limit text ≡ (read_digits 0 text >>= λ n. if leb n limit then some n else none)
unfolding from_chars
from_chars_first limit text c cs e = rw e

-- A printed number that is within the limit is read back.
pub from_chars-to_string : (limit n : ℕ) → n ≤ limit → from_chars limit (to_string n) ≡ some n
unfolding to_string
from_chars-to_string limit n h =
    let (c, cs, e, _, _) = digits_first (suc n) n (omega arith) in
    from_chars_first limit (digits (suc n) n) c cs e
    ∙ rw (read_digits-digits (suc n) n (omega arith)) (ground arith)

to_string_first :
    (n : ℕ) → (c : ℕ) × (cs : List ℕ) × (to_string n ≡ c ∷ cs) × (b'0' ≤ c) × (c ≤ b'9')
unfolding to_string
to_string_first n = digits_first (suc n) n (omega arith)

abbrev pub IsInt : ℤ → Type 0
IsInt (pos n) = n ≤ max_int
IsInt (negsuc n) = n ≤ max_int

from_chars_int_digit :
    (text : List ℕ) (c : ℕ) (cs : List ℕ)
    → text ≡ c ∷ cs
    → b'0' ≤ c
    → from_chars_int text ≡ (from_chars max_int text >>= λ n. some (pos n))
unfolding from_chars_int
from_chars_int_digit text c cs e lo = rw e (ground arith)

-- A printed `int` is read back, whatever its sign.
pub from_chars_int-to_string_ℤ : (a : ℤ) → IsInt a → from_chars_int (to_string_ℤ a) ≡ some a
unfolding from_chars_int to_string_ℤ
from_chars_int-to_string_ℤ (pos n) h =
    let (c, cs, e, lo, hi) = to_string_first n in
    from_chars_int_digit (to_string n) c cs e lo ∙ rw (from_chars-to_string max_int n h)
from_chars_int-to_string_ℤ (negsuc n) h =
    rw (from_chars-to_string (suc max_int) (suc n) (omega arith))

digits-All :
    (P : ℕ → Type 0) → ((c : ℕ) → b'0' ≤ c → c ≤ b'9' → P c) → (fuel n : ℕ) → All P (digits fuel n)
unfolding digits
digits-All P h zero n = tt
digits-All P h (suc fuel) n = elim (Bool-cases (ltb n 10)) [
  | inl small ↦ rw small (h (b'0' + n) (omega arith) (omega (arith, ltb→lt n 10 small)), tt)
  | inr large ↦ rw large (
      All-append P (digits fuel (n / 10)) ((b'0' + n % 10) ∷ []) (digits-All P h fuel (n / 10))
        (h (b'0' + n % 10) (omega arith) (omega arith), tt))
]

-- Every byte of a printed number is a digit.
pub to_string-All :
    (P : ℕ → Type 0) → ((c : ℕ) → b'0' ≤ c → c ≤ b'9' → P c) → (n : ℕ) → All P (to_string n)
unfolding to_string
to_string-All P h n = digits-All P h (suc n) n
