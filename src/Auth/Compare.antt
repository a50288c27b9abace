-- ===== src/Auth/Compare.antt =====
-- `ConstantTimeEquals` of src/core/admin_auth_service.cpp, in both overloads: the strings are the
-- vectors of their bytes.
use Prim.Native.Nat.{bit_or, bit_xor, digits, differ, bit_or-bitwise, bit_xor-bitwise}
use homedeck.Base.{
  ℕ, zero, suc, ◌/◌, ◌≤◌, ◌≡◌, refl, sym, ◌∙◌, ap, Bool, true, false, not, List, [], ◌∷◌, arith,
  length, ◌==◌, if◌then◌else◌, max, ◌↔◌, ◌≢◌, Bool-cases, inl, inr, ◌%◌,
}

-- Every byte is looked at, whatever the earlier ones were. The lists are of one length where this
-- is called.
fold_diff : ℕ → List ℕ → List ℕ → ℕ
fold_diff diff [] bs = diff
fold_diff diff (a ∷ xs) [] = diff
fold_diff diff (a ∷ xs) (b ∷ bs) = fold_diff (bit_or diff (bit_xor a b)) xs bs

unfoldable pub constant_time_equals : List ℕ → List ℕ → Bool
unfolding fold_diff
constant_time_equals a b = if not (length a == length b) then false else fold_diff 0 a b == 0

differ_eq : (x y : ℕ) → differ x y ≡ 0 → x ≡ y
differ_eq zero y h = sym h
differ_eq (suc x) zero h = absurd (omega arith)
differ_eq (suc x) (suc y) h = ap suc (differ_eq x y h)

differ_self : (x : ℕ) → differ x x ≡ 0
differ_self zero = refl
differ_self (suc x) = differ_self x

abbrev xor_digits : ℕ → ℕ → ℕ → ℕ
xor_digits n a b = digits (λ b. b) differ n a b

abbrev or_digits : ℕ → ℕ → ℕ → ℕ
or_digits n a b = digits (λ b. b) max n a b

xor_digits_eq : (n a b : ℕ) → a ≤ n → xor_digits n a b ≡ 0 → a ≡ b
xor_digits_eq zero zero b h e = sym e
xor_digits_eq zero (suc a) b h e = absurd (omega arith)
xor_digits_eq (suc n) zero b h e = sym e
xor_digits_eq (suc n) (suc a) b h e = omega (
  arith,
  xor_digits_eq n (suc a / 2) (b / 2) (omega arith) (omega arith),
  differ_eq (suc a % 2) (b % 2) (omega arith),
)

xor_digits_self : (n a : ℕ) → a ≤ n → xor_digits n a a ≡ 0
xor_digits_self zero zero h = refl
xor_digits_self zero (suc a) h = absurd (omega arith)
xor_digits_self (suc n) zero h = refl
xor_digits_self (suc n) (suc a) h =
    omega (arith, xor_digits_self n (suc a / 2) (omega arith), differ_self (suc a % 2))

or_digits_zero : (n a b : ℕ) → a ≤ n → or_digits n a b ≡ 0 → (a ≡ 0) × (b ≡ 0)
or_digits_zero zero zero b h e = (refl, e)
or_digits_zero zero (suc a) b h e = absurd (omega arith)
or_digits_zero (suc n) zero b h e = (refl, e)
or_digits_zero (suc n) (suc a) b h e =
    let both = or_digits_zero n (suc a / 2) (b / 2) (omega arith) (omega arith) in
    (omega (arith, both.0, both.1), omega (arith, both.0, both.1))

xor_eq : (a b : ℕ) → bit_xor a b ≡ 0 → a ≡ b
xor_eq a b e = xor_digits_eq a a b (omega arith) (sym (bit_xor-bitwise a b) ∙ e)

xor_self : (a : ℕ) → bit_xor a a ≡ 0
xor_self a = bit_xor-bitwise a a ∙ xor_digits_self a a (omega arith)

or_zero : (a b : ℕ) → bit_or a b ≡ 0 → (a ≡ 0) × (b ≡ 0)
or_zero a b e = or_digits_zero a a b (omega arith) (sym (bit_or-bitwise a b) ∙ e)

fold_diff_zero :
    (diff : ℕ) (xs bs : List ℕ)
    → length xs ≡ length bs
    → fold_diff diff xs bs ≡ 0
    → (diff ≡ 0) × (xs ≡ bs)
unfolding fold_diff
fold_diff_zero diff [] [] l e = (e, refl)
fold_diff_zero diff [] (b ∷ bs) l e = absurd (omega arith)
fold_diff_zero diff (a ∷ xs) [] l e = absurd (omega arith)
fold_diff_zero diff (a ∷ xs) (b ∷ bs) l e =
    let (d, rest) = fold_diff_zero (bit_or diff (bit_xor a b)) xs bs (omega arith) e in
    let (d', x) = or_zero diff (bit_xor a b) d in (d', cc (xor_eq a b x, rest))

fold_diff_self : (xs : List ℕ) → fold_diff 0 xs xs ≡ 0
unfolding fold_diff
fold_diff_self [] = refl
fold_diff_self (a ∷ xs) = rw (xor_self a) (fold_diff_self xs)

-- The comparison that looks at every byte accepts exactly equal byte strings.
pub constant_time_equals_iff : (a b : List ℕ) → (constant_time_equals a b ≡ true) ↔ (a ≡ b)
unfolding constant_time_equals
constant_time_equals_iff a b = (
  λ h. (fold_diff_zero 0 a b (ground arith) (ground arith)).1,
  λ e. rw e (ground (arith, fold_diff_self b)),
)

pub constant_time_equals_refl : (a : List ℕ) → constant_time_equals a a ≡ true
constant_time_equals_refl a = (constant_time_equals_iff a a).1 refl

pub constant_time_equals-ne : (a b : List ℕ) → a ≢ b → constant_time_equals a b ≡ false
constant_time_equals-ne a b n = elim (Bool-cases (constant_time_equals a b)) [
  | inl same ↦ absurd (n ((constant_time_equals_iff a b).0 same))
  | inr other ↦ other
]
