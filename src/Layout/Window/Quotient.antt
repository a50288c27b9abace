-- ===== src/Layout/Window/Quotient.antt =====
-- The division towards minus infinity of src/ui/virtual_list_window.h, and quotients by one divisor.
use homedeck.Base.{
  ℕ, suc, ◌+◌, ◌-◌, ◌*◌, ◌/◌, ◌≤◌, ◌<◌, ◌≡◌, refl, ltb, arith, Bool-cases, inl, inr,
}
use homedeck.Base.Int.{ℤ, pos, negsuc, pos_part, neg_part}
use homedeck.Layout.Window.{floor_div}

pub floor_div_below :
    (a : ℤ) (b r : ℕ) → pos_part a < b * suc r + neg_part a → pos_part (floor_div a b) ≤ r
unfolding floor_div
floor_div_below (pos a) b r h = grind arith
floor_div_below (negsuc a) b r h = ground arith

pub floor_div_above :
    (a : ℤ) (b r : ℕ) → 0 < b → b * r + neg_part a ≤ pos_part a → r ≤ pos_part (floor_div a b)
unfolding floor_div
floor_div_above (pos a) b r p h = grind arith
floor_div_above (negsuc a) b r p h = ground arith

pub floor_div_nonneg : (a : ℤ) (b : ℕ) → neg_part a ≤ pos_part a → neg_part (floor_div a b) ≡ 0
unfolding floor_div
floor_div_nonneg (pos a) b h = refl
floor_div_nonneg (negsuc a) b h = absurd (omega (arith, h))

pub floor_div_bounds :
    (a : ℤ) (b : ℕ)
    → 0 < b
    → let q = floor_div a b in
      (b * pos_part q + neg_part a ≤ pos_part a + b * neg_part q)
      × (pos_part a + b * neg_part q < neg_part a + b * pos_part q + b)
unfolding floor_div
floor_div_bounds (pos a) b h = grind arith
floor_div_bounds (negsuc a) b h =
    let k = (suc a + b - 1) / b in
    let lo : b * k ≤ suc a + b - 1 = grind arith in
    let hi : suc a + b - 1 < b * k + b = grind arith in ground (arith, lo, hi)

pub mul_mono : (p x y k : ℕ) → x ≡ y + k → p * y ≤ p * x
mul_mono p x y k e = let le : p * y ≤ p * (y + k) = omega arith in rw e le

pub lt_of_mul_lt : (p x y : ℕ) → p * x < p * y → x < y
lt_of_mul_lt p x y h = elim (Bool-cases (ltb x y)) [
  | inl lt ↦ ground (arith, lt)
  | inr ge ↦ absurd (omega (arith, h, mul_mono p x y (x - y) (ground (arith, ge))))
]

-- From the bounds of two quotients by `p`, whose dividends lie `v - 1` apart.
pub quotients_apart :
    (p v qa na qb nb da ea db eb : ℕ)
    → 0 < p
    → da + p * na < ea + p * qa + p
    → p * qb + eb ≤ db + p * nb
    → db + ea + 1 ≡ eb + da + v
    → qb + na ≤ qa + nb + (v + p - 1) / p
quotients_apart p v qa na qb nb da ea db eb pos_p h k e =
    let gap : v ≤ p * ((v + p - 1) / p) = grind arith in
    let lt : p * (qb + na) < p * (suc (qa + nb + (v + p - 1) / p)) = omega (arith, gap, h, k, e) in
    omega (arith, lt_of_mul_lt p (qb + na) (suc (qa + nb + (v + p - 1) / p)) lt)

pub quotients_ordered :
    (p v qa na qb nb da ea db eb : ℕ)
    → p * qa + ea ≤ da + p * na
    → db + p * nb < eb + p * qb + p
    → db + ea + 1 ≡ eb + da + suc v
    → qa + nb ≤ qb + na
quotients_ordered p v qa na qb nb da ea db eb h k e =
    let lt : p * (qa + nb) < p * suc (qb + na) = omega (arith, h, k, e) in
    omega (arith, lt_of_mul_lt p (qa + nb) (suc (qb + na)) lt)
