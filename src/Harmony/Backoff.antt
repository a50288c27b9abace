-- ===== src/Harmony/Backoff.antt =====
-- `RetryBackoff` of src/core/retry_backoff.h, in milliseconds.
use homedeck.Base.{ℕ, zero, suc, ◌*◌, ◌^◌, ◌≤◌, ◌≡◌, refl, ◌∙◌, ap, arith, min}
use native.Mathlib.Numerals.{unary_clauses}

pub record RetryBackoff : Type 0 where
  pub initial_delay : ℕ
  pub max_delay : ℕ
  pub current_delay : ℕ

unfoldable pub next_delay : RetryBackoff → ℕ × RetryBackoff
next_delay b = (b.current_delay, record b { current_delay = min (b.current_delay * 2) b.max_delay })

unfoldable pub reset_attempts : RetryBackoff → RetryBackoff
reset_attempts b = record b { current_delay = b.initial_delay }

-- The state behind that many failures in a row.
unfoldable pub failures : ℕ → RetryBackoff → RetryBackoff
unfolding next_delay
failures zero b = b
failures (suc n) b = (next_delay (failures n b)).1

capped : (y m : ℕ) → min (min y m * 2) m ≡ min (y * 2) m
capped y m = omega arith

doubled : (x p q m : ℕ) → q ≡ 2 * p → min (min (x * p) m * 2) m ≡ min (x * q) m
doubled x p q m e = rw e (capped (x * p) m ∙ ap (λ y. min y m) (omega arith))

failures-Delays :
    (n : ℕ) (b : RetryBackoff)
    → b.current_delay ≤ b.max_delay
    → ((failures n b).current_delay ≡ min (b.current_delay * 2 ^ n) b.max_delay)
      × ((failures n b).max_delay ≡ b.max_delay)
unfolding failures next_delay
failures-Delays zero b h = (omega arith, refl)
failures-Delays (suc n) b h = (
  ap (λ y. min (y * 2) (failures n b).max_delay) (failures-Delays n b h).0
      ∙ ap (λ m. min (min (b.current_delay * 2 ^ n) b.max_delay * 2) m) (failures-Delays n b h).1
      ∙ doubled b.current_delay (2 ^ n) (2 ^ suc n) b.max_delay (simp unary_clauses (omega arith)),
  (failures-Delays n b h).1,
)

-- After a success the delays start over and double with every failure up to the bound: the delay
-- behind n failures is the smaller of 2^n times the initial one and the bound, if the initial one
-- is within the bound.
pub delays-double :
    (n : ℕ) (b : RetryBackoff)
    → b.initial_delay ≤ b.max_delay
    → (next_delay (failures n (reset_attempts b))).0 ≡ min (b.initial_delay * 2 ^ n) b.max_delay
unfolding next_delay reset_attempts
delays-double n b h = (failures-Delays n (reset_attempts b) h).0
