-- ===== src/Auth/Service/Throttle.antt =====
-- The brute-force throttle of `Login`, over every interleaving.
use homedeck.Base.{
  ℕ, suc, ◌+◌, ◌*◌, ◌-◌, ◌/◌, ◌≤◌, ◌≡◌, refl, ◌⊎◌, inl, inr, true, false, List, [], ◌∷◌, arith, ltb,
  leb, All, Bool-cases, ltb→le, if◌then◌else◌,
}
use native.Mathlib.Decide.{dec_le}
use homedeck.Storage.{KeyValueStore}
use homedeck.Auth.Service.{
  Crypto, Service, set_initial_password, login_begin, login_finish, validate_session, logout,
  Crypto,
}
use homedeck.Auth.Service.History.{Op, setup, begins, finishes, validates, leaves, step, guesses}

-- No login succeeds, and every attempt is made between two times.
abbrev pub Between : ℕ → ℕ → Op → Type 0
Between from to (begins check lock) = (from ≤ check) × (check ≤ lock) × (check ≤ to)
Between from to (finishes ok a b) = ok ≡ false
Between from to _ = Unit {0}

module _ (c : Crypto) (s : KeyValueStore) where
  setup_keeps :
      (w : Service c s) (password : List ℕ) (a b : ℕ)
      → let w' = (set_initial_password c s password a b w).1 in
        (w'.failed_login_attempts ≡ w.failed_login_attempts) × (w'.locked_until ≡ w.locked_until)
  unfolding set_initial_password
  setup_keeps w password a b = ground arith

  -- What an operation does to the throttle, if no login succeeds: it may admit one guess.
  abbrev Moves : Service c s → Op → ℕ → ℕ → Type 0
  Moves w o from to =
      let w' = step c s w o in
      ((guesses c s w (o ∷ []) ≡ 0)
        × (w'.failed_login_attempts ≡ w.failed_login_attempts)
        × (w'.locked_until ≡ w.locked_until))
      ⊎ ((check : ℕ) × (lock : ℕ) × (from ≤ check)
          × (check ≤ lock)
          × (check ≤ to)
          × (guesses c s w (o ∷ []) ≡ 1)
          × (w.locked_until ≤ check)
          × (w'.failed_login_attempts ≡ suc w.failed_login_attempts)
          × (w'.locked_until
              ≡ (if leb 5 (suc w.failed_login_attempts) then lock + 60000 else w.locked_until)))

  step-Moves : (w : Service c s) (o : Op) (from to : ℕ) → Between from to o → Moves w o from to
  unfolding step guesses login_begin login_finish validate_session logout
  step-Moves w (setup password a b) from to h =
      inl (refl, (setup_keeps w password a b).0, (setup_keeps w password a b).1)
  step-Moves w (begins check lock) from to h = elim (Bool-cases (ltb check w.locked_until)) [
    | inl out ↦ inl (ground arith, ground arith, ground arith)
    | inr free ↦ inr (
      check,
      lock,
      h.0,
      h.1,
      h.2,
      ground arith,
      ltb→le check w.locked_until free,
      ground arith,
      ground arith,
    )
  ]
  step-Moves w (finishes true a b) from to h = cc
  step-Moves w (finishes false a b) from to h = inl (refl, refl, refl)
  step-Moves w (validates now t) from to h = inl (refl, refl, refl)
  step-Moves w (leaves t) from to h = inl (refl, refl, refl)

  guesses-step :
      (w : Service c s) (o : Op) (os : List Op)
      → guesses c s w (o ∷ os) ≡ guesses c s w (o ∷ []) + guesses c s (step c s w o) os
  unfolding guesses
  guesses-step w o os = omega arith

  locks :
      (w : Service c s) (l k : ℕ)
      → 4 ≤ w.failed_login_attempts
      → l ≡ (if leb 5 (suc w.failed_login_attempts) then k else w.locked_until)
      → l ≡ k
  locks w l k four e = ground arith

  -- Once four attempts have failed, each further guess waits for the lock to run out and renews it.
  locked_guesses :
      (w : Service c s) (os : List Op) (from to : ℕ)
      → 4 ≤ w.failed_login_attempts
      → All (Between from to) os
      → 1 ≤ guesses c s w os
      → w.locked_until + (guesses c s w os - 1) * 60000 ≤ to
  unfolding guesses
  locked_guesses w [] from to four h some_guess = absurd (omega arith)
  locked_guesses w (o ∷ os) from to four h some_guess = elim (step-Moves w o from to h.0) [
    | inl (none_here, same, kept) ↦
        let rest = locked_guesses (step c s w o) os from to (omega arith) h.1 in
        omega (arith, guesses-step w o os, rest (omega (arith, guesses-step w o os)))
    | inr (check, lock, lo, mid, hi, one, free, more, moved) ↦
        let l = locks w (step c s w o).locked_until (lock + 60000) four moved in
        let rest = locked_guesses (step c s w o) os from to (omega arith) h.1 in
        elim (dec_le 1 (guesses c s (step c s w o) os)) [
          | yes p ↦ omega (arith, guesses-step w o os, rest p)
          | no p ↦ omega (arith, guesses-step w o os)
        ]
  ]

  early_guesses :
      (w : Service c s) (os : List Op) (from to : ℕ)
      → w.failed_login_attempts ≤ 4
      → All (Between from to) os
      → 5 ≤ guesses c s w os + w.failed_login_attempts
      → from ≤ to
      → from + (guesses c s w os + w.failed_login_attempts - 5) * 60000 ≤ to
  unfolding guesses
  early_guesses w [] from to few h enough r = absurd (omega arith)
  early_guesses w (o ∷ os) from to few h enough r = elim (step-Moves w o from to h.0) [
    | inl (none_here, same, kept) ↦ omega (
      arith,
      guesses-step w o os,
      early_guesses (step c s w o) os from to (omega arith) h.1 (omega (arith, guesses-step w o os))
          r,
    )
    | inr (check, lock, lo, mid, hi, one, free, more, moved) ↦
        elim (dec_le 4 w.failed_login_attempts) [
          | yes four ↦
              let l = locks w (step c s w o).locked_until (lock + 60000) four moved in
              elim (dec_le 1 (guesses c s (step c s w o) os)) [
                | yes p ↦ omega (
                  arith,
                  guesses-step w o os,
                  locked_guesses (step c s w o) os from to (omega arith) h.1 p,
                )
                | no p ↦ omega (arith, guesses-step w o os)
              ]
          | no fewer ↦ omega (
            arith,
            guesses-step w o os,
            early_guesses (step c s w o) os from to (omega arith) h.1
                (omega (arith, guesses-step w o os)) r,
          )
        ]
  ]

-- Between two times, in which no login succeeds and which begin with no failed attempt on record,
-- at most five passwords and one more for each full minute are compared with the stored hash, for
-- every interleaving of any number of concurrent logins with all other operations.
pub guesses_bounded :
    (c : Crypto) (s : KeyValueStore) (w : Service c s) (os : List Op) (from to : ℕ)
    → w.failed_login_attempts ≡ 0
    → from ≤ to
    → All (Between from to) os
    → guesses c s w os ≤ 5 + (to - from) / 60000
guesses_bounded c s w os from to zero_failed r h = elim (dec_le 5 (guesses c s w os)) [
  | yes p ↦ omega (arith, early_guesses c s w os from to (omega arith) h (omega arith) r)
  | no p ↦ omega arith
]
