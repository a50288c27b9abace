-- ===== src/Wifi/Policy.antt =====
-- `WifiReconnectPolicy` of src/core/wifi_reconnect_policy.h. Its counts and delays are not negative.
use homedeck.Base.{
  ℕ, zero, suc, ◌+◌, ◌≡◌, refl, All, Bool, false, not, ◌&&◌, ◌||◌, Option, none, some, List, [],
  ◌∷◌, arith, ltb, leb, ◌==◌, if◌then◌else◌,
}

pub data Decision : Type 0 where
  retry give_up : Decision

-- What the constructor takes.
pub record Limits : Type 0 where
  pub max_setup_attempts : ℕ
  pub normal_mode_recovery_attempts : ℕ
  pub retry_delay_ms : ℕ
  pub recovery_ap_retry_delay_ms : ℕ

module _ (l : Limits) where
  -- The state is `attempts_`.
  unfoldable pub on_disconnected : Bool → ℕ → Decision × ℕ
  on_disconnected in_setup_mode attempts =
      if in_setup_mode && leb l.max_setup_attempts attempts
      then (give_up, attempts)
      else (retry, suc attempts)

  unfoldable pub should_offer_recovery : Bool → ℕ → Bool
  should_offer_recovery in_setup_mode attempts =
      not in_setup_mode && (attempts == l.normal_mode_recovery_attempts)

  unfoldable pub retry_delay : Bool → ℕ → ℕ → Option ℕ
  retry_delay recovery_ap_up ap_clients attempts =
      if not recovery_ap_up || leb attempts l.max_setup_attempts
      then some l.retry_delay_ms
      else if ltb 0 ap_clients
      then none
      else some l.recovery_ap_retry_delay_ms

  -- Disconnects in a row, each in setup mode or not: the decisions, and whether recovery was offered
  -- behind each, as the caller asks at once.
  unfoldable pub disconnects : List Bool → ℕ → List (Decision × Bool) × ℕ
  unfolding on_disconnected should_offer_recovery
  disconnects [] attempts = ([], attempts)
  disconnects (setup ∷ modes) attempts =
      let (decision, attempts') = on_disconnected setup attempts in
      let (rest, last) = disconnects modes attempts' in
      ((decision, should_offer_recovery setup attempts') ∷ rest, last)

  pub offers : List (Decision × Bool) → ℕ
  offers [] = 0
  offers ((d, b) ∷ rest) = let n = offers rest in if b then suc n else n

  pub normal_modes : ℕ → List Bool
  normal_modes zero = []
  normal_modes (suc n) = false ∷ normal_modes n

  all_counted : (n attempts : ℕ) → (disconnects (normal_modes n) attempts).1 ≡ attempts + n
  unfolding disconnects normal_modes
  all_counted zero a = omega arith
  all_counted (suc n) a = omega (arith, all_counted n (suc a))

  offers_from :
      (n attempts : ℕ)
      → offers (disconnects (normal_modes n) attempts).0 ≡ (
          if ltb attempts l.normal_mode_recovery_attempts
            && leb l.normal_mode_recovery_attempts (attempts + n)
          then 1
          else 0)
  unfolding disconnects normal_modes offers
  offers_from zero a = ground arith
  offers_from (suc n) a = ground (arith, offers_from n (suc a))

  never_gives_up :
      (n attempts : ℕ)
      → All (λ (r : Decision × Bool). r.0 ≡ retry) (disconnects (normal_modes n) attempts).0
  unfolding disconnects normal_modes on_disconnected
  never_gives_up zero a = tt
  never_gives_up (suc n) a = (refl, never_gives_up n (suc a))

  -- In normal operation, after a reset, every disconnect is counted and the decision on each is to
  -- retry. Recovery is offered once, at the disconnect whose number is the limit: never before it and
  -- never again. A limit of 0 offers none.
  pub offers-normal :
      (n : ℕ)
      → All (λ (r : Decision × Bool). r.0 ≡ retry) (disconnects (normal_modes n) 0).0
        × ((disconnects (normal_modes n) 0).1 ≡ n)
        × (offers (disconnects (normal_modes n) 0).0 ≡ (
            if ltb 0 l.normal_mode_recovery_attempts && leb l.normal_mode_recovery_attempts n
            then 1
            else 0))
  offers-normal n =
      (never_gives_up n 0, omega (arith, all_counted n 0), ground (arith, offers_from n 0))
