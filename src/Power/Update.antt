-- ===== src/Power/Update.antt =====
-- A firmware write among the other inputs of the power manager.
use homedeck.Base.{
  ℕ, ◌≡◌, refl, sym, ap, subst, ◌⊎◌, inl, inr, Bool, true, false, arith, Bool-cases,
}
use homedeck.Base.Int.{ℤ}
use homedeck.Power.{
  PowerState, PowerManager, Input, tick, ota, critical_battery, brightness, veto, active, idle,
  sleeping, updating, error, is_error, step, on_ota, on_tick, on_tick_in, on_critical_battery,
  set_active_brightness_percent, request_sleep_veto, transition_to, ota_finished, tick_idle,
}

-- The inputs but those of the firmware write.
abbrev pub IsOther : Input → Type 0
IsOther (ota in_progress inactive_ms now) = ⊥
IsOther _ = Unit {0}

abbrev pub StaysOn : PowerState → Type 0
StaysOn s = (s ≡ updating) ⊎ (s ≡ error)

is_error_lem : (s : PowerState) → is_error s ≡ true → s ≡ error
is_error_lem error h = refl
is_error_lem active h = cc
is_error_lem idle h = cc
is_error_lem sleeping h = cc
is_error_lem updating h = cc

pub on_ota_begins :
    (inactive_ms : ℕ) (now : ℤ) (m : PowerManager)
    → ((on_ota true inactive_ms now m).0.ota_in_progress ≡ true)
      × StaysOn (on_ota true inactive_ms now m).0.state
unfolding on_ota transition_to
on_ota_begins inactive_ms now m = elim (Bool-cases (is_error m.state)) [
  | inl failed ↦ rw failed (refl, inr (is_error_lem m.state failed))
  | inr fine ↦ rw fine (refl, inl refl)
]

pub on_ota_ends :
    (inactive_ms : ℕ) (now : ℤ) (m : PowerManager)
    → (on_ota false inactive_ms now m).0.ota_in_progress ≡ false
unfolding on_ota ota_finished transition_to
on_ota_ends inactive_ms now m = ground arith

tick_keeps :
    (s : PowerState) (inactive_ms : ℕ) (now : ℤ) (m : PowerManager)
    → (on_tick_in s inactive_ms now m).0.ota_in_progress ≡ m.ota_in_progress
unfolding on_tick_in tick_idle transition_to
tick_keeps active inactive_ms now m = ground arith
tick_keeps idle inactive_ms now m = ground arith
tick_keeps sleeping inactive_ms now m = ground arith
tick_keeps updating inactive_ms now m = refl
tick_keeps error inactive_ms now m = refl

tick_stays :
    (s : PowerState) (inactive_ms : ℕ) (now : ℤ) (m : PowerManager)
    → StaysOn s
    → (on_tick_in s inactive_ms now m).0 ≡ m
unfolding on_tick_in
tick_stays updating inactive_ms now m h = refl
tick_stays error inactive_ms now m h = refl
tick_stays active inactive_ms now m (inl h) = cc
tick_stays active inactive_ms now m (inr h) = cc
tick_stays idle inactive_ms now m (inl h) = cc
tick_stays idle inactive_ms now m (inr h) = cc
tick_stays sleeping inactive_ms now m (inl h) = cc
tick_stays sleeping inactive_ms now m (inr h) = cc

critical_stays :
    (critical : Bool) (m : PowerManager)
    → m.ota_in_progress ≡ true
    → StaysOn m.state
    → StaysOn (on_critical_battery critical m).0.state
unfolding on_critical_battery transition_to
critical_stays true m writing h = inr refl
critical_stays false m writing h = elim (Bool-cases (is_error m.state)) [
  | inl failed ↦ rw (failed, writing) (inl refl)
  | inr fine ↦ rw fine h
]

critical_keeps :
    (critical : Bool) (m : PowerManager)
    → (on_critical_battery critical m).0.ota_in_progress ≡ m.ota_in_progress
unfolding on_critical_battery transition_to
critical_keeps critical m = ground arith

-- No other input changes what the manager knows of the write, and none leaves its state during one.
pub step_other :
    (m : PowerManager) (i : Input)
    → IsOther i
    → ((step m i).0.ota_in_progress ≡ m.ota_in_progress)
      × (m.ota_in_progress ≡ true → StaysOn m.state → StaysOn (step m i).0.state)
unfolding step on_tick set_active_brightness_percent request_sleep_veto
step_other m (ota in_progress inactive_ms now) other = absurd other
step_other m (tick inactive_ms now) other = (
  tick_keeps m.state inactive_ms now m,
  λ writing h.
      subst StaysOn
        (sym (ap (λ (n : PowerManager). n.state) (tick_stays m.state inactive_ms now m h))) h,
)
step_other m (critical_battery critical) other =
    (critical_keeps critical m, critical_stays critical m)
step_other m (brightness percent) other = (refl, λ writing h. h)
step_other m (veto now duration) other = (refl, λ writing h. h)
