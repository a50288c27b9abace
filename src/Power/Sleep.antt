-- ===== src/Power/Sleep.antt =====
-- When the device falls asleep, and when it wakes.
use homedeck.Base.{ℕ, ◌≤◌, ◌<◌, ◌≡◌, refl, ◌≢◌, true, false, some, List, [], ◌∷◌, arith, All}
use homedeck.Base.Int.{ℤ, ◌+ℤ◌, ltb_ℤ}
use homedeck.Power.{
  active, idle, sleeping, updating, error, PowerManager, transition_to, Input, tick, ota,
  critical_battery, brightness, veto, step, run, has_active_sleep_veto, sleep_timeout_ms,
  idle_timeout_ms,
}

-- The readings on which an input may put the device to sleep.
abbrev pub Drowsy : PowerManager → Input → Type 0
Drowsy m (tick inactive_ms now) =
    (m.state ≡ idle) × (sleep_timeout_ms ≤ inactive_ms) × (has_active_sleep_veto m now ≡ false)
Drowsy m (ota w inactive_ms now) =
    (w ≡ false) × (sleep_timeout_ms ≤ inactive_ms) × (has_active_sleep_veto m now ≡ false)
Drowsy m _ = ⊥

-- An input that finds the device awake puts it to sleep only as a tick in Idle or as the end of a
-- firmware write, each with the whole timeout of inactivity passed and no sleep veto active.
pub step-Drowsy :
    (m : PowerManager) (i : Input) → m.state ≢ sleeping → (step m i).0.state ≡ sleeping → Drowsy m i
unfolding step transition_to has_active_sleep_veto
step-Drowsy m (tick inactive_ms now) a h = ground arith
step-Drowsy m (ota w inactive_ms now) a h = ground arith
step-Drowsy m (critical_battery c) a h = ground arith
step-Drowsy m (brightness p) a h = ground arith
step-Drowsy m (veto now d) a h = ground arith

-- A tick soon after user activity makes Idle and Sleeping Active and leaves every other state, so
-- no veto and no earlier state keeps the device dark.
pub tick_wakes :
    (m : PowerManager) (inactive_ms : ℕ) (now : ℤ)
    → inactive_ms < idle_timeout_ms
    → m.state ≢ updating
    → m.state ≢ error
    → (step m (tick inactive_ms now)).0.state ≡ active
unfolding step transition_to
tick_wakes m inactive_ms now h u e = ground arith

-- Two ticks after the whole sleep timeout put an Active, Idle or Sleeping device to sleep, if no
-- veto is active at the second.
pub two_ticks_sleep :
    (m : PowerManager) (t₁ t₂ : ℕ) (now₁ now₂ : ℤ)
    → m.state ≢ updating
    → m.state ≢ error
    → sleep_timeout_ms ≤ t₁
    → sleep_timeout_ms ≤ t₂
    → has_active_sleep_veto m now₂ ≡ false
    → (run m (tick t₁ now₁ ∷ tick t₂ now₂ ∷ [])).0.state ≡ sleeping
unfolding run step transition_to has_active_sleep_veto
two_ticks_sleep m t₁ t₂ now₁ now₂ u e h₁ h₂ v = ground arith

-- The input comes before the time `until`, and asks for no other veto.
abbrev pub Before : ℤ → Input → Type 0
Before until (tick inactive_ms now) = ltb_ℤ now until ≡ true
Before until (ota w inactive_ms now) = ltb_ℤ now until ≡ true
Before until (veto now d) = ⊥
Before until _ = Unit {0}

step_vetoed :
    (m : PowerManager) (i : Input) (until : ℤ)
    → m.sleep_veto_until ≡ some until
    → m.state ≢ sleeping
    → Before until i
    → ((step m i).0.state ≢ sleeping) × ((step m i).0.sleep_veto_until ≡ some until)
unfolding step transition_to has_active_sleep_veto
step_vetoed m (tick inactive_ms now) until v a b = ground arith
step_vetoed m (ota w inactive_ms now) until v a b = ground arith
step_vetoed m (critical_battery c) until v a b = ground arith
step_vetoed m (brightness p) until v a b = ground arith
step_vetoed m (veto now d) until v a b = absurd b

run_vetoed :
    (m : PowerManager) (is : List Input) (until : ℤ)
    → m.sleep_veto_until ≡ some until
    → m.state ≢ sleeping
    → All (Before until) is
    → (run m is).0.state ≢ sleeping
unfolding run
run_vetoed m [] until v a b = a
run_vetoed m (i ∷ is) until v a b =
    let kept = step_vetoed m i until v a b.0 in run_vetoed (step m i).0 is until kept.1 kept.0 b.1

-- A sleep veto that an awake device is asked for holds: whatever comes before it runs out, but
-- another request, leaves the device awake.
pub veto_holds :
    (m : PowerManager) (now duration : ℤ) (is : List Input)
    → m.state ≢ sleeping
    → All (Before (now +ℤ duration)) is
    → (run m (veto now duration ∷ is)).0.state ≢ sleeping
unfolding run step
veto_holds m now duration is a b =
    run_vetoed (step m (veto now duration)).0 is (now +ℤ duration) refl a b
