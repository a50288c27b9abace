-- ===== src/Power.antt =====
-- The device's power state: src/core/power_manager.h and src/core/power_manager.cpp.
-- A handler returns the new manager and what it does to the outside, in order: the display's
-- brightness and the published event. The event bus delivers all of them on the UI thread, so
-- they run one after another; each takes the readings (inactivity, clock) that it makes.
pub mod Spec
pub mod Sleep
pub mod Update
pub mod Display
mod Examples
use homedeck.Base.{
  ℕ, ◌+◌, ◌≡◌, Bool, true, false, not, ◌&&◌, Option, none, some, List, [], ◌∷◌, ◌++◌, min, leb,
  if◌then◌else◌,
}
use homedeck.Base.Int.{ℤ, pos, ◌+ℤ◌, ltb_ℤ, clamp}

pub data PowerState : Type 0 where
  active idle sleeping updating error : PowerState

-- `DisplayBrightness::SetPercent` and the publication of a `PowerStateChangedEvent`.
pub data Effect : Type 0 where
  set_percent : ℕ → Effect
  publish : PowerState → Effect

abbrev pub min_active_brightness_percent : ℕ
min_active_brightness_percent = 5

abbrev pub idle_timeout_ms : ℕ
idle_timeout_ms = 30000

abbrev pub sleep_timeout_ms : ℕ
sleep_timeout_ms = idle_timeout_ms + 90000

abbrev pub dim_brightness_percent : ℕ
dim_brightness_percent = 20

abbrev pub sleep_brightness_percent : ℕ
sleep_brightness_percent = 0

-- Time points are milliseconds, and may lie before the epoch.
pub record PowerManager : Type 0 where
  pub state : PowerState
  pub ota_in_progress : Bool
  pub active_brightness_percent : ℕ
  pub sleep_veto_until : Option ℤ

abbrev pub is_active : PowerState → Bool
is_active active = true
is_active _ = false

abbrev pub is_error : PowerState → Bool
is_error error = true
is_error _ = false

abbrev pub is_updating : PowerState → Bool
is_updating updating = true
is_updating _ = false

-- The constructor.
unfoldable pub init : ℤ → PowerManager
init initial_percent = record {
  state = active;
  ota_in_progress = false;
  active_brightness_percent = clamp min_active_brightness_percent 100 initial_percent;
  sleep_veto_until = none;
}

-- The brightness that `TransitionTo` computes.
pub brightness_for : PowerState → ℕ → ℕ
brightness_for idle percent = min dim_brightness_percent percent
brightness_for sleeping percent = sleep_brightness_percent
brightness_for _ percent = percent

pub transition_to : PowerState → PowerManager → PowerManager × List Effect
unfolding brightness_for
transition_to s m = (
  record m { state = s },
  set_percent (brightness_for s m.active_brightness_percent) ∷ publish s ∷ [],
)

pub set_active_brightness_percent : ℤ → PowerManager → PowerManager × List Effect
set_active_brightness_percent percent m =
    let p = clamp min_active_brightness_percent 100 percent in
    (
      record m { active_brightness_percent = p },
      if is_active m.state then set_percent p ∷ [] else [],
    )

pub request_sleep_veto : ℤ → ℤ → PowerManager → PowerManager × List Effect
request_sleep_veto now duration m = (record m { sleep_veto_until = some (now +ℤ duration) }, [])

veto_until : Option ℤ → ℤ → Bool
veto_until none now = false
veto_until (some u) now = ltb_ℤ now u

pub has_active_sleep_veto : PowerManager → ℤ → Bool
unfolding veto_until
has_active_sleep_veto m now = veto_until m.sleep_veto_until now

tick_idle : ℕ → ℤ → PowerManager → PowerManager × List Effect
tick_idle inactive_ms now m =
    if not (leb idle_timeout_ms inactive_ms)
    then transition_to active m
    else if leb sleep_timeout_ms inactive_ms && not (has_active_sleep_veto m now)
    then transition_to sleeping m
    else (m, [])

on_tick_in : PowerState → ℕ → ℤ → PowerManager → PowerManager × List Effect
unfolding tick_idle
on_tick_in updating inactive_ms now m = (m, [])
on_tick_in error inactive_ms now m = (m, [])
on_tick_in active inactive_ms now m =
    if leb idle_timeout_ms inactive_ms then transition_to idle m else (m, [])
on_tick_in idle inactive_ms now m = tick_idle inactive_ms now m
on_tick_in sleeping inactive_ms now m =
    if not (leb idle_timeout_ms inactive_ms) then transition_to active m else (m, [])

pub on_tick : ℕ → ℤ → PowerManager → PowerManager × List Effect
unfolding on_tick_in
on_tick inactive_ms now m = on_tick_in m.state inactive_ms now m

ota_finished : ℕ → ℤ → PowerManager → PowerManager × List Effect
ota_finished inactive_ms now m =
    if leb sleep_timeout_ms inactive_ms && not (has_active_sleep_veto m now)
    then transition_to sleeping m
    else if leb idle_timeout_ms inactive_ms
    then transition_to idle m
    else transition_to active m

-- The handler of `OtaUpdateStateChangedEvent`.
pub on_ota : Bool → ℕ → ℤ → PowerManager → PowerManager × List Effect
unfolding ota_finished
on_ota in_progress inactive_ms now m =
    let m' = record m { ota_in_progress = in_progress } in
    if is_error m.state
    then (m', [])
    else if in_progress
    then transition_to updating m'
    else ota_finished inactive_ms now m'

-- The handler of `CriticalBatteryStateChangedEvent`.
pub on_critical_battery : Bool → PowerManager → PowerManager × List Effect
on_critical_battery critical m =
    if critical
    then transition_to error m
    else if is_error m.state
    then transition_to (if m.ota_in_progress then updating else active) m
    else (m, [])

-- What can reach the manager.
pub data Input : Type 0 where
  tick : (inactive_ms : ℕ) (now : ℤ) → Input
  ota : Bool → (inactive_ms : ℕ) (now : ℤ) → Input
  critical_battery : Bool → Input
  brightness : ℤ → Input
  veto : (now duration : ℤ) → Input

pub step : PowerManager → Input → PowerManager × List Effect
unfolding on_tick on_ota on_critical_battery set_active_brightness_percent request_sleep_veto
step m (tick inactive_ms now) = on_tick inactive_ms now m
step m (ota in_progress inactive_ms now) = on_ota in_progress inactive_ms now m
step m (critical_battery critical) = on_critical_battery critical m
step m (brightness percent) = set_active_brightness_percent percent m
step m (veto now duration) = request_sleep_veto now duration m

pub run : PowerManager → List Input → PowerManager × List Effect
run m [] = (m, [])
run m (i ∷ is) = let (m', out) = step m i in let (m'', rest) = run m' is in (m'', out ++ rest)
