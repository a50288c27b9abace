-- ===== src/Battery.antt =====
-- The monitors that poll the hardware on each clock tick and publish only transitions:
-- src/core/latched_threshold_monitor.cpp, src/core/critical_battery_monitor.cpp,
-- src/core/low_battery_monitor.cpp, src/core/network_status_monitor.cpp and
-- src/core/harmony_notification_bridge.cpp. A tick takes what the hardware reads then.
pub mod Edges
pub mod Critical
pub mod Bridge
mod Examples
use homedeck.Base.{ℕ, ◌≡◌, Bool, true, false, not, ◌&&◌, List, [], ◌∷◌, ◌++◌, ltb, if◌then◌else◌}
use homedeck.Base.Text.{codes}

-- `BatteryReader`, as one tick reads it.
pub record Reading : Type 0 where
  pub percent : ℕ
  pub external_power : Bool
  pub present : Bool

pub data Severity : Type 0 where
  deferred alert_priority : Severity

pub data Message : Type 0 where
  critical_changed : Bool → Message
  notification : List ℕ → Severity → Message

-- The two callbacks of `LatchedThresholdMonitor`.
pub record Callbacks : Type 0 where
  pub on_entering : List Message
  pub on_leaving : List Message

-- One tick of `LatchedThresholdMonitor`; the state is `already_bad_`.
pub latch_tick : (Reading → Bool) → Callbacks → Reading → Bool → Bool × List Message
latch_tick is_bad c r already_bad =
    if not r.present
    then (false, if already_bad then c.on_leaving else [])
    else let bad = is_bad r in
      if bad && not already_bad
      then (true, c.on_entering)
      else if not bad && already_bad
      then (false, c.on_leaving)
      else (already_bad, [])

pub latch_run : (Reading → Bool) → Callbacks → List Reading → Bool → Bool × List Message
latch_run is_bad c [] b = (b, [])
latch_run is_bad c (r ∷ rs) b =
    let (b', out) = latch_tick is_bad c r b in
    let (b'', rest) = latch_run is_bad c rs b' in (b'', out ++ rest)

abbrev pub critical_threshold_percent : ℕ
critical_threshold_percent = 5

abbrev pub low_threshold_percent : ℕ
low_threshold_percent = 15

-- `CriticalBatteryMonitor`: both edges are published, and a notification on the way down.
pub is_critical : Reading → Bool
is_critical r = ltb r.percent critical_threshold_percent && not r.external_power

abbrev pub critical_callbacks : Callbacks
critical_callbacks = record {
  on_entering =
      critical_changed true ∷ notification (codes "Battery critically low") alert_priority ∷ [];
  on_leaving = critical_changed false ∷ [];
}

pub critical_monitor : List Reading → Bool × List Message
critical_monitor rs = latch_run is_critical critical_callbacks rs false

-- `LowBatteryMonitor`: one notification on the way down, nothing on the way up.
pub is_low : Reading → Bool
is_low r = ltb r.percent low_threshold_percent

abbrev pub low_callbacks : Callbacks
low_callbacks = record {
  on_entering = notification (codes "Battery low") deferred ∷ [];
  on_leaving = [];
}

pub low_monitor : List Reading → Bool × List Message
low_monitor rs = latch_run is_low low_callbacks rs false

-- `NetworkStatusMonitor`: the state is `last_connected_`, the output the published
-- `WifiConnectivityChangedEvent`s.
pub network_tick : Bool → Bool → Bool × List Bool
network_tick true true = (true, [])
network_tick true false = (true, true ∷ [])
network_tick false true = (false, false ∷ [])
network_tick false false = (false, [])

-- The readings after the first, which is made by the constructor.
pub network_run : Bool → List Bool → Bool × List Bool
network_run last [] = (last, [])
network_run last (c ∷ cs) =
    let (last', out) = network_tick c last in
    let (last'', rest) = network_run last' cs in (last'', out ++ rest)

-- The events of the Harmony module that `HarmonyNotificationBridge` subscribes to.
pub data HarmonyEvent : Type 0 where
  disconnected connecting connected error config_updated : HarmonyEvent

-- The state is `already_notified_`.
pub bridge_step : Bool → HarmonyEvent → Bool × List Message
bridge_step already error =
    (true, if already then [] else notification (codes "Harmony Hub connection lost") deferred ∷ [])
bridge_step already connected = (false, [])
bridge_step already config_updated = (false, [])
bridge_step already disconnected = (already, [])
bridge_step already connecting = (already, [])

pub bridge_run : Bool → List HarmonyEvent → Bool × List Message
bridge_run b [] = (b, [])
bridge_run b (e ∷ es) =
    let (b', out) = bridge_step b e in let (b'', rest) = bridge_run b' es in (b'', out ++ rest)
