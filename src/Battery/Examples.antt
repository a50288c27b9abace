-- ===== src/Battery/Examples.antt =====
-- Runs of the monitors, and their theorems at concrete readings.
use homedeck.Base.{◌≡◌, refl, true, false, List, [], ◌∷◌, ◌++◌, ◌≢◌}
use homedeck.Base.Int.{pos}
use homedeck.Base.Text.{codes}
use homedeck.Power.{critical_battery, tick, init, run, is_error}
use homedeck.Battery.{
  Reading, critical_monitor, is_critical, critical_changed, notification, alert_priority,
  bridge_run, bridge_step, error, connected, connecting, HarmonyEvent, latch_run, latch_tick,
}
use homedeck.Battery.Edges.{last_of, signal}
use homedeck.Battery.Critical.{told, published, error-is_critical}
use homedeck.Battery.Bridge.{IsOut, notifications, lost, bridge_run-notifications}

abbrev falling : List Reading
falling =
    record { percent = 4; external_power = true; present = true }
    ∷ record { percent = 4; external_power = false; present = true }
    ∷ record { percent = 3; external_power = false; present = true }
    ∷ record { percent = 0; external_power = true; present = false }
    ∷ record { percent = 2; external_power = false; present = true }
    ∷ []

falling_run : critical_monitor falling ≡ (
  true,
  critical_changed true
      ∷ notification (codes "Battery critically low") alert_priority
      ∷ critical_changed false
      ∷ critical_changed true
      ∷ notification (codes "Battery critically low") alert_priority
      ∷ [],
)
unfolding critical_monitor latch_run latch_tick is_critical
falling_run = refl

error-is_critical_example :
    is_error
      (run (init (pos 40)) (
        critical_battery true
        ∷ tick 10 (pos 0)
        ∷ critical_battery false
        ∷ critical_battery true
        ∷ [])).0.state
    ≡ last_of false (signal is_critical falling)
unfolding critical_monitor latch_run latch_tick is_critical told published
error-is_critical_example =
    error-is_critical (pos 40)
      (critical_battery true
        ∷ tick 10 (pos 0)
        ∷ critical_battery false
        ∷ critical_battery true
        ∷ [])
      falling refl

abbrev flapping : List HarmonyEvent
flapping = connecting ∷ error ∷ connecting ∷ error ∷ connecting ∷ connected ∷ error ∷ []

bridge_run-notifications_example :
    (IsOut flapping → notifications (flapping ++ (error ∷ [])) ≡ notifications flapping)
    × ((IsOut flapping → ⊥)
        → notifications (flapping ++ (error ∷ [])) ≡ notifications flapping ++ (lost ∷ []))
    × ((e : HarmonyEvent)
        → e ≢ error
        → notifications (flapping ++ (e ∷ [])) ≡ notifications flapping)
bridge_run-notifications_example = bridge_run-notifications flapping

two_outages : notifications flapping ≡ lost ∷ lost ∷ []
unfolding bridge_run bridge_step
two_outages = refl
