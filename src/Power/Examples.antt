-- ===== src/Power/Examples.antt =====
-- Runs of the power manager, and its theorems at concrete inputs.
use homedeck.Base.{◌≡◌, refl, true, false, List, [], ◌∷◌, none, arith}
use homedeck.Base.Int.{pos, negsuc}
use homedeck.Power.{
  idle, sleeping, updating, error, publish, set_percent, PowerManager, init, Input, tick, ota,
  critical_battery, brightness, step, run, transition_to, has_active_sleep_veto,
}
use homedeck.Power.Spec.{Implements, flags_run, quiet, run-init-Implements}
use homedeck.Power.Display.{Lit, shown, run-init-Lit}
use homedeck.Power.Sleep.{Drowsy, step-Drowsy, two_ticks_sleep}

-- A firmware write that the battery interrupts, with a user who moves the brightness.
abbrev eventful : List Input
eventful =
    brightness (pos 60)
    ∷ tick 31000 (pos 100)
    ∷ ota true 31000 (pos 200)
    ∷ critical_battery true
    ∷ tick 40000 (pos 300)
    ∷ critical_battery false
    ∷ ota false 130000 (pos 400)
    ∷ []

eventful-run : run (init (pos 100)) eventful ≡ (
  record {
    state = sleeping;
    ota_in_progress = false;
    active_brightness_percent = 60;
    sleep_veto_until = none;
  },
  set_percent 60
      ∷ set_percent 20
      ∷ publish idle
      ∷ set_percent 60
      ∷ publish updating
      ∷ set_percent 60
      ∷ publish error
      ∷ set_percent 60
      ∷ publish updating
      ∷ set_percent 0
      ∷ publish sleeping
      ∷ [],
)
unfolding run step init transition_to has_active_sleep_veto
eventful-run = refl

abbrev dozing : PowerManager
dozing = record {
  state = idle;
  ota_in_progress = false;
  active_brightness_percent = 80;
  sleep_veto_until = none;
}

run-init-Implements_example :
    Implements (flags_run quiet eventful) (run (init (pos 100)) eventful).0
run-init-Implements_example = run-init-Implements (pos 100) eventful

run-init-Lit_example :
    Lit (run (init (negsuc 2)) eventful).0 (shown none (run (init (negsuc 2)) eventful).1)
run-init-Lit_example = run-init-Lit (negsuc 2) eventful

step-Drowsy_example : Drowsy dozing (tick 130000 (pos 0))
unfolding step transition_to has_active_sleep_veto
step-Drowsy_example = step-Drowsy dozing (tick 130000 (pos 0)) (λ e. cc) refl

two_ticks_sleep_example :
    (run (init (pos 50)) (tick 125000 (pos 0) ∷ tick 126000 (pos 1000) ∷ [])).0.state ≡ sleeping
unfolding init has_active_sleep_veto
two_ticks_sleep_example =
    two_ticks_sleep (init (pos 50)) 125000 126000 (pos 0) (pos 1000) (λ e. cc) (λ e. cc)
      (omega arith) (omega arith) refl
