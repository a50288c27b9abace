-- ===== src/Battery/Critical.antt =====
-- The critical battery monitor and the power manager together.
use homedeck.Base.{◌≡◌, refl, ap, ◌∙◌, Bool, true, false, List, [], ◌∷◌}
use homedeck.Base.Int.{ℤ}
use homedeck.Battery.{
  Reading, Message, critical_changed, notification, critical_monitor, is_critical,
  critical_callbacks,
}
use homedeck.Battery.Edges.{edges, last_of, last_of-edges, say, signal, critical_monitor-edges}
use homedeck.Power.{Input, tick, ota, critical_battery, brightness, veto, init, run, is_error}
use homedeck.Power.Spec.{Flags, quiet, flags_run, flags_step, run-init-Implements}

-- What the power manager has been told of the battery.
unfoldable pub told : List Input → List Bool
told [] = []
told (critical_battery c ∷ is) = c ∷ told is
told (tick _ _ ∷ is) = told is
told (ota _ _ _ ∷ is) = told is
told (brightness _ ∷ is) = told is
told (veto _ _ ∷ is) = told is

-- What the monitor has published of the battery.
unfoldable pub published : List Message → List Bool
published [] = []
published (critical_changed c ∷ ms) = c ∷ published ms
published (notification _ _ ∷ ms) = published ms

published-say : (bs : List Bool) → published (say critical_callbacks bs) ≡ bs
unfolding published say
published-say [] = refl
published-say (true ∷ bs) = ap (◌∷◌ true) (published-say bs)
published-say (false ∷ bs) = ap (◌∷◌ false) (published-say bs)

flags-told :
    (f : Flags) (is : List Input) → (flags_run f is).critical ≡ last_of f.critical (told is)
unfolding flags_run flags_step told last_of
flags-told f [] = refl
flags-told f (critical_battery c ∷ is) = flags-told (record f { critical = c }) is
flags-told f (tick _ _ ∷ is) = flags-told f is
flags-told f (ota w _ _ ∷ is) = flags-told (record f { writing = w }) is
flags-told f (brightness _ ∷ is) = flags-told f is
flags-told f (veto _ _ ∷ is) = flags-told f is

-- Once the power manager has been told all that the monitor published, in that order, and whatever
-- else happened in between, it is in Error exactly if the battery was critical at the last tick.
pub error-is_critical :
    (percent : ℤ) (is : List Input) (rs : List Reading)
    → told is ≡ published (critical_monitor rs).1
    → is_error (run (init percent) is).0.state ≡ last_of false (signal is_critical rs)
error-is_critical percent is rs all_told =
    (run-init-Implements percent is).in_error
    ∙ flags-told quiet is
    ∙ ap (last_of false) all_told
    ∙ ap (λ r. last_of false (published r.1)) (critical_monitor-edges rs)
    ∙ ap (last_of false) (published-say (edges false (signal is_critical rs)))
    ∙ last_of-edges false (signal is_critical rs)
