-- ===== src/Power/Spec.antt =====
-- The power state against an abstract machine of two flags, and what is published.
use homedeck.Base.{◌≡◌, refl, Bool, false, ◌&&◌, not, List, [], ◌∷◌, arith}
use homedeck.Base.Int.{ℤ}
use homedeck.Power.{
  PowerManager, is_error, is_updating, init, transition_to, Input, tick, ota, critical_battery,
  brightness, veto, step, run,
}

-- What the outside has said last: is the battery critical, is a firmware write in flight?
pub record Flags : Type 0 where
  pub critical : Bool
  pub writing : Bool

unfoldable pub flags_step : Flags → Input → Flags
flags_step f (critical_battery c) = record f { critical = c }
flags_step f (ota w _ _) = record f { writing = w }
flags_step f _ = f

unfoldable pub flags_run : Flags → List Input → Flags
flags_run f [] = f
flags_run f (i ∷ is) = flags_run (flags_step f i) is

abbrev pub quiet : Flags
quiet = record { critical = false; writing = false }

-- The state that the flags call for: a critical battery wins over a write in flight.
pub record Implements (f : Flags) (m : PowerManager) : Type 0 where
  pub writes : m.ota_in_progress ≡ f.writing
  pub in_error : is_error m.state ≡ f.critical
  pub in_update : is_updating m.state ≡ (f.writing && not f.critical)

step-Implements :
    (f : Flags) (m : PowerManager) (i : Input)
    → Implements f m
    → Implements (flags_step f i) (step m i).0
unfolding step flags_step transition_to
step-Implements f m (tick inactive_ms now) h = ground arith
step-Implements f m (ota w inactive_ms now) h = ground arith
step-Implements f m (critical_battery c) h = ground arith
step-Implements f m (brightness p) h = ground arith
step-Implements f m (veto now d) h = ground arith

run-Implements :
    (f : Flags) (m : PowerManager) (is : List Input)
    → Implements f m
    → Implements (flags_run f is) (run m is).0
unfolding run flags_run
run-Implements f m [] h = h
run-Implements f m (i ∷ is) h =
    run-Implements (flags_step f i) (step m i).0 is (step-Implements f m i h)

-- After any history from the constructor, in any interleaving of ticks, battery events, firmware
-- writes and settings: the state is Error exactly if the last battery event was critical, it is
-- Updating exactly if the last write event was a start and the battery is not critical, and the
-- manager's own flag says whether a write is in flight.
pub run-init-Implements :
    (percent : ℤ) (is : List Input) → Implements (flags_run quiet is) (run (init percent) is).0
unfolding init
run-init-Implements percent is =
    run-Implements quiet (init percent) is
      (record { writes = refl; in_error = refl; in_update = refl })
