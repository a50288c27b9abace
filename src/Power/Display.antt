-- ===== src/Power/Display.antt =====
-- What the display shows and what is published, over every history of the power manager.
use homedeck.Base.{ℕ, ◌≤◌, ◌≡◌, refl, ◌⊎◌, Bool, Option, none, some, List, [], ◌∷◌, ◌++◌, arith}
use homedeck.Base.Int.{ℤ, pos, negsuc, clamp}
use homedeck.Power.{
  PowerState, active, idle, sleeping, updating, error, Effect, publish, set_percent, PowerManager,
  init, transition_to, brightness_for, Input, tick, ota, critical_battery, brightness, veto, step,
  run,
}

-- The display after some effects, and the events that they publish.
pub shown : Option ℕ → List Effect → Option ℕ
shown d [] = d
shown d (set_percent p ∷ es) = shown (some p) es
shown d (publish s ∷ es) = shown d es

pub published : List Effect → List PowerState
published [] = []
published (set_percent p ∷ es) = published es
published (publish s ∷ es) = s ∷ published es

shown-append : (d : Option ℕ) (es fs : List Effect) → shown d (es ++ fs) ≡ shown (shown d es) fs
unfolding shown
shown-append d [] fs = refl
shown-append d (set_percent p ∷ es) fs = shown-append (some p) es fs
shown-append d (publish s ∷ es) fs = shown-append d es fs

-- What a state allows the display to show, once the user has chosen the brightness `percent`.
abbrev pub Allowed : PowerState → ℕ → ℕ → Type 0
Allowed active percent p = p ≡ percent
Allowed idle percent p = p ≤ 20
Allowed sleeping percent p = p ≡ 0
Allowed updating percent p = (5 ≤ p) × (p ≤ 100)
Allowed error percent p = (5 ≤ p) × (p ≤ 100)

abbrev pub Shows : PowerManager → Option ℕ → Type 0
Shows m none = m.state ≡ active
Shows m (some p) = Allowed m.state m.active_brightness_percent p

pub record Lit (m : PowerManager) (d : Option ℕ) : Type 0 where
  pub at_least : 5 ≤ m.active_brightness_percent
  pub at_most : m.active_brightness_percent ≤ 100
  pub shows : Shows m d

clamp_lem : (a : ℤ) → (5 ≤ clamp 5 100 a) × (clamp 5 100 a ≤ 100)
clamp_lem (pos n) = ground arith
clamp_lem (negsuc n) = ground arith

transition_to-Lit :
    (s : PowerState) (m : PowerManager) (d : Option ℕ)
    → 5 ≤ m.active_brightness_percent
    → m.active_brightness_percent ≤ 100
    → Lit (transition_to s m).0 (shown d (transition_to s m).1)
unfolding transition_to shown brightness_for
transition_to-Lit active m d lo hi = ground arith
transition_to-Lit idle m d lo hi = ground arith
transition_to-Lit sleeping m d lo hi = ground arith
transition_to-Lit updating m d lo hi = ground arith
transition_to-Lit error m d lo hi = ground arith

keep :
    {m : PowerManager} {d : Option ℕ} (w : Bool)
    → Lit m d
    → Lit (record m { ota_in_progress = w }) d
keep {m} {d = none} w l = record { at_least = l.at_least; at_most = l.at_most; shows = l.shows }
keep {m} {d = some p} w l = record { at_least = l.at_least; at_most = l.at_most; shows = l.shows }

-- In every state but Active the display stays as it is.
brighten :
    (s : PowerState) (w : Bool) (a : ℕ) (v : Option ℤ) (d : Option ℕ) (p : ℤ)
    → let m : PowerManager = record {
      state = s;
      ota_in_progress = w;
      active_brightness_percent = a;
      sleep_veto_until = v;
    } in
      Lit m d → Lit (step m (brightness p)).0 (shown d (step m (brightness p)).1)
unfolding step shown
brighten active w a v d p l = record {
  at_least = (clamp_lem p).0;
  at_most = (clamp_lem p).1;
  shows = refl;
}
brighten idle w a v none p l = cc (l.shows)
brighten sleeping w a v none p l = cc (l.shows)
brighten updating w a v none p l = cc (l.shows)
brighten error w a v none p l = cc (l.shows)
brighten _ w a v (some q) p l = record {
  at_least = (clamp_lem p).0;
  at_most = (clamp_lem p).1;
  shows = l.shows;
}

step-Lit :
    (m : PowerManager) (d : Option ℕ) (i : Input)
    → Lit m d
    → Lit (step m i).0 (shown d (step m i).1)
unfolding step shown
step-Lit m d (tick inactive_ms now) l = ground (
  arith,
  transition_to-Lit active m d l.at_least l.at_most,
  transition_to-Lit idle m d l.at_least l.at_most,
  transition_to-Lit sleeping m d l.at_least l.at_most,
)
step-Lit m d (ota w inactive_ms now) l =
    let m' = record m { ota_in_progress = w } in
    ground (
      arith,
      keep w l,
      transition_to-Lit active m' d l.at_least l.at_most,
      transition_to-Lit idle m' d l.at_least l.at_most,
      transition_to-Lit sleeping m' d l.at_least l.at_most,
      transition_to-Lit updating m' d l.at_least l.at_most,
    )
step-Lit m d (critical_battery c) l = ground (
  arith,
  transition_to-Lit active m d l.at_least l.at_most,
  transition_to-Lit updating m d l.at_least l.at_most,
  transition_to-Lit error m d l.at_least l.at_most,
)
step-Lit m d (brightness p) l =
    brighten m.state m.ota_in_progress m.active_brightness_percent m.sleep_veto_until d p l
step-Lit m none (veto now dur) l = record {
  at_least = l.at_least;
  at_most = l.at_most;
  shows = l.shows;
}
step-Lit m (some q) (veto now dur) l = record {
  at_least = l.at_least;
  at_most = l.at_most;
  shows = l.shows;
}

run-Lit :
    (m : PowerManager) (d : Option ℕ) (is : List Input)
    → Lit m d
    → Lit (run m is).0 (shown d (run m is).1)
unfolding run shown
run-Lit m d [] l = l
run-Lit m d (i ∷ is) l =
    rw (shown-append d (step m i).1 (run (step m i).0 is).1)
      (run-Lit (step m i).0 (shown d (step m i).1) is (step-Lit m d i l))

-- After any history from the constructor, whatever brightness was configured: the chosen
-- brightness is between 5 and 100, and the last brightness that was sent to the display, if any
-- was, fits the state: the chosen one in Active, at most 20 in Idle, 0 in Sleeping, and between 5
-- and 100 in Updating and Error. If none was sent the state is Active.
pub run-init-Lit :
    (percent : ℤ) (is : List Input)
    → Lit (run (init percent) is).0 (shown none (run (init percent) is).1)
unfolding init
run-init-Lit percent is =
    run-Lit (init percent) none is
      (record { at_least = (clamp_lem percent).0; at_most = (clamp_lem percent).1; shows = refl })

-- Each input publishes at most one event; if it publishes none the state stays, and an event that
-- is published names the state entered.
pub published-step :
    (m : PowerManager) (i : Input)
    → ((published (step m i).1 ≡ []) × ((step m i).0.state ≡ m.state))
      ⊎ (published (step m i).1 ≡ (step m i).0.state ∷ [])
unfolding step published transition_to
published-step m (tick inactive_ms now) = ground arith
published-step m (ota w inactive_ms now) = ground arith
published-step m (critical_battery c) = ground arith
published-step m (brightness p) = ground arith
published-step m (veto now d) = ground arith
