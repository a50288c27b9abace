-- ===== src/Battery/Edges.antt =====
-- The monitors publish exactly the edges of a signal.
use homedeck.Base.{◌≡◌, refl, ap, Bool, true, false, ◌&&◌, List, [], ◌∷◌, ◌++◌, arith}
use homedeck.Battery.{
  Reading, Message, Callbacks, latch_tick, latch_run, network_tick, network_run, critical_monitor,
  low_monitor, is_critical, is_low, critical_callbacks, low_callbacks,
}

-- The edges of a Boolean signal that starts at `b`, by the value that it changes to.
pub edges : Bool → List Bool → List Bool
edges b [] = []
edges true (true ∷ ss) = edges true ss
edges true (false ∷ ss) = false ∷ edges false ss
edges false (true ∷ ss) = true ∷ edges true ss
edges false (false ∷ ss) = edges false ss

unfoldable pub last_of : Bool → List Bool → Bool
last_of b [] = b
last_of b (s ∷ ss) = last_of s ss

pub last_of-edges : (b : Bool) (ss : List Bool) → last_of b (edges b ss) ≡ last_of b ss
unfolding edges last_of
last_of-edges b [] = refl
last_of-edges true (true ∷ ss) = last_of-edges true ss
last_of-edges true (false ∷ ss) = last_of-edges false ss
last_of-edges false (true ∷ ss) = last_of-edges true ss
last_of-edges false (false ∷ ss) = last_of-edges false ss

-- What a monitor says on an edge.
unfoldable pub say : Callbacks → List Bool → List Message
say c [] = []
say c (true ∷ bs) = c.on_entering ++ say c bs
say c (false ∷ bs) = c.on_leaving ++ say c bs

-- The signal that a latched monitor follows: a battery is there, and its reading is bad.
pub signal : (Reading → Bool) → List Reading → List Bool
signal is_bad [] = []
signal is_bad (r ∷ rs) = (r.present && is_bad r) ∷ signal is_bad rs

latch_edges :
    (is_bad : Reading → Bool) (c : Callbacks) (b : Bool) (rs : List Reading)
    → latch_run is_bad c rs b ≡ (last_of b (signal is_bad rs), say c (edges b (signal is_bad rs)))
unfolding latch_run latch_tick edges say signal last_of
latch_edges is_bad c b [] = refl
latch_edges is_bad c true (r ∷ rs) =
    ground (arith, latch_edges is_bad c true rs, latch_edges is_bad c false rs)
latch_edges is_bad c false (r ∷ rs) =
    ground (arith, latch_edges is_bad c true rs, latch_edges is_bad c false rs)

-- Over any readings the critical battery monitor ends latched exactly if the last reading, if
-- there is one, has a battery below 5 % that is not on external power, and it has published
-- exactly the edges of that condition: the event and the alert on the way down, the event alone
-- on the way up.
pub critical_monitor-edges :
    (rs : List Reading)
    → critical_monitor rs ≡ (
      last_of false (signal is_critical rs),
      say critical_callbacks (edges false (signal is_critical rs)),
    )
unfolding critical_monitor
critical_monitor-edges rs = latch_edges is_critical critical_callbacks false rs

-- Over any readings the low battery monitor has published one notification for each time that a
-- present battery fell below 15 %, and nothing else.
pub low_monitor-edges :
    (rs : List Reading) → (low_monitor rs).1 ≡ say low_callbacks (edges false (signal is_low rs))
unfolding low_monitor
low_monitor-edges rs = ap (λ r. r.1) (latch_edges is_low low_callbacks false rs)

-- The network monitor publishes exactly the changes of connectivity after its construction, and
-- none for the state that it was constructed in.
pub network_run-edges :
    (first : Bool) (cs : List Bool) → network_run first cs ≡ (last_of first cs, edges first cs)
unfolding network_run network_tick edges last_of
network_run-edges first [] = refl
network_run-edges true (true ∷ cs) = ground (arith, network_run-edges true cs)
network_run-edges true (false ∷ cs) = ground (arith, network_run-edges false cs)
network_run-edges false (true ∷ cs) = ground (arith, network_run-edges true cs)
network_run-edges false (false ∷ cs) = ground (arith, network_run-edges false cs)
