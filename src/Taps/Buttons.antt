-- ===== src/Taps/Buttons.antt =====
-- `CommandButtonPressTracker` of src/ui/command_button_press_tracker.cpp and .h. A button is its
-- address, and the state the buttons that are held down, `long_press_active_buttons_`.
use homedeck.Base.{ℕ, ◌==◌, Bool, true, false, List, [], ◌∷◌, if◌then◌else◌, ◌≡◌, arith}

data Action : Type 0 where
  no_action press hold release press_and_release : Action

contains : ℕ → List ℕ → Bool
contains b [] = false
contains b (c ∷ cs) = if b == c then true else contains b cs

erase : ℕ → List ℕ → List ℕ
erase b [] = []
erase b (c ∷ cs) = if b == c then erase b cs else c ∷ erase b cs

on_long_pressed : ℕ → List ℕ → Action × List ℕ
unfolding contains
on_long_pressed button held = (press, (if contains button held then held else button ∷ held))

on_long_press_repeat : ℕ → List ℕ → Action
on_long_press_repeat button held = hold

on_released : ℕ → Bool → List ℕ → Action × List ℕ
unfolding contains erase
on_released button is_scrolling held =
    if contains button held
    then (release, erase button held)
    else if is_scrolling
    then (no_action, held)
    else (press_and_release, held)

reset : List ℕ → List ℕ
reset held = []

-- A call of one of the handlers, or of `Reset` by the screen.
data Touch : Type 0 where
  long_pressed repeated : ℕ → Touch
  released : ℕ → Bool → Touch
  rebuilt : Touch

touch : Touch → List ℕ → Action × List ℕ
unfolding on_long_pressed on_long_press_repeat on_released reset
touch (long_pressed b) held = on_long_pressed b held
touch (repeated b) held = (on_long_press_repeat b held, held)
touch (released b is_scrolling) held = on_released b is_scrolling held
touch rebuilt held = (no_action, reset held)

touches : List Touch → List ℕ → List ℕ
unfolding touch
touches [] held = held
touches (t ∷ ts) held = touches ts (touch t held).1

-- Whether a sequence of calls lets go of a button, or clears all of them.
lets_go : ℕ → List Touch → Bool
lets_go b [] = false
lets_go b (released c is_scrolling ∷ ts) = if b == c then true else lets_go b ts
lets_go b (rebuilt ∷ ts) = true
lets_go b (_ ∷ ts) = lets_go b ts

contains-erase :
    (b c : ℕ)
    → (held : List ℕ) → (b == c) ≡ false
    → contains b held ≡ true
    → contains b (erase c held) ≡ true
unfolding contains erase
contains-erase b c [] n h = ground arith
contains-erase b c (d ∷ held) n h = ground (arith, contains-erase b c held n)

contains-on_long_pressed :
    (b c : ℕ)
    → (held : List ℕ) → contains b held ≡ true
    → contains b (on_long_pressed c held).1 ≡ true
unfolding on_long_pressed contains
contains-on_long_pressed b c held h = ground arith

contains-pressed : (b : ℕ) → (held : List ℕ) → contains b (on_long_pressed b held).1 ≡ true
unfolding on_long_pressed contains
contains-pressed b held = ground arith

contains-on_released :
    (b c : ℕ)
    → (is_scrolling : Bool) → (held : List ℕ) → (b == c) ≡ false
    → contains b held ≡ true
    → contains b (on_released c is_scrolling held).1 ≡ true
unfolding on_released
contains-on_released b c is_scrolling held n h = ground (arith, contains-erase b c held n h)

on_released-held :
    (b : ℕ)
    → (is_scrolling : Bool) → (held : List ℕ) → contains b held ≡ true
    → (on_released b is_scrolling held).0 ≡ release
unfolding on_released
on_released-held b is_scrolling held h = ground arith

lets_go-released :
    (b c : ℕ)
    → (is_scrolling : Bool) → (ts : List Touch) → lets_go b (released c is_scrolling ∷ ts) ≡ false
    → ((b == c) ≡ false) × (lets_go b ts ≡ false)
unfolding lets_go
lets_go-released b c is_scrolling ts n = ground arith

contains-touches :
    (b : ℕ)
    → (ts : List Touch) → (held : List ℕ) → lets_go b ts ≡ false
    → contains b held ≡ true
    → contains b (touches ts held) ≡ true
unfolding touches touch lets_go
contains-touches b [] held n h = h
contains-touches b (long_pressed c ∷ ts) held n h =
    contains-touches b ts (on_long_pressed c held).1 n (contains-on_long_pressed b c held h)
contains-touches b (repeated c ∷ ts) held n h = contains-touches b ts held n h
contains-touches b (released c is_scrolling ∷ ts) held n h =
    let (other, rest) = lets_go-released b c is_scrolling ts n in
    contains-touches b ts (on_released c is_scrolling held).1 rest
      (contains-on_released b c is_scrolling held other h)
contains-touches b (rebuilt ∷ ts) held n h = ground arith

-- A button that was pressed long is released when it is let go, whatever is touched in between and
-- whether or not the list scrolls, unless the screen is rebuilt or the button let go before.
on_released-touches :
    (b : ℕ)
    → (ts : List Touch) → (held : List ℕ) → (is_scrolling : Bool) → lets_go b ts ≡ false
    → (on_released b is_scrolling (touches ts (on_long_pressed b held).1)).0 ≡ release
on_released-touches b ts held is_scrolling n =
    on_released-held b is_scrolling (touches ts (on_long_pressed b held).1)
      (contains-touches b ts (on_long_pressed b held).1 n (contains-pressed b held))
