-- ===== src/Taps.antt =====
-- The decisions behind the screens of the Harmony hub: here `ActivityStartTracker` of
-- src/ui/activity_start_tracker.cpp and .h, in Taps/Buttons the command buttons.
pub mod Buttons
use homedeck.Base.{
  ℕ, Bool, true, false, not, ◌&&◌, Option, none, some, List, [], ◌∷◌, ◌++◌, refl, if◌then◌else◌,
  is_empty, ◌≡◌, arith,
}
use homedeck.Base.Text.{codes}

record ActivityStartTracker : Type 0 where
  starting_activity_id : List ℕ
  command_failed : Bool

record TapOutcome : Type 0 where
  status_text : List ℕ
  is_fresh_start : Bool

has_pending : ActivityStartTracker → Bool
has_pending t = not (is_empty t.starting_activity_id)

on_activity_tapped :
    List ℕ → List ℕ → Bool → ActivityStartTracker → TapOutcome × ActivityStartTracker
on_activity_tapped activity_id activity_label is_current t = (
  (if is_current
      then record {
        status_text = codes "Resent to " ++ activity_label ++ codes ".";
        is_fresh_start = false;
      }
      else record {
        status_text = codes "Starting " ++ activity_label ++ codes "...";
        is_fresh_start = true;
      }),
  record { starting_activity_id = activity_id; command_failed = false },
)

clear_pending : ActivityStartTracker → ActivityStartTracker
clear_pending t = record { starting_activity_id = []; command_failed = false }

on_connection_state_changed : Bool → ActivityStartTracker → Bool × ActivityStartTracker
unfolding has_pending
on_connection_state_changed now_connected t =
    if not now_connected && has_pending t
    then (true, record t { starting_activity_id = [] })
    else if now_connected && t.command_failed
    then (false, record t { command_failed = false })
    else (false, t)

-- The two ways in which a start fails, with the text that is shown.
give_up : List ℕ → ActivityStartTracker → Option (List ℕ) × ActivityStartTracker
unfolding has_pending
give_up text t =
    if not (has_pending t)
    then (none, t)
    else (some text, record { starting_activity_id = []; command_failed = true })

on_command_dropped : List ℕ → ActivityStartTracker → Option (List ℕ) × ActivityStartTracker
unfolding give_up
on_command_dropped label t =
    give_up (codes "Couldn't start " ++ label ++ codes " - hub unreachable") t

on_starting_timed_out : List ℕ → ActivityStartTracker → Option (List ℕ) × ActivityStartTracker
unfolding give_up
on_starting_timed_out label t =
    give_up (codes "No response starting " ++ label ++ codes " - try again") t

-- What the screen may tell the tracker.
data Message : Type 0 where
  tapped : List ℕ → List ℕ → Bool → Message
  cleared : Message
  connection : Bool → Message
  dropped timed_out : List ℕ → Message

step : Message → ActivityStartTracker → ActivityStartTracker
unfolding on_activity_tapped clear_pending on_connection_state_changed on_command_dropped
    on_starting_timed_out
step (tapped id label is_current) t = (on_activity_tapped id label is_current t).1
step cleared t = clear_pending t
step (connection now_connected) t = (on_connection_state_changed now_connected t).1
step (dropped label) t = (on_command_dropped label t).1
step (timed_out label) t = (on_starting_timed_out label t).1

-- A tracker whose last start failed waits for nothing.
IsSettled : ActivityStartTracker → Type 0
unfolding has_pending
IsSettled t = t.command_failed ≡ true → has_pending t ≡ false

-- Every message keeps a tracker settled.
step-IsSettled : (m : Message) → (t : ActivityStartTracker) → IsSettled t → IsSettled (step m t)
unfolding step IsSettled has_pending on_activity_tapped clear_pending on_connection_state_changed
    give_up on_command_dropped on_starting_timed_out
step-IsSettled (tapped id label is_current) t h = ground arith
step-IsSettled cleared t h = ground arith
step-IsSettled (connection now_connected) t h = ground arith
step-IsSettled (dropped label) t h = ground arith
step-IsSettled (timed_out label) t h = ground arith

-- What the tracker is after a sequence of messages, the first one first.
run : List Message → ActivityStartTracker → ActivityStartTracker
unfolding step
run [] t = t
run (m ∷ messages) t = run messages (step m t)

abbrev initial_tracker : ActivityStartTracker
initial_tracker = record { starting_activity_id = []; command_failed = false }

run-IsSettled :
    (messages : List Message)
    → (t : ActivityStartTracker) → IsSettled t
    → IsSettled (run messages t)
unfolding run
run-IsSettled [] t h = h
run-IsSettled (m ∷ messages) t h = run-IsSettled messages (step m t) (step-IsSettled m t h)

-- After any messages to a new tracker, the failed start is not also the pending one.
run-initial-IsSettled : (messages : List Message) → IsSettled (run messages initial_tracker)
unfolding IsSettled has_pending
run-initial-IsSettled messages = run-IsSettled messages initial_tracker (λ e. refl)
