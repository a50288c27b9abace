-- ===== src/Stream.antt =====
-- `WebSocketMessageAssembler` of src/platform/websocket_message_assembler.h. Messages are lists of
-- bytes, and the queue has the oldest first.
pub mod Chunks
mod Examples
use homedeck.Base.{
  ℕ, ◌+◌, ◌-◌, ◌*◌, ◌≤◌, ◌<◌, ◌≡◌, refl, Bool, true, false, not, ◌||◌, Option, none, some, List, [],
  ◌∷◌, ◌++◌, arith, ltb, if◌then◌else◌, length, drop, is_empty,
}

abbrev pub max_queued_web_socket_messages : ℕ
max_queued_web_socket_messages = 20

abbrev pub max_web_socket_message_bytes : ℕ
max_web_socket_message_bytes = 1048576

pub data Result : Type 0 where
  partial complete oversized : Result

pub record Assembler : Type 0 where
  pub queue : List (List ℕ)
  pub in_progress : List ℕ

-- `while (size() > kMaxQueuedWebSocketMessages) pop_front()`.
abbrev pub newest : List (List ℕ) → List (List ℕ)
newest ms = drop (length ms - max_queued_web_socket_messages) ms

unfoldable pub add : List ℕ → Bool → Bool → Assembler → Result × Assembler
add chunk fin frame_complete a =
    if ltb max_web_socket_message_bytes (length a.in_progress + length chunk)
    then (oversized, record a { in_progress = [] })
    else let message = a.in_progress ++ chunk in
      if not fin || not frame_complete
      then (partial, record a { in_progress = message })
      else (complete, record { queue = newest (a.queue ++ (message ∷ [])); in_progress = [] })

unfoldable pub pop : Assembler → Option (List ℕ) × Assembler
pop a = elim a.queue [ [] ↦ (none, a) | message ∷ rest ↦ (some message, record a { queue = rest }) ]

unfoldable pub has_message : Assembler → Bool
has_message a = not (is_empty a.queue)

unfoldable pub clear : Assembler
clear = record { queue = []; in_progress = [] }
