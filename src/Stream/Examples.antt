-- ===== src/Stream/Examples.antt =====
-- The theorems on the assembler at concrete values.
use homedeck.Base.{◌≡◌, refl, true, List, [], ◌∷◌, ◌++◌, arith, ℕ}
use homedeck.Base.Text.{codes}
use homedeck.Stream.{Assembler, complete, add, newest}
use homedeck.Stream.Chunks.{Cut, inside, frame_end, add_partials, joined, add-message}

abbrev quiet : Assembler
quiet = record { queue = codes "old" ∷ []; in_progress = [] }

-- Two frames; the second arrives in two chunks.
abbrev cuts : List (List ℕ × Cut)
cuts = (codes "ab", frame_end) ∷ (codes "c", inside true) ∷ []

add-message_example : add (codes "de") true true (add_partials cuts quiet) ≡ (
  complete,
  record { queue = newest (quiet.queue ++ ((joined cuts ++ codes "de") ∷ [])); in_progress = [] },
)
unfolding joined
add-message_example = add-message cuts (codes "de") quiet refl (omega arith)

all_cuts : joined cuts ++ codes "de" ≡ codes "abcde"
unfolding joined
all_cuts = refl
