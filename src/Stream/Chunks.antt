-- ===== src/Stream/Chunks.antt =====
-- Which messages come out of the chunks that go in.
use homedeck.Base.{
  ℕ, ◌+◌, ◌-◌, ◌≤◌, ◌≡◌, sym, ◌∙◌, ap, Bool, true, false, not, ◌||◌, List, [], ◌∷◌, ◌++◌, arith,
  ltb, length, length-append, length-drop, All, All-append, All-drop, if_both, ltb→le,
}
use mathlib.Core.List.{append_assoc, append-nil}
use homedeck.Stream.{
  Assembler, Result, partial, complete, add, newest, max_web_socket_message_bytes,
}

-- Where the network cuts before a message ends: inside a frame, which may be the message's last one,
-- or at the end of a frame that is not the last one.
pub data Cut : Type 0 where
  inside : Bool → Cut
  frame_end : Cut

abbrev fin_of : Cut → Bool
fin_of (inside fin) = fin
fin_of frame_end = false

abbrev complete_of : Cut → Bool
complete_of (inside fin) = false
complete_of frame_end = true

unfoldable pub add_partials : List (List ℕ × Cut) → Assembler → Assembler
unfolding add
add_partials [] a = a
add_partials ((chunk, cut) ∷ chunks) a =
    add_partials chunks (add chunk (fin_of cut) (complete_of cut) a).1

unfoldable pub joined : List (List ℕ × Cut) → List ℕ
joined [] = []
joined ((chunk, cut) ∷ chunks) = chunk ++ joined chunks

-- A chunk that ends no message is appended.
add-partial :
    (chunk : List ℕ) (cut : Cut) (a : Assembler)
    → length a.in_progress + length chunk ≤ max_web_socket_message_bytes
    → add chunk (fin_of cut) (complete_of cut) a
      ≡ (partial, record a { in_progress = a.in_progress ++ chunk })
unfolding add
add-partial chunk (inside true) a h = ground (arith, h)
add-partial chunk (inside false) a h = ground (arith, h)
add-partial chunk frame_end a h = ground (arith, h)

add_partials-joined :
    (chunks : List (List ℕ × Cut)) (a : Assembler)
    → length a.in_progress + length (joined chunks) ≤ max_web_socket_message_bytes
    → add_partials chunks a ≡ record a { in_progress = a.in_progress ++ joined chunks }
unfolding add_partials joined
add_partials-joined [] a h = ap (λ m. record a { in_progress = m }) (sym (append-nil a.in_progress))
add_partials-joined ((chunk, cut) ∷ chunks) a h =
    ap (λ r. add_partials chunks r.1)
      (add-partial chunk cut a (omega (arith, h, length-append chunk (joined chunks))))
    ∙ add_partials-joined chunks (record a { in_progress = a.in_progress ++ chunk })
        (omega (arith, h, length-append chunk (joined chunks), length-append a.in_progress chunk))
    ∙ ap (λ m. record a { in_progress = m }) (append_assoc a.in_progress chunk (joined chunks))

-- A message that arrives in chunks, however the network cuts its frames and in how many frames it
-- was sent, is queued whole as long as it is within the bound; the queue keeps its newest twenty
-- and the next message begins afresh.
pub add-message :
    (chunks : List (List ℕ × Cut)) (last : List ℕ) (a : Assembler)
    → a.in_progress ≡ []
    → length (joined chunks) + length last ≤ max_web_socket_message_bytes
    → add last true true (add_partials chunks a) ≡ (
      complete,
      record { queue = newest (a.queue ++ ((joined chunks ++ last) ∷ [])); in_progress = [] },
    )
unfolding add
add-message chunks last a e h =
    ap (add last true true) (
      add_partials-joined chunks a (ground (arith, h, ap length e))
      ∙ ap (λ m. record a { in_progress = m ++ joined chunks }) e)
    ∙ ground (arith, h)

-- What is queued and what is in progress is within the bounds.
pub record IsBounded (a : Assembler) : Type 0 where
  pub few : length a.queue ≤ 20
  pub short : All (λ m. length m ≤ max_web_socket_message_bytes) a.queue
  pub waiting : length a.in_progress ≤ max_web_socket_message_bytes

-- Every chunk keeps the bounds: twenty messages, each of at most a megabyte, and the one in progress.
pub add-IsBounded :
    (chunk : List ℕ) (fin frame_complete : Bool) (a : Assembler)
    → IsBounded a
    → IsBounded (add chunk fin frame_complete a).1
unfolding add
add-IsBounded chunk fin frame_complete a b =
    if_both (λ (r : Result × Assembler). IsBounded r.1)
      (ltb max_web_socket_message_bytes (length a.in_progress + length chunk)) _ _
      (λ e. record { few = b.few; short = b.short; waiting = omega arith })
      (λ e.
        if_both (λ (r : Result × Assembler). IsBounded r.1) (not fin || not frame_complete) _ _
          (λ e'. record {
            few = b.few;
            short = b.short;
            waiting = omega (arith, ltb→le _ _ e, length-append a.in_progress chunk);
          })
          (λ e'.
            let messages = a.queue ++ ((a.in_progress ++ chunk) ∷ []) in
            record {
              few = omega (arith, length-drop (length messages - 20) messages);
              short =
                  All-drop (λ m. length m ≤ max_web_socket_message_bytes) (length messages - 20)
                    messages
                    (All-append (λ m. length m ≤ max_web_socket_message_bytes) a.queue _ b.short
                      (omega (arith, ltb→le _ _ e, length-append a.in_progress chunk), tt));
              waiting = omega arith;
            }))
