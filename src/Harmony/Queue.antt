-- ===== src/Harmony/Queue.antt =====
-- The bound of the Harmony client's command queue.
use homedeck.Base.{
  ℕ, zero, suc, ◌+◌, ◌-◌, ◌≤◌, ◌≡◌, refl, sym, ◌∙◌, ap, List, [], ◌∷◌, ◌++◌, arith, length, drop,
  length-append, length-drop,
}
use mathlib.Core.List.{append_assoc, append-nil}
use homedeck.Harmony.Link.{
  PendingCommand, Outside, Connection, enqueue_command, drop_oldest, max_pending_commands,
}

module _ (o : Outside) where
  pub enqueue_all : List PendingCommand → Connection o → Connection o
  unfolding enqueue_command
  enqueue_all [] c = c
  enqueue_all (p ∷ ps) c = enqueue_all ps (enqueue_command o p c)

  drop-append :
      (n : ℕ) (xs ys : List PendingCommand) → n ≤ length xs → drop n (xs ++ ys) ≡ drop n xs ++ ys
  drop-append zero xs ys h = refl
  drop-append (suc n) [] ys h = absurd (omega (arith, h))
  drop-append (suc n) (x ∷ xs) ys h = drop-append n xs ys (omega (arith, h))

  drop_nil : (n : ℕ) → drop {A = PendingCommand} n [] ≡ []
  drop_nil zero = refl
  drop_nil (suc n) = refl

  drop-drop : (m n : ℕ) (xs : List PendingCommand) → drop m (drop n xs) ≡ drop (n + m) xs
  drop-drop m zero xs = let e : m ≡ 0 + m = omega arith in ap (λ k. drop k xs) e
  drop-drop m (suc n) [] = drop_nil m ∙ sym (drop_nil (suc n + m))
  drop-drop m (suc n) (x ∷ xs) =
      let e : suc (n + m) ≡ suc n + m = omega arith in
      drop-drop m n xs ∙ ap (λ k. drop k (x ∷ xs)) e

  -- A bounded queue grows as the whole history does.
  drop_oldest-append :
      (xs : List PendingCommand) (p : PendingCommand)
      → drop_oldest (drop_oldest xs ++ (p ∷ [])) ≡ drop_oldest (xs ++ (p ∷ []))
  drop_oldest-append xs p =
      let n = length xs - max_pending_commands in
      ap drop_oldest (sym (drop-append n xs (p ∷ []) (omega arith)))
      ∙ drop-drop (length (drop n (xs ++ (p ∷ []))) - max_pending_commands) n (xs ++ (p ∷ []))
      ∙ ap (λ k. drop k (xs ++ (p ∷ [])))
          (omega (arith, length-drop n (xs ++ (p ∷ [])), length-append xs (p ∷ [])))

  pending-enqueue_all :
      (ps xs : List PendingCommand) (c : Connection o)
      → c.pending ≡ drop_oldest xs
      → (enqueue_all ps c).pending ≡ drop_oldest (xs ++ ps)
  unfolding enqueue_all enqueue_command
  pending-enqueue_all [] xs c e = e ∙ ap drop_oldest (sym (append-nil xs))
  pending-enqueue_all (p ∷ ps) xs c e =
      pending-enqueue_all ps (xs ++ (p ∷ [])) (enqueue_command o p c)
        (ap (λ q. drop_oldest (q ++ (p ∷ []))) e ∙ drop_oldest-append xs p)
      ∙ ap drop_oldest (append_assoc xs (p ∷ []) ps)

  -- Whatever is enqueued on an empty queue, it holds the newest twenty commands in their order.
  pub pending-newest :
      (ps : List PendingCommand) (c : Connection o)
      → c.pending ≡ []
      → ((enqueue_all ps c).pending ≡ drop (length ps - 20) ps)
        × (length (enqueue_all ps c).pending ≤ 20)
  pending-newest ps c e =
      let q = pending-enqueue_all ps [] c e in
      (q, omega (arith, ap length q, length-drop (length ps - 20) ps))
