-- ===== src/Harmony/Exchange/Delivery.antt =====
-- Which commands of a batch reach the hub.
use homedeck.Base.{
  ℕ, ◌≡◌, refl, ◌∙◌, ap, Bool, true, false, not, ◌||◌, Option, none, some, List, [], arith,
  if◌then◌else◌, if_both, ◌++◌, suc,
}
use homedeck.Harmony.Link.{Outside, Connection, publish, stopped, command_dropped}
use homedeck.Harmony.Exchange.Probe.{drops, Same, Same-refl, Same-trans, stopped-Same, fetch-Same}
use homedeck.Harmony.Exchange.{
  send_pending_commands, refresh, after_batch, empty_batch, Batch, send_each,
}
use homedeck.Harmony.Exchange.Loop.{any_stale, log_due, Whole, send_each-Whole, send_each-stopped}

module _ (o : Outside) (max_age now : ℕ) where
  refresh-Same : (b : Batch) (c : Connection o) → Same o c (refresh o b c)
  unfolding refresh
  refresh-Same b c =
      if_both (λ (c' : Connection o). Same o c c') (not b.started_activity) _ _ (λ e. Same-refl o c)
        (λ e.
          if_both (λ (c' : Connection o). Same o c c') (stopped o c).0 _ _ (λ e'. stopped-Same o c)
            (λ e'.
              Same-trans o c (stopped o c).1 _ (stopped-Same o c) (fetch-Same o (stopped o c).1)))

  -- The outcome of a batch, seen from outside.
  pub record Delivered (c : Connection o) (r : Bool × Connection o) : Type 0 where
    pub sent :
        r.0 ≡ true
        → (extra : List (List ℕ)) × (o.attempted r.1.world
            ≡ extra ++ log_due o c.hub_id max_age now c.pending (o.attempted c.world))
    pub reported :
        drops r.1.published ≡ drops c.published
        → (r.0 ≡ true) × (any_stale max_age now c.pending ≡ false)

  same_texts :
      (lost : Bool) (c : Connection o) (texts : List (List ℕ))
      → o.attempted c.world ≡ texts
      → o.attempted (if lost then publish o command_dropped c else c).world ≡ texts
  same_texts true c texts e = e
  same_texts false c texts e = e

  unreported :
      (lost : Bool) (c : Connection o) (n : ℕ)
      → drops c.published ≡ n
      → drops (if lost then publish o command_dropped c else c).published ≡ n
      → lost ≡ false
  unfolding drops
  unreported true c n e f = absurd (omega (arith, e, f))
  unreported false c n e f = refl

  after_batch-Delivered :
      (c : Connection o) (r : Option Batch × Connection o)
      → ((b : Batch)
          → r.0 ≡ some b
          → Whole o max_age now c.pending empty_batch (record c { pending = [] }) r b)
      → (r.0 ≡ none → drops r.1.published ≡ suc (drops c.published))
      → Delivered c (after_batch o r)
  unfolding after_batch
  after_batch-Delivered c (none, c') w d = record {
    sent = λ e. absurd (ground arith);
    reported = λ e. absurd (omega (arith, d refl, e));
  }
  after_batch-Delivered c (some b, c') w d =
      let whole = w b refl in
      let same = refresh-Same b c' in
      record {
        sent = λ e. (
          same.extra,
          same_texts (b.dropped_stale_command || b.transport_failed) (refresh o b c') _
              (same.texts ∙ ap (λ x. same.extra ++ x) (whole.texts (ground arith))),
        );
        reported = λ e.
            let lost =
              unreported (b.dropped_stale_command || b.transport_failed) (refresh o b c') _
                (same.drops_same ∙ ap drops whole.quiet) e in
            (ground (arith, lost), ground (arith, lost, whole.stale));
      }

  -- On a connected socket: if `SendPendingCommands` returns true, then every queued command but the
  -- stale ones that are no releases was given to the socket, in its order, before anything else;
  -- and if it publishes no loss, then it returns true and no command was stale.
  pub send_pending_commands-Delivered :
      (c : Connection o) → c.socket ≡ true → Delivered c (send_pending_commands o max_age now c)
  unfolding send_pending_commands
  send_pending_commands-Delivered c s =
      let c₁ = record c { pending = [] } in
      if_both (Delivered c) (not c.socket) _ _ (λ e. absurd (ground (arith, s, e)))
        (λ e.
          after_batch-Delivered c (send_each o max_age now c.pending empty_batch c₁)
            (λ b e'. send_each-Whole o max_age now c.pending empty_batch b c₁ e')
            (send_each-stopped o max_age now c.pending empty_batch c₁))
