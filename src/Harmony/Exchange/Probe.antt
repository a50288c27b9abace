-- ===== src/Harmony/Exchange/Probe.antt =====
-- What a probe of the current activity leaves as it was.
use homedeck.Base.{
  ℕ, zero, suc, ◌≡◌, refl, sym, ◌∙◌, ap, Bool, true, false, not, Option, none, some, List, [], ◌∷◌,
  ◌++◌, if_both, bytes_eq,
}
use homedeck.Harmony.Link.{
  Event, state_changed, config_updated, current_activity_changed, command_dropped, Outside,
  Connection, is_some, drain, drain_stale_messages, send, stopped, receive,
  liveness_probe_timeout_ms, max_drain_iterations,
}
use mathlib.Core.List.{append_assoc}
use homedeck.Harmony.Wire.{current_activity_request}
use homedeck.Harmony.Exchange.{
  ActivityFetchResult, fetch_current_activity, probe_sent, probe_answer, note_activity,
  probed_activity,
}

-- How many times the loss of commands was published.
unfoldable pub drops : List Event → ℕ
drops [] = 0
drops (command_dropped ∷ es) = suc (drops es)
drops (state_changed s ∷ es) = drops es
drops (config_updated ∷ es) = drops es
drops (current_activity_changed id ∷ es) = drops es

module _ (o : Outside) where
  -- The texts that were attempted since stand on top of those before.
  pub record Same (c c' : Connection o) : Type 0 where
    pub socket : c'.socket ≡ c.socket
    pub has_config : c'.snapshot.has_config ≡ c.snapshot.has_config
    pub pending : c'.pending ≡ c.pending
    pub drops_same : drops c'.published ≡ drops c.published
    pub extra : List (List ℕ)
    pub texts : o.attempted c'.world ≡ extra ++ o.attempted c.world

  pub Same-refl : (c : Connection o) → Same c c
  Same-refl c = record {
    socket = refl;
    has_config = refl;
    pending = refl;
    drops_same = refl;
    extra = [];
    texts = refl;
  }

  -- Only the world differs, and it has attempted the same texts.
  pub Same-world :
      (c : Connection o) (w : o.World)
      → o.attempted w ≡ o.attempted c.world
      → Same c (record c { world = w })
  Same-world c w e = record {
    socket = refl;
    has_config = refl;
    pending = refl;
    drops_same = refl;
    extra = [];
    texts = e;
  }

  pub Same-trans : (a b c : Connection o) → Same a b → Same b c → Same a c
  Same-trans a b c f g = record {
    socket = g.socket ∙ f.socket;
    has_config = g.has_config ∙ f.has_config;
    pending = g.pending ∙ f.pending;
    drops_same = g.drops_same ∙ f.drops_same;
    extra = g.extra ++ f.extra;
    texts =
        g.texts
        ∙ ap (λ x. g.extra ++ x) f.texts
        ∙ sym (append_assoc g.extra f.extra (o.attempted a.world));
  }

  note_activity-Same : (id : Option (List ℕ)) (c : Connection o) → Same c (note_activity o id c).1
  unfolding note_activity drops
  note_activity-Same none c = Same-refl c
  note_activity-Same (some id) c =
      if_both (λ (c' : Connection o). Same c c') (bytes_eq c.snapshot.current_activity_id id) _ _
        (λ e. Same-refl c)
        (λ e. record {
          socket = refl;
          has_config = refl;
          pending = refl;
          drops_same = refl;
          extra = [];
          texts = refl;
        })

  probe_answer-Same : (r : Option (List ℕ) × Connection o) → Same r.1 (probe_answer o r).1
  unfolding probe_answer
  probe_answer-Same (none, c) = Same-refl c
  probe_answer-Same (some text, c) = note_activity-Same (probed_activity o text) c

  pub stopped-Same : (c : Connection o) → Same c (stopped o c).1
  unfolding stopped
  stopped-Same c = Same-world c (o.stop_requested c.world).1 (o.attempted-stop_requested c.world)

  receive-Same : (n : ℕ) (c : Connection o) → Same c (receive o n c).1
  unfolding receive
  receive-Same n c = Same-world c (o.receive_text n c.world).1 (o.attempted-receive_text n c.world)

  probe_sent-Same : (r : Bool × Connection o) → Same r.1 (probe_sent o r).1
  unfolding probe_sent
  probe_sent-Same (false, c) = Same-refl c
  probe_sent-Same (true, c) =
      let c₁ = (stopped o c).1 in
      let c₂ = (receive o liveness_probe_timeout_ms c₁).1 in
      if_both (λ (r : ActivityFetchResult × Connection o). Same c r.1) (stopped o c).0 _ _
        (λ e. stopped-Same c)
        (λ e. Same-trans c c₁ _ (stopped-Same c) (
          Same-trans c₁ c₂ _ (receive-Same liveness_probe_timeout_ms c₁)
            (probe_answer-Same (receive o liveness_probe_timeout_ms c₁))))

  drain-attempted : (n : ℕ) (w : o.World) → o.attempted (drain o n w) ≡ o.attempted w
  unfolding drain
  drain-attempted zero w = refl
  drain-attempted (suc n) w =
      let (message, w') = o.receive_text 0 w in
      if_both (λ (v : o.World). o.attempted v ≡ o.attempted w) (is_some message) _ _
        (λ e. drain-attempted n w' ∙ o.attempted-receive_text 0 w)
        (λ e. o.attempted-receive_text 0 w)

  pub drained-Same : (c : Connection o) → Same c (drain_stale_messages o c)
  unfolding drain_stale_messages
  drained-Same c =
      if_both (λ (c' : Connection o). Same c c') c.socket _ _
        (λ e. Same-world c _ (drain-attempted max_drain_iterations c.world)) (λ e. Same-refl c)

  pub fetch-Same : (c : Connection o) → Same c (fetch_current_activity o c).1
  unfolding fetch_current_activity send
  fetch-Same c =
      let c₁ = drain_stale_messages o c in
      let sent = send o (current_activity_request c₁.hub_id) c₁ in
      if_both (λ (r : ActivityFetchResult × Connection o). Same c r.1) (not c.socket) _ _
        (λ e. Same-refl c)
        (λ e. Same-trans c c₁ _ (drained-Same c) (
          Same-trans c₁ sent.1 _
            (record {
              socket = refl;
              has_config = refl;
              pending = refl;
              drops_same = refl;
              extra = o.dump (current_activity_request c₁.hub_id) ∷ [];
              texts = o.attempted-send_text (o.dump (current_activity_request c₁.hub_id)) c₁.world;
            })
            (probe_sent-Same sent)))
