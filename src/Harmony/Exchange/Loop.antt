-- ===== src/Harmony/Exchange/Loop.antt =====
-- What the loop over a batch of commands does.
use homedeck.Base.{
  ℕ, ◌≡◌, refl, ◌∙◌, ap, Bool, true, false, not, ◌&&◌, ◌||◌, Option, none, some, List, [], ◌∷◌,
  arith, if◌then◌else◌, if_both, suc,
}
use homedeck.Json.{Json}
use homedeck.Harmony.Link.{Outside, Connection, PendingCommand, send, stopped, is_release}
use homedeck.Harmony.Exchange.Probe.{drops}
use homedeck.Harmony.Exchange.{
  Batch, send_one, attempt_request, attempt, send_each, request_of, is_stale, is_start,
}

-- The commands that are not dropped for their age: releases never are.
pub due : ℕ → ℕ → PendingCommand → Bool
due max_age now c = is_release c || not (is_stale max_age now c)

pub any_stale : ℕ → ℕ → List PendingCommand → Bool
unfolding due
any_stale max_age now [] = false
any_stale max_age now (c ∷ cs) = not (due max_age now c) || any_stale max_age now cs

push : (o : Outside) → Option Json → List (List ℕ) → List (List ℕ)
push o none log = log
push o (some request) log = o.dump request ∷ log

module _ (o : Outside) (hub_id : List ℕ) (max_age now : ℕ) where
  -- The texts of the due commands, in their order, on top of a log.
  pub log_due : List PendingCommand → List (List ℕ) → List (List ℕ)
  unfolding push due
  log_due [] log = log
  log_due (c ∷ cs) log =
      let next = log_due cs (push o (request_of hub_id c) log) in
      let rest = log_due cs log in if due max_age now c then next else rest

module _ (o : Outside) (max_age now : ℕ) where
  -- What one command does to the batch.
  record One (p : PendingCommand) (b : Batch) (c : Connection o) (r : Batch × Connection o)
      : Type 0 where
    same_id : r.1.hub_id ≡ c.hub_id
    quiet : r.1.published ≡ c.published
    failed : r.0.transport_failed ≡ false → b.transport_failed ≡ false
    stale : r.0.dropped_stale_command ≡ (b.dropped_stale_command || not (due max_age now p))
    texts :
        r.0.transport_failed ≡ false
        → o.attempted r.1.world ≡ (
            if due max_age now p
            then push o (request_of c.hub_id p) (o.attempted c.world)
            else o.attempted c.world)

  attempt_request-One :
      (p : PendingCommand) (q : Option Json) (b : Batch) (c : Connection o)
      → due max_age now p ≡ true
      → request_of c.hub_id p ≡ q
      → One p b c (attempt_request o q (is_start p) b c)
  unfolding attempt_request send push
  attempt_request-One p none b c d e = record {
    same_id = refl;
    quiet = refl;
    failed = λ f. f;
    stale = ground (arith, d);
    texts = λ f. rw (d, e) refl;
  }
  attempt_request-One p (some request) b c d e = record {
    same_id = refl;
    quiet = refl;
    failed = λ f. ground arith;
    stale = ground (arith, d);
    texts = λ f. rw (d, e) (o.attempted-send_text (o.dump request) c.world);
  }

  send_one-One :
      (p : PendingCommand) (b : Batch) (c : Connection o) → One p b c (send_one o max_age now p b c)
  unfolding send_one attempt due
  send_one-One p b c =
      if_both (One p b c) (not (is_release p) && is_stale max_age now p) _ _
        (λ e. record {
          same_id = refl;
          quiet = refl;
          failed = λ f. f;
          stale = ground arith;
          texts = λ f. ground arith;
        })
        (λ e.
          if_both (One p b c) (b.transport_failed && not (is_release p)) _ _
            (λ e'. record {
              same_id = refl;
              quiet = refl;
              failed = λ f. f;
              stale = ground arith;
              texts = λ f. absurd (ground arith);
            })
            (λ e'. attempt_request-One p (request_of c.hub_id p) b c (ground arith) refl))

  -- What the whole loop does, if no stop ends it.
  pub record Whole (cs : List PendingCommand) (b : Batch) (c : Connection o)
      (r : Option Batch × Connection o) (b' : Batch) : Type 0 where
    pub failed : b'.transport_failed ≡ false → b.transport_failed ≡ false
    pub stale : b'.dropped_stale_command ≡ (b.dropped_stale_command || any_stale max_age now cs)
    pub texts :
        b'.transport_failed ≡ false
        → o.attempted r.1.world ≡ log_due o c.hub_id max_age now cs (o.attempted c.world)
    pub quiet : r.1.published ≡ c.published

  if_apply :
      {A B : Type 0} (f : A → B) (b : Bool) (x y : A)
      → f (if b then x else y) ≡ (if b then f x else f y)
  if_apply f true x y = refl
  if_apply f false x y = refl

  Whole-cons :
      (p : PendingCommand) (ps : List PendingCommand) (b b' : Batch) (c c₁ : Connection o)
      (r₂ : Batch × Connection o) (r : Option Batch × Connection o)
      → c₁.hub_id ≡ c.hub_id
      → c₁.published ≡ c.published
      → o.attempted c₁.world ≡ o.attempted c.world
      → One p b c₁ r₂
      → Whole ps r₂.0 r₂.1 r b'
      → Whole (p ∷ ps) b c r b'
  unfolding log_due any_stale
  Whole-cons p ps b b' c c₁ r₂ r id quiet same one rest = record {
    failed = λ f. one.failed (rest.failed f);
    stale = ground (arith, one.stale, rest.stale);
    texts = λ f.
        rw (rest.texts f, one.same_id, one.texts (rest.failed f), id, same)
          (if_apply (log_due o c.hub_id max_age now ps) (due max_age now p) _ _);
    quiet = rest.quiet ∙ one.quiet ∙ quiet;
  }

  pub send_each-Whole :
      (cs : List PendingCommand) (b b' : Batch) (c : Connection o)
      → (send_each o max_age now cs b c).0 ≡ some b'
      → Whole cs b c (send_each o max_age now cs b c) b'
  unfolding send_each log_due any_stale stopped
  send_each-Whole [] b b' c e = record {
    failed = λ f. ground arith;
    stale = ground arith;
    texts = λ f. refl;
    quiet = refl;
  }
  send_each-Whole (p ∷ ps) b b' c e =
      let (stop, c₁) = stopped o c in
      let (b₂, c₂) = send_one o max_age now p b c₁ in
      if_both (λ (r : Option Batch × Connection o). r.0 ≡ some b' → Whole (p ∷ ps) b c r b') stop _
        _ (λ s e'. absurd (cc e'))
        (λ s e'.
          Whole-cons p ps b b' c c₁ (b₂, c₂) _ refl refl (o.attempted-stop_requested c.world)
            (send_one-One p b c₁) (send_each-Whole ps b₂ b' c₂ e'))
        e

  -- A stop is reported once.
  pub send_each-stopped :
      (cs : List PendingCommand) (b : Batch) (c : Connection o)
      → (send_each o max_age now cs b c).0 ≡ none
      → drops (send_each o max_age now cs b c).1.published ≡ suc (drops c.published)
  unfolding send_each drops stopped
  send_each-stopped [] b c e = absurd (cc e)
  send_each-stopped (p ∷ ps) b c e =
      let (stop, c₁) = stopped o c in
      let (b₂, c₂) = send_one o max_age now p b c₁ in
      let one = send_one-One p b c₁ in
      if_both
        (λ (r : Option Batch × Connection o).
          r.0 ≡ none → drops r.1.published ≡ suc (drops c.published))
        stop _ _ (λ s e'. refl)
        (λ s e'. send_each-stopped ps b₂ c₂ e' ∙ ap (λ x. suc (drops x)) one.quiet) e
