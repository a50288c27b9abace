-- ===== src/Harmony/Reconnect/Fresh.antt =====
-- A connection to an address that is no longer the stored one does not last.
use homedeck.Base.{
  ℕ, ◌+◌, ◌-◌, ◌<◌, ◌≢◌, ◌≡◌, refl, sym, subst, inl, inr, Bool, true, false, not, ◌&&◌, Option,
  some, List, arith, is_empty, if_both,
}
use homedeck.Harmony.Link.{PendingCommand, Outside, Connection, enqueue_command, stopped}
use homedeck.Harmony.Reconnect.{
  wake_reason, Phase, top, fetching, settling, serving, finished, Loop, leave, after_commands,
  woken, serve, advance,
}
use homedeck.Harmony.Reconnect.Rounds.{AtPhase, Noticed, IsFresh, advance-IsFresh}

module _ (o : Outside) (max_age : ℕ) where
  -- The loop goes on, or another thread stores an address and triggers behind it, triggers for another
  -- reason, or queues a command.
  pub data Turn (l : Loop o) : Loop o → Type 0 where
    loop_runs : (now : ℕ) → Turn l (advance o max_age now l.phase l)
    address_stored :
        (saved : Option (List ℕ)) → Turn l (record l { saved = saved; due = l.due + 1 })
    writer_triggers : 0 < l.due → Turn l (record l { requested = true; due = l.due - 1 })
    trigger_reconnect : Turn l (record l { requested = true })
    command_queued :
        (command : PendingCommand)
        → Turn l (record l { connection = enqueue_command o command l.connection })

  pub data Turns (l : Loop o) : Loop o → Type 0 where
    here : Turns l l
    next : {m n : Loop o} → Turns l m → Turn m n → Turns l n

  -- What other threads do keeps it.
  AtPhase-kept :
      (p : Phase) (l m : Loop o)
      → ((hub_host : List ℕ) → Noticed o max_age hub_host l → Noticed o max_age hub_host m)
      → AtPhase o max_age p l
      → AtPhase o max_age p m
  AtPhase-kept top l m f h = tt
  AtPhase-kept (fetching hub_host) l m f h = f hub_host h
  AtPhase-kept (settling hub_host) l m f h = f hub_host h
  AtPhase-kept (serving hub_host) l m f h = f hub_host h
  AtPhase-kept finished l m f h = tt

  Turn-IsFresh : (l m : Loop o) → Turn l m → IsFresh o max_age l → IsFresh o max_age m
  Turn-IsFresh l m (loop_runs now) h = advance-IsFresh o max_age now l.phase l refl h
  Turn-IsFresh l m (address_stored saved) h =
      AtPhase-kept l.phase l (record l { saved = saved; due = l.due + 1 })
        (λ hub_host n. inr (inr (omega arith))) h
  Turn-IsFresh l m (writer_triggers d) h =
      AtPhase-kept l.phase l (record l { requested = true; due = l.due - 1 })
        (λ hub_host n. inr (inl refl)) h
  Turn-IsFresh l m trigger_reconnect h =
      AtPhase-kept l.phase l (record l { requested = true }) (λ hub_host n. inr (inl refl)) h
  Turn-IsFresh l m (command_queued command) h =
      AtPhase-kept l.phase l (record l { connection = enqueue_command o command l.connection })
        (λ hub_host n. n) h

  Turns-IsFresh : (l m : Loop o) → IsFresh o max_age l → Turns l m → IsFresh o max_age m
  Turns-IsFresh l m h here = h
  Turns-IsFresh l m h (next turns turn) = Turn-IsFresh _ _ turn (Turns-IsFresh l _ h turns)

  woken_triggered :
      (now : ℕ) (stop work_pending : Bool) (c : Connection o) (l : Loop o)
      → (woken o max_age now (wake_reason stop true work_pending) c l).phase ≡ top
  unfolding woken wake_reason after_commands leave
  woken_triggered now true work_pending c l = refl
  woken_triggered now false work_pending c l = refl

  serve_triggered :
      (now : ℕ) (l : Loop o) → l.requested ≡ true → (serve o max_age now l).phase ≡ top
  unfolding serve leave
  serve_triggered now l r =
      let (stop, c) = stopped o l.connection in
      let (stop', c') = stopped o c in
      if_both (λ (m : Loop o). m.phase ≡ top) stop _ _ (λ wanted. refl)
        (λ go.
          subst
            (λ b.
              (woken o max_age now (wake_reason stop' b (not (is_empty c'.pending))) c'
                (record l { requested = l.requested && stop' })).phase
              ≡ top)
            (sym r) (woken_triggered now stop' (not (is_empty c'.pending)) c' _))

  -- However the loop and the other threads interleave, from its start on, or from a moment at which its
  -- address is the stored one: where the loop serves a
  -- connection to an address that is not the stored one, and every thread that stored an address has
  -- triggered a reconnect since, the next round leaves the connection and goes back to reading the
  -- address. A save during the connect is not lost.
  pub stale_address_is_left :
      (l m : Loop o) (hub_host : List ℕ) (now : ℕ)
      → IsFresh o max_age l
      → Turns l m
      → m.phase ≡ serving hub_host
      → m.saved ≢ some hub_host
      → m.due ≡ 0
      → (advance o max_age now m.phase m).phase ≡ top
  unfolding advance
  stale_address_is_left l m hub_host now e turns serves stale none_due =
      elim (subst (λ p. AtPhase o max_age p m) serves (Turns-IsFresh l m e turns)) [
        | inl same ↦ absurd (stale same)
        | inr (inl r) ↦
            subst (λ p. (advance o max_age now p m).phase ≡ top) (sym serves)
              (serve_triggered now m r)
        | inr (inr d) ↦ absurd (omega (arith, d, none_due))
      ]
