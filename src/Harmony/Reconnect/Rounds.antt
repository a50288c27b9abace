-- ===== src/Harmony/Reconnect/Rounds.antt =====
-- The rounds of the loop, against the stored address.
use homedeck.Base.{
  ℕ, ◌<◌, ◌≡◌, refl, ◌∙◌, sym, ap, subst, ◌⊎◌, inl, inr, Bool, true, false, not, ◌&&◌, Option, none,
  some, List, Bool-cases, bytes_eq→eq, is_empty, if_both,
}
use mathlib.Core.Bool.{true≢false}
use homedeck.Harmony.Link.{Outside, Connection, stopped}
use homedeck.Harmony.Exchange.{
  ActivityFetchResult, ok, transport_failed, parse_failed, fetch_current_activity,
  send_pending_commands,
}
use homedeck.Harmony.Connect.{connect_and_fetch_config}
use homedeck.Harmony.Reconnect.{
  WakeReason, stop_requested, triggered, command_pending, timeout, wake_reason, Phase, top,
  fetching, settling, serving, finished, Loop, rest, shut_down, idle, prepare, read_address,
  begin_iteration, connect, same_address, settle, leave, probe, after_commands, woken, serve,
  advance,
}

same_saved :
    (hub_host : List ℕ) (saved : Option (List ℕ))
    → same_address hub_host saved ≡ true
    → saved ≡ some hub_host
unfolding same_address
same_saved hub_host none e = absurd (true≢false (sym e))
same_saved hub_host (some saved) e = ap some (bytes_eq→eq saved hub_host e)

module _ (o : Outside) (max_age : ℕ) where
  -- The address is the stored one, or a trigger is set, or will be.
  abbrev pub Noticed : List ℕ → Loop o → Type 0
  Noticed hub_host l = (l.saved ≡ some hub_host) ⊎ (l.requested ≡ true) ⊎ (0 < l.due)

  abbrev pub AtPhase : Phase → Loop o → Type 0
  AtPhase top l = Unit {0}
  AtPhase (fetching hub_host) l = Noticed hub_host l
  AtPhase (settling hub_host) l = Noticed hub_host l
  AtPhase (serving hub_host) l = Noticed hub_host l
  AtPhase finished l = Unit {0}

  abbrev pub IsFresh : Loop o → Type 0
  IsFresh l = AtPhase l.phase l

  settle-Noticed :
      (hub_host : List ℕ) (l : Loop o) → Noticed hub_host l → Noticed hub_host (settle o hub_host l)
  unfolding settle
  settle-Noticed hub_host l h = elim (Bool-cases (same_address hub_host l.saved)) [
    | inl same ↦ inl (same_saved hub_host l.saved same)
    | inr other ↦ elim h [
      | inl e ↦ inl e
      | inr (inl r) ↦ inr (inl (rw (r, other) refl))
      | inr (inr d) ↦ inr (inr d)
    ]
  ]

  connect-IsFresh :
      (hub_host : List ℕ) (l : Loop o) → Noticed hub_host l → IsFresh (connect o hub_host l)
  unfolding connect rest
  connect-IsFresh hub_host l h =
      if_both IsFresh (not (connect_and_fetch_config o hub_host l.connection).0) _ _ (λ e. tt)
        (λ e. h)

  read_address-IsFresh :
      (saved : Option (List ℕ)) (l : Loop o) → l.saved ≡ saved → IsFresh (read_address o saved l)
  unfolding read_address idle prepare rest
  read_address-IsFresh none l e = tt
  read_address-IsFresh (some hub_host) l e =
      if_both IsFresh (is_empty hub_host) _ _ (λ empty. tt) (λ full. inl e)

  begin_iteration-IsFresh : (l : Loop o) → IsFresh (begin_iteration o l)
  unfolding begin_iteration shut_down
  begin_iteration-IsFresh l =
      let (stop, c) = stopped o l.connection in
      if_both IsFresh stop _ _ (λ e. tt)
        (λ e. read_address-IsFresh l.saved (record l { connection = c }) refl)

  IsFresh-serving :
      (hub_host : List ℕ) (l : Loop o) → l.phase ≡ serving hub_host → Noticed hub_host l → IsFresh l
  IsFresh-serving hub_host l e h = subst (λ p. AtPhase p l) (sym e) h

  probe-IsFresh :
      (hub_host : List ℕ) (r : ActivityFetchResult × Connection o) (l : Loop o)
      → l.phase ≡ serving hub_host
      → Noticed hub_host l
      → IsFresh (probe o r l)
  unfolding probe leave
  probe-IsFresh hub_host (ok, c) l e h = IsFresh-serving hub_host (record l { connection = c }) e h
  probe-IsFresh hub_host (transport_failed, c) l e h = tt
  probe-IsFresh hub_host (parse_failed, c) l e h = tt

  after_commands-IsFresh :
      (hub_host : List ℕ) (reason : WakeReason) (r : Bool × Connection o) (l : Loop o)
      → l.phase ≡ serving hub_host
      → Noticed hub_host l
      → IsFresh (after_commands o reason r l)
  unfolding after_commands leave
  after_commands-IsFresh hub_host stop_requested r l e h = tt
  after_commands-IsFresh hub_host triggered r l e h = tt
  after_commands-IsFresh hub_host command_pending (sent, c) l e h =
      if_both IsFresh (not sent) _ _ (λ lost. tt)
        (λ there. IsFresh-serving hub_host (record l { connection = c }) e h)
  after_commands-IsFresh hub_host timeout (sent, c) l e h =
      if_both IsFresh (not sent) _ _ (λ lost. tt)
        (λ there. probe-IsFresh hub_host (fetch_current_activity o c) l e h)

  -- Without a stop or a trigger, the wait used nothing up.
  still-Noticed :
      (hub_host : List ℕ) (l : Loop o)
      → l.requested ≡ false
      → Noticed hub_host l
      → Noticed hub_host (record l { requested = false })
  still-Noticed hub_host l e (inl same) = inl same
  still-Noticed hub_host l e (inr (inl r)) = absurd (true≢false (sym r ∙ e))
  still-Noticed hub_host l e (inr (inr d)) = inr (inr d)

  woken-IsFresh :
      (now : ℕ) (hub_host : List ℕ) (stop requested work_pending : Bool) (c : Connection o)
      (l : Loop o)
      → l.phase ≡ serving hub_host
      → Noticed hub_host l
      → l.requested ≡ requested
      → IsFresh (
          woken o max_age now
            (wake_reason stop requested work_pending)
            c
            (record l { requested = requested && stop }))
  unfolding woken wake_reason after_commands leave
  woken-IsFresh now hub_host true requested work_pending c l e h r = tt
  woken-IsFresh now hub_host false true work_pending c l e h r = tt
  woken-IsFresh now hub_host false false true c l e h r =
      after_commands-IsFresh hub_host command_pending (send_pending_commands o max_age now c)
        (record l { requested = false }) e (still-Noticed hub_host l r h)
  woken-IsFresh now hub_host false false false c l e h r =
      after_commands-IsFresh hub_host timeout (send_pending_commands o max_age now c)
        (record l { requested = false }) e (still-Noticed hub_host l r h)

  serve-IsFresh :
      (now : ℕ) (hub_host : List ℕ) (l : Loop o)
      → l.phase ≡ serving hub_host
      → Noticed hub_host l
      → IsFresh (serve o max_age now l)
  unfolding serve leave
  serve-IsFresh now hub_host l e h =
      let (stop, c) = stopped o l.connection in
      let (stop', c') = stopped o c in
      if_both IsFresh stop _ _ (λ wanted. tt)
        (λ go.
          woken-IsFresh now hub_host stop' l.requested (not (is_empty c'.pending)) c' l e h refl)

  pub advance-IsFresh :
      (now : ℕ) (p : Phase) (l : Loop o)
      → l.phase ≡ p
      → AtPhase p l
      → IsFresh (advance o max_age now p l)
  unfolding advance settle
  advance-IsFresh now top l e h = begin_iteration-IsFresh l
  advance-IsFresh now (fetching hub_host) l e h = connect-IsFresh hub_host l h
  advance-IsFresh now (settling hub_host) l e h = settle-Noticed hub_host l h
  advance-IsFresh now (serving hub_host) l e h = serve-IsFresh now hub_host l e h
  advance-IsFresh now finished l e h = subst (λ p. AtPhase p l) (sym e) tt
