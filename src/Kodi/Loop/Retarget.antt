-- ===== src/Kodi/Loop/Retarget.antt =====
-- A reconnect that is asked for leads back to where the target is resolved.
use homedeck.Base.{
  ℕ, ◌≡◌, refl, Bool, true, false, ◌&&◌, Option, none, some, if_both, arith, inl, inr, ◌⊎◌,
}
use homedeck.Harmony.Reconnect.{triggered, wake_reason}
use homedeck.Harmony.Backoff.{reset_attempts}
use homedeck.Kodi.Target.{Target}
use homedeck.Kodi.Client.{Outside, Client, connecting, set_state, stopped}
use homedeck.Kodi.Commands.{send_pending_commands}
use homedeck.Kodi.Notice.{pump_notifications}
use homedeck.Kodi.Library.{Limits, send_pending_library_requests}
use homedeck.Kodi.Loop.{
  Loop, Phase, top, serving, finished, leave, after_requests, after_commands, woken, serve, advance,
  begin_iteration, connect_to, connect_failed, connect_and_prime, after_connect, no_target, rest,
  resolve,
}

module _ (o : Outside) (l : Limits) where
  left : (c : Client o) (s : Loop o l) → (leave o l c s).phase ≡ top
  unfolding leave
  left c s = refl

  requests_left :
      (interval last : ℕ) (r : Bool × Client o) (s : Loop o l)
      → (after_requests o l interval last triggered r s).phase ≡ top
  unfolding after_requests
  requests_left interval last (false, c) s = left c s
  requests_left interval last (true, c) s = left c s

  commands_left :
      (interval last : ℕ) (r : Bool × Client o) (s : Loop o l)
      → (after_commands o l interval last triggered r s).phase ≡ top
  unfolding after_commands
  commands_left interval last (false, c) s = left c s
  commands_left interval last (true, c) s =
      requests_left interval last (send_pending_library_requests o l c) s

  woken_left :
      (interval last : ℕ) (stop requested work : Bool) (c : Client o) (s : Loop o l)
      → requested ≡ true
      → (woken o l interval last (wake_reason stop requested work) c s).phase ≡ top
  unfolding woken wake_reason
  woken_left interval last true requested work c s h = left c s
  woken_left interval last false true work c s h =
      commands_left interval last
        (send_pending_commands o l.library_busy_after l.max_pending_command_age
          (pump_notifications o c))
        s
  woken_left interval last false false work c s h = absurd (ground arith)

  serve_left :
      (interval last : ℕ) (s : Loop o l)
      → s.requested ≡ true
      → (serve o l interval last s).phase ≡ top
  unfolding serve
  serve_left interval last s h =
      let r = stopped o (stopped o s.client).1 in
      if_both (λ (s' : Loop o l). s'.phase ≡ top) (stopped o s.client).0 _ _
        (λ e. left (stopped o s.client).1 s)
        (λ e.
          woken_left interval last r.0 s.requested _ r.1
            (record s { requested = s.requested && r.0 }) h)

  -- The wish is still open, or the loop stands where it resolves the target.
  abbrev pub IsHeeded : Loop o l → Type 0
  IsHeeded s = (s.requested ≡ true) ⊎ (s.phase ≡ top)

  connect_failed-IsHeeded : (c : Client o) (s : Loop o l) → IsHeeded (connect_failed o l c s)
  unfolding connect_failed rest
  connect_failed-IsHeeded c s = inr refl

  connect_to-IsHeeded :
      (r : Option Target × Client o) (s : Loop o l)
      → s.requested ≡ true
      → IsHeeded (connect_to o l r s)
  unfolding connect_to no_target rest after_connect
  connect_to-IsHeeded (none, c) s h = inr refl
  connect_to-IsHeeded (some target, c) s h =
      let r = connect_and_prime o l target (set_state o connecting c) in
      if_both IsHeeded r.0 _ _ (λ e. inl h)
        (λ e.
          connect_failed-IsHeeded r.1
            (record s { no_target_backoff = reset_attempts s.no_target_backoff }))

  begin_iteration-IsHeeded : (s : Loop o l) → s.requested ≡ true → IsHeeded (begin_iteration o l s)
  unfolding begin_iteration
  begin_iteration-IsHeeded s h =
      if_both IsHeeded (stopped o s.client).0 _ _ (λ e. inl h)
        (λ e. connect_to-IsHeeded (resolve o l (stopped o s.client).1) s h)

  -- A reconnect that was asked for is never forgotten: behind each step of the loop it is still open,
  -- or the loop stands where it resolves the target again; and a connection is left in its next
  -- round, whatever Kodi and the queues hold.
  pub advance-IsHeeded :
      (interval last : ℕ) (phase : Phase) (s : Loop o l)
      → s.requested ≡ true
      → IsHeeded (advance o l interval phase s) × ((serve o l interval last s).phase ≡ top)
  unfolding advance
  advance-IsHeeded interval last top s h =
      (begin_iteration-IsHeeded s h, serve_left interval last s h)
  advance-IsHeeded interval last (serving since) s h =
      (inr (serve_left interval since s h), serve_left interval last s h)
  advance-IsHeeded interval last finished s h = (inl h, serve_left interval last s h)
