-- ===== src/Kodi/Sound/Loop.antt =====
-- However the connection loop goes, the snapshot stays sound.
use homedeck.Base.{ℕ, ◌+◌, ◌*◌, ◌||◌, Bool, true, false, Option, none, some, [], if_both, leb}
use homedeck.Base.Text.{codes}
use homedeck.Harmony.Backoff.{reset_attempts}
use homedeck.Harmony.Reconnect.{WakeReason, stop_requested, triggered, command_pending, timeout}
use homedeck.Kodi.Playing.{idle}
use homedeck.Kodi.Target.{Target, Resolved, resolve_target, has_manual_host}
use homedeck.Kodi.Client.{
  Outside, Client, PendingCommand, LibraryRequest, disconnected, connecting, connected, error,
  set_state, set_library_busy, stopped, read_clock, enqueue_command, enqueue_library_request,
}
use homedeck.Kodi.Notice.{pump_notifications}
use homedeck.Kodi.Commands.{send_pending_commands}
use homedeck.Kodi.Call.{nanos_per_ms}
use homedeck.Kodi.Poll.{reconcile_poll}
use homedeck.Kodi.Library.{Limits, send_pending_library_requests}
use homedeck.Kodi.Loop.{
  Loop, Phase, top, serving, finished, take_resolved, browse_for, resolve, prime, prime_unless,
  open_socket, connect_and_prime, close_socket, rest, no_target, connect_failed, after_connect,
  connect_to, begin_iteration, leave, polled, poll_if_due, after_requests, after_commands, woken,
  serve, advance,
}
use homedeck.Kodi.Sound.{
  Sound, idle-IsPlayable, IsSound-playing, set_state-Sound, set_library_busy-Sound,
}
use homedeck.Kodi.Sound.Notice.{pump_notifications-Sound}
use homedeck.Kodi.Sound.Batch.{send_pending_commands-Sound}
use homedeck.Kodi.Sound.Listing.{send_pending_library_requests-Sound}
use homedeck.Kodi.Sound.Poll.{reconcile_poll-Sound}

module _ (o : Outside) (l : Limits) where
  take_resolved-Sound :
      (r : Resolved) (c : Client o) → Sound o c → Sound o (take_resolved o l r c).1
  unfolding take_resolved
  take_resolved-Sound r c h = record {
    volume_bounded = h.volume_bounded;
    playable = h.playable;
    mirrored = h.mirrored;
  }

  resolve-Sound : (c : Client o) → Sound o c → Sound o (resolve o l c).1
  unfolding resolve browse_for
  resolve-Sound c h =
      let r = o.get_setting (codes "host") c.world in
      let b = o.browse r.1 in
      let u = o.get_setting (codes "instance_uuid") b.1 in
      if_both (λ (r : Option Target × Client o). Sound o r.1) (has_manual_host r.0) _ _
        (λ e. take_resolved-Sound (resolve_target r.0 none []) (record c { world = r.1 }) h)
        (λ e. take_resolved-Sound (resolve_target r.0 u.0 b.0) (record c { world = u.1 }) h)

  prime-Sound : (c : Client o) → Sound o c → Sound o (prime o l c).1
  unfolding prime
  prime-Sound c h =
      reconcile_poll-Sound o l.library_busy_after false
        (record c {
          snapshot = record c.snapshot { now_playing = idle };
          identity_from_notification = false;
        })
        (IsSound-playing c.library_busy c.snapshot idle h idle-IsPlayable)

  prime_unless-Sound : (r : Bool × Client o) → Sound o r.1 → Sound o (prime_unless o l r).1
  unfolding prime_unless
  prime_unless-Sound (stop, c) h =
      if_both (λ (r : Bool × Client o). Sound o r.1) stop _ _ (λ e. h) (λ e. prime-Sound c h)

  connect_and_prime-Sound :
      (target : Target) (c : Client o) → Sound o c → Sound o (connect_and_prime o l target c).1
  unfolding connect_and_prime open_socket stopped
  connect_and_prime-Sound target c h =
      let r = open_socket o l target c in
      if_both (λ (r : Bool × Client o). Sound o r.1) r.0 _ _
        (λ e. prime_unless-Sound (stopped o r.1) h) (λ e. h)

  close_socket-Sound : (c : Client o) → Sound o c → Sound o (close_socket o l c)
  unfolding close_socket
  close_socket-Sound c h = if_both (Sound o) c.socket _ _ (λ e. h) (λ e. h)

  -- The loop's client has a sound snapshot.
  abbrev pub Steady : Loop o l → Type 0
  Steady s = Sound o s.client

  connect_failed-Sound : (c : Client o) (s : Loop o l) → Sound o c → Steady (connect_failed o l c s)
  unfolding connect_failed rest stopped
  connect_failed-Sound c s h =
      set_state-Sound o error (set_library_busy o false (close_socket o l c))
        (set_library_busy-Sound o false (close_socket o l c) (close_socket-Sound c h))

  after_connect-Sound :
      (r : Bool × Client o) (s : Loop o l) → Sound o r.1 → Steady (after_connect o l r s)
  unfolding after_connect read_clock
  after_connect-Sound (good, c) s h =
      if_both (λ (s : Loop o l). Steady s) good _ _ (λ e. set_state-Sound o connected c h)
        (λ e. connect_failed-Sound c s h)

  connect_to-Sound :
      (r : Option Target × Client o) (s : Loop o l) → Sound o r.1 → Steady (connect_to o l r s)
  unfolding connect_to no_target rest stopped
  connect_to-Sound (none, c) s h = set_state-Sound o disconnected c h
  connect_to-Sound (some target, c) s h =
      after_connect-Sound (connect_and_prime o l target (set_state o connecting c))
        (record s { no_target_backoff = reset_attempts s.no_target_backoff })
        (connect_and_prime-Sound target (set_state o connecting c)
          (set_state-Sound o connecting c h))

  begin_iteration-Sound : (s : Loop o l) → Steady s → Steady (begin_iteration o l s)
  unfolding begin_iteration stopped
  begin_iteration-Sound s h =
      let c = (stopped o s.client).1 in
      if_both (λ (s : Loop o l). Steady s) (stopped o s.client).0 _ _
        (λ e. set_state-Sound o disconnected c h)
        (λ e. connect_to-Sound (resolve o l c) s (resolve-Sound c h))

  leave-Sound : (c : Client o) (s : Loop o l) → Sound o c → Steady (leave o l c s)
  unfolding leave
  leave-Sound c s h = set_library_busy-Sound o false (close_socket o l c) (close_socket-Sound c h)

  polled-Sound : (r : Bool × Client o) (s : Loop o l) → Sound o r.1 → Steady (polled o l r s)
  unfolding polled read_clock
  polled-Sound (good, c) s h =
      if_both (λ (s : Loop o l). Steady s) good _ _ (λ e. h) (λ e. leave-Sound c s h)

  poll_if_due-Sound :
      (interval last : ℕ) (c : Client o) (s : Loop o l)
      → Sound o c
      → Steady (poll_if_due o l interval last c s)
  unfolding poll_if_due read_clock
  poll_if_due-Sound interval last c s h =
      let c' = record (read_clock o c).1 { needs_immediate_poll = false } in
      if_both (λ (s : Loop o l). Steady s)
        (c.needs_immediate_poll || leb (last + interval * nanos_per_ms) (read_clock o c).0) _ _
        (λ e.
          polled-Sound (reconcile_poll o l.library_busy_after true c') s
            (reconcile_poll-Sound o l.library_busy_after true c' h))
        (λ e. h)

  after_requests-Sound :
      (interval last : ℕ) (reason : WakeReason) (r : Bool × Client o) (s : Loop o l)
      → Sound o r.1
      → Steady (after_requests o l interval last reason r s)
  unfolding after_requests
  after_requests-Sound interval last reason (false, c) s h = leave-Sound c s h
  after_requests-Sound interval last timeout (true, c) s h = poll_if_due-Sound interval last c s h
  after_requests-Sound interval last command_pending (true, c) s h = h
  after_requests-Sound interval last stop_requested (true, c) s h = leave-Sound c s h
  after_requests-Sound interval last triggered (true, c) s h = leave-Sound c s h

  after_commands-Sound :
      (interval last : ℕ) (reason : WakeReason) (r : Bool × Client o) (s : Loop o l)
      → Sound o r.1
      → Steady (after_commands o l interval last reason r s)
  unfolding after_commands
  after_commands-Sound interval last reason (false, c) s h = leave-Sound c s h
  after_commands-Sound interval last reason (true, c) s h =
      after_requests-Sound interval last reason (send_pending_library_requests o l c) s
        (send_pending_library_requests-Sound o l c h)

  worked-Sound :
      (interval last : ℕ) (reason : WakeReason) (c : Client o) (s : Loop o l)
      → Sound o c
      → Steady (
          after_commands o l interval last reason
            (send_pending_commands o l.library_busy_after l.max_pending_command_age
              (pump_notifications o c))
            s)
  worked-Sound interval last reason c s h =
      after_commands-Sound interval last reason
        (send_pending_commands o l.library_busy_after l.max_pending_command_age
          (pump_notifications o c))
        s
        (send_pending_commands-Sound o l.library_busy_after l.max_pending_command_age
          (pump_notifications o c) (pump_notifications-Sound o c h))

  woken-Sound :
      (interval last : ℕ) (reason : WakeReason) (c : Client o) (s : Loop o l)
      → Sound o c
      → Steady (woken o l interval last reason c s)
  unfolding woken
  woken-Sound interval last stop_requested c s h = leave-Sound c s h
  woken-Sound interval last triggered c s h = worked-Sound interval last triggered c s h
  woken-Sound interval last command_pending c s h = worked-Sound interval last command_pending c s h
  woken-Sound interval last timeout c s h = worked-Sound interval last timeout c s h

  serve-Sound : (interval last : ℕ) (s : Loop o l) → Steady s → Steady (serve o l interval last s)
  unfolding serve stopped
  serve-Sound interval last s h =
      let c = (stopped o s.client).1 in
      let r = stopped o c in
      if_both (λ (s : Loop o l). Steady s) (stopped o s.client).0 _ _ (λ e. leave-Sound c s h)
        (λ e. woken-Sound interval last _ r.1 _ h)

  advance-Sound :
      (interval : ℕ) (phase : Phase) (s : Loop o l)
      → Steady s
      → Steady (advance o l interval phase s)
  unfolding advance
  advance-Sound interval top s h = begin_iteration-Sound s h
  advance-Sound interval (serving last) s h = serve-Sound interval last s h
  advance-Sound interval finished s h = h

  -- What the loop and the other threads do.
  pub data Step (interval : ℕ) (s : Loop o l) : Loop o l → Type 0 where
    advances : Step interval s (advance o l interval s.phase s)
    triggers : Step interval s (record s { requested = true })
    commands :
        (p : PendingCommand) → Step interval s (record s { client = enqueue_command o p s.client })
    requests :
        (r : LibraryRequest)
        → Step interval s (record s { client = enqueue_library_request o r s.client })

  pub data Reach (interval : ℕ) (s : Loop o l) : Loop o l → Type 0 where
    here : Reach interval s s
    next : {t u : Loop o l} → Reach interval s t → Step interval t u → Reach interval s u

  step-Sound : (interval : ℕ) {s t : Loop o l} → Step interval s t → Steady s → Steady t
  unfolding enqueue_command enqueue_library_request read_clock
  step-Sound interval {s = s} advances h = advance-Sound interval s.phase s h
  step-Sound interval triggers h = h
  step-Sound interval (commands p) h = h
  step-Sound interval (requests r) h = h

  -- However the loop, the commands and the requests of other threads follow each other, and whatever
  -- Kodi sends: the volume, the speed, the times, the season and the episode stay in their ranges,
  -- the state of playback goes with the speed, and the snapshot's busy flag is the loop's own.
  pub reachable-Steady : (interval : ℕ) {s t : Loop o l} → Reach interval s t → Steady s → Steady t
  reachable-Steady interval here h = h
  reachable-Steady interval (next r e) h = step-Sound interval e (reachable-Steady interval r h)
