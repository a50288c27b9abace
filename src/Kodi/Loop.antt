-- ===== src/Kodi/Loop.antt =====
-- `ConnectionLoop`, `ResolveTarget` and `ConnectAndPrime` of src/core/kodi_client.cpp, with the wait of
-- src/core/connection_wake.h. Each round of a loop is one step.
pub mod Retarget
use homedeck.Base.{
  ℕ, ◌+◌, ◌*◌, ◌&&◌, ◌||◌, Bool, true, false, not, Option, none, some, List, [], if◌then◌else◌,
  is_empty, leb,
}
use homedeck.Base.Text.{codes}
use homedeck.Harmony.Backoff.{RetryBackoff, next_delay, reset_attempts}
use homedeck.Harmony.Reconnect.{WakeReason, stop_requested, command_pending, timeout, wake_reason}
use homedeck.Kodi.Playing.{idle}
use homedeck.Kodi.Target.{Target, Resolved, resolve_target, has_manual_host, web_socket_url}
use homedeck.Kodi.Client.{
  Outside, Client, disconnected, connecting, connected, error, set_snapshot, set_state,
  set_library_busy, stopped, read_clock,
}
use homedeck.Kodi.Notice.{pump_notifications}
use homedeck.Kodi.Call.{nanos_per_ms}
use homedeck.Kodi.Commands.{send_pending_commands}
use homedeck.Kodi.Poll.{reconcile_poll}
use homedeck.Kodi.Library.{Limits, send_pending_library_requests}

-- Where the loop stands: before it resolves the target, or with a connection and the time of the
-- last poll.
pub data Phase : Type 0 where
  top : Phase
  serving : ℕ → Phase
  finished : Phase

module _ (o : Outside) (l : Limits) where
  pub record Loop : Type 0 where
    pub client : Client o
    pub requested : Bool
    pub backoff : RetryBackoff
    pub no_target_backoff : RetryBackoff
    pub phase : Phase

  unfoldable pub take_resolved : Resolved → Client o → Option Target × Client o
  take_resolved r c = (
    r.target,
    set_snapshot o
        (record c.snapshot {
          resolved_host = r.resolved_host;
          target_configured = r.target_configured;
          selected_uuid = r.selected_uuid;
          discovered = r.discovered;
        })
        c,
  )

  unfoldable pub browse_for : Option (List ℕ) → Client o → Option Target × Client o
  unfolding take_resolved resolve_target
  browse_for saved_host c =
      let (browsed, w) = o.browse c.world in
      let (saved_uuid, w') = o.get_setting (codes "instance_uuid") w in
      take_resolved (resolve_target saved_host saved_uuid browsed) (record c { world = w' })

  unfoldable pub resolve : Client o → Option Target × Client o
  unfolding browse_for take_resolved resolve_target has_manual_host
  resolve c =
      let (saved_host, w) = o.get_setting (codes "host") c.world in
      let c' = record c { world = w } in
      if has_manual_host saved_host
      then take_resolved (resolve_target saved_host none []) c'
      else browse_for saved_host c'

  unfoldable pub prime : Client o → Bool × Client o
  unfolding reconcile_poll
  prime c = reconcile_poll o l.library_busy_after false (record c {
    snapshot = record c.snapshot { now_playing = idle };
    identity_from_notification = false;
  })

  unfoldable pub prime_unless : Bool × Client o → Bool × Client o
  unfolding prime
  prime_unless (stop, c) = if stop then (false, c) else prime c

  unfoldable pub open_socket : Target → Client o → Bool × Client o
  unfolding web_socket_url
  open_socket target c =
      let (good, w) = o.connect (web_socket_url target.host target.port) c.world in
      (good, record c { world = w; socket = true })

  unfoldable pub connect_and_prime : Target → Client o → Bool × Client o
  unfolding open_socket prime_unless stopped
  connect_and_prime target c =
      let (good, c') = open_socket target c in
      if good then prime_unless (stopped o c') else (false, c')

  unfoldable pub close_socket : Client o → Client o
  close_socket c = if c.socket then record c { world = o.close c.world; socket = false } else c

  -- A wait without commands to watch, which may use up a trigger.
  unfoldable pub rest : Loop → Loop
  unfolding stopped
  rest s =
      let (stop, c) = stopped o s.client in record s { client = c; requested = s.requested && stop }

  unfoldable pub no_target : Loop → Loop
  unfolding rest set_state next_delay
  no_target s = rest (record s {
    client = set_state o disconnected s.client;
    no_target_backoff = (next_delay s.no_target_backoff).1;
    phase = top;
  })

  unfoldable pub connect_failed : Client o → Loop → Loop
  unfolding rest set_state set_library_busy close_socket next_delay
  connect_failed c s = rest (record s {
    client = set_state o error (set_library_busy o false (close_socket c));
    backoff = (next_delay s.backoff).1;
    phase = top;
  })

  unfoldable pub after_connect : Bool × Client o → Loop → Loop
  unfolding connect_failed set_state read_clock reset_attempts
  after_connect (good, c) s =
      let (now, c') = read_clock o (set_state o connected c) in
      if good
      then record s { client = c'; backoff = reset_attempts s.backoff; phase = serving now }
      else connect_failed c s

  unfoldable pub connect_to : Option Target × Client o → Loop → Loop
  unfolding no_target after_connect connect_and_prime set_state reset_attempts
  connect_to (none, c) s = no_target (record s { client = c })
  connect_to (some target, c) s =
      after_connect (connect_and_prime target (set_state o connecting c))
        (record s { no_target_backoff = reset_attempts s.no_target_backoff })

  unfoldable pub begin_iteration : Loop → Loop
  unfolding connect_to resolve stopped set_state
  begin_iteration s =
      let (stop, c) = stopped o s.client in
      if stop
      then record s { client = set_state o disconnected c; phase = finished }
      else connect_to (resolve c) s

  -- The connection is left.
  unfoldable pub leave : Client o → Loop → Loop
  unfolding close_socket set_library_busy
  leave c s = record s { client = set_library_busy o false (close_socket c); phase = top }

  unfoldable pub polled : Bool × Client o → Loop → Loop
  unfolding leave read_clock
  polled (good, c) s =
      let (now, c') = read_clock o c in
      if good then record s { client = c'; phase = serving now } else leave c s

  unfoldable pub poll_if_due : ℕ → ℕ → Client o → Loop → Loop
  unfolding polled reconcile_poll read_clock
  poll_if_due reconcile_interval last_reconcile c s =
      let (now, c') = read_clock o c in
      if c'.needs_immediate_poll || leb (last_reconcile + reconcile_interval * nanos_per_ms) now
      then polled
          (reconcile_poll o l.library_busy_after true (record c' { needs_immediate_poll = false }))
          s
      else record s { client = c' }

  unfoldable pub after_requests : ℕ → ℕ → WakeReason → Bool × Client o → Loop → Loop
  unfolding leave poll_if_due
  after_requests reconcile_interval last_reconcile reason (false, c) s = leave c s
  after_requests reconcile_interval last_reconcile timeout (true, c) s =
      poll_if_due reconcile_interval last_reconcile c s
  after_requests reconcile_interval last_reconcile command_pending (true, c) s = record s {
    client = c;
  }
  after_requests reconcile_interval last_reconcile reason (true, c) s = leave c s

  unfoldable pub after_commands : ℕ → ℕ → WakeReason → Bool × Client o → Loop → Loop
  unfolding leave after_requests send_pending_library_requests
  after_commands reconcile_interval last_reconcile reason (false, c) s = leave c s
  after_commands reconcile_interval last_reconcile reason (true, c) s =
      after_requests reconcile_interval last_reconcile reason (send_pending_library_requests o l c)
        s

  unfoldable pub woken : ℕ → ℕ → WakeReason → Client o → Loop → Loop
  unfolding leave after_commands pump_notifications send_pending_commands
  woken reconcile_interval last_reconcile stop_requested c s = leave c s
  woken reconcile_interval last_reconcile reason c s =
      after_commands reconcile_interval last_reconcile reason
        (send_pending_commands o l.library_busy_after l.max_pending_command_age
          (pump_notifications o c))
        s

  -- One round with a connection: the test of the token, the wait, and what it woke up for.
  unfoldable pub serve : ℕ → ℕ → Loop → Loop
  unfolding leave woken wake_reason stopped
  serve reconcile_interval last_reconcile s =
      let (stop, c) = stopped o s.client in
      let (stop', c') = stopped o c in
      let work = not (is_empty c'.pending_commands) || not (is_empty c'.pending_library_requests) in
      if stop
      then leave c s
      else woken reconcile_interval last_reconcile (wake_reason stop' s.requested work) c'
          (record s { requested = s.requested && stop' })

  unfoldable pub advance : ℕ → Phase → Loop → Loop
  unfolding begin_iteration serve
  advance reconcile_interval top s = begin_iteration s
  advance reconcile_interval (serving last_reconcile) s = serve reconcile_interval last_reconcile s
  advance reconcile_interval finished s = s
