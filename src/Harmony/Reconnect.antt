-- ===== src/Harmony/Reconnect.antt =====
-- `ConnectionLoop` of src/core/harmony_connection.cpp, with the wait of src/core/connection_wake.h. Each
-- part of the loop between two points at which another thread may come in is one function.
pub mod Rounds
pub mod Fresh
use homedeck.Base.{
  ℕ, suc, ◌+◌, ◌-◌, Bool, true, false, not, ◌&&◌, ◌||◌, Option, none, some, List, [], ◌∷◌,
  if◌then◌else◌, bytes_eq, is_empty,
}
use homedeck.Harmony.Backoff.{RetryBackoff, next_delay, reset_attempts}
use homedeck.Harmony.Link.{
  disconnected, connecting, connected, error, config_updated, command_dropped, PendingCommand,
  Outside, Connection, publish, enqueue_command, set_state, clear_config_if_present,
  clear_pending_commands_if_any, stopped,
}
use homedeck.Harmony.Exchange.{
  ActivityFetchResult, ok, transport_failed, parse_failed, fetch_current_activity,
  send_pending_commands,
}
use homedeck.Harmony.Connect.{connect_and_fetch_config}

pub data WakeReason : Type 0 where
  stop_requested triggered command_pending timeout : WakeReason

-- What `Wait` answers when it has woken up: its tests, in their order.
unfoldable pub wake_reason : Bool → Bool → Bool → WakeReason
wake_reason true requested work_pending = stop_requested
wake_reason false true work_pending = triggered
wake_reason false false true = command_pending
wake_reason false false false = timeout

-- Where the loop stands: before it reads the address, in the connect, before the locked check behind
-- it, or before a wait with a connection.
pub data Phase : Type 0 where
  top : Phase
  fetching settling serving : List ℕ → Phase
  finished : Phase

pub same_address : List ℕ → Option (List ℕ) → Bool
same_address hub_host none = false
same_address hub_host (some saved) = bytes_eq saved hub_host

module _ (o : Outside) where
  -- `saved` is the stored address, and `due` counts the writers of it that have not triggered yet.
  pub record Loop : Type 0 where
    pub connection : Connection o
    pub requested : Bool
    pub saved : Option (List ℕ)
    pub due : ℕ
    pub last_hub_host : List ℕ
    pub backoff : RetryBackoff
    pub phase : Phase

  -- A wait without commands to watch, which may use up a trigger; its answer is not read.
  pub rest : Loop → Loop
  rest l =
      let (stop, c) = stopped o l.connection in
      record l { connection = c; requested = l.requested && stop }

  pub close_socket : Connection o → Connection o
  close_socket c = if c.socket then record c { world = o.close c.world; socket = false } else c

  pub shut_down : Loop → Loop
  shut_down l = record l {
    connection = set_state o disconnected (clear_pending_commands_if_any o l.connection);
    phase = finished;
  }

  pub clear_commands_of_last : Loop → Connection o → Connection o
  clear_commands_of_last l c =
      if is_empty l.last_hub_host then c else clear_pending_commands_if_any o c

  -- No address is stored.
  pub idle : Loop → Loop
  unfolding rest clear_commands_of_last
  idle l =
      let c = clear_commands_of_last l (clear_config_if_present o false l.connection) in
      rest (record l { connection = set_state o disconnected c; phase = top })

  -- As far as the connect.
  pub prepare : List ℕ → Loop → Loop
  unfolding clear_commands_of_last
  prepare hub_host l =
      let c =
        if bytes_eq hub_host l.last_hub_host
        then l.connection
        else clear_commands_of_last l (clear_config_if_present o true l.connection) in
      record l {
        connection = set_state o connecting c;
        last_hub_host = hub_host;
        phase = fetching hub_host;
      }

  pub read_address : Option (List ℕ) → Loop → Loop
  unfolding idle prepare
  read_address none l = idle l
  read_address (some hub_host) l = if is_empty hub_host then idle l else prepare hub_host l

  unfoldable pub begin_iteration : Loop → Loop
  unfolding read_address shut_down
  begin_iteration l =
      let (stop, c) = stopped o l.connection in
      if stop
      then shut_down (record l { connection = c })
      else read_address l.saved (record l { connection = c })

  -- The connect, and what follows it without the lock.
  pub connect : List ℕ → Loop → Loop
  unfolding rest
  connect hub_host l =
      let (good, c) = connect_and_fetch_config o hub_host l.connection in
      if not good
      then rest (record l {
        connection = set_state o error c;
        backoff = (next_delay l.backoff).1;
        phase = top;
      })
      else record l {
        connection = publish o config_updated (set_state o connected c);
        backoff = reset_attempts l.backoff;
        phase = settling hub_host;
      }

  -- The locked check whether the trigger is answered already.
  pub settle : List ℕ → Loop → Loop
  unfolding same_address
  settle hub_host l = record l {
    requested = l.requested && not (same_address hub_host l.saved);
    phase = serving hub_host;
  }

  pub leave : Connection o → Loop → Loop
  unfolding close_socket
  leave c l = record l { connection = close_socket c; phase = top }

  pub probe : ActivityFetchResult × Connection o → Loop → Loop
  unfolding leave
  probe (ok, c) l = record l { connection = c }
  probe (transport_failed, c) l = leave c l
  probe (parse_failed, c) l = leave c l

  -- The commands went out, or the connection was lost meanwhile.
  pub after_commands : WakeReason → Bool × Connection o → Loop → Loop
  unfolding leave probe
  after_commands stop_requested (sent, c) l = leave c l
  after_commands triggered (sent, c) l = leave c l
  after_commands command_pending (sent, c) l =
      if not sent then leave c l else record l { connection = c }
  after_commands timeout (sent, c) l =
      if not sent then leave c l else probe (fetch_current_activity o c) l

  pub woken : ℕ → ℕ → WakeReason → Connection o → Loop → Loop
  unfolding leave after_commands
  woken max_age now stop_requested c l = leave c l
  woken max_age now reason c l = after_commands reason (send_pending_commands o max_age now c) l

  -- One round of the inner loop: the test of the token, the wait, and what it woke up for.
  pub serve : ℕ → ℕ → Loop → Loop
  unfolding leave woken wake_reason
  serve max_age now l =
      let (stop, c) = stopped o l.connection in
      if stop
      then leave c l
      else let (stop', c') = stopped o c in
        woken max_age now (wake_reason stop' l.requested (not (is_empty c'.pending))) c'
          (record l { requested = l.requested && stop' })

  unfoldable pub advance : ℕ → ℕ → Phase → Loop → Loop
  unfolding begin_iteration connect settle serve
  advance max_age now top l = begin_iteration l
  advance max_age now (fetching hub_host) l = connect hub_host l
  advance max_age now (settling hub_host) l = settle hub_host l
  advance max_age now (serving hub_host) l = serve max_age now l
  advance max_age now finished l = l
