-- ===== src/Harmony/Exchange.antt =====
-- The exchanges of src/core/harmony_connection.cpp with a connected hub: `FetchCurrentActivity` and
-- `SendPendingCommands`.
pub mod Loop
pub mod Delivery
pub mod Probe
use homedeck.Base.{
  ℕ, ◌+◌, ◌-◌, Bool, true, false, not, ◌&&◌, ◌||◌, Option, none, some, List, [], ◌∷◌, ltb,
  if◌then◌else◌, bytes_eq, is_empty,
}
use homedeck.Base.Text.{codes}
use homedeck.Codec.Decimal.{◌>>=◌}
use homedeck.Json.{Json, string, integer, object, Fields, find, try_parse_json_object}
use homedeck.Harmony.Config.{number_or_string_to_string}
use homedeck.Harmony.Wire.{current_activity_request, start_activity_request, hold_action_request}
use homedeck.Harmony.Link.{
  current_activity_changed, command_dropped, PendingCommand, Outside, Connection, publish,
  drain_stale_messages, send, stopped, receive, is_release, liveness_probe_timeout_ms,
}

pub data ActivityFetchResult : Type 0 where
  ok transport_failed parse_failed : ActivityFetchResult

-- The `result` that a probe accepts.
activity_result : Option Json → Option (List ℕ)
unfolding number_or_string_to_string
activity_result (some (string text)) = some text
activity_result (some (integer n)) = some (number_or_string_to_string (integer n))
activity_result _ = none

-- `find` for a member that has to be an object.
unfoldable pub object_member : List ℕ → Fields → Option Fields
object_member key fields = elim (find key fields) [ some (object inner) ↦ some inner | _ ↦ none ]

-- A record of what the loop over a batch has seen.
pub record Batch : Type 0 where
  pub started_activity : Bool
  pub dropped_stale_command : Bool
  pub transport_failed : Bool

-- The request of a command, if it has one.
pub request_of : List ℕ → PendingCommand → Option Json
request_of hub_id command = elim command.activity_id [
  | some activity_id ↦ some (start_activity_request hub_id activity_id)
  | none ↦ elim command.device_command [
    | some d ↦ some (hold_action_request hub_id d.action d.status)
    | none ↦ none
  ]
]

abbrev pub is_start : PendingCommand → Bool
is_start command = elim command.activity_id [ none ↦ false | some id ↦ true ]

abbrev pub is_stale : ℕ → ℕ → PendingCommand → Bool
is_stale max_age now command = ltb (command.enqueued_at + max_age) now

abbrev pub empty_batch : Batch
empty_batch = record {
  started_activity = false;
  dropped_stale_command = false;
  transport_failed = false;
}

module _ (o : Outside) where
  probed_activity : List ℕ → Option (List ℕ)
  unfolding try_parse_json_object object_member activity_result
  probed_activity text = do
    response ← try_parse_json_object o.parse text
    inner ← object_member (codes "data") response
    activity_result (find (codes "result") inner)

  note_activity : Option (List ℕ) → Connection o → ActivityFetchResult × Connection o
  note_activity none c = (parse_failed, c)
  note_activity (some id) c = (
    ok,
    if bytes_eq c.snapshot.current_activity_id id
        then c
        else publish o (current_activity_changed id)
            (record c { snapshot = record c.snapshot { current_activity_id = id } }),
  )

  probe_answer : Option (List ℕ) × Connection o → ActivityFetchResult × Connection o
  unfolding probed_activity note_activity
  probe_answer (none, c) = (transport_failed, c)
  probe_answer (some text, c) = note_activity (probed_activity text) c

  probe_sent : Bool × Connection o → ActivityFetchResult × Connection o
  unfolding probe_answer stopped receive
  probe_sent (sent, c) =
      if not sent
      then (transport_failed, c)
      else let (stop, c') = stopped o c in
        if stop
        then (transport_failed, c')
        else probe_answer (receive o liveness_probe_timeout_ms c')

  unfoldable pub fetch_current_activity : Connection o → ActivityFetchResult × Connection o
  unfolding probe_sent send drain_stale_messages
  fetch_current_activity c =
      if not c.socket
      then (transport_failed, c)
      else let c' = drain_stale_messages o c in
        probe_sent (send o (current_activity_request c'.hub_id) c')

  -- A command's request is sent; a command without one is passed over.
  attempt_request : Option Json → Bool → Batch → Connection o → Batch × Connection o
  unfolding send
  attempt_request none starts b c = (b, c)
  attempt_request (some request) starts b c =
      let (sent, c') = send o request c in
      (
        record b {
          started_activity = b.started_activity || sent && starts;
          transport_failed = b.transport_failed || not sent;
        },
        c',
      )

  attempt : PendingCommand → Batch → Connection o → Batch × Connection o
  unfolding attempt_request request_of
  attempt command b c = attempt_request (request_of c.hub_id command) (is_start command) b c

  -- One command of the batch.
  send_one : ℕ → ℕ → PendingCommand → Batch → Connection o → Batch × Connection o
  unfolding attempt
  send_one max_age now command b c =
      if not (is_release command) && is_stale max_age now command
      then (record b { dropped_stale_command = true }, c)
      else if b.transport_failed && not (is_release command)
      then (b, c)
      else attempt command b c

  -- The loop over the batch; `none` if a stop was requested before a command.
  unfoldable pub send_each :
      ℕ → ℕ → List PendingCommand → Batch → Connection o → Option Batch × Connection o
  unfolding send_one stopped
  send_each max_age now [] b c = (some b, c)
  send_each max_age now (command ∷ commands) b c =
      let (stop, c') = stopped o c in
      let (b', c'') = send_one max_age now command b c' in
      let rest = send_each max_age now commands b' c'' in
      if stop then (none, publish o command_dropped c') else rest

  refresh : Batch → Connection o → Connection o
  unfolding fetch_current_activity stopped
  refresh b c =
      if not b.started_activity
      then c
      else let (stop, c') = stopped o c in if stop then c' else (fetch_current_activity c').1

  after_batch : Option Batch × Connection o → Bool × Connection o
  unfolding refresh
  after_batch (none, c) = (false, c)
  after_batch (some b, c) =
      let c' = refresh b c in
      (
        not b.transport_failed,
        if b.dropped_stale_command || b.transport_failed then publish o command_dropped c' else c',
      )

  unfoldable pub send_pending_commands : ℕ → ℕ → Connection o → Bool × Connection o
  unfolding send_each after_batch
  send_pending_commands max_age now c =
      let c' = record c { pending = [] } in
      if not c.socket
      then (false, if is_empty c.pending then c' else publish o command_dropped c')
      else after_batch (send_each max_age now c.pending empty_batch c')
