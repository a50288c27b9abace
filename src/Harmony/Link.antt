-- ===== src/Harmony/Link.antt =====
-- `HarmonyConnection` of src/core/harmony_connection.cpp: its command queue, its snapshot and the
-- exchanges with the hub. The hub, the task's stop token and the third-party JSON library are
-- parameters. What is published is kept in a log, the newest event first.
use homedeck.Base.{
  ℕ, zero, suc, ◌-◌, ◌≡◌, Bool, true, false, ◌||◌, Option, none, some, List, [], ◌∷◌, ◌++◌,
  if◌then◌else◌, bytes_eq, is_empty, length, drop,
}
use homedeck.Base.Text.{codes}
use homedeck.Json.{Json}
use homedeck.Harmony.Config.{HarmonyDevice, HarmonyActivity}

pub data HarmonyConnectionState : Type 0 where
  disconnected connecting connected error : HarmonyConnectionState

pub data Event : Type 0 where
  state_changed : HarmonyConnectionState → Event
  config_updated : Event
  current_activity_changed : List ℕ → Event
  command_dropped : Event

pub record DeviceCommandRequest : Type 0 where
  pub action : List ℕ
  pub status : List ℕ

pub record PendingCommand : Type 0 where
  pub activity_id : Option (List ℕ)
  pub device_command : Option DeviceCommandRequest
  pub enqueued_at : ℕ

pub record HarmonyConnectionSnapshot : Type 0 where
  pub state : HarmonyConnectionState
  pub has_config : Bool
  pub devices : List HarmonyDevice
  pub activities : List HarmonyActivity
  pub current_activity_id : List ℕ

abbrev pub max_pending_commands : ℕ
max_pending_commands = 20

abbrev pub max_drain_iterations : ℕ
max_drain_iterations = 20

abbrev pub config_fetch_timeout_ms : ℕ
config_fetch_timeout_ms = 10000

abbrev pub liveness_probe_timeout_ms : ℕ
liveness_probe_timeout_ms = 10000

-- What `HttpClient::Post`, the WebSocket client and the stop token answer; `attempted` has the texts
-- that were given to `SendText`, the newest first, whether they went out or not.
pub record Outside : Type 1 where
  pub World : Type 0
  pub post : List ℕ → List ℕ → World → Option (ℕ × List ℕ) × World
  pub connect : List ℕ → World → Bool × World
  pub close : World → World
  pub send_text : List ℕ → World → Bool × World
  pub receive_text : ℕ → World → Option (List ℕ) × World
  pub stop_requested : World → Bool × World
  pub parse : List ℕ → Option Json
  pub dump : Json → List ℕ
  pub attempted : World → List (List ℕ)
  pub attempted-send_text : (t : List ℕ) (w : World) → attempted (send_text t w).1 ≡ t ∷ attempted w
  pub attempted-receive_text : (n : ℕ) (w : World) → attempted (receive_text n w).1 ≡ attempted w
  pub attempted-stop_requested : (w : World) → attempted (stop_requested w).1 ≡ attempted w

abbrev pub is_release : PendingCommand → Bool
is_release c = elim c.device_command [ none ↦ false | some d ↦ bytes_eq d.status (codes "release") ]

abbrev pub is_some : Option (List ℕ) → Bool
is_some none = false
is_some (some m) = true

same_state : HarmonyConnectionState → HarmonyConnectionState → Bool
same_state disconnected disconnected = true
same_state connecting connecting = true
same_state connected connected = true
same_state error error = true
same_state _ _ = false

-- `while (size() > kMaxPendingCommands) pop_front()`.
abbrev pub drop_oldest : List PendingCommand → List PendingCommand
drop_oldest cs = drop (length cs - max_pending_commands) cs

module _ (o : Outside) where
  pub record Connection : Type 0 where
    pub world : o.World
    pub socket : Bool
    pub hub_id : List ℕ
    pub snapshot : HarmonyConnectionSnapshot
    pub pending : List PendingCommand
    pub published : List Event

  abbrev pub publish : Event → Connection → Connection
  publish e c = record c { published = e ∷ c.published }

  -- `EnqueueCommand`, with the commands of `StartActivity` and `EnqueueDeviceCommand`.
  unfoldable pub enqueue_command : PendingCommand → Connection → Connection
  enqueue_command command c = record c { pending = drop_oldest (c.pending ++ (command ∷ [])) }

  unfoldable pub start_activity : List ℕ → ℕ → Connection → Connection
  unfolding enqueue_command
  start_activity activity_id now c =
      enqueue_command
        (record { activity_id = some activity_id; device_command = none; enqueued_at = now }) c

  unfoldable pub enqueue_device_command : List ℕ → List ℕ → ℕ → Connection → Connection
  unfolding enqueue_command
  enqueue_device_command action status now c =
      enqueue_command
        (record {
          activity_id = none;
          device_command = some (record { action = action; status = status });
          enqueued_at = now;
        })
        c

  unfoldable pub set_state : HarmonyConnectionState → Connection → Connection
  unfolding same_state
  set_state s c =
      if same_state c.snapshot.state s
      then c
      else publish (state_changed s) (record c { snapshot = record c.snapshot { state = s } })

  cleared : HarmonyConnectionSnapshot → HarmonyConnectionSnapshot
  cleared s = record s {
    has_config = false;
    devices = [];
    activities = [];
    current_activity_id = [];
  }

  unfoldable pub clear_config_if_present : Bool → Connection → Connection
  unfolding cleared
  clear_config_if_present force_publish c =
      let c' = if c.snapshot.has_config then record c { snapshot = cleared c.snapshot } else c in
      if c.snapshot.has_config || force_publish then publish config_updated c' else c'

  unfoldable pub clear_pending_commands_if_any : Connection → Connection
  clear_pending_commands_if_any c =
      if is_empty c.pending then c else publish command_dropped (record c { pending = [] })

  unfoldable pub drain : ℕ → o.World → o.World
  drain zero w = w
  drain (suc n) w =
      let (message, w') = o.receive_text 0 w in
      let rest = drain n w' in if is_some message then rest else w'

  unfoldable pub drain_stale_messages : Connection → Connection
  unfolding drain
  drain_stale_messages c =
      if c.socket then record c { world = drain max_drain_iterations c.world } else c

  -- The texts go out over the open socket.
  unfoldable pub send : Json → Connection → Bool × Connection
  send request c =
      let (sent, w) = o.send_text (o.dump request) c.world in (sent, record c { world = w })

  unfoldable pub stopped : Connection → Bool × Connection
  stopped c = let (stop, w) = o.stop_requested c.world in (stop, record c { world = w })

  unfoldable pub receive : ℕ → Connection → Option (List ℕ) × Connection
  receive timeout_ms c =
      let (text, w) = o.receive_text timeout_ms c.world in (text, record c { world = w })
