-- ===== src/Harmony/Examples.antt =====
-- The theorems on the Harmony client at a hub that answers every request.
use homedeck.Base.{
  ℕ, ◌≡◌, refl, true, false, Option, none, some, List, [], ◌∷◌, bytes_eq, drop, length, ◌≤◌,
}
use homedeck.Base.Int.{pos}
use homedeck.Base.Text.{codes}
use homedeck.Json.{Json, string, integer, object, field, end, find, string_member}
use homedeck.Harmony.Host.{is_valid_hub_id, is_valid_hub_host, has_unsafe_host_chars}
use homedeck.Harmony.Link.{Outside, Connection, disconnected}
use homedeck.Harmony.Connect.{connect_and_fetch_config}
use homedeck.Harmony.Exchange.{send_pending_commands, send_each}
use homedeck.Base.{arith}
use homedeck.Harmony.Reconnect.{Loop, serving, top, advance}
use homedeck.Harmony.Reconnect.Fresh.{
  here, next, address_stored, writer_triggers, stale_address_is_left,
}
use homedeck.Base.{inl}
use homedeck.Harmony.Routes.{status_route, reconnect_route}
use homedeck.Http.{json_response}
use homedeck.Harmony.Queue.{enqueue_all, pending-newest}
use homedeck.Harmony.Connect.Socket.{Sound, connect_and_fetch_config-Sound}
use homedeck.Harmony.Exchange.Delivery.{Delivered, send_pending_commands-Delivered}

abbrev answer : List ℕ → Option Json
answer text = some (
    object (
      field (codes "data")
        (object (
          field (codes "activeRemoteId") (integer (pos 42))
            (field (codes "result") (string (codes "-1")) end)))
        end))

abbrev hub : Outside
hub = record {
  World = List (List ℕ);
  post = λ url body w. (some (200, codes "{}"), w);
  connect = λ url w. (true, w);
  close = λ w. w;
  send_text = λ t w. (true, t ∷ w);
  receive_text = λ n w. (some (codes "{}"), w);
  stop_requested = λ w. (false, w);
  parse = answer;
  dump = λ j. codes "request";
  attempted = λ w. w;
  attempted-send_text = λ t w. refl;
  attempted-receive_text = λ n w. refl;
  attempted-stop_requested = λ w. refl;
}

abbrev idle_connection : Connection hub
idle_connection = record {
  world = [];
  socket = false;
  hub_id = [];
  snapshot = record {
    state = disconnected;
    has_config = false;
    devices = [];
    activities = [];
    current_activity_id = [];
  };
  pending = [];
  published = [];
}

-- A press that is six seconds old, and a release as old.
abbrev busy_connection : Connection hub
busy_connection = record idle_connection {
  socket = true;
  pending =
      record {
        activity_id = none;
        device_command = some (record { action = codes "up"; status = codes "press" });
        enqueued_at = 1000;
      }
      ∷ record {
        activity_id = none;
        device_command = some (record { action = codes "up"; status = codes "release" });
        enqueued_at = 1000;
      }
      ∷ [];
}

local_host : is_valid_hub_host (codes "hub.local") ≡ true
unfolding is_valid_hub_host has_unsafe_host_chars
local_host = refl

bare_id : is_valid_hub_id (codes "42") ≡ true
unfolding is_valid_hub_id
bare_id = refl

connect_and_fetch_config-Sound_example :
    Sound hub (connect_and_fetch_config hub (codes "hub.local") idle_connection)
connect_and_fetch_config-Sound_example =
    connect_and_fetch_config-Sound hub (codes "hub.local") idle_connection refl

send_pending_commands-Delivered_example :
    Delivered hub 5000 7000 busy_connection (send_pending_commands hub 5000 7000 busy_connection)
send_pending_commands-Delivered_example =
    send_pending_commands-Delivered hub 5000 7000 busy_connection refl

pending-newest_example :
    ((enqueue_all hub busy_connection.pending idle_connection).pending
      ≡ drop 0 busy_connection.pending)
    × (length (enqueue_all hub busy_connection.pending idle_connection).pending ≤ 20)
pending-newest_example = pending-newest hub busy_connection.pending idle_connection refl

-- The release goes out alone.
busy_sent : (send_pending_commands hub 5000 7000 busy_connection).1.world ≡ codes "request" ∷ []
unfolding send_pending_commands send_each bytes_eq
busy_sent = refl

-- The loop serves one address while another one is stored, and then a reconnect is triggered.
abbrev serving_loop : Loop hub
serving_loop = record {
  connection = busy_connection;
  requested = false;
  saved = some (codes "hub.local");
  due = 0;
  last_hub_host = codes "hub.local";
  backoff = record { initial_delay = 1000; max_delay = 60000; current_delay = 1000 };
  phase = serving (codes "hub.local");
}

abbrev stored_loop : Loop hub
stored_loop = record serving_loop { saved = some (codes "other.local"); due = 1 }

abbrev stale_loop : Loop hub
stale_loop = record stored_loop { requested = true; due = 0 }

stale_address_is_left_example : (advance hub 5000 7000 stale_loop.phase stale_loop).phase ≡ top
stale_address_is_left_example =
    stale_address_is_left hub 5000 serving_loop stale_loop (codes "hub.local") 7000 (inl refl)
      (next (next here (address_stored (some (codes "other.local"))))
        (writer_triggers (omega arith)))
      refl (λ e. cc e) refl

-- The status route prints the snapshot; here only its connection state is printed.
abbrev state_of : Json → List ℕ
state_of (object members) = elim (string_member (codes "state") members) [ some t ↦ t | none ↦ [] ]
state_of _ = []

status_shown :
    status_route state_of idle_connection.snapshot ≡ json_response 200 (codes "disconnected")
unfolding status_route json_response string_member find bytes_eq
status_shown = refl

reconnect_asked : (reconnect_route hub serving_loop).1 ≡ record serving_loop { requested = true }
unfolding reconnect_route
reconnect_asked = refl
