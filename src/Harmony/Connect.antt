-- ===== src/Harmony/Connect.antt =====
-- `ConnectAndFetchConfig` of src/core/harmony_connection.cpp: the handshake, the WebSocket, the
-- configuration and the first probe.
pub mod Socket
use homedeck.Base.{
  ℕ, ◌-◌, Bool, true, false, not, Option, none, some, List, [], ◌==◌, if◌then◌else◌,
}
use homedeck.Base.Text.{codes}
use homedeck.Codec.Decimal.{◌>>=◌}
use homedeck.Json.{string, array, object, Fields, find, try_parse_json_object}
use homedeck.Harmony.Host.{is_valid_hub_id}
use homedeck.Harmony.Url.{handshake_url, web_socket_url}
use homedeck.Harmony.Config.{
  number_or_string_to_string, parse_devices, parse_id_label_array, array_member,
}
use homedeck.Harmony.Wire.{provision_info_request_body, config_request}
use homedeck.Harmony.Link.{
  Outside, Connection, drain_stale_messages, send, stopped, receive, config_fetch_timeout_ms,
}
use homedeck.Harmony.Exchange.{
  ActivityFetchResult, ok, transport_failed, parse_failed, object_member, fetch_current_activity,
}

module _ (o : Outside) where
  -- The socket is closed and reset on every failure behind the connect.
  hang_up : Connection o → Connection o
  hang_up c = record c { world = o.close c.world; socket = false }

  -- `activeRemoteId` of the handshake's answer, as text: `none` if the answer has none.
  remote_id : List ℕ → Option (List ℕ)
  unfolding try_parse_json_object object_member
  remote_id body = do
    parsed ← try_parse_json_object o.parse body
    inner ← object_member (codes "data") parsed
    value ← find (codes "activeRemoteId") inner
    some (number_or_string_to_string value)

  store_config : Fields → Connection o → Connection o
  store_config inner c = record c {
    snapshot = record c.snapshot {
      has_config = true;
      devices = parse_devices (array_member (codes "device") inner);
      activities = parse_id_label_array (array_member (codes "activity") inner);
    };
  }

  -- A probe that finds the transport dead fails the connect.
  after_probe : ActivityFetchResult × Connection o → Bool × Connection o
  unfolding hang_up
  after_probe (transport_failed, c) = (false, hang_up c)
  after_probe (ok, c) = (true, c)
  after_probe (parse_failed, c) = (true, c)

  -- The `data` of an answer, if it was there.
  read_config : Option Fields → Connection o → Bool × Connection o
  unfolding hang_up store_config after_probe
  read_config none c = (false, hang_up c)
  read_config (some inner) c = after_probe (fetch_current_activity o (store_config inner c))

  config_answer : Option (List ℕ) × Connection o → Bool × Connection o
  unfolding hang_up read_config object_member
  config_answer (none, c) = (false, hang_up c)
  config_answer (some text, c) =
      read_config (try_parse_json_object o.parse text >>= object_member (codes "data")) c

  config_sent : Bool × Connection o → Bool × Connection o
  unfolding config_answer hang_up stopped receive
  config_sent (sent, c) =
      if not sent
      then (false, hang_up c)
      else let (stop, c') = stopped o c in
        if stop then (false, hang_up c') else config_answer (receive o config_fetch_timeout_ms c')

  -- From the WebSocket's connect on.
  connect_socket : List ℕ → Connection o → Bool × Connection o
  unfolding config_sent hang_up stopped send drain_stale_messages
  connect_socket hub_host c =
      let (connected, w) = o.connect (web_socket_url hub_host c.hub_id) c.world in
      if not connected
      then (false, record c { world = w; socket = false })
      else let (stop, c') = stopped o (record c { world = w; socket = true }) in
        if stop
        then (false, hang_up c')
        else let c'' = drain_stale_messages o c' in
          config_sent (send o (config_request c''.hub_id) c'')

  -- The hub's id is stored, and emptied again if it is not valid.
  take_id : List ℕ → Option (List ℕ) → Connection o → Bool × Connection o
  unfolding connect_socket
  take_id hub_host none c = (false, c)
  take_id hub_host (some id) c =
      if not (is_valid_hub_id id)
      then (false, record c { hub_id = [] })
      else connect_socket hub_host (record c { hub_id = id })

  handshake_answer : List ℕ → Option (ℕ × List ℕ) × Connection o → Bool × Connection o
  unfolding take_id remote_id stopped
  handshake_answer hub_host (none, c) = (false, c)
  handshake_answer hub_host (some (status, body), c) =
      if not (status == 200)
      then (false, c)
      else let (stop, c') = stopped o c in
        if stop then (false, c') else take_id hub_host (remote_id body) c'

  unfoldable pub connect_and_fetch_config : List ℕ → Connection o → Bool × Connection o
  unfolding handshake_answer
  connect_and_fetch_config hub_host c =
      let (answer, w) = o.post (handshake_url hub_host) provision_info_request_body c.world in
      handshake_answer hub_host (answer, record c { world = w })
