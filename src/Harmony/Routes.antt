-- ===== src/Harmony/Routes.antt =====
-- The two handlers of src/core/harmony_routes.cpp, behind the guard. The library keeps the members of
-- an object in the order of their keys.
use homedeck.Base.{ℕ, true, List, [], ◌∷◌}
use homedeck.Base.Text.{codes}
use homedeck.Json.{Json, string, boolean, object, array, Items, nil, cons, end, field}
use homedeck.Http.{HttpResponse, json_response}
use homedeck.Harmony.Config.{HarmonyDevice, HarmonyActivity}
use homedeck.Harmony.Link.{
  HarmonyConnectionState, disconnected, connecting, connected, error, HarmonyConnectionSnapshot,
  Outside,
}
use homedeck.Harmony.Reconnect.{Loop}

state_to_string : HarmonyConnectionState → List ℕ
state_to_string disconnected = codes "disconnected"
state_to_string connecting = codes "connecting"
state_to_string connected = codes "connected"
state_to_string error = codes "error"

labelled : List ℕ → List ℕ → Json
labelled id label =
    object (field (codes "id") (string id) (field (codes "label") (string label) end))

devices_to_json : List HarmonyDevice → Items
unfolding labelled
devices_to_json [] = nil
devices_to_json (d ∷ devices) = cons (labelled d.id d.label) (devices_to_json devices)

activities_to_json : List HarmonyActivity → Items
unfolding labelled
activities_to_json [] = nil
activities_to_json (a ∷ activities) = cons (labelled a.id a.label) (activities_to_json activities)

snapshot_to_json : HarmonyConnectionSnapshot → Json
unfolding state_to_string devices_to_json activities_to_json
snapshot_to_json s = object (
    field (codes "activities") (array (activities_to_json s.activities)) (
      field (codes "currentActivityId") (string s.current_activity_id) (
        field (codes "devices") (array (devices_to_json s.devices)) (
          field (codes "hasConfig") (boolean s.has_config)
            (field (codes "state") (string (state_to_string s.state)) end)))))

unfoldable pub status_route : (Json → List ℕ) → HarmonyConnectionSnapshot → HttpResponse
unfolding snapshot_to_json json_response
status_route dump s = json_response 200 (dump (snapshot_to_json s))

module _ (o : Outside) where
  -- `TriggerReconnect` sets the flag of the loop's wait.
  unfoldable pub reconnect_route : Loop o → HttpResponse × Loop o
  unfolding json_response
  reconnect_route l =
      (json_response 200 (codes "{\"status\":\"ok\"}"), record l { requested = true })
