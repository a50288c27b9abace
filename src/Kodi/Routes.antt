-- ===== src/Kodi/Routes.antt =====
-- The two handlers of src/core/kodi_routes.cpp, behind the guard. The library keeps the members of an
-- object in the order of their keys.
use homedeck.Base.{ℕ, true, List, [], ◌∷◌}
use homedeck.Base.Int.{pos}
use homedeck.Base.Text.{codes}
use homedeck.Json.{
  Json, string, boolean, integer, float, object, array, Items, nil, cons, end, field,
}
use homedeck.Http.{HttpResponse, json_response}
use homedeck.Kodi.Playing.{KodiPlaybackState, inactive, playing, paused, KodiNowPlaying}
use homedeck.Kodi.Target.{KodiDiscoveredInstance}
use homedeck.Kodi.Client.{
  KodiConnectionState, disconnected, connecting, connected, error, KodiSnapshot, Outside,
}
use homedeck.Kodi.Library.{Limits}
use homedeck.Kodi.Loop.{Loop}

state_to_string : KodiConnectionState → List ℕ
state_to_string disconnected = codes "disconnected"
state_to_string connecting = codes "connecting"
state_to_string connected = codes "connected"
state_to_string error = codes "error"

playback_to_string : KodiPlaybackState → List ℕ
playback_to_string inactive = codes "inactive"
playback_to_string playing = codes "playing"
playback_to_string paused = codes "paused"

instance_to_json : KodiDiscoveredInstance → Json
instance_to_json i = object (
    field (codes "host") (string i.host)
      (field (codes "name") (string i.name) (field (codes "uuid") (string i.uuid) end)))

instances_to_json : List KodiDiscoveredInstance → Items
unfolding instance_to_json
instances_to_json [] = nil
instances_to_json (i ∷ discovered) = cons (instance_to_json i) (instances_to_json discovered)

now_playing_to_json : KodiNowPlaying → Json
unfolding playback_to_string
now_playing_to_json n = object (
    field (codes "canSeek") (boolean n.can_seek) (
      field (codes "durationMs") (integer (pos n.duration_ms)) (
        field (codes "episode") (integer n.episode) (
          field (codes "mediaType") (string n.media_type) (
            field (codes "percent") (float n.percent) (
              field (codes "playback") (string (playback_to_string n.playback)) (
                field (codes "positionMs") (integer (pos n.position_ms)) (
                  field (codes "season") (integer n.season) (
                    field (codes "showTitle") (string n.show_title) (
                      field (codes "speed") (integer n.speed)
                        (field (codes "title") (string n.title) end)))))))))))

snapshot_to_json : KodiSnapshot → Json
unfolding state_to_string instances_to_json now_playing_to_json
snapshot_to_json s = object (
    field (codes "appVersion") (string s.app_version) (
      field (codes "discovered") (array (instances_to_json s.discovered)) (
        field (codes "libraryBusy") (boolean s.library_busy) (
          field (codes "muted") (boolean s.muted) (
            field (codes "nowPlaying") (now_playing_to_json s.now_playing) (
              field (codes "resolvedHost") (string s.resolved_host) (
                field (codes "selectedUuid") (string s.selected_uuid) (
                  field (codes "state") (string (state_to_string s.state)) (
                    field (codes "targetConfigured") (boolean s.target_configured)
                      (field (codes "volume") (integer (pos s.volume)) end))))))))))

-- `dump` is the library's, with the handler that replaces invalid UTF-8.
unfoldable pub status_route : (Json → List ℕ) → KodiSnapshot → HttpResponse
unfolding snapshot_to_json json_response
status_route dump s = json_response 200 (dump (snapshot_to_json s))

module _ (o : Outside) (l : Limits) where
  -- `TriggerReconnect` sets the flag of the loop's wait.
  unfoldable pub reconnect_route : Loop o l → HttpResponse × Loop o l
  unfolding json_response
  reconnect_route s =
      (json_response 200 (codes "{\"status\":\"ok\"}"), record s { requested = true })
