-- ===== src/Lib.antt =====
-- HomeDeck is a wall panel for a smart home, in C++: a core of services under src/core, the platform
-- under src/platform and the screens under src/ui. This library models the core's own logic.
--
-- The parts and their files:
-- - Power: src/core/power_manager.cpp. `step` takes one input (a clock tick, an event of the bus, a
--   setting, a veto) to the new state and the effects, in the order in which the code makes them.
-- - Battery: the monitors of src/core/latched_threshold_monitor.cpp, critical_battery_monitor.cpp,
--   low_battery_monitor.cpp, network_status_monitor.cpp and harmony_notification_bridge.cpp. Their
--   events are inputs of Power; Battery/Critical joins the two.
-- - Storage: the envelope of src/core/storage.cpp over any key-value store that has the laws of
--   `KeyValueStore`; Storage/Memory is one.
-- - Codec: hexadecimal text of src/core/admin_auth_service.cpp, and the standard library's decimal
--   conversions.
-- - Auth: src/core/admin_auth_service.cpp. Auth/Stored is the password record, Auth/Cookie the
--   header, Auth/Compare the comparison, Auth/Service the service itself over Storage, and
--   Auth/Service/Guard the guard of every other endpoint with the four endpoints of its own.
-- - Http and Json: src/platform/http_server.h and src/core/json_request.h.
-- - Harmony: src/core/harmony_connection.cpp with src/core/host_validation.h. Harmony/Link is the
--   queue and the snapshot, Harmony/Exchange the probe and the batch of
--   commands, Harmony/Connect the connect, Harmony/Reconnect the loop around them with the wait of
--   src/core/connection_wake.h: its parts between two points at which another thread may come in.
-- - Kodi: src/core/kodi_client.cpp with src/core/kodi_json.cpp. Kodi/Reply, Listing and Playing read
--   replies, Kodi/Target chooses the instance, Kodi/Client is the state with both queues,
--   Kodi/Requests what the other threads queue, Kodi/Notice the notifications, Kodi/Call one request
--   with the wait for its reply, Kodi/Commands and Kodi/Library the batches, Kodi/Paging a listing in
--   pages, Kodi/Poll the poll and Kodi/Loop the loop around them, one step for each of its rounds.
--   Kodi/Sound is the invariant of the snapshot through all of them.
-- - Weather: src/core/weather_provider.cpp over Storage, one poll as one operation; Weather/Geocode
--   is src/core/weather_routes.cpp. Kodi/Routes and Harmony/Routes are the routes of those clients.
-- - Wifi: src/core/wifi_reconnect_policy.h, src/core/pending_wifi_credentials.h and
--   src/core/wifi_credentials.h.
-- - Stream: src/platform/websocket_message_assembler.h.
-- - Settings: src/core/settings_routes.cpp over Storage, with src/platform/store_key_validation.h in
--   Storage/Segment.
-- - Events: src/core/event_bus.cpp. Events/System lets publications, subscriptions, the look-ups of
--   callbacks and their calls by the thread of the user interface interleave.
-- - Log: src/core/logger.cpp over Storage.
-- - Ota: src/core/ota_gate.h and src/core/ota_routes.cpp over Battery and Power. Ota/Upload lets
--   uploads, the deliveries of their events by the thread of the user interface and the other inputs
--   of the power manager interleave.
-- - Url: src/core/url_codec.cpp and the encoder of src/core/weather_routes.cpp.
-- - Taps: src/ui/activity_start_tracker.cpp, and in Taps/Buttons
--   src/ui/command_button_press_tracker.cpp, one operation for each handler.
-- - Layout: src/ui/grid_occupancy.h with the placing in src/ui/dashboard_grid.cpp (Layout/Grid), and
--   src/ui/virtual_list_window.h (Layout/Window).
--
-- Conventions. Text is a list of bytes. Times are milliseconds, in Kodi's client nanoseconds, and an
-- operation takes each reading of a clock as an argument. A service's state is a record that its
-- operations return; a lock's critical section is one operation, so that histories may interleave
-- them (Auth/Service/History). Events are returned, or kept in a log.
--
-- Bounds and fuel. The cookie loop runs on the header's length and one more: each round takes a byte
-- at least. The search of a widget's place runs on one step more than the grid has cells, since the
-- first row behind the last one is free. The decimal digits of n run on n + 1, since a division by ten
-- lowers n. The wait for a Kodi reply runs on one round more than its timeout has nanoseconds, since
-- each receive takes one at least, and a listing on one round more than its bound has pages. Every
-- other loop is structural. The counters of the service and the times are not bounded; stored
-- versions and iteration counts have the ranges of `int` and `unsigned`.
--
-- Parameters: Mbed TLS (`Crypto`), the stores (`KeyValueStore`), the JSON library (`parse`, `dump`),
-- the dispatcher of the user interface, which is taken to run the calls in their order, and the
-- Harmony hub or Kodi with the stop token, for Kodi also the clock and the browse (`Outside`), the
-- HTTP client and `strtod` of the weather provider, and the arithmetic on doubles (`Doubles`). The
-- request headers that a POST to the hub carries are left to `post`. The sizes of the list's view are
-- taken to fit their integers.
--
-- Not modelled: the start and the stop of the Harmony and the Kodi client's task, the counter of
-- Kodi's request ids beyond the range of `int`, the weather provider's task, the
-- diagnostics and the Wi-Fi routes; the platform's input and output, the screens, the simulator, the
-- Web UI and the third-party libraries.
pub mod Base
pub mod Codec
pub mod Http
pub mod Json
pub mod Storage
pub mod Power
pub mod Battery
pub mod Auth
pub mod Harmony
pub mod Wifi
pub mod Stream
pub mod Settings
pub mod Layout
pub mod Url
pub mod Events
pub mod Log
pub mod Ota
pub mod Kodi
pub mod Weather
pub mod Taps
