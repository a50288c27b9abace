-- ===== src/Harmony/Wire.antt =====
-- The requests that src/core/harmony_connection.cpp sends, as JSON values. The third-party library
-- keeps the members of an object in the order of their keys.
use homedeck.Base.{ℕ, List}
use homedeck.Base.Int.{pos}
use homedeck.Base.Text.{codes}
use homedeck.Json.{Json, string, integer, object, end, field}

abbrev pub provision_info_request_body : List ℕ
provision_info_request_body =
    codes "{\"id\":1,\"cmd\":\"setup.account?getProvisionInfo\",\"timeout\":90000}"

-- The envelope of every request.
hbus_request : List ℕ → List ℕ → Json → Json
hbus_request hub_id command params = object (
    field (codes "hbus")
      (object (
        field (codes "cmd") (string command)
          (field (codes "id") (string (codes "0")) (field (codes "params") params end))))
      (field (codes "hubId") (string hub_id) (field (codes "timeout") (integer (pos 30)) end)))

unfoldable pub config_request : List ℕ → Json
unfolding hbus_request
config_request hub_id =
    hbus_request hub_id (codes "vnd.logitech.harmony/vnd.logitech.harmony.engine?config")
      (object end)

unfoldable pub current_activity_request : List ℕ → Json
unfolding hbus_request
current_activity_request hub_id =
    hbus_request hub_id
      (codes "vnd.logitech.harmony/vnd.logitech.harmony.engine?getCurrentActivity")
      (object (field (codes "verb") (string (codes "get")) end))

unfoldable pub start_activity_request : List ℕ → List ℕ → Json
unfolding hbus_request
start_activity_request hub_id activity_id =
    hbus_request hub_id (codes "vnd.logitech.harmony/vnd.logitech.harmony.engine?startactivity") (
      object (
        field (codes "activityId") (string activity_id) (
          field (codes "args") (object (field (codes "rule") (string (codes "start")) end)) (
            field (codes "async") (string (codes "true"))
              (field (codes "timestamp") (integer (pos 0)) end)))))

unfoldable pub hold_action_request : List ℕ → List ℕ → List ℕ → Json
unfolding hbus_request
hold_action_request hub_id action status =
    hbus_request hub_id (codes "vnd.logitech.harmony/vnd.logitech.harmony.engine?holdAction") (
      object (
        field (codes "action") (string action) (
          field (codes "status") (string status) (
            field (codes "timestamp") (string (codes "0"))
              (field (codes "verb") (string (codes "render")) end)))))
