-- ===== src/Settings.antt =====
-- The settings and backup endpoints of src/core/settings_routes.cpp, as the handlers that the guard
-- wraps. The store, the JSON library and the caller's hooks are parameters.
pub mod Restore
pub mod Route
mod Examples
use homedeck.Base.{
  ℕ, zero, suc, ◌+◌, ◌≡◌, Bool, true, false, not, ◌&&◌, ◌||◌, Option, none, some, List, [], ◌∷◌,
  ◌++◌, ltb, leb, if◌then◌else◌, bytes_eq, length,
}
use homedeck.Base.Int.{ℤ, pos, negsuc}
use homedeck.Base.Text.{codes}
use homedeck.Codec.Decimal.{max_int}
use homedeck.Http.{HttpRequest, HttpResponse, json_response, error_response}
use homedeck.Json.{
  Json, Items, Fields, string, integer, array, object, nil, cons, end, field, find, string_member,
  try_parse_json_object,
}
use homedeck.Storage.{
  KeyValueStore, SettingEntry, is_reserved_settings_key, set_setting, erase_setting,
  list_all_settings, core_module_id,
}
use homedeck.Storage.Segment.{is_valid_store_segment}

abbrev pub device_name_key : List ℕ
device_name_key = codes "device_name"

abbrev pub max_setting_value_length : ℕ
max_setting_value_length = 4096

-- The callbacks of `RegisterSettingsRoutes`; a test that the caller leaves out is `none`.
pub record Hooks : Type 0 where
  pub on_setting_validate : Option (List ℕ → List ℕ → List ℕ → Bool)
  pub on_device_name_validate : Option (List ℕ → Bool)
  pub on_device_name_committed : Bool

unfoldable pub invalid_key : List ℕ → List ℕ → Bool
unfolding is_valid_store_segment
invalid_key module_id key =
    not (is_valid_store_segment module_id) || not (is_valid_store_segment key)

-- The version of an `int` that is not negative.
unfoldable pub schema_member : Fields → Option ℤ
schema_member fields = elim (find (codes "schemaVersion") fields) [
  | some (integer (pos n)) ↦ if leb n max_int then some (pos n) else none
  | _ ↦ none
]

-- The members of an object in the order of their keys.
unfoldable pub entry_to_json : SettingEntry → Json
entry_to_json e = object (
    field (codes "key") (string e.key) (
      field (codes "module") (string e.module_id) (
        field (codes "schemaVersion") (integer e.schema_version)
          (field (codes "value") (string e.value) end))))

unfoldable pub entries_json : List SettingEntry → Items
unfolding entry_to_json
entries_json [] = nil
entries_json (e ∷ es) = cons (entry_to_json e) (entries_json es)

-- A test that is left out passes.
unfoldable pub setting_is_valid : Hooks → List ℕ → List ℕ → List ℕ → Bool
setting_is_valid h module_id key value = elim h.on_setting_validate [
  | none ↦ true
  | some test ↦ test module_id key value
]

unfoldable pub device_name_is_valid : Hooks → List ℕ → Bool
device_name_is_valid h value = elim h.on_device_name_validate [
  | none ↦ true
  | some test ↦ test value
]

unfoldable pub is_device_name : List ℕ → List ℕ → Bool
is_device_name module_id key = bytes_eq module_id core_module_id && bytes_eq key device_name_key

abbrev pub missing_field : List ℕ → HttpResponse
missing_field name =
    json_response 400 (codes "{\"error\":\"missing_field\",\"field\":\"" ++ (name ++ codes "\"}"))

abbrev pub status_ok : HttpResponse
status_ok = json_response 200 (codes "{\"status\":\"ok\"}")

-- The settings store, and the device names for which `on_device_name_committed` was called, the
-- newest first.
pub record Device (s : KeyValueStore) : Type 0 where
  pub store : s.Contents
  pub device_names : List (List ℕ)

module _ (s : KeyValueStore) (parse : List ℕ → Option Json) (dump : Json → List ℕ) (h : Hooks) where
  unfoldable pub list_route : HttpRequest → Device s → HttpResponse × Device s
  list_route request d =
      (json_response 200 (dump (array (entries_json (list_all_settings s d.store)))), d)

  write_setting : List ℕ → List ℕ → List ℕ → ℤ → Device s → HttpResponse × Device s
  unfolding is_device_name
  write_setting module_id key value version d =
      let (written, store) = set_setting s d.store module_id key version value in
      if not written
      then (error_response 500 (codes "write_failed"), record d { store = store })
      else (
        status_ok,
        record {
          store = store;
          device_names =
              if is_device_name module_id key && h.on_device_name_committed
              then value ∷ d.device_names
              else d.device_names;
        },
      )

  check_setting : List ℕ → List ℕ → List ℕ → ℤ → Device s → HttpResponse × Device s
  unfolding write_setting
  check_setting module_id key value version d =
      if invalid_key module_id key
      then (error_response 400 (codes "invalid_key"), d)
      else if ltb max_setting_value_length (length value)
      then (error_response 400 (codes "value_too_long"), d)
      else if is_reserved_settings_key module_id key
      then (error_response 403 (codes "reserved_key"), d)
      else if not (setting_is_valid h module_id key value)
      then (error_response 400 (codes "invalid_value"), d)
      else if is_device_name module_id key && not (device_name_is_valid h value)
      then (error_response 400 (codes "invalid_value"), d)
      else write_setting module_id key value version d

  -- The four members, in the order in which their absence is reported.
  post_members :
      Option (List ℕ)
      → Option (List ℕ)
      → Option (List ℕ)
      → Option ℤ
      → Device s
      → HttpResponse × Device s
  unfolding check_setting
  post_members none _ _ _ d = (missing_field (codes "module"), d)
  post_members (some module_id) none _ _ d = (missing_field (codes "key"), d)
  post_members (some module_id) (some key) none _ d = (missing_field (codes "value"), d)
  post_members (some module_id) (some key) (some value) none d =
      (missing_field (codes "schemaVersion"), d)
  post_members (some module_id) (some key) (some value) (some version) d =
      check_setting module_id key value version d

  post_object : Option Fields → Device s → HttpResponse × Device s
  unfolding post_members
  post_object none d = (error_response 400 (codes "invalid_request"), d)
  post_object (some fields) d =
      post_members (string_member (codes "module") fields) (string_member (codes "key") fields)
        (string_member (codes "value") fields) (schema_member fields) d

  unfoldable pub post_route : HttpRequest → Device s → HttpResponse × Device s
  unfolding post_object
  post_route request d = post_object (try_parse_json_object parse request.body) d

  erase_members : Option (List ℕ) → Option (List ℕ) → Device s → HttpResponse × Device s
  erase_members (some module_id) (some key) d =
      if invalid_key module_id key
      then (error_response 400 (codes "invalid_key"), d)
      else if is_reserved_settings_key module_id key
      then (error_response 403 (codes "reserved_key"), d)
      else let (erased, store) = erase_setting s d.store module_id key in
        (
          if erased then status_ok else error_response 500 (codes "erase_failed"),
          record d { store = store },
        )
  erase_members _ _ d = (error_response 400 (codes "missing_field"), d)

  erase_object : Option Fields → Device s → HttpResponse × Device s
  unfolding erase_members
  erase_object none d = (error_response 400 (codes "invalid_request"), d)
  erase_object (some fields) d =
      erase_members (string_member (codes "module") fields) (string_member (codes "key") fields) d

  unfoldable pub erase_route : HttpRequest → Device s → HttpResponse × Device s
  unfolding erase_object
  erase_route request d = erase_object (try_parse_json_object parse request.body) d

  unfoldable pub backup_json : Device s → Json
  backup_json d =
      object (field (codes "settings") (array (entries_json (list_all_settings s d.store))) end)

  unfoldable pub backup_route : HttpRequest → Device s → HttpResponse × Device s
  unfolding backup_json
  backup_route request d = (
    record (json_response 200 (dump (backup_json d))) {
      extra_headers =
          (codes "Content-Disposition", codes "attachment; filename=\"homedeck-backup.json\"") ∷ [];
    },
    d,
  )
