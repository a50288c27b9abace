-- ===== src/Settings/Examples.antt =====
-- The theorems on the settings endpoints at a device with two settings and the reserved key.
use homedeck.Base.{
  ◌≡◌, refl, true, false, none, some, List, [], ◌∷◌, All, arith, length, ℕ, bytes_eq, Option,
}
use homedeck.Base.Int.{pos, ◌+ℤ◌}
use homedeck.Base.Text.{codes}
use homedeck.Http.{HttpRequest, json_response}
use homedeck.Json.{
  Json, Items, string, integer, array, object, field, end, nil, cons, exceeds_json_nesting_depth,
}
use homedeck.Storage.{encode, core_module_id, password_key, list_all_settings, get_versioned}
use homedeck.Storage.Memory.{memory_store}
use homedeck.Storage.Memory
use homedeck.Settings.{
  Hooks, Device, backup_route, backup_json, entries_json, invalid_key, setting_is_valid,
}
use homedeck.Settings.Restore.{restore_route, tally_json, empty_tally}
use homedeck.Settings.Restore.Backup.{IsRestorable, Distinct, restore-backup}
use homedeck.Settings.Route.{erasing, saving, serve, serve_keeps_reserved}

abbrev brightness_json : Json
brightness_json = object (
    field (codes "key") (string (codes "brightness")) (
      field (codes "module") (string (codes "power")) (
        field (codes "schemaVersion") (integer (pos 1))
          (field (codes "value") (string (codes "60")) end))))

abbrev host_json : Json
host_json = object (
    field (codes "key") (string (codes "host")) (
      field (codes "module") (string (codes "kodi")) (
        field (codes "schemaVersion") (integer (pos 2))
          (field (codes "value") (string (codes "tv")) end))))

abbrev backup_value : Json
backup_value =
    object (field (codes "settings") (array (cons brightness_json (cons host_json nil))) end)

abbrev toy_parse : List ℕ → Option Json
toy_parse text = some backup_value

abbrev toy_dump : Json → List ℕ
toy_dump j = codes "{}"

abbrev hooks : Hooks
hooks = record {
  on_setting_validate = none;
  on_device_name_validate = none;
  on_device_name_committed = true;
}

abbrev old_device : Device memory_store
old_device = record {
  store =
      record { ns = codes "power"; key = codes "brightness"; value = encode (pos 1) (codes "60") }
      ∷ record { ns = core_module_id; key = password_key; value = encode (pos 1) (codes "x") }
      ∷ record { ns = codes "kodi"; key = codes "host"; value = encode (pos 2) (codes "tv") }
      ∷ [];
  device_names = [];
}

abbrev new_device : Device memory_store
new_device = record { store = []; device_names = [] }

abbrev restore_request : HttpRequest
restore_request = record {
  path = codes "/api/backup/restore";
  query = [];
  body = codes "{}";
  cookie_header = none;
}

serve_keeps_reserved_example :
    Memory.get
      (serve memory_store toy_parse toy_dump hooks
        ((erasing, restore_request) ∷ (saving, restore_request) ∷ [])
        old_device).store
      core_module_id
      password_key
    ≡ Memory.get old_device.store core_module_id password_key
serve_keeps_reserved_example =
    serve_keeps_reserved memory_store toy_parse toy_dump hooks
      ((erasing, restore_request) ∷ (saving, restore_request) ∷ []) old_device

restorable : All (IsRestorable hooks) (list_all_settings memory_store old_device.store)
unfolding list_all_settings encode setting_is_valid invalid_key bytes_eq
restorable = (
  record {
    open_key = refl;
    version = 1;
    version_eq = refl;
    version_le = omega arith;
    valid_key = refl;
    short = omega arith;
    accepted = refl;
  },
  (
    record {
      open_key = refl;
      version = 2;
      version_eq = refl;
      version_le = omega arith;
      valid_key = refl;
      short = omega arith;
      accepted = refl;
    },
    tt,
  ),
)

different : Distinct (list_all_settings memory_store old_device.store)
unfolding list_all_settings encode bytes_eq
different = ((refl, tt), (tt, tt))

shallow :
    exceeds_json_nesting_depth
      (backup_route memory_store toy_parse toy_dump hooks restore_request old_device).0.body
      32
    ≡ false
unfolding backup_route exceeds_json_nesting_depth json_response ◌+ℤ◌
shallow = refl

printed :
    toy_parse (toy_dump (backup_json memory_store toy_parse toy_dump hooks old_device))
    ≡ some (backup_json memory_store toy_parse toy_dump hooks old_device)
unfolding backup_json list_all_settings encode entries_json bytes_eq
printed = refl

sent :
    restore_request.body
    ≡ (backup_route memory_store toy_parse toy_dump hooks restore_request old_device).0.body
unfolding backup_route json_response
sent = refl

restore-backup_example :
    let r = restore_route memory_store hooks toy_parse toy_dump restore_request new_device in
    (r.0
      ≡ json_response 200 (
          toy_dump (
            tally_json (record empty_tally {
              applied = length (list_all_settings memory_store old_device.store);
            }))))
    × All
        (λ e.
          get_versioned memory_store r.1.store e.module_id e.key
          ≡ some (record { schema_version = e.schema_version; value = e.value }))
        (list_all_settings memory_store old_device.store)
restore-backup_example =
    restore-backup memory_store hooks (λ c ns key v. refl) toy_parse toy_dump restore_request
      old_device new_device printed shallow sent restorable different

abbrev entries : Items
entries = cons brightness_json (cons (string (codes "junk")) nil)
