-- ===== src/Settings/Restore.antt =====
-- POST /api/backup/restore of src/core/settings_routes.cpp.
pub mod Reserved
pub mod Backup
pub mod Counts
use homedeck.Base.{
  ℕ, suc, ◌+◌, ◌≡◌, Bool, true, false, not, ◌||◌, Option, none, some, List, [], ◌∷◌, ◌++◌, ltb,
  if◌then◌else◌, length,
}
use homedeck.Base.Int.{ℤ, pos}
use homedeck.Base.Text.{codes}
use homedeck.Http.{HttpRequest, HttpResponse, json_response, error_response}
use homedeck.Json.{
  Json, Items, Fields, string, integer, array, object, nil, cons, end, field, find, string_member,
  try_parse_json_object,
}
use homedeck.Storage.{KeyValueStore, is_reserved_settings_key, set_setting}
use homedeck.Settings.{
  Hooks, Device, invalid_key, schema_member, setting_is_valid, max_setting_value_length,
  missing_field,
}

-- The counters of the loop; the lists have the newest entry last, by module and key.
pub record Tally : Type 0 where
  pub applied : ℕ
  pub skipped : ℕ
  pub failed : List (List ℕ × List ℕ)
  pub rejected : List (List ℕ × List ℕ)

abbrev pub empty_tally : Tally
empty_tally = record { applied = 0; skipped = 0; failed = []; rejected = [] }

-- One entry as it stands in a backup.
pub record Restored : Type 0 where
  pub module_id : List ℕ
  pub key : List ℕ
  pub value : List ℕ
  pub schema_version : ℤ

restored_members : Option (List ℕ) → Option (List ℕ) → Option (List ℕ) → Option ℤ → Option Restored
restored_members (some m) (some k) (some v) (some n) =
    some (record { module_id = m; key = k; value = v; schema_version = n })
restored_members _ _ _ _ = none

-- `none` where the loop skips an entry.
unfoldable pub restored_entry : Json → Option Restored
unfolding restored_members string_member schema_member
restored_entry (object fields) =
    restored_members (string_member (codes "module") fields) (string_member (codes "key") fields)
      (string_member (codes "value") fields) (schema_member fields)
restored_entry _ = none

unfoldable pub names_json : List (List ℕ × List ℕ) → Items
names_json [] = nil
names_json ((module_id, key) ∷ rest) =
    cons (object (field (codes "key") (string key) (field (codes "module") (string module_id) end)))
      (names_json rest)

unfoldable pub tally_json : Tally → Json
unfolding names_json
tally_json t = object (
    field (codes "applied") (integer (pos t.applied)) (
      field (codes "failed") (array (names_json t.failed)) (
        field (codes "rejected") (array (names_json t.rejected))
          (field (codes "skipped") (integer (pos t.skipped)) end))))

module _ (s : KeyValueStore) (h : Hooks) where
  restore_valid : Restored → Tally → s.Contents → Tally × s.Contents
  restore_valid r t c =
      let name : List ℕ × List ℕ = (r.module_id, r.key) in
      if is_reserved_settings_key r.module_id r.key
      then (record t { rejected = t.rejected ++ (name ∷ []) }, c)
      else if invalid_key r.module_id r.key || ltb max_setting_value_length (length r.value)
      then (record t { failed = t.failed ++ (name ∷ []) }, c)
      else if not (setting_is_valid h r.module_id r.key r.value)
      then (record t { rejected = t.rejected ++ (name ∷ []) }, c)
      else let (written, c') = set_setting s c r.module_id r.key r.schema_version r.value in
        (
          if written
              then record t { applied = suc t.applied }
              else record t { failed = t.failed ++ (name ∷ []) },
          c',
        )

  unfoldable pub restore_entry : Option Restored → Tally → s.Contents → Tally × s.Contents
  unfolding restore_valid
  restore_entry none t c = (record t { skipped = suc t.skipped }, c)
  restore_entry (some r) t c = restore_valid r t c

  unfoldable pub restore_entries : Items → Tally → s.Contents → Tally × s.Contents
  unfolding restore_entry restored_entry
  restore_entries nil t c = (t, c)
  restore_entries (cons entry entries) t c =
      let (t', c') = restore_entry (restored_entry entry) t c in restore_entries entries t' c'

  module _ (parse : List ℕ → Option Json) (dump : Json → List ℕ) where
    restore_settings : Option Json → Device s → HttpResponse × Device s
    unfolding restore_entries tally_json
    restore_settings (some (array entries)) d =
        let (t, c) = restore_entries entries empty_tally d.store in
        (json_response 200 (dump (tally_json t)), record d { store = c })
    restore_settings _ d = (missing_field (codes "settings"), d)

    restore_object : Option Fields → Device s → HttpResponse × Device s
    unfolding restore_settings
    restore_object none d = (error_response 400 (codes "invalid_request"), d)
    restore_object (some fields) d = restore_settings (find (codes "settings") fields) d

    unfoldable pub restore_route : HttpRequest → Device s → HttpResponse × Device s
    unfolding restore_object
    restore_route request d = restore_object (try_parse_json_object parse request.body) d
