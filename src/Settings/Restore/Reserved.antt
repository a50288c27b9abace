-- ===== src/Settings/Restore/Reserved.antt =====
-- A restore leaves the administrator's reserved key alone.
use homedeck.Base.{ℕ, ◌≡◌, refl, ◌∙◌, Option, none, some, List, arith}
use homedeck.Http.{HttpRequest}
use homedeck.Base.Text.{codes}
use homedeck.Json.{
  Json, Items, Fields, nil, cons, null, boolean, integer, float, string, array, object, find,
  try_parse_json_object,
}
use homedeck.Storage.{KeyValueStore, core_module_id, password_key}
use homedeck.Storage.Laws.{settings_keep_reserved}
use homedeck.Settings.{Hooks, Device}
use homedeck.Settings.Restore.{
  Tally, Restored, restore_route, restore_object, restore_settings, restore_entries, restore_entry,
  restore_valid, restored_entry, empty_tally,
}

module _ (s : KeyValueStore) (h : Hooks) where
  open s use {Contents, get}

  abbrev reserved_value : Contents → Option (List ℕ)
  reserved_value c = get c core_module_id password_key

  restore_entry-keeps :
      (r : Option Restored) (t : Tally) (c : Contents)
      → reserved_value (restore_entry s h r t c).1 ≡ reserved_value c
  unfolding restore_entry restore_valid
  restore_entry-keeps none t c = refl
  restore_entry-keeps (some r) t c =
      ground (arith, (settings_keep_reserved s c r.module_id r.key r.schema_version r.value).0)

  restore_entries-keeps :
      (entries : Items) (t : Tally) (c : Contents)
      → reserved_value (restore_entries s h entries t c).1 ≡ reserved_value c
  unfolding restore_entries
  restore_entries-keeps nil t c = refl
  restore_entries-keeps (cons entry entries) t c =
      let (t', c') = restore_entry s h (restored_entry entry) t c in
      restore_entries-keeps entries t' c' ∙ restore_entry-keeps (restored_entry entry) t c

  module _ (parse : List ℕ → Option Json) (dump : Json → List ℕ) where
    restore_settings-keeps :
        (json : Option Json) (d : Device s)
        → reserved_value (restore_settings s h parse dump json d).1.store ≡ reserved_value d.store
    unfolding restore_settings
    restore_settings-keeps (some (array entries)) d =
        restore_entries-keeps entries empty_tally d.store
    restore_settings-keeps none d = refl
    restore_settings-keeps (some null) d = refl
    restore_settings-keeps (some (boolean b)) d = refl
    restore_settings-keeps (some (integer n)) d = refl
    restore_settings-keeps (some (float n)) d = refl
    restore_settings-keeps (some (string t)) d = refl
    restore_settings-keeps (some (object fields)) d = refl

    restore_object-keeps :
        (fields : Option Fields) (d : Device s)
        → reserved_value (restore_object s h parse dump fields d).1.store ≡ reserved_value d.store
    unfolding restore_object
    restore_object-keeps none d = refl
    restore_object-keeps (some fields) d = restore_settings-keeps (find (codes "settings") fields) d

    pub restore_route-keeps :
        (request : HttpRequest) (d : Device s)
        → get (restore_route s h parse dump request d).1.store core_module_id password_key
          ≡ get d.store core_module_id password_key
    unfolding restore_route
    restore_route-keeps request d =
        restore_object-keeps (try_parse_json_object parse request.body) d
