-- ===== src/Settings/Route.antt =====
-- All the settings endpoints together, and what none of them can do.
use homedeck.Base.{ℕ, ◌≡◌, refl, ◌∙◌, Option, none, some, List, [], ◌∷◌, arith}
use homedeck.Base.Int.{ℤ, pos}
use homedeck.Base.Text.{codes}
use homedeck.Http.{HttpRequest, HttpResponse}
use homedeck.Json.{Json, Fields, string_member, try_parse_json_object}
use homedeck.Storage.{KeyValueStore, set_setting, core_module_id, password_key}
use homedeck.Storage.Laws.{settings_keep_reserved}
use homedeck.Settings.{
  Hooks, Device, list_route, post_route, erase_route, backup_route, post_object, post_members,
  check_setting, write_setting, erase_object, erase_members, schema_member,
}
use homedeck.Settings.Restore.{restore_route}
use homedeck.Settings.Restore.Reserved.{restore_route-keeps}

pub data Route : Type 0 where
  listing saving erasing backup restoring : Route

module _ (s : KeyValueStore) (parse : List ℕ → Option Json) (dump : Json → List ℕ) (h : Hooks) where
  open s use {Contents, get}

  -- The handler of a route.
  pub handle : Route → HttpRequest → Device s → HttpResponse × Device s
  unfolding list_route post_route erase_route backup_route restore_route
  handle listing request d = list_route s parse dump h request d
  handle saving request d = post_route s parse dump h request d
  handle erasing request d = erase_route s parse dump h request d
  handle backup request d = backup_route s parse dump h request d
  handle restoring request d = restore_route s h parse dump request d

  pub serve : List (Route × HttpRequest) → Device s → Device s
  unfolding handle
  serve [] d = d
  serve ((route, request) ∷ rest) d = serve rest (handle route request d).1

  abbrev reserved_value : Contents → Option (List ℕ)
  reserved_value c = get c core_module_id password_key

  -- A result that left the reserved key alone.
  abbrev Keeps : Device s → HttpResponse × Device s → Type 0
  Keeps d r = reserved_value r.1.store ≡ reserved_value d.store

  keeps_set :
      (c : Contents) (m k v : List ℕ) (n : ℤ)
      → reserved_value (set_setting s c m k n v).1 ≡ reserved_value c
  keeps_set c m k v n = (settings_keep_reserved s c m k n v).0

  check_setting-Keeps :
      (m k v : List ℕ) (n : ℤ) (d : Device s) → Keeps d (check_setting s parse dump h m k v n d)
  unfolding check_setting write_setting
  check_setting-Keeps m k v n d = ground (arith, keeps_set d.store m k v n)

  post_members-Keeps :
      (m k v : Option (List ℕ)) (n : Option ℤ) (d : Device s)
      → Keeps d (post_members s parse dump h m k v n d)
  unfolding post_members
  post_members-Keeps none k v n d = refl
  post_members-Keeps (some m) none v n d = refl
  post_members-Keeps (some m) (some k) none n d = refl
  post_members-Keeps (some m) (some k) (some v) none d = refl
  post_members-Keeps (some m) (some k) (some v) (some n) d = check_setting-Keeps m k v n d

  post_object-Keeps :
      (fields : Option Fields) (d : Device s) → Keeps d (post_object s parse dump h fields d)
  unfolding post_object
  post_object-Keeps none d = refl
  post_object-Keeps (some fields) d =
      post_members-Keeps (string_member (codes "module") fields)
        (string_member (codes "key") fields) (string_member (codes "value") fields)
        (schema_member fields) d

  erase_members-Keeps :
      (m k : Option (List ℕ)) (d : Device s) → Keeps d (erase_members s parse dump h m k d)
  unfolding erase_members
  erase_members-Keeps none none d = refl
  erase_members-Keeps none (some k) d = refl
  erase_members-Keeps (some m) none d = refl
  erase_members-Keeps (some m) (some k) d =
      ground (arith, (settings_keep_reserved s d.store m k (pos 0) []).1)

  erase_object-Keeps :
      (fields : Option Fields) (d : Device s) → Keeps d (erase_object s parse dump h fields d)
  unfolding erase_object
  erase_object-Keeps none d = refl
  erase_object-Keeps (some fields) d =
      erase_members-Keeps (string_member (codes "module") fields)
        (string_member (codes "key") fields) d

  handle-Keeps :
      (route : Route) (request : HttpRequest) (d : Device s) → Keeps d (handle route request d)
  unfolding handle list_route post_route erase_route backup_route
  handle-Keeps listing request d = refl
  handle-Keeps saving request d = post_object-Keeps (try_parse_json_object parse request.body) d
  handle-Keeps erasing request d = erase_object-Keeps (try_parse_json_object parse request.body) d
  handle-Keeps backup request d = refl
  handle-Keeps restoring request d = restore_route-keeps s h parse dump request d

  -- No sequence of requests to the five endpoints, whatever they hold, changes what the store has
  -- under the administrator's reserved key.
  pub serve_keeps_reserved :
      (requests : List (Route × HttpRequest)) (d : Device s)
      → get (serve requests d).store core_module_id password_key
        ≡ get d.store core_module_id password_key
  unfolding serve
  serve_keeps_reserved [] d = refl
  serve_keeps_reserved ((route, request) ∷ rest) d =
      serve_keeps_reserved rest (handle route request d).1 ∙ handle-Keeps route request d
