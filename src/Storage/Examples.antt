-- ===== src/Storage/Examples.antt =====
-- The theorems on storage at concrete values.
use homedeck.Base.{◌≡◌, refl, List, [], ◌∷◌}
use homedeck.Base.Int.{pos}
use homedeck.Base.Text.{codes}
use homedeck.Storage.{Entry, encode, list_all_settings, core_module_id, password_key}
use homedeck.Storage.Memory.{memory_store}

abbrev stored : List Entry
stored =
    record { ns = core_module_id; key = password_key; value = encode (pos 1) (codes "x") }
    ∷ record { ns = codes "kodi"; key = codes "host"; value = encode (pos 1) (codes "tv.local") }
    ∷ []

stored_listing :
    list_all_settings memory_store stored
    ≡ record {
      module_id = codes "kodi";
      key = codes "host";
      schema_version = pos 1;
      value = codes "tv.local";
    }
      ∷ []
unfolding list_all_settings encode
stored_listing = refl
