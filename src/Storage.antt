-- ===== src/Storage.antt =====
-- src/core/storage.cpp, on top of the platform's stores. A store is an interface of the platform
-- (NVS partitions on the device, files in the simulator), and enters as `KeyValueStore`.
pub mod Laws
pub mod Memory
pub mod Segment
mod Examples
use homedeck.Base.{
  ℕ, zero, suc, ◌≡◌, Bool, true, false, ◌&&◌, ◌||◌, Option, none, some, List, [], ◌∷◌, ◌++◌, ◌==◌,
  if◌then◌else◌, bytes_eq, length, take, drop,
}
use homedeck.Base.Int.{ℤ}
use homedeck.Base.Text.{codes}
use homedeck.Codec.Decimal.{to_string_ℤ, from_chars_int, ◌>>=◌}

pub record VersionedValue : Type 0 where
  pub schema_version : ℤ
  pub value : List ℕ

unfoldable pub encode : ℤ → List ℕ → List ℕ
unfolding to_string_ℤ
encode schema_version value = to_string_ℤ schema_version ++ (10 ∷ value)

-- The text before the first line feed, and the text behind it, if there is one.
unfoldable pub split_line : List ℕ → Option (List ℕ × List ℕ)
split_line [] = none
split_line (c ∷ cs) =
    if c == 10 then some ([], cs) else split_line cs >>= (λ p. some (c ∷ p.0, p.1))

unfoldable pub decode : List ℕ → Option VersionedValue
unfolding split_line from_chars_int
decode raw = do
  (head, value) ← split_line raw
  schema_version ← from_chars_int head
  some (record { schema_version = schema_version; value = value })

unfoldable pub decode_if_present : Option (List ℕ) → Option VersionedValue
unfolding decode
decode_if_present none = none
decode_if_present (some raw) = decode raw

-- An entry of a store: its namespace, its key and what is stored.
pub record Entry : Type 0 where
  pub ns : List ℕ
  pub key : List ℕ
  pub value : List ℕ

pub record SettingEntry : Type 0 where
  pub module_id : List ℕ
  pub key : List ℕ
  pub schema_version : ℤ
  pub value : List ℕ

-- What `SettingsStore`, `CacheStore` and `SecretStore` promise: a write that reports success is
-- read back, and no write or removal touches another key.
pub record KeyValueStore : Type 1 where
  pub Contents : Type 0
  pub get : Contents → List ℕ → List ℕ → Option (List ℕ)
  pub set : Contents → List ℕ → List ℕ → List ℕ → Bool × Contents
  pub erase : Contents → List ℕ → List ℕ → Bool × Contents
  pub list_all : Contents → List Entry
  pub get-set :
      (c : Contents) (ns key v : List ℕ)
      → (set c ns key v).0 ≡ true
      → get (set c ns key v).1 ns key ≡ some v
  pub get-set_ne :
      (c : Contents) (ns key v ns' key' : List ℕ)
      → (bytes_eq ns' ns && bytes_eq key' key) ≡ false
      → get (set c ns key v).1 ns' key' ≡ get c ns' key'
  pub get-erase :
      (c : Contents) (ns key : List ℕ)
      → (erase c ns key).0 ≡ true
      → get (erase c ns key).1 ns key ≡ none
  pub get-erase_ne :
      (c : Contents) (ns key ns' key' : List ℕ)
      → (bytes_eq ns' ns && bytes_eq key' key) ≡ false
      → get (erase c ns key).1 ns' key' ≡ get c ns' key'

-- `AdminAuthService::kModuleId` and `kPasswordKey`.
abbrev pub core_module_id : List ℕ
core_module_id = codes "core"

abbrev pub password_key : List ℕ
password_key = codes "admin_pw_hash"

unfoldable pub is_reserved_settings_key : List ℕ → List ℕ → Bool
unfolding bytes_eq
is_reserved_settings_key module_id key =
    bytes_eq module_id core_module_id && bytes_eq key password_key

list_decoded : List Entry → List SettingEntry
unfolding decode is_reserved_settings_key
list_decoded [] = []
list_decoded (raw ∷ raws) =
    let rest = list_decoded raws in
    if is_reserved_settings_key raw.ns raw.key then rest else elim (decode raw.value) [
      | none ↦ rest
      | some d ↦
          record {
            module_id = raw.ns;
            key = raw.key;
            schema_version = d.schema_version;
            value = d.value;
          }
          ∷ rest
    ]

-- One store with the versioned envelope: the operations on secrets and on the cache are these,
-- those on settings guard the reserved key first.
module _ (s : KeyValueStore) where
  open s use {Contents, get, set, erase, list_all}

  unfoldable pub set_versioned : Contents → List ℕ → List ℕ → ℤ → List ℕ → Bool × Contents
  unfolding encode
  set_versioned c module_id key schema_version value =
      set c module_id key (encode schema_version value)

  unfoldable pub get_versioned : Contents → List ℕ → List ℕ → Option VersionedValue
  unfolding decode_if_present
  get_versioned c module_id key = decode_if_present (get c module_id key)

  unfoldable pub set_setting : Contents → List ℕ → List ℕ → ℤ → List ℕ → Bool × Contents
  unfolding set_versioned is_reserved_settings_key
  set_setting c module_id key schema_version value =
      if is_reserved_settings_key module_id key
      then (false, c)
      else set_versioned c module_id key schema_version value

  pub erase_setting : Contents → List ℕ → List ℕ → Bool × Contents
  erase_setting c module_id key =
      if is_reserved_settings_key module_id key then (false, c) else erase c module_id key

  unfoldable pub list_all_settings : Contents → List SettingEntry
  unfolding list_decoded
  list_all_settings c = list_decoded (list_all c)
