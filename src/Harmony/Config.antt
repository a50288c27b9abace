-- ===== src/Harmony/Config.antt =====
-- The hub's configuration, as src/core/harmony_connection.cpp reads it out of an answer.
use homedeck.Base.{ℕ, Option, none, some, List, [], ◌∷◌, ltb, if◌then◌else◌, is_empty}
use homedeck.Base.Int.{ℤ, pos, negsuc, sub_ℕ}
use homedeck.Base.Text.{codes}
use homedeck.Codec.Decimal.{to_string_ℤ}
use homedeck.Json.{
  Json, string, integer, array, object, nil, cons, Items, Fields, find, string_member,
}

pub record HarmonyCommand : Type 0 where
  pub name : List ℕ
  pub label : List ℕ
  pub action : List ℕ

pub record HarmonyControlGroup : Type 0 where
  pub name : List ℕ
  pub commands : List HarmonyCommand

pub record HarmonyDevice : Type 0 where
  pub id : List ℕ
  pub label : List ℕ
  pub control_groups : List HarmonyControlGroup

pub record HarmonyActivity : Type 0 where
  pub id : List ℕ
  pub label : List ℕ

-- `get<long long>()`: the parser's integers reach from -2^63 to 2^64 - 1.
as_int64 : ℤ → ℤ
as_int64 (pos n) = if ltb n 9223372036854775808 then pos n else sub_ℕ n 18446744073709551616
as_int64 (negsuc n) = negsuc n

unfoldable pub number_or_string_to_string : Json → List ℕ
unfolding as_int64
number_or_string_to_string (string text) = text
number_or_string_to_string (integer n) = to_string_ℤ (as_int64 n)
number_or_string_to_string _ = []

-- The `id` of an entry: absent, of a wrong type or empty is `none`.
id_member : Fields → Option (List ℕ)
id_member fields = elim (find (codes "id") fields) [
  | none ↦ none
  | some value ↦ let id = number_or_string_to_string value in if is_empty id then none else some id
]

-- `item.value(key, json::array())`.
unfoldable pub array_member : List ℕ → Fields → Json
array_member key fields = elim (find key fields) [ none ↦ array nil | some value ↦ value ]

activity_of : Option (List ℕ) → Option (List ℕ) → Option HarmonyActivity
activity_of (some id) (some label) = some (record { id = id; label = label })
activity_of _ _ = none

parse_activity : Json → Option HarmonyActivity
unfolding activity_of id_member string_member
parse_activity (object fields) =
    activity_of (id_member fields) (string_member (codes "label") fields)
parse_activity _ = none

-- A reader's entry before the rest, or a skipped entry.
keep {ℓ} : {A : Type ℓ} → Option A → List A → List A
keep none rest = rest
keep (some entry) rest = entry ∷ rest

read_items {ℓ} : {A : Type ℓ} → (Json → Option A) → Items → List A
unfolding keep
read_items reader nil = []
read_items reader (cons item items) = keep (reader item) (read_items reader items)

read_array {ℓ} : {A : Type ℓ} → (Json → Option A) → Json → List A
unfolding read_items
read_array reader (array items) = read_items reader items
read_array reader _ = []

unfoldable pub parse_id_label_array : Json → List HarmonyActivity
unfolding read_array parse_activity
parse_id_label_array json = read_array parse_activity json

command_of : Option (List ℕ) → Option (List ℕ) → Option (List ℕ) → Option HarmonyCommand
command_of (some name) (some label) (some action) =
    some (record { name = name; label = label; action = action })
command_of _ _ _ = none

parse_command : Json → Option HarmonyCommand
unfolding command_of string_member
parse_command (object fields) =
    command_of (string_member (codes "name") fields) (string_member (codes "label") fields)
      (string_member (codes "action") fields)
parse_command _ = none

parse_control_group : Json → Option HarmonyControlGroup
unfolding read_array parse_command
parse_control_group (object fields) = elim (string_member (codes "name") fields) [
  | none ↦ none
  | some name ↦ some (record {
    name = name;
    commands = read_array parse_command (array_member (codes "function") fields);
  })
]
parse_control_group _ = none

parse_control_groups : Json → List HarmonyControlGroup
unfolding read_array parse_control_group
parse_control_groups json = read_array parse_control_group json

device_of : Option (List ℕ) → Option (List ℕ) → List HarmonyControlGroup → Option HarmonyDevice
device_of (some id) (some label) groups =
    some (record { id = id; label = label; control_groups = groups })
device_of _ _ _ = none

parse_device : Json → Option HarmonyDevice
unfolding device_of id_member string_member parse_control_groups array_member
parse_device (object fields) =
    device_of (id_member fields) (string_member (codes "label") fields)
      (parse_control_groups (array_member (codes "controlGroup") fields))
parse_device _ = none

unfoldable pub parse_devices : Json → List HarmonyDevice
unfolding read_array parse_device
parse_devices json = read_array parse_device json
