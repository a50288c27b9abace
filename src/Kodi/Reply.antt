-- ===== src/Kodi/Reply.antt =====
-- The typed readers of src/core/kodi_json.cpp. A double is its 64-bit pattern, and the processor's
-- arithmetic on doubles is a parameter.
use homedeck.Base.{
  ℕ, ◌+◌, ◌-◌, ◌*◌, ◌%◌, ◌^◌, ◌≤◌, Bool, Option, none, some, List, arith, ltb, if◌then◌else◌,
}
use homedeck.Base.Int.{ℤ, pos, negsuc, sub_ℕ, ltb_ℤ, ◌≤ℤ◌, pos_part}
use homedeck.Base.Text.{codes}
use homedeck.Json.{Json, boolean, integer, float, string, object, find, array, Items}

pub record Doubles : Type 0 where
  pub of_integer : ℤ → ℕ
  pub less : ℕ → ℕ → Bool
  pub equal : ℕ → ℕ → Bool
  pub times : ℕ → ℕ → ℕ
  pub truncate : ℕ → ℤ

-- `static_cast` of an integer to a signed type of w bits.
unfoldable pub signed_cast : ℕ → ℤ → ℤ
signed_cast w (pos n) = let m = n % 2 ^ w in if ltb m (2 ^ (w - 1)) then pos m else sub_ℕ m (2 ^ w)
signed_cast w (negsuc n) =
    let m = 2 ^ w - 1 - n % 2 ^ w in if ltb m (2 ^ (w - 1)) then pos m else sub_ℕ m (2 ^ w)

-- `find` of a value that may be no object.
unfoldable pub member : List ℕ → Json → Option Json
member key (object fields) = find key fields
member key _ = none

unfoldable pub integer_or : ℤ → Option Json → ℤ
unfolding signed_cast
integer_or fallback (some (integer n)) = signed_cast 64 n
integer_or fallback _ = fallback

unfoldable pub get_int : Json → List ℕ → ℤ → ℤ
unfolding member integer_or
get_int j key fallback = integer_or fallback (member key j)

unfoldable pub clamp_ℤ : ℤ → ℤ → ℤ → ℤ
clamp_ℤ low high n = if ltb_ℤ n low then low else if ltb_ℤ high n then high else n

unfoldable pub get_bounded_int : Json → List ℕ → ℤ → ℤ → ℤ → ℤ
unfolding get_int clamp_ℤ
get_bounded_int j key fallback low high = clamp_ℤ low high (get_int j key fallback)

string_or : List ℕ → Option Json → List ℕ
string_or fallback (some (string text)) = text
string_or fallback _ = fallback

unfoldable pub get_string : Json → List ℕ → List ℕ → List ℕ
unfolding member string_or
get_string j key fallback = string_or fallback (member key j)

boolean_or : Bool → Option Json → Bool
boolean_or fallback (some (boolean b)) = b
boolean_or fallback _ = fallback

unfoldable pub get_bool : Json → List ℕ → Bool → Bool
unfolding member boolean_or
get_bool j key fallback = boolean_or fallback (member key j)

module _ (d : Doubles) where
  double_or : ℕ → Option Json → ℕ
  double_or fallback (some (integer n)) = d.of_integer n
  double_or fallback (some (float x)) = x
  double_or fallback _ = fallback

  unfoldable pub get_double : Json → List ℕ → ℕ → ℕ
  unfolding member double_or
  get_double j key fallback = double_or fallback (member key j)

-- The named array in a reply's `result` object.
unfoldable pub nested_member : List ℕ → Option Json → Option Json
unfolding member
nested_member key none = none
nested_member key (some j) = member key j

unfoldable pub as_array : Option Json → Option Items
as_array (some (array items)) = some items
as_array _ = none

unfoldable pub result_array : Json → List ℕ → Option Items
unfolding nested_member as_array member
result_array parsed key = as_array (nested_member key (member (codes "result") parsed))

abbrev pub max_time_field_value : ℕ
max_time_field_value = 1000000

abbrev pub max_season_or_episode : ℕ
max_season_or_episode = 1000000

-- One field of a time object.
unfoldable pub time_field : Json → List ℕ → ℕ
unfolding get_bounded_int clamp_ℤ
time_field t key = pos_part (get_bounded_int t key (pos 0) (pos 0) (pos max_time_field_value))

unfoldable pub millis_from_time_object : Json → ℕ
unfolding time_field
millis_from_time_object t =
    let seconds =
      time_field t (codes "hours") * 3600
      + time_field t (codes "minutes") * 60
      + time_field t (codes "seconds") in
    seconds * 1000 + time_field t (codes "milliseconds")

abbrev pub max_volume : ℕ
max_volume = 100

abbrev pub max_speed : ℕ
max_speed = 1000

unfoldable pub clamp_volume : ℤ → ℕ
clamp_volume (pos n) = if ltb max_volume n then max_volume else n
clamp_volume (negsuc n) = 0

unfoldable pub clamp_speed : ℤ → ℤ
unfolding clamp_ℤ
clamp_speed n = clamp_ℤ (negsuc (max_speed - 1)) (pos max_speed) n

pub clamp_ℤ-le :
    (low high n : ℤ) → low ≤ℤ high → (low ≤ℤ clamp_ℤ low high n) × (clamp_ℤ low high n ≤ℤ high)
unfolding clamp_ℤ
clamp_ℤ-le low high n h = ground arith

clamp_ℤ_part-le : (high : ℕ) (n : ℤ) → pos_part (clamp_ℤ (pos 0) (pos high) n) ≤ high
unfolding clamp_ℤ
clamp_ℤ_part-le high n = ground arith

pub time_field-le : (t : Json) (key : List ℕ) → time_field t key ≤ max_time_field_value
unfolding time_field get_bounded_int
time_field-le t key = clamp_ℤ_part-le max_time_field_value (get_int t key (pos 0))

-- The milliseconds of any value fit in a signed 64-bit number, and so does every step on the way.
pub millis_from_time_object-bounded : (t : Json) → millis_from_time_object t ≤ 3661001000000
unfolding millis_from_time_object
millis_from_time_object-bounded t = omega (
  arith,
  time_field-le t (codes "hours"),
  time_field-le t (codes "minutes"),
  time_field-le t (codes "seconds"),
  time_field-le t (codes "milliseconds"),
)
