-- ===== src/Weather.antt =====
-- The weather provider: src/core/weather_provider.cpp over Storage. The HTTP client, the JSON library,
-- `strtod` and the arithmetic on doubles are parameters; a double is its 64-bit pattern.
pub mod Outage
pub mod Geocode
mod Examples
use homedeck.Base.{
  ℕ, suc, ◌-◌, ◌==◌, ◌&&◌, ◌||◌, Bool, true, false, not, Option, none, some, List, [], ◌++◌,
  if◌then◌else◌, is_empty, bytes_eq, length,
}
use homedeck.Base.Int.{ℤ, pos, negsuc}
use homedeck.Base.Text.{codes}
use homedeck.Codec.Decimal.{◌>>=◌}
use homedeck.Json.{
  Json, integer, float, string, object, Fields, end, field, find, try_parse_json_object,
}
use homedeck.Kodi.Reply.{Doubles}
use homedeck.Storage.{KeyValueStore, VersionedValue, get_versioned, set_versioned}

pub record WeatherState : Type 0 where
  pub configured : Bool
  pub has_reading : Bool
  pub live : Bool
  pub temperature_c : ℕ
  pub weather_code : ℤ
  pub display_name : List ℕ

abbrev pub module_id : List ℕ
module_id = codes "weather"

abbrev pub latitude_key : List ℕ
latitude_key = codes "latitude"

abbrev pub longitude_key : List ℕ
longitude_key = codes "longitude"

abbrev pub display_name_key : List ℕ
display_name_key = codes "display_name"

abbrev pub cache_key : List ℕ
cache_key = codes "last_reading"

-- `strtod` answers the value, and how many bytes it has read.
unfoldable pub parse_number : (List ℕ → ℕ × ℕ) → List ℕ → Option ℕ
parse_number strtod text =
    let (value, consumed) = strtod text in
    if is_empty text then none else if not (consumed == length text) then none else some value

parses_as_number : (List ℕ → ℕ × ℕ) → Option VersionedValue → Bool
unfolding parse_number
parses_as_number strtod none = false
parses_as_number strtod (some setting) = elim (parse_number strtod setting.value) [
  | none ↦ false
  | some value ↦ true
]

value_or_empty : Option VersionedValue → List ℕ
value_or_empty none = []
value_or_empty (some setting) = setting.value

module _ (d : Doubles) where
  -- `std::clamp` between 0 and 99, and the narrowing behind it.
  unfoldable pub clamp_weather_code : ℕ → ℤ
  clamp_weather_code code =
      let low = d.of_integer (pos 0) in
      let high = d.of_integer (pos 99) in
      d.truncate (if d.less code low then low else if d.less high code then high else code)

  at_most : ℕ → ℕ → Bool
  at_most x y = d.less x y || d.equal x y

  in_range : ℕ → Option ℕ → Bool
  unfolding at_most
  in_range max_abs none = false
  in_range max_abs (some value) =
      at_most (d.of_integer (negsuc (max_abs - 1))) value
      && at_most value (d.of_integer (pos max_abs))

  unfoldable pub is_valid_weather_coordinate : (List ℕ → ℕ × ℕ) → List ℕ → List ℕ → Bool
  unfolding in_range parse_number
  is_valid_weather_coordinate strtod key value =
      if bytes_eq key latitude_key
      then is_empty value || in_range 90 (parse_number strtod value)
      else if bytes_eq key longitude_key
      then is_empty value || in_range 180 (parse_number strtod value)
      else true

  -- `is_number` and `get<double>`.
  unfoldable pub number : Option Json → Option ℕ
  number (some (integer n)) = some (d.of_integer n)
  number (some (float x)) = some x
  number _ = none

  -- A temperature under this name, and a weather code.
  unfoldable pub reading : List ℕ → Fields → Option (ℕ × ℤ)
  unfolding number clamp_weather_code
  reading temperature_name fields = do
    temperature ← number (find temperature_name fields)
    code ← number (find (codes "weather_code") fields)
    some (temperature, clamp_weather_code code)

  current_of : Option Json → Option Fields
  current_of (some (object fields)) = some fields
  current_of _ = none

  unfoldable pub read_response : (List ℕ → Option Json) → Option (ℕ × List ℕ) → Option (ℕ × ℤ)
  unfolding reading current_of try_parse_json_object
  read_response parse none = none
  read_response parse (some (status_code, body)) = if not (status_code == 200) then none else do
    parsed ← try_parse_json_object parse body
    current ← current_of (find (codes "current") parsed)
    reading (codes "temperature_2m") current

  unfoldable pub read_cached : (List ℕ → Option Json) → Option VersionedValue → Option (ℕ × ℤ)
  unfolding reading try_parse_json_object
  read_cached parse none = none
  read_cached parse (some cached) = do
    parsed ← try_parse_json_object parse cached.value
    reading (codes "temperature_c") parsed

-- What is cached; the library keeps the members in the order of their keys.
unfoldable pub cache_entry : ℕ → ℤ → List ℕ → Fields
cache_entry temperature_c weather_code name = field (codes "display_name") (string name) (
    field (codes "temperature_c") (float temperature_c)
      (field (codes "weather_code") (integer weather_code) end))

unfoldable pub forecast_url : List ℕ → List ℕ → List ℕ
forecast_url latitude longitude =
    codes "https://api.open-meteo.com/v1/forecast?latitude="
    ++ latitude
    ++ codes "&longitude="
    ++ longitude
    ++ codes "&current=temperature_2m,weather_code"

abbrev blank : WeatherState
blank = record {
  configured = false;
  has_reading = false;
  live = false;
  temperature_c = 0;
  weather_code = pos 0;
  display_name = [];
}

-- What a poll is run with: `get` answers the status and the body of a request that went through.
pub record Outside : Type 0 where
  pub doubles : Doubles
  pub strtod : List ℕ → ℕ × ℕ
  pub parse : List ℕ → Option Json
  pub dump : Json → List ℕ

module _ (o : Outside) (s : KeyValueStore) where
  -- `settings` and `cache` are the two stores; `updates` counts the events and `warnings` the lines
  -- of the log.
  pub record Provider : Type 0 where
    pub state : WeatherState
    pub settings : s.Contents
    pub cache : s.Contents
    pub updates : ℕ
    pub warnings : ℕ

  setting : List ℕ → Provider → Option VersionedValue
  unfolding get_versioned
  setting key p = get_versioned s p.settings module_id key

  unfoldable pub is_configured : Provider → Bool
  unfolding setting parses_as_number
  is_configured p =
      parses_as_number o.strtod (setting latitude_key p)
      && parses_as_number o.strtod (setting longitude_key p)

  unfoldable pub shown_name : Provider → List ℕ
  unfolding setting value_or_empty
  shown_name p = value_or_empty (setting display_name_key p)

  show : WeatherState → Provider → Provider
  show state p = record p { state = state; updates = suc p.updates }

  unfoldable pub store_reading : ℕ → ℤ → Provider → Provider
  unfolding set_versioned cache_entry shown_name
  store_reading temperature_c weather_code p =
      let (written, cache) =
        set_versioned s p.cache module_id cache_key (pos 1)
          (o.dump (object (cache_entry temperature_c weather_code (shown_name p)))) in
      record p { cache = cache; warnings = if written then p.warnings else suc p.warnings }

  reading_state : Bool → ℕ × ℤ → Provider → WeatherState
  unfolding shown_name
  reading_state live (temperature_c, weather_code) p = record {
    configured = true;
    has_reading = true;
    live = live;
    temperature_c = temperature_c;
    weather_code = weather_code;
    display_name = shown_name p;
  }

  -- Without a fresh reading the cached one is shown.
  unfoldable pub show_cached : Option (ℕ × ℤ) → Provider → Provider
  unfolding show reading_state shown_name
  show_cached (some r) p = show (reading_state false r p) p
  show_cached none p = show (record blank { configured = true; display_name = shown_name p }) p

  unfoldable pub show_response : Option (ℕ × ℤ) → Provider → Provider
  unfolding show reading_state store_reading show_cached read_cached get_versioned
  show_response (some (temperature_c, weather_code)) p =
      show (reading_state true (temperature_c, weather_code) p)
        (store_reading temperature_c weather_code p)
  show_response none p =
      show_cached (read_cached o.doubles o.parse (get_versioned s p.cache module_id cache_key)) p

  unfoldable pub poll_url : Provider → List ℕ
  unfolding forecast_url value_or_empty setting
  poll_url p =
      forecast_url (value_or_empty (setting latitude_key p))
        (value_or_empty (setting longitude_key p))

  -- `PollOnce`; `get` is the HTTP client.
  unfoldable pub poll_once : (List ℕ → Option (ℕ × List ℕ)) → Provider → Provider
  unfolding show show_response is_configured read_response poll_url
  poll_once get p =
      if not (is_configured p)
      then show blank p
      else show_response (read_response o.doubles o.parse (get (poll_url p))) p
