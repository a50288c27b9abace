-- ===== src/Weather/Examples.antt =====
-- The theorem on the weather provider at a concrete place.
use homedeck.Base.{
  ℕ, ◌≡◌, refl, true, false, Option, none, some, List, [], ◌∷◌, length, ltb, ◌==◌, arith, bytes_eq,
}
use homedeck.Base.Int.{ℤ, pos, negsuc}
use homedeck.Base.Text.{codes}
use homedeck.Json.{
  Json, string, object, array, nil, cons, field, end, integer, float, find, string_member,
  try_parse_json_object,
}
use homedeck.Kodi.Reply.{Doubles}
use homedeck.Storage.{get_versioned, set_versioned, decode_if_present, decode, split_line}
use homedeck.Storage.Memory
use homedeck.Storage.Memory.{memory_store}
use homedeck.Codec.Decimal.{from_chars_int}
use homedeck.Weather.{
  Outside, Provider, poll_once, is_configured, read_response, cache_entry, parse_number, shown_name,
  reading, clamp_weather_code,
}
use homedeck.Http.{HttpRequest, json_response, error_response}
use homedeck.Url.{parse_form_field}
use homedeck.Weather.Geocode.{geocode_route, refresh_route}
use homedeck.Weather.Outage.{IsExact, IsCached, poll_once-outage}

-- A model of the doubles that are integers.
abbrev of_int : ℤ → ℕ
of_int (pos n) = n
of_int (negsuc n) = 0

abbrev small : Doubles
small = record {
  of_integer = of_int;
  less = λ x y. ltb x y;
  equal = λ x y. x == y;
  times = λ x y. x;
  truncate = λ x. pos x;
}

abbrev current_weather : Json
current_weather = object (
    field (codes "current")
      (object (
        field (codes "temperature_2m") (float 21)
          (field (codes "weather_code") (integer (pos 3)) end)))
      end)

-- The body of a response is empty, what is cached is not.
abbrev parse : List ℕ → Option Json
parse [] = some current_weather
parse (c ∷ cs) = some (object (cache_entry 21 (pos 3) []))

abbrev outside : Outside
outside = record {
  doubles = small;
  strtod = λ text. (0, length text);
  parse = parse;
  dump = λ j. 1 ∷ [];
}

abbrev place : Provider outside memory_store
place = record {
  state = record {
    configured = false;
    has_reading = false;
    live = false;
    temperature_c = 0;
    weather_code = pos 0;
    display_name = [];
  };
  settings =
      record { ns = codes "weather"; key = codes "latitude"; value = b'1' ∷ 10 ∷ codes "52" }
      ∷ record { ns = codes "weather"; key = codes "longitude"; value = b'1' ∷ 10 ∷ codes "13" }
      ∷ [];
  cache = [];
  updates = 0;
  warnings = 0;
}

exact : IsExact small
exact = record { order = λ m n h k. refl; back = λ n h. refl }

place_configured : is_configured outside memory_store place ≡ true
unfolding is_configured parse_number get_versioned decode_if_present decode from_chars_int
    split_line Memory.get bytes_eq
place_configured = refl

place-IsCached : IsCached outside memory_store 21 3 place
unfolding set_versioned try_parse_json_object cache_entry shown_name get_versioned decode_if_present
    Memory.get bytes_eq
place-IsCached = record { written = refl; reads = refl }

place_reading : read_response small parse (some (200, [])) ≡ some (21, pos 3)
unfolding read_response reading clamp_weather_code try_parse_json_object find bytes_eq
place_reading = refl

no_reading : read_response small parse none ≡ none
unfolding read_response
no_reading = refl

poll_once-outage_example :
    (poll_once outside memory_store
      (λ url. none)
      (poll_once outside memory_store (λ url. some (200, [])) place)).state
    ≡ record {
      configured = true;
      has_reading = true;
      live = false;
      temperature_c = 21;
      weather_code = pos 3;
      display_name = shown_name outside memory_store place;
    }
poll_once-outage_example =
    poll_once-outage outside memory_store (λ url. some (200, [])) (λ url. none) 21 3 place exact
      (omega arith) place-IsCached place_configured place_reading no_reading

-- The geocoder finds a place and an entry without coordinates; here only the first name is printed.
abbrev found : Json
found = object (
    field (codes "results")
      (array (
        cons (object (field (codes "name") (string (codes "Nowhere")) end)) (
          cons
            (object (
              field (codes "name") (string (codes "Bonn")) (
                field (codes "latitude") (float 50)
                  (field (codes "longitude") (integer (pos 7)) end))))
            nil)))
      end)

abbrev first_name : Json → List ℕ
first_name (object (field key (array (cons (object place) rest)) others)) =
    elim (string_member (codes "name") place) [ some name ↦ name | none ↦ [] ]
first_name _ = []

abbrev search_request : HttpRequest
search_request = record {
  path = codes "/api/weather/geocode";
  query = codes "query=Bonn";
  body = [];
  cookie_header = none;
}

bonn_found :
    geocode_route small (λ body. some found) first_name (λ url. some (200, [])) search_request
    ≡ json_response 200 (codes "Bonn")
unfolding geocode_route json_response parse_form_field try_parse_json_object string_member find
    bytes_eq
bonn_found = refl

upstream_silent :
    geocode_route small (λ body. some found) first_name (λ url. none) search_request
    ≡ error_response 502 (codes "upstream_failed")
unfolding geocode_route parse_form_field bytes_eq
upstream_silent = refl

refresh_asked : (refresh_route false).1 ≡ true
unfolding refresh_route
refresh_asked = refl
