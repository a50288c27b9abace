-- ===== src/Weather/Geocode.antt =====
-- The two handlers of src/core/weather_routes.cpp, behind the guard. The HTTP client is a parameter.
use homedeck.Base.{
  ℕ, ◌==◌, Bool, true, not, Option, none, some, List, [], ◌++◌, if◌then◌else◌, is_empty, ltb,
  length,
}
use homedeck.Base.Text.{codes}
use homedeck.Codec.Decimal.{◌>>=◌}
use homedeck.Http.{HttpRequest, HttpResponse, json_response, error_response}
use homedeck.Json.{
  Json, string, float, object, array, Items, nil, cons, Fields, end, field, find, string_member,
  try_parse_json_object,
}
use homedeck.Kodi.Reply.{Doubles}
use homedeck.Url.{parse_form_field, url_encode}
use homedeck.Weather.{number}

abbrev max_geocode_query_length : ℕ
max_geocode_query_length = 100

missing_query : HttpResponse
unfolding json_response
missing_query = json_response 400 (codes "{\"error\":\"missing_field\",\"field\":\"query\"}")

geocode_url : List ℕ → List ℕ
unfolding url_encode
geocode_url query =
    codes "https://geocoding-api.open-meteo.com/v1/search?name="
    ++ url_encode query
    ++ codes "&count=10"

optional_string : List ℕ → Fields → List ℕ
unfolding string_member
optional_string key entry = elim (string_member key entry) [ some text ↦ text | none ↦ [] ]

module _ (d : Doubles) where
  -- One place; an entry without a name or without coordinates is passed over.
  place : Fields → Option Json
  unfolding optional_string string_member number
  place entry = do
    name ← string_member (codes "name") entry
    latitude ← number d (find (codes "latitude") entry)
    longitude ← number d (find (codes "longitude") entry)
    some (
        object (
          field (codes "admin1") (string (optional_string (codes "admin1") entry)) (
            field (codes "country") (string (optional_string (codes "country") entry)) (
              field (codes "latitude") (float latitude) (
                field (codes "longitude") (float longitude)
                  (field (codes "name") (string name) end))))))

  place_of : Json → Option Json
  unfolding place
  place_of (object entry) = place entry
  place_of _ = none

  places : Items → Items
  unfolding place_of
  places nil = nil
  places (cons entry entries) =
      let rest = places entries in
      elim (place_of entry) [ some found ↦ cons found rest | none ↦ rest ]

  places_of : Option Json → Items
  unfolding places
  places_of (some (array entries)) = places entries
  places_of _ = nil

  module _ (parse : List ℕ → Option Json) (dump : Json → List ℕ) where
    parsed_response : Option Fields → HttpResponse
    unfolding places_of json_response
    parsed_response none = error_response 502 (codes "upstream_invalid_response")
    parsed_response (some reply) = json_response 200 (
        dump
          (object (field (codes "results") (array (places_of (find (codes "results") reply))) end)))

    upstream_response : Option (ℕ × List ℕ) → HttpResponse
    unfolding parsed_response try_parse_json_object
    upstream_response none = error_response 502 (codes "upstream_failed")
    upstream_response (some (status_code, body)) =
        if not (status_code == 200)
        then error_response 502 (codes "upstream_failed")
        else parsed_response (try_parse_json_object parse body)

    geocode : (List ℕ → Option (ℕ × List ℕ)) → Option (List ℕ) → HttpResponse
    unfolding upstream_response geocode_url missing_query
    geocode get none = missing_query
    geocode get (some query) =
        if is_empty query
        then missing_query
        else if ltb max_geocode_query_length (length query)
        then error_response 400 (codes "query_too_long")
        else upstream_response (get (geocode_url query))

    unfoldable pub geocode_route : (List ℕ → Option (ℕ × List ℕ)) → HttpRequest → HttpResponse
    unfolding geocode parse_form_field
    geocode_route get request = geocode get (parse_form_field request.query (codes "query"))

-- `TriggerPoll` sets the flag that the task's wait tests.
unfoldable pub refresh_route : Bool → HttpResponse × Bool
unfolding json_response
refresh_route wake_requested = (json_response 200 (codes "{\"status\":\"ok\"}"), true)
