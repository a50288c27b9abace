-- ===== src/Auth/Service/Guard.antt =====
-- `RequireAuth` and the endpoints of `RegisterAdminAuthRoutes`, with the parser and the printer of
-- the JSON library as parameters.
pub mod Access
use homedeck.Base.{
  ℕ, zero, suc, ◌+◌, ◌*◌, ◌≤◌, ◌≡◌, refl, ◌⊎◌, inl, inr, Bool, true, false, not, ◌&&◌, Option, none,
  some, List, [], ◌∷◌, ◌++◌, arith, ltb, leb, if◌then◌else◌, length,
}
use homedeck.Base.Text.{codes}
use homedeck.Codec.Decimal.{to_string}
use homedeck.Http.{HttpRequest, HttpResponse, json_response, error_response}
use homedeck.Json.{Json, Fields, string, boolean, object, field, end, find, try_parse_json_object}
use homedeck.Storage.{KeyValueStore}
use homedeck.Auth.Cookie.{extract_cookie}
use homedeck.Auth.Stored.{StoredPasswordHash}
use homedeck.Auth.Service.{
  Crypto, Service, Token, is_password_set, set_initial_password, login_begin, password_matches,
  login_finish, validate_session, logout, is_login_locked_out,
}

abbrev pub min_password_length : ℕ
min_password_length = 8

abbrev pub max_password_length : ℕ
max_password_length = 256

abbrev pub session_lifetime_seconds : ℕ
session_lifetime_seconds = 24 * 60 * 60

abbrev session_name : List ℕ
session_name = codes "session"

abbrev pub setup_required : HttpResponse
setup_required = json_response 403 (codes "{\"error\":\"setup_required\"}")

abbrev pub unauthenticated : HttpResponse
unauthenticated = json_response 401 (codes "{\"error\":\"unauthenticated\"}")

pub set_cookie_header : Token → ℕ → List ℕ
set_cookie_header token max_age_seconds =
    codes "session="
    ++ (token
        ++ (codes "; HttpOnly; SameSite=Strict; Path=/; Max-Age=" ++ to_string max_age_seconds))

unfoldable pub request_token : HttpRequest → Option Token
request_token request = elim (request.cookie_header) [
  | none ↦ none
  | some header ↦ extract_cookie header session_name
]

unfoldable pub ok_with_cookie : Token → ℕ → HttpResponse
unfolding set_cookie_header json_response
ok_with_cookie token max_age = record (json_response 200 (codes "{\"ok\":true}")) {
  extra_headers = (codes "Set-Cookie", set_cookie_header token max_age) ∷ [];
}

module _ (c : Crypto) (s : KeyValueStore) where
  check_token : ℕ → Option Token → Service c s → Bool × Service c s
  check_token now none w = (false, w)
  check_token now (some t) w = validate_session c s now t w

  -- A handler works on its own state, and the service lets it run or answers in its place.
  unfoldable pub require_auth {ℓ} :
      {A : Type ℓ}
      → (HttpRequest → A → HttpResponse × A)
      → ℕ
      → HttpRequest
      → Service c s
      → A
      → HttpResponse × Service c s × A
  unfolding check_token request_token
  require_auth inner now request w a =
      if not (is_password_set c s w)
      then (setup_required, w, a)
      else let (valid, w') = check_token now (request_token request) w in
        if not valid
        then (unauthenticated, w', a)
        else let (response, a') = inner request a in (response, w', a')

  -- The whole of `Login`, with nothing in between. The clock readings: the check, the lock, the sweep
  -- and the issue.
  after_begin :
      List ℕ → ℕ → ℕ → Option (Option StoredPasswordHash) × Service c s → Option Token × Service c s
  after_begin password sweep_now issue_now (none, w) = (none, w)
  after_begin password sweep_now issue_now (some h, w) =
      login_finish c s (password_matches c s password h) sweep_now issue_now w

  pub login : List ℕ → ℕ → ℕ → ℕ → ℕ → Service c s → Option Token × Service c s
  unfolding after_begin
  login password check_now lock_now sweep_now issue_now w =
      after_begin password sweep_now issue_now (login_begin c s check_now lock_now w)

  pub status_route : (Json → List ℕ) → ℕ → HttpRequest → Service c s → HttpResponse × Service c s
  unfolding check_token
  status_route dump now request w =
      let (authenticated, w') = check_token now (request_token request) w in
      (
        json_response 200 (
            dump (
              object (
                field (codes "passwordSet") (boolean (is_password_set c s w'))
                  (field (codes "authenticated") (boolean authenticated) end)))),
        w',
      )

  module _ (parse : List ℕ → Option Json) where
    password_field : Option Fields → Option (List ℕ)
    password_field none = none
    password_field (some fields) = elim (find (codes "password") fields) [
      | some (string text) ↦ some text
      | _ ↦ none
    ]

    unfoldable pub read_password_field : List ℕ → Option (List ℕ)
    unfolding password_field try_parse_json_object find
    read_password_field body = password_field (try_parse_json_object parse body)

    -- The answer of the setup endpoint to what `SetInitialPassword` returned.
    setup_answer : Option Token × Service c s → HttpResponse × Service c s
    setup_answer (some token, w) = (ok_with_cookie token session_lifetime_seconds, w)
    setup_answer (none, w) = (
      if is_password_set c s w
          then error_response 409 (codes "already_set")
          else error_response 500 (codes "storage_write_failed"),
      w,
    )

    setup_with : Option (List ℕ) → ℕ → ℕ → Service c s → HttpResponse × Service c s
    unfolding setup_answer
    setup_with none sweep_now issue_now w = (error_response 400 (codes "invalid_request"), w)
    setup_with (some password) sweep_now issue_now w =
        if ltb (length password) min_password_length
        then (error_response 400 (codes "password_too_short"), w)
        else if ltb max_password_length (length password)
        then (error_response 400 (codes "password_too_long"), w)
        else setup_answer (set_initial_password c s password sweep_now issue_now w)

    unfoldable pub setup_route : ℕ → ℕ → HttpRequest → Service c s → HttpResponse × Service c s
    unfolding setup_with
    setup_route sweep_now issue_now request w =
        if is_password_set c s w
        then (error_response 409 (codes "already_set"), w)
        else setup_with (read_password_field request.body) sweep_now issue_now w

    login_answer : Option Token × Service c s → HttpResponse × Service c s
    login_answer (some token, w) = (ok_with_cookie token session_lifetime_seconds, w)
    login_answer (none, w) = (error_response 401 (codes "invalid_credentials"), w)

    login_with : Option (List ℕ) → ℕ → ℕ → ℕ → ℕ → Service c s → HttpResponse × Service c s
    unfolding login_answer
    login_with none check_now lock_now sweep_now issue_now w =
        (error_response 400 (codes "invalid_request"), w)
    login_with (some password) check_now lock_now sweep_now issue_now w =
        if ltb max_password_length (length password)
        then (error_response 400 (codes "password_too_long"), w)
        else login_answer (login password check_now lock_now sweep_now issue_now w)

    -- The lockout is read once for the route, and again by `Login`.
    pub login_route : ℕ → ℕ → ℕ → ℕ → ℕ → HttpRequest → Service c s → HttpResponse × Service c s
    unfolding login_with
    login_route route_now check_now lock_now sweep_now issue_now request w =
        if is_login_locked_out c s route_now w
        then (error_response 429 (codes "too_many_attempts"), w)
        else login_with (read_password_field request.body) check_now lock_now sweep_now issue_now w

  pub logout_route : HttpRequest → Service c s → HttpResponse × Service c s
  logout_route request w = (
    ok_with_cookie [] 0,
    elim (request_token request) [ none ↦ w | some token ↦ logout c s token w ],
  )
