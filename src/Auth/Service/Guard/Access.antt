-- ===== src/Auth/Service/Guard/Access.antt =====
-- Who gets past the guard, and what the endpoints let through.
use homedeck.Base.{
  ℕ, ◌≤◌, ◌≡◌, ap, ◌∙◌, ◌⊎◌, inl, inr, true, false, Option, some, List, [], arith, All, Bool-cases,
  Option-cases, length, ltb, ◌+◌,
}
use homedeck.Http.{HttpRequest, HttpResponse, json_response}
use homedeck.Json.{Json}
use homedeck.Storage.{KeyValueStore}
use homedeck.Auth.Service.{
  Crypto, Service, Token, is_password_set, session_lifetime, validate_session, set_initial_password,
}
use homedeck.Auth.Service.History.{Op, run}
use homedeck.Auth.Service.Sessions.{good}
use homedeck.Auth.Service.Password.{setup_is_set}
use homedeck.Auth.Service.Refinement.{clock_of, WasIssued, validate_session-WasIssued, good_issued}
use homedeck.Auth.Service.Guard.{
  require_auth, request_token, setup_required, unauthenticated, setup_route, read_password_field,
  ok_with_cookie, session_lifetime_seconds,
}

-- The inner handler did not run.
abbrev pub Refused {ℓ} : {A : Type ℓ} → A → HttpResponse → A → Type ℓ
Refused a response a' = (a' ≡ a) × ((response ≡ setup_required) ⊎ (response ≡ unauthenticated))

-- After any history from a service without sessions, a guarded handler runs only for a request whose
-- session cookie holds a token that a setup or a login of the history returned less than 24 hours
-- before. Any other request is answered with 403 or 401, and the handler's state stays as it was.
pub require_auth-WasIssued {ℓ} :
    {A : Type ℓ} (c : Crypto) (s : KeyValueStore) (w : Service c s) (os : List Op) (now : ℕ)
    (inner : HttpRequest → A → HttpResponse × A) (request : HttpRequest) (a : A)
    → w.sessions ≡ []
    → All (λ o. clock_of o ≤ now) os
    → let r = require_auth c s inner now request (run c s w os) a in
      Refused a r.0 r.2
      ⊎ ((t : Token) × (request_token request ≡ some t)
          × WasIssued c s w os now t
          × (r.0 ≡ (inner request a).0)
          × (r.2 ≡ (inner request a).1))
unfolding require_auth
require_auth-WasIssued c s w os now inner request a fresh h =
    elim (Option-cases (request_token request)) [
      | inl no_token ↦ inl (ground arith, ground arith)
      | inr (t, e) ↦
          let v = validate_session-WasIssued c s w os now t fresh h in
          elim (Bool-cases (validate_session c s now t (run c s w os)).0) [
            | inl valid ↦ elim (Bool-cases (is_password_set c s (run c s w os))) [
              | inl set_already ↦ inr (t, e, v.1 valid, ground arith, ground arith)
              | inr unset ↦ inl (ground arith, ground arith)
            ]
            | inr invalid ↦ inl (ground arith, ground arith)
          ]
    ]

-- When the setup endpoint answers 200, no password was set before and one is set now, it had between
-- 8 and 256 bytes, and the cookie carries a token that is good for 24 hours from its issue, read at
-- any time from the sweep on.
pub setup_route_ok :
    (c : Crypto) (s : KeyValueStore) (parse : List ℕ → Option Json) (w : Service c s)
    (sweep_now issue_now : ℕ) (request : HttpRequest)
    → let r = setup_route c s parse sweep_now issue_now request w in
      r.0.status_code ≡ 200
      → (is_password_set c s w ≡ false)
        × (is_password_set c s r.1 ≡ true)
        × ((password : List ℕ) × (t : Token) × (read_password_field c s parse request.body
              ≡ some password)
            × (8 ≤ length password)
            × (length password ≤ 256)
            × (r.0 ≡ ok_with_cookie t session_lifetime_seconds)
            × ((now : ℕ)
                → sweep_now ≤ now
                → good now t r.1.sessions ≡ ltb now (issue_now + session_lifetime)))
unfolding setup_route ok_with_cookie json_response
setup_route_ok c s parse w a b request ok =
    elim (Option-cases (read_password_field c s parse request.body)) [
      | inl no_password ↦ absurd (ground arith)
      | inr (password, e) ↦ elim (Option-cases (set_initial_password c s password a b w).0) [
        | inl no_token ↦ absurd (ground arith)
        | inr (t, issued) ↦
            let set_now = setup_is_set c s w password a b t issued in
            let state : (setup_route c s parse a b request w).1
                ≡ (set_initial_password c s password a b w).1 =
              ground arith in
            (
              ground arith,
              ap (is_password_set c s) state ∙ set_now,
              (
                password,
                t,
                e,
                ground arith,
                ground arith,
                ground arith,
                λ now h.
                    ap (λ x. good now t x.sessions) state
                    ∙ good_issued c s w password a b t now issued h,
              ),
            )
      ]
    ]
