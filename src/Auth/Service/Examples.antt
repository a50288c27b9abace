-- ===== src/Auth/Service/Examples.antt =====
-- A day of the service over a store in memory and a toy cryptography, and the theorems on it.
use homedeck.Base.{
  ℕ, zero, suc, ◌++◌, subst, ◌+◌, ◌%◌, ◌/◌, ◌-◌, ◌≤◌, ◌≡◌, refl, ◌↔◌, ◌⊎◌, true, false, Option,
  none, some, List, [], ◌∷◌, arith, length, replicate, All, bytes_eq,
}
use homedeck.Base.Text.{codes}
use homedeck.Codec.Hex.{to_hex, IsByte}
use homedeck.Http.{HttpRequest, HttpResponse}
use homedeck.Json.{Json, object, field, string, end}
use homedeck.Storage.Memory.{memory_store}
use homedeck.Storage.Memory
use homedeck.Auth.Cookie.{extract_cookie}
use homedeck.Auth.Compare.{constant_time_equals}
use homedeck.Auth.Stored.{StoredPasswordHash}
use homedeck.Auth.Service.{
  Crypto, Service, Token, is_password_set, set_initial_password, login_begin, password_matches,
  scan, erase, put, sweep_expired_sessions, validate_session, login_finish, hash_password_hex,
  logout,
}
use homedeck.Auth.Service.History.{
  Op, setup, begins, finishes, validates, leaves, step, run, guesses,
}
use homedeck.Auth.Service.Throttle.{guesses_bounded}
use homedeck.Auth.Service.Sessions.{good}
use homedeck.Auth.Service.Refinement.{good-step, after_op, result, WasIssued}
use homedeck.Auth.Service.Password.{setup-login, password_is_final}
use homedeck.Auth.Service.Guard.{
  setup_route, request_token, read_password_field, ok_with_cookie, require_auth,
}
use homedeck.Auth.Service.Guard.Access.{require_auth-WasIssued, Refused}

-- The toy generator repeats a counter, and the toy hash a checksum.
checksum : List ℕ → ℕ
checksum [] = 7
checksum (b ∷ bs) = (b + 3 + checksum bs + checksum bs) % 251

checksum-IsByte : (bs : List ℕ) → IsByte (checksum bs)
unfolding checksum
checksum-IsByte [] = omega arith
checksum-IsByte (b ∷ bs) = omega arith

length-replicate : (n b : ℕ) → length (replicate n b) ≡ n
length-replicate zero b = refl
length-replicate (suc n) b = omega (arith, length-replicate n b)

All-replicate : (n b : ℕ) → IsByte b → All IsByte (replicate n b)
All-replicate zero b h = tt
All-replicate (suc n) b h = (h, All-replicate n b h)

replicated :
    (n b : ℕ) (bs : List ℕ)
    → IsByte b
    → some (replicate n b) ≡ some bs
    → (length bs ≡ n) × All IsByte bs
replicated n b bs h e =
    subst (λ x. (length x ≡ n) × All IsByte x) (cc e) (length-replicate n b, All-replicate n b h)

abbrev toy : Crypto
toy = record {
  Rng = ℕ;
  random = λ r n. (some (replicate n (r % 256)), suc r);
  pbkdf2 = λ password salt iterations. some (replicate 32 (checksum (password ++ salt)));
  random_length = λ r n bs e. replicated n (r % 256) bs (omega arith) e;
  pbkdf2_length = λ password salt iterations bs e.
      replicated 32 (checksum (password ++ salt)) bs (checksum-IsByte (password ++ salt)) e;
}

abbrev fresh : Service toy memory_store
fresh = record {
  secrets = [];
  rng = 40;
  sessions = [];
  failed_login_attempts = 0;
  locked_until = 0;
}

abbrev password : List ℕ
password = codes "hunter22"

-- The generator's second output, as a token.
abbrev first_token : Token
first_token = to_hex (replicate 32 41)

setup_result : (set_initial_password toy memory_store password 1000 1001 fresh).0 ≡ some first_token
unfolding set_initial_password is_password_set to_hex Memory.get hash_password_hex
setup_result = refl

abbrev evening : List Op
evening =
    begins 2000 2000
    ∷ finishes false 2500 2501
    ∷ begins 3000 3000
    ∷ finishes true 3500 3501
    ∷ leaves first_token
    ∷ []

evening_unlocked :
    (run toy memory_store
      (set_initial_password toy memory_store password 1000 1001 fresh).1
      evening).locked_until
    ≡ 0
unfolding run step login_begin login_finish logout set_initial_password is_password_set to_hex
    Memory.get hash_password_hex
evening_unlocked = refl

setup-login_example :
    (h : StoredPasswordHash) × ((login_begin toy memory_store 4000 4001 (
        run toy memory_store
          (set_initial_password toy memory_store password 1000 1001 fresh).1
          evening)).0
      ≡ some (some h))
    × (password_matches toy memory_store password (some h) ≡ true)
    × ((guess : List ℕ)
        → (password_matches toy memory_store guess (some h) ≡ true) ↔ (
            some (replicate 32 (checksum (guess ++ h.salt)))
            ≡ some (replicate 32 (checksum (password ++ h.salt)))))
setup-login_example =
    setup-login toy memory_store fresh password 1000 1001 first_token evening 4000 4001 setup_result
      (omega (arith, evening_unlocked))

abbrev attack : List Op
attack =
    begins 5000 5000
    ∷ begins 5001 5001
    ∷ finishes false 0 0
    ∷ begins 5002 5002
    ∷ begins 5003 5003
    ∷ begins 5004 5004
    ∷ begins 5005 5005
    ∷ validates 6000 first_token
    ∷ begins 65004 65005
    ∷ begins 65010 65010
    ∷ []

-- Six guesses are admitted: the sixth at the end of the first minute, and it locks again.
attack-guesses : guesses toy memory_store fresh attack ≡ 6
unfolding guesses step login_begin login_finish validate_session
attack-guesses = refl

guesses_bounded_example : guesses toy memory_store fresh attack ≤ 5 + (70000 - 5000) / 60000
guesses_bounded_example =
    guesses_bounded toy memory_store fresh attack 5000 70000 refl (omega arith) (ground arith)

abbrev day : List Op
day =
    setup password 1000 1001
    ∷ begins 2000 2000
    ∷ finishes true 2500 2501
    ∷ leaves (to_hex (replicate 32 42))
    ∷ []

day_set : is_password_set toy memory_store (run toy memory_store fresh day) ≡ true
unfolding run step set_initial_password is_password_set to_hex login_begin login_finish logout
    Memory.get hash_password_hex bytes_eq
day_set = refl

password_is_final_example :
    ((run toy memory_store (run toy memory_store fresh day) attack).secrets
      ≡ (run toy memory_store fresh day).secrets)
    × ((guess : List ℕ) (a b : ℕ)
        → set_initial_password toy memory_store guess a b
            (run toy memory_store (run toy memory_store fresh day) attack)
          ≡ (none, run toy memory_store (run toy memory_store fresh day) attack))
password_is_final_example =
    password_is_final toy memory_store (run toy memory_store fresh day) attack day_set

good-step_example :
    good 3000 first_token (step toy memory_store fresh (setup password 1000 1001)).sessions
    ≡ after_op
        (setup password 1000 1001)
        (result toy memory_store fresh (setup password 1000 1001))
        3000
        first_token
        (good 3000 first_token [])
good-step_example =
    good-step toy memory_store fresh (setup password 1000 1001) 3000 first_token (omega arith)

abbrev request_with : Token → HttpRequest
request_with t = record {
  path = codes "/api/settings";
  query = [];
  body = codes "{}";
  cookie_header = some (codes "theme=dark; session=" ++ t);
}

abbrev count_request : HttpRequest → ℕ → HttpResponse × ℕ
count_request request n =
    (record { status_code = 200; content_type = []; body = []; extra_headers = [] }, suc n)

count_request_runs :
    let r =
      require_auth toy memory_store count_request 9000
        (request_with first_token)
        (run toy memory_store fresh day)
        0 in
    (r.0.status_code ≡ 200) × (r.2 ≡ 1)
unfolding require_auth run step set_initial_password is_password_set to_hex login_begin login_finish
    validate_session logout Memory.get hash_password_hex bytes_eq extract_cookie
    constant_time_equals scan erase put sweep_expired_sessions
count_request_runs = (refl, refl)

require_auth-WasIssued_example :
    let r =
      require_auth toy memory_store count_request 9000
        (request_with first_token)
        (run toy memory_store fresh day)
        0 in
    Refused {A = ℕ} 0 r.0 r.2
    ⊎ ((t : Token) × (request_token (request_with first_token) ≡ some t)
        × WasIssued toy memory_store fresh day 9000 t
        × (r.0 ≡ (count_request (request_with first_token) 0).0)
        × (r.2 ≡ 1))
require_auth-WasIssued_example =
    require_auth-WasIssued toy memory_store fresh day 9000 count_request (request_with first_token)
      0 refl (omega arith)

-- A parser that takes the whole body for the password.
abbrev toy_parse : List ℕ → Option Json
toy_parse body = some (object (field (codes "password") (string body) end))

abbrev setup_request : HttpRequest
setup_request = record {
  path = codes "/api/auth/setup";
  query = [];
  body = password;
  cookie_header = none;
}

setup_request_ok :
    (setup_route toy memory_store toy_parse 1000 1001 setup_request fresh).0.status_code ≡ 200
unfolding setup_route read_password_field set_initial_password is_password_set to_hex Memory.get
    hash_password_hex bytes_eq ok_with_cookie
setup_request_ok = refl
