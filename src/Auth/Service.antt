-- ===== src/Auth/Service.antt =====
-- `AdminAuthService`. Every method holds the one mutex for its whole run, but `Login`, which holds
-- it twice and hashes in between: `login_begin`, `password_matches` and `login_finish` are its
-- three parts, so that histories can interleave them. Each method takes what it reads of the clock,
-- in milliseconds since the epoch.
pub mod History
pub mod Throttle
pub mod Sessions
mod Examples
pub mod Guard
pub mod Password
pub mod Refinement
use homedeck.Base.{
  ℕ, zero, suc, ◌+◌, ◌*◌, ◌≡◌, Bool, true, false, not, ◌&&◌, Option, none, some, List, [], ◌∷◌, ltb,
  leb, if◌then◌else◌, bytes_eq, length, All,
}
use homedeck.Base.Int.{pos}
use homedeck.Codec.Hex.{to_hex, from_hex, IsByte}
use homedeck.Storage.{
  KeyValueStore, VersionedValue, set_versioned, get_versioned, core_module_id, password_key,
}
use homedeck.Auth.Compare.{constant_time_equals}
use homedeck.Auth.Stored.{
  StoredPasswordHash, pbkdf2_iterations, parse_stored_password_hash, encode_password,
}

abbrev pub salt_bytes : ℕ
salt_bytes = 16

abbrev pub hash_bytes : ℕ
hash_bytes = 32

abbrev pub session_token_bytes : ℕ
session_token_bytes = 32

abbrev pub session_lifetime : ℕ
session_lifetime = 24 * 60 * 60 * 1000

abbrev pub max_failed_login_attempts : ℕ
max_failed_login_attempts = 5

abbrev pub login_lockout_duration : ℕ
login_lockout_duration = 60 * 1000

-- What the service uses of Mbed TLS: a random generator, `none` if it fails, and PBKDF2-SHA256
-- with a result of `hash_bytes`.
pub record Crypto : Type 1 where
  pub Rng : Type 0
  pub random : Rng → ℕ → Option (List ℕ) × Rng
  pub pbkdf2 : List ℕ → List ℕ → ℕ → Option (List ℕ)
  pub random_length :
      (r : Rng) (n : ℕ) (bs : List ℕ) → (random r n).0 ≡ some bs → (length bs ≡ n) × All IsByte bs
  pub pbkdf2_length :
      (password salt : List ℕ) (iterations : ℕ) (bs : List ℕ)
      → pbkdf2 password salt iterations ≡ some bs
      → (length bs ≡ hash_bytes) × All IsByte bs

abbrev pub Token : Type 0
Token = List ℕ

-- A table of tokens with the time at which each expires.
abbrev pub Table : Type 0
Table = List (Token × ℕ)

-- `sessions_.erase(token)`.
pub erase : Token → Table → Table
erase t [] = []
erase t ((k, e) ∷ rest) = if bytes_eq k t then erase t rest else (k, e) ∷ erase t rest

-- `sessions_[token] = expiry`.
pub put : Token → ℕ → Table → Table
put t expiry table = (t, expiry) ∷ erase t table

-- `SweepExpiredSessions`.
pub sweep_expired_sessions : ℕ → Table → Table
sweep_expired_sessions now [] = []
sweep_expired_sessions now ((k, e) ∷ rest) =
    let swept = sweep_expired_sessions now rest in if leb e now then swept else (k, e) ∷ swept

-- The scan of `ValidateSession`: the verdict, and the table without an expired hit.
pub scan : ℕ → Token → Table → Bool × Table
scan now token [] = (false, [])
scan now token ((k, e) ∷ rest) =
    let (valid, kept) = scan now token rest in
    if not (constant_time_equals k token)
    then (valid, (k, e) ∷ kept)
    else if leb e now
    then (false, rest)
    else (true, (k, e) ∷ rest)

module _ (c : Crypto) (s : KeyValueStore) where
  open c use {Rng, random, pbkdf2}
  open s use {Contents}

  pub record Service : Type 0 where
    pub secrets : Contents
    pub rng : Rng
    pub sessions : Table
    pub failed_login_attempts : ℕ
    pub locked_until : ℕ

  abbrev pub stored_password : Service → Option VersionedValue
  stored_password w = get_versioned s w.secrets core_module_id password_key

  abbrev is_some : Option VersionedValue → Bool
  is_some none = false
  is_some (some v) = true

  unfoldable pub is_password_set : Service → Bool
  unfolding get_versioned
  is_password_set w = is_some (stored_password w)

  pub hash_password_hex : List ℕ → List ℕ → ℕ → Option (List ℕ)
  hash_password_hex password salt iterations = elim (pbkdf2 password salt iterations) [
    | none ↦ none
    | some output ↦ some (to_hex output)
  ]

  with_token : ℕ → Service → Option (List ℕ) × Rng → Option Token × Service
  with_token now w (none, rng) = (none, record w { rng = rng })
  with_token now w (some bytes, rng) = (
    some (to_hex bytes),
    record w { rng = rng; sessions = put (to_hex bytes) (now + session_lifetime) w.sessions },
  )

  -- `GenerateSessionToken`, and the entry in the table.
  pub issue_session : ℕ → Service → Option Token × Service
  unfolding with_token
  issue_session now w = with_token now w (random w.rng session_token_bytes)

  write_password : List ℕ → List ℕ → ℕ → ℕ → Service → Option Token × Service
  unfolding issue_session set_versioned
  write_password salt hash_hex sweep_now issue_now w =
      let (ok, secrets) =
        set_versioned s w.secrets core_module_id password_key (pos 1)
          (encode_password salt hash_hex) in
      let w' = record w { secrets = secrets } in
      if not ok
      then (none, w')
      else issue_session issue_now
          (record w' { sessions = sweep_expired_sessions sweep_now w.sessions })

  with_hash : List ℕ → Option (List ℕ) → ℕ → ℕ → Service → Option Token × Service
  unfolding write_password
  with_hash salt none sweep_now issue_now w = (none, w)
  with_hash salt (some hash_hex) sweep_now issue_now w =
      write_password salt hash_hex sweep_now issue_now w

  with_salt : List ℕ → ℕ → ℕ → Service → Option (List ℕ) × Rng → Option Token × Service
  unfolding with_hash
  with_salt password sweep_now issue_now w (none, rng) = (none, record w { rng = rng })
  with_salt password sweep_now issue_now w (some salt, rng) =
      with_hash salt (hash_password_hex password salt pbkdf2_iterations) sweep_now issue_now
        (record w { rng = rng })

  pub set_initial_password : List ℕ → ℕ → ℕ → Service → Option Token × Service
  unfolding with_salt
  set_initial_password password sweep_now issue_now w =
      if is_password_set w
      then (none, w)
      else with_salt password sweep_now issue_now w (random w.rng salt_bytes)

  -- The first locked part of `Login`: `none` if it is locked out, else the stored hash. The clock is
  -- read for the check, and again if the attempt locks.
  pub login_begin : ℕ → ℕ → Service → Option (Option StoredPasswordHash) × Service
  login_begin check_now lock_now w =
      if ltb check_now w.locked_until
      then (none, w)
      else let attempts = suc w.failed_login_attempts in
        (
          some (parse_stored_password_hash (stored_password w)),
          record w {
            failed_login_attempts = attempts;
            locked_until =
                if leb max_failed_login_attempts attempts
                then lock_now + login_lockout_duration
                else w.locked_until;
          },
        )

  computed_matches : List ℕ → Option (List ℕ) → Bool
  computed_matches expected none = false
  computed_matches expected (some hash_hex) = elim (from_hex hash_hex) [
    | none ↦ false
    | some computed ↦ constant_time_equals computed expected
  ]

  -- The part of `Login` outside the mutex.
  pub password_matches : List ℕ → Option StoredPasswordHash → Bool
  unfolding computed_matches
  password_matches password none = false
  password_matches password (some h) =
      computed_matches h.hash (hash_password_hex password h.salt h.iterations)

  -- The second locked part of `Login`.
  pub login_finish : Bool → ℕ → ℕ → Service → Option Token × Service
  unfolding issue_session
  login_finish false sweep_now issue_now w = (none, w)
  login_finish true sweep_now issue_now w = issue_session issue_now (record w {
    failed_login_attempts = 0;
    locked_until = 0;
    sessions = sweep_expired_sessions sweep_now w.sessions;
  })

  pub validate_session : ℕ → Token → Service → Bool × Service
  validate_session now token w =
      let (valid, kept) = scan now token w.sessions in (valid, record w { sessions = kept })

  pub logout : Token → Service → Service
  logout token w = record w { sessions = erase token w.sessions }

  unfoldable pub is_login_locked_out : ℕ → Service → Bool
  is_login_locked_out now w = ltb now w.locked_until
