-- ===== src/Auth/Service/Password.antt =====
-- The password: it is set once, and then it is the one that opens a session.
use homedeck.Base.{
  ℕ, suc, ◌≤◌, ◌≡◌, refl, sym, ap, ◌∙◌, ◌≢◌, ◌↔◌, inl, inr, true, false, none, some, List, [], ◌∷◌,
  arith, Bool-cases, Option-cases, length,
}
use homedeck.Base.Int.{pos}
use homedeck.Codec.Hex.{to_hex, from_hex-to_hex}
use homedeck.Storage.{
  KeyValueStore, VersionedValue, set_versioned, get_versioned, core_module_id, password_key,
}
use homedeck.Storage.Laws.{get_versioned-set_versioned}
use homedeck.Auth.Compare.{constant_time_equals_iff}
use homedeck.Auth.Stored.{
  StoredPasswordHash, pbkdf2_iterations, parse_stored_password_hash, encode_password,
  parse-encode_password,
}
use homedeck.Auth.Service.{
  Crypto, Service, Token, set_initial_password, login_begin, login_finish, validate_session, logout,
  is_password_set, stored_password, hash_password_hex, password_matches, salt_bytes,
}
use homedeck.Auth.Service.History.{Op, setup, begins, finishes, validates, leaves, step, run}

module _ (c : Crypto) (s : KeyValueStore) where
  open c use {pbkdf2, random, random_length, pbkdf2_length}

  nonempty : (n : ℕ) (bs : List ℕ) → length bs ≡ suc n → bs ≢ []
  nonempty n [] e = absurd (omega arith)
  nonempty n (b ∷ bs) e = λ q. cc q

  -- What a successful setup has done.
  pub record IsSetUp (password : List ℕ) (w w' : Service c s) : Type 0 where
    pub salt : List ℕ
    pub hash : List ℕ
    pub salted : (random w.rng salt_bytes).0 ≡ some salt
    pub hashed : pbkdf2 password salt pbkdf2_iterations ≡ some hash
    pub written :
        (set_versioned s w.secrets core_module_id password_key
          (pos 1)
          (encode_password salt (to_hex hash))).0
        ≡ true
    pub secrets :
        w'.secrets
        ≡ (set_versioned s w.secrets core_module_id password_key
            (pos 1)
            (encode_password salt (to_hex hash))).1

  setup-IsSetUp :
      (w : Service c s) (password : List ℕ) (a b : ℕ) (t : Token)
      → (set_initial_password c s password a b w).0 ≡ some t
      → IsSetUp password w (set_initial_password c s password a b w).1
  unfolding set_initial_password hash_password_hex
  setup-IsSetUp w password a b t e = elim (Option-cases (random w.rng salt_bytes).0) [
    | inl no_salt ↦ absurd (ground arith)
    | inr (salt, salted) ↦ elim (Option-cases (pbkdf2 password salt pbkdf2_iterations)) [
      | inl no_hash ↦ absurd (ground arith)
      | inr (hash, hashed) ↦
          elim (Bool-cases
            (set_versioned s w.secrets core_module_id password_key (pos 1)
              (encode_password salt (to_hex hash))).0) [
                | inl written ↦ record {
                  salt = salt;
                  hash = hash;
                  salted = salted;
                  hashed = hashed;
                  written = written;
                  secrets = ground arith;
                }
                | inr failed ↦ absurd (ground arith)
              ]
    ]
  ]

  -- The stored record, as the next login reads it.
  IsSetUp-parsed :
      (password : List ℕ) (w w' : Service c s) (u : IsSetUp password w w')
      → parse_stored_password_hash (stored_password c s w')
        ≡ some (record { iterations = pbkdf2_iterations; salt = u.salt; hash = u.hash })
  IsSetUp-parsed password w w' u =
      let v : VersionedValue = record {
        schema_version = pos 1;
        value = encode_password u.salt (to_hex u.hash);
      } in
      let salt_ok = random_length w.rng salt_bytes u.salt u.salted in
      let hash_ok = pbkdf2_length password u.salt pbkdf2_iterations u.hash u.hashed in
      ap (λ x. parse_stored_password_hash (get_versioned s x core_module_id password_key)) u.secrets
      ∙ ap parse_stored_password_hash (
          get_versioned-set_versioned s w.secrets core_module_id password_key (pos 1) v.value
            (omega arith) u.written)
      ∙ parse-encode_password v u.salt u.hash (nonempty 15 u.salt salt_ok.0)
          (nonempty 31 u.hash hash_ok.0) salt_ok.1 hash_ok.1 refl

  -- A password passes exactly if PBKDF2 gives the stored hash for it.
  matches_iff :
      (password : List ℕ) (h : StoredPasswordHash)
      → (password_matches c s password (some h) ≡ true)
        ↔ (pbkdf2 password h.salt h.iterations ≡ some h.hash)
  unfolding password_matches hash_password_hex
  matches_iff password h = elim (Option-cases (pbkdf2 password h.salt h.iterations)) [
    | inl fails ↦ (λ m. absurd (ground arith), λ e. cc)
    | inr (computed, e) ↦
        let ok = pbkdf2_length password h.salt h.iterations computed e in
        let back = from_hex-to_hex computed (nonempty 31 computed ok.0) ok.1 in
        (
          λ m. e ∙ ap some ((constant_time_equals_iff computed h.hash).0 (ground arith)),
          λ q. ground (arith, (constant_time_equals_iff computed h.hash).1),
        )
  ]

  begin_lem :
      (check lock : ℕ) (w : Service c s)
      → w.locked_until ≤ check
      → (login_begin c s check lock w).0 ≡ some (parse_stored_password_hash (stored_password c s w))
  unfolding login_begin
  begin_lem check lock w free = ground arith

  refused :
      (password : List ℕ) (a b : ℕ) (w : Service c s)
      → is_password_set c s w ≡ true
      → set_initial_password c s password a b w ≡ (none, w)
  unfolding set_initial_password
  refused password a b w h = rw h

  still :
      (w w' : Service c s)
      → w'.secrets ≡ w.secrets
      → is_password_set c s w ≡ true
      → is_password_set c s w' ≡ true
  unfolding is_password_set
  still w w' e h = rw e h

  step_secrets :
      (w : Service c s) (o : Op) → is_password_set c s w ≡ true → (step c s w o).secrets ≡ w.secrets
  unfolding step login_begin login_finish validate_session logout
  step_secrets w (setup password a b) h = ap (λ r. r.1.secrets) (refused password a b w h)
  step_secrets w (begins a b) h = ground arith
  step_secrets w (finishes true a b) h = ground arith
  step_secrets w (finishes false a b) h = refl
  step_secrets w (validates now t) h = refl
  step_secrets w (leaves t) h = refl

  run_secrets :
      (w : Service c s) (os : List Op)
      → is_password_set c s w ≡ true
      → (run c s w os).secrets ≡ w.secrets
  unfolding run
  run_secrets w [] h = refl
  run_secrets w (o ∷ os) h =
      let e = step_secrets w o h in run_secrets (step c s w o) os (still w (step c s w o) e h) ∙ e

pub setup_is_set :
    (c : Crypto) (s : KeyValueStore) (w : Service c s) (password : List ℕ) (a b : ℕ) (t : Token)
    → (set_initial_password c s password a b w).0 ≡ some t
    → is_password_set c s (set_initial_password c s password a b w).1 ≡ true
unfolding is_password_set
setup_is_set c s w password a b t e =
    let w' = (set_initial_password c s password a b w).1 in
    let u = setup-IsSetUp c s w password a b t e in
    rw u.secrets (
      rw (
        get_versioned-set_versioned s w.secrets core_module_id password_key (pos 1)
          (encode_password u.salt (to_hex u.hash)) (omega arith) u.written))

-- The record that a setup wrote, in whatever way the service went on from there.
record_kept :
    (c : Crypto) (s : KeyValueStore) (password : List ℕ) (w w' : Service c s) (os : List Op)
    (u : IsSetUp c s password w w')
    → is_password_set c s w' ≡ true
    → parse_stored_password_hash (stored_password c s (run c s w' os))
      ≡ some (record { iterations = pbkdf2_iterations; salt = u.salt; hash = u.hash })
record_kept c s password w w' os u is_set =
    ap (λ x. parse_stored_password_hash (get_versioned s x core_module_id password_key))
      (run_secrets c s w' os is_set)
    ∙ IsSetUp-parsed c s password w w' u

-- After a setup that returned a session and any history of operations behind it, every login
-- attempt that is not locked out compares with the record of that setup: the password that was set
-- passes, and another one passes exactly if PBKDF2 gives it the same hash with the stored salt and
-- iteration count.
pub setup-login :
    (c : Crypto) (s : KeyValueStore) (w : Service c s) (password : List ℕ) (a b : ℕ) (t : Token)
    (os : List Op) (check lock : ℕ)
    → (set_initial_password c s password a b w).0 ≡ some t
    → (run c s (set_initial_password c s password a b w).1 os).locked_until ≤ check
    → (h : StoredPasswordHash) × ((login_begin c s check lock
          (run c s (set_initial_password c s password a b w).1 os)).0
        ≡ some (some h))
      × (password_matches c s password (some h) ≡ true)
      × ((guess : List ℕ)
          → (password_matches c s guess (some h) ≡ true)
            ↔ (c.pbkdf2 guess h.salt h.iterations ≡ c.pbkdf2 password h.salt h.iterations))
setup-login c s w password a b t os check lock e free =
    let w' = (set_initial_password c s password a b w).1 in
    let u = setup-IsSetUp c s w password a b t e in
    let h : StoredPasswordHash = record {
      iterations = pbkdf2_iterations;
      salt = u.salt;
      hash = u.hash;
    } in
    (
      h,
      begin_lem c s check lock (run c s w' os) free
          ∙ ap some (record_kept c s password w w' os u (setup_is_set c s w password a b t e)),
      (matches_iff c s password h).1 u.hashed,
      λ guess. (
        (λ m. (matches_iff c s guess h).0 m ∙ sym u.hashed),
        λ q. (matches_iff c s guess h).1 (q ∙ u.hashed),
      ),
    )

-- Once a password is set no operation in any history changes the stored record: a further setup
-- returns no session and leaves the service as it was.
pub password_is_final :
    (c : Crypto) (s : KeyValueStore) (w : Service c s) (os : List Op)
    → is_password_set c s w ≡ true
    → ((run c s w os).secrets ≡ w.secrets)
      × ((password : List ℕ) (a b : ℕ)
          → set_initial_password c s password a b (run c s w os) ≡ (none, run c s w os))
password_is_final c s w os h =
    let e = run_secrets c s w os h in
    (e, λ password a b. refused c s password a b (run c s w os) (still c s w (run c s w os) e h))
