-- ===== src/Auth/Service/Refinement.antt =====
-- The service against the set of good tokens: what each operation does to it, in every state.
use homedeck.Base.{
  ℕ, ◌+◌, ◌≤◌, ◌<◌, ◌≡◌, refl, sym, ap, ◌∙◌, ◌⊎◌, inl, inr, Bool, true, false, Option, none, some,
  List, [], ◌∷◌, arith, ltb, ltb→lt, if◌then◌else◌, bytes_eq, bytes_eq→eq, bytes_eq_refl, All,
  Bool-cases,
}
use homedeck.Storage.{KeyValueStore}
use homedeck.Auth.Service.{
  Crypto, Service, Token, Table, put, sweep_expired_sessions, session_lifetime,
  set_initial_password, login_begin, login_finish, validate_session, logout,
}
use homedeck.Auth.Service.History.{Op, setup, begins, finishes, validates, leaves, step, run}
use homedeck.Auth.Service.Sessions.{
  good, IsTable, good-erase, good-sweep, scan-good, good-scan, erase-IsTable, put-IsTable,
  sweep-IsTable, scan-IsTable, good-put,
}

-- The time that an operation reads to forget expired sessions.
abbrev pub clock_of : Op → ℕ
clock_of (setup password a b) = a
clock_of (begins a b) = 0
clock_of (finishes ok a b) = a
clock_of (validates now t) = now
clock_of (leaves t) = 0

after_issue : ℕ → Option Token → ℕ → Token → Bool → Bool
after_issue b none now t before = before
after_issue b (some u) now t before =
    if bytes_eq u t then ltb now (b + session_lifetime) else before

-- Whether a token is good at the time `now`, behind an operation that returned `r`: only logging out
-- takes a good token away, and only the token returned is added, for its lifetime.
unfoldable pub after_op : Op → Option Token → ℕ → Token → Bool → Bool
unfolding after_issue
after_op (setup password a b) r now t before = after_issue b r now t before
after_op (finishes ok a b) r now t before = after_issue b r now t before
after_op (leaves u) r now t before = if bytes_eq u t then false else before
after_op (begins a b) r now t before = before
after_op (validates past u) r now t before = before

-- The time from which a token that the operation returns lives.
abbrev pub clock_issue : Op → ℕ
clock_issue (setup password a b) = b
clock_issue (finishes ok a b) = b
clock_issue _ = 0

issued :
    (b : ℕ) (r : Option Token) (now : ℕ) (t : Token)
    → after_issue b r now t false ≡ true
    → (r ≡ some t) × (now < b + session_lifetime)
unfolding after_issue
issued b none now t h = cc
issued b (some u) now t h = elim (Bool-cases (bytes_eq u t)) [
  | inl same ↦ (ap some (bytes_eq→eq u t same), ltb→lt now (b + session_lifetime) (ground arith))
  | inr other ↦ cc (ap (λ x. if x then ltb now (b + session_lifetime) else false) other)
]

module _ (c : Crypto) (s : KeyValueStore) where
  -- The token that an operation returns.
  unfoldable pub result : Service c s → Op → Option Token
  result w (setup password a b) = (set_initial_password c s password a b w).0
  result w (finishes ok a b) = (login_finish c s ok a b w).0
  result w _ = none

  -- What setup and login do to the table: a token that is returned was put into the swept table, and
  -- without one the table is at most swept.
  abbrev Issues : Table → ℕ → ℕ → Option Token → Table → Type 0
  Issues x a b none y = (y ≡ x) ⊎ (y ≡ sweep_expired_sessions a x)
  Issues x a b (some t) y = y ≡ put t (b + session_lifetime) (sweep_expired_sessions a x)

  setup-Issues :
      (w : Service c s) (password : List ℕ) (a b : ℕ)
      → let r = set_initial_password c s password a b w in Issues w.sessions a b r.0 r.1.sessions
  unfolding set_initial_password
  setup-Issues w password a b = ground arith

  login_finish-Issues :
      (w : Service c s) (ok : Bool) (a b : ℕ)
      → let r = login_finish c s ok a b w in Issues w.sessions a b r.0 r.1.sessions
  unfolding login_finish
  login_finish-Issues w true a b = ground arith
  login_finish-Issues w false a b = inl refl

  good-Issues :
      (x y : Table) (a b now : ℕ) (r : Option Token) (t : Token)
      → a ≤ now
      → Issues x a b r y
      → good now t y ≡ after_issue b r now t (good now t x)
  unfolding after_issue
  good-Issues x y a b now none t h (inl e) = ap (good now t) e
  good-Issues x y a b now none t h (inr e) = ap (good now t) e ∙ good-sweep now a t x h
  good-Issues x y a b now (some u) t h e =
      ap (good now t) e
      ∙ good-put now t u (b + session_lifetime) (sweep_expired_sessions a x)
      ∙ ap (λ g. if bytes_eq u t then ltb now (b + session_lifetime) else g)
          (good-sweep now a t x h)

  IsTable-Issues :
      (x y : Table) (a b : ℕ) (r : Option Token) → IsTable x → Issues x a b r y → IsTable y
  IsTable-Issues x y a b none h (inl e) = rw e h
  IsTable-Issues x y a b none h (inr e) = rw e (sweep-IsTable a x h)
  IsTable-Issues x y a b (some u) h e =
      rw e (put-IsTable u (b + session_lifetime) (sweep_expired_sessions a x) (sweep-IsTable a x h))

  pub step-IsTable :
      (w : Service c s) (o : Op) → IsTable w.sessions → IsTable (step c s w o).sessions
  unfolding step login_begin validate_session logout
  step-IsTable w (setup password a b) h =
      IsTable-Issues w.sessions _ a b _ h (setup-Issues w password a b)
  step-IsTable w (begins a b) h = ground arith
  step-IsTable w (finishes ok a b) h =
      IsTable-Issues w.sessions _ a b _ h (login_finish-Issues w ok a b)
  step-IsTable w (validates now t) h = scan-IsTable now t w.sessions h
  step-IsTable w (leaves t) h = erase-IsTable t w.sessions h

  -- After each operation, in every state, a token is good at a later time exactly if the
  -- specification says so: sweeps and the removal of expired sessions are never seen, a login or a
  -- setup that returns a token makes it good for 24 hours from then on, and logging out ends the
  -- one token.
  pub good-step :
      (w : Service c s) (o : Op) (now : ℕ) (t : Token)
      → clock_of o ≤ now
      → good now t (step c s w o).sessions ≡ after_op o (result w o) now t (good now t w.sessions)
  unfolding step result after_op login_begin validate_session logout
  good-step w (setup password a b) now t h =
      good-Issues w.sessions _ a b now _ t h (setup-Issues w password a b)
  good-step w (begins a b) now t h = ground arith
  good-step w (finishes ok a b) now t h =
      good-Issues w.sessions _ a b now _ t h (login_finish-Issues w ok a b)
  good-step w (validates past u) now t h = good-scan now past t u w.sessions h
  good-step w (leaves u) now t h = good-erase now t u w.sessions

  run-IsTable :
      (w : Service c s) (os : List Op) → IsTable w.sessions → IsTable (run c s w os).sessions
  unfolding run
  run-IsTable w [] h = h
  run-IsTable w (o ∷ os) h = run-IsTable (step c s w o) os (step-IsTable w o h)

  -- The history returned the token, from a setup or a login less than the lifetime ago.
  unfoldable pub WasIssued : Service c s → List Op → ℕ → Token → Type 0
  WasIssued w [] now t = ⊥
  WasIssued w (o ∷ os) now t =
      ((result w o ≡ some t) × (now < clock_issue o + session_lifetime))
      ⊎ WasIssued (step c s w o) os now t

  issued_at_step :
      (w : Service c s) (o : Op) (now : ℕ) (t : Token)
      → after_op o (result w o) now t false ≡ true
      → (result w o ≡ some t) × (now < clock_issue o + session_lifetime)
  unfolding after_op result
  issued_at_step w (setup password a b) now t h =
      issued b (set_initial_password c s password a b w).0 now t h
  issued_at_step w (finishes ok a b) now t h = issued b (login_finish c s ok a b w).0 now t h
  issued_at_step w (leaves u) now t h = ground arith
  issued_at_step w (begins a b) now t h = cc
  issued_at_step w (validates past u) now t h = cc

  good-WasIssued :
      (w : Service c s) (os : List Op) (now : ℕ) (t : Token)
      → All (λ o. clock_of o ≤ now) os
      → good now t w.sessions ≡ false
      → good now t (run c s w os).sessions ≡ true
      → WasIssued w os now t
  unfolding run WasIssued
  good-WasIssued w [] now t h none_yet g = cc
  good-WasIssued w (o ∷ os) now t h none_yet g =
      elim (Bool-cases (good now t (step c s w o).sessions)) [
        | inl here ↦ inl (
            issued_at_step w o now t
              (sym (good-step w o now t h.0 ∙ ap (after_op o (result w o) now t) none_yet) ∙ here))
        | inr later ↦ inr (good-WasIssued (step c s w o) os now t h.1 later g)
      ]

pub good_issued :
    (c : Crypto) (s : KeyValueStore) (w : Service c s) (password : List ℕ) (a b : ℕ) (t : Token)
    (now : ℕ)
    → (set_initial_password c s password a b w).0 ≡ some t
    → a ≤ now
    → good now t (set_initial_password c s password a b w).1.sessions
      ≡ ltb now (b + session_lifetime)
unfolding after_issue
good_issued c s w password a b t now e h =
    good-Issues c s w.sessions (set_initial_password c s password a b w).1.sessions a b now
      (set_initial_password c s password a b w).0 t h (setup-Issues c s w password a b)
    ∙ ap (λ r. after_issue b r now t (good now t w.sessions)) e
    ∙ rw (bytes_eq_refl t)

-- After any history from a service with no sessions, a session is accepted only if a setup or a
-- login of this history returned that very token less than 24 hours before, and it is accepted
-- exactly if the table makes it good.
pub validate_session-WasIssued :
    (c : Crypto) (s : KeyValueStore) (w : Service c s) (os : List Op) (now : ℕ) (t : Token)
    → w.sessions ≡ []
    → All (λ o. clock_of o ≤ now) os
    → let verdict = (validate_session c s now t (run c s w os)).0 in
      (verdict ≡ good now t (run c s w os).sessions) × (verdict ≡ true → WasIssued c s w os now t)
unfolding validate_session good
validate_session-WasIssued c s w os now t fresh h =
    let e = scan-good now t (run c s w os).sessions (run-IsTable c s w os (rw fresh tt)) in
    (e, λ v. good-WasIssued c s w os now t h (rw fresh) (sym e ∙ v))
