-- ===== src/Auth/Service/History.antt =====
-- Histories of the service: the locked parts of its methods, in the order in which the mutex lets
-- them run. The two parts of one `Login` need not be neighbours.
use homedeck.Base.{ℕ, ◌+◌, Bool, none, some, List, [], ◌∷◌}
use homedeck.Storage.{KeyValueStore}
use homedeck.Auth.Service.{
  Crypto, Service, Token, set_initial_password, login_begin, login_finish, validate_session, logout,
}

pub data Op : Type 0 where
  setup : (password : List ℕ) (sweep_now issue_now : ℕ) → Op
  begins : (check_now lock_now : ℕ) → Op
  finishes : (authenticated : Bool) (sweep_now issue_now : ℕ) → Op
  validates : (now : ℕ) (token : Token) → Op
  leaves : (token : Token) → Op

module _ (c : Crypto) (s : KeyValueStore) where
  unfoldable pub step : Service c s → Op → Service c s
  step w (setup password a b) = (set_initial_password c s password a b w).1
  step w (begins a b) = (login_begin c s a b w).1
  step w (finishes ok a b) = (login_finish c s ok a b w).1
  step w (validates now t) = (validate_session c s now t w).1
  step w (leaves t) = logout c s t w

  unfoldable pub run : Service c s → List Op → Service c s
  run w [] = w
  run w (o ∷ os) = run (step w o) os

  admits : Service c s → Op → ℕ
  admits w (begins a b) = elim ((login_begin c s a b w).0) [ none ↦ 0 | some h ↦ 1 ]
  admits w _ = 0

  -- How many passwords a history gets to compare with the stored hash.
  unfoldable pub guesses : Service c s → List Op → ℕ
  unfolding admits
  guesses w [] = 0
  guesses w (o ∷ os) = admits w o + guesses (step w o) os
