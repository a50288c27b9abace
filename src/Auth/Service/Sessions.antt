-- ===== src/Auth/Service/Sessions.antt =====
-- The session table against the set of tokens that are good at a time.
use homedeck.Base.{
  ℕ, ◌≤◌, ◌≡◌, refl, sym, ap, ◌∙◌, inl, inr, Bool, true, false, ◌&&◌, ◌||◌, List, [], ◌∷◌, arith,
  ltb, if◌then◌else◌, bytes_eq, bytes_eq→eq, eq→bytes_eq, All, Bool-cases,
}
use homedeck.Auth.Compare.{constant_time_equals, constant_time_equals_iff}
use homedeck.Auth.Service.{Token, Table, erase, put, sweep_expired_sessions, scan}

-- Some entry of the table makes the token good at the time.
unfoldable pub good : ℕ → Token → Table → Bool
good now t [] = false
good now t ((k, e) ∷ rest) = bytes_eq k t && ltb now e || good now t rest

abbrev pub Other : Token → Token × ℕ → Type 0
Other t entry = bytes_eq entry.0 t ≡ false

-- No token stands twice, as in any map.
abbrev pub IsTable : Table → Type 0
IsTable [] = Unit {0}
IsTable ((k, e) ∷ rest) = All (Other k) rest × IsTable rest

bytes_eq_other :
    (k t u : List ℕ) → bytes_eq k t ≡ true → bytes_eq u k ≡ false → bytes_eq u t ≡ false
bytes_eq_other k t u h n = elim (Bool-cases (bytes_eq u t)) [
  | inl same ↦ cc (eq→bytes_eq u k (bytes_eq→eq u t same ∙ sym (bytes_eq→eq k t h)))
  | inr other ↦ other
]

bytes_eq_same : (k u t : List ℕ) → bytes_eq k u ≡ true → bytes_eq k t ≡ bytes_eq u t
bytes_eq_same k u t h = ap (λ x. bytes_eq x t) (bytes_eq→eq k u h)

good-Other :
    (now : ℕ) (k t : Token) (rest : Table)
    → bytes_eq k t ≡ true
    → All (Other k) rest
    → good now t rest ≡ false
unfolding good
good-Other now k t [] h a = refl
good-Other now k t ((u, e) ∷ rest) h a =
    ground (arith, bytes_eq_other k t u h a.0, good-Other now k t rest h a.1)

pub good-erase :
    (now : ℕ) (t u : Token) (x : Table)
    → good now t (erase u x) ≡ (if bytes_eq u t then false else good now t x)
unfolding good erase
good-erase now t u [] = ground arith
good-erase now t u ((k, e) ∷ rest) =
    ground (arith, good-erase now t u rest, bytes_eq_same k u t, bytes_eq_other u t k)

pub good-sweep :
    (now past : ℕ) (t : Token) (x : Table)
    → past ≤ now
    → good now t (sweep_expired_sessions past x) ≡ good now t x
unfolding good sweep_expired_sessions
good-sweep now past t [] h = refl
good-sweep now past t ((k, e) ∷ rest) h = ground (arith, good-sweep now past t rest h)

constant_time_equals-bytes_eq : (a b : List ℕ) → constant_time_equals a b ≡ bytes_eq a b
constant_time_equals-bytes_eq a b = elim (Bool-cases (bytes_eq a b)) [
  | inl same ↦ rw same ((constant_time_equals_iff a b).1 (bytes_eq→eq a b same))
  | inr other ↦ elim (Bool-cases (constant_time_equals a b)) [
    | inl e ↦ cc (eq→bytes_eq a b ((constant_time_equals_iff a b).0 e))
    | inr e ↦ cc
  ]
]

-- The verdict of a scan, and the table that it leaves as later times see it.
pub scan-good : (now : ℕ) (t : Token) (x : Table) → IsTable x → (scan now t x).0 ≡ good now t x
unfolding scan good
scan-good now t [] h = refl
scan-good now t ((k, e) ∷ rest) h =
    ground
      (arith, constant_time_equals-bytes_eq k t, scan-good now t rest h.1, good-Other now k t rest)

pub good-scan :
    (now past : ℕ) (t u : Token) (x : Table)
    → past ≤ now
    → good now t (scan past u x).1 ≡ good now t x
unfolding scan good
good-scan now past t u [] r = refl
good-scan now past t u ((k, e) ∷ rest) r = ground (arith, good-scan now past t u rest r)

All-Other-erase : (k t : Token) (x : Table) → All (Other k) x → All (Other k) (erase t x)
unfolding erase
All-Other-erase k t [] h = tt
All-Other-erase k t ((u, e) ∷ rest) h = ground (arith, All-Other-erase k t rest h.1)

All-Other-sweep :
    (k : Token) (now : ℕ) (x : Table)
    → All (Other k) x
    → All (Other k) (sweep_expired_sessions now x)
unfolding sweep_expired_sessions
All-Other-sweep k now [] h = tt
All-Other-sweep k now ((u, e) ∷ rest) h = ground (arith, All-Other-sweep k now rest h.1)

All-Other-scan :
    (k : Token) (now : ℕ) (t : Token) (x : Table) → All (Other k) x → All (Other k) (scan now t x).1
unfolding scan
All-Other-scan k now t [] h = tt
All-Other-scan k now t ((u, e) ∷ rest) h = ground (arith, All-Other-scan k now t rest h.1, h.1)

-- The other direction: nothing that is left equals the token erased.
erase-Other : (t : Token) (x : Table) → All (Other t) (erase t x)
unfolding erase
erase-Other t [] = tt
erase-Other t ((u, e) ∷ rest) = ground (arith, erase-Other t rest)

pub erase-IsTable : (t : Token) (x : Table) → IsTable x → IsTable (erase t x)
unfolding erase
erase-IsTable t [] h = tt
erase-IsTable t ((k, e) ∷ rest) h =
    ground (arith, erase-IsTable t rest h.1, All-Other-erase k t rest h.0)

pub put-IsTable : (t : Token) (e : ℕ) (x : Table) → IsTable x → IsTable (put t e x)
unfolding put
put-IsTable t e x h = (erase-Other t x, erase-IsTable t x h)

pub sweep-IsTable : (now : ℕ) (x : Table) → IsTable x → IsTable (sweep_expired_sessions now x)
unfolding sweep_expired_sessions
sweep-IsTable now [] h = tt
sweep-IsTable now ((k, e) ∷ rest) h =
    ground (arith, sweep-IsTable now rest h.1, All-Other-sweep k now rest h.0)

pub scan-IsTable : (now : ℕ) (t : Token) (x : Table) → IsTable x → IsTable (scan now t x).1
unfolding scan
scan-IsTable now t [] h = tt
scan-IsTable now t ((k, e) ∷ rest) h =
    ground (arith, scan-IsTable now t rest h.1, All-Other-scan k now t rest h.0)

pub good-put :
    (now : ℕ) (t u : Token) (e : ℕ) (x : Table)
    → good now t (put u e x) ≡ (if bytes_eq u t then ltb now e else good now t x)
unfolding put good
good-put now t u e x = ground (arith, good-erase now t u x)
