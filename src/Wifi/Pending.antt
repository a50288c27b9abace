-- ===== src/Wifi/Pending.antt =====
-- `PendingWifiCredentials` of src/core/pending_wifi_credentials.h. The ids wrap at 32 bits.
use homedeck.Base.{
  ℕ, suc, ◌+◌, ◌%◌, ◌<◌, ◌≡◌, ◌≢◌, refl, ◌∙◌, ap, Bool, not, ◌&&◌, Option, none, some, List, [],
  ◌∷◌, arith, leb, ◌==◌, if◌then◌else◌, length, is_empty, Bool-cases, ==_iff, ◌⊎◌, inl, inr, sym,
}

abbrev pub max_wifi_ssid_bytes : ℕ
max_wifi_ssid_bytes = 31

abbrev pub max_wifi_password_bytes : ℕ
max_wifi_password_bytes = 63

unfoldable pub is_valid_wifi_credentials : List ℕ → List ℕ → Bool
is_valid_wifi_credentials ssid password =
    not (is_empty ssid)
    && leb (length ssid) max_wifi_ssid_bytes
    && leb (length password) max_wifi_password_bytes

pub record WifiCredentials : Type 0 where
  pub ssid : List ℕ
  pub password : List ℕ

pub record PendingWifiCredentials : Type 0 where
  pub pending : Option WifiCredentials
  pub last_id : ℕ

unfoldable pub submit : List ℕ → List ℕ → PendingWifiCredentials → Option ℕ × PendingWifiCredentials
unfolding is_valid_wifi_credentials
submit ssid password p =
    if not (is_valid_wifi_credentials ssid password)
    then (none, p)
    else let id = (p.last_id + 1) % 4294967296 in
      (
        some id,
        record { pending = some (record { ssid = ssid; password = password }); last_id = id },
      )

unfoldable pub take : ℕ → PendingWifiCredentials → Option WifiCredentials × PendingWifiCredentials
take id p = if id == p.last_id then (p.pending, record p { pending = none }) else (none, p)

unfoldable pub clear : PendingWifiCredentials → PendingWifiCredentials
clear p = record p { pending = none }

pub data Request : Type 0 where
  submits : (ssid password : List ℕ) → Request
  takes : ℕ → Request
  clears : Request

unfoldable pub step : PendingWifiCredentials → Request → PendingWifiCredentials
unfolding submit take clear
step p (submits ssid password) = (submit ssid password p).1
step p (takes id) = (take id p).1
step p clears = clear p

unfoldable pub run : PendingWifiCredentials → List Request → PendingWifiCredentials
unfolding step
run p [] = p
run p (r ∷ rs) = run (step p r) rs

-- How many submissions were accepted.
unfoldable pub accepted : List Request → ℕ
unfolding is_valid_wifi_credentials
accepted [] = 0
accepted (submits ssid password ∷ rs) =
    let n = accepted rs in if is_valid_wifi_credentials ssid password then suc n else n
accepted (takes id ∷ rs) = accepted rs
accepted (clears ∷ rs) = accepted rs

last_id-step :
    (p : PendingWifiCredentials) (r : Request)
    → p.last_id < 4294967296
    → (step p r).last_id ≡ (p.last_id + accepted (r ∷ [])) % 4294967296
unfolding step accepted submit take clear
last_id-step p (submits ssid password) h = ground arith
last_id-step p (takes id) h = ground arith
last_id-step p clears h = ground arith

accepted-cons :
    (r : Request) (rs : List Request) → accepted (r ∷ rs) ≡ accepted (r ∷ []) + accepted rs
unfolding accepted
accepted-cons (submits ssid password) rs = ground arith
accepted-cons (takes id) rs = omega arith
accepted-cons clears rs = omega arith

last_id-run :
    (p : PendingWifiCredentials) (rs : List Request)
    → p.last_id < 4294967296
    → (run p rs).last_id ≡ (p.last_id + accepted rs) % 4294967296
unfolding run accepted
last_id-run p [] h = omega (arith, h)
last_id-run p (r ∷ rs) h =
    last_id-run (step p r) rs (omega (arith, last_id-step p r h))
    ∙ omega (arith, last_id-step p r h, accepted-cons r rs)

empty-step :
    (p : PendingWifiCredentials) (r : Request)
    → p.pending ≡ none
    → accepted (r ∷ []) ≡ 0
    → (step p r).pending ≡ none
unfolding step accepted submit take clear
empty-step p (submits ssid password) e z = ground arith
empty-step p (takes id) e z = ground arith
empty-step p clears e z = refl

empty-run :
    (p : PendingWifiCredentials) (rs : List Request)
    → p.pending ≡ none
    → accepted rs ≡ 0
    → (run p rs).pending ≡ none
unfolding run
empty-run p [] e z = e
empty-run p (r ∷ rs) e z =
    empty-run (step p r) rs (empty-step p r e (omega (arith, z, accepted-cons r rs)))
      (omega (arith, z, accepted-cons r rs))

moved :
    (last n : ℕ) → last < 4294967296 → n < 4294967296 → n ≢ 0 → (last + n) % 4294967296 ≡ last → ⊥
moved last n h k z e = omega (arith, h, k, z, e)

gone :
    (q : PendingWifiCredentials) (id : ℕ)
    → (q.pending ≡ none) ⊎ (q.last_id ≢ id)
    → (take id q).0 ≡ none
unfolding take
gone q id (inl e) = ground (arith, e)
gone q id (inr n) = ground (arith, n)

emptied :
    (p : PendingWifiCredentials) (id : ℕ) (w : WifiCredentials)
    → (take id p).0 ≡ some w
    → ((take id p).1.pending ≡ none) × ((take id p).1.last_id ≡ id) × (p.last_id ≡ id)
unfolding take
emptied p id w e = (ground (arith, e), ground (arith, e), ground (arith, e))

-- Credentials that were taken are not given again under their id, whatever is submitted, taken or
-- cleared since, as long as fewer than 2^32 submissions are accepted.
pub take_once :
    (p : PendingWifiCredentials) (id : ℕ) (w : WifiCredentials) (rs : List Request)
    → p.last_id < 4294967296
    → (take id p).0 ≡ some w
    → accepted rs < 4294967296
    → (take id (run (take id p).1 rs)).0 ≡ none
take_once p id w rs h e k =
    let (none_left, same, last) = emptied p id w e in
    gone (run (take id p).1 rs) id (elim (Bool-cases (accepted rs == 0)) [
      | inl z ↦ inl (empty-run (take id p).1 rs none_left ((==_iff (accepted rs) 0).0 z))
      | inr z ↦ inr (λ q. moved p.last_id (accepted rs) h k (ground (arith, z)) (
          sym (
            last_id-run (take id p).1 rs (omega (arith, h, same, last))
            ∙ ap (λ x. (x + accepted rs) % 4294967296) (same ∙ sym last))
          ∙ q
          ∙ sym last))
    ])
