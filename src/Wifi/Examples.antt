-- ===== src/Wifi/Examples.antt =====
-- The theorems on the Wi-Fi decisions at concrete values.
use homedeck.Base.{
  ◌<◌, ◌≡◌, refl, All, Bool, some, List, [], ◌∷◌, arith, ltb, leb, ◌&&◌, if◌then◌else◌,
}
use homedeck.Base.Text.{codes}
use homedeck.Wifi.Policy.{Decision, retry, Limits, disconnects, offers, normal_modes, offers-normal}
use homedeck.Wifi.Pending.{
  PendingWifiCredentials, Request, submits, takes, clears, take, accepted,
  is_valid_wifi_credentials,
}

abbrev limits : Limits
limits = record {
  max_setup_attempts = 5;
  normal_mode_recovery_attempts = 3;
  retry_delay_ms = 1000;
  recovery_ap_retry_delay_ms = 30000;
}

offers-normal_example :
    All (λ (r : Decision × Bool). r.0 ≡ retry) (disconnects limits (normal_modes limits 4) 0).0
    × ((disconnects limits (normal_modes limits 4) 0).1 ≡ 4)
    × (offers limits (disconnects limits (normal_modes limits 4) 0).0
        ≡ (if ltb 0 3 && leb 3 4 then 1 else 0))
offers-normal_example = offers-normal limits 4

abbrev waiting : PendingWifiCredentials
waiting = record {
  pending = some (record { ssid = codes "attic"; password = [] });
  last_id = 4294967295;
}

abbrev later : List Request
later = takes 4294967295 ∷ submits (codes "cellar") (codes "pw") ∷ clears ∷ []

accepted_one : accepted later < 4294967296
unfolding accepted is_valid_wifi_credentials
accepted_one = omega arith

taken : (take 4294967295 waiting).0 ≡ some (record { ssid = codes "attic"; password = [] })
unfolding take
taken = refl
