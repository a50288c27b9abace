-- ===== src/Ota/Examples.antt =====
-- An upload during which the battery becomes critical, before its start has been delivered.
use homedeck.Base.{ℕ, ◌≡◌, refl, true, false, none, List, []}
use homedeck.Base.Int.{pos}
use homedeck.Base.Text.{codes}
use homedeck.Http.{HttpRequest}
use homedeck.Json.{Json}
use homedeck.Battery.{Reading}
use homedeck.Power.{init, critical_battery, step}
use homedeck.Power.Update.{StaysOn}
use homedeck.Ota.{
  OtaWriter, OtaState, unlocked, lock_upload, begin_upload, admit_upload, evaluate_ota_gate,
  deliver_published,
}
use homedeck.Ota.Upload.{
  here, next, locks, begins, delivers, power_input, last_told, is_writing, Moves-IsAwake,
}

abbrev writer : OtaWriter (List ℕ)
writer = record {
  max_image_size = 4;
  write_image = λ image flash. (true, image);
  running_version = codes "1";
}

abbrev dump : Json → List ℕ
dump j = []

abbrev request : HttpRequest
request = record { path = []; query = []; body = codes "abc"; cookie_header = none }

abbrev charged : Reading
charged = record { percent = 80; external_power = false; present = true }

abbrev start : OtaState (List ℕ)
start = record { upload = unlocked; published = []; power = init (pos 60); flash = [] }

abbrev begun : OtaState (List ℕ)
begun = (begin_upload writer dump charged (lock_upload writer dump request start).1).1

abbrev warned : OtaState (List ℕ)
warned = record begun { power = (step begun.power (critical_battery true)).0 }

abbrev delivered : OtaState (List ℕ)
delivered = deliver_published 0 (pos 0) warned

delivered_phase : is_writing delivered.upload ≡ true
unfolding lock_upload begin_upload admit_upload evaluate_ota_gate deliver_published
delivered_phase = refl

Moves-IsAwake_example :
    (last_told delivered.published delivered.power.ota_in_progress ≡ is_writing delivered.upload)
    × (delivered.power.ota_in_progress ≡ true → StaysOn delivered.power.state)
    × (delivered.published ≡ []
        → is_writing delivered.upload ≡ true
        → StaysOn delivered.power.state)
unfolding init
Moves-IsAwake_example = Moves-IsAwake writer dump start delivered refl refl refl (
    next
      (next (next (next here (locks request)) (begins charged))
        (power_input (critical_battery true) tt))
      (delivers 0 (pos 0)))
