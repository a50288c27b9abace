-- ===== src/Ota.antt =====
-- src/core/ota_gate.h and src/core/ota_routes.cpp. The handler of an upload is cut where another thread
-- may come in between. The power manager subscribes for the thread of the user interface, so what the
-- bus publishes of a write waits until that thread delivers it. The writer is a parameter, and so is
-- the printer of the JSON library.
pub mod Upload
mod Examples
use homedeck.Base.{
  ℕ, ◌+◌, ◌≤◌, ◌<◌, Bool, true, false, not, Option, none, some, List, [], ◌∷◌, ◌++◌, ltb, leb,
  if◌then◌else◌, length,
}
use homedeck.Base.Int.{ℤ, pos}
use homedeck.Base.Text.{codes}
use homedeck.Codec.Decimal.{to_string}
use homedeck.Http.{HttpRequest, HttpResponse, json_response}
use homedeck.Json.{Json, integer, boolean, string, object, field, end}
use homedeck.Battery.{Reading}
use homedeck.Power.{PowerManager, Effect, on_ota}

pub record OtaGateStatus : Type 0 where
  pub is_open : Bool
  pub reason : List ℕ
  pub battery_percent : ℕ

abbrev pub min_battery_percent : ℕ
min_battery_percent = 30

pub gate_reason : List ℕ
gate_reason =
    codes "Battery is below "
    ++ (to_string min_battery_percent
        ++ codes "% and no external power is connected. Connect a charger to update.")

unfoldable pub evaluate_ota_gate : Reading → OtaGateStatus
unfolding gate_reason
evaluate_ota_gate r =
    if leb min_battery_percent r.percent
    then record { is_open = true; reason = []; battery_percent = r.percent }
    else if r.external_power
    then record { is_open = true; reason = []; battery_percent = r.percent }
    else record { is_open = false; reason = gate_reason; battery_percent = r.percent }

-- `OtaWriter`, with the state of the flash.
pub record OtaWriter (W : Type 0) : Type 0 where
  pub max_image_size : ℕ
  pub write_image : List ℕ → W → Bool × W
  pub running_version : List ℕ

-- Where the one handler stands that holds `upload_mutex`: it has the lock, it writes the image, or the
-- end of the write is published.
pub data UploadPhase : Type 0 where
  unlocked : UploadPhase
  locked writing : HttpRequest → UploadPhase
  written : Bool → UploadPhase

-- `published` are the values of the events that the dispatcher has still to deliver, the oldest first.
pub record OtaState (W : Type 0) : Type 0 where
  pub upload : UploadPhase
  pub published : List Bool
  pub power : PowerManager
  pub flash : W

pub error_json : List ℕ → Json
error_json name = object (field (codes "error") (string name) end)

module _ {W : Type 0} (writer : OtaWriter W) (dump : Json → List ℕ) where
  -- The members of an object are printed by name.
  pub ota_status_route : Reading → HttpResponse
  unfolding evaluate_ota_gate json_response
  ota_status_route r =
      let gate = evaluate_ota_gate r in
      json_response 200 (
        dump (
          object (
            field (codes "batteryPercent") (integer (pos gate.battery_percent)) (
              field (codes "batteryPresent") (boolean r.present) (
                field (codes "externalPowerConnected") (boolean r.external_power) (
                  field (codes "gateOpen") (boolean gate.is_open) (
                    field (codes "gateReason") (string gate.reason)
                      (field (codes "runningVersion") (string writer.running_version) end))))))))

  -- `try_to_lock`; the request that does not own the lock is answered.
  unfoldable pub lock_upload : HttpRequest → OtaState W → Option HttpResponse × OtaState W
  unfolding error_json json_response
  lock_upload request o = elim o.upload [
    | unlocked ↦ (none, record o { upload = locked request })
    | _ ↦ (some (json_response 409 (dump (error_json (codes "upload_in_progress")))), o)
  ]

  -- The tests under the lock: an answer, which releases it, or the start of the write is published.
  unfoldable pub admit_upload :
      OtaGateStatus → HttpRequest → OtaState W → Option HttpResponse × OtaState W
  unfolding error_json json_response
  admit_upload gate request o =
      if not gate.is_open
      then (
        some (
            json_response 403 (
              dump (
                object (
                  field (codes "error") (string (codes "gate_closed"))
                    (field (codes "reason") (string gate.reason) end))))),
        record o { upload = unlocked },
      )
      else if ltb writer.max_image_size (length request.body)
      then (
        some (json_response 400 (dump (error_json (codes "image_too_large")))),
        record o { upload = unlocked },
      )
      else (none, record o { upload = writing request; published = o.published ++ (true ∷ []) })

  unfoldable pub begin_upload : Reading → OtaState W → Option HttpResponse × OtaState W
  unfolding admit_upload evaluate_ota_gate
  begin_upload r o = elim o.upload [
    | locked request ↦ admit_upload (evaluate_ota_gate r) request o
    | _ ↦ (none, o)
  ]

  -- The write, and the publication of its end.
  unfoldable pub finish_upload : OtaState W → OtaState W
  finish_upload o = elim o.upload [
    | writing request ↦
        let (write_succeeded, flash) = writer.write_image request.body o.flash in
        record o {
          upload = written write_succeeded;
          published = o.published ++ (false ∷ []);
          flash = flash;
        }
    | _ ↦ o
  ]

  -- The answer, with which the lock is released.
  unfoldable pub answer_upload : OtaState W → Option HttpResponse × OtaState W
  unfolding error_json json_response
  answer_upload o = elim o.upload [
    | written write_succeeded ↦ (
      some (
          if not write_succeeded
          then json_response 500 (dump (error_json (codes "write_failed")))
          else json_response 200 (codes "{\"status\":\"ok\"}")),
      record o { upload = unlocked },
    )
    | _ ↦ (none, o)
  ]

-- The thread of the user interface delivers the oldest event to the power manager's handler, which
-- reads the time since the last touch and the clock.
unfoldable pub deliver_published : {W : Type 0} → ℕ → ℤ → OtaState W → OtaState W
deliver_published inactive_ms now o = elim o.published [
  | [] ↦ o
  | in_progress ∷ later ↦ record o {
    published = later;
    power = (on_ota in_progress inactive_ms now o.power).0;
  }
]

-- `reboot` is the caller's, on a state of its own.
pub reboot_route {ℓ} : {A : Type ℓ} → (A → A) → A → HttpResponse × A
unfolding json_response
reboot_route reboot a = (json_response 200 (codes "{\"status\":\"ok\"}"), reboot a)
