-- ===== src/Ota/Upload.antt =====
-- Uploads on several threads of the web server, among the deliveries of what they publish and the other
-- inputs of the power manager.
use homedeck.Base.{
  ℕ, ◌≤◌, ◌≡◌, refl, ap, if_both, not, Option, ◌∙◌, sym, ltb, ◌↔◌, ◌⊎◌, Bool, true, false, none,
  List, [], ◌∷◌, ◌++◌, length, arith,
}
use homedeck.Base.Int.{ℤ}
use homedeck.Http.{HttpRequest, HttpResponse}
use homedeck.Json.{Json}
use homedeck.Battery.{Reading}
use homedeck.Power.{PowerManager, Input, step, on_ota}
use homedeck.Power.Update.{IsOther, StaysOn, on_ota_begins, on_ota_ends, step_other}
use mathlib.Core.Bool.{true≢false}
use homedeck.Ota.{
  OtaGateStatus, OtaWriter, UploadPhase, unlocked, locked, writing, written, OtaState, lock_upload,
  admit_upload, min_battery_percent, evaluate_ota_gate, begin_upload, finish_upload, answer_upload,
  deliver_published,
}

evaluate_ota_gate_iff :
    (r : Reading)
    → ((evaluate_ota_gate r).is_open ≡ true)
      ↔ ((min_battery_percent ≤ r.percent) ⊎ (r.external_power ≡ true))
unfolding evaluate_ota_gate
evaluate_ota_gate_iff r = ground arith

-- What the manager's flag will be when all that waits is delivered.
abbrev pub last_told : List Bool → Bool → Bool
last_told [] flag = flag
last_told (in_progress ∷ later) flag = last_told later in_progress

last_told-append :
    (published : List Bool) (last flag : Bool) → last_told (published ++ (last ∷ [])) flag ≡ last
last_told-append [] last flag = refl
last_told-append (p ∷ later) last flag = last_told-append later last p

abbrev pub is_writing : UploadPhase → Bool
is_writing (writing request) = true
is_writing _ = false

module _ {W : Type 0} (writer : OtaWriter W) (dump : Json → List ℕ) where
  -- The write of an upload that has the lock begins exactly where the battery has 30 percent at least
  -- or external power is connected, and the image is not larger than the writer takes.
  admit_upload_iff :
      (gate : OtaGateStatus) (request : HttpRequest) (o : OtaState W)
      → ((admit_upload writer dump gate request o).0 ≡ none)
        ↔ ((gate.is_open ≡ true) × (length request.body ≤ writer.max_image_size))
  unfolding admit_upload
  admit_upload_iff gate request o = ground arith

  pub begin_upload_iff :
      (r : Reading) (request : HttpRequest) (o : OtaState W)
      → ((begin_upload writer dump r (record o { upload = locked request })).0 ≡ none) ↔ (
          ((min_battery_percent ≤ r.percent) ⊎ (r.external_power ≡ true))
          × (length request.body ≤ writer.max_image_size))
  unfolding begin_upload
  begin_upload_iff r request o = ground (
    arith,
    admit_upload_iff (evaluate_ota_gate r) request (record o { upload = locked request }),
    evaluate_ota_gate_iff r,
  )

  pub data Move (o : OtaState W) : OtaState W → Type 0 where
    locks : (request : HttpRequest) → Move o (lock_upload writer dump request o).1
    begins : (r : Reading) → Move o (begin_upload writer dump r o).1
    finishes : Move o (finish_upload writer dump o)
    answers : Move o (answer_upload writer dump o).1
    delivers : (inactive_ms : ℕ) (now : ℤ) → Move o (deliver_published inactive_ms now o)
    power_input : (i : Input) → IsOther i → Move o (record o { power = (step o.power i).0 })

  pub data Moves (o : OtaState W) : OtaState W → Type 0 where
    here : Moves o o
    next : {p q : OtaState W} → Moves o p → Move p q → Moves o q

  -- The events that wait end with the truth, and a manager that knows of a write is awake.
  abbrev pub IsTold : UploadPhase → List Bool → PowerManager → Type 0
  IsTold upload published m =
      (last_told published m.ota_in_progress ≡ is_writing upload)
      × (m.ota_in_progress ≡ true → StaysOn m.state)

  abbrev pub IsAwake : OtaState W → Type 0
  IsAwake o = IsTold o.upload o.published o.power

  admit_upload-IsAwake :
      (gate : OtaGateStatus) (request : HttpRequest) (o : OtaState W)
      → IsTold unlocked o.published o.power
      → IsAwake (admit_upload writer dump gate request o).1
  unfolding admit_upload
  admit_upload-IsAwake gate request o (told, awake) =
      if_both (λ (r : Option HttpResponse × OtaState W). IsAwake r.1) (not gate.is_open) _ _
        (λ e. (told, awake))
        (λ e.
          if_both (λ (r : Option HttpResponse × OtaState W). IsAwake r.1)
            (ltb writer.max_image_size (length request.body)) _ _ (λ e'. (told, awake))
            (λ e'. (last_told-append o.published true o.power.ota_in_progress, awake)))

  module _ (ps : List Bool) (m : PowerManager) (flash : W) where
    abbrev state_in : UploadPhase → OtaState W
    state_in u = record { upload = u; published = ps; power = m; flash = flash }

    lock_upload-IsAwake :
        (u : UploadPhase) (request : HttpRequest)
        → IsTold u ps m
        → IsAwake (lock_upload writer dump request (state_in u)).1
    unfolding lock_upload
    lock_upload-IsAwake unlocked request h = h
    lock_upload-IsAwake (locked r) request h = h
    lock_upload-IsAwake (writing r) request h = h
    lock_upload-IsAwake (written b) request h = h

    begin_upload-IsAwake :
        (u : UploadPhase) (r : Reading)
        → IsTold u ps m
        → IsAwake (begin_upload writer dump r (state_in u)).1
    unfolding begin_upload
    begin_upload-IsAwake unlocked r h = h
    begin_upload-IsAwake (locked request) r h =
        admit_upload-IsAwake (evaluate_ota_gate r) request (state_in (locked request)) h
    begin_upload-IsAwake (writing request) r h = h
    begin_upload-IsAwake (written b) r h = h

    finish_upload-IsAwake :
        (u : UploadPhase) → IsTold u ps m → IsAwake (finish_upload writer dump (state_in u))
    unfolding finish_upload
    finish_upload-IsAwake unlocked h = h
    finish_upload-IsAwake (locked request) h = h
    finish_upload-IsAwake (writing request) (told, awake) =
        (last_told-append ps false m.ota_in_progress, awake)
    finish_upload-IsAwake (written b) h = h

    answer_upload-IsAwake :
        (u : UploadPhase) → IsTold u ps m → IsAwake (answer_upload writer dump (state_in u)).1
    unfolding answer_upload
    answer_upload-IsAwake unlocked h = h
    answer_upload-IsAwake (locked request) h = h
    answer_upload-IsAwake (writing request) h = h
    answer_upload-IsAwake (written b) h = h

  IsTold-on_ota :
      (b : Bool) (later : List Bool) (u : UploadPhase) (inactive_ms : ℕ) (now : ℤ)
      (m : PowerManager)
      → last_told later b ≡ is_writing u
      → IsTold u later (on_ota b inactive_ms now m).0
  IsTold-on_ota true later u inactive_ms now m told =
      let (knows, stays) = on_ota_begins inactive_ms now m in (rw knows told, λ e. stays)
  IsTold-on_ota false later u inactive_ms now m told =
      let ends = on_ota_ends inactive_ms now m in
      (rw ends told, λ e. absurd (true≢false (sym e ∙ ends)))

  deliver_published-IsAwake :
      (u : UploadPhase) (ps : List Bool) (m : PowerManager) (flash : W) (inactive_ms : ℕ) (now : ℤ)
      → IsTold u ps m
      → IsAwake (deliver_published inactive_ms now (state_in ps m flash u))
  unfolding deliver_published
  deliver_published-IsAwake u [] m flash inactive_ms now h = h
  deliver_published-IsAwake u (b ∷ later) m flash inactive_ms now (told, awake) =
      IsTold-on_ota b later u inactive_ms now m told

  Move-IsAwake : (o p : OtaState W) → Move o p → IsAwake o → IsAwake p
  Move-IsAwake o p (locks request) h =
      lock_upload-IsAwake o.published o.power o.flash o.upload request h
  Move-IsAwake o p (begins r) h = begin_upload-IsAwake o.published o.power o.flash o.upload r h
  Move-IsAwake o p finishes h = finish_upload-IsAwake o.published o.power o.flash o.upload h
  Move-IsAwake o p answers h = answer_upload-IsAwake o.published o.power o.flash o.upload h
  Move-IsAwake o p (delivers inactive_ms now) h =
      deliver_published-IsAwake o.upload o.published o.power o.flash inactive_ms now h
  Move-IsAwake o p (power_input i other) (told, awake) =
      let (same, on) = step_other o.power i other in
      (rw same told, λ knows. on (sym same ∙ knows) (awake (sym same ∙ knows)))

  Moves-told :
      (o p : OtaState W)
      → o.upload ≡ unlocked
      → o.published ≡ []
      → o.power.ota_in_progress ≡ false
      → Moves o p
      → IsAwake p
  Moves-told o p free quiet idle here =
      (rw (free, quiet) idle, λ knows. absurd (true≢false (sym knows ∙ idle)))
  Moves-told o p free quiet idle (next moves move) =
      Move-IsAwake _ _ move (Moves-told o _ free quiet idle moves)

  -- However uploads of several requests, the deliveries of the events that they publish and the other
  -- inputs of the power manager interleave: the last of the events that wait, or the manager's flag if
  -- none does, says whether a write is under way. From the delivery of a write's start to that of its
  -- end the manager stays in the state for updates, or in the one for a critical battery: it neither
  -- dims nor sleeps. So it does during a write once nothing waits. The lock is free at first, no event
  -- waits and the manager knows of no write; the dispatcher is there and keeps the order of its calls.
  pub Moves-IsAwake :
      (o p : OtaState W)
      → o.upload ≡ unlocked
      → o.published ≡ []
      → o.power.ota_in_progress ≡ false
      → Moves o p
      → (last_told p.published p.power.ota_in_progress ≡ is_writing p.upload)
        × (p.power.ota_in_progress ≡ true → StaysOn p.power.state)
        × (p.published ≡ [] → is_writing p.upload ≡ true → StaysOn p.power.state)
  Moves-IsAwake o p free quiet idle moves =
      let (told, awake) = Moves-told o p free quiet idle moves in
      (
        told,
        awake,
        λ none_wait under_way.
            awake
              (sym (ap (λ ps. last_told ps p.power.ota_in_progress) none_wait) ∙ told ∙ under_way),
      )
