-- ===== src/Events/Liveness.antt =====
-- A subscriber whose handle was dropped is not called again by the user interface.
use homedeck.Base.{
  ℕ, suc, ◌^◌, ◌<◌, ◌≢◌, ◌≡◌, refl, ◌∙◌, ap, sym, Bool, Option, none, some, List, [], ◌∷◌, ◌++◌,
  ◌==◌, if◌then◌else◌, arith, Option-cases, inl, inr,
}
use homedeck.Events.{Bus, Action, call, post, reset, subscribe_impl, find_callback}
use homedeck.Events.System.{
  Deferred, Run, System, Step, dispatcher, subscribe, drop_handle, publish, proceed, looks_up,
  calls, Reach, here, next, act, look_up, call_found,
}
use homedeck.Events.Absent.{
  AbsentFrom, empty_system, Reach-AbsentFrom, Reach-IsFresh, subscribe_impl-home, unsubscribe-gone,
}

not_both : {C : Type 0} {o : Option C} {callback : C} → o ≡ some callback → o ≡ none → ⊥
not_both p q = cc

module _ {C P : Type 0} where
  -- Of the callbacks that ran, those that were deferred for this number.
  abbrev pub ui_runs : ℕ → List (Run C P) → List (Run C P)
  ui_runs id [] = []
  ui_runs id (r ∷ rs) = elim r.ui_id [
    | none ↦ ui_runs id rs
    | some k ↦ if k == id then r ∷ ui_runs id rs else ui_runs id rs
  ]

  -- The callback that was looked up, and is to be called next.
  abbrev pub in_flight : System C P → List (Run C P)
  in_flight s = elim s.calling [ none ↦ [] | some r ↦ r ∷ [] ]

  -- The calls for this number that were made, behind the one that is about to be.
  abbrev pub ui_calls : ℕ → System C P → List (Run C P)
  ui_calls id s = ui_runs id (in_flight s) ++ ui_runs id s.runs

  ui_runs-cons :
      (id : ℕ) (ui_id : Option ℕ) (callback : C) (payload : P) (rs : List (Run C P))
      → let r : Run C P = record { ui_id = ui_id; callback = callback; payload = payload } in
        ui_runs id (r ∷ rs) ≡ ui_runs id (r ∷ []) ++ ui_runs id rs
  ui_runs-cons id none callback payload rs = refl
  ui_runs-cons id (some k) callback payload rs = ground arith

  look_up-none :
      (id : ℕ) (d : Deferred P) (later : List (Deferred P)) (s : System C P)
      → AbsentFrom (λ t. Unit {0}) id s.bus
      → ui_runs id (in_flight (look_up d later s)) ≡ []
  unfolding look_up
  look_up-none id d later s h = elim (Option-cases (find_callback d.type d.id s.bus)) [
    | inl nothing ↦ rw nothing refl
    | inr (callback, found) ↦
        let other : d.id ≢ id =
          λ same. not_both found (ap (λ k. find_callback d.type k s.bus) same ∙ h.1 d.type tt) in
        rw found (ground (arith, other))
  ]

  module _ (id : ℕ) (bus : Bus C) (publishing : List (P × List (Action C)))
      (deferred : List (Deferred P)) (runs : List (Run C P)) where
    abbrev about_to : Option (Run C P) → System C P
    about_to calling = record {
      bus = bus;
      publishing = publishing;
      deferred = deferred;
      calling = calling;
      runs = runs;
    }

    call_found-ui_calls :
        (calling : Option (Run C P))
        → ui_calls id (call_found (about_to calling)) ≡ ui_calls id (about_to calling)
    unfolding call_found
    call_found-ui_calls none = refl
    call_found-ui_calls (some r) = ui_runs-cons id r.ui_id r.callback r.payload runs

    call_found-quiet :
        (calling : Option (Run C P))
        → ui_runs id (in_flight (about_to calling)) ≡ []
        → (ui_runs id (in_flight (call_found (about_to calling))) ≡ [])
          × (ui_runs id (call_found (about_to calling)).runs ≡ ui_runs id runs)
    unfolding call_found
    call_found-quiet none q = (q, refl)
    call_found-quiet (some r) q = (
      refl,
      ui_runs-cons id r.ui_id r.callback r.payload runs ∙ ap (λ rs. rs ++ ui_runs id runs) q,
    )

  -- No step calls a callback for this number that was not in flight.
  Step-silent :
      (id : ℕ) {s t : System C P}
      → Step s t
      → AbsentFrom (λ t. Unit {0}) id s.bus
      → ui_calls id t ≡ ui_calls id s
  unfolding act
  Step-silent id (dispatcher s) h = refl
  Step-silent id (subscribe s type is_ui callback room) h = refl
  Step-silent id (drop_handle s type other) h = refl
  Step-silent id (publish s type payload) h = refl
  Step-silent id (proceed s before after payload (call callback) rest e) h = refl
  Step-silent id (proceed s before after payload (post type other) rest e) h = refl
  Step-silent id (looks_up s d later free e) h =
      let free_before : ui_runs id (in_flight s) ≡ [] = rw free refl in
      unfold look_up in
      ap (λ rs. rs ++ ui_runs id s.runs) (look_up-none id d later s h ∙ sym free_before)
  Step-silent id (calls s) h = call_found-ui_calls id s.bus s.publishing s.deferred s.runs s.calling

  Reach-silent :
      (id : ℕ) {s t : System C P}
      → AbsentFrom (λ t. Unit {0}) id s.bus
      → Reach s t
      → ui_calls id t ≡ ui_calls id s
  Reach-silent id h here = refl
  Reach-silent id h (next r step) =
      Step-silent id step (Reach-AbsentFrom (λ t. Unit {0}) id h r) ∙ Reach-silent id h r

  -- Where none is in flight, none will be.
  Step-quiet :
      (id : ℕ) {s t : System C P}
      → Step s t
      → AbsentFrom (λ t. Unit {0}) id s.bus
      → ui_runs id (in_flight s) ≡ []
      → (ui_runs id (in_flight t) ≡ []) × (ui_runs id t.runs ≡ ui_runs id s.runs)
  unfolding act
  Step-quiet id (dispatcher s) h q = (q, refl)
  Step-quiet id (subscribe s type is_ui callback room) h q = (q, refl)
  Step-quiet id (drop_handle s type other) h q = (q, refl)
  Step-quiet id (publish s type payload) h q = (q, refl)
  Step-quiet id (proceed s before after payload (call callback) rest e) h q = (q, refl)
  Step-quiet id (proceed s before after payload (post type other) rest e) h q = (q, refl)
  Step-quiet id (looks_up s d later free e) h q =
      (look_up-none id d later s h, unfold look_up in refl)
  Step-quiet id (calls s) h q = call_found-quiet id s.bus s.publishing s.deferred s.runs s.calling q

  Reach-quiet :
      (id : ℕ) {s t : System C P}
      → AbsentFrom (λ t. Unit {0}) id s.bus
      → ui_runs id (in_flight s) ≡ []
      → Reach s t
      → (ui_runs id (in_flight t) ≡ []) × (ui_runs id t.runs ≡ ui_runs id s.runs)
  Reach-quiet id h q here = (q, refl)
  Reach-quiet id h q (next r step) =
      let (quiet, same) = Reach-quiet id h q r in
      let (quiet', same') = Step-quiet id step (Reach-AbsentFrom (λ t. Unit {0}) id h r) quiet in
      (quiet', same' ∙ same)

  -- From the moment at which the handle of a subscription is reset, whatever the other threads and the
  -- callbacks do, and although calls for it may wait already: the thread of the user interface calls
  -- no callback for it but one that it had looked up before, and had not yet called; and none at all
  -- if it had looked up none, as where that thread itself resets the handle. Fewer than 2^64
  -- subscriptions are made.
  pub reset_subscriber_is_silent :
      (type : ℕ) (is_ui : Bool) (callback : C) (s t u : System C P)
      → Reach empty_system s
      → suc s.bus.next_id < 2 ^ 64
      → let (handle, bus) = subscribe_impl type is_ui callback s.bus in
        Reach (record s { bus = bus }) t
        → Reach (record t { bus = (reset handle t.bus).1 }) u
        → (ui_calls handle.id u ≡ ui_calls handle.id t)
          × (ui_runs handle.id (in_flight t) ≡ []
              → ui_runs handle.id u.runs ≡ ui_runs handle.id t.runs)
  unfolding subscribe_impl reset
  reset_subscriber_is_silent type is_ui callback s t u r room r' r'' =
      let home = subscribe_impl-home type is_ui callback s.bus room (Reach-IsFresh r) in
      let still = Reach-AbsentFrom (λ k. k ≢ type) s.bus.next_id home r' in
      let gone = unsubscribe-gone type s.bus.next_id t.bus still in
      (Reach-silent s.bus.next_id gone r'', λ quiet. (Reach-quiet s.bus.next_id gone quiet r'').1)
