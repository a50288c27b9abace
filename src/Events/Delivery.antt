-- ===== src/Events/Delivery.antt =====
-- What a publication delivers where nothing stands between its actions.
use homedeck.Base.{
  ℕ, ◌≡◌, refl, ◌∙◌, ap, sym, true, none, some, List, [], ◌∷◌, ◌++◌, if◌then◌else◌, Bool-cases, inl,
  inr,
}
use mathlib.Core.List.{append_assoc, append-nil}
use homedeck.Events.{Subscriber, Action, notify, publish_impl, find_callback}
use homedeck.Events.Distinct.{AllFound, Distinct-AllFound, Reach-AllDistinct}
use homedeck.Events.Absent.{empty_system}
use homedeck.Events.System.{Reach, Deferred, Run, System, act, look_up, call_found}

-- The trace has its newest entry first.
abbrev pub onto {ℓ} : {A : Type ℓ} → List A → List A → List A
onto [] old = old
onto (x ∷ xs) old = onto xs (x ∷ old)

module _ {C P : Type 0} where
  -- The actions of one publication, one after the other.
  pub act_all : P → List (Action C) → System C P → System C P
  unfolding act
  act_all payload [] s = s
  act_all payload (a ∷ actions) s = act_all payload actions (act payload a s)

  -- The thread of the user interface runs every call that waits.
  pub run_all : List (Deferred P) → System C P → System C P
  unfolding look_up call_found
  run_all [] s = record s { deferred = [] }
  run_all (d ∷ later) s = run_all later (call_found (look_up d later s))

  abbrev pub direct_runs : P → List (Subscriber C) → List (Run C P)
  direct_runs payload [] = []
  direct_runs payload (s ∷ list) =
      if s.is_ui
      then direct_runs payload list
      else record { ui_id = none; callback = s.callback; payload = payload }
        ∷ direct_runs payload list

  abbrev pub ui_deliveries : P → List (Subscriber C) → List (Run C P)
  ui_deliveries payload [] = []
  ui_deliveries payload (s ∷ list) =
      if s.is_ui
      then record { ui_id = some s.id; callback = s.callback; payload = payload }
        ∷ ui_deliveries payload list
      else ui_deliveries payload list

  abbrev pub waiting : P → ℕ → List (Subscriber C) → List (Deferred P)
  waiting payload type [] = []
  waiting payload type (s ∷ list) =
      if s.is_ui
      then record { type = type; id = s.id; payload = payload } ∷ waiting payload type list
      else waiting payload type list

  -- With a dispatcher: the direct callbacks have run, and the deferred calls wait behind the others.
  act_all_lem :
      (payload : P) (type : ℕ) (list : List (Subscriber C)) (s : System C P)
      → act_all payload (notify true type list) s ≡ record s {
        deferred = s.deferred ++ waiting payload type list;
        runs = onto (direct_runs payload list) s.runs;
      }
  unfolding act_all notify act
  act_all_lem payload type [] s = ap (λ q. record s { deferred = q }) (sym (append-nil s.deferred))
  act_all_lem payload type (sub ∷ list) s = elim (Bool-cases sub.is_ui) [
    | inl ui ↦ rw ui (
        act_all_lem payload type list _
        ∙ ap (λ q. record s { deferred = q; runs = onto (direct_runs payload list) s.runs })
            (append_assoc s.deferred (record { type = type; id = sub.id; payload = payload } ∷ [])
              (waiting payload type list)))
    | inr direct ↦ rw direct (act_all_lem payload type list _)
  ]

  run_found :
      (d : Deferred P) (later : List (Deferred P)) (callback : C) (s : System C P)
      → s.calling ≡ none
      → find_callback d.type d.id s.bus ≡ some callback
      → call_found (look_up d later s) ≡ record s {
        deferred = later;
        runs = record { ui_id = some d.id; callback = callback; payload = d.payload } ∷ s.runs;
      }
  unfolding look_up call_found
  run_found d later callback s free e = rw (e, free) refl

  run_all_lem :
      (payload : P) (type : ℕ) (list : List (Subscriber C)) (s : System C P)
      → s.calling ≡ none
      → AllFound (s.bus.subscribers type) list
      → run_all (waiting payload type list) s
        ≡ record s { deferred = []; runs = onto (ui_deliveries payload list) s.runs }
  unfolding run_all find_callback
  run_all_lem payload type [] s free h = refl
  run_all_lem payload type (sub ∷ list) s free h = elim (Bool-cases sub.is_ui) [
    | inl ui ↦ rw ui (
        ap (run_all (waiting payload type list)) (
          run_found (record { type = type; id = sub.id; payload = payload })
            (waiting payload type list) sub.callback s free h.0)
        ∙ run_all_lem payload type list _ free h.1)
    | inr direct ↦ rw direct (run_all_lem payload type list s free h.1)
  ]

  -- A publication with a dispatcher, whose actions nothing interrupts, calls every subscriber to the
  -- type exactly once with its payload, in the order of the subscriptions: the direct ones at once, and
  -- those of the user interface when its thread has run the calls that wait. The bus has come to its
  -- state by any steps from an empty one, no call waited before and none was about to be made.
  pub publish_impl_delivers :
      (s : System C P) (type : ℕ) (payload : P)
      → Reach empty_system s
      → s.bus.has_dispatcher ≡ true
      → s.deferred ≡ []
      → s.calling ≡ none
      → let t = act_all payload (publish_impl type s.bus) s in
        let list = s.bus.subscribers type in
        run_all t.deferred t ≡ record s {
          deferred = [];
          runs = onto (ui_deliveries payload list) (onto (direct_runs payload list) s.runs);
        }
  unfolding publish_impl
  publish_impl_delivers s type payload r e none_wait free =
      let list = s.bus.subscribers type in
      let acted =
        ap (λ b. act_all payload (notify b type list) s) e
        ∙ act_all_lem payload type list s
        ∙ ap
            (λ q. record s {
              deferred = q ++ waiting payload type list;
              runs = onto (direct_runs payload list) s.runs;
            })
            none_wait in
      ap (λ t. run_all t.deferred t) acted
      ∙ run_all_lem payload type list
          (record s {
            deferred = waiting payload type list;
            runs = onto (direct_runs payload list) s.runs;
          })
          free (Distinct-AllFound list (Reach-AllDistinct r type))
