-- ===== src/Events/System.antt =====
-- The bus among the threads that use it: publications in progress, the calls that the dispatcher of the
-- user interface has still to run, and the callback that its thread has looked up and not yet called. Callbacks run outside the lock, so that any step of another
-- thread, or of a callback, may stand between two actions.
use homedeck.Base.{ℕ, suc, ◌^◌, ◌<◌, ◌≡◌, Bool, Option, none, some, List, [], ◌∷◌, ◌++◌}
use homedeck.Events.{
  Bus, Action, call, post, set_ui_dispatcher, subscribe_impl, unsubscribe, find_callback,
  publish_impl,
}

-- A call that waits for the thread of the user interface.
pub record Deferred (P : Type 0) : Type 0 where
  pub type : ℕ
  pub id : ℕ
  pub payload : P

-- One callback that ran: for a deferred call, with the subscriber's number.
pub record Run (C P : Type 0) : Type 0 where
  pub ui_id : Option ℕ
  pub callback : C
  pub payload : P

pub record System (C P : Type 0) : Type 0 where
  pub bus : Bus C
  pub publishing : List (P × List (Action C))
  pub deferred : List (Deferred P)
  pub calling : Option (Run C P)
  pub runs : List (Run C P)

-- The deferred function looks its callback up when it runs. The lock is free again before the call.
unfoldable pub look_up : {C P : Type 0} → Deferred P → List (Deferred P) → System C P → System C P
unfolding find_callback
look_up d later s = record s {
  deferred = later;
  calling = elim (find_callback d.type d.id s.bus) [
    | none ↦ none
    | some callback ↦ some (record { ui_id = some d.id; callback = callback; payload = d.payload })
  ];
}

-- The call of the callback that was found.
unfoldable pub call_found : {C P : Type 0} → System C P → System C P
call_found s = elim s.calling [ none ↦ s | some r ↦ record s { calling = none; runs = r ∷ s.runs } ]

-- One action of a publication.
unfoldable pub act : {C P : Type 0} → P → Action C → System C P → System C P
act payload (call callback) s = record s {
  runs = record { ui_id = none; callback = callback; payload = payload } ∷ s.runs;
}
act payload (post type id) s = record s {
  deferred = s.deferred ++ (record { type = type; id = id; payload = payload } ∷ []);
}

-- The publications may run on different threads: `before` and `after` are those of the others.
pub data Step {C P : Type 0} : System C P → System C P → Type 0 where
  dispatcher : (s : System C P) → Step s (record s { bus = set_ui_dispatcher s.bus })
  subscribe :
      (s : System C P) (type : ℕ) (is_ui : Bool) (callback : C)
      → suc s.bus.next_id < 2 ^ 64
      → Step s (record s { bus = (subscribe_impl type is_ui callback s.bus).1 })
  drop_handle :
      (s : System C P) (type id : ℕ) → Step s (record s { bus = unsubscribe type id s.bus })
  publish :
      (s : System C P) (type : ℕ) (payload : P)
      → Step s (record s { publishing = (payload, publish_impl type s.bus) ∷ s.publishing })
  proceed :
      (s : System C P) (before after : List (P × List (Action C))) (payload : P) (a : Action C)
      (rest : List (Action C))
      → s.publishing ≡ before ++ ((payload, a ∷ rest) ∷ after)
      → Step s (act payload a (record s { publishing = before ++ ((payload, rest) ∷ after) }))
  looks_up :
      (s : System C P) (d : Deferred P) (later : List (Deferred P))
      → s.calling ≡ none
      → s.deferred ≡ d ∷ later
      → Step s (look_up d later s)
  calls : (s : System C P) → Step s (call_found s)

pub data Reach {C P : Type 0} (s : System C P) : System C P → Type 0 where
  here : Reach s s
  next : {t u : System C P} → Reach s t → Step t u → Reach s u
