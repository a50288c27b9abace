-- ===== src/Battery/Bridge.antt =====
-- When the user is told of a loss of the Harmony hub.
use homedeck.Base.{
  ◌≡◌, refl, ◌∙◌, ap, sym, ◌⊎◌, inl, inr, ◌↔◌, ◌≢◌, Bool, true, false, List, [], ◌∷◌, ◌++◌, All,
  Bool-cases,
}
use homedeck.Base.Text.{codes}
use mathlib.Core.List.{append_assoc, append-nil}
use homedeck.Battery.{
  HarmonyEvent, disconnected, connecting, connected, error, config_updated, bridge_step, bridge_run,
  Message, notification, deferred,
}

-- The states of an attempt to connect, which neither end an outage nor begin one.
abbrev pub IsAttempt : HarmonyEvent → Type 0
IsAttempt disconnected = Unit {0}
IsAttempt connecting = Unit {0}
IsAttempt _ = ⊥

-- Somewhere there is an error with nothing but attempts behind it.
abbrev pub IsOut : List HarmonyEvent → Type 0
IsOut [] = ⊥
IsOut (e ∷ es) = ((e ≡ error) × All IsAttempt es) ⊎ IsOut es

-- What a bridge publishes from its construction on.
abbrev pub notifications : List HarmonyEvent → List Message
notifications es = (bridge_run false es).1

abbrev pub lost : Message
lost = notification (codes "Harmony Hub connection lost") deferred

step_notified :
    (b : Bool) (e : HarmonyEvent)
    → ((bridge_step b e).0 ≡ true) ↔ ((e ≡ error) ⊎ ((b ≡ true) × IsAttempt e))
unfolding bridge_step
step_notified b error = (λ h. inl refl, λ h. refl)
step_notified b connected =
    (λ h. cc, λ h. elim h [ inl e ↦ cc | inr (set, attempt) ↦ absurd attempt ])
step_notified b config_updated =
    (λ h. cc, λ h. elim h [ inl e ↦ cc | inr (set, attempt) ↦ absurd attempt ])
step_notified b disconnected =
    (λ h. inr (h, tt), λ h. elim h [ inl e ↦ cc | inr (set, attempt) ↦ set ])
step_notified b connecting =
    (λ h. inr (h, tt), λ h. elim h [ inl e ↦ cc | inr (set, attempt) ↦ set ])

-- The flag is set exactly during an outage.
run_notified :
    (b : Bool) (es : List HarmonyEvent)
    → ((bridge_run b es).0 ≡ true) ↔ (IsOut es ⊎ ((b ≡ true) × All IsAttempt es))
unfolding bridge_run
run_notified b [] =
    (λ h. inr (h, tt), λ h. elim h [ inl out ↦ absurd out | inr (set, quiet) ↦ set ])
run_notified b (e ∷ es) =
    let (there, back) = run_notified (bridge_step b e).0 es in
    let (step_there, step_back) = step_notified b e in
    (
      λ h. elim (there h) [
        | inl out ↦ inl (inr out)
        | inr (t, quiet) ↦ elim (step_there t) [
          | inl failed ↦ inl (inl (failed, quiet))
          | inr (set, attempt) ↦ inr (set, (attempt, quiet))
        ]
      ],
      λ h. elim h [
        | inl (inl (failed, quiet)) ↦ back (inr (step_back (inl failed), quiet))
        | inl (inr out) ↦ back (inl out)
        | inr (set, (attempt, quiet)) ↦ back (inr (step_back (inr (set, attempt)), quiet))
      ],
    )

run_last :
    (b : Bool) (es : List HarmonyEvent) (e : HarmonyEvent)
    → (bridge_run b (es ++ (e ∷ []))).1
      ≡ (bridge_run b es).1 ++ (bridge_step (bridge_run b es).0 e).1
unfolding bridge_run
run_last b [] e = append-nil (bridge_step b e).1
run_last b (f ∷ es) e =
    ap (λ rest. (bridge_step b f).1 ++ rest) (run_last (bridge_step b f).0 es e)
    ∙ sym (
        append_assoc (bridge_step b f).1 (bridge_run (bridge_step b f).0 es).1
          (bridge_step (bridge_run (bridge_step b f).0 es).0 e).1)

silent_step : (b : Bool) (e : HarmonyEvent) → e ≢ error → (bridge_step b e).1 ≡ []
unfolding bridge_step
silent_step b error other = absurd (other refl)
silent_step b connected other = refl
silent_step b config_updated other = refl
silent_step b disconnected other = refl
silent_step b connecting other = refl

IsOut-iff : (es : List HarmonyEvent) → ((bridge_run false es).0 ≡ true) ↔ IsOut es
IsOut-iff es =
    let (there, back) = run_notified false es in
    (λ h. elim (there h) [ inl out ↦ out | inr (set, quiet) ↦ cc ], λ out. back (inl out))

-- What one event adds, by the flag behind those before it.
added :
    (es : List HarmonyEvent) (e : HarmonyEvent) (out : List Message)
    → (bridge_step (bridge_run false es).0 e).1 ≡ out
    → notifications (es ++ (e ∷ [])) ≡ notifications es ++ out
added es e out h = run_last false es e ∙ ap (λ more. notifications es ++ more) h

-- From the bridge's construction on: an error behind any events publishes one notification, unless
-- the hub is out already: unless there is an earlier error with nothing but attempts to connect
-- behind it. Then it publishes nothing, and no other event ever does.
pub bridge_run-notifications :
    (es : List HarmonyEvent)
    → (IsOut es → notifications (es ++ (error ∷ [])) ≡ notifications es)
      × ((IsOut es → ⊥) → notifications (es ++ (error ∷ [])) ≡ notifications es ++ (lost ∷ []))
      × ((e : HarmonyEvent) → e ≢ error → notifications (es ++ (e ∷ [])) ≡ notifications es)
unfolding bridge_step
bridge_run-notifications es = (
  λ out. added es error [] (rw ((IsOut-iff es).1 out) refl) ∙ append-nil (notifications es),
  λ calm. elim (Bool-cases (bridge_run false es).0) [
    | inl set ↦ absurd (calm ((IsOut-iff es).0 set))
    | inr unset ↦ added es error (lost ∷ []) (rw unset refl)
  ],
  λ e other.
      added es e [] (silent_step (bridge_run false es).0 e other) ∙ append-nil (notifications es),
)
