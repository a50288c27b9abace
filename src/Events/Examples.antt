-- ===== src/Events/Examples.antt =====
-- A subscriber of the user interface whose handle is reset while a call for it waits.
use homedeck.Base.{ℕ, ◌≡◌, refl, true, [], ◌∷◌, arith}
use homedeck.Events.{
  Handle, post, set_ui_dispatcher, set_list, notify, subscribe_impl, reset, publish_impl,
}
use homedeck.Events.System.{
  System, act, Deferred, dispatcher, subscribe, publish, proceed, looks_up, calls, look_up,
  call_found, Reach, here, next,
}
use homedeck.Events.Absent.{empty_system}
use homedeck.Events.Liveness.{ui_runs, in_flight, ui_calls, reset_subscriber_is_silent}
use homedeck.Events.Delivery.{
  act_all, run_all, publish_impl_delivers, onto, direct_runs, ui_deliveries,
}

abbrev start : System ℕ ℕ
start = empty_system

abbrev ready : System ℕ ℕ
ready = record start { bus = set_ui_dispatcher start.bus }

ready_is_reached : Reach empty_system ready
ready_is_reached = next here (dispatcher start)

abbrev handle : Handle
handle = (subscribe_impl 5 true 77 ready.bus).0

abbrev subscribed : System ℕ ℕ
subscribed = record ready { bus = (subscribe_impl 5 true 77 ready.bus).1 }

abbrev published : System ℕ ℕ
published = record subscribed { publishing = (9, publish_impl 5 subscribed.bus) ∷ [] }

abbrev posted : System ℕ ℕ
posted = act 9 (post 5 1) (record subscribed { publishing = (9, []) ∷ [] })

abbrev dropped : System ℕ ℕ
dropped = record posted { bus = (reset handle posted.bus).1 }

abbrev waiting_call : Deferred ℕ
waiting_call = record { type = 5; id = 1; payload = 9 }

abbrev after_call : System ℕ ℕ
after_call = call_found (look_up waiting_call [] dropped)

posted_is_reached : Reach subscribed posted
unfolding subscribe_impl set_list set_ui_dispatcher publish_impl notify act
posted_is_reached =
    next (next here (publish subscribed 5 9)) (proceed published [] [] 9 (post 5 1) [] refl)

after_call_is_reached : Reach dropped after_call
unfolding act
after_call_is_reached =
    next (next here (looks_up dropped waiting_call [] refl refl))
      (calls (look_up waiting_call [] dropped))

reset_subscriber_is_silent_example :
    (ui_calls handle.id after_call ≡ ui_calls handle.id posted)
    × (ui_runs handle.id (in_flight posted) ≡ []
        → ui_runs handle.id after_call.runs ≡ ui_runs handle.id posted.runs)
unfolding set_ui_dispatcher
reset_subscriber_is_silent_example =
    reset_subscriber_is_silent 5 true 77 ready posted after_call ready_is_reached (omega arith)
      posted_is_reached after_call_is_reached

publish_impl_delivers_example :
    run_all
      (act_all 9 (publish_impl 5 subscribed.bus) subscribed).deferred
      (act_all 9 (publish_impl 5 subscribed.bus) subscribed)
    ≡ record subscribed {
      deferred = [];
      runs =
          onto
            (ui_deliveries 9 (subscribed.bus.subscribers 5))
            (onto (direct_runs 9 (subscribed.bus.subscribers 5)) subscribed.runs);
    }
unfolding set_ui_dispatcher subscribe_impl
publish_impl_delivers_example =
    publish_impl_delivers subscribed 5 9
      (next ready_is_reached (subscribe ready 5 true 77 (omega arith))) refl refl refl
