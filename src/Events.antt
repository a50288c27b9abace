-- ===== src/Events.antt =====
-- The event bus of src/core/event_bus.h and src/core/event_bus.cpp. A type of events is a number, and
-- an absent entry of the table of subscribers is an empty list. A payload stays abstract.
pub mod System
pub mod Absent
pub mod Liveness
pub mod Distinct
pub mod Delivery
mod Examples
use homedeck.Base.{
  ℕ, zero, suc, ◌+◌, ◌%◌, ◌^◌, Bool, true, false, not, ◌&&◌, Option, none, some, List, [], ◌∷◌,
  ◌++◌, ◌==◌, if◌then◌else◌,
}

pub record Subscriber (C : Type 0) : Type 0 where
  pub id : ℕ
  pub is_ui : Bool
  pub callback : C

pub record Bus (C : Type 0) : Type 0 where
  pub has_dispatcher : Bool
  pub next_id : ℕ
  pub subscribers : ℕ → List (Subscriber C)

-- `ScopedSubscription`: `has_bus` says that `bus_` is not null.
pub record Handle : Type 0 where
  pub has_bus : Bool
  pub type : ℕ
  pub id : ℕ

-- What a publication does for one subscriber: the callback, or a call that the dispatcher defers.
pub data Action (C : Type 0) : Type 0 where
  call : C → Action C
  post : ℕ → ℕ → Action C

module _ {C : Type 0} where
  abbrev pub empty_bus : Bus C
  empty_bus = record { has_dispatcher = false; next_id = 1; subscribers = λ t. [] }

  unfoldable pub set_ui_dispatcher : Bus C → Bus C
  set_ui_dispatcher bus = record bus { has_dispatcher = true }

  -- `subscribers_[type] = list`.
  unfoldable pub set_list : ℕ → List (Subscriber C) → Bus C → Bus C
  set_list type list bus = record bus {
    subscribers = λ t. if t == type then list else bus.subscribers t;
  }

  unfoldable pub subscribe_impl : ℕ → Bool → C → Bus C → Handle × Bus C
  unfolding set_list
  subscribe_impl type is_ui callback bus =
      let id = bus.next_id in
      let bus1 = record bus { next_id = (bus.next_id + 1) % 2 ^ 64 } in
      (
        record { has_bus = true; type = type; id = id },
        set_list type
            (bus.subscribers type ++ (record { id = id; is_ui = is_ui; callback = callback } ∷ []))
            bus1,
      )

  -- `remove_if` with `erase`.
  unfoldable pub remove_id : ℕ → List (Subscriber C) → List (Subscriber C)
  remove_id id [] = []
  remove_id id (s ∷ list) = if s.id == id then remove_id id list else s ∷ remove_id id list

  unfoldable pub unsubscribe : ℕ → ℕ → Bus C → Bus C
  unfolding set_list remove_id
  unsubscribe type id bus = set_list type (remove_id id (bus.subscribers type)) bus

  unfoldable pub find_id : ℕ → List (Subscriber C) → Option C
  find_id id [] = none
  find_id id (s ∷ list) = if s.id == id then some s.callback else find_id id list

  unfoldable pub find_callback : ℕ → ℕ → Bus C → Option C
  unfolding find_id
  find_callback type id bus = find_id id (bus.subscribers type)

  -- `Reset` and the moves of a handle, from one object to another one.
  unfoldable pub reset : Handle → Bus C → Handle × Bus C
  unfolding unsubscribe
  reset handle bus =
      if handle.has_bus
      then (record handle { has_bus = false }, unsubscribe handle.type handle.id bus)
      else (handle, bus)

  -- The handle that is assigned to, and the one that is moved from.
  unfoldable pub move_assign : Handle → Handle → Bus C → Handle × Handle × Bus C
  unfolding reset
  move_assign this other bus = (other, record other { has_bus = false }, (reset this bus).1)

  -- The loop over the copy of the list, with the copy of the dispatcher.
  unfoldable pub notify : Bool → ℕ → List (Subscriber C) → List (Action C)
  notify has_dispatcher type [] = []
  notify has_dispatcher type (s ∷ list) =
      let rest = notify has_dispatcher type list in
      if s.is_ui
      then (if has_dispatcher then post type s.id ∷ rest else rest)
      else call s.callback ∷ rest

  unfoldable pub publish_impl : ℕ → Bus C → List (Action C)
  unfolding notify
  publish_impl type bus = notify bus.has_dispatcher type (bus.subscribers type)
