-- ===== src/Events/Absent.antt =====
-- Numbers of subscriptions that no subscriber has, or that none has yet, through every step.
use homedeck.Base.{
  ℕ, suc, ◌+◌, ◌%◌, ◌^◌, ◌<◌, ◌≤◌, ◌≢◌, ◌≡◌, refl, Bool, none, List, [], ◌∷◌, ◌++◌, ◌==◌, arith,
  ==_iff, subst, Bool-cases, Option-cases, inl, inr,
}
use homedeck.Events.{
  Subscriber, empty_bus, Bus, Action, call, post, set_ui_dispatcher, set_list, subscribe_impl,
  unsubscribe, remove_id, find_id, find_callback,
}
use homedeck.Events.System.{
  System, Step, dispatcher, subscribe, drop_handle, publish, proceed, looks_up, calls, Reach, here,
  next, act, look_up, call_found,
}

pub next_id_lem : (n : ℕ) → suc n < 2 ^ 64 → (n + 1) % 2 ^ 64 ≡ suc n
next_id_lem n h = ground arith

module _ {C : Type 0} where
  -- No subscriber to one of these types has this number, and no later one will have it.
  abbrev pub AbsentFrom : (ℕ → Type 0) → ℕ → Bus C → Type 0
  AbsentFrom Q id bus =
      (id < bus.next_id) × ((type : ℕ) → Q type → find_callback type id bus ≡ none)

  -- The numbers that will be given are not in use.
  abbrev pub IsFresh : Bus C → Type 0
  IsFresh bus = (type id : ℕ) → bus.next_id ≤ id → find_callback type id bus ≡ none

  pub find_id-remove_id :
      (id other : ℕ) (list : List (Subscriber C))
      → find_id id list ≡ none
      → find_id id (remove_id other list) ≡ none
  unfolding find_id remove_id
  find_id-remove_id id other [] h = refl
  find_id-remove_id id other (s ∷ list) h = ground (arith, find_id-remove_id id other list)

  pub find_id-append :
      (id : ℕ) (list : List (Subscriber C)) (s : Subscriber C)
      → find_id id list ≡ none
      → s.id ≢ id
      → find_id id (list ++ (s ∷ [])) ≡ none
  unfolding find_id
  find_id-append id [] s h n = ground arith
  find_id-append id (t ∷ list) s h n = ground (arith, find_id-append id list s)

  unsubscribe-AbsentFrom :
      (Q : ℕ → Type 0) (id type other : ℕ) (bus : Bus C)
      → AbsentFrom Q id bus
      → AbsentFrom Q id (unsubscribe type other bus)
  unfolding unsubscribe set_list find_callback
  unsubscribe-AbsentFrom Q id type other bus (old, h) = (
    old,
    λ t q. elim (Bool-cases (t == type)) [
      | inl same ↦ rw same (
          find_id-remove_id id other (bus.subscribers type)
            (h type (subst Q ((==_iff t type).0 same) q)))
      | inr different ↦ rw different (h t q)
    ],
  )

  subscribe_impl-AbsentFrom :
      (Q : ℕ → Type 0) (id type : ℕ) (is_ui : Bool) (callback : C) (bus : Bus C)
      → suc bus.next_id < 2 ^ 64
      → AbsentFrom Q id bus
      → AbsentFrom Q id (subscribe_impl type is_ui callback bus).1
  unfolding subscribe_impl set_list find_callback
  subscribe_impl-AbsentFrom Q id type is_ui callback bus room (old, h) = (
    rw (next_id_lem bus.next_id room) (omega (arith, old)),
    λ t q. elim (Bool-cases (t == type)) [
      | inl same ↦ rw same (
          find_id-append id (bus.subscribers type) _ (h type (subst Q ((==_iff t type).0 same) q))
            (omega (arith, old)))
      | inr different ↦ rw different (h t q)
    ],
  )

  subscribe_impl-IsFresh :
      (type : ℕ) (is_ui : Bool) (callback : C) (bus : Bus C)
      → suc bus.next_id < 2 ^ 64
      → IsFresh bus
      → IsFresh (subscribe_impl type is_ui callback bus).1
  unfolding subscribe_impl set_list find_callback
  subscribe_impl-IsFresh type is_ui callback bus room h t id later =
      let after : bus.next_id < id = omega (arith, later, next_id_lem bus.next_id room) in
      elim (Bool-cases (t == type)) [
        | inl same ↦ rw same (
            find_id-append id (bus.subscribers type) _ (h type id (omega (arith, after)))
              (omega (arith, after)))
        | inr different ↦ rw different (h t id (omega (arith, after)))
      ]

  unsubscribe-IsFresh :
      (type other : ℕ) (bus : Bus C) → IsFresh bus → IsFresh (unsubscribe type other bus)
  unfolding unsubscribe set_list find_callback
  unsubscribe-IsFresh type other bus h t id later = elim (Bool-cases (t == type)) [
    | inl same ↦ rw same (find_id-remove_id id other (bus.subscribers type) (h type id later))
    | inr different ↦ rw different (h t id later)
  ]

  find_id-removed : (id : ℕ) (list : List (Subscriber C)) → find_id id (remove_id id list) ≡ none
  unfolding find_id remove_id
  find_id-removed id [] = refl
  find_id-removed id (s ∷ list) = ground (arith, find_id-removed id list)

  -- Whoever is only among the subscribers to one type is gone when it is removed there.
  pub unsubscribe-gone :
      (type id : ℕ) (bus : Bus C)
      → AbsentFrom (λ t. t ≢ type) id bus
      → AbsentFrom (λ t. Unit {0}) id (unsubscribe type id bus)
  unfolding unsubscribe set_list find_callback
  unsubscribe-gone type id bus (old, h) = (
    old,
    λ t q. elim (Bool-cases (t == type)) [
      | inl same ↦ rw same (find_id-removed id (bus.subscribers type))
      | inr different ↦ rw different (h t (ground (arith, different)))
    ],
  )

  -- A new number stands under the type it was given for alone.
  pub subscribe_impl-home :
      (type : ℕ) (is_ui : Bool) (callback : C) (bus : Bus C)
      → suc bus.next_id < 2 ^ 64
      → IsFresh bus
      → AbsentFrom (λ t. t ≢ type) bus.next_id (subscribe_impl type is_ui callback bus).1
  unfolding subscribe_impl set_list find_callback
  subscribe_impl-home type is_ui callback bus room h =
      (rw (next_id_lem bus.next_id room) (omega arith), λ t q. ground (arith, q, h t bus.next_id))

  empty-IsFresh : IsFresh empty_bus
  unfolding find_callback find_id
  empty-IsFresh type id h = refl

module _ {C P : Type 0} where
  abbrev pub empty_system : System C P
  empty_system = record {
    bus = empty_bus;
    publishing = [];
    deferred = [];
    calling = none;
    runs = [];
  }

  pub act_bus : (payload : P) (a : Action C) (s : System C P) → (act payload a s).bus ≡ s.bus
  unfolding act
  act_bus payload (call callback) s = refl
  act_bus payload (post type id) s = refl

  pub call_found_bus : (s : System C P) → (call_found s).bus ≡ s.bus
  unfolding call_found
  call_found_bus s = elim (Option-cases s.calling) [
    | inl nothing ↦ rw nothing refl
    | inr (r, found) ↦ rw found refl
  ]

  pub Step-AbsentFrom :
      (Q : ℕ → Type 0) (id : ℕ) {s t : System C P}
      → Step s t
      → AbsentFrom Q id s.bus
      → AbsentFrom Q id t.bus
  unfolding set_ui_dispatcher find_callback
  Step-AbsentFrom Q id (dispatcher s) h = h
  Step-AbsentFrom Q id (subscribe s type is_ui callback room) h =
      subscribe_impl-AbsentFrom Q id type is_ui callback s.bus room h
  Step-AbsentFrom Q id (drop_handle s type other) h = unsubscribe-AbsentFrom Q id type other s.bus h
  Step-AbsentFrom Q id (publish s type payload) h = h
  Step-AbsentFrom Q id (proceed s before after payload a rest e) h =
      rw (act_bus payload a (record s { publishing = before ++ ((payload, rest) ∷ after) })) h
  Step-AbsentFrom Q id (looks_up s d later free e) h = unfold look_up in h
  Step-AbsentFrom Q id (calls s) h = rw (call_found_bus s) h

  pub Reach-AbsentFrom :
      (Q : ℕ → Type 0) (id : ℕ) {s t : System C P}
      → AbsentFrom Q id s.bus
      → Reach s t
      → AbsentFrom Q id t.bus
  Reach-AbsentFrom Q id h here = h
  Reach-AbsentFrom Q id h (next r step) = Step-AbsentFrom Q id step (Reach-AbsentFrom Q id h r)

  Step-IsFresh : {s t : System C P} → Step s t → IsFresh s.bus → IsFresh t.bus
  unfolding set_ui_dispatcher find_callback
  Step-IsFresh (dispatcher s) h = h
  Step-IsFresh (subscribe s type is_ui callback room) h =
      subscribe_impl-IsFresh type is_ui callback s.bus room h
  Step-IsFresh (drop_handle s type other) h = unsubscribe-IsFresh type other s.bus h
  Step-IsFresh (publish s type payload) h = h
  Step-IsFresh (proceed s before after payload a rest e) h =
      rw (act_bus payload a (record s { publishing = before ++ ((payload, rest) ∷ after) })) h
  Step-IsFresh (looks_up s d later free e) h = unfold look_up in h
  Step-IsFresh (calls s) h = rw (call_found_bus s) h

  pub Reach-IsFresh : {t : System C P} → Reach empty_system t → IsFresh t.bus
  Reach-IsFresh here = empty-IsFresh
  Reach-IsFresh (next r step) = Step-IsFresh step (Reach-IsFresh r)
