-- ===== src/Events/Distinct.antt =====
-- The subscribers to a type have distinct numbers, so that each is found under its own.
use homedeck.Base.{
  ℕ, ◌+◌, ◌%◌, ◌^◌, ◌≡◌, refl, none, some, List, [], ◌∷◌, ◌++◌, ◌==◌, arith, Bool-cases, inl, inr,
  All,
}
use homedeck.Events.{
  Subscriber, Bus, set_ui_dispatcher, set_list, subscribe_impl, unsubscribe, remove_id, find_id,
  find_callback,
}
use homedeck.Events.System.{
  System, Step, dispatcher, subscribe, drop_handle, publish, proceed, looks_up, calls, look_up,
  Reach, here, next,
}
use homedeck.Events.Absent.{
  find_id-remove_id, find_id-append, act_bus, call_found_bus, Reach-IsFresh, IsFresh, empty_system,
}

module _ {C : Type 0} where
  abbrev pub Distinct : List (Subscriber C) → Type 0
  Distinct [] = Unit {0}
  Distinct (s ∷ list) = (find_id s.id list ≡ none) × Distinct list

  abbrev pub AllDistinct : Bus C → Type 0
  AllDistinct bus = (type : ℕ) → Distinct (bus.subscribers type)

  remove_id-Distinct :
      (id : ℕ) (list : List (Subscriber C)) → Distinct list → Distinct (remove_id id list)
  unfolding remove_id
  remove_id-Distinct id [] h = tt
  remove_id-Distinct id (s ∷ list) h = elim (Bool-cases (s.id == id)) [
    | inl same ↦ rw same (remove_id-Distinct id list h.1)
    | inr other ↦ rw other (find_id-remove_id s.id id list h.0, remove_id-Distinct id list h.1)
  ]

  append-Distinct :
      (list : List (Subscriber C)) (s : Subscriber C)
      → Distinct list
      → find_id s.id list ≡ none
      → Distinct (list ++ (s ∷ []))
  unfolding find_id
  append-Distinct [] s h n = (refl, tt)
  append-Distinct (t ∷ list) s h n = (
    find_id-append t.id list s h.0 (ground (arith, n)),
    append-Distinct list s h.1 (ground (arith, n)),
  )

  set_list-AllDistinct :
      (type : ℕ) (list : List (Subscriber C)) (bus : Bus C)
      → Distinct list
      → AllDistinct bus
      → AllDistinct (set_list type list bus)
  unfolding set_list
  set_list-AllDistinct type list bus d h t = elim (Bool-cases (t == type)) [
    | inl same ↦ rw same d
    | inr other ↦ rw other (h t)
  ]

  -- Every subscriber of the list is found under its number.
  abbrev pub AllFound : List (Subscriber C) → List (Subscriber C) → Type 0
  AllFound full = All (λ s. find_id s.id full ≡ some s.callback)

  widen :
      (s : Subscriber C) (list part : List (Subscriber C))
      → find_id s.id list ≡ none
      → AllFound list part
      → AllFound (s ∷ list) part
  unfolding find_id
  widen s list [] n h = tt
  widen s list (t ∷ part) n h = (ground (arith, n, h.0), widen s list part n h.1)

  pub Distinct-AllFound : (list : List (Subscriber C)) → Distinct list → AllFound list list
  unfolding find_id
  Distinct-AllFound [] h = tt
  Distinct-AllFound (s ∷ list) h =
      (ground arith, widen s list list h.0 (Distinct-AllFound list h.1))

module _ {C P : Type 0} where
  Step-AllDistinct :
      {s t : System C P} → Step s t → IsFresh s.bus → AllDistinct s.bus → AllDistinct t.bus
  unfolding set_ui_dispatcher subscribe_impl unsubscribe find_callback
  Step-AllDistinct (dispatcher s) f h = h
  Step-AllDistinct (subscribe s type is_ui callback room) f h =
      set_list-AllDistinct type _ (record s.bus { next_id = (s.bus.next_id + 1) % 2 ^ 64 })
        (append-Distinct (s.bus.subscribers type) _ (h type) (f type s.bus.next_id (omega arith))) h
  Step-AllDistinct (drop_handle s type other) f h =
      set_list-AllDistinct type _ s.bus (remove_id-Distinct other (s.bus.subscribers type) (h type))
        h
  Step-AllDistinct (publish s type payload) f h = h
  Step-AllDistinct (proceed s before after payload a rest e) f h =
      rw (act_bus payload a (record s { publishing = before ++ ((payload, rest) ∷ after) })) h
  Step-AllDistinct (looks_up s d later free e) f h = unfold look_up in h
  Step-AllDistinct (calls s) f h = rw (call_found_bus s) h

  pub Reach-AllDistinct : {t : System C P} → Reach empty_system t → AllDistinct t.bus
  Reach-AllDistinct here = λ type. tt
  Reach-AllDistinct (next r step) = Step-AllDistinct step (Reach-IsFresh r) (Reach-AllDistinct r)
