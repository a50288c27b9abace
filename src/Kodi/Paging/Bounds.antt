-- ===== src/Kodi/Paging/Bounds.antt =====
-- The loop over the pages ends, within its bound.
use homedeck.Base.{
  ℕ, zero, suc, ◌+◌, ◌-◌, ◌*◌, ◌≤◌, ◌≡◌, Bool, false, not, ◌==◌, Option, none, some, List, [], ◌∷◌,
  if_both, option_both, ltb, arith, length, take, min, length-append, is_empty, ltb→lt,
}
use homedeck.Base.Int.{ℤ}
use homedeck.Json.{Json, Fields, object, parse_bounded_json}
use homedeck.Kodi.Client.{Outside, Client}
use homedeck.Kodi.Paging.{
  Query, Paged, gone, unfinished, answered, collected, Next, done, more, merge_page, is_last_page,
  after_page, survive_timeout, no_listing, missing_page, ended, read_page, take_page, request_page,
  page_round, page_loop, between_pages, with_limits, call_listing, array_of, total_in, has_error,
  max_library_items, page_fuel, unlimited,
}

-- An end of the loop; what it merged itself is within the bound.
abbrev pub Fits : Paged → Type 0
Fits gone = Unit
Fits unfinished = ⊥
Fits (answered text truncated) = Unit
Fits (collected merged truncated) = length merged ≤ 10000

-- Behind m items: an end, or another full page.
abbrev NextFits : ℕ → Next → Type 0
NextFits m (done p) = Fits p
NextFits m (more start merged truncated) = length merged ≡ min 10000 (m + 500)

length-take : (n : ℕ) (xs : List Json) → length (take n xs) ≡ min n (length xs)
length-take zero xs = omega arith
length-take (suc n) [] = omega arith
length-take (suc n) (x ∷ xs) = omega (arith, length-take n xs)

length-merge_page :
    (merged page : List Json)
    → length merged ≤ 10000
    → length (merge_page merged page) ≡ min 10000 (length merged + length page)
unfolding merge_page
length-merge_page merged page h =
    let rest = max_library_items - length merged in
    omega (arith, length-append merged (take rest page), length-take rest page)

after_page-NextFits :
    (start : ℕ) (merged page : List Json) (total : ℤ)
    → length merged ≤ 10000
    → NextFits (length merged) (after_page start merged page total)
unfolding after_page is_last_page
after_page-NextFits start merged page total h =
    let l = length-merge_page merged page h in
    if_both (NextFits (length merged)) (is_last_page (length page) (start + length page) total) _ _
      (λ e. omega (arith, l))
      (λ e. let full : length page ≡ 500 = ground (arith, e) in omega (arith, l, full))

module _ (o : Outside) where
  abbrev RoundFits : ℕ → Next × Client o → Type 0
  RoundFits m r = NextFits m r.0

  survive_timeout-Fits : (r : Option (List ℕ) × Client o) → Fits (survive_timeout o r).0
  unfolding survive_timeout
  survive_timeout-Fits (some text, c) = tt
  survive_timeout-Fits (none, c) =
      if_both (λ (r : Paged × Client o). Fits r.0) c.last_call_timed_out _ _ (λ e. tt) (λ e. tt)

  no_listing-Fits :
      (q : Query) (params : Fields) (text : List ℕ) (parsed : Option Json) (c : Client o)
      → Fits (no_listing o q params text parsed c).0
  unfolding no_listing
  no_listing-Fits q params text parsed c =
      if_both (λ (r : Paged × Client o). Fits r.0) (has_error parsed) _ _
        (λ e. survive_timeout-Fits (call_listing o q (unlimited o params) c)) (λ e. tt)

  missing_page-Fits :
      (merged : List Json) (c : Client o) → length merged ≤ 10000 → Fits (missing_page o merged c)
  unfolding missing_page
  missing_page-Fits merged c h =
      if_both Fits (not c.last_call_timed_out) _ _ (λ e. tt)
        (λ e. if_both Fits (is_empty merged) _ _ (λ e'. tt) (λ e'. h))

  ended-Fits : (m : ℕ) (r : Paged × Client o) → Fits r.0 → RoundFits m (ended o r)
  unfolding ended
  ended-Fits m (p, c) h = h

  read_page-Fits :
      (q : Query) (params : Fields) (start : ℕ) (merged : List Json) (truncated : Bool)
      (text : List ℕ) (parsed : Option Json) (c : Client o)
      → length merged ≤ 10000
      → RoundFits (length merged) (read_page o q params start merged truncated text parsed c)
  unfolding read_page
  read_page-Fits q params start merged truncated text parsed c h =
      option_both (RoundFits (length merged)) (array_of q.result_key parsed) _ _
        (if_both (RoundFits (length merged)) (start == 0) _ _
          (λ e.
            ended-Fits (length merged) (no_listing o q params text parsed c)
              (no_listing-Fits q params text parsed c))
          (λ e. h))
        (λ page. after_page-NextFits start merged page (total_in parsed) h)

  take_page-Fits :
      (q : Query) (params : Fields) (start : ℕ) (merged : List Json) (truncated : Bool)
      (r : Option (List ℕ) × Client o)
      → length merged ≤ 10000
      → RoundFits (length merged) (take_page o q params start merged truncated r)
  unfolding take_page
  take_page-Fits q params start merged truncated (none, c) h = missing_page-Fits merged c h
  take_page-Fits q params start merged truncated (some text, c) h =
      read_page-Fits q params start merged truncated text (parse_bounded_json o.parse text) c h

  request_page-Fits :
      (q : Query) (params : Fields) (start : ℕ) (merged : List Json) (truncated : Bool)
      (r : Bool × Client o)
      → length merged ≤ 10000
      → RoundFits (length merged) (request_page o q params start merged truncated r)
  unfolding request_page
  request_page-Fits q params start merged truncated (sent, c) h =
      if_both (RoundFits (length merged)) (not sent) _ _ (λ e. tt)
        (λ e.
          take_page-Fits q (with_limits start params) start merged truncated
            (call_listing o q (o.dump (object (with_limits start params))) c) h)

  -- A round and what follows it.
  continue-Fits :
      (m : ℕ) (next : Next) (c : Client o) (rest : ℕ → List Json → Bool → Paged × Client o)
      → NextFits m next
      → ((start : ℕ) (merged : List Json) (truncated : Bool)
          → length merged ≡ min 10000 (m + 500)
          → Fits (rest start merged truncated).0)
      → Fits
          (elim next as (λ n. Paged × Client o) [
            | done p ↦ (p, c)
            | more start merged truncated ↦ rest start merged truncated
          ]).0
  continue-Fits m (done p) c rest h f = h
  continue-Fits m (more start merged truncated) c rest h f = f start merged truncated h

  page_loop-Fits :
      (fuel : ℕ) (q : Query) (params : Fields) (start : ℕ) (merged : List Json) (truncated : Bool)
      (c : Client o)
      → length merged ≤ 10000
      → 10500 ≤ length merged + 500 * fuel
      → Fits (page_loop o fuel q params start merged truncated c).0
  unfolding page_loop page_round
  page_loop-Fits zero q params start merged truncated c h k = absurd (omega (arith, h, k))
  page_loop-Fits (suc fuel) q params start merged truncated c h k =
      let r = page_round o q params start merged truncated c in
      if_both (λ (r : Paged × Client o). Fits r.0) (ltb (length merged) max_library_items) _ _
        (λ e.
          continue-Fits (length merged) r.0 r.1 _
            (request_page-Fits q params start merged truncated (between_pages o q start c) h)
            (λ start' merged' truncated' l.
              page_loop-Fits fuel q params start' merged' truncated' r.1 (omega (arith, l))
                (omega (arith, l, k, ltb→lt (length merged) 10000 e))))
        (λ e. h)

  -- The loop over the pages of any query ends within its fuel of 21 rounds, in one of three ways:
  -- because the transport is gone, with a text that the loop did not merge, of which nothing is said,
  -- or with the items that it merged from the pages, no more than 10000.
  pub page_loop_bounded :
      (q : Query) (params : Fields) (c : Client o)
      → Fits (page_loop o (page_fuel o) q params 0 [] false c).0
  page_loop_bounded q params c =
      page_loop-Fits (page_fuel o) q params 0 [] false c (omega arith) (omega arith)
