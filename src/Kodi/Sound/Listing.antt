-- ===== src/Kodi/Sound/Listing.antt =====
-- The loop over the pages, and the batch of requests, keep the snapshot sound.
use homedeck.Base.{
  ℕ, zero, suc, Bool, true, false, not, Option, none, some, List, [], ◌∷◌, if_both, ltb, is_empty,
  length,
}
use homedeck.Json.{Json, Fields, parse_bounded_json, object}
use homedeck.Kodi.Client.{Outside, Client, LibraryRequest, stopped}
use homedeck.Kodi.Commands.{send_pending_commands}
use homedeck.Kodi.Paging.{
  Query, Paged, Next, survive_timeout, call_listing, page_round, page_loop, finish, paged, listing,
  call_library, done, more, gone, unfinished, answered, collected, max_library_items, page_fuel,
}
use homedeck.Kodi.Library.{
  Limits, run_query, query_for, query_key, query_params, publish_reply, request_each,
  send_pending_library_requests,
}
use homedeck.Kodi.Sound.{Sound}
use homedeck.Kodi.Sound.Batch.{
  page_round-Sound, survive_timeout-Sound, call_listing-Sound, send_pending_commands-Sound,
}

module _ (o : Outside) where
  next_both :
      (next : Next) (x : Paged → Paged × Client o) (f : ℕ → List Json → Bool → Paged × Client o)
      → ((p : Paged) → Sound o (x p).1)
      → ((start : ℕ) (merged : List Json) (truncated : Bool) → Sound o (f start merged truncated).1)
      → Sound o
          (elim next as (λ n. Paged × Client o) [
            | done p ↦ x p
            | more start merged truncated ↦ f start merged truncated
          ]).1
  next_both (done p) x f h k = h p
  next_both (more start merged truncated) x f h k = k start merged truncated

  page_loop-Sound :
      (fuel : ℕ) (q : Query) (params : Fields) (start : ℕ) (merged : List Json) (truncated : Bool)
      (c : Client o)
      → Sound o c
      → Sound o (page_loop o fuel q params start merged truncated c).1
  unfolding page_loop
  page_loop-Sound zero q params start merged truncated c h = h
  page_loop-Sound (suc fuel) q params start merged truncated c h =
      let r = page_round o q params start merged truncated c in
      let h' = page_round-Sound o q params start merged truncated c h in
      if_both (λ (r : Paged × Client o). Sound o r.1) (ltb (length merged) max_library_items) _ _
        (λ e.
          next_both r.0 (λ p. (p, r.1)) _ (λ p. h')
            (λ start' merged' truncated'.
              page_loop-Sound fuel q params start' merged' truncated' r.1 h'))
        (λ e. h)

  finish-Sound : (key : List ℕ) (r : Paged × Client o) → Sound o r.1 → Sound o (finish o key r).1
  unfolding finish
  finish-Sound key (gone, c) h = h
  finish-Sound key (unfinished, c) h = h
  finish-Sound key (answered text truncated, c) h = h
  finish-Sound key (collected merged truncated, c) h = h

  paged-Sound :
      (q : Query) (params : Option Json) (c : Client o) → Sound o c → Sound o (paged o q params c).1
  unfolding paged
  paged-Sound q none c h = h
  paged-Sound q (some (object params)) c h =
      finish-Sound q.result_key (page_loop o (page_fuel o) q params 0 [] false c)
        (page_loop-Sound (page_fuel o) q params 0 [] false c h)
  paged-Sound q (some Json.null) c h = h
  paged-Sound q (some (Json.boolean b)) c h = h
  paged-Sound q (some (Json.integer i)) c h = h
  paged-Sound q (some (Json.float x)) c h = h
  paged-Sound q (some (Json.string text)) c h = h
  paged-Sound q (some (Json.array items)) c h = h

  listing-Sound :
      (q : Query) (key : Option (List ℕ)) (params_json : List ℕ) (r : Bool × Client o)
      → Sound o r.1
      → Sound o (listing o q key params_json r).1
  unfolding listing
  listing-Sound q key params_json (false, c) h = h
  listing-Sound q none params_json (true, c) h =
      finish-Sound [] (survive_timeout o (call_listing o q params_json c)) (
        survive_timeout-Sound o (call_listing o q params_json c)
          (call_listing-Sound o q params_json c h))
  listing-Sound q (some key) params_json (true, c) h =
      paged-Sound (record q { result_key = key }) (parse_bounded_json o.parse params_json) c h

  call_library-Sound :
      (q : Query) (key : Option (List ℕ)) (params_json : List ℕ) (c : Client o)
      → Sound o c
      → Sound o (call_library o q key params_json c).1
  unfolding call_library
  call_library-Sound q key params_json c h =
      listing-Sound q key params_json (send_pending_commands o q.library_busy_after q.max_age c)
        (send_pending_commands-Sound o q.library_busy_after q.max_age c h)

  publish_reply-Sound :
      (l : Limits) (request : LibraryRequest) (r : (Option (List ℕ) × Bool) × Client o)
      → Sound o r.1
      → Sound o (publish_reply o l request r).1
  unfolding publish_reply
  publish_reply-Sound l request ((none, truncated), c) h = h
  publish_reply-Sound l request ((some text, truncated), c) h = h

  run_query-Sound :
      (l : Limits) (request : LibraryRequest) (c : Client o)
      → Sound o c
      → Sound o (run_query o l request c).1
  unfolding run_query
  run_query-Sound l request c h =
      call_library-Sound (query_for o l request) (query_key request.kind)
        (o.dump (object (query_params request.kind request))) c h

  request_each-Sound :
      (l : Limits) (rs : List LibraryRequest) (c : Client o)
      → Sound o c
      → Sound o (request_each o l rs c).1
  unfolding request_each stopped
  request_each-Sound l [] c h = h
  request_each-Sound l (request ∷ rs) c h =
      let r = publish_reply o l request (run_query o l request (stopped o c).1) in
      let h' =
        publish_reply-Sound l request (run_query o l request (stopped o c).1)
          (run_query-Sound l request (stopped o c).1 h) in
      if_both (λ (r : Bool × Client o). Sound o r.1) (stopped o c).0 _ _ (λ e. h)
        (λ e.
          if_both (λ (r : Bool × Client o). Sound o r.1) r.0 (request_each o l rs r.1) (false, r.1)
            (λ e'. request_each-Sound l rs r.1 h') (λ e'. h'))

  pub send_pending_library_requests-Sound :
      (l : Limits) (c : Client o) → Sound o c → Sound o (send_pending_library_requests o l c).1
  unfolding send_pending_library_requests
  send_pending_library_requests-Sound l c h =
      if_both (λ (r : Bool × Client o). Sound o r.1) (is_empty c.pending_library_requests) _ _
        (λ e. h)
        (λ e.
          if_both (λ (r : Bool × Client o). Sound o r.1) (not c.socket) _ _ (λ e'. h)
            (λ e'. request_each-Sound l c.pending_library_requests _ h))
