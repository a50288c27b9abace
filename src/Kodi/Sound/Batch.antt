-- ===== src/Kodi/Sound/Batch.antt =====
-- The commands and the listings keep the snapshot sound.
use homedeck.Base.{
  ℕ, Bool, true, false, not, ◌&&◌, Option, none, some, List, [], ◌∷◌, if_both, option_both, ltb,
  is_empty, ◌==◌,
}
use homedeck.Base.Int.{ℤ}
use homedeck.Base.Text.{codes}
use homedeck.Json.{Json, Fields, parse_bounded_json, object}
use homedeck.Kodi.Client.{Outside, Client, PendingCommand, send, stopped, read_clock}
use homedeck.Kodi.Commands.{
  call_timeout_ms, resolve_active_player_id, attempt, send_rpc, send_one, send_each, send_batch,
  send_pending_commands, batch_player, needs_player_id, is_due, command_text,
}
use homedeck.Kodi.Paging.{
  Query, Paged, Next, survive_timeout, call_listing, no_listing, ended, read_page, take_page,
  request_page, between_pages, unlimited, page_round, has_error, array_of, with_limits,
}
use homedeck.Kodi.Sound.{Sound}
use homedeck.Kodi.Sound.Call.{call-Sound}

module _ (o : Outside) where
  resolve_active_player_id-Sound :
      (after : ℕ) (c : Client o) → Sound o c → Sound o (resolve_active_player_id o after c).1
  unfolding resolve_active_player_id
  resolve_active_player_id-Sound after c h =
      call-Sound o after (codes "Player.GetActivePlayers") [] call_timeout_ms false c h

  attempt-Sound :
      (request : Option (List ℕ × List ℕ)) (lost : Bool) (c : Client o)
      → Sound o c
      → Sound o (attempt o request lost c).1
  unfolding attempt send_rpc send
  attempt-Sound none lost c h = h
  attempt-Sound (some (method, params_json)) lost c h = h

  send_one-Sound :
      (max_age now : ℕ) (player_id : ℤ) (command : PendingCommand) (lost : Bool) (c : Client o)
      → Sound o c
      → Sound o (send_one o max_age now player_id command lost c).1
  unfolding send_one
  send_one-Sound max_age now player_id command lost c h =
      if_both (λ (r : Bool × Client o). Sound o r.1) (not (is_due o max_age now command)) _ _
        (λ e. h)
        (λ e.
          if_both (λ (r : Bool × Client o). Sound o r.1) (lost && not command.keep_when_stale) _ _
            (λ e'. h) (λ e'. attempt-Sound (command_text o player_id command) lost c h))

  send_each-Sound :
      (max_age now : ℕ) (player_id : ℤ) (commands : List PendingCommand) (lost : Bool)
      (c : Client o)
      → Sound o c
      → Sound o (send_each o max_age now player_id commands lost c).1
  unfolding send_each stopped
  send_each-Sound max_age now player_id [] lost c h = h
  send_each-Sound max_age now player_id (command ∷ commands) lost c h =
      if_both (λ (r : Bool × Client o). Sound o r.1) (stopped o c).0 _ _ (λ e. h)
        (λ e.
          send_each-Sound max_age now player_id commands
            (send_one o max_age now player_id command lost (stopped o c).1).0
            (send_one o max_age now player_id command lost (stopped o c).1).1
            (send_one-Sound max_age now player_id command lost (stopped o c).1 h))

  send_batch-Sound :
      (max_age : ℕ) (batch : List PendingCommand) (r : ℤ × Client o)
      → Sound o r.1
      → Sound o (send_batch o max_age batch r).1
  unfolding send_batch read_clock
  send_batch-Sound max_age batch (player_id, c) h =
      send_each-Sound max_age (read_clock o c).0 player_id batch false (read_clock o c).1 h

  batch_player-Sound :
      (after : ℕ) (batch : List PendingCommand) (c : Client o)
      → Sound o c
      → Sound o (batch_player o after batch c).1
  unfolding batch_player
  batch_player-Sound after batch c h =
      if_both (λ (r : ℤ × Client o). Sound o r.1) (needs_player_id o batch) _ _
        (λ e. resolve_active_player_id-Sound after c h) (λ e. h)

  pub send_pending_commands-Sound :
      (after max_age : ℕ) (c : Client o)
      → Sound o c
      → Sound o (send_pending_commands o after max_age c).1
  unfolding send_pending_commands
  send_pending_commands-Sound after max_age c h =
      let c' = record c { pending_commands = [] } in
      if_both (λ (r : Bool × Client o). Sound o r.1) (is_empty c.pending_commands) _ _ (λ e. h)
        (λ e.
          if_both (λ (r : Bool × Client o). Sound o r.1) (not c.socket) _ _ (λ e'. h)
            (λ e'.
              send_batch-Sound max_age c.pending_commands
                (batch_player o after c.pending_commands c')
                (batch_player-Sound after c.pending_commands c' h)))

  pub survive_timeout-Sound :
      (r : Option (List ℕ) × Client o) → Sound o r.1 → Sound o (survive_timeout o r).1
  unfolding survive_timeout
  survive_timeout-Sound (some text, c) h = h
  survive_timeout-Sound (none, c) h =
      if_both (λ (r : Paged × Client o). Sound o r.1) c.last_call_timed_out _ _ (λ e. h) (λ e. h)

  pub call_listing-Sound :
      (q : Query) (params_json : List ℕ) (c : Client o)
      → Sound o c
      → Sound o (call_listing o q params_json c).1
  unfolding call_listing
  call_listing-Sound q params_json c h =
      call-Sound o q.library_busy_after q.method params_json q.timeout_ms true c h

  no_listing-Sound :
      (q : Query) (params : Fields) (text : List ℕ) (parsed : Option Json) (c : Client o)
      → Sound o c
      → Sound o (no_listing o q params text parsed c).1
  unfolding no_listing
  no_listing-Sound q params text parsed c h =
      if_both (λ (r : Paged × Client o). Sound o r.1) (has_error parsed) _ _
        (λ e.
          survive_timeout-Sound (call_listing o q (unlimited o params) c)
            (call_listing-Sound q (unlimited o params) c h))
        (λ e. h)

  ended-Sound : (r : Paged × Client o) → Sound o r.1 → Sound o (ended o r).1
  unfolding ended
  ended-Sound (p, c) h = h

  read_page-Sound :
      (q : Query) (params : Fields) (start : ℕ) (merged : List Json) (truncated : Bool)
      (text : List ℕ) (parsed : Option Json) (c : Client o)
      → Sound o c
      → Sound o (read_page o q params start merged truncated text parsed c).1
  unfolding read_page
  read_page-Sound q params start merged truncated text parsed c h =
      option_both (λ (r : Next × Client o). Sound o r.1) (array_of q.result_key parsed) _ _
        (if_both (λ (r : Next × Client o). Sound o r.1) (start == 0) _ _
          (λ e.
            ended-Sound (no_listing o q params text parsed c)
              (no_listing-Sound q params text parsed c h))
          (λ e. h))
        (λ page. h)

  take_page-Sound :
      (q : Query) (params : Fields) (start : ℕ) (merged : List Json) (truncated : Bool)
      (r : Option (List ℕ) × Client o)
      → Sound o r.1
      → Sound o (take_page o q params start merged truncated r).1
  unfolding take_page
  take_page-Sound q params start merged truncated (none, c) h = h
  take_page-Sound q params start merged truncated (some text, c) h =
      read_page-Sound q params start merged truncated text (parse_bounded_json o.parse text) c h

  request_page-Sound :
      (q : Query) (params : Fields) (start : ℕ) (merged : List Json) (truncated : Bool)
      (r : Bool × Client o)
      → Sound o r.1
      → Sound o (request_page o q params start merged truncated r).1
  unfolding request_page
  request_page-Sound q params start merged truncated (sent, c) h =
      if_both (λ (r : Next × Client o). Sound o r.1) (not sent) _ _ (λ e. h)
        (λ e.
          take_page-Sound q (with_limits start params) start merged truncated
            (call_listing o q (o.dump (object (with_limits start params))) c)
            (call_listing-Sound q (o.dump (object (with_limits start params))) c h))

  between_pages-Sound :
      (q : Query) (start : ℕ) (c : Client o) → Sound o c → Sound o (between_pages o q start c).1
  unfolding between_pages
  between_pages-Sound q start c h =
      if_both (λ (r : Bool × Client o). Sound o r.1) (ltb 0 start) _ _
        (λ e. send_pending_commands-Sound q.library_busy_after q.max_age c h) (λ e. h)

  pub page_round-Sound :
      (q : Query) (params : Fields) (start : ℕ) (merged : List Json) (truncated : Bool)
      (c : Client o)
      → Sound o c
      → Sound o (page_round o q params start merged truncated c).1
  unfolding page_round
  page_round-Sound q params start merged truncated c h =
      request_page-Sound q params start merged truncated (between_pages o q start c)
        (between_pages-Sound q start c h)
