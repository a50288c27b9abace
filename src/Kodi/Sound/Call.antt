-- ===== src/Kodi/Sound/Call.antt =====
-- A call, and what it is made of, keep the snapshot sound.
use homedeck.Base.{
  ℕ, zero, suc, ◌*◌, Bool, true, false, not, Option, none, some, List, if_both, option_both, leb,
  ltb,
}
use homedeck.Base.Text.{codes}
use homedeck.Json.{Fields, find, try_parse_json_object}
use homedeck.Kodi.Client.{Outside, Client, receive, send, stopped, read_clock, link_open}
use homedeck.Kodi.Notice.{is_number_integer}
use homedeck.Kodi.Call.{
  Wait, Outcome, give_up, ended, no_frame, take_frame, take_received, wait_round, wait_reply, await,
  call_outcome, after_send, begin_call, rpc_request, call, see_frame, slice_over, slice_end,
  timeout_of, answers, is_some, nanos_per_ms,
}
use homedeck.Kodi.Sound.{Sound, set_library_busy-Sound}
use homedeck.Kodi.Sound.Notice.{handle_notification-Sound}

module _ (o : Outside) where
  ended-Sound : (r : Outcome × Client o) → Sound o r.1 → Sound o (ended o r).1
  unfolding ended
  ended-Sound (outcome, c) h = h

  give_up-Sound : (c : Client o) → Sound o c → Sound o (give_up o c).1
  unfolding give_up
  give_up-Sound c h = h

  see_frame-Sound :
      (text : List ℕ) (frame : Fields) (c : Client o)
      → Sound o c
      → Sound o (see_frame o text frame c)
  unfolding see_frame
  see_frame-Sound text frame c h =
      let h' =
        if_both (Sound o) (is_number_integer (find (codes "id") frame)) _ _
          (λ e. set_library_busy-Sound o false c h) (λ e. h) in
      if_both (Sound o) (is_some (find (codes "method") frame)) _ _
        (λ e. handle_notification-Sound o text _ h') (λ e. h')

  slice_over-Sound :
      (w : Wait) (wait_until : ℕ) (c : Client o)
      → Sound o c
      → Sound o (slice_over o w wait_until c).1
  unfolding slice_over link_open read_clock
  slice_over-Sound w wait_until c h =
      if_both (λ (r : Bool × Client o). Sound o r.1) (not (ltb wait_until w.deadline)) _ _ (λ e. h)
        (λ e.
          if_both (λ (r : Bool × Client o). Sound o r.1) (not (link_open o c).0) _ _ (λ e'. h)
            (λ e'. h))

  no_frame-Sound : (r : Bool × Client o) → Sound o r.1 → Sound o (no_frame o r).1
  unfolding no_frame
  no_frame-Sound (true, c) h = set_library_busy-Sound o true c h
  no_frame-Sound (false, c) h = ended-Sound (give_up o c) (give_up-Sound c h)

  take_frame-Sound :
      (w : Wait) (text : List ℕ) (c : Client o) (frame : Option Fields)
      → Sound o c
      → Sound o (take_frame o w text c frame).1
  unfolding take_frame
  take_frame-Sound w text c none h = h
  take_frame-Sound w text c (some frame) h =
      if_both (λ (r : Option Outcome × Client o). Sound o r.1)
        (answers w.id (find (codes "id") frame)) _ _ (λ e. set_library_busy-Sound o false c h)
        (λ e. see_frame-Sound text frame c h)

  take_received-Sound :
      (w : Wait) (wait_until : ℕ) (r : Option (List ℕ) × Client o)
      → Sound o r.1
      → Sound o (take_received o w wait_until r).1
  unfolding take_received
  take_received-Sound w wait_until (none, c) h =
      no_frame-Sound (slice_over o w wait_until c) (slice_over-Sound w wait_until c h)
  take_received-Sound w wait_until (some text, c) h =
      take_frame-Sound w text c (try_parse_json_object o.parse text) h

  wait_round-Sound : (w : Wait) (c : Client o) → Sound o c → Sound o (wait_round o w c).1
  unfolding wait_round stopped read_clock receive
  wait_round-Sound w c h =
      if_both (λ (r : Option Outcome × Client o). Sound o r.1) (stopped o c).0 _ _ (λ e. h)
        (λ e.
          let c₂ = (read_clock o (stopped o c).1).1 in
          let now = (read_clock o (stopped o c).1).0 in
          if_both (λ (r : Option Outcome × Client o). Sound o r.1) (leb w.deadline now) _ _
            (λ e'. ended-Sound (give_up o c₂) (give_up-Sound c₂ h))
            (λ e'.
              take_received-Sound w (slice_end o w now c₂)
                (receive o (timeout_of o (slice_end o w now c₂) now) c₂) h))

  wait_reply-Sound :
      (fuel : ℕ) (w : Wait) (c : Client o) → Sound o c → Sound o (wait_reply o fuel w c).1
  unfolding wait_reply
  wait_reply-Sound zero w c h = h
  wait_reply-Sound (suc fuel) w c h =
      option_both (λ (r : Outcome × Client o). Sound o r.1) (wait_round o w c).0 _ _
        (wait_reply-Sound fuel w (wait_round o w c).1 (wait_round-Sound w c h))
        (λ outcome. wait_round-Sound w c h)

  await-Sound :
      (after id timeout_ms : ℕ) (report_busy : Bool) (c : Client o)
      → Sound o c
      → Sound o (await o after id timeout_ms report_busy c).1
  unfolding await read_clock
  await-Sound after id timeout_ms report_busy c h =
      wait_reply-Sound (suc (timeout_ms * nanos_per_ms)) _ (read_clock o c).1 h

  after_send-Sound :
      (after id timeout_ms : ℕ) (report_busy : Bool) (r : Bool × Client o)
      → Sound o r.1
      → Sound o (after_send o after id timeout_ms report_busy r).1
  unfolding after_send
  after_send-Sound after id timeout_ms report_busy (sent, c) h =
      if_both (λ (r : Outcome × Client o). Sound o r.1) (not sent) _ _ (λ e. h)
        (λ e. await-Sound after id timeout_ms report_busy c h)

  call_outcome-Sound :
      (after : ℕ) (method params_json : List ℕ) (timeout_ms : ℕ) (report_busy : Bool) (c : Client o)
      → Sound o c
      → Sound o (call_outcome o after method params_json timeout_ms report_busy c).1
  unfolding call_outcome send begin_call
  call_outcome-Sound after method params_json timeout_ms report_busy c h =
      let c' = begin_call o c in
      if_both (λ (r : Outcome × Client o). Sound o r.1) (not c.socket) _ _ (λ e. h)
        (λ e.
          after_send-Sound after c'.next_rpc_id timeout_ms report_busy
            (send o (o.dump (rpc_request o.parse c'.next_rpc_id method params_json)) c') h)

  pub call-Sound :
      (after : ℕ) (method params_json : List ℕ) (timeout_ms : ℕ) (report_busy : Bool) (c : Client o)
      → Sound o c
      → Sound o (call o after method params_json timeout_ms report_busy c).1
  unfolding call
  call-Sound = call_outcome-Sound
