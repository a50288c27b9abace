-- ===== src/Kodi/Call/Finishes.antt =====
-- The wait for a reply ends, and only with a reply that has the call's own id.
use homedeck.Base.{
  ℕ, zero, suc, ◌+◌, ◌*◌, ◌≤◌, ◌<◌, ◌≡◌, refl, ◌∙◌, ap, Bool, true, false, not, Option, none, some,
  List, if_both, leb, ltb, bytes_eq, arith,
}
use homedeck.Base.Text.{codes}
use homedeck.Base.Int.{ℤ, pos}
use homedeck.Kodi.Reply.{signed_cast}
use homedeck.Kodi.Playing.{same_ℤ}
use homedeck.Json.{Json, integer, Fields, find, string_member, try_parse_json_object}
use homedeck.Kodi.Client.{
  Outside, Client, publish_if, set_library_busy, receive, send, stopped, read_clock, link_open,
}
use homedeck.Kodi.Notice.{
  handle_notification, on_frame, on_named, on_method, on_volume_changed, on_stop, on_player,
  late_reply, notice_data, is_showing, starts_with, is_number_integer,
}
use homedeck.Kodi.Call.{
  Wait, Outcome, reply, failed, unfinished, give_up, ended, no_frame, take_frame, take_received,
  wait_round, wait_reply, await, after_send, begin_call, call_outcome, see_frame, slice_over,
  slice_end, timeout_of, answers, is_some, nanos_per_ms, rpc_request,
}

-- The clock never goes back, and to receive takes time.
pub record Ticks (o : Outside) : Type 0 where
  pub clock : o.World → ℕ
  pub read_low : (w : o.World) → clock w ≤ (o.now w).0
  pub read_high : (w : o.World) → (o.now w).0 ≤ clock (o.now w).1
  pub after_stop : (w : o.World) → clock w ≤ clock (o.stop_requested w).1
  pub after_open : (w : o.World) → clock w ≤ clock (o.is_open w).1
  pub after_receive : (n : ℕ) (w : o.World) → clock w < clock (o.receive_text n w).1

same_ℤ→eq : (a b : ℤ) → same_ℤ a b ≡ true → a ≡ b
unfolding same_ℤ
same_ℤ→eq a b h = ground (arith, h)

-- What counts as an answer has the number as its id, within the range of an `int`.
answers-id :
    (id : ℕ) (j : Option Json)
    → answers id j ≡ true
    → (i : ℤ) × (j ≡ some (integer i)) × (signed_cast 32 i ≡ pos id)
unfolding answers
answers-id id none h = absurd (ground (arith, h))
answers-id id (some (integer i)) h = (i, refl, same_ℤ→eq (signed_cast 32 i) (pos id) h)
answers-id id (some Json.null) h = absurd (ground (arith, h))
answers-id id (some (Json.boolean b)) h = absurd (ground (arith, h))
answers-id id (some (Json.float x)) h = absurd (ground (arith, h))
answers-id id (some (Json.string text)) h = absurd (ground (arith, h))
answers-id id (some (Json.array items)) h = absurd (ground (arith, h))
answers-id id (some (Json.object fields)) h = absurd (ground (arith, h))

module _ (o : Outside) where
  busy_world : (b : Bool) (c : Client o) → (set_library_busy o b c).world ≡ c.world
  unfolding set_library_busy
  busy_world b c = if_both (λ (c' : Client o). c'.world ≡ c.world) _ c _ (λ e. refl) (λ e. refl)

  publish_world : (b : Bool) (c : Client o) → (publish_if o b c).world ≡ c.world
  publish_world true c = refl
  publish_world false c = refl

  method_world :
      (method : List ℕ) (payload : Fields) (c : Client o)
      → (on_method o method payload c).world ≡ c.world
  unfolding on_method on_volume_changed on_stop on_player
  method_world method payload c =
      if_both (λ (c' : Client o). c'.world ≡ c.world)
        (bytes_eq method (codes "Application.OnVolumeChanged")) _ _ (λ e. publish_world _ _)
        (λ e.
          if_both (λ (c' : Client o). c'.world ≡ c.world) (bytes_eq method (codes "Player.OnStop"))
            _ _
            (λ e'.
              if_both (λ (c' : Client o). c'.world ≡ c.world) (is_showing c.snapshot.now_playing) _
                _ (λ f. refl) (λ f. refl))
            (λ e'.
              if_both (λ (c' : Client o). c'.world ≡ c.world)
                (starts_with (codes "Player.On") method) _ _ (λ e''. refl) (λ e''. refl)))

  named_world :
      (method : Option (List ℕ)) (frame : Fields) (c : Client o)
      → (on_named o method frame c).world ≡ c.world
  unfolding on_named late_reply
  named_world none frame c =
      if_both (λ (c' : Client o). c'.world ≡ c.world) (is_number_integer (find (codes "id") frame))
        _ _ (λ e. busy_world false c) (λ e. refl)
  named_world (some method) frame c = method_world method (notice_data frame) c

  notification_world :
      (text : List ℕ) (c : Client o) → (handle_notification o text c).world ≡ c.world
  unfolding handle_notification on_frame
  notification_world text c = option_world (try_parse_json_object o.parse text)
    where
      option_world : (frame : Option Fields) → (on_frame o frame c).world ≡ c.world
      option_world none = refl
      option_world (some frame) = named_world (string_member (codes "method") frame) frame c

  see_frame_world :
      (text : List ℕ) (frame : Fields) (c : Client o) → (see_frame o text frame c).world ≡ c.world
  unfolding see_frame
  see_frame_world text frame c =
      let h =
        if_both (λ (c' : Client o). c'.world ≡ c.world)
          (is_number_integer (find (codes "id") frame)) (set_library_busy o false c) c
          (λ e. busy_world false c) (λ e. refl) in
      if_both (λ (c' : Client o). c'.world ≡ c.world) (is_some (find (codes "method") frame)) _ _
        (λ e. notification_world text _ ∙ h) (λ e. h)

  module _ (t : Ticks o) where
    abbrev time_of : Client o → ℕ
    time_of c = t.clock c.world

    slice_over-le :
        (w : Wait) (wait_until : ℕ) (c : Client o)
        → time_of c ≤ time_of (slice_over o w wait_until c).1
    unfolding slice_over link_open read_clock
    slice_over-le w wait_until c =
        let w₁ = (o.is_open c.world).1 in
        if_both (λ (r : Bool × Client o). time_of c ≤ time_of r.1) (not (ltb wait_until w.deadline))
          _ _ (λ e. omega arith)
          (λ e.
            if_both (λ (r : Bool × Client o). time_of c ≤ time_of r.1) (not (link_open o c).0) _ _
              (λ e'. t.after_open c.world)
              (λ e'. omega (arith, t.after_open c.world, t.read_low w₁, t.read_high w₁)))

    -- The reply is an object whose id, as an `int`, is the call's.
    abbrev pub Answered : ℕ → Outcome → Type 0
    Answered id (reply text) =
        (frame : Fields) × (try_parse_json_object o.parse text ≡ some frame)
        × (i : ℤ) × (find (codes "id") frame ≡ some (integer i))
        × (signed_cast 32 i ≡ pos id)
    Answered id failed = Unit
    Answered id unfinished = ⊥

    -- A wait that has not ended goes on at a later time, and it was not due yet.
    abbrev Goes : Wait → ℕ → Client o → Option Outcome → Type 0
    Goes w m c none = (m < w.deadline) × (m < time_of c)
    Goes w m c (some outcome) = Answered w.id outcome

    abbrev GoesOn : Wait → ℕ → Option Outcome × Client o → Type 0
    GoesOn w m r = Goes w m r.1 r.0

    no_frame-GoesOn :
        (m : ℕ) (w : Wait) (r : Bool × Client o)
        → m < w.deadline
        → m < time_of r.1
        → GoesOn w m (no_frame o r)
    unfolding no_frame ended give_up
    no_frame-GoesOn m w (true, c) d h = (d, omega (arith, h, ap t.clock (busy_world true c)))
    no_frame-GoesOn m w (false, c) d h = tt

    take_frame-GoesOn :
        (m : ℕ) (w : Wait) (text : List ℕ) (c : Client o) (frame : Option Fields)
        → try_parse_json_object o.parse text ≡ frame
        → m < w.deadline
        → m < time_of c
        → GoesOn w m (take_frame o w text c frame)
    unfolding take_frame
    take_frame-GoesOn m w text c none p d h = (d, h)
    take_frame-GoesOn m w text c (some frame) p d h =
        if_both (GoesOn w m) (answers w.id (find (codes "id") frame)) _ _
          (λ e. let a = answers-id w.id (find (codes "id") frame) e in (frame, p, a.0, a.1, a.2))
          (λ e. (d, omega (arith, h, ap t.clock (see_frame_world text frame c))))

    take_received-GoesOn :
        (m : ℕ) (w : Wait) (wait_until : ℕ) (r : Option (List ℕ) × Client o)
        → m < w.deadline
        → m < time_of r.1
        → GoesOn w m (take_received o w wait_until r)
    unfolding take_received
    take_received-GoesOn m w wait_until (none, c) d h =
        no_frame-GoesOn m w (slice_over o w wait_until c) d
          (omega (arith, h, slice_over-le w wait_until c))
    take_received-GoesOn m w wait_until (some text, c) d h =
        take_frame-GoesOn m w text c (try_parse_json_object o.parse text) refl d h

    wait_round-GoesOn : (w : Wait) (c : Client o) → GoesOn w (time_of c) (wait_round o w c)
    unfolding wait_round stopped read_clock receive ended give_up
    wait_round-GoesOn w c =
        let w₁ = (o.stop_requested c.world).1 in
        let w₂ = (o.now w₁).1 in
        let c₂ = (read_clock o (stopped o c).1).1 in
        let now = (o.now w₁).0 in
        let n = timeout_of o (slice_end o w now c₂) now in
        if_both (GoesOn w (time_of c)) (stopped o c).0 _ _ (λ e. tt)
          (λ e.
            if_both (GoesOn w (time_of c)) (leb w.deadline now) _ _ (λ e'. tt)
              (λ e'.
                take_received-GoesOn (time_of c) w (slice_end o w now c₂) (receive o n c₂)
                  (ground (arith, e', t.after_stop c.world, t.read_low w₁))
                  (omega (
                    arith,
                    t.after_stop c.world,
                    t.read_low w₁,
                    t.read_high w₁,
                    t.after_receive n w₂,
                  ))))

    -- A round and what follows it.
    continue-Answered :
        (w : Wait) (m : ℕ) (rest : Outcome × Client o) (over : Option Outcome) (c : Client o)
        → Goes w m c over
        → ((m < w.deadline) × (m < time_of c) → Answered w.id rest.0)
        → Answered w.id
            (elim over as (λ x. Outcome × Client o) [ some outcome ↦ (outcome, c) | none ↦ rest ]).0
    continue-Answered w m rest none c g f = f g
    continue-Answered w m rest (some outcome) c g f = g

    wait_reply-Answered :
        (fuel : ℕ) (w : Wait) (c : Client o)
        → w.deadline < time_of c + fuel
        → 0 < fuel
        → Answered w.id (wait_reply o fuel w c).0
    unfolding wait_reply
    wait_reply-Answered zero w c h k = absurd (omega (arith, k))
    wait_reply-Answered (suc fuel) w c h k =
        let r = wait_round o w c in
        continue-Answered w (time_of c) (wait_reply o fuel w r.1) r.0 r.1 (wait_round-GoesOn w c)
          (λ g. wait_reply-Answered fuel w r.1 (omega (arith, h, g.0, g.1)) (omega (arith, h, g.0)))

    await-Answered :
        (after id timeout_ms : ℕ) (report_busy : Bool) (c : Client o)
        → Answered id (await o after id timeout_ms report_busy c).0
    unfolding await read_clock
    await-Answered after id timeout_ms report_busy c =
        wait_reply-Answered (suc (timeout_ms * nanos_per_ms)) _ (read_clock o c).1
          (omega (arith, t.read_high c.world)) (omega arith)

    after_send-Answered :
        (after id timeout_ms : ℕ) (report_busy : Bool) (r : Bool × Client o)
        → Answered id (after_send o after id timeout_ms report_busy r).0
    unfolding after_send
    after_send-Answered after id timeout_ms report_busy (sent, c) =
        if_both (λ (r : Outcome × Client o). Answered id r.0) (not sent) _ _ (λ e. tt)
          (λ e. await-Answered after id timeout_ms report_busy c)

    -- On a clock that never goes back and is later behind each receive, a call ends within its
    -- fuel: it fails, or it answers an object whose id, as an `int`, is the one that it was sent
    -- with.
    pub call_outcome-Answered :
        (after : ℕ) (method params_json : List ℕ) (timeout_ms : ℕ) (report_busy : Bool)
        (c : Client o)
        → Answered
            (c.next_rpc_id + 1)
            (call_outcome o after method params_json timeout_ms report_busy c).0
    unfolding call_outcome begin_call
    call_outcome-Answered after method params_json timeout_ms report_busy c =
        let c' = begin_call o c in
        if_both (λ (r : Outcome × Client o). Answered (c.next_rpc_id + 1) r.0) (not c.socket) _ _
          (λ e. tt)
          (λ e.
            after_send-Answered after c'.next_rpc_id timeout_ms report_busy
              (send o (o.dump (rpc_request o.parse c'.next_rpc_id method params_json)) c'))
