-- ===== src/Kodi/Call.antt =====
-- `Call` of src/core/kodi_client.cpp: one request, and the wait for the reply with its id.
pub mod Finishes
use homedeck.Base.{
  ℕ, zero, suc, ◌+◌, ◌-◌, ◌*◌, ◌/◌, ◌&&◌, Bool, true, false, not, Option, none, some, List,
  if◌then◌else◌, is_empty, ltb, leb, min, max,
}
use homedeck.Base.Int.{pos}
use homedeck.Base.Text.{codes}
use homedeck.Json.{
  Json, string, integer, object, Fields, end, field, find, try_parse_json_object,
  parse_bounded_json,
}
use homedeck.Kodi.Reply.{signed_cast}
use homedeck.Kodi.Playing.{same_ℤ}
use homedeck.Kodi.Client.{
  Outside, Client, set_library_busy, receive, send, stopped, read_clock, link_open,
}
use homedeck.Kodi.Notice.{handle_notification, is_number_integer}

abbrev pub nanos_per_ms : ℕ
nanos_per_ms = 1000000

abbrev pub busy_slice_slack_ms : ℕ
busy_slice_slack_ms = 5

-- What the wait ended with; `unfinished` if the fuel did not suffice.
pub data Outcome : Type 0 where
  reply : List ℕ → Outcome
  failed unfinished : Outcome

-- When a wait ends, and when a listing counts as slow.
pub record Wait : Type 0 where
  pub id : ℕ
  pub deadline : ℕ
  pub busy_at : ℕ
  pub report_busy : Bool

unfoldable pub params_field : Option Json → Fields
params_field none = end
params_field (some params) = field (codes "params") params end

-- The request of a call; the library keeps the members in the order of their keys.
unfoldable pub rpc_request : (List ℕ → Option Json) → ℕ → List ℕ → List ℕ → Json
unfolding parse_bounded_json params_field
rpc_request parse id method params_json =
    let params = if is_empty params_json then none else parse_bounded_json parse params_json in
    object (
      field (codes "id") (integer (pos id)) (
        field (codes "jsonrpc") (string (codes "2.0"))
          (field (codes "method") (string method) (params_field params))))

-- `get<int>()` of the reply's id, compared with the call's.
unfoldable pub answers : ℕ → Option Json → Bool
unfolding signed_cast same_ℤ
answers id (some (integer n)) = same_ℤ (signed_cast 32 n) (pos id)
answers id _ = false

unfoldable pub is_some {ℓ} : {A : Type ℓ} → Option A → Bool
is_some none = false
is_some (some a) = true

module _ (o : Outside) where
  unfoldable pub give_up : Client o → Outcome × Client o
  unfolding link_open
  give_up c = let (is_up, c') = link_open o c in (failed, record c' { last_call_timed_out = is_up })

  -- A frame that is no answer to this call is looked at and passed over.
  unfoldable pub see_frame : List ℕ → Fields → Client o → Client o
  unfolding set_library_busy is_number_integer handle_notification is_some
  see_frame text frame c =
      let c' =
        if is_number_integer (find (codes "id") frame) then set_library_busy o false c else c in
      if is_some (find (codes "method") frame) then handle_notification o text c' else c'

  -- When this slice of the wait ends.
  unfoldable pub slice_end : Wait → ℕ → Client o → ℕ
  slice_end w now c =
      if w.report_busy && not c.library_busy && ltb now w.busy_at
      then min w.deadline w.busy_at
      else w.deadline

  -- The first slice has passed without a reply.
  unfoldable pub slice_over : Wait → ℕ → Client o → Bool × Client o
  unfolding link_open read_clock
  slice_over w wait_until c =
      let (is_up, c₁) = link_open o c in
      let (now, c₂) = read_clock o c₁ in
      if not (ltb wait_until w.deadline)
      then (false, c)
      else if not is_up
      then (false, c₁)
      else (leb (wait_until - busy_slice_slack_ms * nanos_per_ms) now, c₂)

  unfoldable pub timeout_of : ℕ → ℕ → ℕ
  timeout_of wait_until now = max ((wait_until - now) / nanos_per_ms) 1

  unfoldable pub ended : Outcome × Client o → Option Outcome × Client o
  ended (outcome, c) = (some outcome, c)

  -- Nothing came in this slice.
  unfoldable pub no_frame : Bool × Client o → Option Outcome × Client o
  unfolding give_up set_library_busy ended
  no_frame (true, c) = (none, set_library_busy o true c)
  no_frame (false, c) = ended (give_up c)

  unfoldable pub take_frame : Wait → List ℕ → Client o → Option Fields → Option Outcome × Client o
  unfolding answers see_frame set_library_busy
  take_frame w text c none = (none, c)
  take_frame w text c (some frame) =
      if answers w.id (find (codes "id") frame)
      then (some (reply text), set_library_busy o false c)
      else (none, see_frame text frame c)

  unfoldable pub take_received : Wait → ℕ → Option (List ℕ) × Client o → Option Outcome × Client o
  unfolding no_frame take_frame slice_over try_parse_json_object
  take_received w wait_until (none, c) = no_frame (slice_over w wait_until c)
  take_received w wait_until (some text, c) =
      take_frame w text c (try_parse_json_object o.parse text)

  -- One round of the wait for the reply: it ends, or the wait goes on.
  unfoldable pub wait_round : Wait → Client o → Option Outcome × Client o
  unfolding stopped read_clock give_up slice_end receive take_received timeout_of ended
  wait_round w c =
      let (stop, c₁) = stopped o c in
      let (now, c₂) = read_clock o c₁ in
      let wait_until = slice_end w now c₂ in
      if stop
      then (some failed, c₁)
      else if leb w.deadline now
      then ended (give_up c₂)
      else take_received w wait_until (receive o (timeout_of wait_until now) c₂)

  unfoldable pub wait_reply : ℕ → Wait → Client o → Outcome × Client o
  unfolding wait_round
  wait_reply zero w c = (unfinished, c)
  wait_reply (suc fuel) w c =
      let (over, c') = wait_round w c in
      elim over [ some outcome ↦ (outcome, c') | none ↦ wait_reply fuel w c' ]

  unfoldable pub text_of : Outcome → Option (List ℕ)
  text_of (reply text) = some text
  text_of failed = none
  text_of unfinished = none

  -- The request has gone out.
  unfoldable pub await : ℕ → ℕ → ℕ → Bool → Client o → Outcome × Client o
  unfolding wait_reply read_clock
  await library_busy_after id timeout_ms report_busy c =
      let (started, c') = read_clock o c in
      wait_reply (suc (timeout_ms * nanos_per_ms))
        (record {
          id = id;
          deadline = started + timeout_ms * nanos_per_ms;
          busy_at = started + library_busy_after * nanos_per_ms;
          report_busy = report_busy;
        })
        c'

  unfoldable pub begin_call : Client o → Client o
  begin_call c = record c { last_call_timed_out = false; next_rpc_id = c.next_rpc_id + 1 }

  unfoldable pub after_send : ℕ → ℕ → ℕ → Bool → Bool × Client o → Outcome × Client o
  unfolding await
  after_send library_busy_after id timeout_ms report_busy (sent, c) =
      if not sent then (failed, c) else await library_busy_after id timeout_ms report_busy c

  unfoldable pub call_outcome : ℕ → List ℕ → List ℕ → ℕ → Bool → Client o → Outcome × Client o
  unfolding after_send send rpc_request begin_call
  call_outcome library_busy_after method params_json timeout_ms report_busy c =
      let c' = begin_call c in
      if not c.socket
      then (failed, c)
      else after_send library_busy_after c'.next_rpc_id timeout_ms report_busy
          (send o (o.dump (rpc_request o.parse c'.next_rpc_id method params_json)) c')

  unfoldable pub call : ℕ → List ℕ → List ℕ → ℕ → Bool → Client o → Option (List ℕ) × Client o
  unfolding call_outcome text_of
  call library_busy_after method params_json timeout_ms report_busy c =
      let (outcome, c') =
        call_outcome library_busy_after method params_json timeout_ms report_busy c in
      (text_of outcome, c')
