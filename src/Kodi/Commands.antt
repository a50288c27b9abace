-- ===== src/Kodi/Commands.antt =====
-- `SendPendingCommands` and `ResolveActivePlayerId` of src/core/kodi_client.cpp.
use homedeck.Base.{
  ℕ, ◌+◌, ◌*◌, ◌&&◌, ◌||◌, Bool, true, false, not, Option, none, some, List, [], ◌∷◌, if◌then◌else◌,
  is_empty, ltb,
}
use homedeck.Base.Int.{ℤ, pos, negsuc, ltb_ℤ}
use homedeck.Base.Text.{codes}
use homedeck.Json.{
  string, integer, float, object, array, cons, Fields, end, field, find, try_parse_json_object,
}
use homedeck.Kodi.Reply.{Doubles, signed_cast, get_int}
use homedeck.Kodi.Client.{
  PlayerCommandKind, play_pause, stop, seek_percent, seek_step, set_speed, PendingCommand, Outside,
  Client, send, stopped, read_clock,
}
use homedeck.Kodi.Call.{call, rpc_request, nanos_per_ms, is_some}

abbrev pub call_timeout_ms : ℕ
call_timeout_ms = 8000

-- The player that a list of active players begins with, -1 if there is none.
unfoldable pub first_player_id : Option Fields → ℤ
unfolding get_int signed_cast
first_player_id none = negsuc 0
first_player_id (some reply) = elim (find (codes "result") reply) [
  | some (array (cons player players)) ↦
      signed_cast 32 (get_int player (codes "playerid") (negsuc 0))
  | _ ↦ negsuc 0
]

player_method : PlayerCommandKind → List ℕ
player_method play_pause = codes "Player.PlayPause"
player_method stop = codes "Player.Stop"
player_method seek_percent = codes "Player.Seek"
player_method seek_step = codes "Player.Seek"
player_method set_speed = codes "Player.SetSpeed"

module _ (d : Doubles) where
  -- What a player command asks beside the player.
  player_params : PlayerCommandKind → ℕ → ℤ → Fields
  player_params play_pause value id = field (codes "playerid") (integer id) end
  player_params stop value id = field (codes "playerid") (integer id) end
  player_params seek_percent value id =
      field (codes "playerid") (integer id)
        (field (codes "value") (object (field (codes "percentage") (float value) end)) end)
  player_params seek_step value id = field (codes "playerid") (integer id) (
      field (codes "value")
        (string (
          if d.less (d.of_integer (pos 0)) value
          then codes "smallforward"
          else codes "smallbackward"))
        end)
  player_params set_speed value id =
      field (codes "playerid") (integer id) (field (codes "speed") (integer (d.truncate value)) end)

module _ (o : Outside) where
  unfoldable pub resolve_active_player_id : ℕ → Client o → ℤ × Client o
  unfolding call first_player_id try_parse_json_object
  resolve_active_player_id library_busy_after c =
      let (text, c') =
        call o library_busy_after (codes "Player.GetActivePlayers") [] call_timeout_ms false c in
      (
        elim text [
          | none ↦ negsuc 0
          | some text ↦ first_player_id (try_parse_json_object o.parse text)
        ],
        c',
      )

  -- The method and the parameters of a command, unless it needs a player and there is none.
  unfoldable pub command_text : ℤ → PendingCommand → Option (List ℕ × List ℕ)
  unfolding player_method player_params
  command_text player_id command = elim command.player_command [
    | none ↦ some (command.method, command.params_json)
    | some pc ↦
        if ltb_ℤ player_id (pos 0)
        then none
        else some (
          player_method pc.kind,
          o.dump (object (player_params o.doubles pc.kind pc.value player_id)),
        )
  ]

  unfoldable pub is_due : ℕ → ℕ → PendingCommand → Bool
  is_due max_age now command =
      command.keep_when_stale || not (ltb (command.enqueued_at + max_age * nanos_per_ms) now)

  unfoldable pub send_rpc : List ℕ × List ℕ → Client o → Bool × Client o
  unfolding rpc_request send
  send_rpc (method, params_json) c =
      let c' = record c { next_rpc_id = c.next_rpc_id + 1 } in
      send o (o.dump (rpc_request o.parse c'.next_rpc_id method params_json)) c'

  unfoldable pub attempt : Option (List ℕ × List ℕ) → Bool → Client o → Bool × Client o
  unfolding send_rpc
  attempt none lost c = (lost, c)
  attempt (some request) lost c = let (sent, c') = send_rpc request c in (lost || not sent, c')

  -- One command; `lost` tells that a send has failed.
  unfoldable pub send_one : ℕ → ℕ → ℤ → PendingCommand → Bool → Client o → Bool × Client o
  unfolding attempt command_text is_due
  send_one max_age now player_id command lost c =
      if not (is_due max_age now command)
      then (lost, c)
      else if lost && not command.keep_when_stale
      then (lost, c)
      else attempt (command_text player_id command) lost c

  unfoldable pub send_each : ℕ → ℕ → ℤ → List PendingCommand → Bool → Client o → Bool × Client o
  unfolding send_one stopped
  send_each max_age now player_id [] lost c = (not lost, c)
  send_each max_age now player_id (command ∷ commands) lost c =
      let (stopping, c₁) = stopped o c in
      let (lost', c₂) = send_one max_age now player_id command lost c₁ in
      let rest = send_each max_age now player_id commands lost' c₂ in
      if stopping then (false, c₁) else rest

  unfoldable pub needs_player_id : List PendingCommand → Bool
  unfolding is_some
  needs_player_id [] = false
  needs_player_id (command ∷ commands) = is_some command.player_command || needs_player_id commands

  unfoldable pub send_batch : ℕ → List PendingCommand → ℤ × Client o → Bool × Client o
  unfolding send_each read_clock
  send_batch max_age batch (player_id, c) =
      let (now, c') = read_clock o c in send_each max_age now player_id batch false c'

  -- The player, if a command of the batch needs one.
  unfoldable pub batch_player : ℕ → List PendingCommand → Client o → ℤ × Client o
  unfolding needs_player_id resolve_active_player_id
  batch_player library_busy_after batch c =
      if needs_player_id batch then resolve_active_player_id library_busy_after c else (negsuc 0, c)

  unfoldable pub send_pending_commands : ℕ → ℕ → Client o → Bool × Client o
  unfolding send_batch batch_player
  send_pending_commands library_busy_after max_age c =
      let c' = record c { pending_commands = [] } in
      if is_empty c.pending_commands
      then (true, c')
      else if not c.socket
      then (false, c')
      else send_batch max_age c.pending_commands
          (batch_player library_busy_after c.pending_commands c')
