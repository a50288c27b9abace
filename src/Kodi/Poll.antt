-- ===== src/Kodi/Poll.antt =====
-- `ReconcilePoll` of src/core/kodi_client.cpp.
use homedeck.Base.{
  ℕ, ◌+◌, ◌==◌, ◌||◌, Bool, true, false, not, Option, none, some, List, [], ◌++◌, if◌then◌else◌,
  ltb,
}
use homedeck.Base.Int.{ℤ, pos, ltb_ℤ}
use homedeck.Base.Text.{codes}
use homedeck.Codec.Decimal.{to_string_ℤ}
use homedeck.Json.{Json, object, array, cons, Fields, end, find, try_parse_json_object}
use homedeck.Kodi.Reply.{
  Doubles, get_int, get_double, get_bool, clamp_speed, millis_from_time_object,
}
use homedeck.Kodi.Playing.{
  KodiNowPlaying, idle, same_bool, same_now_playing, playback_from_speed, apply_item_fields,
}
use homedeck.Kodi.Client.{KodiSnapshot, Outside, Client, set_snapshot, publish_if}
use homedeck.Kodi.Notice.{is_showing, apply_volume}
use homedeck.Kodi.Call.{call}
use homedeck.Kodi.Commands.{call_timeout_ms, first_player_id}

abbrev pub max_tolerated_poll_timeouts : ℕ
max_tolerated_poll_timeouts = 3

-- The `result` of a reply, if it is an object.
unfoldable pub result_object : Option Fields → Option Fields
result_object none = none
result_object (some reply) = elim (find (codes "result") reply) [
  | some (object result) ↦ some result
  | _ ↦ none
]

unfoldable pub apply_version : Option Json → KodiSnapshot → KodiSnapshot
unfolding get_int to_string_ℤ
apply_version (some (object version)) s = record s {
  app_version =
      to_string_ℤ (get_int (object version) (codes "major") (pos 0))
      ++ codes "."
      ++ to_string_ℤ (get_int (object version) (codes "minor") (pos 0));
}
apply_version _ s = s

-- What `Application.GetProperties` answers; volume and mute are read as in a notification.
unfoldable pub apply_application : Option Fields → KodiSnapshot → KodiSnapshot
unfolding apply_volume apply_version
apply_application none s = s
apply_application (some result) s =
    apply_version (find (codes "version") result) (apply_volume result s)

-- The volume or the mute is another one.
unfoldable pub is_louder_or_quieter : KodiSnapshot → KodiSnapshot → Bool
unfolding same_bool
is_louder_or_quieter before after =
    not (after.volume == before.volume) || not (same_bool after.muted before.muted)

unfoldable pub anything_playing : Option Fields → Bool
anything_playing none = false
anything_playing (some reply) = elim (find (codes "result") reply) [
  | some (array (cons player players)) ↦ true
  | _ ↦ false
]

unfoldable pub or_empty_object : Option Json → Json
or_empty_object none = object end
or_empty_object (some j) = j

module _ (d : Doubles) where
  -- What `Player.GetProperties` answers.
  unfoldable pub apply_properties : Option Fields → KodiNowPlaying → KodiNowPlaying
  unfolding clamp_speed get_int playback_from_speed get_double get_bool or_empty_object
      millis_from_time_object
  apply_properties none n = n
  apply_properties (some result) n =
      let speed = clamp_speed (get_int (object result) (codes "speed") n.speed) in
      record n {
        speed = speed;
        playback = playback_from_speed speed;
        percent = get_double d (object result) (codes "percentage") n.percent;
        position_ms = millis_from_time_object (or_empty_object (find (codes "time") result));
        duration_ms = millis_from_time_object (or_empty_object (find (codes "totaltime") result));
        can_seek = get_bool (object result) (codes "canseek") n.can_seek;
      }

-- What `Player.GetItem` answers.
unfoldable pub apply_get_item : Option Fields → KodiNowPlaying → KodiNowPlaying
unfolding apply_item_fields
apply_get_item none n = n
apply_get_item (some result) n = elim (find (codes "item") result) [
  | some item ↦ apply_item_fields item n
  | none ↦ n
]

unfoldable pub properties_params : ℤ → List ℕ
unfolding to_string_ℤ
properties_params player_id =
    codes "{\"playerid\":"
    ++ to_string_ℤ player_id
    ++ codes ",\"properties\":[\"speed\",\"percentage\",\"time\",\"totaltime\",\"canseek\"]}"

unfoldable pub item_params : ℤ → List ℕ
unfolding to_string_ℤ
item_params player_id =
    codes "{\"playerid\":"
    ++ to_string_ℤ player_id
    ++ codes ",\"properties\":[\"title\",\"showtitle\",\"season\",\"episode\"]}"

module _ (o : Outside) (library_busy_after : ℕ) where
  unfoldable pub parsed : List ℕ → Option Fields
  unfolding try_parse_json_object
  parsed text = try_parse_json_object o.parse text

  unfoldable pub poll_call : List ℕ → List ℕ → Client o → Option (List ℕ) × Client o
  unfolding call
  poll_call method params_json c =
      call o library_busy_after method params_json call_timeout_ms false c

  -- A call of the poll has failed.
  unfoldable pub call_failed : Bool → Bool → Client o → Bool × Client o
  call_failed tolerate_timeout changed c =
      let c' = publish_if o changed c in
      let n = c.consecutive_poll_timeouts + 1 in
      if not tolerate_timeout || not c.last_call_timed_out
      then (false, c')
      else (ltb n max_tolerated_poll_timeouts, record c' { consecutive_poll_timeouts = n })

  unfoldable pub report : Bool → Client o → Bool × Client o
  report changed c = (true, publish_if o changed c)

  unfoldable pub nothing_plays : Bool → Client o → Bool × Client o
  unfolding report is_showing
  nothing_plays changed c =
      let showing = is_showing c.snapshot.now_playing in
      report (changed || showing) (record c {
        snapshot = if showing then record c.snapshot { now_playing = idle } else c.snapshot;
        identity_from_notification = false;
      })

  -- What plays after the two replies.
  unfoldable pub polled_playing : Bool → List ℕ → List ℕ → KodiNowPlaying → KodiNowPlaying
  unfolding apply_properties apply_get_item result_object parsed
  polled_playing from_notification props_text item_text n =
      let n' = apply_properties o.doubles (result_object (parsed props_text)) n in
      if from_notification then n' else apply_get_item (result_object (parsed item_text)) n'

  unfoldable pub apply_player_replies : Bool → List ℕ → List ℕ → Client o → Bool × Client o
  unfolding report polled_playing same_now_playing
  apply_player_replies changed props_text item_text c =
      let before = c.snapshot.now_playing in
      let after = polled_playing c.identity_from_notification props_text item_text before in
      report (changed || not (same_now_playing o.doubles after before))
        (set_snapshot o (record c.snapshot { now_playing = after }) c)

  -- Both replies are there; they are put aside if playback has stopped meanwhile.
  unfoldable pub after_item :
      Bool → Bool → ℕ → List ℕ → Option (List ℕ) × Client o → Bool × Client o
  unfolding apply_player_replies report call_failed
  after_item tolerate_timeout changed stops props_text (none, c) =
      call_failed tolerate_timeout changed c
  after_item tolerate_timeout changed stops props_text (some item_text, c) =
      if not (c.player_stop_count == stops)
      then report changed (record c { needs_immediate_poll = true })
      else apply_player_replies changed props_text item_text c

  unfoldable pub after_properties :
      Bool → Bool → ℕ → ℤ → Option (List ℕ) × Client o → Bool × Client o
  unfolding after_item poll_call call_failed item_params
  after_properties tolerate_timeout changed stops player_id (none, c) =
      call_failed tolerate_timeout changed c
  after_properties tolerate_timeout changed stops player_id (some props_text, c) =
      after_item tolerate_timeout changed stops props_text
        (poll_call (codes "Player.GetItem") (item_params player_id) c)

  unfoldable pub poll_player : Bool → Bool → ℤ → Client o → Bool × Client o
  unfolding after_properties poll_call report properties_params
  poll_player tolerate_timeout changed player_id c =
      if ltb_ℤ player_id (pos 0)
      then report changed c
      else after_properties tolerate_timeout changed c.player_stop_count player_id
          (poll_call (codes "Player.GetProperties") (properties_params player_id) c)

  unfoldable pub after_players : Bool → Bool → Option (List ℕ) × Client o → Bool × Client o
  unfolding poll_player nothing_plays anything_playing first_player_id call_failed parsed
  after_players tolerate_timeout changed (none, c) = call_failed tolerate_timeout changed c
  after_players tolerate_timeout changed (some text, c) =
      if not (anything_playing (parsed text))
      then nothing_plays changed c
      else poll_player tolerate_timeout changed (first_player_id (parsed text)) c

  unfoldable pub after_application : Bool → Option (List ℕ) × Client o → Bool × Client o
  unfolding after_players poll_call apply_application is_louder_or_quieter result_object call_failed
      parsed
  after_application tolerate_timeout (none, c) = call_failed tolerate_timeout false c
  after_application tolerate_timeout (some text, c) =
      let snapshot = apply_application (result_object (parsed text)) c.snapshot in
      after_players tolerate_timeout (is_louder_or_quieter c.snapshot snapshot) (
        poll_call (codes "Player.GetActivePlayers") []
          (record c { snapshot = snapshot; consecutive_poll_timeouts = 0 }))

  unfoldable pub reconcile_poll : Bool → Client o → Bool × Client o
  unfolding after_application poll_call
  reconcile_poll tolerate_timeout c = after_application tolerate_timeout (
      poll_call (codes "Application.GetProperties")
        (codes "{\"properties\":[\"volume\",\"muted\",\"version\"]}") c)
