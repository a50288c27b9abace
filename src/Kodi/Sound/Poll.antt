-- ===== src/Kodi/Sound/Poll.antt =====
-- A poll keeps the snapshot sound.
use homedeck.Base.{
  ℕ, ◌==◌, ◌||◌, Bool, true, false, not, Option, none, some, List, [], if◌then◌else◌, if_both,
  option_both,
}
use homedeck.Base.Int.{ℤ, pos, ltb_ℤ}
use homedeck.Base.Text.{codes}
use homedeck.Json.{Json, Fields, object, find}
use homedeck.Kodi.Reply.{
  Doubles, clamp_speed, get_int, millis_from_time_object, millis_from_time_object-bounded,
}
use homedeck.Kodi.Playing.{KodiNowPlaying, idle}
use homedeck.Kodi.Client.{KodiSnapshot, Outside, Client, set_snapshot}
use homedeck.Kodi.Notice.{is_showing, apply_volume}
use homedeck.Kodi.Commands.{call_timeout_ms, first_player_id}
use homedeck.Kodi.Poll.{
  apply_version, apply_application, apply_properties, apply_get_item, or_empty_object, call_failed,
  report, nothing_plays, polled_playing, apply_player_replies, after_item, after_properties,
  poll_player, after_players, after_application, reconcile_poll, poll_call, result_object, parsed,
  properties_params, item_params, anything_playing, is_louder_or_quieter,
}
use homedeck.Kodi.Sound.{
  IsPlayable, IsSound, Sound, idle-IsPlayable, clamp_speed-le, IsSound-playing, publish_if-Sound,
}
use homedeck.Kodi.Sound.Notice.{
  apply_volume-IsSound, apply_item_fields-IsPlayable, at_speed-IsPlayable,
}
use homedeck.Kodi.Sound.Call.{call-Sound}

version-IsSound :
    (busy : Bool) (version : Option Json) (s : KodiSnapshot)
    → IsSound busy s
    → IsSound busy (apply_version version s)
unfolding apply_version
version-IsSound busy none s h = h
version-IsSound busy (some (object version)) s h = record {
  volume_bounded = h.volume_bounded;
  playable = h.playable;
  mirrored = h.mirrored;
}
version-IsSound busy (some Json.null) s h = h
version-IsSound busy (some (Json.boolean b)) s h = h
version-IsSound busy (some (Json.integer i)) s h = h
version-IsSound busy (some (Json.float x)) s h = h
version-IsSound busy (some (Json.string text)) s h = h
version-IsSound busy (some (Json.array items)) s h = h

application-IsSound :
    (busy : Bool) (result : Option Fields) (s : KodiSnapshot)
    → IsSound busy s
    → IsSound busy (apply_application result s)
unfolding apply_application
application-IsSound busy none s h = h
application-IsSound busy (some result) s h =
    version-IsSound busy (find (codes "version") result) (apply_volume result s)
      (apply_volume-IsSound busy result s h)

-- The times of a reply.
timed-IsPlayable :
    (n : KodiNowPlaying) (percent : ℕ) (time totaltime : Json) (can_seek : Bool)
    → IsPlayable n
    → IsPlayable (record n {
      percent = percent;
      position_ms = millis_from_time_object time;
      duration_ms = millis_from_time_object totaltime;
      can_seek = can_seek;
    })
timed-IsPlayable n percent time totaltime can_seek h = record {
  speed_low = h.speed_low;
  speed_high = h.speed_high;
  shown = record {
    season_in_range = h.shown.season_in_range;
    episode_in_range = h.shown.episode_in_range;
  };
  consistent = h.consistent;
  position_bounded = millis_from_time_object-bounded time;
  duration_bounded = millis_from_time_object-bounded totaltime;
}

properties-IsPlayable :
    (d : Doubles) (result : Option Fields) (n : KodiNowPlaying)
    → IsPlayable n
    → IsPlayable (apply_properties d result n)
unfolding apply_properties
properties-IsPlayable d none n h = h
properties-IsPlayable d (some result) n h =
    let speed = clamp_speed (get_int (object result) (codes "speed") n.speed) in
    let bounds = clamp_speed-le (get_int (object result) (codes "speed") n.speed) in
    timed-IsPlayable _ _ (or_empty_object (find (codes "time") result))
      (or_empty_object (find (codes "totaltime") result)) _
      (at_speed-IsPlayable n speed h bounds.0 bounds.1)

get_item-IsPlayable :
    (result : Option Fields) (n : KodiNowPlaying)
    → IsPlayable n
    → IsPlayable (apply_get_item result n)
unfolding apply_get_item
get_item-IsPlayable none n h = h
get_item-IsPlayable (some result) n h =
    option_both IsPlayable (find (codes "item") result) n _ h
      (λ item. apply_item_fields-IsPlayable item n h)

module _ (o : Outside) (after : ℕ) where
  call_failed-Sound :
      (tolerate changed : Bool) (c : Client o)
      → Sound o c
      → Sound o (call_failed o after tolerate changed c).1
  unfolding call_failed
  call_failed-Sound tolerate changed c h =
      if_both (λ (r : Bool × Client o). Sound o r.1) (not tolerate || not c.last_call_timed_out) _ _
        (λ e. publish_if-Sound o changed c h) (λ e. publish_if-Sound o changed c h)

  report-Sound : (changed : Bool) (c : Client o) → Sound o c → Sound o (report o after changed c).1
  unfolding report
  report-Sound changed c h = publish_if-Sound o changed c h

  nothing_plays-Sound :
      (changed : Bool) (c : Client o) → Sound o c → Sound o (nothing_plays o after changed c).1
  unfolding nothing_plays
  nothing_plays-Sound changed c h =
      let showing = is_showing c.snapshot.now_playing in
      report-Sound (changed || showing)
        (record c {
          snapshot = if showing then record c.snapshot { now_playing = idle } else c.snapshot;
          identity_from_notification = false;
        })
        (if_both (IsSound c.library_busy) showing _ _
          (λ e. IsSound-playing c.library_busy c.snapshot idle h idle-IsPlayable) (λ e. h))

  polled_playing-IsPlayable :
      (from_notification : Bool) (props_text item_text : List ℕ) (n : KodiNowPlaying)
      → IsPlayable n
      → IsPlayable (polled_playing o after from_notification props_text item_text n)
  unfolding polled_playing
  polled_playing-IsPlayable from_notification props_text item_text n h =
      let h' = properties-IsPlayable o.doubles (result_object (parsed o after props_text)) n h in
      if_both IsPlayable from_notification _ _ (λ e. h')
        (λ e. get_item-IsPlayable (result_object (parsed o after item_text)) _ h')

  player_replies-Sound :
      (changed : Bool) (props_text item_text : List ℕ) (c : Client o)
      → Sound o c
      → Sound o (apply_player_replies o after changed props_text item_text c).1
  unfolding apply_player_replies
  player_replies-Sound changed props_text item_text c h =
      let n =
        polled_playing o after c.identity_from_notification props_text item_text
          c.snapshot.now_playing in
      report-Sound _ (set_snapshot o (record c.snapshot { now_playing = n }) c) (
        IsSound-playing c.library_busy c.snapshot n h (
          polled_playing-IsPlayable c.identity_from_notification props_text item_text
            c.snapshot.now_playing h.playable))

  poll_call-Sound :
      (method params_json : List ℕ) (c : Client o)
      → Sound o c
      → Sound o (poll_call o after method params_json c).1
  unfolding poll_call
  poll_call-Sound method params_json c h =
      call-Sound o after method params_json call_timeout_ms false c h

  after_item-Sound :
      (tolerate changed : Bool) (stops : ℕ) (props_text : List ℕ) (r : Option (List ℕ) × Client o)
      → Sound o r.1
      → Sound o (after_item o after tolerate changed stops props_text r).1
  unfolding after_item
  after_item-Sound tolerate changed stops props_text (none, c) h =
      call_failed-Sound tolerate changed c h
  after_item-Sound tolerate changed stops props_text (some item_text, c) h =
      if_both (λ (r : Bool × Client o). Sound o r.1) (not (c.player_stop_count == stops)) _ _
        (λ e. report-Sound changed (record c { needs_immediate_poll = true }) h)
        (λ e. player_replies-Sound changed props_text item_text c h)

  after_properties-Sound :
      (tolerate changed : Bool) (stops : ℕ) (player_id : ℤ) (r : Option (List ℕ) × Client o)
      → Sound o r.1
      → Sound o (after_properties o after tolerate changed stops player_id r).1
  unfolding after_properties
  after_properties-Sound tolerate changed stops player_id (none, c) h =
      call_failed-Sound tolerate changed c h
  after_properties-Sound tolerate changed stops player_id (some props_text, c) h =
      after_item-Sound tolerate changed stops props_text
        (poll_call o after (codes "Player.GetItem") (item_params player_id) c)
        (poll_call-Sound (codes "Player.GetItem") (item_params player_id) c h)

  poll_player-Sound :
      (tolerate changed : Bool) (player_id : ℤ) (c : Client o)
      → Sound o c
      → Sound o (poll_player o after tolerate changed player_id c).1
  unfolding poll_player
  poll_player-Sound tolerate changed player_id c h =
      if_both (λ (r : Bool × Client o). Sound o r.1) (ltb_ℤ player_id (pos 0)) _ _
        (λ e. report-Sound changed c h)
        (λ e.
          after_properties-Sound tolerate changed c.player_stop_count player_id
            (poll_call o after (codes "Player.GetProperties") (properties_params player_id) c)
            (poll_call-Sound (codes "Player.GetProperties") (properties_params player_id) c h))

  after_players-Sound :
      (tolerate changed : Bool) (r : Option (List ℕ) × Client o)
      → Sound o r.1
      → Sound o (after_players o after tolerate changed r).1
  unfolding after_players
  after_players-Sound tolerate changed (none, c) h = call_failed-Sound tolerate changed c h
  after_players-Sound tolerate changed (some text, c) h =
      if_both (λ (r : Bool × Client o). Sound o r.1) (not (anything_playing (parsed o after text)))
        _ _ (λ e. nothing_plays-Sound changed c h)
        (λ e. poll_player-Sound tolerate changed (first_player_id (parsed o after text)) c h)

  after_application-Sound :
      (tolerate : Bool) (r : Option (List ℕ) × Client o)
      → Sound o r.1
      → Sound o (after_application o after tolerate r).1
  unfolding after_application
  after_application-Sound tolerate (none, c) h = call_failed-Sound tolerate false c h
  after_application-Sound tolerate (some text, c) h =
      let snapshot = apply_application (result_object (parsed o after text)) c.snapshot in
      let c' = record c { snapshot = snapshot; consecutive_poll_timeouts = 0 } in
      after_players-Sound tolerate (is_louder_or_quieter c.snapshot snapshot)
        (poll_call o after (codes "Player.GetActivePlayers") [] c')
        (poll_call-Sound (codes "Player.GetActivePlayers") [] c'
          (application-IsSound c.library_busy (result_object (parsed o after text)) c.snapshot h))

  pub reconcile_poll-Sound :
      (tolerate : Bool) (c : Client o) → Sound o c → Sound o (reconcile_poll o after tolerate c).1
  unfolding reconcile_poll
  reconcile_poll-Sound tolerate c h =
      let params = codes "{\"properties\":[\"volume\",\"muted\",\"version\"]}" in
      after_application-Sound tolerate
        (poll_call o after (codes "Application.GetProperties") params c)
        (poll_call-Sound (codes "Application.GetProperties") params c h)
