-- ===== src/Kodi/Sound/Notice.antt =====
-- A notification keeps the snapshot sound.
use homedeck.Base.{
  ℕ, zero, suc, ◌≤◌, refl, inr, Bool, false, Option, none, some, List, if_both, option_both, arith,
  bytes_eq,
}
use homedeck.Base.Int.{ℤ, pos, negsuc, ◌≤ℤ◌}
use homedeck.Base.Text.{codes}
use homedeck.Json.{
  Json, Fields, find, string_member, string, integer, boolean, object, try_parse_json_object,
}
use homedeck.Kodi.Reply.{clamp_volume, signed_cast}
use homedeck.Kodi.Playing.{
  KodiNowPlaying, idle, Shown, playback_from_speed, apply_item_fields, apply_item_fields_idem,
}
use homedeck.Kodi.Client.{KodiSnapshot, Outside, Client, set_snapshot, receive}
use homedeck.Kodi.Notice.{
  apply_volume, volume_or, apply_item, without_identity, apply_player, speed_or, fields_or_empty,
  on_volume_changed, on_stop, on_player, on_method, late_reply, on_named, on_frame,
  handle_notification, pump, pump_notifications, is_showing, starts_with, is_number_integer,
  notice_data, max_pump_iterations,
}
use homedeck.Kodi.Sound.{
  IsPlayable, IsSound, Sound, idle-IsPlayable, clamp_speed-le, IsSound-playing, publish_if-Sound,
  set_library_busy-Sound,
}

volume_or-le : (current : ℕ) (j : Option Json) → current ≤ 100 → volume_or current j ≤ 100
unfolding volume_or clamp_volume
volume_or-le current j h = ground (arith, h)

pub apply_volume-IsSound :
    (busy : Bool) (payload : Fields) (s : KodiSnapshot)
    → IsSound busy s
    → IsSound busy (apply_volume payload s)
unfolding apply_volume
apply_volume-IsSound busy payload s h = record {
  volume_bounded = volume_or-le s.volume (find (codes "volume") payload) h.volume_bounded;
  playable = h.playable;
  mirrored = h.mirrored;
}

without_identity-IsPlayable : (n : KodiNowPlaying) → IsPlayable n → IsPlayable (without_identity n)
unfolding without_identity
without_identity-IsPlayable n h = record {
  speed_low = h.speed_low;
  speed_high = h.speed_high;
  shown = record { season_in_range = refl; episode_in_range = refl };
  consistent = h.consistent;
  position_bounded = h.position_bounded;
  duration_bounded = h.duration_bounded;
}

-- With the other fields as they were.
IsPlayable-apply :
    (item : Json) (n : KodiNowPlaying)
    → IsPlayable n
    → Shown (apply_item_fields item n)
    → IsPlayable (apply_item_fields item n)
unfolding apply_item_fields
IsPlayable-apply (object fields) n h s = record {
  speed_low = h.speed_low;
  speed_high = h.speed_high;
  shown = s;
  consistent = h.consistent;
  position_bounded = h.position_bounded;
  duration_bounded = h.duration_bounded;
}
IsPlayable-apply Json.null n h s = h
IsPlayable-apply (boolean b) n h s = h
IsPlayable-apply (integer i) n h s = h
IsPlayable-apply (Json.float x) n h s = h
IsPlayable-apply (string text) n h s = h
IsPlayable-apply (Json.array items) n h s = h

pub apply_item_fields-IsPlayable :
    (item : Json) (n : KodiNowPlaying) → IsPlayable n → IsPlayable (apply_item_fields item n)
apply_item_fields-IsPlayable item n h =
    IsPlayable-apply item n h (apply_item_fields_idem item n h.shown).0

apply_item-IsPlayable :
    (starts : Bool) (item : Option Json) (n : KodiNowPlaying)
    → IsPlayable n
    → IsPlayable (apply_item starts item n)
unfolding apply_item
apply_item-IsPlayable starts none n h = h
apply_item-IsPlayable starts (some item) n h = apply_item_fields-IsPlayable item _ (
    if_both IsPlayable starts (without_identity n) n (λ e. without_identity-IsPlayable n h)
      (λ e. h))

-- A speed in range, and the state of playback that goes with it.
pub at_speed-IsPlayable :
    (n : KodiNowPlaying) (speed : ℤ)
    → IsPlayable n
    → negsuc 999 ≤ℤ speed
    → speed ≤ℤ pos 1000
    → IsPlayable (record n { speed = speed; playback = playback_from_speed speed })
at_speed-IsPlayable n speed h low high = record {
  speed_low = low;
  speed_high = high;
  shown = record {
    season_in_range = h.shown.season_in_range;
    episode_in_range = h.shown.episode_in_range;
  };
  consistent = inr refl;
  position_bounded = h.position_bounded;
  duration_bounded = h.duration_bounded;
}

speed_or-le :
    (n : ℤ) (j : Option Json)
    → (negsuc 999 ≤ℤ n) × (n ≤ℤ pos 1000)
    → (negsuc 999 ≤ℤ speed_or n j) × (speed_or n j ≤ℤ pos 1000)
unfolding speed_or
speed_or-le n none h = h
speed_or-le n (some (integer i)) h = clamp_speed-le (signed_cast 64 i)
speed_or-le n (some (object fields)) h = h
speed_or-le n (some Json.null) h = h
speed_or-le n (some (boolean b)) h = h
speed_or-le n (some (Json.float x)) h = h
speed_or-le n (some (string text)) h = h
speed_or-le n (some (Json.array items)) h = h

apply_player-IsPlayable :
    (player : Option Json) (n : KodiNowPlaying) → IsPlayable n → IsPlayable (apply_player player n)
unfolding apply_player
apply_player-IsPlayable player n h =
    let speed = speed_or n.speed (find (codes "speed") (fields_or_empty player)) in
    let bounds =
      speed_or-le n.speed (find (codes "speed") (fields_or_empty player))
        (h.speed_low, h.speed_high) in
    at_speed-IsPlayable n speed h bounds.0 bounds.1

module _ (o : Outside) where
  on_player-Sound :
      (starts : Bool) (payload : Fields) (c : Client o)
      → Sound o c
      → Sound o (on_player o starts payload c)
  unfolding on_player
  on_player-Sound starts payload c h = IsSound-playing c.library_busy c.snapshot _ h (
      apply_player-IsPlayable (find (codes "player") payload) _ (
        apply_item-IsPlayable starts (find (codes "item") payload) c.snapshot.now_playing
          h.playable))

  on_stop-Sound : (c : Client o) → Sound o c → Sound o (on_stop o c)
  unfolding on_stop
  on_stop-Sound c h =
      if_both (Sound o) (is_showing c.snapshot.now_playing) _ _
        (λ e. IsSound-playing c.library_busy c.snapshot idle h idle-IsPlayable) (λ e. h)

  on_volume_changed-Sound :
      (payload : Fields) (c : Client o) → Sound o c → Sound o (on_volume_changed o payload c)
  unfolding on_volume_changed
  on_volume_changed-Sound payload c h =
      publish_if-Sound o _ (set_snapshot o (apply_volume payload c.snapshot) c)
        (apply_volume-IsSound c.library_busy payload c.snapshot h)

  on_method-Sound :
      (method : List ℕ) (payload : Fields) (c : Client o)
      → Sound o c
      → Sound o (on_method o method payload c)
  unfolding on_method
  on_method-Sound method payload c h =
      if_both (Sound o) (bytes_eq method (codes "Application.OnVolumeChanged")) _ _
        (λ e. on_volume_changed-Sound payload c h)
        (λ e.
          if_both (Sound o) (bytes_eq method (codes "Player.OnStop")) _ _ (λ e'. on_stop-Sound c h)
            (λ e'.
              if_both (Sound o) (starts_with (codes "Player.On") method) _ _
                (λ e''. on_player-Sound (bytes_eq method (codes "Player.OnPlay")) payload c h)
                (λ e''. h)))

  late_reply-Sound : (id : Option Json) (c : Client o) → Sound o c → Sound o (late_reply o id c)
  unfolding late_reply
  late_reply-Sound id c h =
      if_both (Sound o) (is_number_integer id) _ _ (λ e. set_library_busy-Sound o false c h)
        (λ e. h)

  on_named-Sound :
      (method : Option (List ℕ)) (frame : Fields) (c : Client o)
      → Sound o c
      → Sound o (on_named o method frame c)
  unfolding on_named
  on_named-Sound none frame c h = late_reply-Sound (find (codes "id") frame) c h
  on_named-Sound (some method) frame c h = on_method-Sound method (notice_data frame) c h

  on_frame-Sound : (frame : Option Fields) (c : Client o) → Sound o c → Sound o (on_frame o frame c)
  unfolding on_frame
  on_frame-Sound none c h = h
  on_frame-Sound (some frame) c h = on_named-Sound (string_member (codes "method") frame) frame c h

  pub handle_notification-Sound :
      (text : List ℕ) (c : Client o) → Sound o c → Sound o (handle_notification o text c)
  unfolding handle_notification
  handle_notification-Sound text c h = on_frame-Sound (try_parse_json_object o.parse text) c h

  pump-Sound : (n : ℕ) (c : Client o) → Sound o c → Sound o (pump o n c)
  unfolding pump receive
  pump-Sound zero c h = h
  pump-Sound (suc n) c h = option_both (Sound o) (receive o 0 c).0 _ _ h (λ text.
      pump-Sound n (handle_notification o text (receive o 0 c).1)
        (handle_notification-Sound text (receive o 0 c).1 h))

  pub pump_notifications-Sound : (c : Client o) → Sound o c → Sound o (pump_notifications o c)
  unfolding pump_notifications
  pump_notifications-Sound c h =
      if_both (Sound o) c.socket _ _ (λ e. pump-Sound max_pump_iterations c h) (λ e. h)
