-- ===== src/Kodi/Notice.antt =====
-- `HandleNotification` and `PumpNotifications` of src/core/kodi_client.cpp.
pub mod Fresh
use homedeck.Base.{
  ℕ, zero, suc, ◌+◌, ◌%◌, ◌^◌, ◌==◌, ◌&&◌, ◌||◌, Bool, true, false, not, Option, none, some, List,
  [], ◌∷◌, if◌then◌else◌, bytes_eq, is_empty,
}
use homedeck.Base.Int.{ℤ, negsuc}
use homedeck.Base.Text.{codes}
use homedeck.Json.{
  Json, integer, boolean, object, Fields, end, find, string_member, try_parse_json_object,
}
use homedeck.Kodi.Reply.{signed_cast, clamp_volume, clamp_speed}
use homedeck.Kodi.Playing.{
  KodiNowPlaying, idle, is_inactive, playback_from_speed, apply_item_fields,
}
use homedeck.Kodi.Client.{
  KodiSnapshot, Outside, Client, set_snapshot, publish_if, set_library_busy, receive,
}

abbrev pub max_pump_iterations : ℕ
max_pump_iterations = 32

unfoldable pub starts_with : List ℕ → List ℕ → Bool
starts_with [] text = true
starts_with (p ∷ ps) [] = false
starts_with (p ∷ ps) (c ∷ cs) = c == p && starts_with ps cs

-- A member that has to be an object, or an empty object.
unfoldable pub fields_or_empty : Option Json → Fields
fields_or_empty (some (object fields)) = fields
fields_or_empty _ = end

unfoldable pub notice_data : Fields → Fields
unfolding fields_or_empty
notice_data frame =
    fields_or_empty (find (codes "data") (fields_or_empty (find (codes "params") frame)))

unfoldable pub is_number_integer : Option Json → Bool
is_number_integer (some (integer n)) = true
is_number_integer _ = false

is_boolean : Option Json → Bool
is_boolean (some (boolean b)) = true
is_boolean _ = false

unfoldable pub volume_or : ℕ → Option Json → ℕ
unfolding clamp_volume signed_cast
volume_or current (some (integer n)) = clamp_volume (signed_cast 64 n)
volume_or current _ = current

unfoldable pub muted_or : Bool → Option Json → Bool
muted_or current (some (boolean b)) = b
muted_or current _ = current

-- `Application.OnVolumeChanged`.
unfoldable pub apply_volume : Fields → KodiSnapshot → KodiSnapshot
unfolding volume_or muted_or
apply_volume payload s = record s {
  volume = volume_or s.volume (find (codes "volume") payload);
  muted = muted_or s.muted (find (codes "muted") payload);
}

-- Something is shown that a stop has to take away.
unfoldable pub is_showing : KodiNowPlaying → Bool
is_showing n = not (is_inactive n.playback) || not (is_empty n.title)

unfoldable pub without_identity : KodiNowPlaying → KodiNowPlaying
without_identity n = record n {
  title = [];
  show_title = [];
  season = negsuc 0;
  episode = negsuc 0;
  media_type = [];
}

-- What the notification's own item says; a new item starts from nothing.
unfoldable pub apply_item : Bool → Option Json → KodiNowPlaying → KodiNowPlaying
unfolding without_identity apply_item_fields
apply_item starts none n = n
apply_item starts (some item) n = apply_item_fields item (if starts then without_identity n else n)

unfoldable pub speed_or : ℤ → Option Json → ℤ
unfolding clamp_speed signed_cast
speed_or current (some (integer n)) = clamp_speed (signed_cast 64 n)
speed_or current _ = current

unfoldable pub apply_player : Option Json → KodiNowPlaying → KodiNowPlaying
unfolding speed_or fields_or_empty playback_from_speed
apply_player player n =
    let speed = speed_or n.speed (find (codes "speed") (fields_or_empty player)) in
    record n { speed = speed; playback = playback_from_speed speed }

abbrev has_item : Option Json → Bool
has_item none = false
has_item (some item) = true

module _ (o : Outside) where
  unfoldable pub on_volume_changed : Fields → Client o → Client o
  unfolding apply_volume is_number_integer is_boolean
  on_volume_changed payload c =
      publish_if o
        (is_number_integer (find (codes "volume") payload)
          || is_boolean (find (codes "muted") payload))
        (set_snapshot o (apply_volume payload c.snapshot) c)

  unfoldable pub on_stop : Client o → Client o
  unfolding is_showing
  on_stop c =
      let c' = record c {
        player_stop_count = (c.player_stop_count + 1) % 2 ^ 32;
        identity_from_notification = false;
      } in
      if is_showing c.snapshot.now_playing
      then publish_if o true (set_snapshot o (record c.snapshot { now_playing = idle }) c')
      else c'

  unfoldable pub on_player : Bool → Fields → Client o → Client o
  unfolding apply_item apply_player
  on_player starts payload c =
      let item = find (codes "item") payload in
      publish_if o true (record c {
        snapshot = record c.snapshot {
          now_playing =
              apply_player (find (codes "player") payload)
                (apply_item starts item c.snapshot.now_playing);
        };
        identity_from_notification = c.identity_from_notification || has_item item;
        needs_immediate_poll = true;
      })

  unfoldable pub on_method : List ℕ → Fields → Client o → Client o
  unfolding on_volume_changed on_stop on_player starts_with
  on_method method payload c =
      if bytes_eq method (codes "Application.OnVolumeChanged")
      then on_volume_changed payload c
      else if bytes_eq method (codes "Player.OnStop")
      then on_stop c
      else if starts_with (codes "Player.On") method
      then on_player (bytes_eq method (codes "Player.OnPlay")) payload c
      else c

  -- A reply nobody is waiting for any more shows that Kodi is not stuck on a listing.
  unfoldable pub late_reply : Option Json → Client o → Client o
  unfolding set_library_busy is_number_integer
  late_reply id c = if is_number_integer id then set_library_busy o false c else c

  unfoldable pub on_named : Option (List ℕ) → Fields → Client o → Client o
  unfolding on_method late_reply notice_data
  on_named none frame c = late_reply (find (codes "id") frame) c
  on_named (some method) frame c = on_method method (notice_data frame) c

  unfoldable pub on_frame : Option Fields → Client o → Client o
  unfolding on_named string_member
  on_frame none c = c
  on_frame (some frame) c = on_named (string_member (codes "method") frame) frame c

  unfoldable pub handle_notification : List ℕ → Client o → Client o
  unfolding on_frame try_parse_json_object
  handle_notification text c = on_frame (try_parse_json_object o.parse text) c

  unfoldable pub pump : ℕ → Client o → Client o
  unfolding handle_notification receive
  pump zero c = c
  pump (suc n) c =
      let (received, c') = receive o 0 c in
      elim received [ some text ↦ pump n (handle_notification text c') | none ↦ c' ]

  unfoldable pub pump_notifications : Client o → Client o
  unfolding pump
  pump_notifications c = if c.socket then pump max_pump_iterations c else c
