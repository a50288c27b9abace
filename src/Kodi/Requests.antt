-- ===== src/Kodi/Requests.antt =====
-- The commands and the listing requests of src/core/kodi_client.cpp, as the other threads queue
-- them.
use homedeck.Base.{ℕ, Bool, true, false, none, some, List, [], if◌then◌else◌}
use homedeck.Base.Int.{ℤ, pos, negsuc}
use homedeck.Base.Text.{codes}
use homedeck.Json.{Json, string, boolean, integer, object, field, end}
use homedeck.Kodi.Client.{
  PlayerCommandKind, play_pause, stop, seek_percent, seek_step, set_speed, PendingCommand,
  LibraryRequestKind, movies, tv_shows, seasons, episodes, artists, albums, songs, file_sources,
  directory, channel_groups, channels, LibraryRequest, Outside, Client, enqueue_command,
  enqueue_library_request,
}

pub data KodiInput : Type 0 where
  up down left right select back home info context_menu show_osd : KodiInput

unfoldable pub input_method : KodiInput → List ℕ
input_method up = codes "Input.Up"
input_method down = codes "Input.Down"
input_method left = codes "Input.Left"
input_method right = codes "Input.Right"
input_method select = codes "Input.Select"
input_method back = codes "Input.Back"
input_method home = codes "Input.Home"
input_method info = codes "Input.Info"
input_method context_menu = codes "Input.ContextMenu"
input_method show_osd = codes "Input.ShowOSD"

player_entry : PlayerCommandKind → ℕ → Bool → PendingCommand
player_entry kind value keep = record {
  player_command = some (record { kind = kind; value = value });
  method = [];
  params_json = [];
  keep_when_stale = keep;
  enqueued_at = 0;
}

global_entry : List ℕ → List ℕ → Bool → PendingCommand
global_entry method params_json keep = record {
  player_command = none;
  method = method;
  params_json = params_json;
  keep_when_stale = keep;
  enqueued_at = 0;
}

library_request : LibraryRequestKind → ℤ → ℤ → List ℕ → LibraryRequest
library_request kind parent_id season path = record {
  kind = kind;
  parent_id = parent_id;
  season = season;
  path = path;
}

library_item : List ℕ → ℤ → Bool → Json
library_item id_field id resume =
    let item = object (field id_field (integer id) end) in
    object (
      field (codes "item") item (
        if resume
        then field (codes "options") (object (field (codes "resume") (boolean true) end)) end
        else end))

module _ (o : Outside) where
  enqueue_player : PlayerCommandKind → ℕ → Bool → Client o → Client o
  unfolding enqueue_command player_entry
  enqueue_player kind value keep c = enqueue_command o (player_entry kind value keep) c

  enqueue_global : List ℕ → List ℕ → Bool → Client o → Client o
  unfolding enqueue_command global_entry
  enqueue_global method params_json keep c =
      enqueue_command o (global_entry method params_json keep) c

  request : LibraryRequestKind → ℤ → ℤ → List ℕ → Client o → Client o
  unfolding enqueue_library_request library_request
  request kind parent_id season path c =
      enqueue_library_request o (library_request kind parent_id season path) c

  unfoldable pub toggle_play : Client o → Client o
  unfolding enqueue_player
  toggle_play c = enqueue_player play_pause (o.doubles.of_integer (pos 0)) false c

  unfoldable pub stop_playback : Client o → Client o
  unfolding enqueue_player
  stop_playback c = enqueue_player stop (o.doubles.of_integer (pos 0)) true c

  unfoldable pub seek_to_percent : ℕ → Client o → Client o
  unfolding enqueue_player
  seek_to_percent percent c = enqueue_player seek_percent percent false c

  unfoldable pub step_seek : Bool → Client o → Client o
  unfolding enqueue_player
  step_seek forward c =
      enqueue_player seek_step (o.doubles.of_integer (if forward then pos 1 else negsuc 0)) false c

  unfoldable pub volume_step : Bool → Client o → Client o
  unfolding enqueue_global
  volume_step is_up c =
      enqueue_global (codes "Application.SetVolume")
        (if is_up then codes "{\"volume\":\"increment\"}" else codes "{\"volume\":\"decrement\"}")
        false c

  unfoldable pub change_speed : ℤ → Client o → Client o
  unfolding enqueue_player
  change_speed speed c = enqueue_player set_speed (o.doubles.of_integer speed) false c

  unfoldable pub set_volume : ℤ → Client o → Client o
  unfolding enqueue_global
  set_volume volume c =
      enqueue_global (codes "Application.SetVolume")
        (o.dump (object (field (codes "volume") (integer volume) end))) false c

  unfoldable pub toggle_mute : Client o → Client o
  unfolding enqueue_global
  toggle_mute c =
      enqueue_global (codes "Application.SetMute") (codes "{\"mute\":\"toggle\"}") true c

  unfoldable pub send_input : KodiInput → Client o → Client o
  unfolding enqueue_global input_method
  send_input input c = enqueue_global (input_method input) [] false c

  unfoldable pub open_library_item : List ℕ → ℤ → Bool → Client o → Client o
  unfolding enqueue_global library_item
  open_library_item id_field id resume c =
      enqueue_global (codes "Player.Open") (o.dump (library_item id_field id resume)) false c

  unfoldable pub play_file : List ℕ → Client o → Client o
  unfolding enqueue_global
  play_file path c =
      enqueue_global (codes "Player.Open")
        (o.dump
          (object (field (codes "item") (object (field (codes "file") (string path) end)) end)))
        false c

  unfoldable pub request_movies : Client o → Client o
  unfolding request
  request_movies c = request movies (pos 0) (pos 0) [] c

  unfoldable pub request_tv_shows : Client o → Client o
  unfolding request
  request_tv_shows c = request tv_shows (pos 0) (pos 0) [] c

  unfoldable pub request_seasons : ℤ → Client o → Client o
  unfolding request
  request_seasons tvshowid c = request seasons tvshowid (pos 0) [] c

  unfoldable pub request_episodes : ℤ → ℤ → Client o → Client o
  unfolding request
  request_episodes tvshowid season c = request episodes tvshowid season [] c

  unfoldable pub request_artists : Client o → Client o
  unfolding request
  request_artists c = request artists (pos 0) (pos 0) [] c

  unfoldable pub request_albums : ℤ → Client o → Client o
  unfolding request
  request_albums artistid c = request albums artistid (pos 0) [] c

  unfoldable pub request_songs : ℤ → Client o → Client o
  unfolding request
  request_songs albumid c = request songs albumid (pos 0) [] c

  unfoldable pub request_file_sources : Client o → Client o
  unfolding request
  request_file_sources c = request file_sources (pos 0) (pos 0) [] c

  unfoldable pub request_directory : List ℕ → Client o → Client o
  unfolding request
  request_directory path c = request directory (pos 0) (pos 0) path c

  unfoldable pub request_channel_groups : Client o → Client o
  unfolding request
  request_channel_groups c = request channel_groups (pos 0) (pos 0) [] c

  unfoldable pub request_channels : ℤ → Client o → Client o
  unfolding request
  request_channels channelgroupid c = request channels channelgroupid (pos 0) [] c
