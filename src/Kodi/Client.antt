-- ===== src/Kodi/Client.antt =====
-- `KodiClient` of src/core/kodi_client.cpp and .h: its snapshot, its two queues and what it publishes.
-- The socket, the clock, the mDNS browse, the stop token, the third-party JSON library and the
-- arithmetic on doubles are parameters. Times are in nanoseconds, timeouts in milliseconds.
use homedeck.Base.{
  ℕ, ◌-◌, ◌==◌, ◌&&◌, Bool, true, false, Option, List, [], ◌∷◌, ◌++◌, if◌then◌else◌, bytes_eq,
  length, drop,
}
use homedeck.Base.Int.{ℤ}
use homedeck.Json.{Json}
use homedeck.Kodi.Reply.{Doubles}
use homedeck.Kodi.Listing.{
  KodiMovie, KodiTvShow, KodiSeason, KodiEpisode, KodiArtist, KodiAlbum, KodiSong, KodiFileItem,
  KodiChannelGroup, KodiChannel,
}
use homedeck.Kodi.Playing.{KodiNowPlaying, idle, same_ℤ, same_bool}
use homedeck.Kodi.Target.{MdnsService, KodiDiscoveredInstance}

pub data KodiConnectionState : Type 0 where
  disconnected connecting connected error : KodiConnectionState

pub data Event : Type 0 where
  connection_state_changed : KodiConnectionState → Event
  now_playing_changed : Event
  movies_fetched : List KodiMovie → Bool → Event
  tv_shows_fetched : List KodiTvShow → Bool → Event
  seasons_fetched : ℤ → List KodiSeason → Bool → Event
  episodes_fetched : ℤ → ℤ → List KodiEpisode → Bool → Event
  artists_fetched : List KodiArtist → Bool → Event
  albums_fetched : ℤ → List KodiAlbum → Bool → Event
  songs_fetched : ℤ → List KodiSong → Bool → Event
  files_fetched : List ℕ → List KodiFileItem → Bool → Event
  channel_groups_fetched : List KodiChannelGroup → Bool → Event
  channels_fetched : ℤ → List KodiChannel → Bool → Event

pub record KodiSnapshot : Type 0 where
  pub state : KodiConnectionState
  pub resolved_host : List ℕ
  pub target_configured : Bool
  pub selected_uuid : List ℕ
  pub discovered : List KodiDiscoveredInstance
  pub app_version : List ℕ
  pub volume : ℕ
  pub muted : Bool
  pub now_playing : KodiNowPlaying
  pub library_busy : Bool

-- The snapshot that a client begins with.
abbrev pub initial_snapshot : KodiSnapshot
initial_snapshot = record {
  state = disconnected;
  resolved_host = [];
  target_configured = false;
  selected_uuid = [];
  discovered = [];
  app_version = [];
  volume = 0;
  muted = false;
  now_playing = idle;
  library_busy = false;
}

pub data PlayerCommandKind : Type 0 where
  play_pause stop seek_percent seek_step set_speed : PlayerCommandKind

pub record PlayerCommand : Type 0 where
  pub kind : PlayerCommandKind
  pub value : ℕ

pub record PendingCommand : Type 0 where
  pub player_command : Option PlayerCommand
  pub method : List ℕ
  pub params_json : List ℕ
  pub keep_when_stale : Bool
  pub enqueued_at : ℕ

pub data LibraryRequestKind : Type 0 where
  movies tv_shows seasons episodes artists albums songs file_sources directory : LibraryRequestKind
  channel_groups channels : LibraryRequestKind

pub record LibraryRequest : Type 0 where
  pub kind : LibraryRequestKind
  pub parent_id : ℤ
  pub season : ℤ
  pub path : List ℕ

abbrev pub max_pending_commands : ℕ
max_pending_commands = 20

abbrev pub max_pending_library_requests : ℕ
max_pending_library_requests = 8

abbrev pub kind_number : LibraryRequestKind → ℕ
kind_number movies = 0
kind_number tv_shows = 1
kind_number seasons = 2
kind_number episodes = 3
kind_number artists = 4
kind_number albums = 5
kind_number songs = 6
kind_number file_sources = 7
kind_number directory = 8
kind_number channel_groups = 9
kind_number channels = 10

-- `operator==` of two requests.
unfoldable pub same_request : LibraryRequest → LibraryRequest → Bool
unfolding same_ℤ
same_request a b =
    kind_number a.kind == kind_number b.kind
    && same_ℤ a.parent_id b.parent_id
    && same_ℤ a.season b.season
    && bytes_eq a.path b.path

unfoldable pub is_waiting : LibraryRequest → List LibraryRequest → Bool
is_waiting request [] = false
is_waiting request (r ∷ rs) = if same_request r request then true else is_waiting request rs

-- `while (size() > limit) pop_front()`.
abbrev pub drop_oldest {ℓ} : {A : Type ℓ} → ℕ → List A → List A
drop_oldest limit xs = drop (length xs - limit) xs

unfoldable pub queue_command : PendingCommand → List PendingCommand → List PendingCommand
queue_command command pending = drop_oldest max_pending_commands (pending ++ (command ∷ []))

unfoldable pub queue_request : LibraryRequest → List LibraryRequest → List LibraryRequest
unfolding is_waiting
queue_request request pending =
    if is_waiting request pending
    then pending
    else drop_oldest max_pending_library_requests (pending ++ (request ∷ []))

pub record Outside : Type 1 where
  pub World : Type 0
  pub get_setting : List ℕ → World → Option (List ℕ) × World
  pub browse : World → List MdnsService × World
  pub connect : List ℕ → World → Bool × World
  pub close : World → World
  pub is_open : World → Bool × World
  pub send_text : List ℕ → World → Bool × World
  pub receive_text : ℕ → World → Option (List ℕ) × World
  pub stop_requested : World → Bool × World
  pub now : World → ℕ × World
  pub parse : List ℕ → Option Json
  pub dump : Json → List ℕ
  pub doubles : Doubles

same_state : KodiConnectionState → KodiConnectionState → Bool
same_state disconnected disconnected = true
same_state connecting connecting = true
same_state connected connected = true
same_state error error = true
same_state _ _ = false

module _ (o : Outside) where
  -- `socket` tells whether there is a `ws_client_`.
  pub record Client : Type 0 where
    pub world : o.World
    pub socket : Bool
    pub next_rpc_id : ℕ
    pub last_call_timed_out : Bool
    pub needs_immediate_poll : Bool
    pub consecutive_poll_timeouts : ℕ
    pub library_busy : Bool
    pub identity_from_notification : Bool
    pub player_stop_count : ℕ
    pub snapshot : KodiSnapshot
    pub pending_commands : List PendingCommand
    pub pending_library_requests : List LibraryRequest
    pub published : List Event

  abbrev pub initial_client : o.World → Client
  initial_client w = record {
    world = w;
    socket = false;
    next_rpc_id = 0;
    last_call_timed_out = false;
    needs_immediate_poll = false;
    consecutive_poll_timeouts = 0;
    library_busy = false;
    identity_from_notification = false;
    player_stop_count = 0;
    snapshot = initial_snapshot;
    pending_commands = [];
    pending_library_requests = [];
    published = [];
  }

  abbrev pub publish : Event → Client → Client
  publish e c = record c { published = e ∷ c.published }

  abbrev pub set_snapshot : KodiSnapshot → Client → Client
  set_snapshot s c = record c { snapshot = s }

  abbrev pub publish_if : Bool → Client → Client
  publish_if changed c = if changed then publish now_playing_changed c else c

  unfoldable pub set_state : KodiConnectionState → Client → Client
  unfolding same_state
  set_state s c =
      if same_state c.snapshot.state s
      then c
      else publish (connection_state_changed s) (set_snapshot (record c.snapshot { state = s }) c)

  unfoldable pub set_library_busy : Bool → Client → Client
  unfolding same_bool
  set_library_busy busy c =
      if same_bool c.library_busy busy
      then c
      else publish now_playing_changed (
          set_snapshot (record c.snapshot { library_busy = busy })
            (record c { library_busy = busy }))

  unfoldable pub receive : ℕ → Client → Option (List ℕ) × Client
  receive timeout_ms c =
      let (text, w) = o.receive_text timeout_ms c.world in (text, record c { world = w })

  unfoldable pub send : List ℕ → Client → Bool × Client
  send text c = let (sent, w) = o.send_text text c.world in (sent, record c { world = w })

  unfoldable pub stopped : Client → Bool × Client
  stopped c = let (s, w) = o.stop_requested c.world in (s, record c { world = w })

  unfoldable pub read_clock : Client → ℕ × Client
  read_clock c = let (t, w) = o.now c.world in (t, record c { world = w })

  unfoldable pub link_open : Client → Bool × Client
  link_open c = let (b, w) = o.is_open c.world in (b, record c { world = w })

  unfoldable pub enqueue_command : PendingCommand → Client → Client
  unfolding read_clock queue_command
  enqueue_command command c =
      let (t, c') = read_clock c in
      record c' {
        pending_commands = queue_command (record command { enqueued_at = t }) c'.pending_commands;
      }

  unfoldable pub enqueue_library_request : LibraryRequest → Client → Client
  unfolding queue_request
  enqueue_library_request request c = record c {
    pending_library_requests = queue_request request c.pending_library_requests;
  }
