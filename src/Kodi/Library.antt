-- ===== src/Kodi/Library.antt =====
-- `BuildLibraryQuery` and `SendPendingLibraryRequests` of src/core/kodi_client.cpp.
use homedeck.Base.{
  ℕ, Bool, true, false, not, Option, none, some, List, [], ◌∷◌, if◌then◌else◌, is_empty,
}
use homedeck.Base.Int.{ℤ}
use homedeck.Base.Text.{codes}
use homedeck.Json.{Json, string, integer, object, array, Items, nil, cons, Fields, end, field}
use homedeck.Kodi.Reply.{Doubles}
use homedeck.Kodi.Listing.{
  parse_movies, parse_tv_shows, parse_seasons, parse_episodes, parse_artists, parse_albums,
  parse_songs, parse_file_items, parse_channel_groups, parse_channels,
}
use homedeck.Kodi.Client.{
  movies, tv_shows, seasons, episodes, artists, albums, songs, file_sources, directory,
  channel_groups, channels, LibraryRequest, LibraryRequestKind, Event, movies_fetched,
  tv_shows_fetched, seasons_fetched, episodes_fetched, artists_fetched, albums_fetched,
  songs_fetched, files_fetched, channel_groups_fetched, channels_fetched, Outside, Client, publish,
  stopped,
}
use homedeck.Kodi.Paging.{Query, call_library}

sort_by : List ℕ → Fields → Fields
sort_by method rest =
    field (codes "sort")
      (object (
        field (codes "method") (string method)
          (field (codes "order") (string (codes "ascending")) end)))
      rest

strings : List (List ℕ) → Items
strings [] = nil
strings (text ∷ texts) = cons (string text) (strings texts)

properties : List (List ℕ) → Fields → Fields
unfolding strings
properties texts rest = field (codes "properties") (array (strings texts)) rest

filter_by : List ℕ → ℤ → Fields → Fields
filter_by key id rest = field (codes "filter") (object (field key (integer id) end)) rest

unfoldable pub query_method : LibraryRequestKind → List ℕ
query_method movies = codes "VideoLibrary.GetMovies"
query_method tv_shows = codes "VideoLibrary.GetTVShows"
query_method seasons = codes "VideoLibrary.GetSeasons"
query_method episodes = codes "VideoLibrary.GetEpisodes"
query_method artists = codes "AudioLibrary.GetArtists"
query_method albums = codes "AudioLibrary.GetAlbums"
query_method songs = codes "AudioLibrary.GetSongs"
query_method file_sources = codes "Files.GetSources"
query_method directory = codes "Files.GetDirectory"
query_method channel_groups = codes "PVR.GetChannelGroups"
query_method channels = codes "PVR.GetChannels"

unfoldable pub query_params : LibraryRequestKind → LibraryRequest → Fields
unfolding properties sort_by filter_by
query_params movies r =
    properties (codes "title" ∷ codes "year" ∷ codes "resume" ∷ []) (sort_by (codes "label") end)
query_params tv_shows r =
    properties (codes "title" ∷ codes "year" ∷ codes "episode" ∷ codes "watchedepisodes" ∷ [])
      (sort_by (codes "label") end)
query_params seasons r =
    properties (codes "season" ∷ codes "episode" ∷ codes "watchedepisodes" ∷ [])
      (sort_by (codes "season") (field (codes "tvshowid") (integer r.parent_id) end))
query_params episodes r = properties (codes "episode" ∷ codes "title" ∷ codes "resume" ∷ []) (
    field (codes "season") (integer r.season)
      (sort_by (codes "episode") (field (codes "tvshowid") (integer r.parent_id) end)))
query_params artists r = sort_by (codes "label") end
query_params albums r =
    filter_by (codes "artistid") r.parent_id
      (properties (codes "title" ∷ codes "year" ∷ []) (sort_by (codes "year") end))
query_params songs r = filter_by (codes "albumid") r.parent_id (
    properties (codes "title" ∷ codes "track" ∷ codes "duration" ∷ [])
      (sort_by (codes "track") end))
query_params file_sources r = field (codes "media") (string (codes "video")) end
query_params directory r =
    field (codes "directory") (string r.path) (field (codes "media") (string (codes "video")) end)
query_params channel_groups r = field (codes "channeltype") (string (codes "tv")) end
query_params channels r = field (codes "channelgroupid") (integer r.parent_id) end

unfoldable pub query_key : LibraryRequestKind → Option (List ℕ)
query_key movies = some (codes "movies")
query_key tv_shows = some (codes "tvshows")
query_key seasons = some (codes "seasons")
query_key episodes = some (codes "episodes")
query_key artists = some (codes "artists")
query_key albums = some (codes "albums")
query_key songs = some (codes "songs")
query_key file_sources = none
query_key directory = some (codes "files")
query_key channel_groups = none
query_key channels = some (codes "channels")

module _ (d : Doubles) (parse : List ℕ → Option Json) where
  -- The event that a reply is published as.
  unfoldable pub query_event : LibraryRequestKind → LibraryRequest → List ℕ → Bool → Event
  unfolding parse_movies parse_tv_shows parse_seasons parse_episodes parse_artists parse_albums
      parse_songs parse_file_items parse_channel_groups parse_channels
  query_event movies r text truncated = movies_fetched (parse_movies d parse text) truncated
  query_event tv_shows r text truncated = tv_shows_fetched (parse_tv_shows d parse text) truncated
  query_event seasons r text truncated =
      seasons_fetched r.parent_id (parse_seasons d parse text) truncated
  query_event episodes r text truncated =
      episodes_fetched r.parent_id r.season (parse_episodes d parse text) truncated
  query_event artists r text truncated = artists_fetched (parse_artists d parse text) truncated
  query_event albums r text truncated =
      albums_fetched r.parent_id (parse_albums d parse text) truncated
  query_event songs r text truncated =
      songs_fetched r.parent_id (parse_songs d parse text) truncated
  query_event file_sources r text truncated =
      files_fetched [] (parse_file_items d parse text (codes "sources") true) truncated
  query_event directory r text truncated =
      files_fetched r.path (parse_file_items d parse text (codes "files") false) truncated
  query_event channel_groups r text truncated =
      channel_groups_fetched (parse_channel_groups d parse text) truncated
  query_event channels r text truncated =
      channels_fetched r.parent_id (parse_channels d parse text) truncated

-- The times that every query has.
pub record Limits : Type 0 where
  pub library_busy_after : ℕ
  pub library_call_timeout : ℕ
  pub max_pending_command_age : ℕ

module _ (o : Outside) (l : Limits) where
  unfoldable pub query_for : LibraryRequest → Query
  unfolding query_method
  query_for r = record {
    method = query_method r.kind;
    result_key = [];
    library_busy_after = l.library_busy_after;
    timeout_ms = l.library_call_timeout;
    max_age = l.max_pending_command_age;
  }

  unfoldable pub run_query : LibraryRequest → Client o → (Option (List ℕ) × Bool) × Client o
  unfolding call_library query_for query_params query_key
  run_query r c =
      call_library o (query_for r) (query_key r.kind) (o.dump (object (query_params r.kind r))) c

  -- The reply is published; without one the batch ends.
  unfoldable pub publish_reply :
      LibraryRequest → (Option (List ℕ) × Bool) × Client o → Bool × Client o
  unfolding query_event
  publish_reply r ((none, truncated), c) = (false, c)
  publish_reply r ((some text, truncated), c) =
      (true, publish o (query_event o.doubles o.parse r.kind r text truncated) c)

  unfoldable pub request_each : List LibraryRequest → Client o → Bool × Client o
  unfolding publish_reply run_query stopped
  request_each [] c = (true, c)
  request_each (r ∷ rs) c =
      let (stopping, c₁) = stopped o c in
      let (good, c₂) = publish_reply r (run_query r c₁) in
      let rest = request_each rs c₂ in
      if stopping then (false, c₁) else if good then rest else (false, c₂)

  unfoldable pub send_pending_library_requests : Client o → Bool × Client o
  unfolding request_each
  send_pending_library_requests c =
      let c' = record c { pending_library_requests = [] } in
      if is_empty c.pending_library_requests
      then (true, c')
      else if not c.socket
      then (false, c')
      else request_each c.pending_library_requests c'
