-- ===== src/Kodi/Listing.antt =====
-- The listing parsers of src/core/kodi_json.cpp, with the structs of src/core/kodi_client.h that
-- they fill.
use homedeck.Base.{
  ℕ, ◌||◌, Bool, Option, none, some, List, [], ◌∷◌, if◌then◌else◌, is_empty, bytes_eq,
}
use homedeck.Base.Int.{ℤ, pos, negsuc}
use homedeck.Base.Text.{codes}
use homedeck.Json.{Json, parse_bounded_json, Items, nil, cons}
use homedeck.Kodi.Reply.{
  Doubles, signed_cast, get_int, get_string, get_double, result_array, member, max_time_field_value,
}

pub record KodiMovie : Type 0 where
  pub movieid : ℤ
  pub title : List ℕ
  pub year : ℤ
  pub resume_position_ms : ℤ

pub record KodiTvShow : Type 0 where
  pub tvshowid : ℤ
  pub title : List ℕ
  pub year : ℤ
  pub episode_count : ℤ
  pub watched_episode_count : ℤ

pub record KodiSeason : Type 0 where
  pub season : ℤ
  pub label : List ℕ
  pub episode_count : ℤ
  pub watched_episode_count : ℤ

pub record KodiEpisode : Type 0 where
  pub episodeid : ℤ
  pub episode : ℤ
  pub title : List ℕ
  pub resume_position_ms : ℤ

pub record KodiArtist : Type 0 where
  pub artistid : ℤ
  pub name : List ℕ

pub record KodiAlbum : Type 0 where
  pub albumid : ℤ
  pub title : List ℕ
  pub year : ℤ

pub record KodiSong : Type 0 where
  pub songid : ℤ
  pub track : ℤ
  pub title : List ℕ
  pub duration_seconds : ℤ

pub record KodiFileItem : Type 0 where
  pub path : List ℕ
  pub label : List ℕ
  pub is_folder : Bool

pub record KodiChannelGroup : Type 0 where
  pub channelgroupid : ℤ
  pub label : List ℕ

pub record KodiChannel : Type 0 where
  pub channelid : ℤ
  pub label : List ℕ

-- `static_cast<int>(GetInt(...))`.
get_narrow : Json → List ℕ → ℤ
unfolding get_int signed_cast
get_narrow j key = signed_cast 32 (get_int j key (pos 0))

-- The id of an entry.
get_id : Json → List ℕ → ℤ
unfolding get_int
get_id j key = get_int j key (negsuc 0)

named_or_label : List ℕ → Json → List ℕ
unfolding get_string
named_or_label key item =
    let name = get_string item key [] in
    if is_empty name then get_string item (codes "label") [] else name

unfoldable pub title_or_label : Json → List ℕ
unfolding named_or_label
title_or_label item = named_or_label (codes "title") item

module _ {ℓ} {A : Type ℓ} where
  unfoldable pub fill_each : (Json → A) → Items → List A
  fill_each fill nil = []
  fill_each fill (cons element items) = fill element ∷ fill_each fill items

  filled : (Json → A) → Option Items → List A
  unfolding fill_each
  filled fill none = []
  filled fill (some items) = fill_each fill items

  listed : (Json → A) → List ℕ → Option Json → List A
  unfolding filled result_array
  listed fill key none = []
  listed fill key (some parsed) = filled fill (result_array parsed key)

  unfoldable pub parse_list : (List ℕ → Option Json) → List ℕ → List ℕ → (Json → A) → List A
  unfolding listed parse_bounded_json
  parse_list parse text key fill = listed fill key (parse_bounded_json parse text)

module _ (d : Doubles) (parse : List ℕ → Option Json) where
  -- `std::clamp` on doubles.
  clamp_double : ℕ → ℕ → ℕ → ℕ
  clamp_double low high x = if d.less x low then low else if d.less high x then high else x

  resume_of : Option Json → ℤ
  unfolding get_double clamp_double
  resume_of none = pos 0
  resume_of (some resume) =
      let zero_seconds = d.of_integer (pos 0) in
      let seconds =
        clamp_double zero_seconds
          (d.times (d.of_integer (pos max_time_field_value)) (d.of_integer (pos 3600)))
          (get_double d resume (codes "position") zero_seconds) in
      d.truncate (d.times seconds (d.of_integer (pos 1000)))

  unfoldable pub resume_position_ms : Json → ℤ
  unfolding resume_of member
  resume_position_ms item = resume_of (member (codes "resume") item)

  unfoldable pub parse_movies : List ℕ → List KodiMovie
  unfolding parse_list title_or_label get_narrow get_id resume_position_ms
  parse_movies text = parse_list parse text (codes "movies") (λ m. record {
    movieid = get_id m (codes "movieid");
    title = title_or_label m;
    year = get_narrow m (codes "year");
    resume_position_ms = resume_position_ms m;
  })

  unfoldable pub parse_tv_shows : List ℕ → List KodiTvShow
  unfolding parse_list title_or_label get_narrow get_id
  parse_tv_shows text = parse_list parse text (codes "tvshows") (λ s. record {
    tvshowid = get_id s (codes "tvshowid");
    title = title_or_label s;
    year = get_narrow s (codes "year");
    episode_count = get_narrow s (codes "episode");
    watched_episode_count = get_narrow s (codes "watchedepisodes");
  })

  unfoldable pub parse_seasons : List ℕ → List KodiSeason
  unfolding parse_list title_or_label get_narrow
  parse_seasons text = parse_list parse text (codes "seasons") (λ s. record {
    season = get_narrow s (codes "season");
    label = title_or_label s;
    episode_count = get_narrow s (codes "episode");
    watched_episode_count = get_narrow s (codes "watchedepisodes");
  })

  unfoldable pub parse_episodes : List ℕ → List KodiEpisode
  unfolding parse_list title_or_label get_narrow get_id resume_position_ms
  parse_episodes text = parse_list parse text (codes "episodes") (λ e. record {
    episodeid = get_id e (codes "episodeid");
    episode = get_narrow e (codes "episode");
    title = title_or_label e;
    resume_position_ms = resume_position_ms e;
  })

  unfoldable pub parse_artists : List ℕ → List KodiArtist
  unfolding parse_list named_or_label get_id
  parse_artists text = parse_list parse text (codes "artists") (λ a. record {
    artistid = get_id a (codes "artistid");
    name = named_or_label (codes "artist") a;
  })

  unfoldable pub parse_albums : List ℕ → List KodiAlbum
  unfolding parse_list title_or_label get_narrow get_id
  parse_albums text = parse_list parse text (codes "albums") (λ a. record {
    albumid = get_id a (codes "albumid");
    title = title_or_label a;
    year = get_narrow a (codes "year");
  })

  unfoldable pub parse_songs : List ℕ → List KodiSong
  unfolding parse_list title_or_label get_narrow get_id
  parse_songs text = parse_list parse text (codes "songs") (λ s. record {
    songid = get_id s (codes "songid");
    track = get_narrow s (codes "track");
    title = title_or_label s;
    duration_seconds = get_narrow s (codes "duration");
  })

  unfoldable pub parse_file_items : List ℕ → List ℕ → Bool → List KodiFileItem
  unfolding parse_list title_or_label get_string
  parse_file_items text result_key all_folders = parse_list parse text result_key (λ f. record {
    path = get_string f (codes "file") [];
    label = title_or_label f;
    is_folder = all_folders || bytes_eq (get_string f (codes "filetype") []) (codes "directory");
  })

  unfoldable pub parse_channel_groups : List ℕ → List KodiChannelGroup
  unfolding parse_list title_or_label get_id
  parse_channel_groups text =
      parse_list parse text (codes "channelgroups") (λ g. record {
        channelgroupid = get_id g (codes "channelgroupid");
        label = title_or_label g;
      })

  unfoldable pub parse_channels : List ℕ → List KodiChannel
  unfolding parse_list title_or_label get_id
  parse_channels text =
      parse_list parse text (codes "channels")
        (λ c. record { channelid = get_id c (codes "channelid"); label = title_or_label c })
