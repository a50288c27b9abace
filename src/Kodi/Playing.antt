-- ===== src/Kodi/Playing.antt =====
-- What plays: `KodiNowPlaying` of src/core/kodi_client.h, and `ApplyItemFields` and
-- `PlaybackFromSpeed` of src/core/kodi_json.cpp.
use homedeck.Base.{
  ℕ, ◌&&◌, ◌==◌, ◌≤◌, Bool, true, false, not, List, [], if◌then◌else◌, is_empty, bytes_eq, ◌≡◌,
  refl, arith,
}
use homedeck.Base.Int.{ℤ, pos, negsuc}
use homedeck.Base.Text.{codes}
use homedeck.Json.{Json, object, string}
use homedeck.Kodi.Reply.{Doubles, get_string, get_bounded_int, max_season_or_episode, clamp_ℤ}

pub data KodiPlaybackState : Type 0 where
  inactive playing paused : KodiPlaybackState

pub record KodiNowPlaying : Type 0 where
  pub playback : KodiPlaybackState
  pub speed : ℤ
  pub title : List ℕ
  pub show_title : List ℕ
  pub season : ℤ
  pub episode : ℤ
  pub media_type : List ℕ
  pub position_ms : ℕ
  pub duration_ms : ℕ
  pub percent : ℕ
  pub can_seek : Bool

abbrev pub idle : KodiNowPlaying
idle = record {
  playback = inactive;
  speed = pos 0;
  title = [];
  show_title = [];
  season = negsuc 0;
  episode = negsuc 0;
  media_type = [];
  position_ms = 0;
  duration_ms = 0;
  percent = 0;
  can_seek = false;
}

unfoldable pub same_ℤ : ℤ → ℤ → Bool
same_ℤ (pos m) (pos n) = m == n
same_ℤ (negsuc m) (negsuc n) = m == n
same_ℤ _ _ = false

unfoldable pub same_bool : Bool → Bool → Bool
same_bool true b = b
same_bool false b = not b

abbrev pub is_inactive : KodiPlaybackState → Bool
is_inactive inactive = true
is_inactive _ = false

same_playback : KodiPlaybackState → KodiPlaybackState → Bool
same_playback inactive inactive = true
same_playback playing playing = true
same_playback paused paused = true
same_playback _ _ = false

-- `operator==`, member by member.
unfoldable pub same_now_playing : Doubles → KodiNowPlaying → KodiNowPlaying → Bool
unfolding same_ℤ same_bool same_playback
same_now_playing d a b =
    same_playback a.playback b.playback
    && same_ℤ a.speed b.speed
    && bytes_eq a.title b.title
    && bytes_eq a.show_title b.show_title
    && same_ℤ a.season b.season
    && same_ℤ a.episode b.episode
    && bytes_eq a.media_type b.media_type
    && a.position_ms == b.position_ms
    && a.duration_ms == b.duration_ms
    && d.equal a.percent b.percent
    && same_bool a.can_seek b.can_seek

unfoldable pub playback_from_speed : ℤ → KodiPlaybackState
playback_from_speed (pos n) = if n == 0 then paused else playing
playback_from_speed (negsuc n) = playing

-- A text that says something.
or_current : List ℕ → List ℕ → List ℕ
or_current text current = if is_empty text then current else text

-- A number that is not negative.
or_current_ℤ : ℤ → ℤ → ℤ
or_current_ℤ (pos n) current = pos n
or_current_ℤ (negsuc n) current = current

type_or_current : List ℕ → List ℕ → List ℕ
type_or_current text current =
    if not (is_empty text) && not (bytes_eq text (codes "unknown")) then text else current

item_title : Json → List ℕ
unfolding get_string
item_title item =
    let title = get_string item (codes "title") [] in
    if is_empty title then get_string item (codes "label") [] else title

-- A season or an episode, -1 if there is none.
item_number : Json → List ℕ → ℤ
unfolding get_bounded_int
item_number item key = get_bounded_int item key (negsuc 0) (negsuc 0) (pos max_season_or_episode)

-- Each field that is blank or missing keeps its value.
merge_fields : Json → KodiNowPlaying → KodiNowPlaying
unfolding or_current or_current_ℤ type_or_current item_title item_number get_string
merge_fields item now_playing = record now_playing {
  title = or_current (item_title item) now_playing.title;
  show_title = or_current (get_string item (codes "showtitle") []) now_playing.show_title;
  season = or_current_ℤ (item_number item (codes "season")) now_playing.season;
  episode = or_current_ℤ (item_number item (codes "episode")) now_playing.episode;
  media_type = type_or_current (get_string item (codes "type") []) now_playing.media_type;
}

unfoldable pub apply_item_fields : Json → KodiNowPlaying → KodiNowPlaying
unfolding merge_fields
apply_item_fields (object fields) now_playing = merge_fields (object fields) now_playing
apply_item_fields _ now_playing = now_playing

-- A season or an episode as the display can show it.
abbrev pub InRange : ℤ → Type 0
InRange (pos n) = n ≤ max_season_or_episode
InRange (negsuc n) = n ≡ 0

or_current-InRange :
    (item : Json) (key : List ℕ) (current : ℤ)
    → InRange current
    → InRange (or_current_ℤ (item_number item key) current)
unfolding or_current_ℤ item_number get_bounded_int clamp_ℤ
or_current-InRange item key current h = ground arith

-- What keeps a season and an episode displayable.
pub record Shown (n : KodiNowPlaying) : Type 0 where
  pub season_in_range : InRange n.season
  pub episode_in_range : InRange n.episode

or_current_idem : (text c : List ℕ) → or_current text (or_current text c) ≡ or_current text c
unfolding or_current
or_current_idem text c = ground arith

or_current_ℤ_idem : (n c : ℤ) → or_current_ℤ n (or_current_ℤ n c) ≡ or_current_ℤ n c
unfolding or_current_ℤ
or_current_ℤ_idem n c = ground arith

type_or_current_idem :
    (text c : List ℕ) → type_or_current text (type_or_current text c) ≡ type_or_current text c
unfolding type_or_current
type_or_current_idem text c = ground arith

merge_fields_idem :
    (item : Json) (n : KodiNowPlaying)
    → merge_fields item (merge_fields item n) ≡ merge_fields item n
unfolding merge_fields
merge_fields_idem item n = rw (
  or_current_idem (item_title item) n.title,
  or_current_idem (get_string item (codes "showtitle") []) n.show_title,
  or_current_ℤ_idem (item_number item (codes "season")) n.season,
  or_current_ℤ_idem (item_number item (codes "episode")) n.episode,
  type_or_current_idem (get_string item (codes "type") []) n.media_type,
)

merge_fields-Shown : (item : Json) (n : KodiNowPlaying) → Shown n → Shown (merge_fields item n)
unfolding merge_fields
merge_fields-Shown item n h = record {
  season_in_range = or_current-InRange item (codes "season") n.season h.season_in_range;
  episode_in_range = or_current-InRange item (codes "episode") n.episode h.episode_in_range;
}

-- Applying any value keeps a season and an episode in range, and a second time changes nothing.
pub apply_item_fields_idem :
    (item : Json) (n : KodiNowPlaying)
    → Shown n
    → Shown (apply_item_fields item n)
      × (apply_item_fields item (apply_item_fields item n) ≡ apply_item_fields item n)
unfolding apply_item_fields
apply_item_fields_idem (object fields) n h =
    (merge_fields-Shown (object fields) n h, merge_fields_idem (object fields) n)
apply_item_fields_idem Json.null n h = (h, refl)
apply_item_fields_idem (Json.boolean b) n h = (h, refl)
apply_item_fields_idem (Json.integer i) n h = (h, refl)
apply_item_fields_idem (Json.float x) n h = (h, refl)
apply_item_fields_idem (string text) n h = (h, refl)
apply_item_fields_idem (Json.array items) n h = (h, refl)
