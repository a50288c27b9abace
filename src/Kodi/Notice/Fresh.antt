-- ===== src/Kodi/Notice/Fresh.antt =====
-- A new item takes nothing from the one before, and a stop leaves nothing.
use homedeck.Base.{
  ℕ, ◌+◌, ◌%◌, ◌^◌, ◌≡◌, refl, ◌∙◌, ap, sym, subst, true, false, Option, some, List, ◌∷◌,
  if◌then◌else◌, if_both, bytes_eq,
}
use homedeck.Base.Int.{ℤ}
use homedeck.Base.Text.{codes}
use homedeck.Json.{Json, Fields, find, string_member, try_parse_json_object, object}
use homedeck.Kodi.Playing.{KodiNowPlaying, apply_item_fields, idle}
use homedeck.Kodi.Client.{Outside, Client, now_playing_changed}
use homedeck.Kodi.Notice.{
  handle_notification, on_frame, on_named, on_method, on_player, on_stop, notice_data, apply_item,
  apply_player, is_showing, starts_with,
}

-- What tells which item is playing.
pub record Identity : Type 0 where
  pub title : List ℕ
  pub show_title : List ℕ
  pub season : ℤ
  pub episode : ℤ
  pub media_type : List ℕ

abbrev pub identity : KodiNowPlaying → Identity
identity n = record {
  title = n.title;
  show_title = n.show_title;
  season = n.season;
  episode = n.episode;
  media_type = n.media_type;
}

apply_item-identity :
    (item : Json) (n n' : KodiNowPlaying)
    → identity (apply_item true (some item) n) ≡ identity (apply_item true (some item) n')
unfolding apply_item apply_item_fields
apply_item-identity (object fields) n n' = refl
apply_item-identity Json.null n n' = refl
apply_item-identity (Json.boolean b) n n' = refl
apply_item-identity (Json.integer i) n n' = refl
apply_item-identity (Json.float x) n n' = refl
apply_item-identity (Json.string text) n n' = refl
apply_item-identity (Json.array items) n n' = refl

-- A notification of this method, with the frame that it was read from.
pub record Names (parse : List ℕ → Option Json) (text method : List ℕ) : Type 0 where
  pub frame : Fields
  pub parsed : try_parse_json_object parse text ≡ some frame
  pub named : string_member (codes "method") frame ≡ some method

idle_hidden : is_showing idle ≡ false
unfolding is_showing
idle_hidden = refl

module _ (o : Outside) where
  -- The notification is handled as its method says.
  pub handle_notification-on_method :
      (text method : List ℕ) (c : Client o) (n : Names o.parse text method)
      → handle_notification o text c ≡ on_method o method (notice_data n.frame) c
  unfolding handle_notification on_frame on_named
  handle_notification-on_method text method c n =
      ap (λ f. on_frame o f c) n.parsed ∙ ap (λ m. on_named o m n.frame c) n.named

  playing_of : Client o → Identity
  playing_of c = identity c.snapshot.now_playing

  play-identity :
      (payload : Fields) (item : Json) (c c' : Client o)
      → find (codes "item") payload ≡ some item
      → playing_of (on_method o (codes "Player.OnPlay") payload c)
        ≡ playing_of (on_method o (codes "Player.OnPlay") payload c')
  unfolding on_method bytes_eq starts_with on_player apply_player playing_of
  play-identity payload item c c' e =
      ap (λ i. identity (apply_item true i c.snapshot.now_playing)) e
      ∙ apply_item-identity item c.snapshot.now_playing c'.snapshot.now_playing
      ∙ sym (ap (λ i. identity (apply_item true i c'.snapshot.now_playing)) e)

  -- However the two clients stood before: when both handle one `Player.OnPlay` notification with an
  -- item, then they show the same title, show, season, episode and type.
  pub on_play_forgets :
      (text : List ℕ) (item : Json) (c c' : Client o)
      (n : Names o.parse text (codes "Player.OnPlay"))
      → find (codes "item") (notice_data n.frame) ≡ some item
      → identity (handle_notification o text c).snapshot.now_playing
        ≡ identity (handle_notification o text c').snapshot.now_playing
  unfolding playing_of
  on_play_forgets text item c c' n e =
      ap playing_of (handle_notification-on_method text (codes "Player.OnPlay") c n)
      ∙ play-identity (notice_data n.frame) item c c' e
      ∙ sym (ap playing_of (handle_notification-on_method text (codes "Player.OnPlay") c' n))

  -- What a stop leaves of a client.
  pub record IsStopped (c after : Client o) : Type 0 where
    pub hidden : is_showing after.snapshot.now_playing ≡ false
    pub counted : after.player_stop_count ≡ (c.player_stop_count + 1) % 2 ^ 32
    pub unclaimed : after.identity_from_notification ≡ false
    pub published : after.published ≡ (
        if is_showing c.snapshot.now_playing
        then now_playing_changed ∷ c.published
        else c.published)

  on_stop-IsStopped : (c : Client o) → IsStopped c (on_stop o c)
  unfolding on_stop
  on_stop-IsStopped c =
      if_both (IsStopped c) (is_showing c.snapshot.now_playing) _ _
        (λ e. record {
          hidden = idle_hidden;
          counted = refl;
          unclaimed = refl;
          published = rw e refl;
        })
        (λ e. record { hidden = e; counted = refl; unclaimed = refl; published = rw e refl })

  -- After a `Player.OnStop` notification nothing is shown as playing, the stop is counted, the next
  -- poll may name the item again, and an event is published exactly if something was shown.
  pub handle_stop-IsStopped :
      (text : List ℕ) (c : Client o)
      → Names o.parse text (codes "Player.OnStop")
      → IsStopped c (handle_notification o text c)
  unfolding on_method bytes_eq
  handle_stop-IsStopped text c n =
      subst (IsStopped c) (sym (handle_notification-on_method text (codes "Player.OnStop") c n))
        (on_stop-IsStopped c)
