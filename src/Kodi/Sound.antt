-- ===== src/Kodi/Sound.antt =====
-- What holds of the Kodi snapshot whatever Kodi sends.
pub mod Notice
pub mod Call
pub mod Batch
pub mod Listing
pub mod Poll
pub mod Loop
use homedeck.Base.{◌≤◌, ◌≡◌, refl, ◌⊎◌, inl, Bool, true, false, if_both, arith}
use homedeck.Base.Int.{ℤ, pos, negsuc, ◌≤ℤ◌}
use homedeck.Kodi.Reply.{clamp_speed, clamp_ℤ-le}
use homedeck.Kodi.Playing.{KodiNowPlaying, inactive, idle, Shown, playback_from_speed, same_bool}
use homedeck.Kodi.Client.{
  KodiSnapshot, KodiConnectionState, Outside, Client, publish_if, set_state, set_library_busy,
}

-- The speed is in Kodi's range, the season and the episode can be shown, and something plays or is
-- paused as the speed says.
pub record IsPlayable (n : KodiNowPlaying) : Type 0 where
  pub speed_low : negsuc 999 ≤ℤ n.speed
  pub speed_high : n.speed ≤ℤ pos 1000
  pub shown : Shown n
  pub consistent : (n.playback ≡ inactive) ⊎ (n.playback ≡ playback_from_speed n.speed)
  pub position_bounded : n.position_ms ≤ 3661001000000
  pub duration_bounded : n.duration_ms ≤ 3661001000000

-- `busy` is the loop's own copy of the snapshot's flag.
pub record IsSound (busy : Bool) (s : KodiSnapshot) : Type 0 where
  pub volume_bounded : s.volume ≤ 100
  pub playable : IsPlayable s.now_playing
  pub mirrored : s.library_busy ≡ busy

pub idle-IsPlayable : IsPlayable idle
idle-IsPlayable = record {
  speed_low = omega arith;
  speed_high = omega arith;
  shown = record { season_in_range = refl; episode_in_range = refl };
  consistent = inl refl;
  position_bounded = omega arith;
  duration_bounded = omega arith;
}

pub clamp_speed-le : (n : ℤ) → (negsuc 999 ≤ℤ clamp_speed n) × (clamp_speed n ≤ℤ pos 1000)
unfolding clamp_speed
clamp_speed-le n = clamp_ℤ-le (negsuc 999) (pos 1000) n (omega arith)

-- Another item is playing.
pub IsSound-playing :
    (busy : Bool) (s : KodiSnapshot) (n : KodiNowPlaying)
    → IsSound busy s
    → IsPlayable n
    → IsSound busy (record s { now_playing = n })
IsSound-playing busy s n h p = record {
  volume_bounded = h.volume_bounded;
  playable = p;
  mirrored = h.mirrored;
}

module _ (o : Outside) where
  abbrev pub Sound : Client o → Type 0
  Sound c = IsSound c.library_busy c.snapshot

  pub publish_if-Sound : (b : Bool) (c : Client o) → Sound c → Sound (publish_if o b c)
  publish_if-Sound true c h = h
  publish_if-Sound false c h = h

  pub set_library_busy-Sound : (b : Bool) (c : Client o) → Sound c → Sound (set_library_busy o b c)
  unfolding set_library_busy
  set_library_busy-Sound b c h =
      if_both Sound (same_bool c.library_busy b) _ _ (λ e. h)
        (λ e. record { volume_bounded = h.volume_bounded; playable = h.playable; mirrored = refl })

  pub set_state-Sound : (s : KodiConnectionState) (c : Client o) → Sound c → Sound (set_state o s c)
  unfolding set_state
  set_state-Sound s c h =
      if_both Sound _ c _ (λ e. h)
        (λ e. record {
          volume_bounded = h.volume_bounded;
          playable = h.playable;
          mirrored = h.mirrored;
        })
