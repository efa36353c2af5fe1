-- ===== src/Mediaplayer/Stream/Ended.antt =====
-- A release by the facade behind a playback.
use snmediaplayer_new.Common.{ℕ, ◌≡◌, refl, Option, none, some}
use snmediaplayer_new.Player.State.{Player, World}
use snmediaplayer_new.Player.Lifetime.{Startup}
use snmediaplayer_new.Player.Lifetime.Twice.{vod_deleted_twice}
use snmediaplayer_new.Player.Playback.{Label, finished}
use snmediaplayer_new.Player.Playback.Vod.{Locals}
use snmediaplayer_new.Player.Playback.Reach.{Reach, Inv}
use snmediaplayer_new.Mediaplayer.{
  PlayerRect, Mediaplayer, slot_at, delete_slot, release_slot, release_media_player,
}
use snmediaplayer_new.Mediaplayer.Stream.{StreamPlayer, stream_media_player}

module _ (set_player_window : PlayerRect → Player → Player) (world : World)
    (between : Player → Player) (during : ℕ → Player → Player) (thread : Player → Option Player)
    (startup : Startup) (blank : StreamPlayer) where
  -- Releasing an instance whose playback of a film has ended behind its main loop, by whatever steps of
  -- its thread and of `Other`, is undefined. (A playback that ends before its main loop leaves the
  -- clients.)
  pub release_ended_faults :
      {rounds : ℕ} {l : Label} {v v' : Locals} {p : Player} (i : ℕ) (s : StreamPlayer)
      (m : Mediaplayer StreamPlayer)
      → slot_at i m.slots ≡ some (some s)
      → Reach world rounds l v p finished v' s.player
      → Inv l p
      → release_media_player
          (stream_media_player set_player_window world between during thread startup blank)
          i
          m
        ≡ none
  unfolding release_media_player release_slot delete_slot
  release_ended_faults i s m e r inv =
      rw (release_media_player, release_slot, e, delete_slot, vod_deleted_twice world thread r inv)
        refl
