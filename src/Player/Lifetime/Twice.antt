-- ===== src/Player/Lifetime/Twice.antt =====
-- The deletion of a player behind a playback.
use snmediaplayer_new.Common.{ℕ, ◌≡◌, refl, ◌∙◌, ap, true, false, Option, none, some, if◌then◌else◌}
use snmediaplayer_new.Player.State.{Player, World, alive}
use snmediaplayer_new.Player.After.{bind_eq, fault_bind}
use snmediaplayer_new.Player.Network.{network_release}
use snmediaplayer_new.Player.Playback.{Label, finished}
use snmediaplayer_new.Player.Playback.Vod.{Locals}
use snmediaplayer_new.Player.Playback.Reach.{Reach, Inv, vod-Reach-Inv}
use snmediaplayer_new.Player.Lifetime.{release_stream_media_player, quit_and_join, delete_player}

module _ (world : World) where
  freed_faults : (p : Player) → p.freed ≡ true → release_stream_media_player world p ≡ none
  unfolding release_stream_media_player network_release
  freed_faults p f = fault_bind network_release _ p (
      fault_bind alive _ p
        (ap (λ b. if◌then◌else◌ {A = Option (Unit {0} × Player)} b none (some (tt, p))) f))

  pub join_ended :
      (thread : Player → Option Player) (p : Player)
      → p.mediaplayer_thread ≡ false
      → quit_and_join world thread p ≡ some (tt, p)
  unfolding quit_and_join
  join_ended thread p t = rw t refl

  -- When the playback of a film has ended by itself, by a message or by an error, whatever the other
  -- threads did meanwhile, deleting the player is undefined: the clients, which the cleanup of the
  -- playback has deleted, are deleted again.
  pub vod_deleted_twice :
      {rounds : ℕ} {l : Label} {v v' : Locals} {p q : Player} (thread : Player → Option Player)
      → Reach world rounds l v p finished v' q
      → Inv l p
      → delete_player world thread q ≡ none
  unfolding delete_player
  vod_deleted_twice {q = q} thread r i =
      let inv = vod-Reach-Inv r i in
      bind_eq (quit_and_join world thread) _ q q tt (join_ended thread q inv.1)
      ∙ fault_bind (release_stream_media_player world) _ q (freed_faults q inv.0)
