-- ===== src/Settings/Loudness.antt =====
-- From `setVolume` to the sound output.
use snmediaplayer_new.Common.{
  ℕ, ◌%◌, ◌≤◌, ◌≡◌, refl, ap, true, ◌∷◌, [], Option, none, some, arith, ltb, leb, length,
}
use snmediaplayer_new.Common.Int.{pos}
use snmediaplayer_new.Tsplayer.State.{Call}
use snmediaplayer_new.Tsplayer.Control.{dvbplay_setvolume}
use snmediaplayer_new.Player.State.{msg_volumechange, Goto, goto_none, Player, World, Message}
use snmediaplayer_new.Player.Queue.{sendto_mediaplayermsg, rcvfrom_mediaplayermsg}
use snmediaplayer_new.Player.Messages.{common_command, process_common_msg, process_tvod_msg}
use snmediaplayer_new.Player.After.{Ends}
use snmediaplayer_new.Settings.{Store, Facade, player_setvolume, set_volume}

-- The sound output was set to the volume, by the one call that the log of `p` has not.
abbrev pub Loud : ℕ → Player → Goto → Player → Type 0
Loud n p g r =
    (g ≡ goto_none) × (r.dvb.calls ≡ Call.snd_set_volume n ∷ p.dvb.calls) × (r.queue ≡ [])

-- What the next round of the player's main loop does, if there is a player.
abbrev pub NextRound : World → ℕ → (Goto → Player → Type 0) → Option Player → Type 0
NextRound world rounds P none = ⊥
NextRound world rounds P (some q) = Ends P (process_tvod_msg world rounds q)

module _ {S : Type 0} (store : Store S) (world : World) (rounds : ℕ) where
  sent :
      (n : ℕ) (p : Player)
      → 1 ≤ world.capacity
      → player_setvolume store world (pos n) (record p { queue = [] })
        ≡ some (record p { volumesize = pos n; real_volume = pos n; queue = msg_volumechange ∷ [] })
  unfolding player_setvolume sendto_mediaplayermsg
  sent n p l = rw (player_setvolume, room) refl
    where
      room : ltb (length {A = Message} []) world.capacity ≡ true
      room = ground arith

  handled :
      (n : ℕ) (p : Player)
      → n ≤ 100
      → Ends (Loud n p) (
          process_tvod_msg world rounds
            (record p { volumesize = pos n; real_volume = pos n; queue = msg_volumechange ∷ [] }))
  unfolding process_tvod_msg process_common_msg rcvfrom_mediaplayermsg common_command
      dvbplay_setvolume
  handled n p l =
      rw (Ends, inside) (refl, ap (λ v. Call.snd_set_volume v ∷ p.dvb.calls) small, refl)
    where
      inside : leb n 100 ≡ true
      inside = ground arith

      small : n % 4294967296 ≡ n
      small = omega arith

  -- After `setVolume` with a volume of 0 to 100, on an instance whose message queue was empty and holds
  -- a message, the next `process_tvod_msg` sets the sound output to that volume, once, and leaves the
  -- queue empty.
  pub set_volume-Loud :
      (n : ℕ) (f : Facade S) (p : Player)
      → 1 ≤ world.capacity
      → n ≤ 100
      → NextRound world rounds
          (Loud n p)
          (set_volume store world
            (pos n)
            (record f { player = some (record p { queue = [] }) })).player
  unfolding set_volume
  set_volume-Loud n f p c l = rw (sent n p c) (handled n p l)
