-- ===== src/Player/Playback/Lost.antt =====
-- A message STREAMMEDIAPLAYER_QUIT in the round that takes a pending rewind.
use snmediaplayer_new.Common.{
  ℕ, ◌≡◌, refl, sym, ap, subst, ◌∙◌, true, false, Option, some, List, ◌∷◌, arith,
}
use snmediaplayer_new.Common.Int.{ℤ}
use snmediaplayer_new.Tsplayer.Control.{dvbplay_setvolume}
use snmediaplayer_new.Rtsp.State.{Client, player_none}
use snmediaplayer_new.Rtsp.Setup.{has_control}
use snmediaplayer_new.Player.State.{
  Message, msg_quit, msg_fastbackward, fastbackward, Goto, goto_rstart, pause_others, Player, World,
  alive,
}
use snmediaplayer_new.Player.Queue.{rcvfrom_mediaplayermsg}
use snmediaplayer_new.Player.Messages.{
  first_pause, keep_alive_error, twice, unicast_command, tvs_command, status_command, last_command,
  checked_command, process_unicast_msg, process_common_msg, common_command, process_tvod_msg,
}
use snmediaplayer_new.Player.Vcr.{quiet_alive, status_command-quiet, quiet_pause}
use snmediaplayer_new.Player.After.{Gives, bind_eq}
use snmediaplayer_new.Player.Playback.Quit.{media_dispatch}

-- The message is taken from the queue, and the playback goes on with the rewind.
abbrev pub GoesOn : List Message → Goto → Player → Type 0
GoesOn rest g q = (g ≡ goto_rstart) × (q.queue ≡ rest) × (q.playerstate ≡ fastbackward)

module _ (world : World) (rounds : ℕ) where
  twice-queue :
      (m : Client → Option (ℤ × Client)) (p : Player)
      → Gives (λ _ q. q.queue ≡ p.queue) (twice world m p)
  unfolding twice
  twice-queue m p = ground arith

  rewind-GoesOn :
      (p : Player) → Gives (GoesOn p.queue) (unicast_command world rounds msg_fastbackward p)
  unfolding unicast_command dvbplay_setvolume
  rewind-GoesOn p = grind (arith, twice-queue)

  rewinding : Player → Player
  rewinding p = record p { pause_into_tvs = pause_others; backward_into_tvs = false }

  rewind_instead :
      (p : Player)
      → p.freed ≡ false
      → p.streaming.player_status ≡ player_none
      → first_pause p ≡ false
      → keep_alive_error p ≡ false
      → p.backward_into_tvs ≡ true
      → process_unicast_msg world rounds msg_quit p
        ≡ unicast_command world rounds msg_fastbackward (rewinding p)
  unfolding process_unicast_msg rewinding checked_command last_command
  rewind_instead p a s f k b =
      bind_eq alive _ p p tt (quiet_alive world rounds p a)
      ∙ bind_eq (status_command world p.streaming.player_status msg_quit) _ p p msg_quit
          (status_command-quiet world rounds msg_quit p s)
      ∙ bind_eq (tvs_command world msg_quit) _ p _ (some msg_quit)
          (quiet_pause world rounds msg_quit p f)
      ∙ rewound
    where
      q : Player
      q = record p { pause_into_tvs = pause_others }

      chosen : last_command world msg_quit q ≡ msg_fastbackward
      chosen = rw (k, b) refl

      rewound :
          checked_command world rounds (some msg_quit) q
          ≡ unicast_command world rounds msg_fastbackward (record q { backward_into_tvs = false })
      rewound =
          ap (λ c. unicast_command world rounds c (record q { backward_into_tvs = false })) chosen

  -- If a rewind is pending when the message STREAMMEDIAPLAYER_QUIT is taken, and nothing else is that
  -- replaces it, then the message is lost: it is no longer in the queue, and the playback of a film goes
  -- on with the rewind, if the round does not fault.
  pub quit_lost :
      (rest : List Message) (p : Player)
      → p.freed ≡ false
      → p.streaming.player_status ≡ player_none
      → first_pause p ≡ false
      → keep_alive_error p ≡ false
      → has_control p.setup_type ≡ true
      → Gives (GoesOn rest) (
          process_tvod_msg world rounds
            (record p { queue = msg_quit ∷ rest; backward_into_tvs = true }))
  unfolding process_tvod_msg process_common_msg rcvfrom_mediaplayermsg common_command rewinding
  quit_lost rest p a s f k m =
      subst (Gives (GoesOn rest))
        (sym
          (media_dispatch world rounds p.setup_type msg_quit q m ∙ rewind_instead q a s f k refl))
        (rewind-GoesOn (rewinding q))
    where
      q : Player
      q = record p { queue = rest; backward_into_tvs = true }
