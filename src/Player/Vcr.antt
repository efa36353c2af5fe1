-- ===== src/Player/Vcr.antt =====
-- What the pause, play, forward and rewind messages do to the player, whatever the server answers.
use snmediaplayer_new.Common.{
  ℕ, ◌≡◌, refl, ap, ◌∙◌, Bool, true, false, Option, none, some, ◌∷◌, if◌then◌else◌, arith,
}
use snmediaplayer_new.Common.Int.{ℤ, pos, to_u32}
use snmediaplayer_new.Tsplayer.State.{Call}
use snmediaplayer_new.Tsplayer.Control.{dvbplay_setvolume}
use snmediaplayer_new.Rtsp.State.{Client, player_none}
use snmediaplayer_new.Player.State.{
  Message, msg_none, msg_urlchange, msg_volumechange, msg_volumemute, msg_seek, msg_realtimetv,
  msg_quit, msg_play, msg_pause, msg_fastforward, msg_fastbackward, PlayState, paused, playing,
  fastforward, fastbackward, Goto, goto_none, goto_rstart, pause_others, Player, World, alive,
}
use snmediaplayer_new.Player.Network.{network_init, network_release}
use snmediaplayer_new.Player.Messages.{
  first_pause, keep_alive_error, twice, resume_server, unicast_command, status_command, tvs_command,
  last_command, checked_command, process_unicast_msg,
}
use snmediaplayer_new.Player.After.{Gives, bind_eq}

-- What the player does not share with the client of the media server.
abbrev Same : Player → {A : Type 0} → A → Player → Type 0
Same p r q =
    (q.playerstate ≡ p.playerstate)
    × (q.playspeed ≡ p.playspeed)
    × (q.real_volume ≡ p.real_volume)
    × (q.dvb ≡ p.dvb)

-- The state, the reported speed, the volume and the place in the main loop behind each message.
abbrev pub Answers : Player → Message → Goto → Player → Type 0
Answers p msg_pause g q =
    (q.playerstate ≡ paused) × (q.mspeed ≡ pos 1) × (q.dvb.calls ≡ p.dvb.calls) × (g ≡ goto_none)
Answers p msg_play g q =
    (q.playerstate ≡ playing)
    × (q.mspeed ≡ pos 1)
    × (q.dvb.calls ≡ Call.snd_set_volume (to_u32 p.real_volume) ∷ p.dvb.calls)
    × (g ≡ goto_rstart)
Answers p msg_fastforward g q =
    (q.playerstate ≡ fastforward)
    × (q.mspeed ≡ p.playspeed)
    × (q.dvb.calls ≡ Call.snd_set_volume 0 ∷ p.dvb.calls)
    × (g ≡ goto_rstart)
Answers p msg_fastbackward g q =
    (q.playerstate ≡ fastbackward)
    × (q.mspeed ≡ p.playspeed)
    × (q.dvb.calls ≡ Call.snd_set_volume 0 ∷ p.dvb.calls)
    × (g ≡ goto_rstart)
Answers p _ g q = ⊥

-- The four messages of the remote control.
abbrev pub is_vcr : Message → Bool
is_vcr msg_pause = true
is_vcr msg_play = true
is_vcr msg_fastforward = true
is_vcr msg_fastbackward = true
is_vcr _ = false

module _ (world : World) (rounds : ℕ) where
  twice-Same : (m : Client → Option (ℤ × Client)) (p : Player) → Gives (Same p) (twice world m p)
  unfolding twice
  twice-Same m p = ground arith

  resume_server-Same : (s : PlayState) (p : Player) → Gives (Same p) (resume_server world s p)
  unfolding resume_server
  resume_server-Same s p = grind (arith, twice-Same)

  command-Answers :
      (cmd : Message) (p : Player)
      → is_vcr cmd ≡ true
      → Gives
          (λ g q. Answers p cmd g q × (q.trick_ok_flag ≡ true))
          (unicast_command world rounds cmd p)
  unfolding unicast_command dvbplay_setvolume
  command-Answers msg_pause p h = grind (arith, twice-Same)
  command-Answers msg_play p h = grind (arith, resume_server-Same)
  command-Answers msg_fastforward p h = grind (arith, twice-Same)
  command-Answers msg_fastbackward p h = grind (arith, twice-Same)
  command-Answers msg_none p h = absurd (ground arith)
  command-Answers msg_urlchange p h = absurd (ground arith)
  command-Answers msg_volumechange p h = absurd (ground arith)
  command-Answers msg_volumemute p h = absurd (ground arith)
  command-Answers msg_seek p h = absurd (ground arith)
  command-Answers msg_realtimetv p h = absurd (ground arith)
  command-Answers msg_quit p h = absurd (ground arith)

  -- Nothing is pending that replaces the message: no announcement of the server, no first pause of a
  -- TVS, no rewind into it and no error of a keep-alive thread.
  abbrev pub Quiet : Player → Type 0
  Quiet p =
      (p.freed ≡ false)
      × (p.streaming.player_status ≡ player_none)
      × (first_pause p ≡ false)
      × (keep_alive_error p ≡ false)
      × (p.backward_into_tvs ≡ false)

  abbrev pub settled : Player → Player
  settled p = record p { pause_into_tvs = pause_others; backward_into_tvs = false }

  pub status_command-quiet :
      (cmd : Message) (p : Player)
      → p.streaming.player_status ≡ player_none
      → status_command world p.streaming.player_status cmd p ≡ some (cmd, p)
  unfolding status_command
  status_command-quiet cmd p s = ap (λ t. status_command world t cmd p) s

  pub quiet_pause :
      (cmd : Message) (p : Player)
      → first_pause p ≡ false
      → tvs_command world cmd p ≡ some (some cmd, record p { pause_into_tvs = pause_others })
  unfolding tvs_command
  quiet_pause cmd p f = rw f refl

  quiet_last :
      (cmd : Message) (p : Player)
      → keep_alive_error p ≡ false
      → p.backward_into_tvs ≡ false
      → checked_command world rounds (some cmd) p
        ≡ unicast_command world rounds cmd (record p { backward_into_tvs = false })
  unfolding checked_command last_command
  quiet_last cmd p k b =
      ap (λ c. unicast_command world rounds c (record p { backward_into_tvs = false })) kept
    where
      kept : last_command world cmd p ≡ cmd
      kept = rw (k, b) refl

  pub quiet_alive : (p : Player) → p.freed ≡ false → alive p ≡ some (tt, p)
  quiet_alive p a = ap (λ b. if◌then◌else◌ {A = Option (Unit {0} × Player)} b none (some (tt, p))) a

  pub Quiet-command :
      (cmd : Message) (p : Player)
      → Quiet p
      → process_unicast_msg world rounds cmd p ≡ unicast_command world rounds cmd (settled p)
  unfolding process_unicast_msg
  Quiet-command cmd p (a, s, f, k, b) =
      bind_eq alive _ p p tt (quiet_alive p a)
      ∙ bind_eq (status_command world p.streaming.player_status cmd) _ p p cmd
          (status_command-quiet cmd p s)
      ∙ bind_eq (tvs_command world cmd) _ p _ (some cmd) (quiet_pause cmd p f)
      ∙ quiet_last cmd (record p { pause_into_tvs = pause_others }) k b

  -- If nothing is pending that replaces a pause, play, forward or rewind message, and handling it does
  -- not fault, then `process_unicast_msg` leaves the state, the reported speed, the volume and the place
  -- in the main loop that belong to the message, and releases the caller that waits for
  -- `trick_ok_flag`, whatever the server answered.
  pub vcr_message-Answers :
      (cmd : Message) (p : Player)
      → Quiet p
      → is_vcr cmd ≡ true
      → Gives
          (λ g q. Answers p cmd g q × (q.trick_ok_flag ≡ true))
          (process_unicast_msg world rounds cmd p)
  vcr_message-Answers cmd p u h = rw (Quiet-command cmd p u) (command-Answers cmd (settled p) h)

freed_faults :
    (world : World) (rounds : ℕ) (p : Player)
    → p.freed ≡ false
    → unicast_command world rounds msg_urlchange p ≡ none
unfolding unicast_command network_init network_release
freed_faults world rounds p a =
    bind_eq network_release _ p _ tt (bind_eq alive _ p p tt (quiet_alive world rounds p a))

-- A change of the URL in a unicast session deletes the clients and then uses them: if nothing is
-- pending that replaces the message, its handling is undefined.
pub urlchange_faults :
    (world : World) (rounds : ℕ) (p : Player)
    → Quiet world rounds p
    → process_unicast_msg world rounds msg_urlchange p ≡ none
unfolding unicast_command network_release network_init
urlchange_faults world rounds p u =
    Quiet-command world rounds msg_urlchange p u ∙ freed_faults world rounds _ (u.0)
