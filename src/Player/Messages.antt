-- ===== src/Player/Messages.antt =====
-- The handling of a message: `process_common_msg`, `process_multicast_msg`, `process_unicast_msg` and
-- `process_tvod_msg`.
use snmediaplayer_new.Common.{
  ℕ, Bool, true, false, ◌&&◌, ◌||◌, Option, none, some, [], ◌∷◌, ◌++◌, if◌then◌else◌, leb,
}
use snmediaplayer_new.Common.Int.{ℤ, pos, negsuc, is_zero, to_u32}
use snmediaplayer_new.Tsplayer.Control.{dvbplay_tplay, dvbplay_setvolume}
use snmediaplayer_new.Rtsp.State.{Client, PlayerStatus, player_none, player_play, player_quit}
use snmediaplayer_new.Rtsp.Request.{SetupType, setup_sdv, setup_tvs, no_setup}
use snmediaplayer_new.Rtsp.Vcr.{rtsp_play, rtsp_pause, rtsp_forward, rtsp_backward}
use snmediaplayer_new.Player.State.{
  Message, msg_none, msg_urlchange, msg_volumechange, msg_volumemute, msg_play, msg_pause,
  msg_fastforward, msg_fastbackward, msg_realtimetv, msg_quit, PlayState, paused, playing,
  fastforward, fastbackward, Goto, goto_none, goto_rstart, goto_mainloop, goto_cleanup,
  PauseIntoTvs, pause_trig, pause_others, event_begin_of_stream, Player, World, M, pure, ◌>>=◌,
  ◌>>◌, modify, alive, on_streaming, on_dvb,
}
use snmediaplayer_new.Player.Queue.{rcvfrom_mediaplayermsg}
use snmediaplayer_new.Player.Network.{network_init, network_release}

abbrev pub ret_player_quit : ℕ
ret_player_quit = 0

-- Between MIN_VOLUME_SIZE and MAX_VOLUME_SIZE.
abbrev pub in_volume_range : ℤ → Bool
in_volume_range (pos n) = leb n 100
in_volume_range (negsuc n) = false

abbrev pub is_tvs : SetupType → Bool
is_tvs setup_tvs = true
is_tvs _ = false

abbrev pub is_triggered : PauseIntoTvs → Bool
is_triggered pause_trig = true
is_triggered _ = false

-- The first pause of a TVS.
abbrev pub first_pause : Player → Bool
first_pause p = is_triggered p.pause_into_tvs && is_tvs p.setup_type

abbrev pub keep_alive_error : Player → Bool
keep_alive_error p = p.session.if_keep_alive_error || p.streaming.if_keep_alive_error

module _ (world : World) where
  abbrev set_volume : ℕ → M ℤ
  set_volume volume = on_dvb (dvbplay_setvolume world.board volume)

  -- `process_common_msg` with the message that it took.
  unfoldable pub common_command : Option Message → M (Message × Bool)
  common_command none p = some ((msg_none, false), p)
  common_command (some msg_volumechange) p =
      if in_volume_range p.volumesize
      then (do set_volume (to_u32 p.volumesize); pure (msg_volumechange, true)) p
      else some ((msg_volumechange, false), p)
  common_command (some msg_volumemute) p = (do set_volume 0; pure (msg_volumemute, true)) p
  common_command (some cmd) p = some ((cmd, false), p)

  -- The message, `msg_none` if there is none, and whether it is dealt with.
  unfoldable pub process_common_msg : M (Message × Bool)
  process_common_msg = do cmd ← rcvfrom_mediaplayermsg; common_command cmd

  -- `if (m()) if (m()) …`: a request that fails is sent once more.
  unfoldable pub twice : (Client → Option (ℤ × Client)) → M (Unit {0})
  twice m p = elim (on_streaming m p) [
    | none ↦ none
    | some (ret, q) ↦ elim (is_zero ret) [
      | true ↦ some (tt, q)
      | false ↦ elim (on_streaming m q) [ none ↦ none | some (_, r) ↦ some (tt, r) ]
    ]
  ]

  abbrev pause_server : M (Unit {0})
  pause_server = twice (rtsp_pause world.streaming_net)

  abbrev play_server : M (Unit {0})
  play_server = twice (rtsp_play world.streaming_net (negsuc 0))

  -- What a message to play asks of the server, by the state of the player.
  unfoldable pub resume_server : PlayState → M (Unit {0})
  resume_server paused p = play_server p
  resume_server fastforward p =
      (do pause_server; play_server; modify (λ p. record p { trans_time = 0 })) p
  resume_server fastbackward p =
      (do pause_server; play_server; modify (λ p. record p { trans_time = 0 })) p
  resume_server _ p = some (tt, p)

  -- The label of each message, with the rounds that its redirections are watched for.
  unfoldable pub unicast_command : ℕ → Message → M Goto
  unicast_command rounds msg_quit p = some (goto_cleanup, record p { rt_value = ret_player_quit })
  unicast_command rounds msg_pause p =
      (do
        pause_server
        modify (λ p. record p { playerstate = paused; mspeed = pos 1; trick_ok_flag = true })
        pure goto_none)
        p
  unicast_command rounds msg_play p =
      (do
        resume_server p.playerstate
        λ p. set_volume (to_u32 p.real_volume) p
        modify (λ p. record p {
          trick_ok_flag = true;
          playerstate = playing;
          mspeed = pos 1;
          playspeed = pos 1;
        })
        pure goto_rstart)
        p
  unicast_command rounds msg_urlchange p =
      (do
        network_release
        network_init world rounds
        modify (λ p. record p { trans_time = 0 })
        pure goto_rstart)
        p
  unicast_command rounds msg_realtimetv p =
      some (goto_rstart, record p { playerstate = playing; mspeed = pos 1; if_multicast = true })
  unicast_command rounds msg_fastbackward p =
      (do
        pause_server
        λ p. twice (rtsp_backward world.streaming_net p.playspeed) p
        modify (λ p. record p { playerstate = fastbackward; mspeed = p.playspeed })
        set_volume 0
        modify (λ p. record p { trick_ok_flag = true })
        pure goto_rstart)
        p
  unicast_command rounds msg_fastforward p =
      (do
        pause_server
        λ p. twice (rtsp_forward world.streaming_net p.playspeed) p
        modify (λ p. record p { playerstate = fastforward; mspeed = p.playspeed })
        set_volume 0
        modify (λ p. record p { trick_ok_flag = true })
        pure goto_rstart)
        p
  unicast_command rounds _ p = some (goto_none, p)

  abbrev clear_status : Player → Player
  clear_status p = record p { streaming = record p.streaming { player_status = player_none } }

  -- An announcement of the server replaces the message.
  unfoldable pub status_command : PlayerStatus → Message → M Message
  status_command player_play cmd p = some (
    msg_play,
    record (clear_status p) {
      playerstate = playing;
      events = if p.has_callback then p.events ++ (event_begin_of_stream ∷ []) else p.events;
    },
  )
  status_command player_quit cmd p = some (msg_quit, clear_status p)
  status_command _ cmd p = some (cmd, p)

  -- The first pause of a TVS; `none` if the decoder does not take it, which ends the handling.
  unfoldable pub tvs_command : Message → M (Option Message)
  tvs_command cmd p =
      if first_pause p
      then (do
        modify (λ p. record p { pause_into_tvs = pause_others })
        λ p.
            (do
              ret ← on_dvb (dvbplay_tplay world.board p.havplay)
              pure (if is_zero ret then some msg_pause else none))
              p)
          p
      else some (some cmd, record p { pause_into_tvs = pause_others })

  -- The pending rewind, then the errors of the keep-alive threads, replace the message.
  unfoldable pub last_command : Message → Player → Message
  last_command cmd p =
      if keep_alive_error p then msg_quit else if p.backward_into_tvs then msg_fastbackward else cmd

  unfoldable pub checked_command : ℕ → Option Message → M Goto
  checked_command rounds none p = some (goto_none, p)
  checked_command rounds (some cmd) p =
      unicast_command rounds (last_command cmd p) (record p { backward_into_tvs = false })

  unfoldable pub process_unicast_msg : ℕ → Message → M Goto
  process_unicast_msg rounds cmd = do
    alive
    λ p.
        (do
          cmd1 ← status_command p.streaming.player_status cmd
          cmd2 ← tvs_command cmd1
          checked_command rounds cmd2)
          p

  unfoldable pub multicast_command : ℕ → Message → M Goto
  multicast_command rounds msg_quit p = some (goto_cleanup, record p { rt_value = ret_player_quit })
  multicast_command rounds msg_urlchange p =
      (do network_release; network_init world rounds; pure goto_mainloop) p
  multicast_command rounds _ p = some (goto_none, record p { trick_ok_flag = true })

  unfoldable pub process_multicast_msg : ℕ → Message → M Goto
  process_multicast_msg rounds cmd = do
    alive
    λ p. multicast_command rounds (if p.session.if_keep_alive_error then msg_quit else cmd) p

  unfoldable pub dispatch_msg : ℕ → SetupType → Message → M Goto
  dispatch_msg rounds setup_sdv cmd p = process_multicast_msg rounds cmd p
  dispatch_msg rounds no_setup cmd p = some (goto_none, p)
  dispatch_msg rounds _ cmd p = process_unicast_msg rounds cmd p

  unfoldable pub process_tvod_msg : ℕ → M Goto
  process_tvod_msg rounds = do
    got ← process_common_msg
    λ p. (if got.1 then pure goto_none else dispatch_msg rounds p.setup_type got.0) p
