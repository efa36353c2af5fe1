-- ===== src/Player/Playback/Live.antt =====
-- `main_stream_player`: a channel.
use snmediaplayer_new.Common.{ℕ, Bool, true, false, Option, none, some, if◌then◌else◌}
use snmediaplayer_new.Common.Int.{ℤ, is_zero}
use snmediaplayer_new.Tsplayer.Play.{dvbplay}
use snmediaplayer_new.Tsplayer.Close.{dvbplay_stop}
use snmediaplayer_new.Rtsp.Vcr.{rtsp_teardown}
use snmediaplayer_new.Player.State.{
  event_player_exit, World, M, pure, ◌>>=◌, ◌>>◌, modify, on_session, on_dvb, try_dvb,
}
use snmediaplayer_new.Player.Queue.{clear_dummy_key}
use snmediaplayer_new.Player.Network.{network_init, ss_keep_alive_end}
use snmediaplayer_new.Player.Messages.{process_tvod_msg}
use snmediaplayer_new.Player.Playback.{
  Label, restart, main_loop, in_loop, cleanup, finished, process_msg_result, exit_thread,
  teardown_if_setup, tune_program, search_program, start_volume,
}

module _ (world : World) where
  -- The session is ended, whether it is set up or not.
  unfoldable pub end_live_session : M (Unit {0})
  end_live_session = do
    ss_keep_alive_end world
    on_session (rtsp_teardown world.session_net)
    pure tt

  -- Behind the search.
  unfoldable pub live_searched : ℤ → M Label
  live_searched ret p =
      if is_zero ret
      then (do start_volume world; pure restart) p
      else (do end_live_session; exit_thread event_player_exit) p

  unfoldable pub live_tuned : Bool → M Label
  live_tuned true p = (do ret ← search_program world; live_searched ret) p
  live_tuned false p =
      (do end_live_session; modify (λ p. record p { cur_freq = 0 }); exit_thread event_player_exit)
        p

  unfoldable pub live_connected : Option ℤ → M (Option Label)
  live_connected none p = some (none, p)
  live_connected (some ret) p =
      if is_zero ret
      then (do
        modify (λ p. record p { status_network = ret })
        ok ← tune_program world
        l ← live_tuned ok
        pure (some l))
          p
      else (do
        modify (λ p. record p { status_network = ret })
        l ← exit_thread event_player_exit
        pure (some l))
          p

  -- Up to the label restart; `none` if the session server still redirects in the last of the rounds.
  unfoldable pub live_begin : ℕ → M (Option Label)
  live_begin rounds = do clear_dummy_key; ret ← network_init world rounds; live_connected ret

  -- The label cleanup.
  unfoldable pub live_cleanup : M Label
  live_cleanup = do
    ss_keep_alive_end world
    teardown_if_setup world
    λ p. on_dvb (dvbplay_stop world.board p.havplay) p
    modify (λ p. record p { mediaplayer_thread = false })
    pure finished

  -- From one label, or one round of the loop, to the next.
  unfoldable pub live_step : ℕ → Label → M Label
  live_step rounds restart p =
      (do
        ret ← try_dvb (dvbplay world.board p.havplay p.session.play_param.pn_id none)
        pure (if is_zero ret then main_loop else cleanup))
        p
  live_step rounds main_loop p = some (in_loop, p)
  live_step rounds in_loop p =
      (do gotocmd ← process_tvod_msg world rounds; pure (process_msg_result gotocmd)) p
  live_step rounds cleanup p = live_cleanup p
  live_step rounds finished p = some (finished, p)
