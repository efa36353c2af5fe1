-- ===== src/Player/Playback/Vod.antt =====
-- `main_vod_player`: a film, a channel that is shifted in time, or a recorded broadcast.
use snmediaplayer_new.Common.{
  ℕ, ◌-◌, Bool, true, false, Option, none, some, [], ◌∷◌, if◌then◌else◌, ◌==◌,
}
use snmediaplayer_new.Common.Int.{ℤ, pos, is_zero, is_one, to_i32}
use snmediaplayer_new.Common.Text.{Bytes}
use snmediaplayer_new.Tsplayer.Play.{dvbplay}
use snmediaplayer_new.Tsplayer.Control.{dvbplay_resume}
use snmediaplayer_new.Tsplayer.Close.{dvbplay_stop}
use snmediaplayer_new.Rtsp.Vcr.{rtsp_play}
use snmediaplayer_new.Rtsp.Connect.{destroy_connection}
use snmediaplayer_new.Player.State.{
  event_load_finish_and_play, event_player_exit, event_player_exit_vod, drmc_decrease_count,
  drmc_terminate, remove_license, Goto, goto_none, World, M, pure, ◌>>=◌, ◌>>◌, modify,
  on_streaming, on_dvb, try_dvb, drm_call,
}
use snmediaplayer_new.Player.Queue.{clear_dummy_key}
use snmediaplayer_new.Player.Network.{network_init, network_release, ss_keep_alive_end}
use snmediaplayer_new.Player.License.{parse_cw_from_license}
use snmediaplayer_new.Player.Pts.{no_pts, update_play_pts}
use snmediaplayer_new.Player.Messages.{process_tvod_msg}
use snmediaplayer_new.Player.Playback.{
  Label, restart, main_loop, in_loop, cleanup, finished, process_msg_result, notify, exit_thread,
  ms_keep_alive_end, teardown_if_setup, tune_program, search_program, start_volume,
}

-- The locals of the function that the main loop uses.
pub record Locals : Type 0 where
  pub scramble : ℤ
  pub check_stream_times : ℕ

-- `unsigned char key[16] = {0};`
abbrev pub zero_key : Bytes
zero_key = 0 ∷ 0 ∷ 0 ∷ 0 ∷ 0 ∷ 0 ∷ 0 ∷ 0 ∷ 0 ∷ 0 ∷ 0 ∷ 0 ∷ 0 ∷ 0 ∷ 0 ∷ 0 ∷ []

abbrev pub started : Label → ℤ → Label × Locals
started l scramble = (l, record { scramble = scramble; check_stream_times = 100 })

-- An end in front of the main loop, where the locals are not set.
abbrev pub ended : Label → Label × Locals
ended l = started l (pos 0)

module _ (world : World) where
  -- The end of the two threads and of the session.
  unfoldable pub end_vod_session : M (Unit {0})
  end_vod_session = do ss_keep_alive_end world; ms_keep_alive_end world; teardown_if_setup world

  abbrev pub release_caller : M (Unit {0})
  release_caller = modify (λ p. record p { trick_ok_flag = true })

  unfoldable pub vod_failed : M (Label × Locals)
  vod_failed = do end_vod_session; release_caller; l ← exit_thread event_player_exit; pure (ended l)

  -- From the label HR_test to the main loop.
  unfoldable pub play_film : ℤ × Bytes → M (Label × Locals)
  play_film (scramble, key) p =
      (do
        ret ← try_dvb (
            dvbplay world.board p.havplay p.session.play_param.pn_id
              (if is_one scramble then some key else none))
        pure (started (if is_zero ret then main_loop else cleanup) scramble))
        p

  unfoldable pub vod_searched : ℤ → M (Label × Locals)
  vod_searched ret p =
      if is_zero ret
      then (do
        start_volume world
        cw ← parse_cw_from_license world p.session.license zero_key
        play_film cw)
          p
      else vod_failed p

  unfoldable pub vod_tuned : Bool → M (Label × Locals)
  vod_tuned true p = (do ret ← search_program world; vod_searched ret) p
  vod_tuned false p = (do modify (λ p. record p { cur_freq = 0 }); vod_failed) p

  unfoldable pub vod_playing : ℤ → M (Label × Locals)
  vod_playing ret p =
      if is_zero ret
      then (do modify (λ p. record p { trans_time = 0 }); ok ← tune_program world; vod_tuned ok) p
      else vod_failed p

  unfoldable pub vod_connected : Option ℤ → M (Option (Label × Locals))
  vod_connected none p = some (none, p)
  vod_connected (some ret) p =
      if is_zero ret
      then (do
        modify (λ p. record p { status_network = ret })
        played ← on_streaming (rtsp_play world.streaming_net (to_i32 p.media_start_time))
        l ← vod_playing played
        pure (some l))
          p
      else (do
        modify (λ p. record p { status_network = ret })
        release_caller
        l ← exit_thread event_player_exit_vod
        pure (some (ended l)))
          p

  -- Up to the main loop; `none` if the session server still redirects in the last of the rounds.
  unfoldable pub vod_begin : ℕ → M (Option (Label × Locals))
  vod_begin rounds = do
    modify (λ p. record p { play_first_pts = no_pts })
    clear_dummy_key
    ret ← network_init world rounds
    vod_connected ret

  -- The DRM session and the licence file are given up.
  unfoldable pub end_license : ℤ → M (Unit {0})
  end_license scramble p =
      if is_one scramble
      then (do
        drm_call world drmc_decrease_count
        drm_call world drmc_terminate
        drm_call world remove_license
        pure tt)
          p
      else some (tt, p)

  -- The label cleanup.
  unfoldable pub vod_cleanup : ℤ → M Label
  vod_cleanup scramble = do
    release_caller
    end_license scramble
    ss_keep_alive_end world
    ms_keep_alive_end world
    on_streaming (destroy_connection world.streaming_net)
    teardown_if_setup world
    network_release
    modify (λ p. record p { if_sm_setup = false })
    λ p. on_dvb (dvbplay_stop world.board p.havplay) p
    exit_thread event_player_exit_vod

  -- Behind a message that does not leave the round.
  unfoldable pub check_stream : Locals → M (Label × Locals)
  check_stream v p =
      if v.check_stream_times - 1 == 0
      then (do update_play_pts world; pure (in_loop, record v { check_stream_times = 100 })) p
      else some ((in_loop, record v { check_stream_times = v.check_stream_times - 1 }), p)

  unfoldable pub vod_next : Locals → Goto → M (Label × Locals)
  vod_next v goto_none p = check_stream v p
  vod_next v g p = some ((process_msg_result g, v), p)

  -- From one label, or one round of the loop, to the next.
  unfoldable pub vod_step : ℕ → Label → Locals → M (Label × Locals)
  vod_step rounds restart v p =
      (do
        ret ← on_dvb (dvbplay_resume world.board p.havplay)
        pure (if is_zero ret then main_loop else cleanup, v))
        p
  vod_step rounds main_loop v p = some ((in_loop, v), notify event_load_finish_and_play p)
  vod_step rounds in_loop v p = (do gotocmd ← process_tvod_msg world rounds; vod_next v gotocmd) p
  vod_step rounds cleanup v p = (do l ← vod_cleanup v.scramble; pure (l, v)) p
  vod_step rounds finished v p = some ((finished, v), p)
