-- ===== src/Tsplayer/Lifecycle.antt =====
-- The resources of `DSP_DVBplay_init` and `DSP_DVBplay_close`.
use snmediaplayer_new.Common.{ℕ, Bool, true, false, ◌&&◌, ◌∷◌}
use snmediaplayer_new.Common.Int.{is_zero}
use snmediaplayer_new.Tsplayer.State.{Call, Channel, Board, Dvb}

pub data Resource : Type 0 where
  snd vo win dmx ts_port tuner avplay_module avplay video_window sound channels : Resource

-- The resource that a call acquires; the channels count by the video channel.
abbrev pub acquires : Resource → Call → Bool
acquires snd Call.snd_init = true
acquires vo Call.vo_init = true
acquires win Call.vo_creat_win = true
acquires dmx Call.dmx_init = true
acquires ts_port Call.dmx_attach_ts_port = true
acquires tuner Call.tuner_init = true
acquires avplay_module Call.avplay_init = true
acquires avplay (Call.avplay_create v a) = true
acquires video_window (Call.vo_attach_window w a) = true
acquires sound (Call.snd_attach a) = true
acquires channels (Call.avplay_chn_open a Channel.video) = true
acquires _ _ = false

abbrev pub releases : Resource → Call → Bool
releases snd Call.snd_deinit = true
releases vo Call.vo_deinit = true
releases win (Call.vo_destroy_window w) = true
releases dmx Call.dmx_deinit = true
releases ts_port Call.dmx_detach_ts_port = true
releases tuner Call.tuner_deinit = true
releases avplay_module Call.avplay_deinit = true
releases avplay (Call.avplay_destroy a) = true
releases video_window (Call.vo_detach_window w a) = true
releases sound (Call.snd_detach a) = true
releases channels (Call.avplay_chn_close a) = true
releases _ _ = false

module _ (board : Board) where
  -- The window system was initialised and gave a window.
  abbrev pub vo_ready : Dvb → Bool
  vo_ready s =
      let h1 = Call.sys_get_play_time ∷ Call.snd_init ∷ s.calls in
      is_zero (board.code h1 Call.vo_init)
      && is_zero (board.code (Call.vo_init ∷ h1) Call.vo_creat_win)

  -- `HIADP_VO_DeInit` in the failure branch of `DSP_DVBplay_init`.
  abbrev pub early_release : Resource → Bool → ℕ
  early_release vo false = 1
  early_release _ _ = 0
