-- ===== src/Tsplayer/Init.antt =====
-- `DSP_DVBplay_init` and `DSP_DVBplay_tune`.
use snmediaplayer_new.Common.{ℕ, ◌*◌, true, not, ◌&&◌, if◌then◌else◌, ltb}
use snmediaplayer_new.Common.Int.{ℤ, pos, negsuc, is_zero}
use snmediaplayer_new.Tsplayer.State.{
  Call, video, audio, Board, M, pure, ◌>>=◌, ◌>>◌, when, modify, call, call_out, hi_success,
}

module _ (board : Board) where
  -- The return code, `*phAvplay` and `*phWin`. A failed step is only printed, and the next one runs.
  -- The arguments are what the locals `hAvplay` and `hWin` hold at first.
  unfoldable pub dvbplay_init : ℕ → ℕ → M (ℤ × ℕ × ℕ)
  dvbplay_init avplay0 win0 = do
    call board Call.snd_init
    call board Call.sys_get_play_time
    vo ← call board Call.vo_init
    (creat, win) ← call_out board Call.vo_creat_win win0
    when (not (is_zero vo && is_zero creat)) (call board Call.vo_deinit)
    call board Call.dmx_init
    call board Call.dmx_attach_ts_port
    call board Call.tuner_init
    call board Call.avplay_reg_adec_lib
    call board Call.avplay_init
    call board Call.avplay_get_default_config
    (_, avplay) ← call_out board (Call.avplay_create (9 * 1024 * 1024) (1 * 1024 * 1024)) avplay0
    call board (Call.avplay_chn_open avplay video)
    call board (Call.avplay_chn_open avplay audio)
    call board (Call.vo_attach_window win avplay)
    call board (Call.vo_set_window_enable win true)
    call board (Call.snd_attach avplay)
    call board Call.snd_set_track_mode
    call board (Call.avplay_get_attr avplay)
    call board (Call.avplay_set_attr avplay (pos 60) (negsuc 19))
    pure (hi_success, avplay, win)

  -- A frequency outside 501..899 leaves the tuner parameters as they were.
  unfoldable pub dvbplay_tune : ℕ → M ℤ
  dvbplay_tune freq = do
    modify (λ s.
        if ltb freq 900 && ltb 500 freq
        then record s { tuner_freq = freq; tuner_srate = 6875; tuner_qam = 64 }
        else s)
    λ s. call board (Call.tuner_connect s.tuner_freq s.tuner_srate s.tuner_qam) s
