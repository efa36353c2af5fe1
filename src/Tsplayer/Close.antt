-- ===== src/Tsplayer/Close.antt =====
-- `DSP_DVBplay_stop` and `DSP_DVBplay_close`.
use snmediaplayer_new.Common.{ℕ, false}
use snmediaplayer_new.Common.Int.{ℤ}
use snmediaplayer_new.Tsplayer.State.{Call, Board, M, pure, ◌>>◌, when, modify, call, hi_success}
use snmediaplayer_new.Tsplayer.Search.{free_table}

module _ (board : Board) where
  -- The block under `if (g_isScramble == HI_SUCCESS)`.
  unfoldable pub close_descramble : M (Unit {0})
  close_descramble s0 =
      let body : M (Unit {0}) = do
        call board (Call.dmx_detach_descrambler s0.key s0.vid_chn)
        call board (Call.dmx_detach_descrambler s0.key s0.aud_chn)
        call board (Call.dmx_destroy_descrambler s0.key)
        modify (λ s. record s { is_scramble = false })
      in when s0.is_scramble body s0

  unfoldable pub dvbplay_stop : ℕ → M ℤ
  unfolding free_table close_descramble
  dvbplay_stop avplay = do
    modify (λ s. free_table board s.prog_tbl s)
    close_descramble
    call board (Call.avplay_stop avplay)
    pure hi_success

  unfoldable pub dvbplay_close : ℕ → ℕ → M ℤ
  unfolding free_table close_descramble
  dvbplay_close avplay win = do
    close_descramble
    call board (Call.avplay_stop avplay)
    call board (Call.snd_detach avplay)
    call board (Call.vo_set_window_enable win false)
    call board (Call.vo_detach_window win avplay)
    call board (Call.avplay_chn_close avplay)
    call board (Call.avplay_destroy avplay)
    call board Call.avplay_deinit
    modify (λ s. free_table board s.prog_tbl s)
    call board Call.search_deinit
    call board Call.tuner_deinit
    call board Call.dmx_detach_ts_port
    call board Call.dmx_deinit
    call board (Call.vo_destroy_window win)
    call board Call.vo_deinit
    call board Call.snd_deinit
    pure hi_success
