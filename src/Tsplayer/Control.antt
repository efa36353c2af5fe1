-- ===== src/Tsplayer/Control.antt =====
-- `DSP_DVBplay_tplay`, `_resume`, `_check_stream_state` and `_setvolume`.
use snmediaplayer_new.Common.{ℕ, if◌then◌else◌}
use snmediaplayer_new.Common.Int.{ℤ, pos, is_zero}
use snmediaplayer_new.Tsplayer.State.{
  Call, mode_i, mode_normal, Board, M, call, call_out, hi_success, hi_failure,
}

module _ (board : Board) where
  -- Three calls in a row; the first that fails ends the row with HI_FAILURE.
  unfoldable pub three_calls : Call → Call → Call → M ℤ
  three_calls c1 c2 c3 s0 =
      let (r1, s1) = call board c1 s0 in
      let (r2, s2) = call board c2 s1 in
      let (r3, s3) = call board c3 s2 in
      if is_zero r1
      then if is_zero r2
        then (if is_zero r3 then hi_success else hi_failure, s3)
        else (hi_failure, s2)
      else (hi_failure, s1)

  unfoldable pub dvbplay_tplay : ℕ → M ℤ
  unfolding three_calls
  dvbplay_tplay avplay =
      three_calls (Call.avplay_set_decode_mode avplay mode_i) (Call.avplay_reset avplay)
        (Call.avplay_tplay avplay)

  unfoldable pub dvbplay_resume : ℕ → M ℤ
  unfolding three_calls
  dvbplay_resume avplay =
      three_calls (Call.avplay_set_decode_mode avplay mode_normal) (Call.avplay_reset avplay)
        (Call.avplay_resume avplay)

  -- HI_FAILURE, or the flag that the SDK stored. `empty0` is what the local held before.
  unfoldable pub dvbplay_check_stream_state : ℕ → ℕ → M ℤ
  dvbplay_check_stream_state avplay empty0 s =
      let ((ret, empty), t) = call_out board (Call.avplay_is_buff_empty avplay) empty0 s in
      (if is_zero ret then pos empty else hi_failure, t)

  unfoldable pub dvbplay_setvolume : ℕ → M ℤ
  dvbplay_setvolume volume s =
      let (ret, t) = call board (Call.snd_set_volume volume) s in
      (if is_zero ret then hi_success else hi_failure, t)
