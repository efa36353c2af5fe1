-- ===== src/Tsplayer/Play.antt =====
-- `DSP_DVBplay`: descrambling and the start of a program.
use snmediaplayer_new.Common.{ℕ, true, Option, none, some}
use snmediaplayer_new.Common.Int.{ℤ, negsuc, is_zero}
use snmediaplayer_new.Common.Text.{Bytes}
use snmediaplayer_new.Tsplayer.State.{
  Call, Channel, video, audio, ProgTbl, Board, Dvb, M, ◌>>◌, when, call, call_out,
}
use snmediaplayer_new.Tsplayer.Search.{find_prog}

module _ (board : Board) where
  -- `HI_UNF_AVPLAY_GetDmx???ChnHandle` and the attachment of the key to that channel.
  unfoldable pub attach_channel : ℕ → Channel → (Dvb → ℕ) → (ℕ → Dvb → Dvb) → M (Unit {0})
  attach_channel avplay c old keep s0 =
      let ((ret, chn), s1) = call_out board (Call.avplay_get_dmx_chn avplay c) (old s0) s0 in
      let s2 = keep chn s1 in
      when (is_zero ret) (call board (Call.dmx_attach_descrambler s2.key chn)) s2

  -- The branch `cas_key != HI_NULL`.
  unfoldable pub descramble : ℕ → Bytes → M (Unit {0})
  unfolding attach_channel
  descramble avplay cas_key s0 =
      let s1 = record s0 { is_scramble = true } in
      let ((ret, key), s2) = call_out board Call.dmx_create_descrambler s1.key s1 in
      let s3 = record s2 { key = key } in
      let bind_keys : M (Unit {0}) = do
        call board (Call.dmx_set_even_key key cas_key)
        call board (Call.dmx_set_odd_key key cas_key)
        attach_channel avplay audio (λ s. s.aud_chn) (λ chn s. record s { aud_chn = chn })
        attach_channel avplay video (λ s. s.vid_chn) (λ chn s. record s { vid_chn = chn })
      in when (is_zero ret) bind_keys s3

  unfoldable pub descramble_if : ℕ → Option Bytes → M (Unit {0})
  unfolding descramble
  descramble_if avplay none s = (tt, s)
  descramble_if avplay (some cas_key) s = descramble avplay cas_key s

  unfoldable pub play_table : ℕ → ℕ → Option Bytes → Option ProgTbl → Dvb → Option (ℤ × Dvb)
  play_table avplay prog_num cas_key none s = none
  play_table avplay prog_num cas_key (some t) s = elim (find_prog prog_num 0 t.prog_ids) [
    | none ↦ some (negsuc 0, s)
    | some index ↦
        let (_, s1) = descramble_if avplay cas_key s in
        some (call board (Call.avplay_play_prog avplay t.id index) s1)
  ]

  -- `none` is the read through a null `g_pProgTbl`.
  unfoldable pub dvbplay : ℕ → ℕ → Option Bytes → Dvb → Option (ℤ × Dvb)
  unfolding play_table
  dvbplay avplay prog_num cas_key s = play_table avplay prog_num cas_key s.prog_tbl s
