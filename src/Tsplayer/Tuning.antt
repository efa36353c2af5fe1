-- ===== src/Tsplayer/Tuning.antt =====
-- The tuner parameters that `DSP_DVBplay_tune` connects with.
use snmediaplayer_new.Common.{ℕ, ◌<◌, ◌≡◌, ◌⊎◌, ◌&&◌, ◌∷◌, arith, ltb, if◌then◌else◌}
use snmediaplayer_new.Tsplayer.State.{Call, Board, Dvb}
use snmediaplayer_new.Tsplayer.Init.{dvbplay_tune}

-- The tuner holds a frequency from the band with the fixed symbol rate and modulation.
pub record IsTuned (s : Dvb) : Type 0 where
  pub above : 500 < s.tuner_freq
  pub below : s.tuner_freq < 900
  pub srate : s.tuner_srate ≡ 6875
  pub qam : s.tuner_qam ≡ 64

module _ (board : Board) where
  -- If the frequency asked for lies in 501..899, or the tuner already held one that does, the SDK is
  -- asked once to connect with a frequency of that band, the one asked for if it is in the band, else the one held, at
  -- symbol rate 6875 and QAM 64, and its code is returned.
  pub tune-IsTuned :
      (freq : ℕ) (s : Dvb)
      → ((500 < freq) × (freq < 900)) ⊎ IsTuned s
      → let (r, t) = dvbplay_tune board freq s in
        IsTuned t
        × (t.calls ≡ Call.tuner_connect t.tuner_freq 6875 64 ∷ s.calls)
        × (r ≡ board.code s.calls (Call.tuner_connect t.tuner_freq 6875 64))
        × (t.tuner_freq ≡ (if ltb 500 freq && ltb freq 900 then freq else s.tuner_freq))
  unfolding dvbplay_tune
  tune-IsTuned freq s h = ground arith
