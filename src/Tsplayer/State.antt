-- ===== src/Tsplayer/State.antt =====
-- The globals of tsplayer.c, the SDK calls that it makes and the monad of its functions. The SDK is
-- not part of the repository: it is a `Board`, whose every answer may depend on all calls so far.
use snmediaplayer_new.Common.{ℕ, Bool, true, false, Option, none, some, List, ◌∷◌}
use snmediaplayer_new.Common.Int.{ℤ, pos}
use snmediaplayer_new.Common.Text.{Bytes}

pub data Channel : Type 0 where
  video audio : Channel

pub data DecodeMode : Type 0 where
  mode_i mode_normal : DecodeMode

-- The SDK calls, with the arguments that tsplayer.c passes. A name `x_y` is HIADP_X_Y or
-- HI_UNF_X_Y, and a handle is a number.
pub data Call : Type 0 where
  snd_init snd_deinit sys_get_play_time vo_init vo_creat_win vo_deinit dmx_init dmx_deinit : Call
  tuner_init tuner_deinit avplay_reg_adec_lib avplay_init avplay_deinit : Call
  avplay_get_default_config snd_set_track_mode search_init search_deinit search_get_all_pmt : Call
  dmx_create_descrambler get_videosetmode : Call
  dmx_attach_ts_port dmx_detach_ts_port : Call
  avplay_create : (vid_buf_size aud_buf_size : ℕ) → Call
  avplay_destroy : (avplay : ℕ) → Call
  avplay_chn_open : (avplay : ℕ) → Channel → Call
  avplay_chn_close : (avplay : ℕ) → Call
  vo_attach_window vo_detach_window : (win avplay : ℕ) → Call
  vo_set_window_enable : (win : ℕ) → Bool → Call
  vo_destroy_window : (win : ℕ) → Call
  snd_attach snd_detach : (avplay : ℕ) → Call
  avplay_get_attr : (avplay : ℕ) → Call
  avplay_set_attr : (avplay : ℕ) (vid_plus_time vid_negative_time : ℤ) → Call
  tuner_connect : (freq srate qam : ℕ) → Call
  search_free_all_pmt : (table : ℕ) → Call
  dmx_set_even_key dmx_set_odd_key : (key : ℕ) → Bytes → Call
  avplay_get_dmx_chn : (avplay : ℕ) → Channel → Call
  dmx_attach_descrambler dmx_detach_descrambler : (key chn : ℕ) → Call
  dmx_destroy_descrambler : (key : ℕ) → Call
  avplay_play_prog : (avplay table index : ℕ) → Call
  avplay_stop : (avplay : ℕ) → Call
  avplay_set_decode_mode : (avplay : ℕ) → DecodeMode → Call
  avplay_reset avplay_tplay avplay_resume avplay_is_buff_empty : (avplay : ℕ) → Call
  snd_set_volume : (volume : ℕ) → Call
  vo_get_window_attr : (win : ℕ) → Call
  vo_set_window_attr : (win : ℕ) (x y width height : ℤ) → Call
  read_xml_setting : (name : Bytes) → Call

-- PMT_COMPACT_TBL: which allocation it is, and the ProgID of each of its prog_num programs.
pub record ProgTbl : Type 0 where
  pub id : ℕ
  pub prog_ids : List ℕ

-- What the SDK answers to a call, given the calls before it, the latest first.
pub record Board : Type 0 where
  pub code : List Call → Call → ℤ
  -- What a call stores in its out-parameter (a handle or a flag); `none` if it stores nothing.
  pub output : List Call → Call → Option ℕ
  -- The table that `HIADP_Search_GetAllPmt` stores in `g_pProgTbl`; `none` if it stores nothing.
  pub table : List Call → Option ProgTbl
  -- The text that `Read_Xml_Setting` leaves in its buffer.
  pub setting : List Call → Bytes → Bytes

-- The globals, and the calls made so far, the latest first. `is_scramble` is
-- `g_isScramble == HI_SUCCESS`.
pub record Dvb : Type 0 where
  pub tuner_freq : ℕ
  pub tuner_srate : ℕ
  pub tuner_qam : ℕ
  pub prog_tbl : Option ProgTbl
  pub key : ℕ
  pub aud_chn : ℕ
  pub vid_chn : ℕ
  pub is_scramble : Bool
  pub calls : List Call

abbrev pub M : Type 0 → Type 0
M A = Dvb → A × Dvb

abbrev pub pure : {A : Type 0} → A → M A
pure a s = (a, s)

infixl 5 ◌>>=◌ ◌>>◌
abbrev pub ◌>>=◌ : {A B : Type 0} → M A → (A → M B) → M B
◌>>=◌ m f s = let (a, t) = m s in f a t

abbrev pub ◌>>◌ : {A B : Type 0} → M A → M B → M B
m >> k = m >>= λ _. k

-- `if (test) body;`
abbrev pub when : {A : Type 0} → Bool → M A → M (Unit {0})
when true m s = (tt, (m s).1)
when false m s = (tt, s)

abbrev pub modify : (Dvb → Dvb) → M (Unit {0})
modify f s = (tt, f s)

abbrev pub or_else : Option ℕ → ℕ → ℕ
or_else none old = old
or_else (some v) old = v

module _ (board : Board) where
  -- One call: its return code, and the call on the log.
  abbrev pub call : Call → M ℤ
  call c s = (board.code s.calls c, record s { calls = c ∷ s.calls })

  -- A call that also leaves a value in its out-parameter.
  -- `old` is what the variable held before.
  abbrev pub call_out : Call → ℕ → M (ℤ × ℕ)
  call_out c old s = (
    (board.code s.calls c, or_else (board.output s.calls c) old),
    record s { calls = c ∷ s.calls },
  )

abbrev pub hi_success : ℤ
hi_success = pos 0

abbrev pub hi_failure : ℤ
hi_failure = ℤ.negsuc 0
