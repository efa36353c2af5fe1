-- ===== src/Player/State.antt =====
-- class StreamMediaPlayer: the fields that the modelled methods use, the message queue, and the monad
-- of the methods. The clients of the two servers and the globals of tsplayer.c are parts of the state.
use snmediaplayer_new.Common.{ℕ, Bool, true, false, Option, none, some, List, ◌∷◌, if◌then◌else◌}
use snmediaplayer_new.Common.Int.{ℤ}
use snmediaplayer_new.Common.Text.{Bytes}
use snmediaplayer_new.Tsplayer.State.{Board, Dvb}
use snmediaplayer_new.Rtsp.State.{Net, Client}
use snmediaplayer_new.Rtsp.Request.{SetupType}

-- MediaPlayCMD.
pub data Message : Type 0 where
  msg_none msg_urlchange msg_volumechange msg_volumemute msg_play msg_pause : Message
  msg_fastforward msg_fastbackward msg_seek msg_realtimetv msg_quit : Message

-- play_state.
pub data PlayState : Type 0 where
  preinit stopped paused playing fastforward fastbackward : PlayState
  buffering waitforsession itemfinish preparenew ready reconnect : PlayState

-- PLAYERProcess_cmd_goto.
pub data Goto : Type 0 where
  goto_none goto_rstart goto_mainloop goto_cleanup : Goto

-- PAUSE_INIT, PAUSE_TRIG and PAUSE_OTHERS.
pub data PauseIntoTvs : Type 0 where
  pause_init pause_trig pause_others : PauseIntoTvs

-- The events that `real_playstate_func` is called with: EVENT_PLAYER_EXIT with the text `''vod` or
-- with none, and the two ends of a stream.
pub data Event : Type 0 where
  event_begin_of_stream event_load_finish_and_play : Event
  event_player_exit event_player_exit_vod : Event
  rtsp_status_end_of_stream udp_status_end_of_stream : Event

-- StreamType.
pub data StreamType : Type 0 where
  media_tvplay media_vodplay : StreamType

-- The calls on the licence file and of the DRM library, the bytes that are written included.
pub data DrmCall : Type 0 where
  open_license close_license remove_license chmod_license : DrmCall
  write_license : Bytes → DrmCall
  drmc_init drmc_preprocess drmc_get_film_sec_info : DrmCall
  drmc_decrease_count drmc_terminate : DrmCall

-- What the IPC library of the gateway answers: whether its client is online, the return codes of
-- sending and of receiving a message, and the words of the message received, by the words sent.
pub record Gateway : Type 0 where
  pub online : Bool
  pub send_code : List ℕ → ℤ
  pub receive_code : List ℕ → ℤ
  pub reply : List ℕ → ℕ × ℕ × ℕ

-- What the DRM calls answer, given the calls before, the latest first. `sec_info` is what
-- `DRMCFuncGetFilmSecInfo` stores: the mode and the key.
pub record Drm : Type 0 where
  pub code : List DrmCall → DrmCall → ℤ
  pub sec_info : List DrmCall → ℤ × Bytes

-- `queue` is the message queue, the oldest message first; `freed` says that the clients have been
-- deleted; `creations` counts the calls of `pthread_create`; `ss_thread`, `ms_thread`
-- and `mediaplayer_thread` say that the id is not 0; `status_infos` counts the calls of
-- `HI_UNF_AVPLAY_GetStatusInfo`, and `drm_calls` has the DRM calls, the latest first.
pub record Player : Type 0 where
  pub session : Client
  pub streaming : Client
  pub freed : Bool
  pub dvb : Dvb
  pub havplay : ℕ
  pub queue : List Message
  pub setup_type : SetupType
  pub playerstate : PlayState
  pub pause_into_tvs : PauseIntoTvs
  pub backward_into_tvs : Bool
  pub trick_ok_flag : Bool
  pub rt_value : ℕ
  pub mspeed : ℤ
  pub playspeed : ℤ
  pub trans_time : ℕ
  pub volumesize : ℤ
  pub real_volume : ℤ
  pub if_multicast : Bool
  pub has_callback : Bool
  pub events : List Event
  pub if_sm_setup : Bool
  pub status_network : ℤ
  pub ss_thread : Bool
  pub ms_thread : Bool
  pub creations : ℕ
  pub media_start_time : ℕ
  pub media_stop_time : ℕ
  pub real_json_str : Bytes
  pub channel : ℤ
  pub status_decoder : Bool
  pub mediaplayer_thread : Bool
  pub stype : StreamType
  pub hwin : ℕ
  pub cur_freq : ℕ
  pub real_muteflag : Bool
  pub play_first_pts : ℕ
  pub play_last_pts : ℕ
  pub status_infos : ℕ
  pub drm_calls : List DrmCall

-- What is outside: the SDK, the networks of the two clients, the capacity of the message queue, the
-- return codes of `pthread_create` (by its count) and of `pthread_cancel` and `pthread_join`, the DRM
-- library, the gateway, and the first and the last PTS that `HI_UNF_AVPLAY_GetStatusInfo` stores (by its count;
-- `none` if it fails).
pub record World : Type 0 where
  pub board : Board
  pub session_net : Net
  pub streaming_net : Net
  pub capacity : ℕ
  pub create_code : ℕ → ℤ
  pub cancel_code : ℤ
  pub join_code : ℤ
  pub drm : Drm
  pub gateway : Gateway
  pub status_info : ℕ → Option (ℕ × ℕ)

-- A method: `none` is undefined behaviour.
abbrev pub M : Type 0 → Type 0
M A = Player → Option (A × Player)

abbrev pub pure : {A : Type 0} → A → M A
pure a p = some (a, p)

infixl 5 ◌>>=◌ ◌>>◌
abbrev pub ◌>>=◌ : {A B : Type 0} → M A → (A → M B) → M B
◌>>=◌ m f p = elim (m p) [ none ↦ none | some (a, q) ↦ f a q ]

abbrev pub ◌>>◌ : {A B : Type 0} → M A → M B → M B
m >> k = m >>= λ _. k

abbrev pub modify : (Player → Player) → M (Unit {0})
modify f p = some (tt, f p)

abbrev pub branch : {A : Type 0} → Bool → M A → M A → M A
branch true m k = m
branch false m k = k

-- The clients have not been deleted.
abbrev pub alive : M (Unit {0})
alive p = if p.freed then none else some (tt, p)

abbrev pub with_session : {A : Type 0} → Player → Option (A × Client) → Option (A × Player)
with_session p none = none
with_session p (some (a, c)) = some (a, record p { session = c })

abbrev pub with_streaming : {A : Type 0} → Player → Option (A × Client) → Option (A × Player)
with_streaming p none = none
with_streaming p (some (a, c)) = some (a, record p { streaming = c })

-- A method of `rtsp_session_server`, of `rtsp_streaming_server`, and a function of tsplayer.c.
abbrev pub on_session : {A : Type 0} → (Client → Option (A × Client)) → M A
on_session m p = with_session p (m p.session)

abbrev pub on_streaming : {A : Type 0} → (Client → Option (A × Client)) → M A
on_streaming m p = with_streaming p (m p.streaming)

abbrev pub on_dvb : {A : Type 0} → (Dvb → A × Dvb) → M A
on_dvb f p = let (a, d) = f p.dvb in some (a, record p { dvb = d })

-- A function of tsplayer.c that may read through a null pointer.
abbrev pub with_dvb : {A : Type 0} → Player → Option (A × Dvb) → Option (A × Player)
with_dvb p none = none
with_dvb p (some (a, d)) = some (a, record p { dvb = d })

abbrev pub try_dvb : {A : Type 0} → (Dvb → Option (A × Dvb)) → M A
try_dvb f p = with_dvb p (f p.dvb)

module _ (world : World) where
  -- A DRM call: its return code, and the call on the log.
  abbrev pub drm_call : DrmCall → M ℤ
  drm_call c p = some (world.drm.code p.drm_calls c, record p { drm_calls = c ∷ p.drm_calls })
