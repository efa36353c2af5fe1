-- ===== src/Player/Playback.antt =====
-- What the two playbacks share: the places in `main_stream_player` and `main_vod_player`, the jumps
-- between them, the steps in front of the main loop, and the end of the thread.
pub mod Live
pub mod Begin
pub mod Vod
pub mod Keeps
pub mod Reach
pub mod Tables
pub mod LiveReach
pub mod Quit
pub mod Lost
use snmediaplayer_new.Common.{
  ℕ, zero, suc, Bool, true, false, ◌&&◌, Option, none, some, [], ◌∷◌, ◌++◌, if◌then◌else◌, ◌==◌,
}
use snmediaplayer_new.Common.Int.{ℤ, pos, negsuc, is_zero, to_u32}
use snmediaplayer_new.Tsplayer.Init.{dvbplay_tune}
use snmediaplayer_new.Tsplayer.Search.{dvbplay_search}
use snmediaplayer_new.Tsplayer.Control.{dvbplay_setvolume}
use snmediaplayer_new.Rtsp.State.{player_none}
use snmediaplayer_new.Rtsp.Vcr.{rtsp_teardown}
use snmediaplayer_new.Player.State.{
  Event, Goto, goto_none, goto_rstart, goto_mainloop, goto_cleanup, Player, World, M, pure, ◌>>=◌,
  ◌>>◌, modify, on_session, on_dvb, try_dvb,
}
use snmediaplayer_new.Player.Queue.{player_recv_stop_key}

-- The labels, the body of `while(1)`, and the end of the thread.
pub data Label : Type 0 where
  restart main_loop in_loop cleanup finished : Label

-- PROCESS_MSG_RESULT in the loop.
abbrev pub process_msg_result : Goto → Label
process_msg_result goto_rstart = restart
process_msg_result goto_mainloop = main_loop
process_msg_result goto_cleanup = cleanup
process_msg_result goto_none = in_loop

-- `if (real_playstate_func) (*real_playstate_func)(real_mpobject, event, …);`
abbrev pub notify : Event → Player → Player
notify event p = if p.has_callback then record p { events = p.events ++ (event ∷ []) } else p

-- The end of the thread, with EVENT_PLAYER_EXIT.
abbrev pub exit_thread : Event → M Label
exit_thread event p = some (finished, notify event (record p { mediaplayer_thread = false }))

abbrev pub max_search_retry_times : ℕ
max_search_retry_times = 100

module _ (world : World) where
  -- `ms_keep_alive_end`: cancelling a thread that does not run is undefined.
  unfoldable pub ms_keep_alive_end : M ℤ
  ms_keep_alive_end p =
      if p.ms_thread
      then if is_zero world.cancel_code && is_zero world.join_code
        then some (
          pos 0,
          record p {
            ms_thread = false;
            streaming = record p.streaming { player_status = player_none };
          },
        )
        else some (negsuc 0, p)
      else none

  -- `if(if_sm_setup) rtsp_session_server->rtspTEARDOWN();`
  unfoldable pub teardown_if_setup : M (Unit {0})
  teardown_if_setup p =
      if p.if_sm_setup
      then (do on_session (rtsp_teardown world.session_net); pure tt) p
      else some (tt, p)

  -- The frequency that is tuned; whether to go on.
  unfoldable pub tuned : ℤ → M Bool
  tuned ret p =
      if is_zero ret
      then some (true, record p { cur_freq = p.session.play_param.frequency })
      else some (false, p)

  unfoldable pub tune_program : M Bool
  tune_program p =
      if p.cur_freq == p.session.play_param.frequency
      then some (true, p)
      else (do ret ← on_dvb (dvbplay_tune world.board p.session.play_param.frequency); tuned ret) p

  -- The loop over `DSP_DVBplay_search`, with the `ret` of the search before.
  unfoldable pub search_loop : ℕ → ℤ → M ℤ
  search_loop zero ret p = some (ret, p)
  search_loop (suc n) ret0 p =
      elim (try_dvb (dvbplay_search world.board p.session.play_param.pn_id) p) [
        | none ↦ none
        | some (ret, q) ↦ elim (is_zero ret) [
          | true ↦ some (ret, q)
          | false ↦ elim (player_recv_stop_key q) [
            | none ↦ none
            | some (stop, r) ↦ elim stop [ true ↦ some (ret, r) | false ↦ search_loop n ret r ]
          ]
        ]
      ]

  unfoldable pub search_program : M ℤ
  search_program = search_loop max_search_retry_times (pos 0)

  unfoldable pub start_volume : M ℤ
  start_volume p =
      on_dvb (dvbplay_setvolume world.board (if p.real_muteflag then 0 else to_u32 p.real_volume)) p
