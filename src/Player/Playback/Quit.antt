-- ===== src/Player/Playback/Quit.antt =====
-- How a playback of `main_vod_player` ends on the message STREAMMEDIAPLAYER_QUIT.
use snmediaplayer_new.Common.{
  ℕ, zero, suc, ◌+◌, ◌≤◌, ◌<◌, ◌≡◌, refl, ◌∙◌, subst, sym, true, false, Option, none, some, List,
  [], ◌∷◌, length, length-append, arith,
}
use snmediaplayer_new.Common.Int.{ℤ}
use snmediaplayer_new.Common.Decimal.Size.{length-print-le}
use snmediaplayer_new.Tsplayer.State.{Call, Dvb}
use snmediaplayer_new.Tsplayer.Search.{free_table}
use snmediaplayer_new.Tsplayer.Close.{dvbplay_stop, close_descramble}
use snmediaplayer_new.Tsplayer.Tables.{freed, held}
use snmediaplayer_new.Rtsp.State.{Net, Client}
use snmediaplayer_new.Rtsp.Wire.{put_tx, send_command}
use snmediaplayer_new.Rtsp.Request.{
  SetupType, setup_sdv, setup_vod, setup_tvs, setup_tvod, no_setup, concat, request, teardown_parts,
}
use snmediaplayer_new.Rtsp.Vcr.{rtsp_teardown}
use snmediaplayer_new.Rtsp.Connect.{destroy_connection}
use snmediaplayer_new.Player.State.{
  Message, msg_quit, goto_cleanup, event_player_exit_vod, Player, World, M, on_streaming,
}
use snmediaplayer_new.Player.Network.{network_release, ss_keep_alive_end}
use snmediaplayer_new.Rtsp.Setup.{has_control}
use snmediaplayer_new.Player.Queue.{rcvfrom_mediaplayermsg}
use snmediaplayer_new.Player.Messages.{
  ret_player_quit, process_common_msg, common_command, dispatch_msg, process_unicast_msg,
  unicast_command, process_tvod_msg,
}
use snmediaplayer_new.Player.Vcr.{Quiet, settled, Quiet-command}
use snmediaplayer_new.Player.After.{Ends, Ends-bind, Ends-alive, bind_eq}
use snmediaplayer_new.Player.Playback.{
  Label, in_loop, cleanup, finished, notify, ms_keep_alive_end, teardown_if_setup,
}
use snmediaplayer_new.Player.Playback.Vod.{Locals, end_license, vod_cleanup, vod_next, vod_step}

-- The ids fit their arrays, and the sequence number is of 32 bits.
abbrev pub CanTearDown : Client → Type 0
CanTearDown c =
    (length c.session_id ≤ 31) × (length c.global_session_id ≤ 31) × (c.cseq_tx < 4294967296)

teardown_parts-Fits : (c : Client) → CanTearDown c → length (concat (teardown_parts c)) < 3000
unfolding teardown_parts
teardown_parts-Fits c h = omega (arith, length-append {0}, length-print-le)

abbrev pub Returns : {A : Type 0} → Option A → Type 0
Returns none = ⊥
Returns (some a) = Unit

pub teardown-Returns : (net : Net) (c : Client) → CanTearDown c → Returns (rtsp_teardown net c)
unfolding rtsp_teardown request put_tx send_command
teardown-Returns net c h = grind (arith, teardown_parts-Fits)

-- What the cleanup needs of the player: the clients, the heartbeats of the media server, and a session
-- that can be torn down.
abbrev pub CanEnd : Player → Type 0
CanEnd p = (p.freed ≡ false) × (p.ms_thread ≡ true) × CanTearDown p.session

abbrev TheSame : Player → {A : Type 0} → A → Player → Type 0
TheSame p a q =
    (q.freed ≡ p.freed)
    × (q.ms_thread ≡ p.ms_thread)
    × (q.session ≡ p.session)
    × (q.havplay ≡ p.havplay)
    × (q.trick_ok_flag ≡ p.trick_ok_flag)
    × (q.dvb ≡ p.dvb)

abbrev pub latest : List Call → Option Call
latest [] = none
latest (c ∷ calls) = some c

-- The thread is marked as ended, the waiting caller released, the clients deleted, the program table
-- that was held freed, once, and the decoder stopped by the last call of the SDK.
abbrev pub Ended : ℕ → Dvb → Label → Player → Type 0
Ended avplay d l q =
    (l ≡ finished)
    × (q.mediaplayer_thread ≡ false)
    × (q.trick_ok_flag ≡ true)
    × (q.freed ≡ true)
    × (q.dvb.prog_tbl ≡ none)
    × ((k : ℕ) → freed k q.dvb.calls ≡ freed k d.calls + held k d.prog_tbl)
    × (latest q.dvb.calls ≡ some (Call.avplay_stop avplay))

abbrev Released : ℕ → Dvb → {A : Type 0} → A → Player → Type 0
Released avplay d a q =
    (q.freed ≡ false) × (q.havplay ≡ avplay) × (q.trick_ok_flag ≡ true) × (q.dvb ≡ d)

module _ (world : World) where
  end_license-TheSame :
      (scramble : ℤ) (p : Player) → Ends (TheSame p) (end_license world scramble p)
  unfolding end_license
  end_license-TheSame scramble p = ground arith

  ss_end-TheSame : (p : Player) → Ends (TheSame p) (ss_keep_alive_end world p)
  unfolding ss_keep_alive_end
  ss_end-TheSame p = ground arith

  ms_end-CanEnd :
      (p : Player)
      → p.ms_thread ≡ true
      → Ends
          (λ _ q.
            (q.freed ≡ p.freed)
            × (q.session ≡ p.session)
            × (q.havplay ≡ p.havplay)
            × (q.trick_ok_flag ≡ p.trick_ok_flag)
            × (q.dvb ≡ p.dvb))
          (ms_keep_alive_end world p)
  unfolding ms_keep_alive_end
  ms_end-CanEnd p t = ground arith

  destroy-TheSame :
      (p : Player) → Ends (TheSame p) (on_streaming (destroy_connection world.streaming_net) p)
  unfolding destroy_connection
  destroy-TheSame p = ground arith

  teardown-Released :
      (avplay : ℕ) (d : Dvb) (p : Player)
      → CanTearDown p.session
      → Released avplay d tt p
      → Ends (Released avplay d) (teardown_if_setup world p)
  unfolding teardown_if_setup
  teardown-Released avplay d p h k = grind (arith, teardown-Returns)

  release-Ends :
      (avplay : ℕ) (d : Dvb) (p : Player)
      → Released avplay d tt p
      → Ends
          (λ _ q. (q.freed ≡ true) × (q.havplay ≡ avplay) × (q.trick_ok_flag ≡ true) × (q.dvb ≡ d))
          (network_release p)
  unfolding network_release
  release-Ends avplay d p k = Ends-alive _ p _ k.0 (refl, k.1, k.2, k.3)

  stopped :
      (avplay : ℕ) (d : Dvb)
      → let s = (dvbplay_stop world.board avplay d).1 in
        (s.prog_tbl ≡ none)
        × ((k : ℕ) → freed k s.calls ≡ freed k d.calls + held k d.prog_tbl)
        × (latest s.calls ≡ some (Call.avplay_stop avplay))
  unfolding dvbplay_stop close_descramble free_table
  stopped avplay d = ground arith

  last-Ended :
      (avplay : ℕ) (p : Player)
      → p.freed ≡ true
      → p.havplay ≡ avplay
      → p.trick_ok_flag ≡ true
      → Ended avplay p.dvb finished (
          notify event_player_exit_vod (record p {
            if_sm_setup = false;
            dvb = (dvbplay_stop world.board p.havplay p.dvb).1;
            mediaplayer_thread = false;
          }))
  last-Ended avplay p f a t = grind (arith, stopped)

  cleanup-Ended :
      (scramble : ℤ) (p : Player)
      → CanEnd p
      → Ends (Ended p.havplay p.dvb) (vod_cleanup world scramble p)
  unfolding vod_cleanup
  cleanup-Ended scramble p h =
      Ends-bind P (end_license world scramble p1) _ (end_license-TheSame scramble p1) (λ _ q k.
        Ends-bind P (ss_keep_alive_end world q) _ (ss_end-TheSame q) (λ _ q1 k1.
          Ends-bind P (ms_keep_alive_end world q1) _ (ms_end-CanEnd q1 (k1.1 ∙ k.1 ∙ h.1))
            (λ _ q2 k2.
              Ends-bind P (on_streaming (destroy_connection world.streaming_net) q2) _
                (destroy-TheSame q2)
                (λ _ q3 k3.
                  Ends-bind P (teardown_if_setup world q3) _
                    (teardown-Released p.havplay p.dvb q3
                      (subst CanTearDown (sym (k3.2 ∙ k2.1 ∙ k1.2 ∙ k.2)) h.2)
                      (
                        k3.0 ∙ k2.0 ∙ k1.0 ∙ k.0 ∙ h.0,
                        k3.3 ∙ k2.2 ∙ k1.3 ∙ k.3,
                        k3.4 ∙ k2.3 ∙ k1.4 ∙ k.4,
                        k3.5 ∙ k2.4 ∙ k1.5 ∙ k.5,
                      ))
                    (λ _ q4 k4.
                      Ends-bind P (network_release q4) _ (release-Ends p.havplay p.dvb q4 k4)
                        (λ _ q5 k5.
                          subst (λ d. Ended p.havplay d finished (last q5)) k5.3
                            (last-Ended p.havplay q5 k5.0 k5.1 k5.2)))))))
    where
      P : Label → Player → Type 0
      P = Ended p.havplay p.dvb

      p1 : Player
      p1 = record p { trick_ok_flag = true }

      last : Player → Player
      last q = notify event_player_exit_vod (record q {
        if_sm_setup = false;
        dvb = (dvbplay_stop world.board q.havplay q.dvb).1;
        mediaplayer_thread = false;
      })

  -- So many steps of the playback.
  unfoldable pub vod_run : ℕ → ℕ → Label → Locals → M (Label × Locals)
  vod_run rounds zero l v p = some ((l, v), p)
  vod_run rounds (suc n) l v p = elim (vod_step world rounds l v p) [
    | none ↦ none
    | some ((m, w), q) ↦ vod_run rounds n m w q
  ]

  abbrev quitting : List Message → Player → Player
  quitting rest p = record (settled world 0 (record p { queue = rest })) {
    rt_value = ret_player_quit;
  }

  pub media_dispatch :
      (rounds : ℕ) (s : SetupType) (cmd : Message) (p : Player)
      → has_control s ≡ true
      → dispatch_msg world rounds s cmd p ≡ process_unicast_msg world rounds cmd p
  unfolding dispatch_msg
  media_dispatch rounds setup_vod cmd p m = refl
  media_dispatch rounds setup_tvs cmd p m = refl
  media_dispatch rounds setup_tvod cmd p m = refl
  media_dispatch rounds setup_sdv cmd p m = absurd (ground arith)
  media_dispatch rounds no_setup cmd p m = absurd (ground arith)

  quit_message :
      (rounds : ℕ) (rest : List Message) (p : Player)
      → Quiet world rounds (record p { queue = rest })
      → has_control p.setup_type ≡ true
      → process_tvod_msg world rounds (record p { queue = msg_quit ∷ rest })
        ≡ some (goto_cleanup, quitting rest p)
  unfolding process_tvod_msg process_common_msg rcvfrom_mediaplayermsg common_command
      unicast_command
  quit_message rounds rest p u m =
      media_dispatch rounds p.setup_type msg_quit (record p { queue = rest }) m
      ∙ Quiet-command world rounds msg_quit (record p { queue = rest }) u

  quit_round :
      (rounds : ℕ) (v : Locals) (rest : List Message) (p : Player)
      → Quiet world rounds (record p { queue = rest })
      → has_control p.setup_type ≡ true
      → vod_step world rounds in_loop v (record p { queue = msg_quit ∷ rest })
        ≡ some ((cleanup, v), quitting rest p)
  unfolding vod_step vod_next
  quit_round rounds v rest p u m =
      bind_eq (process_tvod_msg world rounds) (vod_next world v) _ _ goto_cleanup
        (quit_message rounds rest p u m)

  cleanup_round :
      (rounds : ℕ) (v : Locals) (p : Player)
      → CanEnd p
      → Ends (λ r q. Ended p.havplay p.dvb r.0 q) (vod_run rounds 1 cleanup v p)
  unfolding vod_run vod_step
  cleanup_round rounds v p h =
      Ends-bind (λ r q. Ended p.havplay p.dvb r.0 q) (vod_step world rounds cleanup v p) _
        (Ends-bind (λ r q. Ended p.havplay p.dvb r.0 q) (vod_cleanup world v.scramble p) _
          (cleanup-Ended v.scramble p h) (λ l q e. e))
        (λ r q e. e)

  -- If nothing is pending that replaces it, the message STREAMMEDIAPLAYER_QUIT ends the playback of a
  -- film after the round that takes it and the cleanup, and without undefined behaviour if the clients
  -- exist, the heartbeats of the media server run, and the ids of the session fit: the thread is then
  -- marked as ended, the waiting caller released, the clients deleted, the program table
  -- that was held freed, once, and no other, and the decoder stopped by the last call of the SDK.
  pub quit-Ended :
      (rounds : ℕ) (v : Locals) (rest : List Message) (p : Player)
      → Quiet world rounds (record p { queue = rest })
      → has_control p.setup_type ≡ true
      → CanEnd p
      → Ends
          (λ r q. Ended p.havplay p.dvb r.0 q)
          (vod_run rounds 2 in_loop v (record p { queue = msg_quit ∷ rest }))
  unfolding vod_run
  quit-Ended rounds v rest p u m h =
      rw (vod_run, quit_round rounds v rest p u m) (cleanup_round rounds v (quitting rest p) h)
