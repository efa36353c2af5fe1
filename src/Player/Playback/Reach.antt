-- ===== src/Player/Playback/Reach.antt =====
-- The playback of `main_vod_player` from its main loop on, with the steps of the other threads
-- between its own: those that call the player's methods, and the keep-alive threads.
use snmediaplayer_new.Common.{ℕ, ◌≡◌, refl, ap, ◌∙◌, subst, true, false, none, some, arith}
use snmediaplayer_new.Common.Int.{ℤ}
use snmediaplayer_new.Common.Text.{Bytes}
use snmediaplayer_new.Rtsp.Request.{SetupType}
use snmediaplayer_new.Tsplayer.State.{Dvb}
use snmediaplayer_new.Tsplayer.Search.{free_table}
use snmediaplayer_new.Tsplayer.Close.{dvbplay_stop, close_descramble}
use snmediaplayer_new.Rtsp.State.{Client}
use snmediaplayer_new.Rtsp.Connect.{destroy_connection}
use snmediaplayer_new.Player.State.{
  Message, PauseIntoTvs, pause_init, preinit, StreamType, event_player_exit_vod, Goto, Player,
  World, alive, on_streaming,
}
use snmediaplayer_new.Player.Queue.{sendto_mediaplayermsg}
use snmediaplayer_new.Player.Network.{network_release, ss_keep_alive_end}
use snmediaplayer_new.Player.Messages.{process_tvod_msg}
use snmediaplayer_new.Player.After.{Gives, Gives-bind, Gives-then}
use snmediaplayer_new.Player.Pts.{take_pts, update_play_pts}
use snmediaplayer_new.Player.Playback.{
  Label, restart, main_loop, in_loop, cleanup, finished, notify, ms_keep_alive_end,
  teardown_if_setup,
}
use snmediaplayer_new.Player.Playback.Vod.{
  Locals, end_license, vod_cleanup, check_stream, vod_next, vod_step,
}
use snmediaplayer_new.Player.Playback.Keeps.{process_tvod_msg-Keeps}

-- A step of another thread: a message, what the methods of the player write beside a thread that runs
-- (`playFromStart`, and `joinChannel` and `setSingleMedia` with the parsers, included), and what the
-- keep-alive threads write. The clients are written by their keep-alive threads only while these
-- run, which the step leaves open.
pub data Other (world : World) : Player → Player → Type 0 where
  sends :
      {p q : Player} {r : ℤ} (cmd : Message)
      → sendto_mediaplayermsg world cmd p ≡ some (r, q)
      → Other world p q
  waits : {p : Player} → Other world p (record p { trick_ok_flag = false })
  pauses : {p : Player} (s : PauseIntoTvs) → Other world p (record p { pause_into_tvs = s })
  rewinds : {p : Player} → Other world p (record p { backward_into_tvs = true })
  plays_again :
      {p : Player}
      → Other world p (record p {
        trans_time = 0;
        pause_into_tvs = pause_init;
        backward_into_tvs = false;
        if_sm_setup = false;
        playerstate = preinit;
      })
  sets_media :
      {p : Player} (json : Bytes) (id : ℤ) (type : SetupType) (service : StreamType)
      (start stop : ℕ) (s : PauseIntoTvs)
      → Other world p (record p {
        real_json_str = json;
        channel = id;
        setup_type = type;
        stype = service;
        media_start_time = start;
        media_stop_time = stop;
        pause_into_tvs = s;
      })
  sets_speed : {p : Player} (v : ℤ) → Other world p (record p { playspeed = v })
  sets_volume : {p : Player} (v : ℤ) → Other world p (record p { volumesize = v; real_volume = v })
  session_thread : {p : Player} (c : Client) → Other world p (record p { session = c })
  streaming_thread : {p : Player} (c : Client) → Other world p (record p { streaming = c })

-- What is reached from a label with the locals.
pub data Reach (world : World) (rounds : ℕ)
    : Label → Locals → Player → Label → Locals → Player → Type 0 where
  stays : {l : Label} {v : Locals} {p : Player} → Reach world rounds l v p l v p
  runs :
      {l l' l'' : Label} {v v' v'' : Locals} {p p' p'' : Player}
      → Reach world rounds l v p l' v' p'
      → vod_step world rounds l' v' p' ≡ some ((l'', v''), p'')
      → Reach world rounds l v p l'' v'' p''
  others :
      {l l' : Label} {v v' : Locals} {p p' p'' : Player}
      → Reach world rounds l v p l' v' p'
      → Other world p' p''
      → Reach world rounds l v p l' v' p''

-- Behind the cleanup the clients are deleted, the session is marked as ended, and the program table is
-- given up. Before it, the clients are there. The mark of the thread says which.
abbrev pub Inv : Label → Player → Type 0
Inv finished p =
    (p.freed ≡ true)
    × (p.mediaplayer_thread ≡ false)
    × (p.if_sm_setup ≡ false)
    × (p.dvb.prog_tbl ≡ none)
Inv _ p = (p.freed ≡ false) × (p.mediaplayer_thread ≡ true)

module _ (world : World) where
  -- No other thread deletes the clients or ends the playback.
  abbrev pub Same : Player → Player → Type 0
  Same p q =
      (q.freed ≡ p.freed)
      × (q.mediaplayer_thread ≡ p.mediaplayer_thread)
      × (p.if_sm_setup ≡ false → q.if_sm_setup ≡ false)
      × (q.dvb ≡ p.dvb)

  sent-Same :
      (cmd : Message) (p : Player) → Gives (λ _ q. Same p q) (sendto_mediaplayermsg world cmd p)
  unfolding sendto_mediaplayermsg
  sent-Same cmd p = ground arith

  pub Other-Same : {p q : Player} → Other world p q → Same p q
  Other-Same {p} (sends cmd e) = subst (Gives (λ _ q. Same p q)) e (sent-Same cmd p)
  Other-Same waits = (refl, refl, λ h. h, refl)
  Other-Same plays_again = (refl, refl, λ h. refl, refl)
  Other-Same (sets_media json id type service start stop s) = (refl, refl, λ h. h, refl)
  Other-Same (pauses s) = (refl, refl, λ h. h, refl)
  Other-Same rewinds = (refl, refl, λ h. h, refl)
  Other-Same (sets_speed v) = (refl, refl, λ h. h, refl)
  Other-Same (sets_volume v) = (refl, refl, λ h. h, refl)
  Other-Same (session_thread c) = (refl, refl, λ h. h, refl)
  Other-Same (streaming_thread c) = (refl, refl, λ h. h, refl)

  Same-Inv : (l : Label) (p q : Player) → Same p q → Inv l p → Inv l q
  Same-Inv finished p q s i = (s.0 ∙ i.0, s.1 ∙ i.1, s.2 (i.2), ap (λ d. d.prog_tbl) s.3 ∙ i.3)
  Same-Inv restart p q s i = (s.0 ∙ i.0, s.1 ∙ i.1)
  Same-Inv main_loop p q s i = (s.0 ∙ i.0, s.1 ∙ i.1)
  Same-Inv in_loop p q s i = (s.0 ∙ i.0, s.1 ∙ i.1)
  Same-Inv cleanup p q s i = (s.0 ∙ i.0, s.1 ∙ i.1)

  stop-table : (avplay : ℕ) (d : Dvb) → (dvbplay_stop world.board avplay d).1.prog_tbl ≡ none
  unfolding dvbplay_stop close_descramble free_table
  stop-table avplay d = ground arith

  released : (p : Player) → Gives (λ _ q. q.freed ≡ true) (network_release p)
  unfolding network_release
  released p = Gives-then (λ _ q. q.freed ≡ true) (alive p) _ (λ _ q. refl)

  last-Inv :
      (p : Player)
      → p.freed ≡ true
      → Inv finished (
          notify event_player_exit_vod (record p {
            if_sm_setup = false;
            dvb = (dvbplay_stop world.board p.havplay p.dvb).1;
            mediaplayer_thread = false;
          }))
  last-Inv p a = grind (arith, stop-table)

  cleanup-Inv : (scramble : ℤ) (p : Player) → Gives Inv (vod_cleanup world scramble p)
  unfolding vod_cleanup
  cleanup-Inv scramble p =
      Gives-then Inv (end_license world scramble (record p { trick_ok_flag = true })) _ (λ _ q1.
        Gives-then Inv (ss_keep_alive_end world q1) _ (λ _ q2.
          Gives-then Inv (ms_keep_alive_end world q2) _ (λ _ q3.
            Gives-then Inv (on_streaming (destroy_connection world.streaming_net) q3) _ (λ _ q4.
              Gives-then Inv (teardown_if_setup world q4) _ (λ _ q5.
                Gives-bind Inv (network_release q5) _ (released q5) (λ _ q h. last-Inv q h))))))

  check-Inv :
      (v : Locals) (p : Player) → Inv in_loop p → Gives (λ r q. Inv r.0 q) (check_stream world v p)
  unfolding check_stream update_play_pts take_pts
  check-Inv v p i = ground arith

  next-Inv :
      (v : Locals) (g : Goto) (p : Player)
      → Inv in_loop p
      → Gives (λ r q. Inv r.0 q) (vod_next world v g p)
  unfolding vod_next
  next-Inv v g p i = grind (arith, check-Inv)

  step-Inv :
      (rounds : ℕ) (l : Label) (v : Locals) (p : Player)
      → Inv l p
      → Gives (λ r q. Inv r.0 q) (vod_step world rounds l v p)
  unfolding vod_step
  step-Inv rounds restart v p i = ground arith
  step-Inv rounds main_loop v p i = ground arith
  step-Inv rounds in_loop v p i =
      Gives-bind (λ r q. Inv r.0 q) (process_tvod_msg world rounds p) (vod_next world v)
        (process_tvod_msg-Keeps world rounds p i.0) (λ g q k. next-Inv v g q (k.0, k.1 ∙ i.1))
  step-Inv rounds cleanup v p i =
      Gives-bind (λ r q. Inv r.0 q) (vod_cleanup world v.scramble p) _ (cleanup-Inv v.scramble p)
        (λ l q k. k)
  step-Inv rounds finished v p i = i

-- From the main loop of a film on, whatever messages and writes of `Other` come in between, the clients
-- exist and the thread is marked as running until the cleanup is done; then the clients are deleted,
-- the session is marked as ended, no program table is held any more, and the thread is marked as ended.
pub vod-Reach-Inv :
    {world : World} {rounds : ℕ} {l l' : Label} {v v' : Locals} {p p' : Player}
    → Reach world rounds l v p l' v' p'
    → Inv l p
    → Inv l' p'
vod-Reach-Inv stays i = i
vod-Reach-Inv {world} {rounds} {l} {l'} {v} {v'} {p} {p'} (runs {l' = m} {v' = w} {p' = q} r e) i =
    subst (Gives (λ r q. Inv r.0 q)) e (step-Inv world rounds m w q (vod-Reach-Inv r i))
vod-Reach-Inv {world} {rounds} {l} {l'} {v} {v'} {p} {p'} (others {p' = q} r o) i =
    Same-Inv world l' q p' (Other-Same world o) (vod-Reach-Inv r i)
