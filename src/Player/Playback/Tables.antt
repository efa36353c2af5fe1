-- ===== src/Player/Playback/Tables.antt =====
-- The program tables along a playback of a film.
use snmediaplayer_new.Common.{
  ℕ, ◌+◌, ◌≡◌, sym, ap, ◌∙◌, subst, Bool, Bool-cases, inl, inr, true, false, Option, none, some,
  if◌then◌else◌, arith,
}
use snmediaplayer_new.Common.Int.{ℤ}
use snmediaplayer_new.Tsplayer.State.{Dvb}
use snmediaplayer_new.Tsplayer.Control.{dvbplay_setvolume, dvbplay_tplay}
use snmediaplayer_new.Tsplayer.Close.{dvbplay_stop}
use snmediaplayer_new.Tsplayer.Tables.{
  freed, held, stored, IsBalanced, stop-IsBalanced, resume-IsBalanced, tplay-IsBalanced,
  setvolume-IsBalanced,
}
use snmediaplayer_new.Rtsp.State.{Client, PlayerStatus}
use snmediaplayer_new.Rtsp.Connect.{destroy_connection}
use snmediaplayer_new.Rtsp.Request.{SetupType}
use snmediaplayer_new.Player.State.{
  Message, msg_none, msg_urlchange, msg_volumechange, msg_volumemute, msg_seek, msg_realtimetv,
  msg_quit, msg_play, msg_pause, msg_fastforward, msg_fastbackward, PlayState, Goto, Player, World,
  alive, pure, goto_none, on_streaming, event_player_exit_vod,
}
use snmediaplayer_new.Player.Queue.{rcvfrom_mediaplayermsg}
use snmediaplayer_new.Player.Network.{network_init, network_release, ss_keep_alive_end}
use snmediaplayer_new.Player.Messages.{
  twice, resume_server, unicast_command, status_command, tvs_command, last_command, checked_command,
  process_unicast_msg, multicast_command, process_multicast_msg, common_command, process_common_msg,
  dispatch_msg, process_tvod_msg,
}
use snmediaplayer_new.Player.After.{Gives, Gives-bind}
use snmediaplayer_new.Player.Pts.{take_pts, update_play_pts}
use snmediaplayer_new.Player.Playback.{
  Label, restart, main_loop, in_loop, cleanup, finished, notify, ms_keep_alive_end,
  teardown_if_setup,
}
use snmediaplayer_new.Player.Playback.Vod.{
  Locals, end_license, vod_cleanup, check_stream, vod_next, vod_step,
}
use snmediaplayer_new.Player.Playback.Reach.{
  Reach, stays, runs, others, Inv, Other-Same, vod-Reach-Inv,
}

module _ (world : World) (rounds k : ℕ) where
  -- The table with the address `k` is freed as often as it was stored, but for the one that is held.
  abbrev pub Balanced : {A : Type 0} → A → Player → Type 0
  Balanced a p = IsBalanced world.board k p.dvb

  louder :
      (volume : ℕ) (d : Dvb)
      → IsBalanced world.board k d
      → IsBalanced world.board k (dvbplay_setvolume world.board volume d).1
  louder volume d h = setvolume-IsBalanced world.board k volume d h

  tricked :
      (avplay : ℕ) (d : Dvb)
      → IsBalanced world.board k d
      → IsBalanced world.board k (dvbplay_tplay world.board avplay d).1
  tricked avplay d h = tplay-IsBalanced world.board k avplay d h

  alive-Balanced : (p : Player) → Balanced tt p → Gives Balanced (alive p)
  alive-Balanced p a = ground arith

  twice-Balanced :
      (m : Client → Option (ℤ × Client)) (p : Player)
      → Balanced tt p
      → Gives Balanced (twice world m p)
  unfolding twice
  twice-Balanced m p a = ground arith

  resume_server-Balanced :
      (s : PlayState) (p : Player) → Balanced tt p → Gives Balanced (resume_server world s p)
  unfolding resume_server
  resume_server-Balanced s p a = grind (arith, twice-Balanced)

  unicast-Balanced :
      (cmd : Message) (p : Player)
      → Balanced tt p
      → Gives Balanced (unicast_command world rounds cmd p)
  unfolding unicast_command network_release network_init
  unicast-Balanced msg_pause p a = grind (arith, twice-Balanced, louder)
  unicast-Balanced msg_play p a = grind (arith, resume_server-Balanced, louder)
  unicast-Balanced msg_fastforward p a = grind (arith, twice-Balanced, louder)
  unicast-Balanced msg_fastbackward p a = grind (arith, twice-Balanced, louder)
  unicast-Balanced msg_none p a = a
  unicast-Balanced msg_urlchange p a = ground arith
  unicast-Balanced msg_volumechange p a = a
  unicast-Balanced msg_volumemute p a = a
  unicast-Balanced msg_seek p a = a
  unicast-Balanced msg_realtimetv p a = a
  unicast-Balanced msg_quit p a = a

  multicast-Balanced :
      (cmd : Message) (p : Player)
      → Balanced tt p
      → Gives Balanced (multicast_command world rounds cmd p)
  unfolding multicast_command network_release network_init
  multicast-Balanced msg_urlchange p a = ground arith
  multicast-Balanced msg_quit p a = a
  multicast-Balanced msg_none p a = a
  multicast-Balanced msg_volumechange p a = a
  multicast-Balanced msg_volumemute p a = a
  multicast-Balanced msg_play p a = a
  multicast-Balanced msg_pause p a = a
  multicast-Balanced msg_fastforward p a = a
  multicast-Balanced msg_fastbackward p a = a
  multicast-Balanced msg_seek p a = a
  multicast-Balanced msg_realtimetv p a = a

  status-Balanced :
      (s : PlayerStatus) (cmd : Message) (p : Player)
      → Balanced tt p
      → Gives Balanced (status_command world s cmd p)
  unfolding status_command
  status-Balanced s cmd p a = ground arith

  tvs-Balanced :
      (cmd : Message) (p : Player) → Balanced tt p → Gives Balanced (tvs_command world cmd p)
  unfolding tvs_command
  tvs-Balanced cmd p a = grind (arith, tricked)

  checked-Balanced :
      (cmd : Option Message) (p : Player)
      → Balanced tt p
      → Gives Balanced (checked_command world rounds cmd p)
  unfolding checked_command
  checked-Balanced none p a = a
  checked-Balanced (some cmd) p a =
      unicast-Balanced (last_command world cmd p) (record p { backward_into_tvs = false }) a

  common-Balanced : (p : Player) → Balanced tt p → Gives Balanced (process_common_msg world p)
  unfolding process_common_msg rcvfrom_mediaplayermsg common_command
  common-Balanced p a = grind (arith, louder)

  process_unicast-Balanced :
      (cmd : Message) (p : Player)
      → Balanced tt p
      → Gives Balanced (process_unicast_msg world rounds cmd p)
  unfolding process_unicast_msg
  process_unicast-Balanced cmd p a = Gives-bind Balanced (alive p) _ (alive-Balanced p a) (λ _ q0 b.
      Gives-bind Balanced (status_command world q0.streaming.player_status cmd q0) _
        (status-Balanced q0.streaming.player_status cmd q0 b)
        (λ cmd1 q k.
          Gives-bind Balanced (tvs_command world cmd1 q) (checked_command world rounds)
            (tvs-Balanced cmd1 q k) (λ cmd2 r l. checked-Balanced cmd2 r l)))

  process_multicast-Balanced :
      (cmd : Message) (p : Player)
      → Balanced tt p
      → Gives Balanced (process_multicast_msg world rounds cmd p)
  unfolding process_multicast_msg
  process_multicast-Balanced cmd p a =
      Gives-bind Balanced (alive p) _ (alive-Balanced p a)
        (λ _ q b. multicast-Balanced (if q.session.if_keep_alive_error then msg_quit else cmd) q b)

  dispatch-Balanced :
      (s : SetupType) (cmd : Message) (p : Player)
      → Balanced tt p
      → Gives Balanced (dispatch_msg world rounds s cmd p)
  unfolding dispatch_msg
  dispatch-Balanced s cmd p a = grind (arith, process_unicast-Balanced, process_multicast-Balanced)

  abbrev dispatched : Message × Bool → Player → Option (Goto × Player)
  dispatched got q =
      (if got.1 then pure goto_none else dispatch_msg world rounds q.setup_type got.0) q

  dispatched-Balanced :
      (got : Message × Bool) (q : Player) → Balanced tt q → Gives Balanced (dispatched got q)
  dispatched-Balanced (cmd, true) q a = a
  dispatched-Balanced (cmd, false) q a = dispatch-Balanced q.setup_type cmd q a

  pub process_tvod_msg-Balanced :
      (p : Player) → Balanced tt p → Gives Balanced (process_tvod_msg world rounds p)
  unfolding process_tvod_msg
  process_tvod_msg-Balanced p a =
      Gives-bind Balanced (process_common_msg world p) _ (common-Balanced p a)
        (λ got q k. dispatched-Balanced got q k)

  license-Balanced :
      (scramble : ℤ) (p : Player) → Balanced tt p → Gives Balanced (end_license world scramble p)
  unfolding end_license
  license-Balanced scramble p a = ground arith

  ss_end-Balanced : (p : Player) → Balanced tt p → Gives Balanced (ss_keep_alive_end world p)
  unfolding ss_keep_alive_end
  ss_end-Balanced p a = ground arith

  ms_end-Balanced : (p : Player) → Balanced tt p → Gives Balanced (ms_keep_alive_end world p)
  unfolding ms_keep_alive_end
  ms_end-Balanced p a = ground arith

  streaming-Balanced :
      {A : Type 0} (m : Client → Option (A × Client)) (p : Player)
      → Balanced tt p
      → Gives Balanced (on_streaming m p)
  streaming-Balanced m p a = ground arith

  teardown-Balanced : (p : Player) → Balanced tt p → Gives Balanced (teardown_if_setup world p)
  unfolding teardown_if_setup
  teardown-Balanced p a = ground arith

  release-Balanced : (p : Player) → Balanced tt p → Gives Balanced (network_release p)
  unfolding network_release
  release-Balanced p a = ground arith

  last-Balanced :
      (p : Player)
      → Balanced tt p
      → Balanced tt (
          notify event_player_exit_vod (record p {
            if_sm_setup = false;
            dvb = (dvbplay_stop world.board p.havplay p.dvb).1;
            mediaplayer_thread = false;
          }))
  last-Balanced p a = elim (Bool-cases p.has_callback) [
    | inl e ↦ rw e (stop-IsBalanced world.board k p.havplay p.dvb a)
    | inr e ↦ rw e (stop-IsBalanced world.board k p.havplay p.dvb a)
  ]

  cleanup-Balanced :
      (scramble : ℤ) (p : Player) → Balanced tt p → Gives Balanced (vod_cleanup world scramble p)
  unfolding vod_cleanup
  cleanup-Balanced scramble p a =
      Gives-bind Balanced (end_license world scramble p1) _ (license-Balanced scramble p1 a)
        (λ _ q1 a1.
          Gives-bind Balanced (ss_keep_alive_end world q1) _ (ss_end-Balanced q1 a1) (λ _ q2 a2.
            Gives-bind Balanced (ms_keep_alive_end world q2) _ (ms_end-Balanced q2 a2) (λ _ q3 a3.
              Gives-bind Balanced (on_streaming (destroy_connection world.streaming_net) q3) _
                (streaming-Balanced (destroy_connection world.streaming_net) q3 a3)
                (λ _ q4 a4.
                  Gives-bind Balanced (teardown_if_setup world q4) _ (teardown-Balanced q4 a4)
                    (λ _ q5 a5.
                      Gives-bind Balanced (network_release q5) _ (release-Balanced q5 a5)
                        (λ _ q6 a6. last-Balanced q6 a6))))))
    where
      p1 : Player
      p1 = record p { trick_ok_flag = true }

  check-Balanced :
      (v : Locals) (p : Player) → Balanced tt p → Gives Balanced (check_stream world v p)
  unfolding check_stream update_play_pts take_pts
  check-Balanced v p a = ground arith

  next-Balanced :
      (v : Locals) (g : Goto) (p : Player) → Balanced tt p → Gives Balanced (vod_next world v g p)
  unfolding vod_next
  next-Balanced v g p a = grind (arith, check-Balanced)

  step-Balanced :
      (l : Label) (v : Locals) (p : Player)
      → Balanced tt p
      → Gives Balanced (vod_step world rounds l v p)
  unfolding vod_step
  step-Balanced restart v p a = resume-IsBalanced world.board k p.havplay p.dvb a
  step-Balanced main_loop v p a = ground arith
  step-Balanced in_loop v p a =
      Gives-bind Balanced (process_tvod_msg world rounds p) (vod_next world v)
        (process_tvod_msg-Balanced p a) (λ g q b. next-Balanced v g q b)
  step-Balanced cleanup v p a =
      Gives-bind Balanced (vod_cleanup world v.scramble p) _ (cleanup-Balanced v.scramble p a)
        (λ l q b. b)
  step-Balanced finished v p a = a

Reach-Balanced :
    {world : World} {rounds : ℕ} {l l' : Label} {v v' : Locals} {p p' : Player} (k : ℕ)
    → Reach world rounds l v p l' v' p'
    → IsBalanced world.board k p.dvb
    → IsBalanced world.board k p'.dvb
Reach-Balanced k stays b = b
Reach-Balanced {world} {rounds} {l} {l'} {v} {v'} {p} {p'} k (runs {l' = m} {v' = w} {p' = q} r e)
      b =
    subst (Gives (Balanced world rounds k)) e
      (step-Balanced world rounds k m w q (Reach-Balanced k r b))
Reach-Balanced {world} {rounds} {l} {l'} {v} {v'} {p} {p'} k (others {p' = q} r o) b =
    subst (IsBalanced world.board k) (sym ((Other-Same world o).3)) (Reach-Balanced k r b)

-- When the playback of a film has ended behind its main loop, whatever messages and writes of `Other`
-- came in between, the program table with each address has been freed as often as the SDK stored it, if
-- that was so in the main loop, but for the table that was held there.
pub vod-Reach-freed :
    {world : World} {rounds : ℕ} {l : Label} {v v' : Locals} {p p' : Player} (k : ℕ)
    → Reach world rounds l v p finished v' p'
    → Inv l p
    → IsBalanced world.board k p.dvb
    → stored k world.board p'.dvb.calls ≡ freed k p'.dvb.calls
vod-Reach-freed {world} {p' = p'} k r i b =
    let none_held = (vod-Reach-Inv r i).3 in
    Reach-Balanced k r b ∙ ap (λ t. freed k p'.dvb.calls + held k t) none_held ∙ omega arith
