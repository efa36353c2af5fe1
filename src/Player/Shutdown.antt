-- ===== src/Player/Shutdown.antt =====
-- The playback after an error of a keep-alive thread.
use snmediaplayer_new.Common.{
  ℕ, ◌≡◌, ◌≢◌, refl, sym, subst, ◌∙◌, true, false, some, List, [], ◌∷◌, arith,
}
use snmediaplayer_new.Rtsp.State.{PlayerStatus}
use snmediaplayer_new.Rtsp.Request.{no_setup}
use snmediaplayer_new.Player.State.{
  Message, msg_volumechange, msg_volumemute, Goto, goto_cleanup, Player, World,
}
use snmediaplayer_new.Player.Queue.{rcvfrom_mediaplayermsg}
use snmediaplayer_new.Player.Messages.{
  first_pause, keep_alive_error, ret_player_quit, status_command, tvs_command, last_command,
  checked_command, unicast_command, process_unicast_msg, multicast_command, process_multicast_msg,
  common_command, process_common_msg, dispatch_msg, process_tvod_msg,
}
use snmediaplayer_new.Player.After.{Ends, Ends-bind, Ends-alive}

-- The main loop is to clean up, and the playback ends with RET_PLAYER_QUIT.
abbrev pub Quits : Goto → Player → Type 0
Quits g q = (g ≡ goto_cleanup) × (q.rt_value ≡ ret_player_quit)

-- What the two checks in front of the keep-alive errors leave alone.
abbrev Kept : Player → {A : Type 0} → A → Player → Type 0
Kept p a q =
    (keep_alive_error q ≡ keep_alive_error p)
    × (first_pause q ≡ first_pause p)
    × (q.freed ≡ p.freed)

-- No message that `process_common_msg` deals with is next.
abbrev pub NoVolume : List Message → Type 0
NoVolume [] = Unit
NoVolume (msg_volumechange ∷ rest) = ⊥
NoVolume (msg_volumemute ∷ rest) = ⊥
NoVolume (_ ∷ rest) = Unit

module _ (world : World) (rounds : ℕ) where
  status_command-Kept :
      (s : PlayerStatus) (cmd : Message) (p : Player) → Ends (Kept p) (status_command world s cmd p)
  unfolding status_command
  status_command-Kept s cmd p = ground arith

  checked-Quits :
      (cmd : Message) (p : Player)
      → keep_alive_error p ≡ true
      → Ends Quits (checked_command world rounds (some cmd) p)
  unfolding checked_command last_command unicast_command
  checked-Quits cmd p h = rw h (refl, refl)

  after_status :
      (cmd : Message) (p : Player)
      → keep_alive_error p ≡ true
      → first_pause p ≡ false
      → Ends (λ r q. (r ≡ some cmd) × (keep_alive_error q ≡ true)) (tvs_command world cmd p)
  unfolding tvs_command
  after_status cmd p h f = rw f (refl, h)

  unicast-Quits :
      (cmd : Message) (p : Player)
      → p.freed ≡ false
      → keep_alive_error p ≡ true
      → first_pause p ≡ false
      → Ends Quits (process_unicast_msg world rounds cmd p)
  unfolding process_unicast_msg
  unicast-Quits cmd p a h f = Ends-alive Quits p _ a (
      Ends-bind Quits (status_command world p.streaming.player_status cmd p) _
        (status_command-Kept p.streaming.player_status cmd p)
        (λ cmd1 q k.
          Ends-bind Quits (tvs_command world cmd1 q) (checked_command world rounds)
            (after_status cmd1 q (k.0 ∙ h) (k.1 ∙ f))
            (λ r q2 l.
              subst (λ v. Ends Quits (checked_command world rounds v q2)) (sym l.0)
                (checked-Quits cmd1 q2 l.1))))

  multicast-Quits :
      (cmd : Message) (p : Player)
      → p.freed ≡ false
      → p.session.if_keep_alive_error ≡ true
      → Ends Quits (process_multicast_msg world rounds cmd p)
  unfolding process_multicast_msg multicast_command
  multicast-Quits cmd p a h = rw (a, h) (refl, refl)

  common_keeps :
      (p : Player)
      → NoVolume p.queue
      → Ends
          (λ got q.
            (got.1 ≡ false)
            × (q.session ≡ p.session)
            × (q.streaming ≡ p.streaming)
            × (q.freed ≡ p.freed)
            × (q.setup_type ≡ p.setup_type)
            × (q.pause_into_tvs ≡ p.pause_into_tvs))
          (process_common_msg world p)
  unfolding process_common_msg rcvfrom_mediaplayermsg common_command
  common_keeps p h = ground arith

  dispatch-Quits :
      (cmd : Message) (p : Player)
      → p.freed ≡ false
      → p.session.if_keep_alive_error ≡ true
      → first_pause p ≡ false
      → p.setup_type ≢ no_setup
      → Ends Quits (dispatch_msg world rounds p.setup_type cmd p)
  unfolding dispatch_msg
  dispatch-Quits cmd p a h f n = grind (arith, unicast-Quits, multicast-Quits)

  -- If the keep-alive thread of the session server has reported an error, no first pause of a TVS is
  -- pending, and the next message is none about the volume, then `process_tvod_msg` does not fault, and
  -- it sends the main loop to its cleanup with RET_PLAYER_QUIT, whatever the message and the service.
  pub keep_alive_error-Quits :
      (p : Player)
      → NoVolume p.queue
      → p.freed ≡ false
      → p.session.if_keep_alive_error ≡ true
      → first_pause p ≡ false
      → p.setup_type ≢ no_setup
      → Ends Quits (process_tvod_msg world rounds p)
  unfolding process_tvod_msg
  keep_alive_error-Quits p v a h f n =
      Ends-bind Quits (process_common_msg world p) _ (common_keeps p v)
        (λ got q k. grind (arith, dispatch-Quits got.0 q))
