-- ===== src/Player/Playback/Keeps.antt =====
-- What the handling of a message leaves alone: the clients' existence and the thread.
use snmediaplayer_new.Common.{
  ℕ, ◌≡◌, refl, ap, ◌∙◌, Bool, true, false, Option, none, some, if◌then◌else◌, arith,
}
use snmediaplayer_new.Common.Int.{ℤ}
use snmediaplayer_new.Tsplayer.Control.{dvbplay_setvolume}
use snmediaplayer_new.Rtsp.State.{Client, PlayerStatus}
use snmediaplayer_new.Rtsp.Request.{SetupType}
use snmediaplayer_new.Player.State.{
  Message, msg_none, msg_urlchange, msg_volumechange, msg_volumemute, msg_seek, msg_realtimetv,
  msg_quit, msg_play, msg_pause, msg_fastforward, msg_fastbackward, PlayState, Goto, Player, World,
  alive, pure, goto_none,
}
use snmediaplayer_new.Player.Queue.{rcvfrom_mediaplayermsg}
use snmediaplayer_new.Player.Network.{network_init, network_release}
use snmediaplayer_new.Player.Messages.{
  twice, resume_server, unicast_command, status_command, tvs_command, last_command, checked_command,
  process_unicast_msg, multicast_command, process_multicast_msg, common_command, process_common_msg,
  dispatch_msg, process_tvod_msg,
}
use snmediaplayer_new.Player.After.{Gives, Gives-bind, Gives-alive, bind_eq}

-- The clients are there, and the thread is marked as before.
abbrev pub Keeps : Player → {A : Type 0} → A → Player → Type 0
Keeps p a q = (q.freed ≡ false) × (q.mediaplayer_thread ≡ p.mediaplayer_thread)

Keeps-trans :
    {A : Type 0} (p q : Player) (o : Option (A × Player))
    → q.mediaplayer_thread ≡ p.mediaplayer_thread
    → Gives (Keeps q) o
    → Gives (Keeps p) o
Keeps-trans p q none e h = tt
Keeps-trans p q (some (a, r)) e h = (h.0, h.1 ∙ e)

module _ (world : World) (rounds : ℕ) where
  alive_eq : (p : Player) → p.freed ≡ false → alive p ≡ some (tt, p)
  alive_eq p a = ap (λ b. if◌then◌else◌ {A = Option (Unit {0} × Player)} b none (some (tt, p))) a

  twice-Keeps :
      (m : Client → Option (ℤ × Client)) (p : Player)
      → p.freed ≡ false
      → Gives (Keeps p) (twice world m p)
  unfolding twice
  twice-Keeps m p a = ground arith

  resume_server-Keeps :
      (s : PlayState) (p : Player) → p.freed ≡ false → Gives (Keeps p) (resume_server world s p)
  unfolding resume_server
  resume_server-Keeps s p a = grind (arith, twice-Keeps)

  unicast-Keeps :
      (cmd : Message) (p : Player)
      → p.freed ≡ false
      → Gives (Keeps p) (unicast_command world rounds cmd p)
  unfolding unicast_command dvbplay_setvolume network_release network_init
  unicast-Keeps msg_pause p a = grind (arith, twice-Keeps)
  unicast-Keeps msg_play p a = grind (arith, resume_server-Keeps)
  unicast-Keeps msg_fastforward p a = grind (arith, twice-Keeps)
  unicast-Keeps msg_fastbackward p a = grind (arith, twice-Keeps)
  unicast-Keeps msg_none p a = (a, refl)
  unicast-Keeps msg_urlchange p a = ground arith
  unicast-Keeps msg_volumechange p a = (a, refl)
  unicast-Keeps msg_volumemute p a = (a, refl)
  unicast-Keeps msg_seek p a = (a, refl)
  unicast-Keeps msg_realtimetv p a = (a, refl)
  unicast-Keeps msg_quit p a = (a, refl)

  multicast-Keeps :
      (cmd : Message) (p : Player)
      → p.freed ≡ false
      → Gives (Keeps p) (multicast_command world rounds cmd p)
  unfolding multicast_command network_release network_init
  multicast-Keeps msg_urlchange p a =
      rw (bind_eq network_release _ p _ tt (bind_eq alive _ p p tt (alive_eq p a))) tt
  multicast-Keeps msg_quit p a = (a, refl)
  multicast-Keeps msg_none p a = (a, refl)
  multicast-Keeps msg_volumechange p a = (a, refl)
  multicast-Keeps msg_volumemute p a = (a, refl)
  multicast-Keeps msg_play p a = (a, refl)
  multicast-Keeps msg_pause p a = (a, refl)
  multicast-Keeps msg_fastforward p a = (a, refl)
  multicast-Keeps msg_fastbackward p a = (a, refl)
  multicast-Keeps msg_seek p a = (a, refl)
  multicast-Keeps msg_realtimetv p a = (a, refl)

  status-Keeps :
      (s : PlayerStatus) (cmd : Message) (p : Player)
      → p.freed ≡ false
      → Gives (Keeps p) (status_command world s cmd p)
  unfolding status_command
  status-Keeps s cmd p a = ground arith

  tvs-Keeps :
      (cmd : Message) (p : Player) → p.freed ≡ false → Gives (Keeps p) (tvs_command world cmd p)
  unfolding tvs_command
  tvs-Keeps cmd p a = ground arith

  checked-Keeps :
      (cmd : Option Message) (p : Player)
      → p.freed ≡ false
      → Gives (Keeps p) (checked_command world rounds cmd p)
  unfolding checked_command
  checked-Keeps none p a = (a, refl)
  checked-Keeps (some cmd) p a =
      unicast-Keeps (last_command world cmd p) (record p { backward_into_tvs = false }) a

  common-Keeps : (p : Player) → p.freed ≡ false → Gives (Keeps p) (process_common_msg world p)
  unfolding process_common_msg rcvfrom_mediaplayermsg common_command dvbplay_setvolume
  common-Keeps p a = ground arith

  process_unicast-Keeps :
      (cmd : Message) (p : Player)
      → p.freed ≡ false
      → Gives (Keeps p) (process_unicast_msg world rounds cmd p)
  unfolding process_unicast_msg
  process_unicast-Keeps cmd p a = Gives-alive (Keeps p) p _ a (
      Gives-bind (Keeps p) (status_command world p.streaming.player_status cmd p) _
        (status-Keeps p.streaming.player_status cmd p a)
        (λ cmd1 q k.
          Gives-bind (Keeps p) (tvs_command world cmd1 q) (checked_command world rounds)
            (tvs-Keeps cmd1 q k.0)
            (λ cmd2 r l.
              Keeps-trans p r (checked_command world rounds cmd2 r) (l.1 ∙ k.1)
                (checked-Keeps cmd2 r l.0))))

  process_multicast-Keeps :
      (cmd : Message) (p : Player)
      → p.freed ≡ false
      → Gives (Keeps p) (process_multicast_msg world rounds cmd p)
  unfolding process_multicast_msg
  process_multicast-Keeps cmd p a =
      Gives-alive (Keeps p) p _ a
        (multicast-Keeps (if p.session.if_keep_alive_error then msg_quit else cmd) p a)

  dispatch-Keeps :
      (s : SetupType) (cmd : Message) (p : Player)
      → p.freed ≡ false
      → Gives (Keeps p) (dispatch_msg world rounds s cmd p)
  unfolding dispatch_msg
  dispatch-Keeps s cmd p a = grind (arith, process_unicast-Keeps, process_multicast-Keeps)

  abbrev dispatched : Message × Bool → Player → Option (Goto × Player)
  dispatched got q =
      (if got.1 then pure goto_none else dispatch_msg world rounds q.setup_type got.0) q

  dispatched-Keeps :
      (got : Message × Bool) (q : Player) → q.freed ≡ false → Gives (Keeps q) (dispatched got q)
  dispatched-Keeps (cmd, true) q a = (a, refl)
  dispatched-Keeps (cmd, false) q a = dispatch-Keeps q.setup_type cmd q a

  pub process_tvod_msg-Keeps :
      (p : Player) → p.freed ≡ false → Gives (Keeps p) (process_tvod_msg world rounds p)
  unfolding process_tvod_msg
  process_tvod_msg-Keeps p a =
      Gives-bind (Keeps p) (process_common_msg world p) _ (common-Keeps p a)
        (λ got q k. Keeps-trans p q (dispatched got q) k.1 (dispatched-Keeps got q k.0))
