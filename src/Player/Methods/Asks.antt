-- ===== src/Player/Methods/Asks.antt =====
-- A method's message and the next round of the playback.
use snmediaplayer_new.Common.{ℕ, ◌<◌, ◌≡◌, ◌∙◌, sym, subst, true, false, [], ◌∷◌, arith}
use snmediaplayer_new.Rtsp.Setup.{has_control}
use snmediaplayer_new.Player.State.{
  Message, msg_none, msg_urlchange, msg_volumechange, msg_volumemute, msg_seek, msg_realtimetv,
  msg_quit, msg_play, msg_pause, msg_fastforward, msg_fastbackward, Player, World, ◌>>◌,
}
use snmediaplayer_new.Common.Int.{pos}
use snmediaplayer_new.Player.Order.{send_next}
use snmediaplayer_new.Player.Queue.{is_none, sendto_mediaplayermsg, rcvfrom_mediaplayermsg}
use snmediaplayer_new.Player.Messages.{
  process_common_msg, common_command, process_unicast_msg, process_tvod_msg,
}
use snmediaplayer_new.Player.Vcr.{Answers, Quiet, is_vcr, vcr_message-Answers}
use snmediaplayer_new.Player.After.{Gives, bind_eq}
use snmediaplayer_new.Player.Playback.Quit.{media_dispatch}

vcr_sendable : (cmd : Message) → is_vcr cmd ≡ true → is_none cmd ≡ false
vcr_sendable cmd v = ground arith

module _ (world : World) (rounds : ℕ) where
  queued :
      (cmd : Message) (p : Player)
      → is_vcr cmd ≡ true
      → 0 < world.capacity
      → (sendto_mediaplayermsg world cmd >> process_tvod_msg world rounds) (record p { queue = [] })
        ≡ process_tvod_msg world rounds (record p { queue = cmd ∷ [] })
  queued cmd p v c =
      bind_eq (sendto_mediaplayermsg world cmd) (λ _. process_tvod_msg world rounds) _ _ (pos 1)
        (send_next world cmd [] p (vcr_sendable cmd v) c)

  taken :
      (cmd : Message) (p : Player)
      → is_vcr cmd ≡ true
      → has_control p.setup_type ≡ true
      → process_tvod_msg world rounds (record p { queue = cmd ∷ [] })
        ≡ process_unicast_msg world rounds cmd (record p { queue = [] })
  unfolding process_tvod_msg process_common_msg rcvfrom_mediaplayermsg common_command
  taken msg_pause p v m =
      media_dispatch world rounds p.setup_type msg_pause (record p { queue = [] }) m
  taken msg_play p v m =
      media_dispatch world rounds p.setup_type msg_play (record p { queue = [] }) m
  taken msg_fastforward p v m =
      media_dispatch world rounds p.setup_type msg_fastforward (record p { queue = [] }) m
  taken msg_fastbackward p v m =
      media_dispatch world rounds p.setup_type msg_fastbackward (record p { queue = [] }) m
  taken msg_none p v m = absurd (ground arith)
  taken msg_urlchange p v m = absurd (ground arith)
  taken msg_volumechange p v m = absurd (ground arith)
  taken msg_volumemute p v m = absurd (ground arith)
  taken msg_seek p v m = absurd (ground arith)
  taken msg_realtimetv p v m = absurd (ground arith)
  taken msg_quit p v m = absurd (ground arith)

  -- A pause, play, forward or rewind message that is sent into the empty queue of a playback with a
  -- media server, with nothing pending that replaces it, is taken by the next round: the state, the
  -- speed, the volume and the place in the main loop are those of the message, and the caller is
  -- released, whatever the server answers, unless the round faults.
  pub sent_message-Answers :
      (cmd : Message) (p : Player)
      → is_vcr cmd ≡ true
      → 0 < world.capacity
      → has_control p.setup_type ≡ true
      → Quiet world rounds (record p { queue = [] })
      → Gives
          (λ g q. Answers (record p { queue = [] }) cmd g q × (q.trick_ok_flag ≡ true))
          ((sendto_mediaplayermsg world cmd >> process_tvod_msg world rounds)
            (record p { queue = [] }))
  sent_message-Answers cmd p v c m u =
      subst (Gives (λ g q. Answers (record p { queue = [] }) cmd g q × (q.trick_ok_flag ≡ true)))
        (sym (queued cmd p v c ∙ taken cmd p v m))
        (vcr_message-Answers world rounds cmd (record p { queue = [] }) u v)
