-- ===== src/Player/Mode/Reported.antt =====
-- The mode that is reported behind a message.
use snmediaplayer_new.Common.{ℕ, ◌≡◌, refl, ap, ◌⊎◌, inl, inr, true, ◌++◌}
use snmediaplayer_new.Common.Int.{ℤ, pos, negsuc}
use snmediaplayer_new.Common.Text.{Bytes, codes}
use snmediaplayer_new.Common.Decimal.{print, print_int, print_onto}
use snmediaplayer_new.Player.State.{
  Message, msg_none, msg_urlchange, msg_volumechange, msg_volumemute, msg_seek, msg_realtimetv,
  msg_quit, msg_play, msg_pause, msg_fastforward, msg_fastbackward, Goto, Player, World,
}
use snmediaplayer_new.Player.Messages.{process_unicast_msg}
use snmediaplayer_new.Player.Vcr.{Answers, Quiet, is_vcr, vcr_message-Answers}
use snmediaplayer_new.Player.After.{Gives, Gives-map}
use snmediaplayer_new.Player.Mode.{
  trick_mode, forward_speed, backward_speed, mode_text, get_playback_mode,
}

-- The speeds of the interface: 2, 4, 8, 16 and 32 forward, and their negatives for a rewind.
abbrev pub IsSpeed : Message → ℤ → Type 0
IsSpeed msg_fastforward v = (v ≡ pos 2) ⊎ (v ≡ pos 4) ⊎ (v ≡ pos 8) ⊎ (v ≡ pos 16) ⊎ (v ≡ pos 32)
IsSpeed msg_fastbackward v =
    (v ≡ negsuc 1) ⊎ (v ≡ negsuc 3) ⊎ (v ≡ negsuc 7) ⊎ (v ≡ negsuc 15) ⊎ (v ≡ negsuc 31)
IsSpeed _ v = Unit

-- What is reported behind a message: the mode, and the speed that was asked for.
abbrev pub reported : Message → ℤ → Bytes
reported msg_pause v = codes "{PlayMode:\"Pause\",Speed:1x}"
reported msg_fastforward v = trick_mode ++ (print_int v ++ codes "x}")
reported msg_fastbackward v = trick_mode ++ (print_int v ++ codes "x}")
reported _ v = codes "{PlayMode:\"Normal Play\",Speed:1x}"

forward_speed-print :
    (v : ℤ) → IsSpeed msg_fastforward v → forward_speed v ≡ print_int v ++ codes "x}"
unfolding forward_speed print_int print print_onto
forward_speed-print v (inl e) = rw e refl
forward_speed-print v (inr (inl e)) = rw e refl
forward_speed-print v (inr (inr (inl e))) = rw e refl
forward_speed-print v (inr (inr (inr (inl e)))) = rw e refl
forward_speed-print v (inr (inr (inr (inr e)))) = rw e refl

backward_speed-print :
    (v : ℤ) → IsSpeed msg_fastbackward v → backward_speed v ≡ print_int v ++ codes "x}"
unfolding backward_speed print_int print print_onto
backward_speed-print v (inl e) = rw e refl
backward_speed-print v (inr (inl e)) = rw e refl
backward_speed-print v (inr (inr (inl e))) = rw e refl
backward_speed-print v (inr (inr (inr (inl e)))) = rw e refl
backward_speed-print v (inr (inr (inr (inr e)))) = rw e refl

mode-reported :
    (cmd : Message) (p : Player) (g : Goto) (q : Player)
    → IsSpeed cmd p.playspeed
    → Answers p cmd g q
    → get_playback_mode q ≡ reported cmd p.playspeed
unfolding get_playback_mode mode_text
mode-reported msg_pause p g q s a = rw a.0 refl
mode-reported msg_play p g q s a = rw a.0 refl
mode-reported msg_fastforward p g q s a =
    rw (a.0, a.1) (ap (λ t. trick_mode ++ t) (forward_speed-print p.playspeed s))
mode-reported msg_fastbackward p g q s a =
    rw (a.0, a.1) (ap (λ t. trick_mode ++ t) (backward_speed-print p.playspeed s))
mode-reported msg_none p g q s a = absurd a
mode-reported msg_urlchange p g q s a = absurd a
mode-reported msg_volumechange p g q s a = absurd a
mode-reported msg_volumemute p g q s a = absurd a
mode-reported msg_seek p g q s a = absurd a
mode-reported msg_realtimetv p g q s a = absurd a
mode-reported msg_quit p g q s a = absurd a

-- Behind a pause, play, forward or rewind message that nothing pending replaces, and whose handling
-- does not fault, `getPlaybackMode` gives the mode of the message, and for a forward or a rewind at one
-- of the speeds of the interface the decimal text of the speed that was asked for.
pub message-reported :
    (world : World) (rounds : ℕ) (cmd : Message) (p : Player)
    → Quiet world rounds p
    → is_vcr cmd ≡ true
    → IsSpeed cmd p.playspeed
    → Gives
        (λ g q. get_playback_mode q ≡ reported cmd p.playspeed)
        (process_unicast_msg world rounds cmd p)
message-reported world rounds cmd p u v s =
    Gives-map (λ g q. Answers p cmd g q × (q.trick_ok_flag ≡ true)) _
      (process_unicast_msg world rounds cmd p) (λ g q a. mode-reported cmd p g q s a.0)
      (vcr_message-Answers world rounds cmd p u v)
