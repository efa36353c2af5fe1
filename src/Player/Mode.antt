-- ===== src/Player/Mode.antt =====
-- `getPlaybackMode`: the mode and the speed, as a text.
pub mod Reported
use snmediaplayer_new.Common.{◌++◌, if◌then◌else◌}
use snmediaplayer_new.Common.Int.{ℤ, pos, negsuc, int_eq}
use snmediaplayer_new.Common.Text.{Bytes, codes}
use snmediaplayer_new.Player.State.{PlayState, paused, fastforward, fastbackward, Player}

abbrev pub trick_mode : Bytes
trick_mode = codes "{PlayMode:\"TrickMode\",Speed:"

unfoldable pub forward_speed : ℤ → Bytes
forward_speed v =
    if int_eq v (pos 2)
    then codes "2x}"
    else if int_eq v (pos 4)
    then codes "4x}"
    else if int_eq v (pos 8)
    then codes "8x}"
    else if int_eq v (pos 16)
    then codes "16x}"
    else codes "32x}"

unfoldable pub backward_speed : ℤ → Bytes
backward_speed v =
    if int_eq v (negsuc 1)
    then codes "-2x}"
    else if int_eq v (negsuc 3)
    then codes "-4x}"
    else if int_eq v (negsuc 7)
    then codes "-8x}"
    else if int_eq v (negsuc 15)
    then codes "-16x}"
    else codes "-32x}"

unfoldable pub mode_text : PlayState → ℤ → Bytes
mode_text paused v = codes "{PlayMode:\"Pause\",Speed:1x}"
mode_text fastbackward v = trick_mode ++ backward_speed v
mode_text fastforward v = trick_mode ++ forward_speed v
mode_text _ v = codes "{PlayMode:\"Normal Play\",Speed:1x}"

unfoldable pub get_playback_mode : Player → Bytes
get_playback_mode p = mode_text p.playerstate p.mspeed
