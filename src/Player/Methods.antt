-- ===== src/Player/Methods.antt =====
-- The methods of StreamMediaPlayer that the facade calls, beside the thread of the player. Each method
-- that asks for a trick mode sends a message and waits for `trick_ok_flag`; what the other threads do
-- meanwhile is a parameter.
pub mod Waits
pub mod Joined
pub mod Asks
use snmediaplayer_new.Common.{
  ℕ, zero, suc, ◌+◌, Bool, true, false, ◌||◌, Option, none, some, if◌then◌else◌,
}
use snmediaplayer_new.Common.Int.{ℤ, pos, negsuc, is_zero}
use snmediaplayer_new.Common.Text.{Bytes}
use snmediaplayer_new.Player.State.{
  Message, msg_urlchange, msg_pause, msg_play, msg_fastforward, msg_fastbackward, msg_realtimetv,
  msg_seek, preinit, PauseIntoTvs, pause_init, pause_trig, pause_others, StreamType, media_tvplay,
  media_vodplay, rtsp_status_end_of_stream, udp_status_end_of_stream, Player, World, M, pure, ◌>>=◌,
  ◌>>◌, modify,
}
use snmediaplayer_new.Player.Queue.{sendto_mediaplayermsg}
use snmediaplayer_new.Player.Json.{getchannelurlfromjson, getmediaurlfromjson}
use snmediaplayer_new.Player.Lifetime.{quit_and_join}
use snmediaplayer_new.Player.Playback.{notify}

abbrev pub vcr_timeout : ℕ
vcr_timeout = 1000

-- `while(!trick_ok_flag && timeout--) usleep(1000);` with what the other threads do in each sleep,
-- by the sleeps that are left: how many sleeps it takes, and the player behind them.
unfoldable pub wait_for_answer : (ℕ → Player → Player) → ℕ → Player → ℕ × Player
wait_for_answer during zero p = (0, p)
wait_for_answer during (suc n) p = elim p.trick_ok_flag [
  | true ↦ (0, p)
  | false ↦ let (k, q) = wait_for_answer during n (during n p) in (suc k, q)
]

abbrev is_init : PauseIntoTvs → Bool
is_init pause_init = true
is_init _ = false

abbrev is_tv : StreamType → Bool
is_tv media_tvplay = true
is_tv media_vodplay = false

-- The methods that wait: the number of sleeps, since they always return 0. `between` is what the other
-- threads do between the message and the next statement.
module _ (world : World) (between : Player → Player) (during : ℕ → Player → Player) where
  abbrev wait : ℕ → M ℕ
  wait timeout p = some (wait_for_answer during timeout p)

  abbrev meanwhile : M (Unit {0})
  meanwhile p = some (tt, between p)

  abbrev clear_answer : M (Unit {0})
  clear_answer = modify (λ p. record p { trick_ok_flag = false })

  unfoldable pub pause_waits : PauseIntoTvs → M ℕ
  pause_waits pause_init p = wait 2000 (record p { pause_into_tvs = pause_trig })
  pause_waits _ p = wait vcr_timeout (record p { pause_into_tvs = pause_others })

  unfoldable pub pause : M ℕ
  pause = do
    clear_answer
    sendto_mediaplayermsg world msg_pause
    meanwhile
    λ p. pause_waits p.pause_into_tvs p

  unfoldable pub fast_forward : ℤ → M ℕ
  fast_forward speed = do
    modify (λ p. record p { playspeed = speed })
    sendto_mediaplayermsg world msg_fastforward
    meanwhile
    clear_answer
    wait vcr_timeout

  unfoldable pub fast_rewind : ℤ → M ℕ
  fast_rewind speed = do
    modify (λ p. record p { playspeed = speed })
    sendto_mediaplayermsg world msg_fastbackward
    meanwhile
    modify (λ p. record p { backward_into_tvs = true; pause_into_tvs = pause_others })
    clear_answer
    wait vcr_timeout

  unfoldable pub resume : M ℕ
  resume = do sendto_mediaplayermsg world msg_play; meanwhile; clear_answer; wait vcr_timeout

-- The methods that start and end the thread of the player.
module _ (world : World) where
  -- `pthread_create` of `stream_player_thread`.
  unfoldable pub create_player_thread : M (Unit {0})
  create_player_thread p = some (
    tt,
    record p {
      mediaplayer_thread = is_zero (world.create_code p.creations) || p.mediaplayer_thread;
      creations = p.creations + 1;
    },
  )

  abbrev send : Message → M ℤ
  send cmd = do sendto_mediaplayermsg world cmd; pure (pos 0)

  -- A player without a thread starts one; the other is told by a message.
  unfoldable pub start_or_send : Message → M ℤ
  start_or_send cmd p =
      if p.mediaplayer_thread then send cmd p else (do create_player_thread; pure (pos 0)) p

  unfoldable pub join_parsed : ℤ → M ℤ
  join_parsed ret p =
      if is_zero ret
      then start_or_send msg_urlchange (record p { stype = media_tvplay })
      else some (negsuc 0, p)

  unfoldable pub join_channel : ℤ → Bytes → M ℤ
  join_channel userchannelid json = do
    modify (λ p. record p { real_json_str = json; channel = userchannelid })
    ret ← getchannelurlfromjson
    join_parsed ret

  unfoldable pub leave_channel : (Player → Option Player) → M ℤ
  leave_channel thread p =
      if p.mediaplayer_thread
      then (do quit_and_join world thread; modify (notify udp_status_end_of_stream); pure (pos 0)) p
      else some (pos 0, p)

  unfoldable pub stop : (Player → Option Player) → M ℤ
  stop thread = do
    quit_and_join world thread
    modify (notify rtsp_status_end_of_stream)
    pure (pos 0)

  -- A playback that runs is only asked to seek, or to go back to the broadcast.
  unfoldable pub play_or_send : Message → M ℤ
  play_or_send cmd p =
      if p.mediaplayer_thread
      then send cmd p
      else (do getmediaurlfromjson; create_player_thread; pure (pos 0)) p

  unfoldable pub play_from_start : M ℤ
  play_from_start p = play_or_send (if is_tv p.stype then msg_realtimetv else msg_seek) (record p {
    trans_time = 0;
    pause_into_tvs = pause_init;
    backward_into_tvs = false;
    if_sm_setup = false;
    playerstate = preinit;
  })

  unfoldable pub play_by_time : ℤ → M ℤ
  play_by_time speed p = play_or_send msg_seek (record p { playspeed = speed })

  -- What the parser returns is not looked at.
  unfoldable pub set_single_media : Bytes → M ℤ
  set_single_media json = do
    modify (λ p. record p { real_json_str = json })
    getmediaurlfromjson
    λ p.
        if p.mediaplayer_thread
        then send msg_urlchange p
        else (do
          modify (λ p. record p { stype = media_vodplay })
          getmediaurlfromjson
          create_player_thread
          pure (pos 0))
            p
