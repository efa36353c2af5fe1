-- ===== src/Player/Tests/Playback.antt =====
-- Playbacks of a film.
use snmediaplayer_new.Common.{◌≤◌, ◌≡◌, refl, true, Option, none, some, [], ◌∷◌, arith}
use snmediaplayer_new.Common.Int.{pos}
use snmediaplayer_new.Tsplayer.Search.{free_table}
use snmediaplayer_new.Tsplayer.Close.{dvbplay_stop, close_descramble}
use snmediaplayer_new.Rtsp.Connect.{destroy_connection}
use snmediaplayer_new.Player.State.{msg_quit, msg_pause, Player, World}
use snmediaplayer_new.Player.Queue.{rcvfrom_mediaplayermsg}
use snmediaplayer_new.Player.Network.{ss_keep_alive_end, network_release}
use snmediaplayer_new.Player.Messages.{
  unicast_command, status_command, tvs_command, last_command, checked_command, process_unicast_msg,
  common_command, process_common_msg, dispatch_msg, process_tvod_msg,
}
use snmediaplayer_new.Player.Pts.{update_play_pts, get_current_play_time}
use snmediaplayer_new.Player.Pts.Steps.{circle, follow, update_play_pts-follow}
use snmediaplayer_new.Player.After.{Ends, Gives}
use snmediaplayer_new.Player.Playback.{
  Label, in_loop, cleanup, finished, ms_keep_alive_end, teardown_if_setup,
}
use snmediaplayer_new.Player.Playback.Vod.{Locals, end_license, vod_cleanup, vod_next, vod_step}
use snmediaplayer_new.Player.Playback.Reach.{Reach, stays, runs, Inv, vod-Reach-Inv}
use snmediaplayer_new.Tsplayer.Tables.{stored, freed}
use snmediaplayer_new.Player.Playback.Tables.{vod-Reach-freed}
use snmediaplayer_new.Player.Playback.Quit.{Ended, vod_run, quit-Ended}
use snmediaplayer_new.Player.Playback.Lost.{GoesOn, quit_lost}
use snmediaplayer_new.Player.Playback.Live.{live_cleanup, live_step}
use snmediaplayer_new.Player.Playback.LiveReach.{LiveReach, Deleted, live-Deleted}
use snmediaplayer_new.Rtsp.Request.{setup_sdv}
use snmediaplayer_new.Player.Lifetime.{delete_player}
use snmediaplayer_new.Player.Lifetime.Running.{running, stopped, live_thread, running-Deleted}
use snmediaplayer_new.Tsplayer.Programs.{GivesTable}
use snmediaplayer_new.Player.Playback.Live.{live_begin}
use snmediaplayer_new.Player.Playback.Vod.{vod_begin}
use snmediaplayer_new.Player.Playback.Begin.Live.{LiveBegun, live_begin-Begun}
use snmediaplayer_new.Player.Playback.Begin.Vod.{VodBegun, vod_begin-Begun}
use snmediaplayer_new.Player.Tests.{world, player}

abbrev decoding : World
decoding = record world { status_info = λ n. some (1000, 90000) }

abbrev seen : Player
seen = record player { play_first_pts = 1000; play_last_pts = 50000 }

update_play_pts-follow_example :
    (update_play_pts decoding seen
      ≡ some
          (tt, record seen { status_infos = 1; play_last_pts = follow (some (1000, 90000)) 50000 }))
    × (circle (follow (some (1000, 90000)) 50000) 50000 ≤ 300000)
    × (get_current_play_time
          (record seen { status_infos = 1; play_last_pts = follow (some (1000, 90000)) 50000 })
        ≤ 4294967)
update_play_pts-follow_example =
    update_play_pts-follow decoding seen (omega arith, omega arith) (λ e. ground arith)
      (omega arith)

-- A film with the heartbeats of its servers, and the message to quit.
abbrev pub film : Player
film = record player { ms_thread = true; ss_thread = true; queue = msg_quit ∷ [] }

abbrev pub locals : Locals
locals = record { scramble = pos 1; check_stream_times = 40 }

abbrev player_after : Option ((Label × Locals) × Player) → Player
player_after none = player
player_after (some (_, q)) = q

abbrev cleaning : Player
cleaning = player_after (vod_step world 3 in_loop locals film)

abbrev pub gone : Player
gone = player_after (vod_step world 3 cleanup locals cleaning)

takes_quit : vod_step world 3 in_loop locals film ≡ some ((cleanup, locals), cleaning)
unfolding vod_step process_tvod_msg process_common_msg rcvfrom_mediaplayermsg common_command
    dispatch_msg process_unicast_msg status_command tvs_command checked_command last_command
    unicast_command vod_next
takes_quit = refl

cleans : vod_step world 3 cleanup locals cleaning ≡ some ((finished, locals), gone)
unfolding vod_step process_tvod_msg process_common_msg rcvfrom_mediaplayermsg common_command
    dispatch_msg process_unicast_msg status_command tvs_command checked_command last_command
    unicast_command vod_next vod_cleanup end_license ss_keep_alive_end ms_keep_alive_end
    destroy_connection teardown_if_setup network_release dvbplay_stop close_descramble free_table
cleans = refl

pub ended : Reach world 3 in_loop locals film finished locals gone
ended = runs (runs stays takes_quit) cleans

vod-Reach-Inv_example : Inv finished gone
vod-Reach-Inv_example = vod-Reach-Inv ended (refl, refl)

quit-Ended_example :
    Ends
      (λ r q. Ended 3 film.dvb r.0 q)
      (vod_run world 3 2 in_loop locals (record film { queue = msg_quit ∷ msg_pause ∷ [] }))
quit-Ended_example =
    quit-Ended world 3 locals (msg_pause ∷ []) film (refl, refl, refl, refl, refl) refl
      (refl, refl, (omega arith, omega arith, omega arith))

quit_lost_example :
    Gives
      (GoesOn [])
      (process_tvod_msg world 3 (record film { queue = msg_quit ∷ []; backward_into_tvs = true }))
quit_lost_example = quit_lost world 3 [] film refl refl refl refl refl

abbrev live_after : Option (Label × Player) → Player
live_after none = player
live_after (some (_, q)) = q

abbrev live_cleaning : Player
live_cleaning = live_after (live_step world 3 in_loop film)

abbrev live_gone : Player
live_gone = live_after (live_step world 3 cleanup live_cleaning)

live_takes_quit : live_step world 3 in_loop film ≡ some (cleanup, live_cleaning)
unfolding live_step process_tvod_msg process_common_msg rcvfrom_mediaplayermsg common_command
    dispatch_msg process_unicast_msg status_command tvs_command checked_command last_command
    unicast_command
live_takes_quit = refl

live_cleans : live_step world 3 cleanup live_cleaning ≡ some (finished, live_gone)
unfolding live_step process_tvod_msg process_common_msg rcvfrom_mediaplayermsg common_command
    dispatch_msg process_unicast_msg status_command tvs_command checked_command last_command
    unicast_command live_cleanup ss_keep_alive_end ms_keep_alive_end destroy_connection
    teardown_if_setup network_release dvbplay_stop close_descramble free_table
live_cleans = refl

live_ended : LiveReach world 3 in_loop film finished live_gone
live_ended = LiveReach.runs (LiveReach.runs LiveReach.stays live_takes_quit) live_cleans

live-Deleted_example : Ends (Deleted world live_gone) (delete_player world (λ p. none) live_gone)
live-Deleted_example = live-Deleted world (λ p. none) live_ended (refl, refl)

abbrev channel_player : Player
channel_player = record player { setup_type = setup_sdv }

running-Deleted_example :
    Ends
      (Deleted world (stopped world channel_player))
      (delete_player world (live_thread world 3 2 in_loop) (running channel_player))
running-Deleted_example =
    running-Deleted world 3 channel_player (omega arith) refl refl
      (omega arith, omega arith, omega arith)

-- An SDK that finds two programs.
abbrev searchable : World
searchable = record world {
  board = record world.board { table = λ _. some (record { id = 1; prog_ids = 5 ∷ 7 ∷ [] }) };
}

searchable-GivesTable : GivesTable searchable.board
searchable-GivesTable h e = refl

live_begin-Begun_example :
    Gives (LiveBegun searchable searchable-GivesTable player) (live_begin searchable 1 player)
live_begin-Begun_example = live_begin-Begun searchable searchable-GivesTable 1 player

vod_begin-Begun_example :
    Gives (VodBegun searchable searchable-GivesTable player) (vod_begin searchable 1 player)
vod_begin-Begun_example = vod_begin-Begun searchable searchable-GivesTable 1 player

-- The playback at its main loop.
abbrev landed : Option (Option (Label × Locals) × Player) → Player
landed none = player
landed (some (_, q)) = q

abbrev at_loop : Player
at_loop = landed (vod_begin searchable 1 player)

abbrev unscrambled : Locals
unscrambled = record { scramble = pos 0; check_stream_times = 100 }

vod-Reach-freed_example : stored 1 world.board gone.dvb.calls ≡ freed 1 gone.dvb.calls
vod-Reach-freed_example = vod-Reach-freed 1 ended (refl, refl) refl
