-- ===== src/Mediaplayer/Tests.antt =====
-- Runs of the media player object over instances that count their calls.
use snmediaplayer_new.Common.{ℕ, true, ◌≡◌, refl, none, some, List, [], ◌∷◌, ◌++◌, arith}
use snmediaplayer_new.Common.Int.{pos}
use snmediaplayer_new.Common.Text.{Bytes, codes, strstr}
use snmediaplayer_new.Common.Decimal.{atoi, digits_from}
use snmediaplayer_new.Player.Json.{find, substr}
use snmediaplayer_new.Mediaplayer.{
  release_media_player, Attributes, default_attributes, PlayerRect, Mediaplayer,
}
use snmediaplayer_new.Mediaplayer.Channels.{
  id_between, user_channel_id, register_channel, find_channel, join_channel,
}
use snmediaplayer_new.Mediaplayer.Channels.Lookup.{Finds, table_of, register_refines}
use snmediaplayer_new.Rtsp.Tests.{client}
use snmediaplayer_new.Player.State.{Player}
use snmediaplayer_new.Player.Lifetime.{Startup}
use snmediaplayer_new.Player.Tests.{world, player}
use snmediaplayer_new.Player.Tests.Playback.{gone, ended}
use snmediaplayer_new.Mediaplayer.Stream.{StreamPlayer, refresh_video_display, stream_media_player}
use snmediaplayer_new.Mediaplayer.Stream.Window.{by_width, shown, Shows, refresh-Shows}
use snmediaplayer_new.Mediaplayer.Stream.Ended.{release_ended_faults}
use snmediaplayer_new.Mediaplayer.Stream.Reports.{
  get_channel_num, Leaves, join_channel-get_channel_num,
}
use snmediaplayer_new.Mediaplayer.Operations.{
  Operation, op_bind, op_stop, op_release, op_play_from_start, op_set_single_media, Faults, Unless,
  IsValid, run, run-IsValid,
}

abbrev no_players : Mediaplayer ℕ
no_players = record {
  sn_instanceid = 0;
  attributes = default_attributes (pos 0) (pos 0);
  slots = record { first = none; second = none };
  sn_channel_list = [];
  userchannelid_list = [];
  created = 0;
  deleted = 0;
}

abbrev rect : PlayerRect
rect = record { x = pos 0; y = pos 0; width = pos 720; height = pos 576 }

-- A text in the form of the comments in the source.
abbrev channel_5 : Bytes
channel_5 = codes "ChannelID=\"1\", UserChannelID=\"5\", ChannelURL=\"rtsp://10.0.0.1:554/\""

channel_5-id : user_channel_id channel_5 ≡ some (pos 5)
unfolding strstr atoi digits_from find substr id_between user_channel_id
channel_5-id = refl

register_refines_example :
    Finds
      (pos 5)
      (table_of [] [] ++ ((pos 5, channel_5) ∷ []))
      (register_channel channel_5 no_players)
register_refines_example = register_refines channel_5 (pos 5) (pos 5) no_players refl channel_5-id

-- The window system counts as a request of the decoder.
abbrev window : PlayerRect → Player → Player
window r p = record p { cur_freq = 1 }

abbrev display : Attributes
display = record (default_attributes (pos 0) (pos 0)) {
  sn_video_display_mode = pos 2;
  sn_video_displayrect = rect;
}

abbrev stream : StreamPlayer
stream = record { player = gone; real = display; iftvfullscreen = true; sallow_trickmode = pos 0 }

refresh-Shows_example :
    Shows window (shown by_width rect) stream (refresh_video_display window stream)
refresh-Shows_example = refresh-Shows window by_width stream refl

abbrev startup : Startup
startup = record {
  account_code = pos 0;
  account_name = codes "user";
  service_group = none;
  session = client;
  streaming = client;
}

abbrev one_stream : Mediaplayer StreamPlayer
one_stream = record {
  sn_instanceid = 0;
  attributes = display;
  slots = record { first = some stream; second = none };
  sn_channel_list = [];
  userchannelid_list = [];
  created = 1;
  deleted = 0;
}

release_ended_faults_example :
    release_media_player
      (stream_media_player window world (λ p. p) (λ n p. p) (λ p. none) startup stream)
      0
      one_stream
    ≡ none
release_ended_faults_example =
    release_ended_faults window world (λ p. p) (λ n p. p) (λ p. none) startup stream 0 stream
      one_stream refl ended (refl, refl)

-- An instance with clients, and one channel.
abbrev joinable : Mediaplayer StreamPlayer
joinable = record one_stream {
  slots = record { first = some (record stream { player = player }); second = none };
  sn_channel_list = channel_5 ∷ [];
  userchannelid_list = pos 5 ∷ [];
}

found_5 :
    find_channel joinable.sn_channel_list joinable.userchannelid_list (pos 5)
    ≡ some (some channel_5)
unfolding find_channel
found_5 = refl

join_channel-get_channel_num_example :
    Leaves
      (λ r q. get_channel_num q ≡ some (pos 5))
      (join_channel
        (stream_media_player window world (λ p. p) (λ n p. p) (λ p. none) startup stream)
        (pos 5)
        joinable)
join_channel-get_channel_num_example =
    join_channel-get_channel_num window world (λ p. p) (λ n p. p) (λ p. none) startup stream (pos 5)
      joinable (some (some channel_5)) found_5

abbrev calls : List Operation
calls =
    op_set_single_media (codes "film")
    ∷ op_bind 1
    ∷ op_play_from_start
    ∷ op_release 0
    ∷ op_stop
    ∷ []

run-IsValid_example :
    Unless
      (Faults (stream_media_player window world (λ p. p) (λ n p. p) (λ p. none) startup stream))
      IsValid
      (run
        (stream_media_player window world (λ p. p) (λ n p. p) (λ p. none) startup stream)
        calls
        one_stream)
run-IsValid_example =
    run-IsValid (stream_media_player window world (λ p. p) (λ n p. p) (λ p. none) startup stream)
      calls one_stream (tt, (tt, (tt, (omega arith, (tt, tt))))) (omega arith, refl, refl)
