-- ===== src/Player/Tests.antt =====
-- Runs of the player.
pub mod Playback
pub mod Calls
use snmediaplayer_new.Common.{
  Option, ◌≡◌, refl, true, false, none, some, List, [], ◌∷◌, arith, length,
}
use snmediaplayer_new.Common.Int.{pos}
use snmediaplayer_new.Rtsp.Request.{setup_vod}
use snmediaplayer_new.Rtsp.Tests.{client, answering}
use snmediaplayer_new.Player.State.{
  Message, msg_pause, msg_play, msg_quit, msg_fastforward, msg_urlchange, playing, pause_others,
  Player, World, goto_rstart, media_vodplay, ◌>>=◌,
}
use snmediaplayer_new.Common.Text.{strstr, strchr}
use snmediaplayer_new.Common.Decimal.{print, print_int, print_long, print_onto, atoi, digits_from}
use snmediaplayer_new.Tsplayer.Control.{dvbplay_setvolume}
use snmediaplayer_new.Rtsp.Wire.{put_tx, exchange, send_command, get_response, status_code}
use snmediaplayer_new.Rtsp.Request.{
  setup_parts, request, request_wrapping, pause_parts, forward_parts,
}
use snmediaplayer_new.Rtsp.Setup.{
  parse_global, parse_session, parse_control, parse_transport, parse_ok, parse_setup, setup_reply,
  setup_exchange, rtsp_setup,
}
use snmediaplayer_new.Rtsp.Vcr.{rtsp_pause, rtsp_forward, read_range}
use snmediaplayer_new.Rtsp.Connect.{
  init, await_connect, try_address, try_addresses, finish_connection, unless_blocked, after_loop,
  establish_connection,
}
use snmediaplayer_new.Player.Network.{
  try_connect, try_setup, if_connected, connect_session, follow_redirects, ss_keep_alive_begin,
  ms_keep_alive_begin, begin_streaming, connect_streaming, after_session_thread, begin_session,
  after_setup, network_init,
}
use snmediaplayer_new.Player.Messages.{
  twice, unicast_command, status_command, tvs_command, last_command, checked_command,
  process_unicast_msg, process_tvod_msg,
}
use snmediaplayer_new.Player.After.{Ends, Gives}
use snmediaplayer_new.Player.Queue.{clear_dummy_key}
use snmediaplayer_new.Player.Order.{clear_dummy_key-empties}
use snmediaplayer_new.Player.Shutdown.{Quits, keep_alive_error-Quits}
use snmediaplayer_new.Player.Vcr.{Answers, vcr_message-Answers, urlchange_faults}
use snmediaplayer_new.Rtsp.Sockets.{StdioTaken}
use snmediaplayer_new.Player.Network.StreamSockets.{OutcomeIf}
use snmediaplayer_new.Player.Network.Sockets.{network_init-Outcome}

abbrev pub world : World
world = record {
  board = record {
    code = λ _ _. pos 0;
    output = λ _ _. none;
    table = λ _. none;
    setting = λ _ _. [];
  };
  session_net = answering;
  streaming_net = answering;
  capacity = 10;
  create_code = λ _. pos 0;
  cancel_code = pos 0;
  join_code = pos 0;
  drm = record { code = λ _ _. pos 0; sec_info = λ _. (pos 0, []) };
  gateway = record {
    online = false;
    send_code = λ _. pos 0;
    receive_code = λ _. pos 0;
    reply = λ _. (0, 0, 0);
  };
  status_info = λ _. none;
}

abbrev pub player : Player
player = record {
  session = client;
  streaming = client;
  freed = false;
  dvb = record {
    tuner_freq = 0;
    tuner_srate = 0;
    tuner_qam = 0;
    prog_tbl = none;
    key = 0;
    aud_chn = 0;
    vid_chn = 0;
    is_scramble = false;
    calls = [];
  };
  havplay = 3;
  queue = [];
  setup_type = setup_vod;
  playerstate = playing;
  pause_into_tvs = pause_others;
  backward_into_tvs = false;
  trick_ok_flag = false;
  rt_value = 1;
  mspeed = pos 1;
  playspeed = pos 8;
  trans_time = 0;
  volumesize = pos 50;
  real_volume = pos 50;
  if_multicast = false;
  has_callback = false;
  events = [];
  if_sm_setup = false;
  status_network = pos 0;
  ss_thread = false;
  ms_thread = false;
  creations = 0;
  media_start_time = 0;
  media_stop_time = 0;
  real_json_str = [];
  channel = pos 0;
  status_decoder = true;
  mediaplayer_thread = true;
  stype = media_vodplay;
  hwin = 4;
  cur_freq = 0;
  real_muteflag = false;
  play_first_pts = 4294967295;
  play_last_pts = 0;
  status_infos = 0;
  drm_calls = [];
}

abbrev messages : List Message
messages = msg_pause ∷ msg_play ∷ msg_quit ∷ []

abbrev cut_off : Player
cut_off = record player {
  session = record client { if_keep_alive_error = true };
  queue = msg_pause ∷ [];
}

keep_alive_error-Quits_example : Ends Quits (process_tvod_msg world 3 cut_off)
keep_alive_error-Quits_example =
    keep_alive_error-Quits world 3 cut_off tt refl refl refl (λ e. ground arith)

vcr_message-Answers_example :
    Gives
      (λ g q. Answers player msg_fastforward g q × (q.trick_ok_flag ≡ true))
      (process_unicast_msg world 3 msg_fastforward player)
vcr_message-Answers_example =
    vcr_message-Answers world 3 msg_fastforward player (refl, refl, refl, refl, refl) refl

urlchange_faults_example : process_unicast_msg world 3 msg_urlchange player ≡ none
urlchange_faults_example = urlchange_faults world 3 player (refl, refl, refl, refl, refl)

answering-StdioTaken : StdioTaken answering
answering-StdioTaken h e = refl

network_init-Outcome_example : Gives (OutcomeIf world 3 player) (network_init world 3 player)
network_init-Outcome_example =
    network_init-Outcome world 3 answering-StdioTaken answering-StdioTaken 3 player

-- The result of a run; `none` if it faults.
abbrev pub result : {A : Type 0} → Option (A × Player) → Option A
result none = none
result (some (a, _)) = some a

online : result (network_init world 1 player) ≡ some (some (pos 0))
unfolding strstr strchr print print_onto atoi digits_from put_tx exchange send_command get_response
    status_code setup_parts request_wrapping parse_global parse_session parse_control
    parse_transport parse_ok parse_setup setup_reply setup_exchange rtsp_setup init await_connect
    try_address try_addresses finish_connection unless_blocked after_loop establish_connection
    try_connect try_setup if_connected connect_session follow_redirects ss_keep_alive_begin
    ms_keep_alive_begin begin_streaming connect_streaming after_session_thread begin_session
    after_setup network_init print_long
online = refl

forward : result (process_unicast_msg world 1 msg_fastforward player) ≡ some goto_rstart
unfolding strstr print print_int print_onto put_tx exchange send_command get_response request
    pause_parts forward_parts rtsp_pause rtsp_forward read_range dvbplay_setvolume twice
    unicast_command status_command tvs_command last_command checked_command process_unicast_msg
forward = refl
