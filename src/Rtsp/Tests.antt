-- ===== src/Rtsp/Tests.antt =====
-- Runs of the RTSP client against small networks.
use snmediaplayer_new.Common.{
  ◌+◌, ◌≡◌, refl, true, false, Option, none, some, [], ◌++◌, drop, arith, length,
}
use snmediaplayer_new.Common.Int.{pos, negsuc}
use snmediaplayer_new.Common.Text.{Bytes, codes, strstr, strchr, after}
use snmediaplayer_new.Rtsp.Setup.Fields.{Fields, Control, Carries, CarriesControl}
use snmediaplayer_new.Rtsp.Setup.Reply.{taken, parse_setup-reply}
use snmediaplayer_new.Rtsp.State.{Io, Net, Client, player_none}
use snmediaplayer_new.Rtsp.After.{After, Ends, Gives}
use snmediaplayer_new.Rtsp.Request.{setup_vod, setup_sdv, setup_parts, request_wrapping}
use snmediaplayer_new.Common.Decimal.{print, print_onto, atoi, digits_from}
use snmediaplayer_new.Rtsp.Wire.{put_tx, exchange, send_command, get_response, status_code}
use snmediaplayer_new.Rtsp.Setup.{
  parse_global, parse_session, parse_transport, parse_ok, parse_setup, setup_reply, setup_exchange,
  rtsp_setup,
}
use snmediaplayer_new.Rtsp.Vcr.{rtsp_play, rtsp_getparameter, rtsp_getparameter_gettime}
use snmediaplayer_new.Rtsp.KeepAlive.{ms_keep_alive_thread, ms_round, ss_keep_alive_thread}
use snmediaplayer_new.Rtsp.Connect.{establish_connection}
use snmediaplayer_new.Rtsp.Sequence.{Below, cseq_bounded}
use snmediaplayer_new.Rtsp.Sockets.{
  opened, closed, at_if, HasSocketIf, StdioTaken, establish_sockets,
}
use snmediaplayer_new.Rtsp.Heartbeat.{Silent, SsStatus, ss_thread-SsStatus, ss_thread-Silent}
use snmediaplayer_new.Rtsp.MediaSilence.{ms_thread-Silent}
use snmediaplayer_new.Rtsp.Redirect.{location, parse_setup-location}
use snmediaplayer_new.Rtsp.Session.{timed_header, plain_header}
use snmediaplayer_new.Rtsp.Ready.{is_setup_result, ReadyFor, setup-ReadyFor}
use snmediaplayer_new.Rtsp.Buffers.{Fits}

-- Socket 5, every other call returns 0, two addresses, all is written and nothing is received.
abbrev quiet : Net
quiet = record {
  code = λ _ i. elim i [ Io.socket ↦ pos 5 | _ ↦ pos 0 ];
  addresses = λ _. 2;
  in_progress = λ _. true;
  so_error = λ _. pos 0;
  written = λ _ text. pos (length text);
  received = λ _. none;
}

-- A reply with every field that `rtspSETUP` reads.
abbrev reply : Bytes
reply =
    codes "RTSP/1.0 200 OK\r\nGlobalSession: 123456\r\nSession: abc;timeout=30\r\n"
    ++ codes "ControlSession: 99;ControlHost:10.0.0.9;ControlPort:8554\r\n"
    ++ codes "Transport: programid=7;frequency=610;symbol_rate=6.875;modulation=64\r\n\r\n"

abbrev pub answering : Net
answering = record quiet { received = λ _. some reply }

abbrev pub client : Client
client = record {
  ip = codes "10.0.0.1";
  port = 554;
  session_id = [];
  global_session_id = [];
  session_timeout = 60;
  ms_session_timeout = 300;
  content_id = codes "42";
  license = codes "0";
  user_id = codes "me";
  service_group = 1;
  bit_rate = 0;
  ms_ip = [];
  ms_port = 0;
  ms_session_id = [];
  ms_global_session_id = [];
  media_start_time = 0;
  media_stop_time = 0;
  playing_time = 0;
  play_param = record { ready = 0; frequency = 0; mode = 0; symbol_rate = 0; pn_id = 0 };
  player_status = player_none;
  if_keep_alive_error = false;
  ss_keep_alive_miss_cnt = 0;
  ms_keep_alive_miss_cnt = 0;
  sock = negsuc 0;
  cseq_tx = 0;
  tx_buffer = [];
  rx_buffer = [];
  ios = [];
}

cseq_bounded_example :
    After Below (rtsp_setup answering setup_vod client)
    × After Below (rtsp_play answering (negsuc 0) client)
    × After Below (rtsp_getparameter answering client)
    × After Below (rtsp_getparameter_gettime answering client)
    × After Below (ms_round answering client)
cseq_bounded_example = cseq_bounded answering setup_vod (negsuc 0) client (omega arith)

stdio_taken : StdioTaken quiet
stdio_taken h e = refl

establish_sockets_example :
    Ends
      (λ ok d.
        (opened 3 quiet d.ios + closed 3 client.ios
          ≡ at_if 3 ok d.sock + (opened 3 quiet client.ios + closed 3 d.ios))
        × HasSocketIf ok d)
      (establish_connection quiet client)
establish_sockets_example = establish_sockets quiet 3 stdio_taken client

ss_thread-SsStatus_example : Gives SsStatus (ss_keep_alive_thread answering 2 client)
ss_thread-SsStatus_example = ss_thread-SsStatus answering 2 client

nothing_comes : Silent quiet
nothing_comes h = refl

ss_thread-Silent_example :
    Ends (λ ended d. (ended ≡ true) × SsStatus true d) (ss_keep_alive_thread quiet 3 client)
ss_thread-Silent_example =
    ss_thread-Silent quiet nothing_comes 3 client (omega arith, omega arith, omega arith)
      (omega arith)

abbrev moved : Client
moved = record client {
  rx_buffer = codes "RTSP/1.0 302 Found\r\n" ++ location (codes "10.0.0.2") 8554 (codes "/x\r\n");
}

moved_status :
    strchr moved.rx_buffer 32
    ≡ some
        (codes " 302" ++ (codes " Found\r\n" ++ location (codes "10.0.0.2") 8554 (codes "/x\r\n")))
unfolding strchr
moved_status = refl

parse_setup-location_example :
    Ends
      (λ r d. (r ≡ pos 302) × (d.ip ≡ codes "10.0.0.2") × (d.port ≡ 8554))
      (parse_setup setup_vod moved)
parse_setup-location_example =
    parse_setup-location setup_vod moved
      (codes " Found\r\n" ++ location (codes "10.0.0.2") 8554 (codes "/x\r\n"))
      (codes "RTSP/1.0 302 Found\r\n") (codes "10.0.0.2") (codes "/x\r\n") 8554 moved_status refl
      (ground arith) (ground arith) (omega arith) (omega arith) refl

abbrev timed : Client
timed = record client {
  rx_buffer = codes "CSeq: 1\r\n" ++ timed_header (codes "abc") 30 (codes "\r\n");
}

abbrev untimed : Client
untimed = record client { rx_buffer = plain_header (codes "abc") (codes "x") }

no_timeout : strstr untimed.rx_buffer (codes "timeout=") ≡ none
unfolding strstr
no_timeout = refl

setup-ReadyFor_example :
    Gives
      (λ r d. (is_setup_result r ≡ true) × ReadyFor answering r d)
      (rtsp_setup answering setup_sdv client)
setup-ReadyFor_example = setup-ReadyFor answering setup_sdv client

pub client-Fits : Fits client
client-Fits = record {
  ip = omega arith;
  content_id = omega arith;
  user_id = omega arith;
  session_id = omega arith;
  global_session_id = omega arith;
  ms_session_id = omega arith;
  ms_global_session_id = omega arith;
  port = omega arith;
  cseq_tx = omega arith;
  service_group = omega arith;
  bit_rate = omega arith;
  media_start_time = omega arith;
  media_stop_time = omega arith;
}

ms_thread-Silent_example :
    Ends
      (λ ended d. (ended ≡ true) × (d.if_keep_alive_error ≡ true))
      (ms_keep_alive_thread quiet 4 client)
ms_thread-Silent_example =
    ms_thread-Silent quiet nothing_comes 4 client (omega arith, omega arith, omega arith)
      (omega arith)

-- The result of a run; `none` if it faults.
abbrev result : {A : Type 0} → Option (A × Client) → Option A
result none = none
result (some (a, _)) = some a

setup_succeeds : result (rtsp_setup answering setup_sdv client) ≡ some (pos 0)
unfolding rtsp_setup setup_exchange request_wrapping put_tx exchange send_command get_response
    setup_reply parse_setup status_code strchr strstr parse_ok parse_global parse_session
    parse_transport setup_parts print print_onto atoi digits_from
setup_succeeds = refl

abbrev reply_fields : Fields
reply_fields = record {
  global_id = codes "123456";
  id = codes "abc";
  timeout = 30;
  program = 7;
  frequency = 610;
  symbol_rate = 6;
  symbol_fraction = 875;
  modulation = 64;
}

abbrev reply_control : Control
reply_control = record { id = codes "99"; host = codes "10.0.0.9"; port = 8554; timeout = 120 }

-- The reply of a server of films.
abbrev film_reply : Bytes
film_reply =
    codes "RTSP/1.0 200 OK\r\nGlobalSession: 123456\r\nSession: abc;timeout=30\r\n"
    ++ codes "ControlSession: 99;ControlHost:10.0.0.9;ControlPort:8554;ControlTimeout=120\r\n"
    ++ codes "Transport: programid=7;frequency=610;symbol_rate=6.875;modulation=64\r\n\r\n"

abbrev behind : Bytes → Bytes → Bytes
behind text key = elim (after text key) [ none ↦ [] | some p ↦ p ]

film_reply-Carries : Carries film_reply reply_fields
unfolding strstr strchr print print_onto
film_reply-Carries = record {
  status_rest = drop 12 film_reply;
  status = refl;
  global_rest = behind film_reply (codes "123456\r\n");
  global = refl;
  global_line = (refl, (refl, (refl, (refl, (refl, (refl, tt))))));
  global_fits = omega arith;
  session_rest = behind film_reply (codes "timeout=30");
  session = refl;
  timeout = refl;
  timeout_ends = refl;
  id_fits = omega arith;
  transport_rest = codes "Transport" ++ behind film_reply (codes "Transport");
  transport = refl;
  program = record { rest = behind film_reply (codes "programid=7"); first = refl; ends = refl };
  frequency = record {
    rest = behind film_reply (codes "frequency=610");
    first = refl;
    ends = refl;
  };
  symbol_rest = behind film_reply (codes "symbol_rate=6.875");
  symbol = refl;
  symbol_ends = refl;
  modulation = record {
    rest = behind film_reply (codes "modulation=64");
    first = refl;
    ends = refl;
  };
}

film_reply-CarriesControl : CarriesControl film_reply reply_control
unfolding strstr print print_onto
film_reply-CarriesControl = record {
  rest = behind film_reply (codes "8554");
  control = refl;
  port_ends = refl;
  id_plain = (refl, (refl, tt));
  host_plain = (refl, (refl, (refl, (refl, (refl, (refl, (refl, (refl, tt))))))));
  id_fits = omega arith;
  host_fits = omega arith;
  timeout = record {
    rest = behind film_reply (codes "ControlTimeout=120");
    first = refl;
    ends = refl;
  };
}

abbrev replied : Client
replied = record client { rx_buffer = film_reply }

parse_setup-reply_example :
    parse_setup setup_vod replied ≡ some (pos 0, taken true reply_fields reply_control replied)
parse_setup-reply_example =
    parse_setup-reply setup_vod replied reply_fields reply_control film_reply-Carries
      (film_reply-CarriesControl, omega arith, omega arith)
      (omega arith, omega arith, omega arith, omega arith, omega arith)
