-- ===== src/Lib.antt =====
-- The media player of a set-top box: a verification model of its C and C++ sources.
--
-- The program. snmediaplayer/SNmediaplayer.cpp is the facade that the browser calls. It keeps the
-- volume in the settings file (snmediaplayer/common_setting.c) and passes requests on to a player
-- (snmediaplayer/StreamMediaPlayer.cpp), which has a thread of its own and is reached by a message
-- queue. The player asks a session server by RTSP for a channel, and controls the media server by
-- RTSP (snmediaplayer/RTSPClient_prv.cpp, one client for each server, each with a thread that sends
-- heartbeats). The stream comes over cable: snmediaplayer/tsplay/tsplayer.c tunes, searches the
-- program and plays it with the calls of the Hisilicon SDK.
--
-- The files.
-- - Common: shared names, Boolean tests, C integers, lists, byte strings (`strstr`, `strchr`,
--   `strncpy`), `atoi` and the numbers that `printf` prints.
-- - Tsplayer: snmediaplayer/tsplay/tsplayer.c. `Dvb` is the state of its globals and the log of the
--   SDK calls; Init, Search, Play, Window, Control and Close have one function for each
--   `DSP_DVBplay_…`, named `dvbplay_…`. The SDK, the settings and the video set mode are a `Board`,
--   whose answers may depend on all calls before.
-- - Rtsp: snmediaplayer/RTSPClient_prv.cpp and .h. `Client` has the fields of the class and the
--   log of the socket calls; Wire, Request, Setup, Vcr, KeepAlive and Connect have the methods,
--   under their names in lower case (`rtspSETUP` is `rtsp_setup`, `establishConnection` is
--   `establish_connection`). The sockets and the server are a `Net`, whose answers may depend on
--   all calls before. A method that reads through a null pointer or writes behind a buffer gives
--   `none`. Setup/Fields and Setup/Reply are about the reply that `rtspSETUP` reads, Sockets/Kept
--   about the methods that leave the sockets as they are.
-- - Player: snmediaplayer/StreamMediaPlayer.cpp. `Player` holds both clients, the globals of
--   tsplayer.c and the message queue; Queue, Messages and Network have `sendto_mediaplayermsg` to
--   `ClearDummyKey`, `process_common_msg` to `process_tvod_msg`, and `Network_Init` and
--   `Network_Release`. The handling of a message runs the clients' methods and the `dvbplay_…`
--   functions themselves. Playback has `main_stream_player` (Live) and `main_vod_player` (Vod):
--   what is in front of the main loop, and a step from one label to the next; Playback/Reach has
--   the steps of the other threads beside it, Playback/Begin what the thread has reached in front
--   of its main loop, and Begin/Whole puts the two together; Playback/Tables follows the
--   program tables. Network/Sockets is about the sockets that `Network_Init` leaves open (with
--   SessionSockets and StreamSockets for its parts), Network/Kept about what it leaves alone. Methods has what the facade calls (`pause` to
--   `setSingleMedia`), Lifetime the start and the destructor (Running: beside a playback), Json
--   and License the parsers, Pts the position, Mode `getPlaybackMode`, Gateway the messages to
--   the gateway.
-- - Settings: snmediaplayer/common_setting.c, and the volume and the mute flag of
--   snmediaplayer/SNmediaplayer.cpp. The settings file is a `Store`.
-- - Mediaplayer: the other methods of snmediaplayer/SNmediaplayer.cpp and .h: the table of two
--   instances, the attributes and the list of channels. The class of the instances is an
--   interface, `Native`; Operations has sequences of calls. Stream is the class StreamMediaPlayer
--   as an instance of the interface (Stream/Reports: the getters), with the attributes, the
--   setters and `refreshVideoDisplay` of its base class (snmediaplayer/RealizeSNmediaplayer.cpp
--   and .h); `Set_Player_Window`, whose only body is commented out, is a parameter. Each player
--   has a queue of its own here, which holds for one instance: the code opens one queue for all.
--
-- Bounds and fuel. The loops over the addresses, the attempts, the programs and the queue are
-- structural: their numbers are known before the loop, and the fuel of `ClearDummyKey` is one round
-- more than there are messages. `print` has one more digit of fuel than the number, which no number
-- needs. The search for a program is tried 100 times, and the methods wait 1000 or 2000 sleeps, as
-- in the code. The main loop has no bound: it is a step function. The two keep-alive threads and
-- the redirections of `Network_Init` have no bound in the code: they are watched for a number of
-- rounds that the theorems quantify over. Unsigned fields of 16 and 32 bits wrap around as written;
-- the sequence number is an `unsigned long` of 32 bits.
--
-- Not modelled. Overflow of `int` in `DSP_DVBplay_setwindow`, of the C integers in `atoi` and of the
-- volume; `%f` for a speed that is no integer; the descriptor sets of `select`; sleeps and the
-- cancellation points of the threads; `Init_Multicast`, `Quit_Multicast` and `Quit_Unicast`, which
-- have no definition in the repository; output for debugging. The keep-alive threads run on their client's state by themselves;
-- the main loop and the methods of the player have the steps of the other threads as a relation or a
-- parameter. The getters of the facade that return a constant, `check_prebuffering_state`, which
-- nothing calls, and snmediaplayer/not_used are left out.

pub mod Common
pub mod Tsplayer
pub mod Rtsp
pub mod Player
pub mod Settings
pub mod Mediaplayer
