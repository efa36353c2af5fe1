-- ===== src/Rtsp.antt =====
-- snmediaplayer/RTSPClient_prv.cpp and .h: the RTSP client of the session and the media server.
pub mod State
pub mod Wire
pub mod Request
pub mod Vcr
pub mod KeepAlive
pub mod Connect
pub mod Sockets
pub mod Heartbeat
pub mod MediaHeartbeat
pub mod MediaSilence
pub mod Redirect
pub mod Session
pub mod Ready
pub mod Buffers
pub mod After
pub mod Sequence
pub mod Setup
pub mod Tests
