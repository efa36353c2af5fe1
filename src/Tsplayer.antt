-- ===== src/Tsplayer.antt =====
-- snmediaplayer/tsplay/tsplayer.c: the DVB player on top of the Hisilicon SDK.
pub mod State
pub mod Init
pub mod Search
pub mod Play
pub mod Window
pub mod Control
pub mod Close
pub mod Programs
pub mod Tables
pub mod Tuning
pub mod Descrambler
pub mod Lifecycle
pub mod Scaling
pub mod Tests
