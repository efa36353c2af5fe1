-- ===== src/Player.antt =====
-- StreamMediaPlayer.cpp: the player's state and message queue, the handling of its messages, and the
-- connection to the two servers.
pub mod State
pub mod Queue
pub mod Network
pub mod License
pub mod Pts
pub mod Json
pub mod Gateway
pub mod Lifetime
pub mod Methods
pub mod Mode
pub mod Messages
pub mod Playback
pub mod After
pub mod Order
pub mod Shutdown
pub mod Vcr
pub mod Online
pub mod Tests
