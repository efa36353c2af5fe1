-- ===== src/Player/Playback/Begin/Whole.antt =====
-- The thread of `main_vod_player` from its start to its end, with the steps of the other threads
-- between its own.
use snmediaplayer_new.Common.{◌≡◌, ◌⊎◌, false}
use snmediaplayer_new.Player.State.{Player}
use snmediaplayer_new.Player.Playback.{Label, finished}
use snmediaplayer_new.Player.Playback.Reach.{Reach, Inv}

-- The thread has ended before it reached its main loop: the clients were left.
abbrev pub EndedEarly : Label → Player → Type 0
EndedEarly finished q = (q.freed ≡ false) × (q.mediaplayer_thread ≡ false)
EndedEarly _ q = ⊥

-- Where the thread is, and what it has released.
abbrev pub Living : Label → Player → Type 0
Living l q = Inv l q ⊎ EndedEarly l q
