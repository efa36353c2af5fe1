-- ===== src/Player/Queue.antt =====
-- The message queue: `sendto_mediaplayermsg`, `rcvfrom_mediaplayermsg`, `PlayerRecvStopKey` and
-- `ClearDummyKey`. The messages carry no data.
use snmediaplayer_new.Common.{
  ℕ, zero, suc, Bool, true, false, Option, none, some, [], ◌∷◌, ◌++◌, length, if◌then◌else◌, ltb,
}
use snmediaplayer_new.Common.Int.{ℤ, pos}
use snmediaplayer_new.Player.State.{Message, msg_none, msg_quit, World, M, pure, ◌>>=◌}

-- A type of 0 is none that `msgsnd` takes.
abbrev pub is_none : Message → Bool
is_none msg_none = true
is_none _ = false

abbrev pub is_quit : Message → Bool
is_quit msg_quit = true
is_quit _ = false

-- 1, or 0 if the queue is full or does not take the message.
unfoldable pub sendto_mediaplayermsg : World → Message → M ℤ
sendto_mediaplayermsg world cmd p =
    if is_none cmd
    then some (pos 0, p)
    else if ltb (length p.queue) world.capacity
    then some (pos 1, record p { queue = p.queue ++ (cmd ∷ []) })
    else some (pos 0, p)

-- The first message, or `none` for -1.
unfoldable pub rcvfrom_mediaplayermsg : M (Option Message)
rcvfrom_mediaplayermsg p = elim p.queue [
  | [] ↦ some (none, p)
  | cmd ∷ rest ↦ some (some cmd, record p { queue = rest })
]

abbrev is_stop : Option Message → Bool
is_stop none = false
is_stop (some cmd) = is_quit cmd

-- Takes a message from the queue, whichever it is.
unfoldable pub player_recv_stop_key : M Bool
player_recv_stop_key = do cmd ← rcvfrom_mediaplayermsg; pure (is_stop cmd)

-- The rounds of the loop of `ClearDummyKey`: it goes on while a message is received.
unfoldable pub drain : ℕ → M (Unit {0})
drain zero p = some (tt, p)
drain (suc n) p = elim (rcvfrom_mediaplayermsg p) [
  | none ↦ none
  | some (got, q) ↦ elim got [ none ↦ some (tt, q) | some cmd ↦ drain n q ]
]

-- One round for each message, and the one that receives none.
unfoldable pub clear_dummy_key : M (Unit {0})
clear_dummy_key p = drain (suc (length p.queue)) p
