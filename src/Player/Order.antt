-- ===== src/Player/Order.antt =====
-- The order of the messages.
use mathlib.Core.List.{append-nil, append_assoc}
use snmediaplayer_new.Player.After.{bind_eq}
use snmediaplayer_new.Common.{
  ℕ, zero, suc, ◌+◌, ◌≤◌, ◌<◌, ◌≡◌, refl, ap, ◌∙◌, true, false, Option, none, some, List, [], ◌∷◌,
  ◌++◌, length, length-append, ltb, arith,
}
use snmediaplayer_new.Common.Int.{pos}
use snmediaplayer_new.Player.State.{Message, Player, World, M, ◌>>=◌}
use snmediaplayer_new.Player.Queue.{
  sendto_mediaplayermsg, rcvfrom_mediaplayermsg, is_none, drain, clear_dummy_key,
}

-- Each message is one that `msgsnd` takes.
abbrev pub Sendable : List Message → Type 0
Sendable [] = Unit
Sendable (cmd ∷ rest) = (is_none cmd ≡ false) × Sendable rest

-- Sends the messages, one after the other.
abbrev pub send_all : World → List Message → M (Unit {0})
send_all world [] p = some (tt, p)
send_all world (cmd ∷ rest) p = elim (sendto_mediaplayermsg world cmd p) [
  | none ↦ none
  | some (_, q) ↦ send_all world rest q
]

-- Receives that many messages.
abbrev pub receive_all : ℕ → M (List (Option Message))
receive_all zero p = some ([], p)
receive_all (suc n) p = elim (rcvfrom_mediaplayermsg p) [
  | none ↦ none
  | some (got, q) ↦ elim (receive_all n q) [ none ↦ none | some (rest, r) ↦ some (got ∷ rest, r) ]
]

abbrev pub each_some : List Message → List (Option Message)
each_some [] = []
each_some (cmd ∷ rest) = some cmd ∷ each_some rest

module _ (world : World) where
  pub send_next :
      (cmd : Message) (qs : List Message) (p : Player)
      → is_none cmd ≡ false
      → length qs < world.capacity
      → sendto_mediaplayermsg world cmd (record p { queue = qs })
        ≡ some (pos 1, record p { queue = qs ++ (cmd ∷ []) })
  unfolding sendto_mediaplayermsg
  send_next cmd qs p s l = rw (s, room) refl
    where
      room : ltb (length qs) world.capacity ≡ true
      room = ground arith

  sent :
      (ms qs : List Message) (p : Player)
      → Sendable ms
      → length qs + length ms ≤ world.capacity
      → send_all world ms (record p { queue = qs }) ≡ some (tt, record p { queue = qs ++ ms })
  sent [] qs p s l = rw append-nil refl
  sent (cmd ∷ rest) qs p s l =
      rw (send_all, send_next cmd qs p s.0 (omega arith))
        (sent rest (qs ++ (cmd ∷ [])) p s.1 (rw length-append (omega arith))
          ∙ ap (λ (r : List Message). some (tt, record p { queue = r })) append-assoc)
    where
      append-assoc : (qs ++ (cmd ∷ [])) ++ rest ≡ qs ++ (cmd ∷ rest)
      append-assoc = append_assoc qs (cmd ∷ []) rest

received :
    (ms : List Message) (p : Player)
    → receive_all (length ms) (record p { queue = ms })
      ≡ some (each_some ms, record p { queue = [] })
unfolding rcvfrom_mediaplayermsg
received [] p = refl
received (cmd ∷ rest) p = rw (received rest p) refl

-- Messages that are sent into an empty queue that holds as many are received in the order in which
-- they were sent, and leave the queue empty, if none of them is STREAMMEDIAPLAYER_NONE.
messages_in_order :
    (world : World) (ms : List Message) (p : Player)
    → Sendable ms
    → length ms ≤ world.capacity
    → (send_all world ms >>= λ _. receive_all (length ms)) (record p { queue = [] })
      ≡ some (each_some ms, record p { queue = [] })
messages_in_order world ms p s l =
    bind_eq (send_all world ms) (λ _. receive_all (length ms)) (record p { queue = [] })
      (record p { queue = ms }) tt (sent world ms [] p s (omega arith))
    ∙ received ms p

drain_empties :
    (n : ℕ) (qs : List Message) (p : Player)
    → length qs < n
    → drain n (record p { queue = qs }) ≡ some (tt, record p { queue = [] })
unfolding drain rcvfrom_mediaplayermsg
drain_empties zero qs p h = absurd (omega arith)
drain_empties (suc n) [] p h = refl
drain_empties (suc n) (cmd ∷ rest) p h = drain_empties n rest p (omega arith)

-- `ClearDummyKey` empties the queue and changes nothing else.
pub clear_dummy_key-empties : (p : Player) → clear_dummy_key p ≡ some (tt, record p { queue = [] })
unfolding clear_dummy_key
clear_dummy_key-empties p = drain_empties (suc (length p.queue)) p.queue p (omega arith)
