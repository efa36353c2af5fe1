-- ===== src/Rtsp/Sockets.antt =====
-- The sockets that `establishConnection` opens and closes.
pub mod Kept
use snmediaplayer_new.Common.{
  ℕ, zero, suc, ◌+◌, ◌≡◌, Bool, true, false, Option, none, some, List, [], ◌∷◌, arith,
  if◌then◌else◌, Bool-cases, inl, inr, ◌⊎◌, ap, ◌∙◌,
}
use snmediaplayer_new.Common.Int.{ℤ, pos, negsuc, int_eq, is_negative, is_zero, is_minus_one}
use snmediaplayer_new.Rtsp.State.{Io, Net, Client}
use snmediaplayer_new.Rtsp.After.{Ends, Ends-map, Ends-bind}
use snmediaplayer_new.Rtsp.Connect.{
  Attempt, connected, next, failed, below_two, await_connect, try_address, try_addresses,
  finish_connection, after_loop, abandon, unless_blocked, establish_connection,
}

-- Whether the socket has the number `f`.
abbrev pub at : ℕ → ℤ → ℕ
at f s = if int_eq s (pos f) then 1 else 0

module _ (f : ℕ) where
  -- How often the descriptor `f` was closed.
  abbrev pub closed : List Io → ℕ
  closed [] = 0
  closed (i ∷ h) = (elim i [ Io.close s ↦ at f s | _ ↦ 0 ]) + closed h

  abbrev opens : Net → Io → List Io → ℕ
  opens net Io.socket h = at f (net.code h Io.socket)
  opens net _ h = 0

  -- How often the system gave the descriptor `f` as a socket.
  abbrev pub opened : Net → List Io → ℕ
  opened net [] = 0
  opened net (i ∷ h) = opens net i h + opened net h

-- 0 and 1 are the standard input and output, so no socket has these numbers.
abbrev pub StdioTaken : Net → Type 0
StdioTaken net =
    (h : List Io)
    → is_negative (net.code h Io.socket) ≡ false
    → below_two (net.code h Io.socket) ≡ false

-- The socket that the attempt leaves open: whether it is the descriptor `f`.
abbrev left_open : ℕ → Attempt → ℤ → ℕ
left_open f (connected error) s = at f s
left_open f next s = 0
left_open f failed s = 0

abbrev is_connected : Attempt → Bool
is_connected (connected error) = true
is_connected _ = false

abbrev pub one_if : Bool → ℕ
one_if true = 1
one_if false = 0

-- With true, whether the socket has the number `f`.
abbrev pub at_if : ℕ → Bool → ℤ → ℕ
at_if f true s = at f s
at_if f false s = 0

-- With true, the client has a socket.
abbrev pub HasSocketIf : Bool → Client → Type 0
HasSocketIf ok d = (ok ≡ false) ⊎ (is_negative d.sock ≡ false)

-- The descriptor `f` balances, if the attempt began at the log `b`, and a connected socket is no error
-- code.
abbrev Balances : Net → ℕ → List Io → Attempt → Client → Type 0
Balances net f b a d =
    (opened f net d.ios + closed f b ≡ left_open f a d.sock + (opened f net b + closed f d.ios))
    × (is_connected a ≡ true → is_negative d.sock ≡ false)

module _ (net : Net) (f : ℕ) where
  await_connect_sockets :
      (c : Client)
      → is_negative c.sock ≡ false
      → Ends
          (λ a d.
            (opened f net d.ios ≡ opened f net c.ios)
            × (closed f d.ios + left_open f a d.sock ≡ at f c.sock + closed f c.ios)
            × (is_connected a ≡ true → is_negative d.sock ≡ false))
          (await_connect net c)
  unfolding await_connect
  await_connect_sockets c h = ground arith

  try_address_sockets :
      StdioTaken net → (c : Client) → Ends (Balances net f c.ios) (try_address net c)
  unfolding try_address
  try_address_sockets g c = ground (
    arith,
    g c.ios,
    await_connect_sockets (record c {
      sock = net.code c.ios Io.socket;
      ios =
          Io.set_non_blocking (net.code c.ios Io.socket)
          ∷ Io.set_reuse_addr (net.code c.ios Io.socket)
          ∷ Io.socket
          ∷ c.ios;
    }),
  )

  loop_case :
      (b : List Io) (n : ℕ) (o : Option (Attempt × Client))
      → Ends (Balances net f b) o
      → ((d : Client) → Ends (Balances net f d.ios) (try_addresses net n d))
      → Ends (Balances net f b) (elim o [
        | none ↦ none
        | some (a, d) ↦ elim a [
          | connected error ↦ some (connected error, d)
          | next ↦ try_addresses net n d
          | failed ↦ some (failed, d)
        ]
      ])
  loop_case b n none h ih = h
  loop_case b n (some (connected error, d)) h ih = h
  loop_case b n (some (failed, d)) h ih = h
  loop_case b n (some (next, d)) h ih =
      Ends-map (try_addresses net n d) (λ a e p. (omega arith, p.1)) (ih d)

  try_addresses_sockets :
      StdioTaken net → (n : ℕ) (c : Client) → Ends (Balances net f c.ios) (try_addresses net n c)
  unfolding try_addresses
  try_addresses_sockets g zero c = ground arith
  try_addresses_sockets g (suc n) c =
      loop_case c.ios n (try_address net c) (try_address_sockets g c) (try_addresses_sockets g n)

  finish_connection_sockets :
      (status : Bool) (c : Client)
      → (status ≡ true → is_negative c.sock ≡ false)
      → Ends
          (λ ok d.
            (opened f net d.ios ≡ opened f net c.ios)
            × (closed f d.ios ≡ closed f c.ios)
            × (ok ≡ status)
            × (d.sock ≡ c.sock))
          (finish_connection net status c)
  unfolding finish_connection
  finish_connection_sockets status c h = ground arith

  abandon_sockets :
      (c : Client)
      → is_negative c.sock ≡ false
      → Ends
          (λ ok d.
            (opened f net d.ios ≡ opened f net c.ios)
            × (closed f d.ios ≡ at f c.sock + closed f c.ios)
            × (ok ≡ false))
          (abandon net c)
  unfolding abandon finish_connection
  abandon_sockets c h = ground arith

  unless_blocked_sockets :
      (r : ℤ) (c : Client)
      → is_negative c.sock ≡ false
      → Ends
          (λ ok d.
            (opened f net d.ios ≡ opened f net c.ios)
            × (at_if f ok d.sock + closed f d.ios ≡ at f c.sock + closed f c.ios)
            × HasSocketIf ok d)
          (unless_blocked net r c)
  unfolding unless_blocked
  unless_blocked_sockets r c h = elim (Bool-cases (is_minus_one r)) [
    | inl e ↦
        rw (unless_blocked, e)
          (Ends-map (abandon net c) (λ ok d k. (k.0, ground (arith, k), inl k.2))
            (abandon_sockets c h))
    | inr e ↦
        rw (unless_blocked, e)
          (Ends-map (finish_connection net true c)
            (λ ok d k. (k.0, ground (arith, k), inr (ap is_negative k.3 ∙ h)))
            (finish_connection_sockets true c (λ _. h)))
  ]

  after_loop_sockets :
      (b : List Io) (a : Attempt) (c : Client)
      → Balances net f b a c
      → Ends
          (λ ok d.
            (opened f net d.ios + closed f b
              ≡ at_if f ok d.sock + (opened f net b + closed f d.ios))
            × HasSocketIf ok d)
          (after_loop net a c)
  unfolding after_loop
  after_loop_sockets b (connected e) c h = grind (arith, abandon_sockets, unless_blocked_sockets)
  after_loop_sockets b next c h = grind (arith, finish_connection_sockets)
  after_loop_sockets b failed c h = ground arith

  -- If 0 and 1 are taken, `establishConnection` ends, and of each descriptor `f` it closes as many as it
  -- opened, but for the socket of the client if it returns true: then there is one, and it is left open.
  pub establish_sockets :
      StdioTaken net
      → (c : Client)
      → Ends
          (λ ok d.
            (opened f net d.ios + closed f c.ios
              ≡ at_if f ok d.sock + (opened f net c.ios + closed f d.ios))
            × HasSocketIf ok d)
          (establish_connection net c)
  unfolding establish_connection
  establish_sockets g c = elim (Bool-cases (is_zero (net.code c.ios Io.get_addr_info))) [
    | inl found ↦ rw found (
        Ends-bind _ (try_addresses net (net.addresses c.ios) start) (after_loop net)
          (try_addresses_sockets g (net.addresses c.ios) start)
          (λ a d p.
            Ends-map (after_loop net a d) (λ ok e q. (omega (arith, q.0), q.1))
              (after_loop_sockets start.ios a d p)))
    | inr not_found ↦ ground arith
  ]
    where
      start : Client
      start = record c {
        rx_buffer = [];
        tx_buffer = [];
        sock = negsuc 0;
        ios = Io.get_addr_info ∷ c.ios;
      }
