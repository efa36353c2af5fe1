-- ===== src/Player/Network/SessionSockets.antt =====
-- The sockets to the session server, up to the end of the redirections.
use snmediaplayer_new.Common.{
  ℕ, zero, suc, ◌+◌, ◌≡◌, inl, inr, refl, ◌∙◌, Bool, true, false, Option, none, some, [], sym, ap,
  subst, arith,
}
use snmediaplayer_new.Common.Int.{negsuc, is_negative}
use snmediaplayer_new.Rtsp.State.{Net, Client}
use snmediaplayer_new.Rtsp.After
use snmediaplayer_new.Rtsp.Connect.{init, establish_connection, destroy_connection}
use snmediaplayer_new.Rtsp.Vcr.{rtsp_teardown}
use snmediaplayer_new.Rtsp.Sockets.{
  at, opened, closed, one_if, at_if, HasSocketIf, StdioTaken, establish_sockets,
}
use snmediaplayer_new.Rtsp.Sockets.Kept.{
  Same, Left, Closes, setup-Same, teardown-Closes, destroy-Closes,
}
use snmediaplayer_new.Player.State.{Player, World, on_session, with_session}
use snmediaplayer_new.Player.After.{Gives, Gives-bind, Gives-map}
use snmediaplayer_new.Player.Queue.{player_recv_stop_key, rcvfrom_mediaplayermsg}
use snmediaplayer_new.Player.Network.{
  SetupEnd, set_up, redirected, setup_failed, unconnected, try_connect, try_setup, if_connected,
  connect_session, follow_redirects, establish_times, setup_times,
}

-- A socket that is left open has a number.
abbrev pub HasSocket : ℕ → Client → Type 0
HasSocket zero d = Unit
HasSocket (suc n) d = is_negative d.sock ≡ false

abbrev pub Leaves : Net → ℕ → ℕ → Client → Client → Type 0
Leaves net f n c d = Left net f n c d × HasSocket n d

connect_case :
    (net : Net) (f : ℕ) (c : Client) (n : ℕ) (o : Option (Bool × Client))
    → After.Ends
        (λ ok d.
          (opened f net d.ios + closed f c.ios
            ≡ at_if f ok d.sock + (opened f net c.ios + closed f d.ios))
          × HasSocketIf ok d)
        o
    → ((d : Client) → After.Gives (λ ok e. Leaves net f (one_if ok) d e) (try_connect net n d))
    → After.Gives
        (λ ok e. Leaves net f (one_if ok) c e)
        (elim o as (λ _. Option (Bool × Client)) [
          | none ↦ none
          | some (ok, d) ↦ elim ok [ true ↦ some (true, d) | false ↦ try_connect net n d ]
        ])
connect_case net f c n none h g = absurd h
connect_case net f c n (some (true, d)) (h, inl e) g = absurd (ground (arith, e))
connect_case net f c n (some (true, d)) (h, inr s) g = (h, s)
connect_case net f c n (some (false, d)) h g =
    After.Gives-map (λ ok e. Leaves net f (one_if ok) d e) (λ ok e. Leaves net f (one_if ok) c e)
      (try_connect net n d) (λ ok e l. (omega (arith, h.0, l.0), l.1)) (g d)

pub try_connect-Leaves :
    (net : Net) (f : ℕ)
    → StdioTaken net
    → (n : ℕ) (c : Client)
    → After.Gives (λ ok d. Leaves net f (one_if ok) c d) (try_connect net n c)
unfolding try_connect
try_connect-Leaves net f g zero c = (omega arith, tt)
try_connect-Leaves net f g (suc n) c =
    connect_case net f c n (establish_connection net c) (establish_sockets net f g c)
      (try_connect-Leaves net f g n)

-- What the session server's part leaves alone.
abbrev pub Beside : Player → Player → Type 0
Beside p q = (q.streaming ≡ p.streaming) × (q.setup_type ≡ p.setup_type)

pub lift :
    {A : Type 0} (P : A → Client → Type 0) (m : Client → Option (A × Client)) (p : Player)
    → After.Gives P (m p.session)
    → Gives (λ a q. P a q.session × Beside p q) (on_session m p)
lift {A} P m p h = step (m p.session) h
  where
    step :
        (o : Option (A × Client))
        → After.Gives P o
        → Gives (λ a q. P a q.session × Beside p q) (with_session p o)
    step none k = tt
    step (some (a, c)) k = (k, (refl, refl))

-- The sockets to the session server that an end of the loop over `rtspSETUP` leaves open.
abbrev pub held : SetupEnd → ℕ
held set_up = 1
held redirected = 1
held setup_failed = 1
held unconnected = 0

-- The client of the session server behind `init`.
abbrev fresh : Player → Player
fresh p = record p {
  session = record p.session {
    tx_buffer = [];
    rx_buffer = [];
    sock = negsuc 0;
    cseq_tx = 0;
    session_id = [];
    global_session_id = [];
  };
}

module _ (world : World) (f : ℕ) where
  -- `n` sockets to the session server are left open since.
  abbrev pub Holds : ℕ → Player → Player → Type 0
  Holds n p q = Leaves world.session_net f n p.session q.session × Beside p q

  stop_key-Same :
      (p : Player) → Gives (λ _ q. (q.session ≡ p.session) × Beside p q) (player_recv_stop_key p)
  unfolding player_recv_stop_key rcvfrom_mediaplayermsg
  stop_key-Same p = ground arith

  -- The sockets to the session server are as they were.
  abbrev pub Still : Player → Player → Type 0
  Still p q = Same world.session_net f p.session q.session × Beside p q

  try_setup-Still :
      (n : ℕ) (p : Player) → Gives (λ e q. Still p q × (held e ≡ 1)) (try_setup world n p)
  unfolding try_setup
  try_setup-Still zero p = (((refl, refl, refl), (refl, refl)), refl)
  try_setup-Still (suc n) p =
      grind (arith, setup-Same world.session_net f, stop_key-Same, try_setup-Still n)

  if_connected-Still :
      (ok : Bool) (p : Player)
      → Gives (λ e q. Still p q × (held e ≡ one_if ok)) (if_connected world ok p)
  unfolding if_connected
  if_connected-Still true p = try_setup-Still setup_times p
  if_connected-Still false p = (((refl, refl, refl), (refl, refl)), refl)

  pub Still-Holds : (n : ℕ) (p q r : Player) → Holds n p q → Still q r → Holds n p r
  Still-Holds zero p q r ((l, s), b) (k, d) =
      ((omega (arith, l, k.0, k.1), tt), (d.0 ∙ b.0, d.1 ∙ b.1))
  Still-Holds (suc n) p q r ((l, s), b) (k, d) = (
    (omega (arith, l, k.0, k.1, ap (at f) (k.2)), ap is_negative (k.2) ∙ s),
    (d.0 ∙ b.0, d.1 ∙ b.1),
  )

  connect_session-Holds :
      StdioTaken world.session_net
      → (p : Player) → Gives (λ e q. Holds (held e) p q) (connect_session world p)
  unfolding connect_session init
  connect_session-Holds g p =
      Gives-bind (λ e q. Holds (held e) p q)
        (on_session (try_connect world.session_net establish_times) (fresh p)) (if_connected world)
        (lift (λ ok d. Leaves world.session_net f (one_if ok) (fresh p).session d)
          (try_connect world.session_net establish_times) (fresh p)
          (try_connect-Leaves world.session_net f g establish_times (fresh p).session))
        (λ ok q h.
          Gives-map (λ e r. Still q r × (held e ≡ one_if ok)) (λ e r. Holds (held e) p r)
            (if_connected world ok q)
            (λ e r k. subst (λ n. Holds n p r) (sym k.1) (Still-Holds (one_if ok) p q r h k.0))
            (if_connected-Still ok q))

  -- Another part of the method behind a first that left no socket open, and one that closed the socket.
  pub Holds-trans : (n : ℕ) (p q r : Player) → Holds 0 p q → Holds n q r → Holds n p r
  Holds-trans n p q r ((l, s), b) ((k, t), d) = ((omega (arith, l, k), t), (d.0 ∙ b.0, d.1 ∙ b.1))

  Closes-Holds :
      (p q r : Player)
      → Holds 1 p q
      → Closes world.session_net f q.session r.session
      → Beside q r
      → Holds 0 p r
  Closes-Holds p q r ((l, s), b) k d = ((omega (arith, l, k.0, k.1), tt), (d.0 ∙ b.0, d.1 ∙ b.1))

  pub destroyed :
      (p q : Player)
      → Holds 1 p q
      → Gives (λ _ r. Holds 0 p r) (on_session (destroy_connection world.session_net) q)
  destroyed p q h =
      Gives-map (λ _ r. Closes world.session_net f q.session r.session × Beside q r)
        (λ _ r. Holds 0 p r) (on_session (destroy_connection world.session_net) q)
        (λ _ r k. Closes-Holds p q r h k.0 k.1)
        (lift (λ _ d. Closes world.session_net f q.session d) (destroy_connection world.session_net)
          q (destroy-Closes world.session_net f q.session h.0.1))

  pub torn_down :
      (p q : Player)
      → Holds 1 p q
      → Gives (λ _ r. Holds 0 p r) (on_session (rtsp_teardown world.session_net) q)
  torn_down p q h =
      Gives-map (λ _ r. Closes world.session_net f q.session r.session × Beside q r)
        (λ _ r. Holds 0 p r) (on_session (rtsp_teardown world.session_net) q)
        (λ _ r k. Closes-Holds p q r h k.0 k.1)
        (lift (λ _ d. Closes world.session_net f q.session d) (rtsp_teardown world.session_net) q
          (teardown-Closes world.session_net f q.session))

  -- The end of the redirections; no redirection is the last.
  abbrev pub Ended : Player → Option SetupEnd → Player → Type 0
  Ended p none q = Holds 0 p q
  Ended p (some redirected) q = ⊥
  Ended p (some end) q = Holds (held end) p q

  Ended-trans :
      (p q : Player) → Holds 0 p q → (e : Option SetupEnd) (r : Player) → Ended q e r → Ended p e r
  Ended-trans p q h none r k = Holds-trans 0 p q r h k
  Ended-trans p q h (some redirected) r k = k
  Ended-trans p q h (some set_up) r k = Holds-trans 1 p q r h k
  Ended-trans p q h (some setup_failed) r k = Holds-trans 1 p q r h k
  Ended-trans p q h (some unconnected) r k = Holds-trans 0 p q r h k

  follow_case :
      (n : ℕ) (p : Player) (o : Option (SetupEnd × Player))
      → Gives (λ e q. Holds (held e) p q) o
      → ((q : Player) → Holds 0 p q → Gives (Ended p) (follow_redirects world n q))
      → Gives (Ended p) (elim o [
        | none ↦ none
        | some (end, q) ↦ elim end [
          | redirected ↦ elim (on_session (destroy_connection world.session_net) q) [
            | none ↦ none
            | some (_, r) ↦ follow_redirects world n r
          ]
          | other ↦ some (some other, q)
        ]
      ])
  follow_case n p none h again = tt
  follow_case n p (some (redirected, q)) h again =
      Gives-bind (Ended p) (on_session (destroy_connection world.session_net) q)
        (λ _ r. follow_redirects world n r) (destroyed p q h) (λ _ r k. again r k)
  follow_case n p (some (set_up, q)) h again = h
  follow_case n p (some (setup_failed, q)) h again = h
  follow_case n p (some (unconnected, q)) h again = h

  pub follow_redirects-Ended :
      StdioTaken world.session_net
      → (n : ℕ) (p : Player) → Gives (Ended p) (follow_redirects world n p)
  unfolding follow_redirects
  follow_redirects-Ended g zero p = ((omega arith, tt), (refl, refl))
  follow_redirects-Ended g (suc n) p =
      follow_case n p (connect_session world p) (connect_session-Holds g p) (λ q h.
        Gives-map (Ended q) (Ended p) (follow_redirects world n q) (Ended-trans p q h)
          (follow_redirects-Ended g n q))
