-- ===== src/Player/Network/StreamSockets.antt =====
-- The sockets behind the setup of the session: the connection to the media server, and its failures.
use snmediaplayer_new.Common.{
  ℕ, zero, ◌+◌, ◌≡◌, refl, sym, ap, subst, ◌∙◌, ◌⊎◌, inl, inr, Bool, Bool-cases, true, false,
  Option, none, some, [], arith,
}
use snmediaplayer_new.Common.Int.{ℤ, pos, negsuc, is_zero}
use snmediaplayer_new.Rtsp.After
use snmediaplayer_new.Rtsp.State.{Client}
use snmediaplayer_new.Rtsp.Connect.{init}
use snmediaplayer_new.Rtsp.Setup.{has_control}
use snmediaplayer_new.Rtsp.Vcr.{rtsp_teardown}
use snmediaplayer_new.Rtsp.Sockets.{one_if, StdioTaken}
use snmediaplayer_new.Player.State.{
  Player, World, branch, pure, on_session, on_streaming, with_streaming,
}
use snmediaplayer_new.Player.After.{Gives, Gives-bind, Gives-map}
use snmediaplayer_new.Player.Network.{
  try_connect, ms_keep_alive_begin, ss_keep_alive_end, end_session, ms_fail, begin_streaming,
  connect_streaming, after_session_thread, establish_times,
}
use snmediaplayer_new.Player.Network.SessionSockets.{Leaves, try_connect-Leaves, Holds, torn_down}

module _ (world : World) (f : ℕ) where
  -- Each descriptor `f` was closed as often as it was opened since, to either server, but for the socket
  -- of the session server's client if `n` is 1, and that of the media server's client if `m` is 1.
  abbrev pub Opens : ℕ → ℕ → Player → Player → Type 0
  Opens n m p q =
      Leaves world.session_net f n p.session q.session
      × Leaves world.streaming_net f m p.streaming q.streaming
      × (q.setup_type ≡ p.setup_type)

  -- The last `pthread_create` was refused.
  abbrev pub Refused : Player → Type 0
  Refused q = (n : ℕ) × (q.creations ≡ n + 1) × (is_zero (world.create_code n) ≡ false)

  -- With 0, one socket to each server that the service has; otherwise none, or both if the thread of
  -- the heartbeats to the media server could not be created.
  abbrev pub Outcome : Player → ℤ → Player → Type 0
  Outcome p (pos zero) q = Opens 1 (one_if (has_control p.setup_type)) p q
  Outcome p _ q =
      Opens 0 0 p q
      ⊎ (Opens 1 1 p q × Refused q × (q.if_sm_setup ≡ true) × (has_control p.setup_type ≡ true))

  abbrev pub OutcomeIf : Player → Option ℤ → Player → Type 0
  OutcomeIf p none q = Opens 0 0 p q
  OutcomeIf p (some r) q = Outcome p r q

  -- The clients and the service are as they were.
  abbrev pub Untouched : Player → Player → Type 0
  Untouched p q =
      (q.session ≡ p.session) × (q.streaming ≡ p.streaming) × (q.setup_type ≡ p.setup_type)

  pub Opens-Untouched : (n m : ℕ) (p q r : Player) → Opens n m p q → Untouched q r → Opens n m p r
  Opens-Untouched n m p q r (s, t, e) (a, b, c) = (
    subst (Leaves world.session_net f n p.session) (sym a) s,
    subst (Leaves world.streaming_net f m p.streaming) (sym b) t,
    c ∙ e,
  )

  -- What the session server's part is seen from.
  abbrev based : Player → Player → Player
  based p q = record p { streaming = q.streaming; setup_type = q.setup_type }

  Opens-based :
      (n m k : ℕ) (p q r : Player) → Opens n m p q → Holds world f k (based p q) r → Opens k m p r
  Opens-based n m k p q r (s, t, e) (l, (a, b)) =
      (l, subst (Leaves world.streaming_net f m p.streaming) (sym a) t, b ∙ e)

  ss_end-Untouched : (p : Player) → Gives (λ _ q. Untouched p q) (ss_keep_alive_end world p)
  unfolding ss_keep_alive_end
  ss_end-Untouched p = ground arith

  torn :
      (m : ℕ) (p q : Player)
      → Opens 1 m p q
      → Gives (λ _ r. Opens 0 m p r) (on_session (rtsp_teardown world.session_net) q)
  torn m p q h =
      Gives-map (λ _ r. Holds world f 0 (based p q) r) (λ _ r. Opens 0 m p r)
        (on_session (rtsp_teardown world.session_net) q) (λ _ r k. Opens-based 1 m 0 p q r h k)
        (torn_down world f (based p q) q (h.0, (refl, refl)))

  session_ends :
      (m : ℕ) (p q : Player) → Opens 1 m p q → Gives (λ _ r. Opens 0 m p r) (end_session world q)
  unfolding end_session
  session_ends m p q h =
      Gives-bind (λ _ r. Opens 0 m p r) (ss_keep_alive_end world q) _ (ss_end-Untouched q)
        (λ _ r k.
          Gives-bind (λ _ s. Opens 0 m p s) (on_session (rtsp_teardown world.session_net) r) _
            (torn m p r (Opens-Untouched 1 m p q r h k)) (λ _ s l. l))

  ms_fail-Opens :
      (m : ℕ) (p q : Player)
      → q.if_sm_setup ≡ true
      → Opens 1 m p q
      → Gives (λ ret r. (ret ≡ negsuc 0) × Opens 0 m p r) (ms_fail world q)
  unfolding ms_fail
  ms_fail-Opens m p q s h =
      Gives-bind (λ ret r. (ret ≡ negsuc 0) × Opens 0 m p r)
        (branch q.if_sm_setup (end_session world) (pure tt) q) _
        (subst (λ b. Gives (λ _ r. Opens 0 m p r) (branch b (end_session world) (pure tt) q))
          (sym s) (session_ends m p q h))
        (λ _ r k. (refl, k))

  -- Both sockets are open, and the session is marked as set up.
  abbrev Streams : ℕ → Player → Player → Type 0
  Streams m p q = Opens 1 m p q × (q.if_sm_setup ≡ true) × (has_control p.setup_type ≡ true)

  ms_begin-Outcome :
      (p q : Player) → Streams 1 p q → Gives (Outcome p) (begin_streaming world true q)
  unfolding begin_streaming ms_keep_alive_begin
  ms_begin-Outcome p q h = elim (Bool-cases (is_zero (world.create_code q.creations))) [
    | inl e ↦ rw (begin_streaming, ms_keep_alive_begin, e) (rw (h.2) (h.0))
    | inr e ↦
        rw (begin_streaming, ms_keep_alive_begin, e) (inr (h.0, (q.creations, refl, e), h.1, h.2))
  ]

  begin_streaming-Outcome :
      (ok : Bool) (p q : Player)
      → Streams (one_if ok) p q
      → Gives (Outcome p) (begin_streaming world ok q)
  unfolding begin_streaming
  begin_streaming-Outcome true p q h = ms_begin-Outcome p q h
  begin_streaming-Outcome false p q h =
      Gives-map (λ ret r. (ret ≡ negsuc 0) × Opens 0 0 p r) (Outcome p) (ms_fail world q)
        (λ ret r k. subst (λ v. Outcome p v r) (sym k.0) (inl k.1)) (ms_fail-Opens 0 p q h.1 h.0)

  lift_streaming :
      {A : Type 0} (P : A → Client → Type 0) (m : Client → Option (A × Client)) (p : Player)
      → After.Gives P (m p.streaming)
      → Gives
          (λ a q.
            P a q.streaming
            × (q.session ≡ p.session)
            × (q.setup_type ≡ p.setup_type)
            × (q.if_sm_setup ≡ p.if_sm_setup))
          (on_streaming m p)
  lift_streaming {A} P m p h = step (m p.streaming) h
    where
      step :
          (o : Option (A × Client))
          → After.Gives P o
          → Gives
              (λ a q.
                P a q.streaming
                × (q.session ≡ p.session)
                × (q.setup_type ≡ p.setup_type)
                × (q.if_sm_setup ≡ p.if_sm_setup))
              (with_streaming p o)
      step none k = tt
      step (some (a, c)) k = (k, refl, refl, refl)

  -- The client of the media server, with its address and behind `init`.
  abbrev addressed : Player → Player
  addressed q = record q {
    streaming = record q.streaming {
      ip = q.session.ms_ip;
      port = q.session.ms_port;
      tx_buffer = [];
      rx_buffer = [];
      sock = negsuc 0;
      cseq_tx = 0;
      session_id = [];
      global_session_id = [];
    };
  }

  connect_streaming-Outcome :
      StdioTaken world.streaming_net
      → (p q : Player) → Streams 0 p q
      → Gives (Outcome p) (connect_streaming world q)
  unfolding connect_streaming init
  connect_streaming-Outcome g p q ((s, (l, _), e), m, c) =
      Gives-bind (Outcome p)
        (on_streaming (try_connect world.streaming_net establish_times) (addressed q))
        (begin_streaming world)
        (lift_streaming (λ ok d. Leaves world.streaming_net f (one_if ok) (addressed q).streaming d)
          (try_connect world.streaming_net establish_times) (addressed q)
          (try_connect-Leaves world.streaming_net f g establish_times (addressed q).streaming))
        (λ ok r k. begin_streaming-Outcome ok p r (
          (
            subst (Leaves world.session_net f 1 p.session) (sym k.1) s,
            (omega (arith, l, k.0.0), k.0.1),
            k.2 ∙ e,
          ),
          k.3 ∙ m,
          c,
        ))

  -- With the session set up, by whether the service has a media server.
  streams_if :
      StdioTaken world.streaming_net
      → (b : Bool) (p q : Player) → has_control p.setup_type ≡ b
      → Opens 1 0 p q
      → q.if_sm_setup ≡ true
      → Gives (Outcome p) (branch b (connect_streaming world) (pure (pos 0)) q)
  streams_if g true p q e h m = connect_streaming-Outcome g p q (h, m, e)
  streams_if g false p q e h m = rw e h

  pub after_session_thread-Outcome :
      StdioTaken world.streaming_net
      → (r : ℤ) (p q : Player) → Opens 1 0 p q
      → Gives (Outcome p) (after_session_thread world r q)
  unfolding after_session_thread
  after_session_thread-Outcome g r p q h = elim (Bool-cases (is_zero r)) [
    | inl e ↦
        rw (after_session_thread, e)
          (streams_if g (has_control q.setup_type) p (record q { if_sm_setup = true })
            (ap has_control (sym (h.2))) h refl)
    | inr e ↦
        rw (after_session_thread, e)
          (Gives-bind (Outcome p) (on_session (rtsp_teardown world.session_net) q) _ (torn 0 p q h)
            (λ _ s k. inl k))
  ]
