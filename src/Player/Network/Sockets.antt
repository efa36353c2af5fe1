-- ===== src/Player/Network/Sockets.antt =====
-- The sockets that `Network_Init` leaves open.
use snmediaplayer_new.Common.{
  ℕ, zero, suc, ◌+◌, ◌≡◌, refl, sym, ap, subst, ◌∙◌, inl, inr, Option, none, some, arith,
}
use snmediaplayer_new.Common.Int.{ℤ, pos, negsuc}
use snmediaplayer_new.Rtsp.Connect.{destroy_connection}
use snmediaplayer_new.Rtsp.Setup.{has_control}
use snmediaplayer_new.Rtsp.Sockets.{opened, closed, one_if, StdioTaken}
use snmediaplayer_new.Rtsp.Sockets.Kept.{kept_at}
use snmediaplayer_new.Player.State.{Player, World, ◌>>=◌, ◌>>◌, alive, on_session}
use snmediaplayer_new.Player.After.{Gives, Gives-bind, Gives-map}
use snmediaplayer_new.Player.Network.{
  SetupEnd, set_up, redirected, setup_failed, unconnected, follow_redirects, ss_keep_alive_begin,
  after_session_thread, begin_session, after_setup, pass_times, network_init,
}
use snmediaplayer_new.Player.Network.StreamSockets.{
  Opens, Outcome, OutcomeIf, Untouched, Opens-Untouched, after_session_thread-Outcome,
}
use snmediaplayer_new.Player.Network.SessionSockets.{
  Leaves, Holds, destroyed, Ended, follow_redirects-Ended,
}

module _ (world : World) (f : ℕ) where
  ss_begin-Untouched :
      (p : Player) → Gives (λ _ q. Untouched world f p q) (ss_keep_alive_begin world p)
  unfolding ss_keep_alive_begin
  ss_begin-Untouched p = (refl, refl, refl)

  begin_session-Outcome :
      StdioTaken world.streaming_net
      → (p q : Player) → Opens world f 1 0 p q
      → Gives (Outcome world f p) (begin_session world q)
  unfolding begin_session
  begin_session-Outcome g p q h =
      Gives-bind (Outcome world f p) (ss_keep_alive_begin world (handed q))
        (after_session_thread world) (ss_begin-Untouched (handed q))
        (λ r s k.
          after_session_thread-Outcome world f g r p s
            (Opens-Untouched world f 1 0 p (handed q) s h k))
    where
      handed : Player → Player
      handed q = record q {
        streaming = record q.streaming {
          ms_global_session_id = q.session.ms_global_session_id;
          ms_session_id = q.session.ms_session_id;
          session_timeout = q.session.ms_session_timeout;
        };
      }

  Holds-Opens : (n : ℕ) (p q : Player) → Holds world f n p q → Opens world f n 0 p q
  Holds-Opens n p q (l, (a, b)) =
      (l, subst (Leaves world.streaming_net f 0 p.streaming) (sym a) (omega arith, tt), b)

  after_setup-Outcome :
      StdioTaken world.streaming_net
      → (e : Option SetupEnd) (p q : Player) → Ended world f p e q
      → Gives (OutcomeIf world f p) (after_setup world e q)
  unfolding after_setup
  after_setup-Outcome g none p q h = Holds-Opens 0 p q h
  after_setup-Outcome g (some set_up) p q h =
      Gives-bind (OutcomeIf world f p) (begin_session world q) _
        (begin_session-Outcome g p q (Holds-Opens 1 p q h)) (λ r s k. k)
  after_setup-Outcome g (some setup_failed) p q h =
      Gives-bind (OutcomeIf world f p) (on_session (destroy_connection world.session_net) q) _
        (destroyed world f p q h) (λ _ s k. inl (Holds-Opens 0 p s k))
  after_setup-Outcome g (some unconnected) p q h = inl (Holds-Opens 0 p q h)
  after_setup-Outcome g (some redirected) p q h = absurd h

  -- What is in front of the first connection changes neither the sockets nor the service.
  abbrev Starts : Player → Player → Type 0
  Starts p q =
      (q.session.ios ≡ p.session.ios) × (q.streaming ≡ p.streaming) × (q.setup_type ≡ p.setup_type)

  Opens-Starts :
      (n m : ℕ) (p q r : Player) → Starts p q → Opens world f n m q r → Opens world f n m p r
  Opens-Starts n m p q r (a, b, c) ((l, k), t, e) = (
    (
      subst
          (λ h.
            opened f world.session_net r.session.ios + closed f h
            ≡ kept_at f n r.session.sock + (opened f world.session_net h + closed f r.session.ios))
          a l,
      k,
    ),
    subst (λ d. Leaves world.streaming_net f m d r.streaming) b t,
    e ∙ c,
  )

  Outcome-Starts :
      (p q : Player)
      → Starts p q
      → (ret : ℤ) (r : Player) → Outcome world f q ret r
      → Outcome world f p ret r
  Outcome-Starts p q s (pos zero) r h =
      Opens-Starts 1 (one_if (has_control p.setup_type)) p q r s
        (subst (λ v. Opens world f 1 (one_if (has_control v)) q r) (s.2) h)
  Outcome-Starts p q s (pos (suc n)) r (inl h) = inl (Opens-Starts 0 0 p q r s h)
  Outcome-Starts p q s (pos (suc n)) r (inr h) =
      inr (Opens-Starts 1 1 p q r s h.0, h.1, h.2, ap has_control (sym (s.2)) ∙ h.3)
  Outcome-Starts p q s (negsuc n) r (inl h) = inl (Opens-Starts 0 0 p q r s h)
  Outcome-Starts p q s (negsuc n) r (inr h) =
      inr (Opens-Starts 1 1 p q r s h.0, h.1, h.2, ap has_control (sym (s.2)) ∙ h.3)

  OutcomeIf-Starts :
      (p q : Player)
      → Starts p q
      → (ret : Option ℤ) (r : Player) → OutcomeIf world f q ret r
      → OutcomeIf world f p ret r
  OutcomeIf-Starts p q s none r h = Opens-Starts 0 0 p q r s h
  OutcomeIf-Starts p q s (some ret) r h = Outcome-Starts p q s ret r h

  alive-Starts : (p : Player) → Gives (λ _ q. q ≡ p) (alive p)
  alive-Starts p = ground arith

  times-Starts : (p : Player) → Gives (λ _ q. Starts p q) (pass_times world p)
  times-Starts p = ground arith

  -- If descriptors 0 and 1 are taken and `Network_Init` does not fault, then with 0 each descriptor `f`
  -- has been closed as often as it was opened, to either server, but for the socket that the session
  -- server's client has, and for that of the media server's client if the service has one: these are
  -- left open. Otherwise there is no exception, also while the session server redirects on, unless the
  -- thread of the heartbeats to the media server could not be created: then both sockets are left open,
  -- and the session is marked as set up.
  pub network_init-Outcome :
      StdioTaken world.session_net
      → StdioTaken world.streaming_net
      → (rounds : ℕ) (p : Player) → Gives (OutcomeIf world f p) (network_init world rounds p)
  unfolding network_init
  network_init-Outcome g h rounds p =
      Gives-bind (OutcomeIf world f p) (alive p) _ (alive-Starts p) (λ _ q e.
        subst (λ v. Gives (OutcomeIf world f p) (timed v)) (sym e)
          (Gives-bind (OutcomeIf world f p) (pass_times world p) _ (times-Starts p) (λ _ r s.
            Gives-bind (OutcomeIf world f p) (follow_redirects world rounds r) (after_setup world)
              (follow_redirects-Ended world f g rounds r)
              (λ end t k.
                Gives-map (OutcomeIf world f r) (OutcomeIf world f p) (after_setup world end t)
                  (OutcomeIf-Starts p r s) (after_setup-Outcome h end r t k)))))
    where
      timed : Player → Option (Option ℤ × Player)
      timed = do pass_times world; end ← follow_redirects world rounds; after_setup world end
