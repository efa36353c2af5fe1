-- ===== src/Player/Online.antt =====
-- What a connection that `Network_Init` reports has.
use snmediaplayer_new.Common.{
  ℕ, zero, suc, ◌≡◌, refl, Bool, true, not, ◌||◌, Option, none, some, arith,
}
use snmediaplayer_new.Common.Int.{ℤ, pos, negsuc, is_zero}
use snmediaplayer_new.Rtsp.Setup.{has_control}
use snmediaplayer_new.Player.State.{Player, World, alive}
use snmediaplayer_new.Player.Network.{
  SetupEnd, ss_keep_alive_begin, ms_keep_alive_begin, ss_keep_alive_end, ms_fail, begin_streaming,
  connect_streaming, after_session_thread, begin_session, after_setup, network_init, pass_times,
  follow_redirects,
}
use snmediaplayer_new.Player.After.{Gives, Gives-then, Gives-map}

-- Success comes with the session that is set up and the threads that the service needs.
abbrev pub Online : ℤ → Player → Type 0
Online r q =
    is_zero r ≡ true
    → (q.if_sm_setup ≡ true)
      × (q.ss_thread ≡ true)
      × (has_control q.setup_type ≡ true → q.ms_thread ≡ true)

abbrev pub OnlineIf : Option ℤ → Player → Type 0
OnlineIf none q = Unit
OnlineIf (some r) q = Online r q

module _ (world : World) where
  begin_streaming-Online :
      (ok : Bool) (p : Player)
      → p.if_sm_setup ≡ true
      → p.ss_thread ≡ true
      → Gives Online (begin_streaming world ok p)
  unfolding begin_streaming ms_fail ss_keep_alive_end ms_keep_alive_begin
  begin_streaming-Online ok p s t = ground arith

  connect_streaming-Online :
      (p : Player)
      → p.if_sm_setup ≡ true
      → p.ss_thread ≡ true
      → Gives Online (connect_streaming world p)
  unfolding connect_streaming
  connect_streaming-Online p s t = grind (arith, begin_streaming-Online)

  after_session_thread-Online :
      (r : ℤ) (p : Player)
      → (is_zero r ≡ true → p.ss_thread ≡ true)
      → Gives Online (after_session_thread world r p)
  unfolding after_session_thread
  after_session_thread-Online r p t = grind (arith, connect_streaming-Online)

  begin_session-Online : (p : Player) → Gives Online (begin_session world p)
  unfolding begin_session ss_keep_alive_begin
  begin_session-Online p = grind (arith, after_session_thread-Online)

  after_setup-Online :
      (end : Option SetupEnd) (p : Player) → Gives OnlineIf (after_setup world end p)
  unfolding after_setup
  after_setup-Online end p = grind (arith, begin_session-Online)

  online : (rounds : ℕ) (p : Player) → Gives OnlineIf (network_init world rounds p)
  unfolding network_init
  online rounds p = Gives-then OnlineIf (alive p) _ (λ _ q.
      Gives-then OnlineIf (pass_times world q) _ (λ _ r.
        Gives-then OnlineIf (follow_redirects world rounds r) (after_setup world)
          after_setup-Online))

  -- With `if_sm_setup` set, the keep-alive thread of the session server started, and for every service
  -- with a media server also that of the media server.
  abbrev pub Connected : Bool → Player → Type 0
  Connected streams q =
      (q.if_sm_setup ≡ true) × (q.ss_thread ≡ true) × ((not streams || q.ms_thread) ≡ true)

  abbrev pub ConnectedFor : Option ℤ → Player → Type 0
  ConnectedFor (some (pos zero)) q = Connected (has_control q.setup_type) q
  ConnectedFor _ q = Unit

  connected_for : (r : Option ℤ) (q : Player) → OnlineIf r q → ConnectedFor r q
  connected_for none q h = tt
  connected_for (some (pos zero)) q h = ground (arith, h refl)
  connected_for (some (pos (suc n))) q h = tt
  connected_for (some (negsuc n)) q h = tt

  -- If `Network_Init` does not fault and returns 0, then the session is marked as set up, the
  -- keep-alive thread of the session server was started, and for every service with a media server
  -- also that of the media server.
  pub network_init-ConnectedFor :
      (rounds : ℕ) (p : Player) → Gives ConnectedFor (network_init world rounds p)
  network_init-ConnectedFor rounds p =
      Gives-map OnlineIf ConnectedFor (network_init world rounds p) connected_for (online rounds p)
