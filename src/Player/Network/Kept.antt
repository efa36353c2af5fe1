-- ===== src/Player/Network/Kept.antt =====
-- What `Network_Init` leaves alone: the clients' existence and the mark of the thread.
use snmediaplayer_new.Common.{
  ℕ, zero, suc, ◌≡◌, refl, ◌∙◌, Bool, true, false, Bool-cases, inl, inr, Option, arith,
}
use snmediaplayer_new.Common.Int.{ℤ, pos, negsuc, is_zero}
use snmediaplayer_new.Rtsp.Setup.{has_control}
use snmediaplayer_new.Rtsp.Vcr.{rtsp_teardown}
use snmediaplayer_new.Player.State.{Player, World, ◌>>=◌, alive, on_session, branch, pure}
use snmediaplayer_new.Player.After.{Gives, Gives-bind, Gives-map}
use snmediaplayer_new.Player.Queue.{player_recv_stop_key, rcvfrom_mediaplayermsg}
use snmediaplayer_new.Player.Network.{
  SetupEnd, try_setup, if_connected, connect_session, follow_redirects, ss_keep_alive_begin,
  ms_keep_alive_begin, ss_keep_alive_end, end_session, ms_fail, begin_streaming, connect_streaming,
  after_session_thread, begin_session, after_setup, pass_times, network_init,
}

-- The clients, the thread and the decoder are as they were.
abbrev pub Kept : Player → {A : Type 0} → A → Player → Type 0
Kept p a q =
    (q.freed ≡ p.freed)
    × (q.mediaplayer_thread ≡ p.mediaplayer_thread)
    × (q.dvb ≡ p.dvb)
    × (q.cur_freq ≡ p.cur_freq)

-- The clients exist, and the thread and the decoder are as they were.
abbrev pub Exists : Player → {A : Type 0} → A → Player → Type 0
Exists p a q =
    (q.freed ≡ false)
    × (q.mediaplayer_thread ≡ p.mediaplayer_thread)
    × (q.dvb ≡ p.dvb)
    × (q.cur_freq ≡ p.cur_freq)

module _ (world : World) where
  stop_key-Kept : (p : Player) → Gives (Kept p) (player_recv_stop_key p)
  unfolding player_recv_stop_key rcvfrom_mediaplayermsg
  stop_key-Kept p = ground arith

  try_setup-Kept : (n : ℕ) (p : Player) → Gives (Kept p) (try_setup world n p)
  unfolding try_setup
  try_setup-Kept zero p = (refl, refl, refl, refl)
  try_setup-Kept (suc n) p = grind (arith, stop_key-Kept, try_setup-Kept n)

  connect-Kept : (p : Player) → Gives (Kept p) (connect_session world p)
  unfolding connect_session if_connected
  connect-Kept p = grind (arith, try_setup-Kept)

  follow-Kept : (n : ℕ) (p : Player) → Gives (Kept p) (follow_redirects world n p)
  unfolding follow_redirects
  follow-Kept zero p = (refl, refl, refl, refl)
  follow-Kept (suc n) p = grind (arith, connect-Kept, follow-Kept n)

  end_session-Kept : (p : Player) → Gives (Kept p) (end_session world p)
  unfolding end_session ss_keep_alive_end
  end_session-Kept p = ground arith

  begin_streaming-Kept : (ok : Bool) (p : Player) → Gives (Kept p) (begin_streaming world ok p)
  unfolding begin_streaming ms_fail ms_keep_alive_begin
  begin_streaming-Kept ok p = grind (arith, end_session-Kept)

  connect_streaming-Kept : (p : Player) → Gives (Kept p) (connect_streaming world p)
  unfolding connect_streaming
  connect_streaming-Kept p = grind (arith, begin_streaming-Kept)

  streams-Kept :
      (b : Bool) (p : Player) → Gives (Kept p) (branch b (connect_streaming world) (pure (pos 0)) p)
  streams-Kept true p = connect_streaming-Kept p
  streams-Kept false p = (refl, refl, refl, refl)

  teardown-Kept :
      (p : Player)
      → Gives (Kept p) ((on_session (rtsp_teardown world.session_net) >>= λ _. pure (negsuc 0)) p)
  teardown-Kept p = ground arith

  after_session_thread-Kept : (r : ℤ) (p : Player) → Gives (Kept p) (after_session_thread world r p)
  unfolding after_session_thread
  after_session_thread-Kept r p = elim (Bool-cases (is_zero r)) [
    | inl e ↦
        rw (after_session_thread, e)
          (streams-Kept (has_control p.setup_type) (record p { if_sm_setup = true }))
    | inr e ↦ rw (after_session_thread, e) (teardown-Kept p)
  ]

  begin_session-Kept : (p : Player) → Gives (Kept p) (begin_session world p)
  unfolding begin_session ss_keep_alive_begin
  begin_session-Kept p = grind (arith, after_session_thread-Kept)

  after_setup-Kept : (e : Option SetupEnd) (p : Player) → Gives (Kept p) (after_setup world e p)
  unfolding after_setup
  after_setup-Kept e p = grind (arith, begin_session-Kept)

  times-Kept : (p : Player) → Gives (Kept p) (pass_times world p)
  times-Kept p = ground arith

  alive-Exists : (p : Player) → Gives (Exists p) (alive p)
  alive-Exists p = ground arith

  pub network_init-Exists :
      (rounds : ℕ) (p : Player) → Gives (Exists p) (network_init world rounds p)
  unfolding network_init
  network_init-Exists rounds p = Gives-bind (Exists p) (alive p) _ (alive-Exists p) (λ _ q h.
      Gives-bind (Exists p) (pass_times world q) _ (times-Kept q) (λ _ r k.
        Gives-bind (Exists p) (follow_redirects world rounds r) (after_setup world)
          (follow-Kept rounds r)
          (λ e s l.
            Gives-map (Kept s) (Exists p) (after_setup world e s)
              (λ ret t m. (
                m.0 ∙ l.0 ∙ k.0 ∙ h.0,
                m.1 ∙ l.1 ∙ k.1 ∙ h.1,
                m.2 ∙ l.2 ∙ k.2 ∙ h.2,
                m.3 ∙ l.3 ∙ k.3 ∙ h.3,
              ))
              (after_setup-Kept e s))))
