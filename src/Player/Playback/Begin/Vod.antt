-- ===== src/Player/Playback/Begin/Vod.antt =====
-- What `main_vod_player` has reached in front of its main loop.
use snmediaplayer_new.Common.{
  ℕ, zero, suc, ◌≡◌, refl, sym, ap, subst, ◌∙◌, ◌⊎◌, inl, inr, Bool, Bool-cases, true, false,
  Option, none, some, arith, length, if◌then◌else◌,
}
use snmediaplayer_new.Common.Int.{ℤ, pos, negsuc, is_zero, is_one, to_i32}
use snmediaplayer_new.Common.Text.{Bytes}
use snmediaplayer_new.Tsplayer.State.{Dvb}
use snmediaplayer_new.Tsplayer.Play.{dvbplay}
use snmediaplayer_new.Tsplayer.Programs.{GivesTable}
use snmediaplayer_new.Rtsp.State.{Client}
use snmediaplayer_new.Rtsp.Vcr.{rtsp_play}
use snmediaplayer_new.Player.State.{
  Event, event_player_exit, event_player_exit_vod, Player, World, ◌>>=◌, with_dvb, on_streaming,
  pure,
}
use snmediaplayer_new.Player.After.{Gives, Gives-bind, Gives-map, Gives-both}
use snmediaplayer_new.Player.Queue.{drain, clear_dummy_key}
use snmediaplayer_new.Player.License.{parse_cw_from_license}
use snmediaplayer_new.Player.Network.{network_init, ss_keep_alive_end}
use snmediaplayer_new.Player.Network.Kept.{Exists, network_init-Exists}
use snmediaplayer_new.Player.Online.{ConnectedFor, network_init-ConnectedFor}
use snmediaplayer_new.Player.Pts.{no_pts}
use snmediaplayer_new.Player.Playback.{
  Label, main_loop, cleanup, finished, exit_thread, ms_keep_alive_end, teardown_if_setup,
  tune_program, search_program, start_volume,
}
use snmediaplayer_new.Player.Playback.Vod.{
  Locals, zero_key, release_caller, started, ended, end_vod_session, vod_failed, play_film,
  vod_searched, vod_tuned, vod_playing, vod_connected, vod_begin,
}
use snmediaplayer_new.Player.Playback.Begin.Licensed.{DvbHolds, parse_cw-Licensed, play-Held}
use snmediaplayer_new.Player.Playback.Begin.{
  HasProgram, AtFrequency, AtFrequency-Connects, AtFrequency-Fresh, Fresh, Connects,
  search_program-Searched, tune-Connects, volume-Kept, Exits, Online, Online-Connects, Ready, ready,
  Connection, connection, drain-Kept, Connects-trans,
}

module _ (world : World) (gives : GivesTable world.board) where
  -- What `main_vod_player` has reached: it goes to the main loop, or to the cleanup if the decoder did
  -- not start, or it has ended with the waiting caller released; `none` while the session server
  -- redirects.
  abbrev pub VodBegun : Player → Option (Label × Locals) → Player → Type 0
  VodBegun p none q = (q.freed ≡ false) × (q.mediaplayer_thread ≡ p.mediaplayer_thread)
  VodBegun p (some (main_loop, v)) q = Ready world gives p q
  VodBegun p (some (cleanup, v)) q = Ready world gives p q
  VodBegun p (some (finished, v)) q =
      (q.trick_ok_flag ≡ true)
      × (Exits world gives event_player_exit q ⊎ Exits world gives event_player_exit_vod q)
  VodBegun p (some (_, v)) q = ⊥

  dvb_step :
      (p : Player) (o : Option (ℤ × Dvb))
      → DvbHolds p.dvb o
      → Gives
          (λ _ q. Connects p q × (q.cur_freq ≡ p.cur_freq) × (q.dvb.prog_tbl ≡ p.dvb.prog_tbl))
          (with_dvb p o)
  dvb_step p none h = tt
  dvb_step p (some (r, t)) h = ((refl, refl, refl, refl, refl, refl), refl, h)

  ss_end-Alive :
      (p : Player) → p.freed ≡ false → Gives (λ _ q. q.freed ≡ false) (ss_keep_alive_end world p)
  unfolding ss_keep_alive_end
  ss_end-Alive p f = ground arith

  ms_end-Alive :
      (p : Player) → p.freed ≡ false → Gives (λ _ q. q.freed ≡ false) (ms_keep_alive_end world p)
  unfolding ms_keep_alive_end
  ms_end-Alive p f = ground arith

  teardown-Alive :
      (p : Player) → p.freed ≡ false → Gives (λ _ q. q.freed ≡ false) (teardown_if_setup world p)
  unfolding teardown_if_setup
  teardown-Alive p f = ground arith

  end_vod-Alive :
      (p : Player) → p.freed ≡ false → Gives (λ _ q. q.freed ≡ false) (end_vod_session world p)
  unfolding end_vod_session
  end_vod-Alive p f =
      Gives-bind (λ _ q. q.freed ≡ false) (ss_keep_alive_end world p) _ (ss_end-Alive p f)
        (λ _ q g.
          Gives-bind (λ _ r. r.freed ≡ false) (ms_keep_alive_end world q) _ (ms_end-Alive q g)
            (λ _ r h. teardown-Alive r h))

  -- An end with this event behind the release of the waiting caller.
  abbrev Ended : Event → Label × Locals → Player → Type 0
  Ended event l q = (l ≡ ended finished) × (q.trick_ok_flag ≡ true) × Exits world gives event q

  exit-Ended :
      (event : Event) (p : Player)
      → p.freed ≡ false
      → p.trick_ok_flag ≡ true
      → Gives (Ended event) ((exit_thread event >>= λ l. pure (ended l)) p)
  exit-Ended event p f t = elim (Bool-cases p.has_callback) [
    | inl e ↦ rw e (refl, t, (f, refl, inr (p.events, refl)))
    | inr e ↦ rw e (refl, t, (f, refl, inl refl))
  ]

  failed-Ended :
      (p : Player) → p.freed ≡ false → Gives (Ended event_player_exit) (vod_failed world p)
  unfolding vod_failed
  failed-Ended p f =
      Gives-bind (Ended event_player_exit) (end_vod_session world p) _ (end_vod-Alive p f)
        (λ _ q g. exit-Ended event_player_exit (record q { trick_ok_flag = true }) g refl)

  failed-Begun :
      (p q : Player) → q.freed ≡ false → Gives (λ l r. VodBegun p (some l) r) (vod_failed world q)
  failed-Begun p q f =
      Gives-map (Ended event_player_exit) (λ l r. VodBegun p (some l) r) (vod_failed world q)
        (λ l r k. subst (λ m. VodBegun p (some m) r) (sym k.0) (k.1, inl k.2)) (failed-Ended q f)

  to_loop :
      (z : Bool) (scramble : ℤ) (p q : Player)
      → Ready world gives p q
      → VodBegun p (some (started (if z then main_loop else cleanup) scramble)) q
  to_loop true scramble p q h = h
  to_loop false scramble p q h = h

  film-Begun :
      (cw : ℤ × Bytes) (p q : Player)
      → Online world gives p q
      → AtFrequency world gives p q
      → HasProgram q
      → Gives (λ l r. VodBegun p (some l) r) (play_film world cw q)
  unfolding play_film
  film-Begun (scramble, key) p q o f h =
      let k = if is_one scramble then some key else none in
      Gives-bind (λ l r. VodBegun p (some l) r)
        (with_dvb q (dvbplay world.board q.havplay q.session.play_param.pn_id k q.dvb)) _
        (dvb_step q (dvbplay world.board q.havplay q.session.play_param.pn_id k q.dvb)
          (play-Held world q.havplay q.session.play_param.pn_id k q.dvb))
        (λ ret r c. to_loop (is_zero ret) scramble p r (ready world gives p q r o f h c))

  searched-Begun :
      (ret : ℤ) (p q : Player)
      → Online world gives p q
      → AtFrequency world gives p q
      → (is_zero ret ≡ true → HasProgram q)
      → Gives (λ l r. VodBegun p (some l) r) (vod_searched world ret q)
  unfolding vod_searched
  searched-Begun ret p q o f h = elim (Bool-cases (is_zero ret)) [
    | inl z ↦
        rw (vod_searched, z)
          (Gives-bind (λ l r. VodBegun p (some l) r) (start_volume world q) _
            (volume-Kept world gives q)
            (λ _ r k.
              Gives-bind (λ l s. VodBegun p (some l) s)
                (parse_cw_from_license world q.session.license zero_key r) _
                (parse_cw-Licensed world q.session.license zero_key r)
                (λ cw s l.
                  let (x, t, y, n, (g, i)) = ready world gives p q s o f (h z) (
                    Connects-trans q r s k.0 l.0,
                    l.1 ∙ k.1,
                    ap (λ (d : Dvb). d.prog_tbl) l.2 ∙ k.2,
                  ) in
                  film-Begun cw p s (x, t, y, n) g i)))
    | inr z ↦ rw (vod_searched, z) (failed-Begun p q o.0)
  ]

  tuned-Begun :
      (ok : Bool) (p q : Player)
      → Online world gives p q
      → (ok ≡ true → AtFrequency world gives p q)
      → Gives (λ l r. VodBegun p (some l) r) (vod_tuned world ok q)
  unfolding vod_tuned
  tuned-Begun true p q o f =
      Gives-bind (λ l r. VodBegun p (some l) r) (search_program world q) (vod_searched world)
        (search_program-Searched world gives q)
        (λ ret r k.
          searched-Begun ret p r (Online-Connects world gives p q r o k.0.0)
            (AtFrequency-Connects world gives p q r (f refl) k.0.0 k.0.1) k.1)
  tuned-Begun false p q o f = failed-Begun p (record q { cur_freq = 0 }) o.0

  playing-Begun :
      (ret : ℤ) (p q : Player)
      → Online world gives p q
      → Fresh world gives p q
      → Gives (λ l r. VodBegun p (some l) r) (vod_playing world ret q)
  unfolding vod_playing
  playing-Begun ret p q o w = elim (Bool-cases (is_zero ret)) [
    | inl z ↦
        rw (vod_playing, z)
          (Gives-bind (λ l r. VodBegun p (some l) r)
            (tune_program world (record q { trans_time = 0 })) (vod_tuned world)
            (tune-Connects world gives (record q { trans_time = 0 }))
            (λ ok r k.
              tuned-Begun ok p r
                (Online-Connects world gives p (record q { trans_time = 0 }) r o k.0)
                (λ e. AtFrequency-Fresh world gives p (record q { trans_time = 0 }) r w (k.1 e))))
    | inr z ↦ rw (vod_playing, z) (failed-Begun p q o.0)
  ]

  played-Online :
      (m : Client → Option (ℤ × Client)) (p q : Player)
      → Online world gives p q
      → Fresh world gives p q
      → Gives (λ _ r. Online world gives p r × Fresh world gives p r) (on_streaming m q)
  played-Online m p q o w = ground arith

  refused-Begun :
      (p q : Player)
      → q.freed ≡ false
      → Gives (VodBegun p) (
          (release_caller world >>= λ _.
          exit_thread event_player_exit_vod >>= λ l. pure (some (ended l)))
            q)
  refused-Begun p q f = elim (Bool-cases q.has_callback) [
    | inl e ↦ rw e (refl, inr (f, refl, inr (q.events, refl)))
    | inr e ↦ rw e (refl, inr (f, refl, inl refl))
  ]

  connected-Begun :
      (ret : Option ℤ) (p q : Player)
      → Connection world gives p ret q
      → Gives (VodBegun p) (vod_connected world ret q)
  unfolding vod_connected
  connected-Begun none p q h = (h.0, h.1)
  connected-Begun (some (pos zero)) p q h =
      Gives-bind (VodBegun p)
        (on_streaming (rtsp_play world.streaming_net (to_i32 q.media_start_time))
          (record q { status_network = pos 0 }))
        _
        (played-Online (rtsp_play world.streaming_net (to_i32 q.media_start_time)) p
          (record q { status_network = pos 0 }) (h.0, h.1, h.2 refl, refl) h.3)
        (λ played r o.
          Gives-bind (VodBegun p) (vod_playing world played r) _ (playing-Begun played p r o.0 o.1)
            (λ l s b. b))
  connected-Begun (some (pos (suc n))) p q h =
      refused-Begun p (record q { status_network = pos (suc n) }) h.0
  connected-Begun (some (negsuc n)) p q h =
      refused-Begun p (record q { status_network = negsuc n }) h.0

  -- If the SDK gives a table with each success and nothing faults, `main_vod_player` goes to its main
  -- loop, or to the cleanup behind it if the decoder did not start, with the session set up, the
  -- frequency that the session server named tuned (it was the one tuned before, or `DSP_DVBplay_tune`
  -- of it succeeded), and a table held in which the named program stands;
  -- or it ends with the clients there, the caller that waits released, the thread marked as ended, and
  -- an exit event passed to the callback; or the session server still redirects.
  pub vod_begin-Begun : (rounds : ℕ) (p : Player) → Gives (VodBegun p) (vod_begin world rounds p)
  unfolding vod_begin clear_dummy_key
  vod_begin-Begun rounds p =
      let p0 = record p { play_first_pts = no_pts } in
      Gives-bind (VodBegun p) (drain (suc (length p.queue)) p0) _
        (drain-Kept world gives (suc (length p.queue)) p0)
        (λ _ q h.
          Gives-bind (VodBegun p) (network_init world rounds q) (vod_connected world)
            (Gives-both (Exists q) (ConnectedFor world) (network_init world rounds q)
              (network_init-Exists world rounds q) (network_init-ConnectedFor world rounds q))
            (λ ret r k. connected-Begun ret p r (
              let c = connection world gives q r ret k.0 k.1 in
              (c.0, c.1 ∙ h.1, c.2, (c.3.0 ∙ h.2, c.3.1 ∙ h.3)))))
