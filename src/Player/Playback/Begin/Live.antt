-- ===== src/Player/Playback/Begin/Live.antt =====
-- What `main_stream_player` has reached in front of its main loop.
use snmediaplayer_new.Common.{
  ℕ, zero, suc, ◌≡◌, refl, sym, subst, ◌∙◌, inl, inr, Bool, Bool-cases, true, false, Option, none,
  some, arith, length,
}
use snmediaplayer_new.Common.Int.{ℤ, pos, negsuc, is_zero}
use snmediaplayer_new.Tsplayer.Programs.{GivesTable}
use snmediaplayer_new.Player.State.{◌>>=◌, Player, World, event_player_exit}
use snmediaplayer_new.Player.After.{Gives, Gives-bind, Gives-map, Gives-both}
use snmediaplayer_new.Player.Queue.{drain, clear_dummy_key}
use snmediaplayer_new.Player.Network.Kept.{Exists, network_init-Exists}
use snmediaplayer_new.Player.Online.{ConnectedFor, network_init-ConnectedFor}
use snmediaplayer_new.Player.Network.{network_init, ss_keep_alive_end}
use snmediaplayer_new.Player.Playback.{
  Label, restart, finished, exit_thread, tune_program, search_program, start_volume,
}
use snmediaplayer_new.Player.Playback.Live.{
  end_live_session, live_searched, live_tuned, live_connected, live_begin,
}
use snmediaplayer_new.Player.Playback.Begin.{
  HasProgram, AtFrequency, AtFrequency-Connects, AtFrequency-Fresh, search_program-Searched,
  tune-Connects, volume-Kept, Exits, exit-Exits, Online, Online-Connects, Ready, ready, Connection,
  connection, drain-Kept,
}

module _ (world : World) (gives : GivesTable world.board) where
  -- What `main_stream_player` has reached: it goes to the label restart, or it has ended; `none` while
  -- the session server redirects.
  abbrev pub LiveBegun : Player → Option Label → Player → Type 0
  LiveBegun p none q = (q.freed ≡ false) × (q.mediaplayer_thread ≡ p.mediaplayer_thread)
  LiveBegun p (some restart) q = Ready world gives p q
  LiveBegun p (some finished) q = Exits world gives event_player_exit q
  LiveBegun p (some _) q = ⊥

  end_live-Alive :
      (p : Player) → p.freed ≡ false → Gives (λ _ q. q.freed ≡ false) (end_live_session world p)
  unfolding end_live_session ss_keep_alive_end
  end_live-Alive p f = ground arith

  exits :
      (p q : Player)
      → q.freed ≡ false
      → Gives
          (λ l r. LiveBegun p (some l) r)
          ((end_live_session world >>= λ _. exit_thread event_player_exit) q)
  exits p q f =
      Gives-bind (λ l r. LiveBegun p (some l) r) (end_live_session world q) _ (end_live-Alive q f)
        (λ _ r g.
          Gives-map (λ l s. (l ≡ finished) × Exits world gives event_player_exit s)
            (λ l s. LiveBegun p (some l) s) (exit_thread event_player_exit r)
            (λ l s k. subst (λ m. LiveBegun p (some m) s) (sym k.0) k.1)
            (exit-Exits world gives event_player_exit r g))

  searched-Begun :
      (ret : ℤ) (p q : Player)
      → Online world gives p q
      → AtFrequency world gives p q
      → (is_zero ret ≡ true → HasProgram q)
      → Gives (λ l r. LiveBegun p (some l) r) (live_searched world ret q)
  unfolding live_searched
  searched-Begun ret p q o f h = elim (Bool-cases (is_zero ret)) [
    | inl z ↦
        rw (live_searched, z)
          (Gives-bind (λ l r. LiveBegun p (some l) r) (start_volume world q) _
            (volume-Kept world gives q) (λ _ r k. ready world gives p q r o f (h z) k))
    | inr z ↦ rw (live_searched, z) (exits p q o.0)
  ]

  tuned-Begun :
      (ok : Bool) (p q : Player)
      → Online world gives p q
      → (ok ≡ true → AtFrequency world gives p q)
      → Gives (λ l r. LiveBegun p (some l) r) (live_tuned world ok q)
  unfolding live_tuned
  tuned-Begun true p q o f =
      Gives-bind (λ l r. LiveBegun p (some l) r) (search_program world q) (live_searched world)
        (search_program-Searched world gives q)
        (λ ret r k.
          searched-Begun ret p r (Online-Connects world gives p q r o k.0.0)
            (AtFrequency-Connects world gives p q r (f refl) k.0.0 k.0.1) k.1)
  tuned-Begun false p q o f =
      Gives-bind (λ l r. LiveBegun p (some l) r) (end_live_session world q) _ (end_live-Alive q o.0)
        (λ _ r g.
          Gives-map (λ l s. (l ≡ finished) × Exits world gives event_player_exit s)
            (λ l s. LiveBegun p (some l) s)
            (exit_thread event_player_exit (record r { cur_freq = 0 }))
            (λ l s k. subst (λ m. LiveBegun p (some m) s) (sym k.0) k.1)
            (exit-Exits world gives event_player_exit (record r { cur_freq = 0 }) g))

  connected-Begun :
      (ret : Option ℤ) (p q : Player)
      → Connection world gives p ret q
      → Gives (LiveBegun p) (live_connected world ret q)
  unfolding live_connected
  connected-Begun none p q h = (h.0, h.1)
  connected-Begun (some (pos zero)) p q h =
      Gives-bind (LiveBegun p) (tune_program world (record q { status_network = pos 0 })) _
        (tune-Connects world gives (record q { status_network = pos 0 }))
        (λ ok r k.
          Gives-bind (LiveBegun p) (live_tuned world ok r) _
            (tuned-Begun ok p r
              (Online-Connects world gives p (record q { status_network = pos 0 }) r
                (h.0, h.1, h.2 refl, refl) k.0)
              (λ e.
                AtFrequency-Fresh world gives p (record q { status_network = pos 0 }) r h.3
                  (k.1 e)))
            (λ l s b. b))
  connected-Begun (some (pos (suc n))) p q h =
      (exit-Exits world gives event_player_exit (record q { status_network = pos (suc n) }) h.0).1
  connected-Begun (some (negsuc n)) p q h =
      (exit-Exits world gives event_player_exit (record q { status_network = negsuc n }) h.0).1

  -- If the SDK gives a table with each success and nothing faults, `main_stream_player` goes to its
  -- main loop with the session set up, the frequency that the session server named tuned (it was the one
  -- tuned before, or `DSP_DVBplay_tune` of it succeeded), and a table held in which the named program stands; or it ends with the clients there, the thread marked as
  -- ended, and EVENT_PLAYER_EXIT passed to the callback; or the session server still redirects.
  pub live_begin-Begun : (rounds : ℕ) (p : Player) → Gives (LiveBegun p) (live_begin world rounds p)
  unfolding live_begin clear_dummy_key
  live_begin-Begun rounds p =
      Gives-bind (LiveBegun p) (drain (suc (length p.queue)) p) _
        (drain-Kept world gives (suc (length p.queue)) p)
        (λ _ q h.
          Gives-bind (LiveBegun p) (network_init world rounds q) (live_connected world)
            (Gives-both (Exists q) (ConnectedFor world) (network_init world rounds q)
              (network_init-Exists world rounds q) (network_init-ConnectedFor world rounds q))
            (λ ret r k. connected-Begun ret p r (
              let c = connection world gives q r ret k.0 k.1 in
              (c.0, c.1 ∙ h.1, c.2, (c.3.0 ∙ h.2, c.3.1 ∙ h.3)))))
