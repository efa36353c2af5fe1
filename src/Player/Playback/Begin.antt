-- ===== src/Player/Playback/Begin.antt =====
-- What `main_stream_player` and `main_vod_player` do in front of their main loops: tuning and the
-- search for the program, and the ends of the thread.
pub mod Live
pub mod Licensed
pub mod Vod
pub mod Whole
use snmediaplayer_new.Common.{
  ℕ, zero, suc, ◌%◌, ◌≡◌, refl, sym, ap, subst, ◌∙◌, ◌⊎◌, ◌++◌, inl, inr, Bool, Bool-cases, true,
  false, Option, none, some, List, [], ◌∷◌, arith, length, if◌then◌else◌, ◌==◌,
}
use snmediaplayer_new.Common.Int.{ℤ, pos, negsuc, is_zero}
use snmediaplayer_new.Tsplayer.State.{ProgTbl, Board, Dvb}
use snmediaplayer_new.Tsplayer.Search.{dvbplay_search}
use snmediaplayer_new.Tsplayer.Programs.{FirstAt, GivesTable, search-Found}
use snmediaplayer_new.Tsplayer.Init.{dvbplay_tune}
use snmediaplayer_new.Tsplayer.Control.{dvbplay_setvolume}
use snmediaplayer_new.Rtsp.State.{Client}
use snmediaplayer_new.Player.State.{
  Event, ◌>>=◌, Player, World, event_player_exit, with_dvb, try_dvb,
}
use snmediaplayer_new.Player.After.{Gives, Gives-bind, Gives-map, Gives-both}
use snmediaplayer_new.Player.Queue.{
  player_recv_stop_key, rcvfrom_mediaplayermsg, drain, clear_dummy_key,
}
use snmediaplayer_new.Player.Network.Kept.{Kept, Exists, network_init-Exists}
use snmediaplayer_new.Player.Online.{ConnectedFor, network_init-ConnectedFor}
use snmediaplayer_new.Player.Network.{network_init, ss_keep_alive_end}
use snmediaplayer_new.Player.Playback.{
  Label, restart, finished, exit_thread, notify, tuned, tune_program, search_loop, search_program,
  start_volume, max_search_retry_times,
}
use snmediaplayer_new.Player.Playback.Live.{
  end_live_session, live_searched, live_tuned, live_connected, live_begin,
}

-- The program that the session server named stands in the table that is held.
abbrev pub HasProgram : Player → Type 0
HasProgram q =
    (tbl : ProgTbl) × (j : ℕ) × (q.dvb.prog_tbl ≡ some tbl)
    × FirstAt (q.session.play_param.pn_id % 65536) tbl.prog_ids j

-- What tuning and searching leave alone.
abbrev pub Connects : Player → Player → Type 0
Connects p q =
    (q.session ≡ p.session)
    × (q.streaming ≡ p.streaming)
    × (q.freed ≡ p.freed)
    × (q.if_sm_setup ≡ p.if_sm_setup)
    × (q.status_network ≡ p.status_network)
    × (q.mediaplayer_thread ≡ p.mediaplayer_thread)

pub Connects-trans : (p q r : Player) → Connects p q → Connects q r → Connects p r
Connects-trans p q r (a, b, c, d, e, f) (a', b', c', d', e', f') =
    (a' ∙ a, b' ∙ b, c' ∙ c, d' ∙ d, e' ∙ e, f' ∙ f)

moved :
    (p q : Player)
    → HasProgram p
    → q.session ≡ p.session
    → q.dvb.prog_tbl ≡ p.dvb.prog_tbl
    → HasProgram q
moved p q (tbl, j, held, first) s d = (
  tbl,
  j,
  d ∙ held,
  subst (λ (c : Client). FirstAt (c.play_param.pn_id % 65536) tbl.prog_ids j) (sym s) first,
)

module _ (world : World) (gives : GivesTable world.board) where
  stop_key-Connects :
      (p : Player)
      → Gives (λ _ q. Connects p q × (q.cur_freq ≡ p.cur_freq)) (player_recv_stop_key p)
  unfolding player_recv_stop_key rcvfrom_mediaplayermsg
  stop_key-Connects p = ground arith

  -- A search: with 0, the program is in the table.
  pub searched :
      (p : Player) (pnid : ℕ)
      → pnid ≡ p.session.play_param.pn_id
      → Gives
          (λ r q. (Connects p q × (q.cur_freq ≡ p.cur_freq)) × (is_zero r ≡ true → HasProgram q))
          (try_dvb (dvbplay_search world.board pnid) p)
  searched p pnid e = step (dvbplay_search world.board pnid p.dvb) refl
    where
      step :
          (o : Option (ℤ × Dvb))
          → dvbplay_search world.board pnid p.dvb ≡ o
          → Gives
              (λ r q.
                (Connects p q × (q.cur_freq ≡ p.cur_freq)) × (is_zero r ≡ true → HasProgram q))
              (with_dvb p o)
      step none h = tt
      step (some (r, t)) h = (
        ((refl, refl, refl, refl, refl, refl), refl),
        λ z. elim (search-Found world.board pnid p.dvb gives h) [
          | inl (ok, (tbl, j, stored, kept, first)) ↦
              (tbl, j, kept, subst (λ n. FirstAt (n % 65536) tbl.prog_ids j) e first)
          | inr (bad, _, _) ↦ absurd (ground (arith, z))
        ],
      )

  -- The decoder is that of before.
  abbrev pub Fresh : Player → Player → Type 0
  Fresh p q = (q.dvb ≡ p.dvb) × (q.cur_freq ≡ p.cur_freq)

  -- The frequency is the one that the session server named: it was the last one tuned, or
  -- `DSP_DVBplay_tune` of it succeeded on the decoder of before.
  abbrev pub AtFrequency : Player → Player → Type 0
  AtFrequency p q =
      (q.cur_freq ≡ q.session.play_param.frequency)
      × ((p.cur_freq ≡ q.session.play_param.frequency)
          ⊎ (is_zero (dvbplay_tune world.board q.session.play_param.frequency p.dvb).0 ≡ true))

  pub AtFrequency-Connects :
      (p q r : Player) → AtFrequency p q → Connects q r → r.cur_freq ≡ q.cur_freq → AtFrequency p r
  AtFrequency-Connects p q r f c e =
      subst
        (λ (v : Client).
          (r.cur_freq ≡ v.play_param.frequency)
          × ((p.cur_freq ≡ v.play_param.frequency)
              ⊎ (is_zero (dvbplay_tune world.board v.play_param.frequency p.dvb).0 ≡ true)))
        (sym (c.0)) (e ∙ f.0, f.1)

  pub AtFrequency-Fresh : (p q r : Player) → Fresh p q → AtFrequency q r → AtFrequency p r
  AtFrequency-Fresh p q r (d, c) (f, inl e) = (f, inl (sym c ∙ e))
  AtFrequency-Fresh p q r (d, c) (f, inr e) = (
    f,
    inr (
        subst
          (λ (s : Dvb).
            is_zero (dvbplay_tune world.board r.session.play_param.frequency s).0 ≡ true)
          d e),
  )

  -- The frequency is tuned, and the program was found.
  abbrev pub Tuned : Player → Player → Type 0
  Tuned p q = AtFrequency p q × HasProgram q

  abbrev pub Searched : Player → ℤ → Player → Type 0
  Searched p r q = (Connects p q × (q.cur_freq ≡ p.cur_freq)) × (is_zero r ≡ true → HasProgram q)

  -- Searching on after a part that found nothing.
  joined :
      (p q r : Player)
      → Connects p q × (q.cur_freq ≡ p.cur_freq)
      → Connects q r × (r.cur_freq ≡ q.cur_freq)
      → Connects p r × (r.cur_freq ≡ p.cur_freq)
  joined p q r h k = (Connects-trans p q r h.0 k.0, k.1 ∙ h.1)

  stop_case :
      (n : ℕ) (ret : ℤ) (p r : Player) (stop : Bool)
      → is_zero ret ≡ false
      → Connects p r × (r.cur_freq ≡ p.cur_freq)
      → Gives (Searched r) (search_loop world n ret r)
      → Gives (Searched p) (elim stop as (λ _. Option (ℤ × Player)) [
        | true ↦ some (ret, r)
        | false ↦ search_loop world n ret r
      ])
  stop_case n ret p r true z k h = (k, λ y. cc)
  stop_case n ret p r false z k h =
      Gives-map (Searched r) (Searched p) (search_loop world n ret r)
        (λ v s l. (joined p r s k l.0, l.1)) h

  loop_case :
      (n : ℕ) (p : Player) (o : Option (ℤ × Player))
      → Gives (Searched p) o
      → ((r : ℤ) (q : Player) → is_zero r ≡ false → Gives (Searched q) (search_loop world n r q))
      → Gives (Searched p) (elim o as (λ _. Option (ℤ × Player)) [
        | none ↦ none
        | some (ret, q) ↦ elim (is_zero ret) [
          | true ↦ some (ret, q)
          | false ↦ elim (player_recv_stop_key q) [
            | none ↦ none
            | some (stop, r) ↦ elim stop [
              | true ↦ some (ret, r)
              | false ↦ search_loop world n ret r
            ]
          ]
        ]
      ])
  loop_case n p none h again = tt
  loop_case n p (some (ret, q)) h again = elim (Bool-cases (is_zero ret)) [
    | inl z ↦ rw z h
    | inr z ↦ rw z (
        Gives-bind (Searched p) (player_recv_stop_key q) _ (stop_key-Connects q)
          (λ stop r k. stop_case n ret p r stop z (joined p q r h.0 k) (again ret r z)))
  ]

  search_loop-Searched :
      (n : ℕ) (ret : ℤ) (p : Player)
      → is_zero ret ≡ false
      → Gives (Searched p) (search_loop world n ret p)
  unfolding search_loop
  search_loop-Searched zero ret p z = (((refl, refl, refl, refl, refl, refl), refl), λ y. cc)
  search_loop-Searched (suc n) ret p z =
      loop_case n p (try_dvb (dvbplay_search world.board p.session.play_param.pn_id) p)
        (searched p p.session.play_param.pn_id refl) (λ r q y. search_loop-Searched n r q y)

  pub search_program-Searched : (p : Player) → Gives (Searched p) (search_program world p)
  unfolding search_program search_loop
  search_program-Searched p =
      loop_case 99 p (try_dvb (dvbplay_search world.board p.session.play_param.pn_id) p)
        (searched p p.session.play_param.pn_id refl) (λ r q y. search_loop-Searched 99 r q y)

  pub tune-Connects :
      (p : Player)
      → Gives (λ ok q. Connects p q × (ok ≡ true → AtFrequency p q)) (tune_program world p)
  unfolding tune_program tuned
  tune-Connects p = elim (Bool-cases (p.cur_freq == p.session.play_param.frequency)) [
    | inl e ↦
        rw (tune_program, e)
          ((refl, refl, refl, refl, refl, refl), λ h. (ground (arith, e), inl (ground (arith, e))))
    | inr e ↦
        elim (Bool-cases
          (is_zero (dvbplay_tune world.board p.session.play_param.frequency p.dvb).0)) [
            | inl z ↦
                rw (tune_program, e, tuned, z)
                  ((refl, refl, refl, refl, refl, refl), λ h. (refl, inr z))
            | inr z ↦
                rw (tune_program, e, tuned, z)
                  ((refl, refl, refl, refl, refl, refl), λ h. absurd (ground (arith, h)))
          ]
  ]

  pub volume-Kept :
      (p : Player)
      → Gives
          (λ _ q. Connects p q × (q.cur_freq ≡ p.cur_freq) × (q.dvb.prog_tbl ≡ p.dvb.prog_tbl))
          (start_volume world p)
  unfolding start_volume dvbplay_setvolume
  volume-Kept p = ground arith

  -- The end of the thread: it is marked, and the callback was called with the event, if there is one.
  abbrev pub Exits : Event → Player → Type 0
  Exits event q =
      (q.freed ≡ false)
      × (q.mediaplayer_thread ≡ false)
      × ((q.has_callback ≡ false) ⊎ ((before : List Event) × (q.events ≡ before ++ (event ∷ []))))

  pub exit-Exits :
      (event : Event) (p : Player)
      → p.freed ≡ false
      → Gives (λ l q. (l ≡ finished) × Exits event q) (exit_thread event p)
  exit-Exits event p f = elim (Bool-cases p.has_callback) [
    | inl e ↦ rw e (refl, (f, refl, inr (p.events, refl)))
    | inr e ↦ rw e (refl, (f, refl, inl refl))
  ]

  -- The playback is ready: the session is set up, the frequency is tuned, and the program is found.
  abbrev pub Ready : Player → Player → Type 0
  Ready p q =
      (q.freed ≡ false)
      × (q.mediaplayer_thread ≡ p.mediaplayer_thread)
      × (q.if_sm_setup ≡ true)
      × (q.status_network ≡ pos 0)
      × Tuned p q

  -- Behind a connection.
  abbrev pub Online : Player → Player → Type 0
  Online p q =
      (q.freed ≡ false)
      × (q.mediaplayer_thread ≡ p.mediaplayer_thread)
      × (q.if_sm_setup ≡ true)
      × (q.status_network ≡ pos 0)

  pub Online-Connects : (p q r : Player) → Online p q → Connects q r → Online p r
  Online-Connects p q r (a, b, c, d) (_, _, f, s, n, t) = (f ∙ a, t ∙ b, s ∙ c, n ∙ d)

  pub ready :
      (p q r : Player)
      → Online p q
      → AtFrequency p q
      → HasProgram q
      → Connects q r × (r.cur_freq ≡ q.cur_freq) × (r.dvb.prog_tbl ≡ q.dvb.prog_tbl)
      → Ready p r
  ready p q r o f h (c, g, d) =
      let (x, t, s, n) = Online-Connects p q r o c in
      (x, t, s, n, (AtFrequency-Connects p q r f c g, moved q r h (c.0) d))

  -- The result of the connection.
  abbrev pub Connection : Player → Option ℤ → Player → Type 0
  Connection p ret q =
      (q.freed ≡ false)
      × (q.mediaplayer_thread ≡ p.mediaplayer_thread)
      × (ret ≡ some (pos 0) → q.if_sm_setup ≡ true)
      × Fresh p q

  pub drain-Kept : (n : ℕ) (p : Player) → Gives (Kept p) (drain n p)
  unfolding drain rcvfrom_mediaplayermsg
  drain-Kept zero p = (refl, refl, refl, refl)
  drain-Kept (suc n) p = grind (arith, drain-Kept n)

  pub connection :
      (p q : Player) (ret : Option ℤ)
      → Exists p ret q
      → ConnectedFor world ret q
      → Connection p ret q
  connection p q none h k = (h.0, h.1, λ e. cc, (h.2, h.3))
  connection p q (some (pos zero)) h k = (h.0, h.1, λ e. k.0, (h.2, h.3))
  connection p q (some (pos (suc n))) h k = (h.0, h.1, λ e. ground arith, (h.2, h.3))
  connection p q (some (negsuc n)) h k = (h.0, h.1, λ e. ground arith, (h.2, h.3))
