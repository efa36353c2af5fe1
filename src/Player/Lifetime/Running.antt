-- ===== src/Player/Lifetime/Running.antt =====
-- The destructor of a player whose playback of a channel runs.
use snmediaplayer_new.Common.{
  inl, inr, Bool-cases, ℕ, zero, suc, ◌<◌, ◌≡◌, refl, sym, ap, ◌∙◌, subst, true, false, Option,
  none, some, [], ◌∷◌, arith,
}
use snmediaplayer_new.Tsplayer.Close.{dvbplay_stop}
use snmediaplayer_new.Rtsp.Request.{setup_sdv}
use snmediaplayer_new.Player.State.{Goto, goto_cleanup, msg_quit, Player, World}
use snmediaplayer_new.Player.Order.{send_next}
use snmediaplayer_new.Common.Int.{pos}
use snmediaplayer_new.Player.Queue.{sendto_mediaplayermsg, rcvfrom_mediaplayermsg}
use snmediaplayer_new.Player.Network.{ss_keep_alive_end}
use snmediaplayer_new.Player.Messages.{
  multicast_command, process_multicast_msg, common_command, process_common_msg, dispatch_msg,
  process_tvod_msg,
}
use snmediaplayer_new.Player.After.{Ends, Ends-bind, Ends-alive, bind_eq}
use snmediaplayer_new.Player.Playback.{
  process_msg_result, Label, in_loop, cleanup, finished, teardown_if_setup,
}
use snmediaplayer_new.Player.Playback.Live.{live_cleanup, live_step}
use snmediaplayer_new.Player.Playback.LiveReach.{SameDecoder, Deleted, closed-Same, release-Deleted}
use snmediaplayer_new.Player.Playback.Quit.{CanTearDown, teardown-Returns}
use snmediaplayer_new.Player.Lifetime.{release_stream_media_player, quit_and_join, delete_player}

-- The main loop is left for the cleanup, with the clients and the session as they were.
abbrev Leaves : Player → Goto → Player → Type 0
Leaves p g q = (g ≡ goto_cleanup) × (q.freed ≡ false) × (q.session ≡ p.session) × SameDecoder p q

-- With a thread, and no message.
abbrev pub running : Player → Player
running p = record p { mediaplayer_thread = true; queue = [] }

-- The clients exist, and the decoder is that of before.
abbrev Kept : Player → Player → Type 0
Kept p q = (q.freed ≡ false) × SameDecoder p q

-- The player with its decoder stopped.
abbrev pub stopped : World → Player → Player
stopped world p = record p { dvb = (dvbplay_stop world.board p.havplay p.dvb).1 }

-- The thread has ended, and the clients exist.
abbrev EndsThread : Player → Option Player → Type 0
EndsThread p none = ⊥
EndsThread p (some q) = Kept p q

SameDecoder-trans : (p q r : Player) → SameDecoder p q → SameDecoder q r → SameDecoder p r
SameDecoder-trans p q r (a, b, c, d) (a', b', c', d') = (a' ∙ a, b' ∙ b, c' ∙ c, d' ∙ d)

module _ (world : World) (rounds : ℕ) where
  -- The thread from a label until it ends; `none` if it has not ended after so many steps.
  unfoldable pub live_thread : ℕ → Label → Player → Option Player
  live_thread n finished p = some p
  live_thread zero l p = none
  live_thread (suc n) l p = elim (live_step world rounds l p) [
    | none ↦ none
    | some (m, q) ↦ live_thread n m q
  ]

  quit_multicast :
      (p : Player)
      → p.freed ≡ false
      → Ends (Leaves p) (process_multicast_msg world rounds msg_quit p)
  unfolding process_multicast_msg multicast_command
  quit_multicast p f =
      Ends-alive (Leaves p) p _ f (elim (Bool-cases p.session.if_keep_alive_error) [
        | inl e ↦ rw e (refl, f, refl, (refl, refl, refl, refl))
        | inr e ↦ rw e (refl, f, refl, (refl, refl, refl, refl))
      ])

  quit_taken :
      (p : Player)
      → p.freed ≡ false
      → p.setup_type ≡ setup_sdv
      → Ends (Leaves p) (process_tvod_msg world rounds (record p { queue = msg_quit ∷ [] }))
  unfolding process_tvod_msg process_common_msg rcvfrom_mediaplayermsg common_command dispatch_msg
  quit_taken p f s =
      subst (λ t. Ends (Leaves p) (dispatch_msg world rounds t msg_quit (record p { queue = [] })))
        (sym s) (quit_multicast (record p { queue = [] }) f)

  takes_quit :
      (p : Player)
      → p.freed ≡ false
      → p.setup_type ≡ setup_sdv
      → Ends
          (λ l q. (l ≡ cleanup) × (q.freed ≡ false) × (q.session ≡ p.session) × SameDecoder p q)
          (live_step world rounds in_loop (record p { queue = msg_quit ∷ [] }))
  unfolding live_step
  takes_quit p f s =
      Ends-bind
        (λ l q. (l ≡ cleanup) × (q.freed ≡ false) × (q.session ≡ p.session) × SameDecoder p q)
        (process_tvod_msg world rounds (record p { queue = msg_quit ∷ [] })) _ (quit_taken p f s)
        (λ g q k. (ap process_msg_result k.0, k.1, k.2, k.3))

  ss_end-Same :
      (p : Player)
      → Ends
          (λ _ q. (q.freed ≡ p.freed) × (q.session ≡ p.session) × SameDecoder p q)
          (ss_keep_alive_end world p)
  unfolding ss_keep_alive_end
  ss_end-Same p = ground arith

  teardown-freed :
      (p : Player)
      → CanTearDown p.session
      → p.freed ≡ false
      → Ends (λ _ q. Kept p q) (teardown_if_setup world p)
  unfolding teardown_if_setup
  teardown-freed p h f = grind (arith, teardown-Returns)

  Stop : (p q : Player) → SameDecoder p q → SameDecoder (stopped world p) (stopped world q)
  Stop p q (s, d, a, w) = (s, rw (d, a) refl, a, w)

  cleans :
      (p : Player)
      → CanTearDown p.session
      → p.freed ≡ false
      → Ends (λ l q. (l ≡ finished) × Kept (stopped world p) q) (live_step world rounds cleanup p)
  unfolding live_step live_cleanup
  cleans p h f = Ends-bind P (ss_keep_alive_end world p) _ (ss_end-Same p) (λ _ q k.
      Ends-bind P (teardown_if_setup world q) _
        (teardown-freed q (subst CanTearDown (sym k.1) h) (k.0 ∙ f))
        (λ _ r g. (refl, (g.0, Stop p r (SameDecoder-trans p q r k.2 g.1)))))
    where
      P : Label → Player → Type 0
      P l q = (l ≡ finished) × Kept (stopped world p) q

  -- The two steps of the thread, behind the quit message.
  thread_ends :
      (p : Player)
      → p.freed ≡ false
      → p.setup_type ≡ setup_sdv
      → CanTearDown p.session
      → EndsThread (stopped world p) (live_thread 2 in_loop (record p { queue = msg_quit ∷ [] }))
  unfolding live_thread
  thread_ends p f s h =
      first (live_step world rounds in_loop (record p { queue = msg_quit ∷ [] })) (takes_quit p f s)
    where
      last :
          (r : Player) (o : Option (Label × Player))
          → SameDecoder p r
          → Ends (λ l q. (l ≡ finished) × Kept (stopped world r) q) o
          → EndsThread (stopped world p) (elim o [ none ↦ none | some (m, q) ↦ live_thread 0 m q ])
      last r none d k = k
      last r (some (m, q)) d (e, g) =
          subst (λ l. EndsThread (stopped world p) (live_thread 0 l q)) (sym e)
            (g.0, SameDecoder-trans (stopped world p) (stopped world r) q (Stop p r d) g.1)

      first :
          (o : Option (Label × Player))
          → Ends
              (λ l q. (l ≡ cleanup) × (q.freed ≡ false) × (q.session ≡ p.session) × SameDecoder p q)
              o
          → EndsThread (stopped world p) (elim o [ none ↦ none | some (m, q) ↦ live_thread 1 m q ])
      first none k = k
      first (some (m, q)) (e, g, k, d) =
          subst (λ l. EndsThread (stopped world p) (live_thread 1 l q)) (sym e)
            (last q (live_step world rounds cleanup q) d (cleans q (subst CanTearDown (sym k) h) g))

  joined :
      (p : Player) (o : Option Player)
      → EndsThread p o
      → Ends
          (λ _ q. Kept p q)
          (elim o as (λ _. Option (Unit {0} × Player)) [
            | none ↦ none
            | some r ↦ some (tt, record r { mediaplayer_thread = false })
          ])
  joined p none k = k
  joined p (some r) k = k

  quits :
      (p : Player)
      → 0 < world.capacity
      → p.freed ≡ false
      → p.setup_type ≡ setup_sdv
      → CanTearDown p.session
      → Ends
          (λ _ q. Kept (stopped world p) q)
          (quit_and_join world (live_thread 2 in_loop) (running p))
  unfolding quit_and_join
  quits p c f s h =
      subst (Ends (λ _ q. Kept (stopped world p) q))
        (sym (
          bind_eq (sendto_mediaplayermsg world msg_quit) _ (running p)
            (record (running p) { queue = msg_quit ∷ [] }) (pos 1)
            (send_next world msg_quit [] (running p) refl c)))
        (joined (stopped world p) _ (thread_ends (running p) f s h))

  -- The destructor of a player that is in the main loop of a channel, with an empty queue that holds a
  -- message, ends without undefined behaviour if the clients exist and the ids of the session fit:
  -- within two steps the thread takes the quit message, cleans up and stops the decoder, and then the clients are deleted
  -- and the decoder is closed by `DSP_DVBplay_close` if it was initialised, and not touched otherwise.
  pub running-Deleted :
      (p : Player)
      → 0 < world.capacity
      → p.freed ≡ false
      → p.setup_type ≡ setup_sdv
      → CanTearDown p.session
      → Ends
          (Deleted world (stopped world p))
          (delete_player world (live_thread 2 in_loop) (running p))
  unfolding delete_player
  running-Deleted p c f s h =
      Ends-bind (Deleted world (stopped world p))
        (quit_and_join world (live_thread 2 in_loop) (running p)) _ (quits p c f s h)
        (λ _ q g.
          Ends-bind (Deleted world (stopped world p)) (release_stream_media_player world q) _
            (release-Deleted world q g.0)
            (λ _ r d. (d.0, d.1, d.2 ∙ closed-Same world (stopped world p) q g.1)))
