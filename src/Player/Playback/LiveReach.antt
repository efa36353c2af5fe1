-- ===== src/Player/Playback/LiveReach.antt =====
-- The playback of `main_stream_player` from its main loop on, with the steps of the other threads.
use snmediaplayer_new.Common.{
  ℕ, ◌≡◌, refl, sym, ap, ◌∙◌, subst, true, false, Option, some, if◌then◌else◌, arith,
}
use snmediaplayer_new.Tsplayer.State.{Dvb}
use snmediaplayer_new.Tsplayer.Close.{dvbplay_close}
use snmediaplayer_new.Player.State.{Player, World, ◌>>=◌, pure}
use snmediaplayer_new.Player.Network.{network_release, ss_keep_alive_end}
use snmediaplayer_new.Player.Messages.{process_tvod_msg}
use snmediaplayer_new.Player.After.{Ends, Ends-bind, Ends-alive, Gives, Gives-bind}
use snmediaplayer_new.Player.Playback.{
  Label, restart, main_loop, in_loop, cleanup, finished, teardown_if_setup,
}
use snmediaplayer_new.Player.Playback.Live.{live_cleanup, live_step}
use snmediaplayer_new.Player.Playback.Keeps.{process_tvod_msg-Keeps}
use snmediaplayer_new.Player.Playback.Reach.{Other, Same, Other-Same}
use snmediaplayer_new.Player.Lifetime.Twice.{join_ended}
use snmediaplayer_new.Player.Lifetime.{
  close_decoder, release_stream_media_player, quit_and_join, delete_player,
}

-- What is reached from a label.
pub data LiveReach (world : World) (rounds : ℕ) : Label → Player → Label → Player → Type 0 where
  stays : {l : Label} {p : Player} → LiveReach world rounds l p l p
  runs :
      {l l' l'' : Label} {p p' p'' : Player}
      → LiveReach world rounds l p l' p'
      → live_step world rounds l' p' ≡ some (l'', p'')
      → LiveReach world rounds l p l'' p''
  others :
      {l l' : Label} {p p' p'' : Player}
      → LiveReach world rounds l p l' p'
      → Other world p' p''
      → LiveReach world rounds l p l' p''

-- The clients are there, and the thread is marked as running until the cleanup is done.
abbrev pub LiveInv : Label → Player → Type 0
LiveInv finished p = (p.freed ≡ false) × (p.mediaplayer_thread ≡ false)
LiveInv _ p = (p.freed ≡ false) × (p.mediaplayer_thread ≡ true)

module _ (world : World) where
  Same-LiveInv : (l : Label) (p q : Player) → Same world p q → LiveInv l p → LiveInv l q
  Same-LiveInv finished p q s i = (s.0 ∙ i.0, s.1 ∙ i.1)
  Same-LiveInv restart p q s i = (s.0 ∙ i.0, s.1 ∙ i.1)
  Same-LiveInv main_loop p q s i = (s.0 ∙ i.0, s.1 ∙ i.1)
  Same-LiveInv in_loop p q s i = (s.0 ∙ i.0, s.1 ∙ i.1)
  Same-LiveInv cleanup p q s i = (s.0 ∙ i.0, s.1 ∙ i.1)

  ss_end-freed :
      (p : Player) → p.freed ≡ false → Gives (λ _ q. q.freed ≡ false) (ss_keep_alive_end world p)
  unfolding ss_keep_alive_end
  ss_end-freed p f = ground arith

  teardown-freed :
      (p : Player) → p.freed ≡ false → Gives (λ _ q. q.freed ≡ false) (teardown_if_setup world p)
  unfolding teardown_if_setup
  teardown-freed p f = ground arith

  cleanup-LiveInv : (p : Player) → p.freed ≡ false → Gives LiveInv (live_cleanup world p)
  unfolding live_cleanup
  cleanup-LiveInv p f =
      Gives-bind LiveInv (ss_keep_alive_end world p) _ (ss_end-freed p f) (λ _ q k.
        Gives-bind LiveInv (teardown_if_setup world q) _ (teardown-freed q k)
          (λ _ r k2. (k2, refl)))

  step-LiveInv :
      (rounds : ℕ) (l : Label) (p : Player)
      → LiveInv l p
      → Gives LiveInv (live_step world rounds l p)
  unfolding live_step
  step-LiveInv rounds restart p i = ground arith
  step-LiveInv rounds main_loop p i = i
  step-LiveInv rounds in_loop p i =
      Gives-bind LiveInv (process_tvod_msg world rounds p) _
        (process_tvod_msg-Keeps world rounds p i.0) (λ g q k. grind (arith, k))
  step-LiveInv rounds cleanup p i = cleanup-LiveInv p i.0
  step-LiveInv rounds finished p i = i

live-Reach-Inv :
    {world : World} {rounds : ℕ} {l l' : Label} {p p' : Player}
    → LiveReach world rounds l p l' p'
    → LiveInv l p
    → LiveInv l' p'
live-Reach-Inv stays i = i
live-Reach-Inv {world} {rounds} {l} {l'} {p} {p'} (runs {l' = m} {p' = q} r e) i =
    subst (Gives LiveInv) e (step-LiveInv world rounds m q (live-Reach-Inv r i))
live-Reach-Inv {world} {rounds} {l} {l'} {p} {p'} (others {p' = q} r o) i =
    Same-LiveInv world l' q p' (Other-Same world o) (live-Reach-Inv r i)

-- The decoder behind `close_decoder`: closed by `DSP_DVBplay_close` if it was initialised.
abbrev pub closed_decoder : World → Player → Dvb
closed_decoder world p =
    if p.status_decoder then (dvbplay_close world.board p.havplay p.hwin p.dvb).1 else p.dvb

-- The decoder is the same.
abbrev pub SameDecoder : Player → Player → Type 0
SameDecoder p q =
    (q.status_decoder ≡ p.status_decoder)
    × (q.dvb ≡ p.dvb)
    × (q.havplay ≡ p.havplay)
    × (q.hwin ≡ p.hwin)

module _ (world : World) where
  -- The clients are deleted, and the decoder that `p` had is closed.
  abbrev pub Deleted : Player → {A : Type 0} → A → Player → Type 0
  Deleted p a q = (q.freed ≡ true) × (q.status_decoder ≡ false) × (q.dvb ≡ closed_decoder world p)

  close-Deleted : (p : Player) → p.freed ≡ true → Ends (Deleted p) (close_decoder world p)
  unfolding close_decoder
  close-Deleted p f = ground arith

  pub closed-Same :
      (p q : Player) → SameDecoder p q → closed_decoder world q ≡ closed_decoder world p
  closed-Same p q (s, d, a, w) = rw (s, d, a, w) refl

  release_live :
      (p : Player)
      → p.freed ≡ false
      → Ends (λ _ q. (q.freed ≡ true) × SameDecoder p q) (network_release p)
  unfolding network_release
  release_live p f =
      Ends-alive (λ _ q. (q.freed ≡ true) × SameDecoder p q) p _ f (refl, (refl, refl, refl, refl))

  pub release-Deleted :
      (p : Player) → p.freed ≡ false → Ends (Deleted p) (release_stream_media_player world p)
  unfolding release_stream_media_player
  release-Deleted p f = Ends-bind (Deleted p) (network_release p) _ (release_live p f) (λ _ q k.
      Ends-bind (Deleted p) (close_decoder world q) _ (close-Deleted q k.0)
        (λ _ r d. (d.0, d.1, d.2 ∙ closed-Same p q k.1)))

  -- When the playback of a channel has ended, whatever messages and writes of `Other` came in between,
  -- deleting the player ends without undefined behaviour: the clients are deleted, once, and the
  -- decoder has been closed by `DSP_DVBplay_close` if it was initialised, and not touched otherwise.
  pub live-Deleted :
      {rounds : ℕ} {l : Label} {p q : Player} (thread : Player → Option Player)
      → LiveReach world rounds l p finished q
      → LiveInv l p
      → Ends (Deleted q) (delete_player world thread q)
  unfolding delete_player
  live-Deleted {q = q} thread r i =
      let inv = live-Reach-Inv r i in
      Ends-bind (Deleted q) (quit_and_join world thread q) _
        (subst (Ends (λ _ s. s ≡ q)) (sym (join_ended world thread q inv.1)) refl)
        (λ _ s e.
          subst (λ t. Ends (Deleted t) ((release_stream_media_player world >>= λ _. pure tt) s)) e
            (Ends-bind (Deleted s) (release_stream_media_player world s) _
              (release-Deleted s (ap (λ t. t.freed) e ∙ inv.0)) (λ _ t d. d)))
