-- ===== src/Player/Methods/Waits.antt =====
-- How long the methods wait that ask for a trick mode.
use snmediaplayer_new.Common.{
  ℕ, zero, suc, ◌≤◌, ◌≡◌, refl, ap, ◌∙◌, ◌⊎◌, inl, inr, true, false, some, arith,
}
use snmediaplayer_new.Common.Int.{ℤ}
use snmediaplayer_new.Player.State.{
  Message, msg_pause, msg_play, msg_fastforward, msg_fastbackward, PauseIntoTvs, Player, World,
}
use snmediaplayer_new.Player.Queue.{sendto_mediaplayermsg}
use snmediaplayer_new.Player.After.{Ends, Ends-bind}
use snmediaplayer_new.Player.Methods.{
  wait_for_answer, pause_waits, pause, fast_forward, fast_rewind, resume,
}

abbrev Answered : ℕ → ℕ × Player → Type 0
Answered n (k, q) = (k ≤ n) × ((q.trick_ok_flag ≡ true) ⊎ (k ≡ n))

-- The wait is at most two seconds long, and if it ends without an answer, at least one.
abbrev pub Waited : ℕ → Player → Type 0
Waited k q = (k ≤ 2000) × ((q.trick_ok_flag ≡ true) ⊎ (1000 ≤ k))

module _ (during : ℕ → Player → Player) where
  wait-Answered : (n : ℕ) (p : Player) → Answered n (wait_for_answer during n p)
  unfolding wait_for_answer
  wait-Answered zero p = (omega arith, inr refl)
  wait-Answered (suc n) p =
      elim p.trick_ok_flag
          as (λ b.
            p.trick_ok_flag ≡ b
            → Answered (suc n) (elim b as (λ _. ℕ × Player) [
              | true ↦ (0, p)
              | false ↦ let (k, q) = wait_for_answer during n (during n p) in (suc k, q)
            ])) [
              | true ↦ λ e. (omega arith, inl e)
              | false ↦ λ e. ground (arith, wait-Answered n (during n p))
            ]
        refl

  -- Without an answer, the whole time.
  unanswered :
      ((i : ℕ) (q : Player) → q.trick_ok_flag ≡ false → (during i q).trick_ok_flag ≡ false)
      → (n : ℕ) (p : Player) → p.trick_ok_flag ≡ false
      → (wait_for_answer during n p).0 ≡ n
  unfolding wait_for_answer
  unanswered h zero p f = refl
  unanswered h (suc n) p f =
      ap
        (λ b.
          (elim b as (λ _. ℕ × Player) [
            | true ↦ (0, p)
            | false ↦ let (k, q) = wait_for_answer during n (during n p) in (suc k, q)
          ]).0)
        f
      ∙ ap suc (unanswered h n (during n p) (h n p f))

  prompt : (n : ℕ) (p : Player) → p.trick_ok_flag ≡ true → (wait_for_answer during n p).0 ≡ 0
  unfolding wait_for_answer
  prompt zero p t = refl
  prompt (suc n) p t = rw t refl

  module _ (world : World) (between : Player → Player) where
    sends : (cmd : Message) (p : Player) → Ends (λ _ q. Unit) (sendto_mediaplayermsg world cmd p)
    unfolding sendto_mediaplayermsg
    sends cmd p = ground arith

    waited : (p : Player) → Ends Waited (some (wait_for_answer during 1000 p))
    waited p = ground (arith, wait-Answered 1000 p)

    pause_waits-Waited :
        (s : PauseIntoTvs) (p : Player) → Ends Waited (pause_waits world between during s p)
    unfolding pause_waits
    pause_waits-Waited s p = grind (arith, wait-Answered)

    -- Whatever the other threads do meanwhile, `pause`, `fastForward`, `fastRewind` and `resume` return:
    -- after at most two seconds of sleep, and after at least one if `trick_ok_flag` is not set then.
    pub vcr_methods-Waited :
        (speed : ℤ) (p : Player)
        → Ends Waited (pause world between during p)
          × Ends Waited (fast_forward world between during speed p)
          × Ends Waited (fast_rewind world between during speed p)
          × Ends Waited (resume world between during p)
    unfolding pause fast_forward fast_rewind resume
    vcr_methods-Waited speed p = (
      Ends-bind Waited (sendto_mediaplayermsg world msg_pause p1) _ (sends msg_pause p1)
          (λ _ q _. pause_waits-Waited (between q).pause_into_tvs (between q)),
      Ends-bind Waited (sendto_mediaplayermsg world msg_fastforward p2) _ (sends msg_fastforward p2)
          (λ _ q _. waited _),
      Ends-bind Waited (sendto_mediaplayermsg world msg_fastbackward p2) _
          (sends msg_fastbackward p2) (λ _ q _. waited _),
      Ends-bind Waited (sendto_mediaplayermsg world msg_play p) _ (sends msg_play p)
          (λ _ q _. waited _),
    )
      where
        p1 : Player
        p1 = record p { trick_ok_flag = false }

        p2 : Player
        p2 = record p { playspeed = speed }

    pause_waits-prompt :
        (s : PauseIntoTvs) (p : Player)
        → p.trick_ok_flag ≡ true
        → Ends (λ k _. k ≡ 0) (pause_waits world between during s p)
    unfolding pause_waits
    pause_waits-prompt s p t = grind (arith, prompt)

    -- If the player's thread answers between the message and the next statement of the caller, and not
    -- again, then `pause` returns at once, and `fastForward`, `fastRewind` and `resume`, which clear
    -- `trick_ok_flag` only then, sleep for the whole second.
    early_answer_lost :
        (speed : ℤ) (p : Player)
        → ((q : Player) → (between q).trick_ok_flag ≡ true)
        → ((i : ℕ) (q : Player) → q.trick_ok_flag ≡ false → (during i q).trick_ok_flag ≡ false)
        → Ends (λ k _. k ≡ 0) (pause world between during p)
          × Ends (λ k _. k ≡ 1000) (fast_forward world between during speed p)
          × Ends (λ k _. k ≡ 1000) (fast_rewind world between during speed p)
          × Ends (λ k _. k ≡ 1000) (resume world between during p)
    unfolding pause fast_forward fast_rewind resume
    early_answer_lost speed p t f = (
      Ends-bind _ (sendto_mediaplayermsg world msg_pause p1) _ (sends msg_pause p1)
          (λ _ q _. pause_waits-prompt (between q).pause_into_tvs (between q) (t q)),
      Ends-bind _ (sendto_mediaplayermsg world msg_fastforward p2) _ (sends msg_fastforward p2)
          (λ _ q _. unanswered f 1000 _ refl),
      Ends-bind _ (sendto_mediaplayermsg world msg_fastbackward p2) _ (sends msg_fastbackward p2)
          (λ _ q _. unanswered f 1000 _ refl),
      Ends-bind _ (sendto_mediaplayermsg world msg_play p) _ (sends msg_play p)
          (λ _ q _. unanswered f 1000 _ refl),
    )
      where
        p1 : Player
        p1 = record p { trick_ok_flag = false }

        p2 : Player
        p2 = record p { playspeed = speed }
