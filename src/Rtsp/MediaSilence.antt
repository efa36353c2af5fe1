-- ===== src/Rtsp/MediaSilence.antt =====
-- The keep-alive thread of the media server when the server sends nothing any more.
use snmediaplayer_new.Common.{
  ℕ, zero, suc, ◌+◌, ◌<◌, ◌≤◌, ◌≡◌, refl, ◌∙◌, Bool, true, false, Option, none, some, arith,
}
use snmediaplayer_new.Common.Int.{ℤ, is_positive}
use snmediaplayer_new.Rtsp.State.{Net, Client, branch, modify, done, ◌>>=◌, pure}
use snmediaplayer_new.Rtsp.After.{Ends, Ends-bind}
use snmediaplayer_new.Rtsp.Wire.{put_tx, send_command, get_response}
use snmediaplayer_new.Rtsp.Request.{heartbeat_parts, request_wrapping}
use snmediaplayer_new.Rtsp.KeepAlive.{ms_miss, ms_reply, ms_round, ms_loop, ms_keep_alive_thread}
use snmediaplayer_new.Rtsp.Heartbeat.{Silent, MsFit, heartbeat_fits}

module _ (net : Net) where
  heartbeat_sent :
      (c : Client)
      → MsFit c
      → Ends
          (λ r d. MsFit d × (d.ms_keep_alive_miss_cnt ≡ c.ms_keep_alive_miss_cnt))
          (request_wrapping (λ c. heartbeat_parts c.ms_global_session_id c.ms_session_id c) c)
  unfolding request_wrapping put_tx
  heartbeat_sent c f = ground (arith, heartbeat_fits c.ms_global_session_id c.ms_session_id c f)

  send_silent :
      (c : Client)
      → MsFit c
      → Ends
          (λ r d. MsFit d × (d.ms_keep_alive_miss_cnt ≡ c.ms_keep_alive_miss_cnt))
          (send_command net c)
  unfolding send_command
  send_silent c f = ground arith

  receive-Silent :
      Silent net
      → (c : Client) → MsFit c
      → Ends
          (λ got d.
            (is_positive got ≡ false)
            × MsFit d
            × (d.ms_keep_alive_miss_cnt ≡ c.ms_keep_alive_miss_cnt))
          (get_response net c)
  unfolding get_response
  receive-Silent s c f = ground (arith, s c.ios)

  -- One more miss; the third ends the thread.
  abbrev Missed : ℕ → Bool → Client → Type 0
  Missed k true d = k ≡ 2
  Missed k false d = MsFit d × (k < 2) × (d.ms_keep_alive_miss_cnt ≡ suc k)

  miss_counts :
      (k : ℕ) (c : Client)
      → MsFit c
      → c.ms_keep_alive_miss_cnt ≡ k
      → k < 3
      → Ends (Missed k) (ms_miss c)
  unfolding ms_miss
  miss_counts k c f e l = ground arith

  round_misses :
      Silent net
      → (k : ℕ) (c : Client) → MsFit c
      → c.ms_keep_alive_miss_cnt ≡ k
      → k < 3
      → Ends (Missed k) (ms_round net c)
  unfolding ms_round
  round_misses s k c f e l =
      Ends-bind _
        (request_wrapping (λ c. heartbeat_parts c.ms_global_session_id c.ms_session_id c) c) _
        (heartbeat_sent c f)
        (λ _ d1 h1. Ends-bind _ (send_command net d1) _ (send_silent d1 h1.0) (λ _ d2 h2.
          Ends-bind _ (get_response net d2) _ (receive-Silent s d2 h2.0)
            (λ got d3 h3. missed got d3 h3.0 (miss_counts k d3 h3.1 (h3.2 ∙ h2.1 ∙ h1.1 ∙ e) l))))
    where
      missed :
          (got : ℤ) (d : Client)
          → is_positive got ≡ false
          → Ends (Missed k) (ms_miss d)
          → Ends (Missed k) (branch (is_positive got) (ms_reply net) ms_miss d)
      missed got d h m = rw h m

  silent_case :
      (n k : ℕ) (o : Option (Bool × Client))
      → Ends (Missed k) o
      → 3 ≤ k + suc n
      → ((d : Client)
          → MsFit d
          → (j : ℕ) → d.ms_keep_alive_miss_cnt ≡ j
          → j < 3
          → 3 ≤ j + n
          → Ends (λ ended d. ended ≡ true) (ms_loop net n d))
      → Ends
          (λ ended d. ended ≡ true)
          (elim o [
            | none ↦ none
            | some (ended, d) ↦ elim ended [ true ↦ some (true, d) | false ↦ ms_loop net n d ]
          ])
  silent_case n k none h l ih = h
  silent_case n k (some (true, d)) h l ih = refl
  silent_case n k (some (false, d)) h l ih = ih d h.0 (suc k) h.2 (omega arith) (omega arith)

  ms_loop-Silent :
      Silent net
      → (n : ℕ) (c : Client) → MsFit c
      → (k : ℕ) → c.ms_keep_alive_miss_cnt ≡ k
      → k < 3
      → 3 ≤ k + n
      → Ends (λ ended d. ended ≡ true) (ms_loop net n c)
  unfolding ms_loop
  ms_loop-Silent s zero c f k e l b = absurd (omega arith)
  ms_loop-Silent s (suc n) c f k e l b =
      silent_case n k (ms_round net c) (round_misses s k c f e l) b (ms_loop-Silent s n)

  -- If the media server sends nothing, its session ids fit their arrays and the sequence number 32
  -- bits, then `ms_keep_alive_thread` has ended within any three or more rounds, without a fault and
  -- with `if_keep_alive_error` set.
  pub ms_thread-Silent :
      Silent net
      → (n : ℕ) (c : Client) → MsFit c
      → 3 ≤ n
      → Ends
          (λ ended d. (ended ≡ true) × (d.if_keep_alive_error ≡ true))
          (ms_keep_alive_thread net n c)
  unfolding ms_keep_alive_thread
  ms_thread-Silent s n c f l =
      Ends-bind _ (ms_loop net n start) _
        (ms_loop-Silent s n start f 0 refl (omega arith) (omega arith))
        (λ ended d h. finished ended d h)
    where
      start : Client
      start = record c { if_keep_alive_error = false; ms_keep_alive_miss_cnt = 0 }

      finished :
          (ended : Bool) (d : Client)
          → ended ≡ true
          → Ends
              (λ ended d. (ended ≡ true) × (d.if_keep_alive_error ≡ true))
              ((branch ended (modify (λ c. record c { if_keep_alive_error = true })) done >>= λ _.
                  pure ended)
                d)
      finished ended d h = rw h (refl, refl)
