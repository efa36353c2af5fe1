-- ===== src/Rtsp/Heartbeat.antt =====
-- When the two keep-alive threads end, and what they report.
use snmediaplayer_new.Common.{
  ℕ, zero, suc, ◌+◌, ◌<◌, ◌≤◌, ◌≡◌, refl, ◌∙◌, Bool, true, false, Option, List, ◌∷◌, none, some,
  length, length-append, arith,
}
use snmediaplayer_new.Common.Decimal.Size.{length-print-le}
use snmediaplayer_new.Common.Int.{is_zero}
use snmediaplayer_new.Common.Text.{Bytes}
use snmediaplayer_new.Rtsp.State.{Io, Net, Client, branch, pure}
use snmediaplayer_new.Rtsp.After.{Gives, Ends, Ends-map, Ends-bind}
use snmediaplayer_new.Rtsp.Wire.{put_tx, exchange, send_command, get_response, status_code}
use snmediaplayer_new.Rtsp.Request.{concat, heartbeat_parts, request_wrapping}
use snmediaplayer_new.Rtsp.Vcr.{rtsp_getparameter}
use snmediaplayer_new.Rtsp.KeepAlive.{ss_miss, ss_round, ss_loop, ss_keep_alive_thread}

-- The two fields of the session server's thread.
abbrev SsSame : Client → {A : Type 0} → A → Client → Type 0
SsSame c r d =
    (d.ss_keep_alive_miss_cnt ≡ c.ss_keep_alive_miss_cnt)
    × (d.if_keep_alive_error ≡ c.if_keep_alive_error)

-- Fewer than three misses and no error while the thread runs; three and an error when it has ended.
abbrev pub SsStatus : Bool → Client → Type 0
SsStatus true d = (d.ss_keep_alive_miss_cnt ≡ 3) × (d.if_keep_alive_error ≡ true)
SsStatus false d = (d.ss_keep_alive_miss_cnt < 3) × (d.if_keep_alive_error ≡ false)

module _ (net : Net) where
  exchange-SsSame : (c : Client) → Gives (SsSame c) (exchange net c)
  unfolding exchange send_command get_response
  exchange-SsSame c = ground arith

  request_wrapping-SsSame :
      (p : Client → List Bytes) (c : Client) → Gives (SsSame c) (request_wrapping p c)
  unfolding request_wrapping put_tx
  request_wrapping-SsSame p c = ground arith

  status_code-SsSame : (c : Client) → Gives (SsSame c) (status_code c)
  unfolding status_code
  status_code-SsSame c = ground arith

  getparameter-SsSame : (c : Client) → Gives (SsSame c) (rtsp_getparameter net c)
  unfolding rtsp_getparameter
  getparameter-SsSame c =
      grind (arith, request_wrapping-SsSame, exchange-SsSame, status_code-SsSame)

  ss_miss-SsStatus : (c : Client) → SsStatus false c → Gives SsStatus (ss_miss c)
  unfolding ss_miss
  ss_miss-SsStatus c h = ground arith

  ss_round-SsStatus : (c : Client) → SsStatus false c → Gives SsStatus (ss_round net c)
  unfolding ss_round
  ss_round-SsStatus c h = grind (arith, getparameter-SsSame, ss_miss-SsStatus)

  ss_loop_case :
      (n : ℕ) (o : Option (Bool × Client))
      → Gives SsStatus o
      → ((d : Client) → SsStatus false d → Gives SsStatus (ss_loop net n d))
      → Gives SsStatus (elim o [
        | none ↦ none
        | some (ended, d) ↦ elim ended [ true ↦ some (true, d) | false ↦ ss_loop net n d ]
      ])
  ss_loop_case n none h ih = h
  ss_loop_case n (some (true, d)) h ih = h
  ss_loop_case n (some (false, d)) h ih = ih d h

  ss_loop-SsStatus : (n : ℕ) (c : Client) → SsStatus false c → Gives SsStatus (ss_loop net n c)
  unfolding ss_loop
  ss_loop-SsStatus zero c h = h
  ss_loop-SsStatus (suc n) c h =
      ss_loop_case n (ss_round net c) (ss_round-SsStatus c h) (ss_loop-SsStatus n)

  -- At any time of `ss_keep_alive_thread`, if no request faulted: it has ended if and only if it has
  -- set `if_keep_alive_error`, which it does at the third miss, and until then it counted fewer misses.
  pub ss_thread-SsStatus : (n : ℕ) (c : Client) → Gives SsStatus (ss_keep_alive_thread net n c)
  unfolding ss_keep_alive_thread
  ss_thread-SsStatus n c = ss_loop-SsStatus n _ (omega arith, refl)

-- The server sends nothing any more.
abbrev pub Silent : Net → Type 0
Silent net = (h : List Io) → net.received h ≡ none

-- The ids fit their arrays, and the sequence number is of 32 bits.
abbrev pub IdsFit : Bytes → Bytes → Client → Type 0
IdsFit global_id id c = (length global_id ≤ 31) × (length id ≤ 31) × (c.cseq_tx < 4294967296)

abbrev pub SsFit : Client → Type 0
SsFit c = IdsFit c.global_session_id c.session_id c

abbrev pub MsFit : Client → Type 0
MsFit c = IdsFit c.ms_global_session_id c.ms_session_id c

pub heartbeat_fits :
    (g s : Bytes) (c : Client) → IdsFit g s c → length (concat (heartbeat_parts g s c)) < 3000
unfolding heartbeat_parts
heartbeat_fits g s c h = omega (arith, length-append {0}, length-print-le)

module _ (net : Net) where
  exchange-Silent :
      Silent net
      → (c : Client)
      → Ends
          (λ replied d. (replied ≡ false) × (SsFit c → SsFit d) × SsSame c replied d)
          (exchange net c)
  unfolding exchange send_command get_response
  exchange-Silent s c = ground (arith, s (Io.write c.tx_buffer ∷ c.ios))

  heartbeat_sent :
      (c : Client)
      → SsFit c
      → Ends
          (λ r d. SsFit d × SsSame c r d)
          (request_wrapping (λ c. heartbeat_parts c.global_session_id c.session_id c) c)
  unfolding request_wrapping put_tx
  heartbeat_sent c f = ground (arith, heartbeat_fits c.global_session_id c.session_id c f)

  getparameter-Silent :
      Silent net
      → (c : Client) → SsFit c
      → Ends (λ r d. (is_zero r ≡ false) × SsFit d × SsSame c r d) (rtsp_getparameter net c)
  unfolding rtsp_getparameter
  getparameter-Silent s c f = grind (arith, exchange-Silent s, heartbeat_sent)

  ss_miss_counts :
      (c : Client)
      → SsFit c
      → SsStatus false c
      → Ends
          (λ ended d.
            SsFit d × SsStatus ended d × (d.ss_keep_alive_miss_cnt ≡ suc c.ss_keep_alive_miss_cnt))
          (ss_miss c)
  unfolding ss_miss
  ss_miss_counts c f h = ground arith

  ss_round-Silent :
      Silent net
      → (c : Client) → SsFit c
      → SsStatus false c
      → Ends
          (λ ended d.
            SsFit d × SsStatus ended d × (d.ss_keep_alive_miss_cnt ≡ suc c.ss_keep_alive_miss_cnt))
          (ss_round net c)
  unfolding ss_round
  ss_round-Silent s c f h =
      Ends-bind _ (rtsp_getparameter net c) (λ r. branch (is_zero r) (pure false) ss_miss)
        (getparameter-Silent s c f)
        (λ r d p. rw (p.0) (
          Ends-map (ss_miss d) (λ ended e q. (q.0, q.1, omega arith))
            (ss_miss_counts d p.1 (omega arith, p.2.1 ∙ h.1))))

  ss_silent_case :
      (n k : ℕ) (o : Option (Bool × Client))
      → Ends (λ ended d. SsFit d × SsStatus ended d × (d.ss_keep_alive_miss_cnt ≡ suc k)) o
      → 3 ≤ suc k + n
      → ((d : Client)
          → SsFit d
          → SsStatus false d
          → 3 ≤ d.ss_keep_alive_miss_cnt + n
          → Ends (λ ended d. (ended ≡ true) × SsStatus true d) (ss_loop net n d))
      → Ends
          (λ ended d. (ended ≡ true) × SsStatus true d)
          (elim o [
            | none ↦ none
            | some (ended, d) ↦ elim ended [ true ↦ some (true, d) | false ↦ ss_loop net n d ]
          ])
  ss_silent_case n k none h l ih = h
  ss_silent_case n k (some (true, d)) h l ih = (refl, h.1)
  ss_silent_case n k (some (false, d)) h l ih = ih d h.0 h.1 (omega arith)

  ss_loop-Silent :
      Silent net
      → (n : ℕ) (c : Client) → SsFit c
      → SsStatus false c
      → 3 ≤ c.ss_keep_alive_miss_cnt + n
      → Ends (λ ended d. (ended ≡ true) × SsStatus true d) (ss_loop net n c)
  unfolding ss_loop
  ss_loop-Silent s zero c f h l = absurd (omega arith)
  ss_loop-Silent s (suc n) c f h l =
      ss_silent_case n c.ss_keep_alive_miss_cnt (ss_round net c) (ss_round-Silent s c f h)
        (omega arith) (ss_loop-Silent s n)

  -- If the server sends nothing, the session ids fit their arrays and the sequence number 32 bits, then
  -- `ss_keep_alive_thread` has ended within any three or more rounds, without a fault and with
  -- `if_keep_alive_error` set.
  pub ss_thread-Silent :
      Silent net
      → (n : ℕ) (c : Client) → SsFit c
      → 3 ≤ n
      → Ends (λ ended d. (ended ≡ true) × SsStatus true d) (ss_keep_alive_thread net n c)
  unfolding ss_keep_alive_thread
  ss_thread-Silent s n c f l = ss_loop-Silent s n _ f (omega arith, refl) (omega arith)
