-- ===== src/Rtsp/MediaHeartbeat.antt =====
-- The keep-alive thread of the media server: when it has ended, and what it reports.
use snmediaplayer_new.Common.{
  ℕ, zero, suc, ◌≡◌, refl, Bool, true, false, Option, List, none, some, arith, take,
}
use snmediaplayer_new.Common.Text.{Bytes, codes, str_eq}
use snmediaplayer_new.Rtsp.State.{Net, Client, M, branch, modify, done, ◌>>=◌, pure}
use snmediaplayer_new.Rtsp.After.{Gives, Gives-branch, Gives-bind}
use snmediaplayer_new.Rtsp.Wire.{put_tx, send_command, get_response, status_code}
use snmediaplayer_new.Rtsp.Request.{request_wrapping, rtsp_ver}
use snmediaplayer_new.Rtsp.KeepAlive.{
  ms_miss, parse_announce, parse_gettime, ms_select, answer_rtsp, ms_reply, ms_round, ms_loop,
  ms_keep_alive_thread,
}

abbrev Same : Client → {A : Type 0} → A → Client → Type 0
Same c r d = d.if_keep_alive_error ≡ c.if_keep_alive_error

-- No error is reported while the thread runs.
abbrev Running : Bool → Client → Type 0
Running true d = Unit
Running false d = d.if_keep_alive_error ≡ false

module _ (net : Net) where
  request_wrapping-Same :
      (p : Client → List Bytes) (c : Client) → Gives (Same c) (request_wrapping p c)
  unfolding request_wrapping put_tx
  request_wrapping-Same p c = ground arith

  send_command-Same : (c : Client) → Gives (Same c) (send_command net c)
  unfolding send_command
  send_command-Same c = ground arith

  get_response-Same : (c : Client) → Gives (Same c) (get_response net c)
  unfolding get_response
  get_response-Same c = ground arith

  status_code-Same : (c : Client) → Gives (Same c) (status_code c)
  unfolding status_code
  status_code-Same c = ground arith

  parse_announce-Same : (c : Client) → Gives (Same c) (parse_announce net c)
  unfolding parse_announce
  parse_announce-Same c = grind (arith, request_wrapping-Same, send_command-Same)

  parse_gettime-Same : (c : Client) → Gives (Same c) (parse_gettime net c)
  unfolding parse_gettime
  parse_gettime-Same c = grind (arith, status_code-Same)

  ms_select-Running : (c : Client) → c.if_keep_alive_error ≡ false → Gives Running (ms_select net c)
  unfolding ms_select
  ms_select-Running c h = grind (arith, get_response-Same, parse_announce-Same, parse_gettime-Same)

  answer_rtsp-Running :
      (c : Client) → c.if_keep_alive_error ≡ false → Gives Running (answer_rtsp net c)
  unfolding answer_rtsp
  answer_rtsp-Running c h = grind (arith, status_code-Same, parse_gettime-Same, ms_select-Running)

  announced :
      (c : Client)
      → c.if_keep_alive_error ≡ false
      → Gives Running ((parse_announce net >>= λ _. pure false) c)
  announced c h = grind (arith, parse_announce-Same)

  ms_reply-Running : (c : Client) → c.if_keep_alive_error ≡ false → Gives Running (ms_reply net c)
  unfolding ms_reply
  ms_reply-Running c h =
      let announce : M Bool = parse_announce net >>= λ _. pure false in
      let b1 = str_eq (take 8 c.rx_buffer) rtsp_ver in
      let b2 = str_eq (take 8 c.rx_buffer) (codes "ANNOUNCE") in
      Gives-branch Running b1 (answer_rtsp net) (branch b2 announce (ms_select net)) c
        (answer_rtsp-Running c h)
        (Gives-branch Running b2 announce (ms_select net) c (announced c h) (ms_select-Running c h))

  ms_miss-Running : (c : Client) → c.if_keep_alive_error ≡ false → Gives Running (ms_miss c)
  unfolding ms_miss
  ms_miss-Running c h = ground arith

  ms_round-Running : (c : Client) → c.if_keep_alive_error ≡ false → Gives Running (ms_round net c)
  unfolding ms_round
  ms_round-Running c h = grind (
    arith, request_wrapping-Same, send_command-Same, get_response-Same, ms_reply-Running,
    ms_miss-Running,
  )

  loop_case :
      (n : ℕ) (o : Option (Bool × Client))
      → Gives Running o
      → ((d : Client) → d.if_keep_alive_error ≡ false → Gives Running (ms_loop net n d))
      → Gives Running (elim o [
        | none ↦ none
        | some (ended, d) ↦ elim ended [ true ↦ some (true, d) | false ↦ ms_loop net n d ]
      ])
  loop_case n none h ih = h
  loop_case n (some (true, d)) h ih = h
  loop_case n (some (false, d)) h ih = ih d h

  ms_loop-Running :
      (n : ℕ) (c : Client) → c.if_keep_alive_error ≡ false → Gives Running (ms_loop net n c)
  unfolding ms_loop
  ms_loop-Running zero c h = h
  ms_loop-Running (suc n) c h =
      loop_case n (ms_round net c) (ms_round-Running c h) (ms_loop-Running n)

  -- At any time of `ms_keep_alive_thread`, if no step faulted: `if_keep_alive_error` is set if the
  -- thread has ended, and is not set if it has not.
  ms_thread_reports :
      (n : ℕ) (c : Client)
      → Gives (λ ended d. d.if_keep_alive_error ≡ ended) (ms_keep_alive_thread net n c)
  unfolding ms_keep_alive_thread
  ms_thread_reports n c =
      Gives-bind _ (ms_loop net n start) _ (ms_loop-Running n start refl)
        (λ ended d h. finished ended d h)
    where
      start : Client
      start = record c { if_keep_alive_error = false; ms_keep_alive_miss_cnt = 0 }

      finished :
          (ended : Bool) (d : Client)
          → Running ended d
          → Gives
              (λ ended d. d.if_keep_alive_error ≡ ended)
              ((branch ended (modify (λ c. record c { if_keep_alive_error = true })) done >>= λ _.
                  pure ended)
                d)
      finished true d h = refl
      finished false d h = h
