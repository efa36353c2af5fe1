-- ===== src/Rtsp/KeepAlive.antt =====
-- The two keep-alive threads: `ss_keep_alive_thread`, and `ms_keep_alive_thread` with the loop of
-- `rtspGETPARAMETER_notime`. A loop takes the number of rounds that are watched; its result is
-- whether the thread has ended by then.
use snmediaplayer_new.Common.{
  ℕ, zero, suc, ◌+◌, ◌%◌, Bool, true, false, Option, none, some, take, if◌then◌else◌, ◌==◌, is_some,
}
use snmediaplayer_new.Common.Int.{ℤ, pos, negsuc, is_zero, is_positive, is_minus_one, to_u32}
use snmediaplayer_new.Common.Text.{Bytes, codes, str_eq, strstr, skip}
use snmediaplayer_new.Common.Decimal.{atoi}
use snmediaplayer_new.Rtsp.State.{
  Io, Net, PlayerStatus, player_play, player_quit, M, pure, ◌>>=◌, ◌>>◌, modify, need, branch,
  or_return, done, io,
}
use snmediaplayer_new.Rtsp.Wire.{get_response, send_command, status_code}
use snmediaplayer_new.Rtsp.Request.{heartbeat_parts, announce_parts, rtsp_ver, request_wrapping}
use snmediaplayer_new.Rtsp.Vcr.{rtsp_getparameter}

abbrev pub keep_alive_miss_max : ℕ
keep_alive_miss_max = 3

abbrev pub u16 : ℕ → ℕ
u16 n = n % 65536

-- A missed heartbeat: `++miss_cnt == KEEP_ALIVE_MISS_MAX` ends the thread.
unfoldable pub ss_miss : M Bool
ss_miss c =
    let d = record c { ss_keep_alive_miss_cnt = u16 (c.ss_keep_alive_miss_cnt + 1) } in
    if d.ss_keep_alive_miss_cnt == keep_alive_miss_max
    then some (true, record d { if_keep_alive_error = true })
    else some (false, d)

unfoldable pub ms_miss : M Bool
ms_miss c =
    let d = record c { ms_keep_alive_miss_cnt = u16 (c.ms_keep_alive_miss_cnt + 1) } in
    if d.ms_keep_alive_miss_cnt == keep_alive_miss_max
    then some (true, record d { if_keep_alive_error = true })
    else some (false, d)

-- The status and the text of the answer to an event, if it is one of the three known.
abbrev pub event_action : ℤ → Option (PlayerStatus × Bytes)
event_action (pos n) =
    if n == 2101
    then some (player_quit, codes "End-of-Stream Reached")
    else if n == 2103
    then some (player_quit, codes "Transition")
    else if n == 2102
    then some (player_play, codes "Begin-of-Stream Reached")
    else none
event_action (negsuc n) = none

module _ (net : Net) where
  -- One round of `ss_keep_alive_thread`.
  unfoldable pub ss_round : M Bool
  unfolding ss_miss
  ss_round = do r ← rtsp_getparameter net; branch (is_zero r) (pure false) ss_miss

  unfoldable pub ss_loop : ℕ → M Bool
  ss_loop zero c = some (false, c)
  ss_loop (suc n) c = elim (ss_round c) [
    | none ↦ none
    | some (ended, d) ↦ elim ended [ true ↦ some (true, d) | false ↦ ss_loop n d ]
  ]

  unfoldable pub ss_keep_alive_thread : ℕ → M Bool
  unfolding ss_loop
  ss_keep_alive_thread rounds = do
    modify (λ c. record c { if_keep_alive_error = false; ss_keep_alive_miss_cnt = 0 })
    ss_loop rounds

  -- The label parse_ANNOUNCE.
  unfoldable pub parse_announce : M (Unit {0})
  parse_announce = do
    λ c.
        (do
          p ← need (strstr c.rx_buffer (codes "notice:"))
          q ← need (skip 8 p)
          let event_code = take 4 q
          or_return (event_action (atoi event_code)) tt (λ action. do
            modify (λ c. record c { player_status = action.0 })
            request_wrapping (announce_parts event_code action.1)
            send_command net
            done))
          c

  -- The label parse_gettime.
  unfoldable pub parse_gettime : M (Unit {0})
  parse_gettime = do
    code ← status_code
    branch (str_eq code (codes "200"))
        (λ c.
          or_return (strstr c.rx_buffer (codes "position")) tt
            (λ p. do q ← need (skip 9 p); modify (λ c. record c { playing_time = to_u32 (atoi q) }))
            c)
        done

  -- From `select` on, to the end of the round: whether the method returns.
  unfoldable pub ms_select : M Bool
  ms_select = do
    ready ← λ c. io net (Io.select c.sock) c
    branch (is_zero ready) (pure false) (
        branch (is_minus_one ready) (pure true) (do
          got ← get_response net
          branch (is_positive got)
              (λ c.
                branch (str_eq (take 8 c.rx_buffer) (codes "ANNOUNCE"))
                  (do parse_announce; pure false)
                  (branch (is_some (strstr c.rx_buffer (codes "position")))
                    (do parse_gettime; pure false) (pure false))
                  c)
              (pure false)))

  -- The first reply, if it begins with RTSP/1.0.
  unfoldable pub answer_rtsp : M Bool
  answer_rtsp = do
    code ← status_code
    λ c.
        branch (is_some (strstr c.rx_buffer (codes "position"))) (do parse_gettime; pure false)
          (branch (str_eq code (codes "200"))
            (do modify (λ c. record c { ms_keep_alive_miss_cnt = 0 }); ms_select) (pure true))
          c

  -- What the round does with the first reply.
  unfoldable pub ms_reply : M Bool
  ms_reply c =
      branch (str_eq (take 8 c.rx_buffer) rtsp_ver) answer_rtsp
        (branch (str_eq (take 8 c.rx_buffer) (codes "ANNOUNCE")) (do parse_announce; pure false)
          ms_select)
        c

  -- One round of `rtspGETPARAMETER_notime`: whether it returns.
  unfoldable pub ms_round : M Bool
  ms_round = do
    request_wrapping (λ c. heartbeat_parts c.ms_global_session_id c.ms_session_id c)
    send_command net
    got ← get_response net
    branch (is_positive got) ms_reply ms_miss

  unfoldable pub ms_loop : ℕ → M Bool
  ms_loop zero c = some (false, c)
  ms_loop (suc n) c = elim (ms_round c) [
    | none ↦ none
    | some (ended, d) ↦ elim ended [ true ↦ some (true, d) | false ↦ ms_loop n d ]
  ]

  -- A thread that ends reports the error.
  unfoldable pub ms_keep_alive_thread : ℕ → M Bool
  unfolding ms_loop
  ms_keep_alive_thread rounds = do
    modify (λ c. record c { if_keep_alive_error = false; ms_keep_alive_miss_cnt = 0 })
    ended ← ms_loop rounds
    branch ended (modify (λ c. record c { if_keep_alive_error = true })) done
    pure ended
