-- ===== src/Rtsp/Sequence.antt =====
-- The sequence number `cseq_tx`.
use snmediaplayer_new.Common.{
  ℕ, zero, suc, ◌+◌, ◌≤◌, ◌<◌, ◌≡◌, ◌≢◌, refl, sym, subst, Bool, true, false, List, arith, take,
}
use snmediaplayer_new.Common.Int.{ℤ}
use snmediaplayer_new.Common.Text.{Bytes, codes, str_eq}
use snmediaplayer_new.Rtsp.State.{Net, Client, M, ◌>>=◌, branch, pure}
use snmediaplayer_new.Rtsp.After.{After, After-branch, After-bind, After-map}
use snmediaplayer_new.Rtsp.Wire.{
  exchange, send_command, get_response, status_code, put_tx, next_cseq, wrap_cseq,
}
use snmediaplayer_new.Rtsp.Request.{
  rtsp_ver, SetupType, setup_sdv, setup_vod, setup_tvs, setup_tvod, no_setup, request,
  request_wrapping,
}
use snmediaplayer_new.Rtsp.Setup.{
  parse_setup, parse_ok, redirect, setup_reply, setup_exchange, rtsp_setup, parse_global,
  parse_session, parse_control, parse_transport,
}
use snmediaplayer_new.Rtsp.Vcr.{
  rtsp_play, rtsp_pause, rtsp_getparameter, rtsp_getparameter_gettime, read_range,
}
use snmediaplayer_new.Rtsp.KeepAlive.{
  parse_announce, parse_gettime, ms_select, answer_rtsp, ms_reply, ms_round, ms_miss,
}

-- The method leaves the sequence number as it is.
abbrev Keeps : {A : Type 0} → M A → Type 0
Keeps m = (c : Client) → After (λ d. d.cseq_tx ≡ c.cseq_tx) (m c)

-- The sequence number is below 999999999, and the method keeps it so.
abbrev pub Below : Client → Type 0
Below d = d.cseq_tx < 999999999

abbrev Bounded : {A : Type 0} → M A → Type 0
Bounded m = (c : Client) → c.cseq_tx < 999999999 → After (λ d. d.cseq_tx < 999999999) (m c)

module _ (net : Net) where
  exchange-Keeps : Keeps (exchange net)
  unfolding exchange send_command get_response
  exchange-Keeps c = ground arith

  send_command-Keeps : Keeps (send_command net)
  unfolding exchange send_command get_response
  send_command-Keeps c = ground arith

  read_range-Keeps : Keeps (read_range)
  unfolding read_range
  read_range-Keeps c = ground arith

  parse_transport-Keeps : Keeps (parse_transport)
  unfolding parse_transport
  parse_transport-Keeps c = ground arith

  redirect-Keeps : Keeps (redirect)
  unfolding redirect
  redirect-Keeps c = ground arith

  status_code-Keeps : Keeps status_code
  unfolding status_code
  status_code-Keeps c = ground arith

  parse_control-Keeps : Keeps (parse_control parse_transport)
  unfolding parse_control
  parse_control-Keeps c = grind (arith, parse_transport-Keeps)

  parse_session-Keeps : (q : Bytes) → Keeps (parse_session q)
  unfolding parse_session
  parse_session-Keeps q c = ground arith

  parse_global-Keeps : Keeps (parse_global)
  unfolding parse_global
  parse_global-Keeps c = ground arith

  request_wrapping-Bounded : (p : Client → List Bytes) → Bounded (request_wrapping p)
  unfolding request_wrapping put_tx
  request_wrapping-Bounded p c h = ground arith

  parse_ok-Keeps : (type : SetupType) → Keeps (parse_ok type)
  unfolding parse_ok
  parse_ok-Keeps type c =
      grind
        (arith, parse_global-Keeps, parse_session-Keeps, parse_control-Keeps, parse_transport-Keeps)

  play-Bounded : (time : ℤ) → Bounded (rtsp_play net time)
  unfolding rtsp_play
  play-Bounded time c h =
      grind (arith, request_wrapping-Bounded, exchange-Keeps, status_code-Keeps, read_range-Keeps)

  getparameter-Bounded : Bounded (rtsp_getparameter net)
  unfolding rtsp_getparameter
  getparameter-Bounded c h =
      grind (arith, request_wrapping-Bounded, exchange-Keeps, status_code-Keeps)

  gettime-Bounded : Bounded (rtsp_getparameter_gettime net)
  unfolding rtsp_getparameter_gettime
  gettime-Bounded c h = grind (arith, request_wrapping-Bounded, send_command-Keeps)

  parse_setup-Keeps : (type : SetupType) → Keeps (parse_setup type)
  unfolding parse_setup
  parse_setup-Keeps type c = grind (arith, status_code-Keeps, parse_ok-Keeps, redirect-Keeps)

  setup_reply-Keeps : (type : SetupType) (replied : Bool) → Keeps (setup_reply type replied)
  unfolding setup_reply
  setup_reply-Keeps type true c = parse_setup-Keeps type c
  setup_reply-Keeps type false c = refl

  setup_exchange-Bounded : (type : SetupType) → Bounded (setup_exchange net type)
  unfolding setup_exchange
  setup_exchange-Bounded type c h =
      grind (arith, request_wrapping-Bounded, exchange-Keeps, setup_reply-Keeps)

  setup-Bounded : (type : SetupType) → Bounded (rtsp_setup net type)
  unfolding rtsp_setup
  setup-Bounded no_setup c h = h
  setup-Bounded setup_sdv c h = setup_exchange-Bounded setup_sdv c h
  setup-Bounded setup_vod c h = setup_exchange-Bounded setup_vod c h
  setup-Bounded setup_tvs c h = setup_exchange-Bounded setup_tvs c h
  setup-Bounded setup_tvod c h = setup_exchange-Bounded setup_tvod c h

  parse_announce-Bounded : Bounded (parse_announce net)
  unfolding parse_announce
  parse_announce-Bounded c h = grind (arith, request_wrapping-Bounded, send_command-Keeps)

  parse_gettime-Keeps : Keeps (parse_gettime net)
  unfolding parse_gettime
  parse_gettime-Keeps c = grind (arith, status_code-Keeps)

  get_response-Keeps : Keeps (get_response net)
  unfolding get_response
  get_response-Keeps c = ground arith

  ms_select-Bounded : Bounded (ms_select net)
  unfolding ms_select
  ms_select-Bounded c h =
      grind (arith, get_response-Keeps, parse_announce-Bounded, parse_gettime-Keeps)

  answer_rtsp-Bounded : Bounded (answer_rtsp net)
  unfolding answer_rtsp
  answer_rtsp-Bounded c h = grind (arith, status_code-Keeps, parse_gettime-Keeps, ms_select-Bounded)

  announced : Bounded (parse_announce net >>= λ _. pure false)
  announced c h = grind (arith, parse_announce-Bounded)

  ms_reply-Bounded : Bounded (ms_reply net)
  unfolding ms_reply
  ms_reply-Bounded c h =
      let P = λ (d : Client). d.cseq_tx < 999999999 in
      let announce : M Bool = parse_announce net >>= λ _. pure false in
      let b1 = str_eq (take 8 c.rx_buffer) rtsp_ver in
      let b2 = str_eq (take 8 c.rx_buffer) (codes "ANNOUNCE") in
      After-branch P b1 (answer_rtsp net) (branch b2 announce (ms_select net)) c
        (answer_rtsp-Bounded c h)
        (After-branch P b2 announce (ms_select net) c (announced c h) (ms_select-Bounded c h))

  ms_round-Bounded : Bounded (ms_round net)
  unfolding ms_round ms_miss
  ms_round-Bounded c h =
      grind
        (arith, request_wrapping-Bounded, send_command-Keeps, get_response-Keeps, ms_reply-Bounded)

  -- `rtspSETUP`, `rtspPLAY`, `rtspGETPARAMETER`, `rtspGETPARAMETER_gettime` and each round of
  -- `rtspGETPARAMETER_notime` leave a sequence number below 999999999 below it, if they do not fault.
  pub cseq_bounded :
      (type : SetupType) (time : ℤ) (c : Client)
      → c.cseq_tx < 999999999
      → After Below (rtsp_setup net type c)
        × After Below (rtsp_play net time c)
        × After Below (rtsp_getparameter net c)
        × After Below (rtsp_getparameter_gettime net c)
        × After Below (ms_round net c)
  cseq_bounded type time c h = (
    setup-Bounded type c h,
    play-Bounded time c h,
    getparameter-Bounded c h,
    gettime-Bounded c h,
    ms_round-Bounded c h,
  )

  -- `rtspPAUSE` counts on without the test.
  pause_counts : (c : Client) → After (λ d. d.cseq_tx ≡ next_cseq c.cseq_tx) (rtsp_pause net c)
  unfolding rtsp_pause request put_tx
  pause_counts c = grind (arith, exchange-Keeps, read_range-Keeps)

  getparameter_counts :
      (c : Client)
      → After (λ d. d.cseq_tx ≡ wrap_cseq (next_cseq c.cseq_tx)) (rtsp_getparameter net c)
  unfolding rtsp_getparameter request_wrapping put_tx
  getparameter_counts c = grind (arith, exchange-Keeps, status_code-Keeps)

  -- That many heartbeats with the session server.
  abbrev pub heartbeats : ℕ → M (Unit {0})
  heartbeats zero = pure tt
  heartbeats (suc n) = rtsp_getparameter net >>= λ _. heartbeats n

  next_beyond :
      (k n : ℕ) (c : Client)
      → c.cseq_tx ≡ n
      → 999999999 ≤ n
      → n + suc k < 4294967296
      → n ≢ 999999998
      → wrap_cseq (next_cseq c.cseq_tx) ≡ suc n
  next_beyond k n c e l u d = ground arith

  heartbeats_count :
      (k n : ℕ) (c : Client)
      → c.cseq_tx ≡ n
      → 999999999 ≤ n
      → n + k < 4294967296
      → After (λ d. d.cseq_tx ≡ n + k) (heartbeats k c)
  heartbeats_count zero n c e l u = omega arith
  heartbeats_count (suc k) n c e l u =
      After-bind (λ d. d.cseq_tx ≡ suc n) (λ d. d.cseq_tx ≡ n + suc k) (rtsp_getparameter net c)
        (λ _. heartbeats k) (grind (arith, getparameter_counts))
        (λ _ d p.
          subst (λ v. After (λ f. f.cseq_tx ≡ v) (heartbeats k d)) (sym plus)
            (heartbeats_count k (suc n) d p (omega arith) (omega arith)))
    where
      plus : n + suc k ≡ suc n + k
      plus = omega arith

  -- A pause at 999999998, which `rtspPAUSE` counts on without the test, takes the sequence number past
  -- the value at which it is set back to 1: the heartbeats behind it count on from there, as long as
  -- they do not fault and 32 bits hold the number.
  pause_misses_wrap :
      (k : ℕ) (c : Client)
      → c.cseq_tx ≡ 999999998
      → k < 3000000000
      → After (λ d. d.cseq_tx ≡ 999999999 + k) ((rtsp_pause net >>= λ _. heartbeats k) c)
  pause_misses_wrap k c e l =
      After-bind (λ d. d.cseq_tx ≡ 999999999) (λ d. d.cseq_tx ≡ 999999999 + k) (rtsp_pause net c)
        (λ _. heartbeats k) (After-map _ _ (rtsp_pause net c) (λ d q. omega arith) (pause_counts c))
        (λ _ d q. heartbeats_count k 999999999 d q (omega arith) (omega arith))
