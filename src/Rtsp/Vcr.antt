-- ===== src/Rtsp/Vcr.antt =====
-- The requests of a running session: `rtspPLAY`, `rtspPAUSE`, `rtsp_forward`, `rtsp_backward`,
-- `rtsp_jump`, `rtspTEARDOWN`, `rtspGETPARAMETER` and `rtspGETPARAMETER_gettime`.
use snmediaplayer_new.Common.Int.{ℤ, pos, negsuc, is_zero, to_u32}
use snmediaplayer_new.Common.Text.{codes, str_eq, after}
use snmediaplayer_new.Common.Decimal.{atoi}
use snmediaplayer_new.Rtsp.State.{Io, Net, M, pure, ◌>>=◌, ◌>>◌, modify, branch, or_return, io}
use snmediaplayer_new.Rtsp.Wire.{exchange, send_command, status_code}
use snmediaplayer_new.Rtsp.Request.{
  play_parts, pause_parts, forward_parts, backward_parts, jump_parts, teardown_parts,
  heartbeat_parts, gettime_parts, request, request_wrapping,
}

-- `playing_time`, if the reply has a Range.
unfoldable pub read_range : M (Unit {0})
read_range c =
    or_return (after c.rx_buffer (codes "npt=")) tt
      (λ p. modify (λ c. record c { playing_time = to_u32 (atoi p) })) c

module _ (net : Net) where
  unfoldable pub rtsp_play : ℤ → M ℤ
  unfolding read_range
  rtsp_play time = do
    request_wrapping (play_parts time)
    replied ← exchange net
    branch replied
        (do
          code ← status_code
          branch (str_eq code (codes "200")) (do read_range; pure (pos 0)) (pure (negsuc 0)))
        (pure (negsuc 0))

  -- The methods that take any reply for success.
  vcr_request : M (Unit {0}) → M (Unit {0}) → M ℤ
  vcr_request ask parse = do
    ask
    replied ← exchange net
    branch replied (do parse; pure (pos 0)) (pure (pos 1))

  unfoldable pub rtsp_pause : M ℤ
  unfolding vcr_request read_range
  rtsp_pause = vcr_request (request pause_parts) read_range

  unfoldable pub rtsp_forward : ℤ → M ℤ
  unfolding vcr_request read_range
  rtsp_forward scale = vcr_request (request (forward_parts scale)) read_range

  unfoldable pub rtsp_backward : ℤ → M ℤ
  unfolding vcr_request read_range
  rtsp_backward scale = vcr_request (request (backward_parts scale)) read_range

  unfoldable pub rtsp_jump : ℤ → M ℤ
  unfolding vcr_request
  rtsp_jump time = vcr_request (request (jump_parts time)) (pure tt)

  -- The reply is not waited for, and the socket is closed, but `sock` keeps its number.
  unfoldable pub rtsp_teardown : M ℤ
  rtsp_teardown = do
    request teardown_parts
    send_command net
    λ c. io net (Io.close c.sock) c
    pure (pos 0)

  -- The heartbeat with the session server.
  unfoldable pub rtsp_getparameter : M ℤ
  rtsp_getparameter = do
    request_wrapping (λ c. heartbeat_parts c.global_session_id c.session_id c)
    replied ← exchange net
    branch replied
        (do code ← status_code; branch (str_eq code (codes "200")) (pure (pos 0)) (pure (negsuc 0)))
        (pure (negsuc 0))

  -- The reply is left to `rtspGETPARAMETER_notime`.
  unfoldable pub rtsp_getparameter_gettime : M ℤ
  rtsp_getparameter_gettime = do
    request_wrapping gettime_parts
    sent ← send_command net
    branch (is_zero sent) (pure (pos 0)) (pure (negsuc 0))
