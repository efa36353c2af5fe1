-- ===== src/Rtsp/Connect.antt =====
-- `init`, `establishConnection`, `destroyConnection` and `reConnection`.
use snmediaplayer_new.Common.{
  ℕ, zero, suc, Bool, true, false, not, ◌&&◌, none, some, [], if◌then◌else◌, ltb,
}
use snmediaplayer_new.Common.Int.{ℤ, pos, negsuc, is_zero, is_negative, is_minus_one}
use snmediaplayer_new.Rtsp.State.{Io, Net, M, pure, ◌>>=◌, ◌>>◌, modify, branch, done, io}

unfoldable pub init : M (Unit {0})
init = modify (λ c. record c {
  tx_buffer = [];
  rx_buffer = [];
  sock = negsuc 0;
  cseq_tx = 0;
  session_id = [];
  global_session_id = [];
})

-- What one address leads to: `break` with the value of `error`, `continue`, or `return false`.
pub data Attempt : Type 0 where
  connected : (error : ℤ) → Attempt
  next : Attempt
  failed : Attempt

-- `sock < 2`.
abbrev pub below_two : ℤ → Bool
below_two (pos n) = ltb n 2
below_two (negsuc n) = true

module _ (net : Net) where
  abbrev on_sock : (ℤ → Io) → M ℤ
  on_sock i c = io net (i c.sock) c

  abbrev forget_sock : M (Unit {0})
  forget_sock = modify (λ c. record c { sock = negsuc 0 })

  -- From the `connect` to the end of the loop's body.
  unfoldable pub await_connect : M Attempt
  await_connect = do
    in_progress ← λ c. some (net.in_progress c.ios, c)
    n ← on_sock Io.connect
    branch (is_negative n && not in_progress) (do on_sock Io.close; pure failed)
        (branch (is_zero n) (pure (connected (pos 0))) (do
          ready ← on_sock Io.select
          branch (is_zero ready) (do on_sock Io.close; forget_sock; pure next)
              (do
                error ← λ c. some (net.so_error c.ios, c)
                got ← on_sock Io.get_so_error
                branch (is_negative got) (do on_sock Io.close; forget_sock; pure next)
                    (pure (connected error)))))

  -- The body of the loop over the addresses.
  unfoldable pub try_address : M Attempt
  try_address = do
    fd ← io net Io.socket
    modify (λ c. record c { sock = fd })
    branch (below_two fd) (pure next) (do
      r1 ← on_sock Io.set_reuse_addr
      branch (is_minus_one r1) (do on_sock Io.close; pure failed)
          (do
            r2 ← on_sock Io.set_non_blocking
            branch (is_minus_one r2) (do on_sock Io.close; pure failed) await_connect))

  -- The loop over the addresses, and whether it left by `break`, `return` or at the end of the list.
  unfoldable pub try_addresses : ℕ → M Attempt
  try_addresses zero c = some (next, c)
  try_addresses (suc n) c = elim (try_address c) [
    | none ↦ none
    | some (a, d) ↦ elim a [
      | connected error ↦ some (connected error, d)
      | next ↦ try_addresses n d
      | failed ↦ some (failed, d)
    ]
  ]

  -- The end of `establishConnection`: the timeouts of the socket.
  unfoldable pub finish_connection : Bool → M Bool
  finish_connection status c =
      branch (is_negative c.sock) (pure false)
        (do on_sock Io.set_send_timeout; on_sock Io.set_receive_timeout; pure status) c

  -- `close(sock); sock = -1;`, and the end.
  unfoldable pub abandon : M Bool
  abandon = do on_sock Io.close; forget_sock; finish_connection false

  -- With the result of setting the socket to block again.
  unfoldable pub unless_blocked : ℤ → M Bool
  unless_blocked r c = if is_minus_one r then abandon c else finish_connection true c

  -- Behind the loop.
  unfoldable pub after_loop : Attempt → M Bool
  after_loop failed c = some (false, c)
  after_loop next c = finish_connection false c
  after_loop (connected error) c =
      if is_zero error then (do r ← on_sock Io.set_blocking; unless_blocked r) c else abandon c

  unfoldable pub establish_connection : M Bool
  establish_connection = do
    modify (λ c. record c { rx_buffer = []; tx_buffer = []; sock = negsuc 0 })
    count ← λ c. some (net.addresses c.ios, c)
    error ← io net Io.get_addr_info
    branch (is_zero error) (do a ← try_addresses count; after_loop a) (pure false)

  unfoldable pub destroy_connection : M (Unit {0})
  destroy_connection c =
      (do branch (is_negative c.sock) done (do on_sock Io.close; done); forget_sock) c

  unfoldable pub reconnection : M Bool
  unfolding establish_connection destroy_connection
  reconnection = do destroy_connection; establish_connection
