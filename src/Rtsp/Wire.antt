-- ===== src/Rtsp/Wire.antt =====
-- `send_command`, `get_response` and what the request methods share: the text of the request, the
-- sequence number, the exchange and the status code of the reply.
use snmediaplayer_new.Common.{
  ℕ, ◌+◌, ◌%◌, Bool, true, false, Option, none, some, [], ◌∷◌, length, take, drop, if◌then◌else◌,
  ltb, ◌==◌, ◌||◌,
}
use snmediaplayer_new.Common.Int.{ℤ, pos, negsuc, is_zero, is_positive}
use snmediaplayer_new.Common.Text.{Bytes, strchr}
use snmediaplayer_new.Rtsp.State.{Io, Net, Client, PlayParam, M, pure, ◌>>=◌, branch, io}

abbrev pub max_buffer_len : ℕ
max_buffer_len = 3000

-- `sprintf(tx_buffer, …)`: undefined if the text and its terminator do not fit.
unfoldable pub put_tx : Bytes → M (Unit {0})
put_tx text c =
    if ltb (length text) max_buffer_len then some (tt, record c { tx_buffer = text }) else none

-- `cseq_tx++`, an unsigned long of 32 bits.
abbrev pub next_cseq : ℕ → ℕ
next_cseq n = (n + 1) % 4294967296

-- `if (cseq_tx == 999999999) cseq_tx = 1;`
abbrev pub wrap_cseq : ℕ → ℕ
wrap_cseq n = if n == 999999999 then 1 else n

-- A text up to its first NUL.
unfoldable pub until_nul : Bytes → Bytes
until_nul [] = []
until_nul (c ∷ s) = let rest = until_nul s in if c == 0 then [] else c ∷ rest

-- `bytes_sent < len`, for the signed `bytes_sent`.
abbrev pub sent_less : ℤ → ℕ → Bool
sent_less (pos n) len = ltb n len
sent_less (negsuc n) len = true

module _ (net : Net) where
  -- 0, or 1 if not all of the text was sent.
  unfoldable pub send_command : M ℤ
  send_command c =
      let d = record c { ios = Io.write c.tx_buffer ∷ c.ios } in
      some
        (if sent_less (net.written c.ios c.tx_buffer) (length c.tx_buffer) then pos 1 else pos 0, d)

  received_code : Option Bytes → Client → ℤ × Client
  received_code none c = (negsuc 0, c)
  received_code (some bytes) c =
      let got = take 2999 bytes in (pos (length got), record c { rx_buffer = until_nul got })

  -- -1, or the number of bytes received.
  unfoldable pub get_response : M ℤ
  unfolding received_code until_nul
  get_response c = some (received_code (net.received c.ios) (record c { ios = Io.read ∷ c.ios }))

  -- With a wait of up to so many seconds and microseconds for the socket, if one is given.
  unfoldable pub get_response_timeout : (sec usec : ℤ) → M ℤ
  get_response_timeout sec usec c =
      if is_positive sec || is_positive usec
      then (do
        ready ← io net (Io.select c.sock)
        branch (is_positive ready) get_response (pure (negsuc 0)))
          c
      else get_response c

  -- `if (send_command()) return …; if (get_response() <= 0) return …;`: whether a reply came.
  unfoldable pub exchange : M Bool
  exchange = do
    sent ← send_command
    λ c. elim (is_zero sent) [
      | false ↦ some (false, c)
      | true ↦ (do got ← get_response; pure (is_positive got)) c
    ]

-- `ptr = strchr(rx_buffer, ' '); strncpy(ret_code, ptr+1, 3);`; undefined if there is no blank.
unfoldable pub status_code : M Bytes
unfolding strchr
status_code c = elim (strchr c.rx_buffer 32) [ none ↦ none | some p ↦ some (take 3 (drop 1 p), c) ]

unfoldable pub get_play_param : M PlayParam
get_play_param c = some (c.play_param, c)
