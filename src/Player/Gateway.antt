-- ===== src/Player/Gateway.antt =====
-- `request_to_open_channel` and `request_to_close_channel`: messages to the conditional access gateway.
use snmediaplayer_new.Common.{ℕ, Bool, ◌&&◌, List, [], ◌∷◌, if◌then◌else◌, ◌==◌}
use snmediaplayer_new.Common.Int.{ℤ, pos, is_zero}
use snmediaplayer_new.Player.State.{Gateway}

-- AppID_t, Channel_type_t and Request_type_t.
abbrev pub app_sdv : ℕ
app_sdv = 4

abbrev pub dvb_with_ip_tun : ℕ
dvb_with_ip_tun = 4

abbrev pub request_start : ℕ
request_start = 1

abbrev pub request_end : ℕ
request_end = 2

abbrev is_opened : ℕ × ℕ × ℕ → Bool
is_opened (channel, request, answer) =
    channel == dvb_with_ip_tun && request == request_start && answer == 1

abbrev is_closed : ℕ × ℕ × ℕ → Bool
is_closed (channel, request, answer) = channel == dvb_with_ip_tun && request == request_end

module _ (gateway : Gateway) where
  abbrev request_channel : List ℕ → Bool → ℤ
  request_channel words accepted =
      if gateway.online
      then if is_zero (gateway.send_code words)
        then if is_zero (gateway.receive_code words)
          then if accepted then pos 0 else pos 2
          else gateway.receive_code words
        else gateway.send_code words
      else pos 0

  unfoldable pub request_to_open_channel : ℤ
  request_to_open_channel =
      let words = app_sdv ∷ dvb_with_ip_tun ∷ request_start ∷ [] in
      request_channel words (is_opened (gateway.reply words))

  unfoldable pub request_to_close_channel : ℤ
  request_to_close_channel =
      let words = app_sdv ∷ dvb_with_ip_tun ∷ request_end ∷ [] in
      request_channel words (is_closed (gateway.reply words))
