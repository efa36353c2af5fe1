-- ===== src/Rtsp/Buffers.antt =====
-- The lengths of the SETUP requests.
use snmediaplayer_new.Common.{ℕ, ◌≤◌, ◌<◌, arith, length, length-append}
use snmediaplayer_new.Common.Decimal.{print_long}
use snmediaplayer_new.Common.Decimal.Size.{length-print-le}
use snmediaplayer_new.Rtsp.State.{Client}
use snmediaplayer_new.Rtsp.Request.{
  setup_npt, setup_parts, concat, SetupType, setup_sdv, setup_vod, setup_tvs, setup_tvod, no_setup,
}

-- The texts fit the arrays of the class, and the numbers are of 32 bits.
pub record Fits (c : Client) : Type 0 where
  pub ip : length c.ip ≤ 255
  pub content_id : length c.content_id ≤ 255
  pub user_id : length c.user_id ≤ 255
  pub session_id : length c.session_id ≤ 31
  pub global_session_id : length c.global_session_id ≤ 31
  pub ms_session_id : length c.ms_session_id ≤ 31
  pub ms_global_session_id : length c.ms_global_session_id ≤ 31
  pub port : c.port < 4294967296
  pub cseq_tx : c.cseq_tx < 4294967296
  pub service_group : c.service_group < 4294967296
  pub bit_rate : c.bit_rate < 4294967296
  pub media_start_time : c.media_start_time < 4294967296
  pub media_stop_time : c.media_stop_time < 4294967296

length-print_long-le : (n : ℕ) → n < 4294967296 → length (print_long n) ≤ 11
unfolding print_long
length-print_long-le n h = grind (arith, length-print-le)

setup_npt-Fits : (c : Client) → Fits c → length (concat (setup_npt c)) ≤ 40
unfolding setup_npt
setup_npt-Fits c h = grind (arith, length-append, length-print_long-le)

-- If the texts fit the arrays of the class and the numbers are of 32 bits, every SETUP request fits
-- `tx_buffer` with its terminator.
pub setup-Fits : (t : SetupType) (c : Client) → Fits c → length (concat (setup_parts t c)) < 3000
unfolding setup_parts
setup-Fits setup_sdv c h = omega (arith, length-append {0}, length-print-le, length-print_long-le)
setup-Fits setup_vod c h = omega (arith, length-append {0}, length-print-le, length-print_long-le)
setup-Fits no_setup c h = omega (arith, length-append {0}, length-print-le, length-print_long-le)
setup-Fits setup_tvs c h = omega (arith, length-append {0}, length-print-le, setup_npt-Fits)
setup-Fits setup_tvod c h = omega (arith, length-append {0}, length-print-le, setup_npt-Fits)
