-- ===== src/Rtsp/Ready.antt =====
-- What the result of `rtspSETUP` promises.
use snmediaplayer_new.Common.{zero, suc, ◌≡◌, refl, Bool, true, false, arith, ◌||◌, ◌==◌}
use snmediaplayer_new.Common.Int.{ℤ, pos, negsuc, is_zero}
use snmediaplayer_new.Rtsp.State.{Net, Client}
use snmediaplayer_new.Rtsp.After.{Gives, Gives-map}
use snmediaplayer_new.Rtsp.Request.{
  SetupType, setup_sdv, setup_vod, setup_tvs, setup_tvod, no_setup,
}
use snmediaplayer_new.Rtsp.Setup.{
  redirect, parse_control, parse_transport, parse_ok, parse_setup, setup_reply, setup_exchange,
  rtsp_setup,
}

-- 0, a redirection, or one of the failures.
abbrev pub is_setup_result : ℤ → Bool
is_setup_result (pos n) = n == 0 || n == 1 || n == 2 || n == 3 || n == 302
is_setup_result (negsuc n) = false

-- If the result is 0, then the parameters to tune to are ready.
abbrev Proper : ℤ → Client → Type 0
Proper r d = (is_setup_result r ≡ true) × (is_zero r ≡ true → d.play_param.ready ≡ 1)

parse_transport-Proper : (c : Client) → Gives Proper (parse_transport c)
unfolding parse_transport
parse_transport-Proper c = ground arith

parse_control-Proper : (c : Client) → Gives Proper (parse_control parse_transport c)
unfolding parse_control
parse_control-Proper c = grind (arith, parse_transport-Proper)

redirect-Proper : (c : Client) → Gives Proper (redirect c)
unfolding redirect
redirect-Proper c = ground arith

parse_ok-Proper : (type : SetupType) (c : Client) → Gives Proper (parse_ok type c)
unfolding parse_ok
parse_ok-Proper type c = grind (arith, parse_control-Proper, parse_transport-Proper)

parse_setup-Proper : (type : SetupType) (c : Client) → Gives Proper (parse_setup type c)
unfolding parse_setup
parse_setup-Proper type c = grind (arith, parse_ok-Proper, redirect-Proper)

setup_reply-Proper :
    (type : SetupType) (replied : Bool) (c : Client) → Gives Proper (setup_reply type replied c)
unfolding setup_reply
setup_reply-Proper type true c = parse_setup-Proper type c
setup_reply-Proper type false c = ground arith

module _ (net : Net) where
  setup_exchange-Proper : (type : SetupType) (c : Client) → Gives Proper (setup_exchange net type c)
  unfolding setup_exchange
  setup_exchange-Proper type c = grind (arith, setup_reply-Proper)

  setup-Proper : (type : SetupType) (c : Client) → Gives Proper (rtsp_setup net type c)
  unfolding rtsp_setup
  setup-Proper no_setup c = ground arith
  setup-Proper setup_sdv c = setup_exchange-Proper setup_sdv c
  setup-Proper setup_vod c = setup_exchange-Proper setup_vod c
  setup-Proper setup_tvs c = setup_exchange-Proper setup_tvs c
  setup-Proper setup_tvod c = setup_exchange-Proper setup_tvod c

  -- The parameters to tune to are ready if the result is 0.
  abbrev pub ReadyFor : ℤ → Client → Type 0
  ReadyFor (pos zero) d = d.play_param.ready ≡ 1
  ReadyFor _ d = Unit

  ready_for : (r : ℤ) (d : Client) → Proper r d → (is_setup_result r ≡ true) × ReadyFor r d
  ready_for (pos zero) d h = (refl, h.1 refl)
  ready_for (pos (suc n)) d h = (h.0, tt)
  ready_for (negsuc n) d h = (h.0, tt)

  -- If `rtspSETUP` does not fault, it returns 0, 1, 2, 3 or 302, and 0 only with `play_param.ready` set.
  pub setup-ReadyFor :
      (type : SetupType) (c : Client)
      → Gives (λ r d. (is_setup_result r ≡ true) × ReadyFor r d) (rtsp_setup net type c)
  setup-ReadyFor type c = Gives-map Proper _ (rtsp_setup net type c) ready_for (setup-Proper type c)
