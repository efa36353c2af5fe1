-- ===== src/Rtsp/Sockets/Kept.antt =====
-- The methods of the client that neither open nor close a socket, and those that close one.
use snmediaplayer_new.Common.{
  ℕ, zero, suc, ◌+◌, ◌≡◌, refl, ◌∙◌, Bool, true, false, List, Option, none, some, arith,
}
use snmediaplayer_new.Common.Int.{ℤ, pos, is_negative}
use snmediaplayer_new.Common.Text.{Bytes, codes, str_eq, strstr}
use snmediaplayer_new.Rtsp.State.{Net, Client, M, pure, or_return, ◌>>=◌}
use snmediaplayer_new.Rtsp.After.{After, After-bind, After-map, After-branch, Gives}
use snmediaplayer_new.Rtsp.Wire.{exchange, send_command, get_response, status_code, put_tx}
use snmediaplayer_new.Rtsp.Request.{
  SetupType, setup_sdv, setup_vod, setup_tvs, setup_tvod, no_setup, request, request_wrapping,
}
use snmediaplayer_new.Rtsp.Setup.{
  parse_setup, parse_ok, redirect, setup_reply, setup_exchange, rtsp_setup, parse_global,
  parse_session, parse_control, parse_transport, has_control,
}
use snmediaplayer_new.Rtsp.Vcr.{rtsp_teardown}
use snmediaplayer_new.Rtsp.Connect.{destroy_connection}
use snmediaplayer_new.Rtsp.Sockets.{at, opened, closed}

-- The descriptor `f` was neither opened nor closed, and the client has the socket that it had.
abbrev pub Same : Net → ℕ → Client → Client → Type 0
Same net f c d =
    (opened f net d.ios ≡ opened f net c.ios)
    × (closed f d.ios ≡ closed f c.ios)
    × (d.sock ≡ c.sock)

-- With 1, whether the descriptor `f` is the socket of the client.
abbrev pub kept_at : ℕ → ℕ → ℤ → ℕ
kept_at f zero s = 0
kept_at f (suc n) s = at f s

-- The descriptor `f` was closed as often as it was opened since, but with 1 for the client's socket.
abbrev pub Left : Net → ℕ → ℕ → Client → Client → Type 0
Left net f n c d =
    opened f net d.ios + closed f c.ios ≡ kept_at f n d.sock + (opened f net c.ios + closed f d.ios)

abbrev SameSockets : {A : Type 0} → Net → ℕ → M A → Type 0
SameSockets net f m = (c : Client) → After (Same net f c) (m c)

module _ (net : Net) (f : ℕ) where
  SameSockets-bind :
      {A B : Type 0} (m : M A) (k : A → M B)
      → SameSockets net f m
      → ((a : A) → SameSockets net f (k a))
      → SameSockets net f (m >>= k)
  SameSockets-bind m k h g c = After-bind (Same net f c) (Same net f c) (m c) k (h c) (λ a d s.
      After-map (Same net f d) (Same net f c) (k a d) (λ e t. (t.0 ∙ s.0, t.1 ∙ s.1, t.2 ∙ s.2))
        (g a d))

  SameSockets-or_return :
      {A B : Type 0} (o : Option A) (code : B) (k : A → M B)
      → ((a : A) → SameSockets net f (k a))
      → SameSockets net f (or_return o code k)
  SameSockets-or_return none code k g c = (refl, refl, refl)
  SameSockets-or_return (some a) code k g c = g a c

  exchange-Same : SameSockets net f (exchange net)
  unfolding exchange send_command get_response
  exchange-Same c = ground arith

  parse_transport-Same : SameSockets net f parse_transport
  unfolding parse_transport
  parse_transport-Same c = ground arith

  redirect-Same : SameSockets net f redirect
  unfolding redirect
  redirect-Same c = ground arith

  status_code-Same : SameSockets net f status_code
  unfolding status_code
  status_code-Same c = ground arith

  parse_control-Same : SameSockets net f (parse_control parse_transport)
  unfolding parse_control
  parse_control-Same c = grind (arith, parse_transport-Same)

  parse_session-Same : (q : Bytes) → SameSockets net f (parse_session q)
  unfolding parse_session
  parse_session-Same q c = ground arith

  parse_global-Same : SameSockets net f parse_global
  unfolding parse_global
  parse_global-Same c = ground arith

  parse_ok-Same : (type : SetupType) → SameSockets net f (parse_ok type)
  unfolding parse_ok
  parse_ok-Same type = SameSockets-bind parse_global _ parse_global-Same (λ p.
      SameSockets-or_return (strstr p (codes "Session:")) (pos 2) _ (λ q.
        SameSockets-bind (parse_session q) _ (parse_session-Same q) (λ _ c.
          After-branch (Same net f c) (has_control type) (parse_control parse_transport)
            parse_transport c (parse_control-Same c) (parse_transport-Same c))))

  parse_setup-Same : (type : SetupType) → SameSockets net f (parse_setup type)
  unfolding parse_setup
  parse_setup-Same type = SameSockets-bind status_code _ status_code-Same (λ code c.
      After-branch (Same net f c) (str_eq code (codes "200")) (parse_ok type) _ c
        (parse_ok-Same type c)
        (After-branch (Same net f c) (str_eq code (codes "302")) redirect (pure (pos 1)) c
          (redirect-Same c) (refl, refl, refl)))

  setup_reply-Same :
      (type : SetupType) (replied : Bool) → SameSockets net f (setup_reply type replied)
  unfolding setup_reply
  setup_reply-Same type true c = parse_setup-Same type c
  setup_reply-Same type false c = (refl, refl, refl)

  request_wrapping-Same : (p : Client → List Bytes) → SameSockets net f (request_wrapping p)
  unfolding request_wrapping put_tx
  request_wrapping-Same p c = ground arith

  setup_exchange-Same : (type : SetupType) → SameSockets net f (setup_exchange net type)
  unfolding setup_exchange
  setup_exchange-Same type c = grind (arith, request_wrapping-Same, exchange-Same, setup_reply-Same)

  -- `rtspSETUP` opens and closes no socket.
  pub setup-Same : (type : SetupType) → SameSockets net f (rtsp_setup net type)
  unfolding rtsp_setup
  setup-Same no_setup c = (refl, refl, refl)
  setup-Same setup_sdv c = setup_exchange-Same setup_sdv c
  setup-Same setup_vod c = setup_exchange-Same setup_vod c
  setup-Same setup_tvs c = setup_exchange-Same setup_tvs c
  setup-Same setup_tvod c = setup_exchange-Same setup_tvod c

  -- The socket of the client is closed.
  abbrev pub Closes : Client → Client → Type 0
  Closes c d =
      (opened f net d.ios ≡ opened f net c.ios) × (closed f d.ios ≡ at f c.sock + closed f c.ios)

  pub teardown-Closes : (c : Client) → Gives (λ _ d. Closes c d) (rtsp_teardown net c)
  unfolding rtsp_teardown request put_tx send_command
  teardown-Closes c = ground arith

  pub destroy-Closes :
      (c : Client)
      → is_negative c.sock ≡ false
      → Gives (λ _ d. Closes c d) (destroy_connection net c)
  unfolding destroy_connection
  destroy-Closes c h = ground arith
