-- ===== src/Rtsp/Setup.antt =====
-- `rtspSETUP`: the request, the redirection and the parsing of the reply.
pub mod Fields
pub mod Reply
use snmediaplayer_new.Common.{ℕ, ◌+◌, ◌*◌, ◌%◌, Bool, true, false, none, some, [], drop}
use snmediaplayer_new.Common.Int.{ℤ, pos, to_u16, to_u32}
use snmediaplayer_new.Common.Text.{Bytes, codes, str_eq, strstr, after, skip, gap, strncpy}
use snmediaplayer_new.Common.Decimal.{atoi}
use snmediaplayer_new.Rtsp.State.{
  Net, PlayParam, M, pure, ◌>>=◌, ◌>>◌, modify, need, branch, or_return,
}
use snmediaplayer_new.Rtsp.Wire.{exchange, status_code}
use snmediaplayer_new.Rtsp.Request.{
  SetupType, setup_sdv, setup_vod, no_setup, setup_tvs, setup_tvod, setup_parts, request_wrapping,
}

abbrev pub default_sm_timeout : ℕ
default_sm_timeout = 60

abbrev pub default_ms_timeout : ℕ
default_ms_timeout = 300

-- `atoi` into an `unsigned int` and an `unsigned short`.
abbrev pub number32 : Bytes → ℕ
number32 p = to_u32 (atoi p)

abbrev pub number16 : Bytes → ℕ
number16 p = to_u16 (atoi p)

-- The reply 302: the address behind "Location: rtsp://" becomes the server's.
unfoldable pub redirect : M ℤ
redirect c =
    or_return (strstr c.rx_buffer (codes "Location")) (pos 302)
      (λ p. do
        q ← need (skip 10 p)
        r ← need (skip 7 q)
        or_return (strstr r (codes ":")) (pos 302) (λ e. do
          n ← need (gap e q 7)
          ip ← need (strncpy 256 [] r n)
          modify (λ c. record c { ip = ip; port = number16 (drop 1 e) })
          pure (pos 302)))
      c

-- GlobalSession, and the pointer to the text behind its name.
unfoldable pub parse_global : M Bytes
parse_global c =
    (do
      p ← need (strstr c.rx_buffer (codes "GlobalSession:"))
      e ← need (strstr p (codes "\r\n"))
      n ← need (gap e p 15)
      id ← need (strncpy 32 c.global_session_id (drop 15 p) n)
      modify (λ c. record c { global_session_id = id; ms_global_session_id = id })
      pure (drop 15 p))
      c

-- The session id at `q`, and the timeout.
unfoldable pub parse_session : Bytes → M (Unit {0})
parse_session q c = elim (strstr c.rx_buffer (codes "timeout=")) [
  | none ↦
      (do
        e ← need (strstr q (codes "\r\n"))
        n ← need (gap e q 10)
        id ← need (strncpy 32 c.session_id (drop 9 q) n)
        modify (λ c. record c { session_id = id; session_timeout = default_sm_timeout }))
        c
  | some e ↦
      (do
        n ← need (gap e q 10)
        id ← need (strncpy 32 c.session_id (drop 9 q) n)
        modify (λ c. record c { session_id = id; session_timeout = number32 (drop 8 e) }))
        c
]

abbrev pub control_timeout : Bytes → ℕ
control_timeout rx = elim (after rx (codes "ControlTimeout=")) [
  | none ↦ default_ms_timeout
  | some p ↦ number32 p
]

-- The fields of the media server, then the rest `k`.
unfoldable pub parse_control : M ℤ → M ℤ
parse_control k c =
    or_return (strstr c.rx_buffer (codes "ControlSession:")) (pos 2)
      (λ p. or_return (strstr p (codes "ControlHost:")) (pos 2) (λ m.
        or_return (strstr p (codes "ControlPort:")) (pos 2) (λ e. do
          n ← need (gap m p 17)
          id ← need (strncpy 32 c.ms_session_id (drop 16 p) n)
          l ← need (gap e m 13)
          ip ← need (strncpy 256 c.ms_ip (drop 12 m) l)
          modify (λ c. record c {
            ms_session_id = id;
            ms_ip = ip;
            ms_port = number16 (drop 12 e);
            ms_session_timeout = control_timeout c.rx_buffer;
          })
          k)))
      c

abbrev set_param : (PlayParam → PlayParam) → M (Unit {0})
set_param f = modify (λ c. record c { play_param = f c.play_param })

-- The transport parameters.
unfoldable pub parse_transport : M ℤ
parse_transport c =
    or_return (strstr rx (codes "Transport")) (pos 3)
      (λ _. or_return (after rx (codes "programid=")) (pos 3) (λ p. do
        set_param (λ v. record v { pn_id = number32 p })
        or_return (after rx (codes "frequency=")) (pos 3) (λ p. do
          set_param (λ v. record v { frequency = number32 p })
          or_return (strstr rx (codes "symbol_rate=")) (pos 3) (λ p. do
            set_param (λ v. record v { symbol_rate = number32 (drop 12 p) * 1000 % 4294967296 })
            or_return (after p (codes ".")) (pos 3) (λ p. do
              set_param (λ v. record v { symbol_rate = (v.symbol_rate + number32 p) % 4294967296 })
              or_return (after rx (codes "modulation=")) (pos 3) (λ p. do
                set_param (λ v. record v { mode = number16 p; ready = 1 })
                pure (pos 0)))))))
      c
  where
    rx : Bytes
    rx = c.rx_buffer

abbrev pub has_control : SetupType → Bool
has_control setup_vod = true
has_control setup_tvs = true
has_control setup_tvod = true
has_control _ = false

-- The reply 200.
unfoldable pub parse_ok : SetupType → M ℤ
parse_ok type = do
  p ← parse_global
  or_return (strstr p (codes "Session:")) (pos 2) (λ q. do
    parse_session q
    branch (has_control type) (parse_control parse_transport) parse_transport)

unfoldable pub parse_setup : SetupType → M ℤ
parse_setup type = do
  code ← status_code
  branch (str_eq code (codes "200")) (parse_ok type)
      (branch (str_eq code (codes "302")) redirect (pure (pos 1)))

-- The reply, if one came.
unfoldable pub setup_reply : SetupType → Bool → M ℤ
setup_reply type true c = parse_setup type c
setup_reply type false c = some (pos 1, c)

module _ (net : Net) where
  unfoldable pub setup_exchange : SetupType → M ℤ
  setup_exchange type = do
    request_wrapping (setup_parts type)
    replied ← exchange net
    setup_reply type replied

  -- 0, 302 for a redirection, and 1, 2 or 3 for a failure.
  unfoldable pub rtsp_setup : SetupType → M ℤ
  rtsp_setup no_setup = pure (pos 1)
  rtsp_setup setup_sdv = setup_exchange setup_sdv
  rtsp_setup setup_vod = setup_exchange setup_vod
  rtsp_setup setup_tvs = setup_exchange setup_tvs
  rtsp_setup setup_tvod = setup_exchange setup_tvod
