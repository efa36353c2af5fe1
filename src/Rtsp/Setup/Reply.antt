-- ===== src/Rtsp/Setup/Reply.antt =====
-- The reply to SETUP, field by field.
use snmediaplayer_new.Common.{
  ℕ, ◌+◌, ◌*◌, ◌%◌, ◌<◌, ◌≡◌, refl, ◌∙◌, Bool, true, false, some, [], ◌∷◌, ◌++◌, length, drop,
  arith,
}
use snmediaplayer_new.Common.Int.{ℤ, pos}
use snmediaplayer_new.Common.Text.{Bytes, codes, strstr, after}
use snmediaplayer_new.Common.Text.Matches.{strstr-Lacks, strncpy-over, gap-field, gap-before}
use snmediaplayer_new.Common.Decimal.{print}
use snmediaplayer_new.Common.Decimal.RoundTrip.{atoi-print, print-Lacks}
use snmediaplayer_new.Rtsp.State.{Client, PlayParam, M, or_return, branch}
use snmediaplayer_new.Rtsp.After.{bind_eq}
use snmediaplayer_new.Rtsp.Wire.{status_code}
use snmediaplayer_new.Rtsp.Session.{timed_header, timed_size}
use snmediaplayer_new.Rtsp.Request.{SetupType}
use snmediaplayer_new.Rtsp.Setup.{
  parse_global, parse_session, control_timeout, parse_control, parse_transport, parse_ok,
  parse_setup, has_control,
}
use snmediaplayer_new.Rtsp.Setup.Fields.{Fields, Control, Carries, CarriesControl, Fit}

-- The text behind a copy without its terminator.
abbrev pub copied : Bytes → Bytes → Bytes
copied field old = field ++ drop (length field) old

global_taken :
    (c : Client) (f : Fields) (k : Carries c.rx_buffer f)
    → parse_global c
      ≡ some (
        f.global_id ++ (codes "\r\n" ++ k.global_rest),
        record c {
          global_session_id = copied f.global_id c.global_session_id;
          ms_global_session_id = copied f.global_id c.global_session_id;
        },
      )
unfolding parse_global strstr
global_taken c f k =
    rw
      (
        k.global,
        strstr-Lacks 13 (10 ∷ []) f.global_id (codes "\r\n" ++ k.global_rest) k.global_line,
        gap-field (codes "GlobalSession: ") f.global_id (codes "\r\n" ++ k.global_rest),
        strncpy-over 32 c.global_session_id f.global_id (codes "\r\n" ++ k.global_rest)
            (omega (arith, k.global_fits)),
      )
      refl

session_taken :
    (c : Client) (f : Fields) (k : Carries c.rx_buffer f)
    → f.timeout < 4294967296
    → parse_session (timed_header f.id f.timeout k.session_rest) c
      ≡ some (tt, record c { session_id = copied f.id c.session_id; session_timeout = f.timeout })
unfolding parse_session
session_taken c f k l =
    rw
      (
        parse_session,
        k.timeout,
        timed_size f.id (codes "timeout=" ++ (print f.timeout ++ k.session_rest)),
        strncpy-over 32 c.session_id f.id
            (59 ∷ (codes "timeout=" ++ (print f.timeout ++ k.session_rest)))
            (omega (arith, k.id_fits)),
        atoi-print f.timeout k.session_rest k.timeout_ends,
        small,
      )
      refl
  where
    small : f.timeout % 4294967296 ≡ f.timeout
    small = omega (arith, l)

-- The parameters of the stream, as the fields have them.
abbrev pub play_param_of : Fields → PlayParam → PlayParam
play_param_of f v = record v {
  pn_id = f.program;
  frequency = f.frequency;
  symbol_rate = f.symbol_rate * 1000 + f.symbol_fraction;
  mode = f.modulation;
  ready = 1;
}

transport_taken :
    (c : Client) (f : Fields) (k : Carries c.rx_buffer f)
    → Fit f
    → parse_transport c ≡ some (pos 0, record c { play_param = play_param_of f c.play_param })
unfolding parse_transport strstr
transport_taken c f k (_, p, q, s, m) =
    rw
      (
        parse_transport,
        k.transport,
        or_return,
        after,
        k.program.first,
        atoi-print f.program k.program.rest k.program.ends,
        k.frequency.first,
        atoi-print f.frequency k.frequency.rest k.frequency.ends,
        k.symbol,
        atoi-print f.symbol_rate (codes "." ++ (print f.symbol_fraction ++ k.symbol_rest)) refl,
        strstr-Lacks 46 [] (print f.symbol_rate)
            (codes "." ++ (print f.symbol_fraction ++ k.symbol_rest))
            (print-Lacks 46 f.symbol_rate refl),
        atoi-print f.symbol_fraction k.symbol_rest k.symbol_ends,
        k.modulation.first,
        atoi-print f.modulation k.modulation.rest k.modulation.ends,
        modulus f.program p,
        modulus f.frequency q,
        symbol_sum,
        small,
      )
      refl
  where
    modulus : (n : ℕ) → n < 4294967296 → n % 4294967296 ≡ n
    modulus n l = omega (arith, l)

    small : f.modulation % 65536 ≡ f.modulation
    small = omega (arith, m)

    symbol_sum :
        (f.symbol_rate % 4294967296 * 1000 % 4294967296 + f.symbol_fraction % 4294967296)
          % 4294967296
        ≡ f.symbol_rate * 1000 + f.symbol_fraction
    symbol_sum = omega (arith, s)

-- The fields of the media server, as the client has them.
abbrev pub with_control : Control → Client → Client
with_control k c = record c {
  ms_session_id = copied k.id c.ms_session_id;
  ms_ip = copied k.host c.ms_ip;
  ms_port = k.port;
  ms_session_timeout = k.timeout;
}

control_taken :
    (c : Client) (k : Control) (h : CarriesControl c.rx_buffer k) (rest : M ℤ)
    → k.port < 65536
    → k.timeout < 4294967296
    → parse_control rest c ≡ rest (with_control k c)
unfolding parse_control strstr
control_taken c k h rest p t =
    rw
      (
        parse_control,
        h.control,
        or_return,
        strstr-Lacks 67 (codes "ontrolHost:") k.id (59 ∷ from_host) h.id_plain,
        strstr-Lacks 67 (codes "ontrolPort:") k.id (59 ∷ from_host) h.id_plain,
        strstr-Lacks 67 (codes "ontrolPort:") k.host (59 ∷ from_port) h.host_plain,
        gap-before 59 (codes "ControlSession: ") k.id from_host,
        strncpy-over 32 c.ms_session_id k.id (59 ∷ from_host) (omega (arith, h.id_fits)),
        gap-before 59 (codes "ControlHost:") k.host from_port,
        strncpy-over 256 c.ms_ip k.host (59 ∷ from_port) (omega (arith, h.host_fits)),
        atoi-print k.port h.rest h.port_ends,
        control_timeout,
        after,
        h.timeout.first,
        atoi-print k.timeout h.timeout.rest h.timeout.ends,
        small,
        modulus,
      )
      refl
  where
    from_port : Bytes
    from_port = codes "ControlPort:" ++ (print k.port ++ h.rest)

    from_host : Bytes
    from_host = codes "ControlHost:" ++ (k.host ++ (59 ∷ from_port))

    small : k.port % 65536 ≡ k.port
    small = omega (arith, p)

    modulus : k.timeout % 4294967296 ≡ k.timeout
    modulus = omega (arith, t)

-- A service with a media server needs the fields of that server.
abbrev pub ControlFor : Bool → Bytes → Control → Type 0
ControlFor true rx k = CarriesControl rx k × (k.port < 65536) × (k.timeout < 4294967296)
ControlFor false rx k = Unit

abbrev pub with_control_if : Bool → Control → Client → Client
with_control_if true k c = with_control k c
with_control_if false k c = c

abbrev with_global : Fields → Client → Client
with_global f c = record c {
  global_session_id = copied f.global_id c.global_session_id;
  ms_global_session_id = copied f.global_id c.global_session_id;
}

abbrev with_session : Fields → Client → Client
with_session f c = record c {
  global_session_id = copied f.global_id c.global_session_id;
  ms_global_session_id = copied f.global_id c.global_session_id;
  session_id = copied f.id c.session_id;
  session_timeout = f.timeout;
}

-- The client with all that the reply carries.
abbrev pub taken : Bool → Fields → Control → Client → Client
taken control f k c =
    let d = with_control_if control k (with_session f c) in
    record d { play_param = play_param_of f c.play_param }

rest_taken :
    (control : Bool) (c : Client) (f : Fields) (k : Control)
    → Carries c.rx_buffer f
    → ControlFor control c.rx_buffer k
    → Fit f
    → branch control (parse_control parse_transport) parse_transport c
      ≡ some (
        pos 0,
        record (with_control_if control k c) { play_param = play_param_of f c.play_param },
      )
rest_taken true c f k h (g, p, t) n =
    control_taken c k g parse_transport p t ∙ transport_taken (with_control k c) f h n
rest_taken false c f k h g n = transport_taken c f h n

ok_taken :
    (type : SetupType) (c : Client) (f : Fields) (k : Control)
    → Carries c.rx_buffer f
    → ControlFor (has_control type) c.rx_buffer k
    → Fit f
    → parse_ok type c ≡ some (pos 0, taken (has_control type) f k c)
unfolding parse_ok
ok_taken type c f k h g n =
    bind_eq parse_global _ c (with_global f c) _ (global_taken c f h)
    ∙ rw (h.session, or_return)
        (bind_eq (parse_session (timed_header f.id f.timeout h.session_rest)) _ (with_global f c)
            (with_session f c) tt (session_taken (with_global f c) f h n.0)
          ∙ rest_taken (has_control type) (with_session f c) f k h g n)

-- From a reply 200 that carries all the fields, and those of the media server if the service has one,
-- with ids that fit their arrays and numbers that fit their types, `rtspSETUP` reads each field as the
-- server printed it, and returns 0. An id or an address that is shorter than what its array held keeps
-- the end of the old text.
pub parse_setup-reply :
    (type : SetupType) (c : Client) (f : Fields) (k : Control)
    → Carries c.rx_buffer f
    → ControlFor (has_control type) c.rx_buffer k
    → Fit f
    → parse_setup type c ≡ some (pos 0, taken (has_control type) f k c)
unfolding parse_setup status_code
parse_setup-reply type c f k h g n =
    bind_eq status_code _ c c (codes "200") (rw (status_code, h.status) refl)
    ∙ ok_taken type c f k h g n
