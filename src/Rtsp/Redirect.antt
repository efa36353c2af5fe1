-- ===== src/Rtsp/Redirect.antt =====
-- A redirection and the address that it carries.
use snmediaplayer_new.Common.{
  ℕ, ◌≤◌, ◌<◌, ◌≡◌, refl, sym, subst, ◌∙◌, some, [], ◌∷◌, ◌++◌, length, arith,
}
use snmediaplayer_new.Common.Int.{pos}
use snmediaplayer_new.Common.Text.{Bytes, codes, strstr, strchr}
use snmediaplayer_new.Common.Text.Matches.{
  Lacks, strstr-Lacks, skip-append, gap-field, strncpy-field,
}
use snmediaplayer_new.Common.Decimal.{print}
use snmediaplayer_new.Common.Decimal.RoundTrip.{NoDigit, atoi-print}
use snmediaplayer_new.Rtsp.State.{Client}
use snmediaplayer_new.Rtsp.Request.{SetupType}
use snmediaplayer_new.Rtsp.Wire.{status_code}
use snmediaplayer_new.Rtsp.After.{Ends, bind_eq}
use snmediaplayer_new.Rtsp.Setup.{redirect, parse_setup}

-- The address behind the blank.
abbrev pub location : Bytes → ℕ → Bytes → Bytes
location ip port rest = codes "Location: rtsp://" ++ (ip ++ (58 ∷ (print port ++ rest)))

found_location :
    (before ip rest : Bytes) (port : ℕ)
    → Lacks 76 before
    → strstr (before ++ location ip port rest) (codes "Location") ≡ some (location ip port rest)
unfolding strstr
found_location before ip rest port h =
    strstr-Lacks 76 (codes "ocation") before (location ip port rest) h ∙ refl

found_colon :
    (ip rest : Bytes) (port : ℕ)
    → Lacks 58 ip
    → strstr (ip ++ (58 ∷ (print port ++ rest))) (codes ":") ≡ some (58 ∷ (print port ++ rest))
unfolding strstr
found_colon ip rest port h = strstr-Lacks 58 [] ip (58 ∷ (print port ++ rest)) h ∙ refl

-- The redirection by itself: the address and the port as they were printed.
redirect-location :
    (c : Client) (before ip rest : Bytes) (port : ℕ)
    → c.rx_buffer ≡ before ++ location ip port rest
    → Lacks 76 before
    → Lacks 58 ip
    → length ip ≤ 255
    → port < 65536
    → NoDigit rest
    → Ends (λ r d. (r ≡ pos 302) × (d.ip ≡ ip) × (d.port ≡ port)) (redirect c)
unfolding redirect
redirect-location c before ip rest port e l k n p d =
    rw
      (
        e,
        found_l,
        skip-append (codes "Location: ") (codes "rtsp://" ++ (ip ++ tail)),
        skip-append (codes "rtsp://") (ip ++ tail),
        found_c,
        gap-field (codes "rtsp://") ip tail,
        strncpy-field 256 ip tail (omega arith),
      )
      (refl, refl, rw (atoi-print port rest d) (omega arith))
  where
    found_l :
        strstr (before ++ location ip port rest) (codes "Location") ≡ some (location ip port rest)
    found_l = found_location before ip rest port l

    found_c :
        strstr (ip ++ (58 ∷ (print port ++ rest))) (codes ":") ≡ some (58 ∷ (print port ++ rest))
    found_c = found_colon ip rest port k

    tail : Bytes
    tail = 58 ∷ (print port ++ rest)

-- From a reply 302 that carries "Location: rtsp://ip:port", with no L before it, no colon in the address
-- and at most 255 bytes of it, a port of 16 bits and no further digit behind it, the parsing of
-- `rtspSETUP` takes that address and port, and returns 302, whatever the service.
pub parse_setup-location :
    (type : SetupType) (c : Client) (status before ip rest : Bytes) (port : ℕ)
    → strchr c.rx_buffer 32 ≡ some (codes " 302" ++ status)
    → c.rx_buffer ≡ before ++ location ip port rest
    → Lacks 76 before
    → Lacks 58 ip
    → length ip ≤ 255
    → port < 65536
    → NoDigit rest
    → Ends (λ r d. (r ≡ pos 302) × (d.ip ≡ ip) × (d.port ≡ port)) (parse_setup type c)
unfolding parse_setup status_code
parse_setup-location type c status before ip rest port s e l k n p d =
    subst (Ends (λ r d. (r ≡ pos 302) × (d.ip ≡ ip) × (d.port ≡ port)))
      (sym (bind_eq status_code _ c c (codes "302") (rw (status_code, s) refl)))
      (redirect-location c before ip rest port e l k n p d)
