-- ===== src/Rtsp/Session.antt =====
-- The session id of the session server.
use snmediaplayer_new.Common.{
  ℕ, ◌+◌, ◌-◌, ◌≤◌, ◌<◌, ◌≡◌, refl, ◌∙◌, none, some, [], ◌∷◌, ◌++◌, length, take, length-append,
  arith,
}
use snmediaplayer_new.Common.Text.{Bytes, codes, strstr, gap}
use snmediaplayer_new.Common.Text.Matches.{
  Lacks, strstr-Lacks, strncpy-field, strncpy-take, gap-over, take-within,
}
use snmediaplayer_new.Common.Decimal.{print}
use snmediaplayer_new.Common.Decimal.RoundTrip.{NoDigit, atoi-print}
use snmediaplayer_new.Rtsp.State.{Client}
use snmediaplayer_new.Rtsp.After.{Ends}
use snmediaplayer_new.Rtsp.Setup.{parse_session, default_sm_timeout}

-- The header with a timeout, and what is behind its semicolon.
abbrev pub timed_header : Bytes → ℕ → Bytes → Bytes
timed_header id timeout rest =
    codes "Session: " ++ (id ++ (59 ∷ (codes "timeout=" ++ (print timeout ++ rest))))

-- The header without one.
abbrev pub plain_header : Bytes → Bytes → Bytes
plain_header id rest = codes "Session: " ++ (id ++ (codes "\r\n" ++ rest))

found_timeout :
    (before id tail : Bytes)
    → Lacks 116 before
    → Lacks 116 id
    → strstr
        (before ++ (codes "Session: " ++ (id ++ (59 ∷ (codes "timeout=" ++ tail)))))
        (codes "timeout=")
      ≡ some (codes "timeout=" ++ tail)
unfolding strstr
found_timeout before id tail h k =
    strstr-Lacks 116 (codes "imeout=") before
      (codes "Session: " ++ (id ++ (59 ∷ (codes "timeout=" ++ tail)))) h
    ∙ strstr-Lacks 116 (codes "imeout=") id (59 ∷ (codes "timeout=" ++ tail)) k

found_line_end :
    (id rest : Bytes)
    → Lacks 13 id
    → strstr (plain_header id rest) (codes "\r\n") ≡ some (codes "\r\n" ++ rest)
unfolding strstr
found_line_end id rest h = strstr-Lacks 13 (10 ∷ []) id (codes "\r\n" ++ rest) h

pub timed_size :
    (id tail : Bytes) → gap tail (codes "Session: " ++ (id ++ (59 ∷ tail))) 10 ≡ some (length id)
timed_size id tail = rw (length-append id (59 ∷ tail)) (ground arith)

-- From a reply with a timeout and into an empty buffer, the session id and the timeout are read as
-- they were sent, if no t stands before the header or in the id.
session_timed :
    (c : Client) (before id rest : Bytes) (timeout : ℕ)
    → c.rx_buffer ≡ before ++ timed_header id timeout rest
    → c.session_id ≡ []
    → Lacks 116 before
    → Lacks 116 id
    → length id ≤ 31
    → timeout < 4294967296
    → NoDigit rest
    → Ends
        (λ _ d. (d.session_id ≡ id) × (d.session_timeout ≡ timeout))
        (parse_session (timed_header id timeout rest) c)
unfolding parse_session
session_timed c before id rest timeout e o l k n p d =
    rw
      (
        parse_session,
        e,
        found_timeout before id (print timeout ++ rest) l k,
        timed_size id (codes "timeout=" ++ (print timeout ++ rest)),
        o,
        strncpy-field 32 id (59 ∷ (codes "timeout=" ++ (print timeout ++ rest))) (omega arith),
      )
      (refl, rw (atoi-print timeout rest d) (omega arith))

-- From a reply without a timeout and into an empty buffer, the last byte of the session id is lost.
session_plain :
    (c : Client) (id rest : Bytes)
    → strstr c.rx_buffer (codes "timeout=") ≡ none
    → c.session_id ≡ []
    → Lacks 13 id
    → 1 ≤ length id
    → length id ≤ 31
    → Ends
        (λ _ d. (d.session_id ≡ take (length id - 1) id) × (d.session_timeout ≡ default_sm_timeout))
        (parse_session (plain_header id rest) c)
unfolding parse_session
session_plain c id rest e o l k n =
    rw
      (
        parse_session,
        e,
        found_line_end id rest l,
        o,
        gap-over 10 (codes "Session: ") id (codes "\r\n" ++ rest) (omega arith),
        ten,
        strncpy-take 32 (length id - 1) (id ++ (codes "\r\n" ++ rest)) inside (omega arith),
      )
      (take-within (length id - 1) id (codes "\r\n" ++ rest) (omega arith), refl)
  where
    ten : length (codes "Session: ") + length id - 10 ≡ length id - 1
    ten = omega arith

    inside : length id - 1 ≤ length (id ++ (codes "\r\n" ++ rest))
    inside = rw (length-append id (codes "\r\n" ++ rest)) (omega arith)
