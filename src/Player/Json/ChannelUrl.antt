-- ===== src/Player/Json/ChannelUrl.antt =====
-- The URL of a channel, as the browser passes it, and what `getchannelurlfromjson` takes from it.
use mathlib.Core.List.{append_assoc}
use snmediaplayer_new.Common.{
  ℕ, ◌+◌, ◌%◌, ◌≤◌, ◌<◌, ◌≡◌, refl, sym, ap, ◌∙◌, subst, true, false, some, [], ◌++◌, length,
  length-append, ltb, ◌==◌, arith,
}
use snmediaplayer_new.Common.Int.{pos}
use snmediaplayer_new.Common.Text.{Bytes, codes, strstr}
use snmediaplayer_new.Common.Text.Matches.{Lacks}
use snmediaplayer_new.Common.Decimal.{atoi, print}
use snmediaplayer_new.Common.Decimal.RoundTrip.{NoDigit, atoi-print}
use snmediaplayer_new.Rtsp.Request.{setup_sdv}
use snmediaplayer_new.Player.State.{Player}
use snmediaplayer_new.Player.After.{bind_eq}
use snmediaplayer_new.Player.Json.{
  find, substr, add32, sub32, quote, value_span, code_start, port_start, copy_server, read_content,
  read_server, read_channel, channel_url, getchannelurlfromjson,
}
use snmediaplayer_new.Player.Json.Positions.{
  span-found, NoDigit-append, Stands, Stands-front, Stands-over, find-Stands, find-first,
  substr-Stands,
}

-- What names the server and the content, from the URL on, up to `t`.
abbrev pub from_code : Bytes → Bytes → Bytes
from_code code t = codes "EntitlementCode=" ++ (code ++ t)

abbrev from_port : ℕ → Bytes → Bytes → Bytes → Bytes
from_port port path code t = print port ++ (path ++ from_code code t)

abbrev from_server : Bytes → ℕ → Bytes → Bytes → Bytes → Bytes
from_server ip port path code t =
    codes "rtsp://" ++ (ip ++ (codes ":" ++ from_port port path code t))

abbrev pub url : Bytes → ℕ → Bytes → Bytes → Bytes
url ip port path code = from_server ip port path code []

-- The member that gives the URL, with what follows, and the member that gives the number before it.
abbrev pub from_url : Bytes → ℕ → Bytes → Bytes → Bytes → Bytes
from_url ip port path code rest =
    codes "ChannelURL=\"" ++ from_server ip port path code (quote ++ rest)

abbrev pub from_id : Bytes → Bytes → Bytes → Bytes
from_id id middle tail = codes "UserChannelID=\"" ++ (id ++ (quote ++ (middle ++ tail)))

url-append :
    (ip : Bytes) (port : ℕ) (path code t : Bytes)
    → url ip port path code ++ t ≡ from_server ip port path code t
url-append ip port path code t = simp append_assoc refl

module _ (json before id middle ip : Bytes) (port : ℕ) (path code rest : Bytes)
    (e : json ≡ before ++ from_id id middle (from_url ip port path code rest)) where
  abbrev at_id : ℕ
  at_id = 0 + length before

  abbrev at_value : ℕ
  at_value = at_id + 15

  abbrev at_url : ℕ
  at_url = at_value + length id + 1 + length middle

  abbrev at_server : ℕ
  at_server = at_url + 12

  abbrev at_ip : ℕ
  at_ip = at_server + 7

  abbrev at_port : ℕ
  at_port = at_ip + length ip + 1

  abbrev at_key : ℕ
  at_key = at_port + length (print port) + length path

  abbrev at_code : ℕ
  at_code = at_key + 16

  on_id : Stands json at_id (from_id id middle (from_url ip port path code rest))
  on_id = Stands-over json 0 before _ (subst (λ s. Stands json 0 s) e (Stands-front json))

  on_value : Stands json at_value (id ++ (quote ++ (middle ++ from_url ip port path code rest)))
  on_value = Stands-over json at_id (codes "UserChannelID=\"") _ on_id

  on_url : Stands json at_url (from_url ip port path code rest)
  on_url =
      Stands-over json (at_value + length id + 1) middle _
        (Stands-over json (at_value + length id) quote _ (Stands-over json at_value id _ on_value))

  on_server : Stands json at_server (from_server ip port path code (quote ++ rest))
  on_server = Stands-over json at_url (codes "ChannelURL=\"") _ on_url

  on_ip : Stands json at_ip (ip ++ (codes ":" ++ from_port port path code (quote ++ rest)))
  on_ip = Stands-over json at_server (codes "rtsp://") _ on_server

  on_port : Stands json at_port (from_port port path code (quote ++ rest))
  on_port = Stands-over json (at_ip + length ip) (codes ":") _ (Stands-over json at_ip ip _ on_ip)

  on_key : Stands json at_key (from_code code (quote ++ rest))
  on_key =
      Stands-over json (at_port + length (print port)) path _
        (Stands-over json at_port (print port) _ on_port)

  on_code : Stands json at_code (code ++ (quote ++ rest))
  on_code = Stands-over json at_key (codes "EntitlementCode=") _ on_key

  -- All of them are within the text.
  inside : at_code + length code + 1 ≤ length json
  inside = omega (arith, on_code.1, length-append code (quote ++ rest), length-append quote rest)

  id_found :
      Lacks 34 id
      → 1 ≤ length id
      → length json < 4294967295
      → strstr json (codes "UserChannelID")
        ≡ some (from_id id middle (from_url ip port path code rest))
      → value_span json (codes "UserChannelID") 15 ≡ some (at_value, at_value + length id)
  id_found h n l s =
      span-found json (codes "UserChannelID") 15 at_id (length id)
        (find-first json (codes "UserChannelID") at_id _ on_id s)
        (find-Stands json at_value 34 [] id _ on_value h) n (omega (arith, inside, l))

  long_url : at_server + length (url ip port path code) ≡ at_code + length code
  long_url = omega (arith, length-append {0})

  url_found :
      Lacks 34 (url ip port path code)
      → length json < 4294967295
      → strstr json (codes "ChannelURL=\"") ≡ some (from_url ip port path code rest)
      → value_span json (codes "ChannelURL=\"") 12 ≡ some (at_server, at_code + length code)
  url_found h l s =
      span-found json (codes "ChannelURL=\"") 12 at_url (length (url ip port path code))
        (find-first json (codes "ChannelURL=\"") at_url _ on_url s)
        (find-Stands json at_server 34 [] (url ip port path code) rest
          (subst (λ t. Stands json at_server t) (sym (url-append ip port path code (quote ++ rest)))
            on_server)
          h)
        (omega arith) (omega (arith, long_url, inside, l))
      ∙ ap (λ (n : ℕ). some (at_server, n)) long_url

  code_found :
      length json < 4294967295
      → strstr json (codes "EntitlementCode") ≡ some (from_code code (quote ++ rest))
      → code_start json ≡ at_code
  code_found l s =
      ap (λ (n : ℕ). add32 n 16) (find-first json (codes "EntitlementCode") at_key _ on_key s)
      ∙ omega (arith, inside, l)

  port_found : Lacks 58 ip → length json < 4294967295 → port_start json at_server ≡ at_port
  port_found h l = rw (from_five, colon) (omega (arith, inside, l))
    where
      from_five : add32 at_server 5 ≡ at_server + 5
      from_five = omega (arith, inside, l)

      colon : find json (codes ":") (at_server + 5) ≡ at_server + 5 + length (codes "//" ++ ip)
      colon =
          find-Stands json (at_server + 5) 58 [] (codes "//" ++ ip)
            (from_port port path code (quote ++ rest))
            (Stands-over json at_server (codes "rtsp:") _ on_server) (refl, (refl, h))

  content_taken :
      length json < 4294967295
      → substr json at_code (sub32 (at_code + length code) at_code) ≡ some code
  content_taken l = substr-Stands json at_code _ code _ on_code (omega (arith, inside, l))

  ip_taken :
      length json < 4294967295
      → substr json (add32 at_server 7) (sub32 (sub32 at_port at_server) 8) ≡ some ip
  ip_taken l = rw over (substr-Stands json at_ip _ ip _ on_ip (omega (arith, inside, l)))
    where
      over : add32 at_server 7 ≡ at_ip
      over = omega (arith, inside, l)

  abbrev digits : Bytes
  digits = print port ++ (path ++ codes "EntitlementCod")

  digits_taken :
      length json < 4294967295 → substr json at_port (sub32 (sub32 at_code at_port) 2) ≡ some digits
  digits_taken l =
      substr-Stands json at_port _ digits (codes "e=" ++ (code ++ (quote ++ rest)))
        (subst (λ t. Stands json at_port t) parted on_port)
        (omega (arith, length-append {0}, inside, l))
    where
      parted :
          from_port port path code (quote ++ rest)
          ≡ digits ++ (codes "e=" ++ (code ++ (quote ++ rest)))
      parted = simp append_assoc refl

  module _ (l : length json < 4294967295) (colon : Lacks 58 ip) where
    content_read :
        (p : Player)
        → strstr json (codes "EntitlementCode") ≡ some (from_code code (quote ++ rest))
        → read_content json (at_code + length code) p ≡ some (code, p)
    unfolding read_content
    content_read p s = rw (read_content, code_found l s, content_taken l) refl

    server_read :
        (p : Player)
        → strstr json (codes "EntitlementCode") ≡ some (from_code code (quote ++ rest))
        → p.freed ≡ false
        → NoDigit path
        → port < 65536
        → length ip < 256
        → length code < 256
        → read_server json at_server (at_code + length code) code p
          ≡ some (
            pos 0,
            record p { session = record p.session { ip = ip; port = port; content_id = code } },
          )
    unfolding read_server copy_server
    server_read p s f d m i c =
        rw
          (
            read_server,
            code_found l s,
            port_found colon l,
            digits_taken l,
            there,
            ip_taken l,
            f,
            copy_server,
            number,
            small,
            fits_ip,
            fits_code,
          )
          refl
      where
        there : (at_code + length code == 4294967295) ≡ false
        there = ground (arith, inside, l)

        number : atoi digits ≡ pos port
        number =
            atoi-print port (path ++ codes "EntitlementCod")
              (NoDigit-append path (codes "EntitlementCod") d refl)

        fits_ip : ltb (length ip) 256 ≡ true
        fits_ip = ground arith

        fits_code : ltb (length code) 256 ≡ true
        fits_code = ground arith

        small : port % 65536 ≡ port
        small = omega arith

    -- From a text with a member `UserChannelID="…"` that is not empty, and then, not before, a member
    -- `ChannelURL="rtsp://ip:port…EntitlementCode=code"`, `getchannelurlfromjson` takes the address, the
    -- port and the code of the session server as they were printed, and returns 0. The keys stand
    -- nowhere before, the address has no colon, the number and the URL no quotation mark, the port 16
    -- bits and no digit behind it, the address and the code at most 255 bytes, and the clients exist.
    pub getchannelurlfromjson-url :
        (p : Player)
        → p.real_json_str ≡ json
        → strstr json (codes "UserChannelID")
          ≡ some (from_id id middle (from_url ip port path code rest))
        → strstr json (codes "ChannelURL=\"") ≡ some (from_url ip port path code rest)
        → strstr json (codes "EntitlementCode") ≡ some (from_code code (quote ++ rest))
        → Lacks 34 id
        → 1 ≤ length id
        → Lacks 34 (url ip port path code)
        → p.freed ≡ false
        → NoDigit path
        → port < 65536
        → length ip < 256
        → length code < 256
        → getchannelurlfromjson p
          ≡ some (
            pos 0,
            record p {
              setup_type = setup_sdv;
              session = record p.session { ip = ip; port = port; content_id = code };
            },
          )
    unfolding getchannelurlfromjson channel_url read_channel
    getchannelurlfromjson-url p j si su sc qi ni qu f d m i c =
        ap (λ (s : Bytes). channel_url s (value_span s (codes "UserChannelID") 15) q) j
        ∙ rw (id_found qi ni l si, channel_url, url_found qu l su, read_channel)
            (bind_eq (read_content json (at_code + length code))
                (λ content. read_server json at_server (at_code + length code) content) q q code
                (content_read q sc)
              ∙ server_read q sc f d m i c)
      where
        q : Player
        q = record p { setup_type = setup_sdv }
