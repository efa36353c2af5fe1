-- ===== src/Player/Json.antt =====
-- `getchannelurlfromjson` and `getmediaurlfromjson`: the server, the content and the times in the text
-- that the browser passes. A `size_t` has 32 bits; `none` is an exception of `substr` or a copy that
-- leaves its array. `mediaurl` and `vodurl` are left out: nothing else reads them.
pub mod Bounds
pub mod Positions
pub mod ChannelUrl
use snmediaplayer_new.Common.{
  ℕ, ◌+◌, ◌-◌, ◌/◌, ◌%◌, Bool, true, false, ◌&&◌, Option, none, some, if◌then◌else◌, leb, ltb, ◌==◌,
  length, take, drop,
}
use snmediaplayer_new.Common.Int.{ℤ, pos, negsuc, to_u16, to_u32}
use snmediaplayer_new.Common.Text.{Bytes, codes, strstr}
use snmediaplayer_new.Common.Decimal.{atoi}
use snmediaplayer_new.Rtsp.Request.{SetupType, setup_sdv, setup_vod, setup_tvs, setup_tvod}
use snmediaplayer_new.Player.State.{pause_others, Player, M, pure, ◌>>=◌, ◌>>◌, modify, alive}

abbrev pub npos : ℕ
npos = 4294967295

-- `hay.find(needle, from)`.
unfoldable pub find : Bytes → Bytes → ℕ → ℕ
find hay needle from = elim (strstr (drop from hay) needle) [
  | none ↦ npos
  | some p ↦ length hay - length p
]

-- `hay.substr(from, n)`.
unfoldable pub substr : Bytes → ℕ → ℕ → Option Bytes
substr hay from n = if leb from (length hay) then some (take n (drop from hay)) else none

abbrev add32 : ℕ → ℕ → ℕ
add32 a b = (a + b) % 4294967296

abbrev sub32 : ℕ → ℕ → ℕ
sub32 a b = (a + 4294967296 - b) % 4294967296

abbrev need : {A : Type 0} → Option A → M A
need none p = none
need (some a) p = some (a, p)

abbrev pub quote : Bytes
quote = codes "\""

abbrev error : M ℤ
error = pure (negsuc 0)

-- `atoll(…)` as an unsigned number of 64 bits, divided by 1000, as one of 32 bits.
abbrev pub seconds : ℤ → ℕ
seconds (pos n) = n % 18446744073709551616 / 1000 % 4294967296
seconds (negsuc n) = (18446744073709551615 - n % 18446744073709551616) / 1000 % 4294967296

-- The positions behind the key and at the next quotation mark; `none` without the key or with an empty
-- value.
unfoldable pub value_span : Bytes → Bytes → ℕ → Option (ℕ × ℕ)
value_span json key skip =
    let at = find json key 0 in
    let start = add32 at skip in
    let end = find json quote start in
    if at == npos then none else if sub32 end start == 0 then none else some (start, end)

-- The position behind `EntitlementCode=`, and that behind the colon in front of the port.
abbrev code_start : Bytes → ℕ
code_start json = add32 (find json (codes "EntitlementCode") 0) 16

abbrev port_start : Bytes → ℕ → ℕ
port_start json start = add32 (find json (codes ":") (add32 start 5)) 1

-- `strcpy` of the address and of the content into the session server's client.
unfoldable pub copy_server : Bytes → ℕ → Bytes → M ℤ
copy_server ip port content p =
    if ltb (length ip) 256 && ltb (length content) 256
    then some (
      pos 0,
      record p { session = record p.session { ip = ip; port = port; content_id = content } },
    )
    else none

-- The content, up to the end of the URL.
unfoldable pub read_content : Bytes → ℕ → M Bytes
read_content json end = need (substr json (code_start json) (sub32 end (code_start json)))

-- The port and the address, from the positions of the URL.
unfoldable pub read_server : Bytes → ℕ → ℕ → Bytes → M ℤ
read_server json start end content = do
  digits ← need (
      substr json (port_start json start)
        (sub32 (sub32 (code_start json) (port_start json start)) 2))
  λ p.
      if end == npos
      then error p
      else (do
        ip ← need (substr json (add32 start 7) (sub32 (sub32 (port_start json start) start) 8))
        alive
        copy_server ip (to_u16 (atoi digits)) content)
          p

unfoldable pub read_channel : Bytes → Option (ℕ × ℕ) → M ℤ
read_channel json none p = error p
read_channel json (some (start, end)) p =
    (do content ← read_content json end; read_server json start end content) p

unfoldable pub channel_url : Bytes → Option (ℕ × ℕ) → M ℤ
channel_url json none p = error p
channel_url json (some _) p = read_channel json (value_span json (codes "ChannelURL=\"") 12) p

unfoldable pub getchannelurlfromjson : M ℤ
getchannelurlfromjson = do
  modify (λ p. record p { setup_type = setup_sdv })
  λ p. channel_url p.real_json_str (value_span p.real_json_str (codes "UserChannelID") 15) p

-- The text from a position to the next `stop`.
abbrev until : Bytes → ℕ → Bytes → ℕ → M Bytes
until json start stop from = need (substr json start (sub32 (find json stop from) start))

abbrev shifted_type : ℕ → SetupType
shifted_type stop_time = if stop_time == 0 then setup_tvs else setup_tvod

-- `endTime`, and whether it is there.
unfoldable pub read_stop_time : Bytes → M Bool
read_stop_time json p =
    let at = find json (codes "endTime") 0 in
    let start = add32 at 8 in
    if at == npos
    then some (false, p)
    else (do
      digits ← until json start (codes ",") start
      modify (λ p. record p { media_stop_time = seconds (atoi digits) })
      pure true)
        p

-- The licence and the bit rate of a film; `none` without a licence.
unfoldable pub read_rate : Bytes → M ℕ
read_rate json p =
    let at = find json (codes "bit_rate") 0 in
    let start = add32 at 10 in
    if at == npos
    then some (0, p)
    else (do digits ← until json start quote start; pure (to_u32 (atoi digits))) p

unfoldable pub read_license : Bytes → M (Option (Bytes × ℕ))
read_license json p =
    let at = find json (codes "License") 0 in
    let start = add32 at 9 in
    if at == npos
    then some (none, p)
    else (do
      license ← until json start quote start
      rate ← read_rate json
      pure (some (license, rate)))
        p

unfoldable pub copy_license : Bytes → ℕ → ℤ → M ℤ
copy_license license rate (pos n) p =
    if ltb (length license) 256
    then some
        (pos n, record p { session = record p.session { license = license; bit_rate = rate } })
    else none
copy_license license rate (negsuc n) p = some (negsuc n, p)

-- Behind the content and the licence.
unfoldable pub read_media : Bytes → ℕ → ℕ → Bytes → Option (Bytes × ℕ) → M ℤ
read_media json start end content none p = error p
read_media json start end content (some (license, rate)) p =
    (do ret ← read_server json start end content; copy_license license rate ret) p

-- Without `&startTime`.
unfoldable pub read_film : Bytes → ℕ → M ℤ
read_film json start = do
  modify (λ p. record p {
    setup_type = setup_vod;
    pause_into_tvs = pause_others;
    media_start_time = 0;
  })
  found ← read_stop_time json
  λ p.
      if found
      then (do
        content ← read_content json (find json quote start)
        license ← read_license json
        read_media json start (find json quote start) content license)
          p
      else error p

-- With `&startTime` at the position.
unfoldable pub read_shifted : Bytes → ℕ → ℕ → M ℤ
read_shifted json start amp = do
  digits ← until json (add32 amp 11) quote start
  modify (λ p. record p { media_start_time = seconds (atoi digits) })
  found ← read_stop_time json
  λ p.
      if found
      then (do
        modify (λ p. record p { setup_type = shifted_type p.media_stop_time })
        content ← read_content json amp
        read_media json start amp content (some (codes "0", 0)))
          p
      else error p

unfoldable pub media_url : Bytes → M ℤ
media_url json p =
    let at = find json (codes "mediaUrl:\"") 0 in
    let start = add32 at 10 in
    let amp = find json (codes "&startTime") 0 in
    if at == npos
    then error p
    else if amp == npos
    then read_film json start p
    else read_shifted json start amp p

unfoldable pub getmediaurlfromjson : M ℤ
getmediaurlfromjson = do
  modify (λ p. record p { media_start_time = 0 })
  λ p. media_url p.real_json_str p
