-- ===== src/Player/Json/Bounds.antt =====
-- What the two parsers leave in the session server's client.
use snmediaplayer_new.Common.{ℕ, ◌<◌, Option, none, some, arith, length}
use snmediaplayer_new.Common.Int.{ℤ, pos, negsuc, to_u16, to_u32}
use snmediaplayer_new.Common.Text.{Bytes}
use snmediaplayer_new.Rtsp.State.{Client}
use snmediaplayer_new.Rtsp.Request.{setup_sdv, setup_parts, concat}
use snmediaplayer_new.Rtsp.Buffers.{Fits, setup-Fits}
use snmediaplayer_new.Player.State.{Player}
use snmediaplayer_new.Player.After.{Gives, Gives-bind, Gives-map}
use snmediaplayer_new.Player.Json.{
  seconds, copy_server, read_content, read_server, read_channel, channel_url, getchannelurlfromjson,
  read_stop_time, read_rate, read_license, copy_license, read_media, read_film, read_shifted,
  media_url, getmediaurlfromjson,
}

seconds_lt : (v : ℤ) → seconds v < 4294967296
seconds_lt (pos n) = omega arith
seconds_lt (negsuc n) = omega arith

u32_lt : (v : ℤ) → to_u32 v < 4294967296
u32_lt (pos n) = omega arith
u32_lt (negsuc n) = omega arith

u16_lt : (v : ℤ) → to_u16 v < 65536
u16_lt (pos n) = omega arith
u16_lt (negsuc n) = omega arith

-- The client's texts fit, and the times are of 32 bits.
abbrev Fine : {A : Type 0} → A → Player → Type 0
Fine a p = Fits p.session × (p.media_start_time < 4294967296) × (p.media_stop_time < 4294967296)

copy-Fine :
    (ip : Bytes) (port : ℕ) (content : Bytes) (p : Player)
    → port < 65536
    → Fine tt p
    → Gives Fine (copy_server ip port content p)
unfolding copy_server
copy-Fine ip port content p n h = ground arith

read_content-Fine :
    (json : Bytes) (end : ℕ) (p : Player) → Fine tt p → Gives Fine (read_content json end p)
unfolding read_content
read_content-Fine json end p h = ground arith

read_server-Fine :
    (json : Bytes) (start end : ℕ) (content : Bytes) (p : Player)
    → Fine tt p
    → Gives Fine (read_server json start end content p)
unfolding read_server
read_server-Fine json start end content p h = grind (arith, copy-Fine, u16_lt)

read_channel-Fine :
    (json : Bytes) (span : Option (ℕ × ℕ)) (p : Player)
    → Fine tt p
    → Gives Fine (read_channel json span p)
unfolding read_channel
read_channel-Fine json none p h = h
read_channel-Fine json (some (start, end)) p h =
    Gives-bind Fine (read_content json end p) (read_server json start end)
      (read_content-Fine json end p h) (λ content q k. read_server-Fine json start end content q k)

channel_url-Fine :
    (json : Bytes) (span : Option (ℕ × ℕ)) (p : Player)
    → Fine tt p
    → Gives Fine (channel_url json span p)
unfolding channel_url
channel_url-Fine json none p h = h
channel_url-Fine json (some _) p h = read_channel-Fine json _ p h

read_stop_time-Fine : (json : Bytes) (p : Player) → Fine tt p → Gives Fine (read_stop_time json p)
unfolding read_stop_time
read_stop_time-Fine json p h = grind (arith, seconds_lt)

read_rate-Fine :
    (json : Bytes) (p : Player)
    → Fine tt p
    → Gives (λ rate q. (rate < 4294967296) × Fine tt q) (read_rate json p)
unfolding read_rate
read_rate-Fine json p h = grind (arith, u32_lt)

abbrev RateFits : Option (Bytes × ℕ) → Type 0
RateFits none = Unit
RateFits (some (license, rate)) = rate < 4294967296

read_license-Fine :
    (json : Bytes) (p : Player)
    → Fine tt p
    → Gives (λ l q. RateFits l × Fine tt q) (read_license json p)
unfolding read_license
read_license-Fine json p h = grind (arith, read_rate-Fine)

copy_license-Fine :
    (license : Bytes) (rate : ℕ) (ret : ℤ) (p : Player)
    → rate < 4294967296
    → Fine tt p
    → Gives Fine (copy_license license rate ret p)
unfolding copy_license
copy_license-Fine license rate ret p l h = ground arith

read_media-Fine :
    (json : Bytes) (start end : ℕ) (content : Bytes) (l : Option (Bytes × ℕ)) (p : Player)
    → RateFits l
    → Fine tt p
    → Gives Fine (read_media json start end content l p)
unfolding read_media
read_media-Fine json start end content none p r h = h
read_media-Fine json start end content (some (license, rate)) p r h =
    Gives-bind Fine (read_server json start end content p) _
      (read_server-Fine json start end content p h)
      (λ ret q k. copy_license-Fine license rate ret q r k)

read_film-Fine :
    (json : Bytes) (start : ℕ) (p : Player) → Fine tt p → Gives Fine (read_film json start p)
unfolding read_film
read_film-Fine json start p h =
    grind (arith, read_stop_time-Fine, read_content-Fine, read_license-Fine, read_media-Fine)

read_shifted-Fine :
    (json : Bytes) (start amp : ℕ) (p : Player)
    → Fine tt p
    → Gives Fine (read_shifted json start amp p)
unfolding read_shifted
read_shifted-Fine json start amp p h =
    grind (arith, seconds_lt, read_stop_time-Fine, read_content-Fine, read_media-Fine)

media_url-Fine : (json : Bytes) (p : Player) → Fine tt p → Gives Fine (media_url json p)
unfolding media_url
media_url-Fine json p h = grind (arith, read_film-Fine, read_shifted-Fine)

channel-Fine : (p : Player) → Fine tt p → Gives Fine (getchannelurlfromjson p)
unfolding getchannelurlfromjson
channel-Fine p h = channel_url-Fine p.real_json_str _ (record p { setup_type = setup_sdv }) h

media-Fine : (p : Player) → Fine tt p → Gives Fine (getmediaurlfromjson p)
unfolding getmediaurlfromjson
media-Fine p h = media_url-Fine p.real_json_str (record p { media_start_time = 0 }) (ground arith)

-- The client with the times of the player, as `Network_Init` passes them on.
abbrev pub timed : Player → Client
timed p = record p.session {
  media_start_time = p.media_start_time;
  media_stop_time = p.media_stop_time;
}

-- The SETUP request of the player's service fits `tx_buffer` with its terminator.
abbrev pub SetupFits : {A : Type 0} → A → Player → Type 0
SetupFits a p = length (concat (setup_parts p.setup_type (timed p))) < 3000

Fine-SetupFits : {A : Type 0} (a : A) (p : Player) → Fine a p → SetupFits a p
Fine-SetupFits a p h = setup-Fits p.setup_type (timed p) (ground arith)

-- If the texts of the session server's client fit the arrays of the class and its numbers are of 32
-- bits, then so it is behind `getchannelurlfromjson` and behind `getmediaurlfromjson`, whatever text
-- they are given and whether they take it, as far as they do not fault: the SETUP request with the
-- address, the content and the times that they leave fits its buffer.
pub json-SetupFits :
    (p : Player)
    → Fits p.session
    → p.media_start_time < 4294967296
    → p.media_stop_time < 4294967296
    → Gives SetupFits (getchannelurlfromjson p) × Gives SetupFits (getmediaurlfromjson p)
json-SetupFits p f s t = (
  Gives-map Fine SetupFits (getchannelurlfromjson p) Fine-SetupFits (channel-Fine p (f, s, t)),
  Gives-map Fine SetupFits (getmediaurlfromjson p) Fine-SetupFits (media-Fine p (f, s, t)),
)
