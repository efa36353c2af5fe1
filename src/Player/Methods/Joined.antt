-- ===== src/Player/Methods/Joined.antt =====
-- What `joinChannel` of StreamMediaPlayer writes, whether it takes the channel or not.
use snmediaplayer_new.Common.{ℕ, ◌≡◌, refl, ◌∙◌, Option, none, some, arith}
use snmediaplayer_new.Common.Int.{ℤ}
use snmediaplayer_new.Common.Text.{Bytes, codes}
use snmediaplayer_new.Rtsp.Request.{setup_sdv}
use snmediaplayer_new.Player.State.{Message, Player, World}
use snmediaplayer_new.Player.After.{Gives, Gives-bind, Gives-map}
use snmediaplayer_new.Player.Queue.{sendto_mediaplayermsg}
use snmediaplayer_new.Player.Json.{
  value_span, copy_server, read_content, read_server, read_channel, channel_url,
  getchannelurlfromjson,
}
use snmediaplayer_new.Player.Methods.{
  create_player_thread, start_or_send, join_parsed, join_channel,
}

-- The number of the channel is as before.
abbrev SameChannel : Player → {A : Type 0} → A → Player → Type 0
SameChannel p a q = q.channel ≡ p.channel

read_server-SameChannel :
    (json : Bytes) (start end : ℕ) (content : Bytes) (p : Player)
    → Gives (SameChannel p) (read_server json start end content p)
unfolding read_server copy_server
read_server-SameChannel json start end content p = ground arith

read_content-SameChannel :
    (json : Bytes) (end : ℕ) (p : Player) → Gives (SameChannel p) (read_content json end p)
unfolding read_content
read_content-SameChannel json end p = ground arith

read_channel-SameChannel :
    (json : Bytes) (span : Option (ℕ × ℕ)) (p : Player)
    → Gives (SameChannel p) (read_channel json span p)
unfolding read_channel
read_channel-SameChannel json none p = refl
read_channel-SameChannel json (some (start, end)) p =
    Gives-bind (SameChannel p) (read_content json end p) _ (read_content-SameChannel json end p)
      (λ content q k.
        Gives-map (SameChannel q) (SameChannel p) (read_server json start end content q)
          (λ ret r l. l ∙ k) (read_server-SameChannel json start end content q))

url-SameChannel :
    (json : Bytes) (span : Option (ℕ × ℕ)) (p : Player)
    → Gives (SameChannel p) (channel_url json span p)
unfolding channel_url
url-SameChannel json none p = refl
url-SameChannel json (some s) p = read_channel-SameChannel json _ p

module _ (world : World) where
  sent-SameChannel :
      (cmd : Message) (p : Player) → Gives (SameChannel p) (sendto_mediaplayermsg world cmd p)
  unfolding sendto_mediaplayermsg
  sent-SameChannel cmd p = ground arith

  parsed-SameChannel : (ret : ℤ) (p : Player) → Gives (SameChannel p) (join_parsed world ret p)
  unfolding join_parsed start_or_send create_player_thread
  parsed-SameChannel ret p = grind (arith, sent-SameChannel)

  pub join_channel-channel :
      (id : ℤ) (json : Bytes) (p : Player)
      → Gives (λ _ q. q.channel ≡ id) (join_channel world id json p)
  unfolding join_channel getchannelurlfromjson
  join_channel-channel id json p =
      let p1 = record p { real_json_str = json; channel = id; setup_type = setup_sdv } in
      Gives-bind (λ _ q. q.channel ≡ id)
        (channel_url json (value_span json (codes "UserChannelID") 15) p1) (join_parsed world)
        (url-SameChannel json _ p1)
        (λ ret q k.
          Gives-map (SameChannel q) (λ _ r. r.channel ≡ id) (join_parsed world ret q)
            (λ a r l. l ∙ k) (parsed-SameChannel ret q))
