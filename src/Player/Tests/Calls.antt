-- ===== src/Player/Tests/Calls.antt =====
-- Calls of the player's methods.
use snmediaplayer_new.Common.{
  ℕ, ◌<◌, Bool, not, ◌&&◌, ◌==◌, ◌∷◌, ◌++◌, length, inl, inr, ◌≡◌, refl, true, some, [], arith,
}
use snmediaplayer_new.Common.Int.{pos}
use snmediaplayer_new.Common.Text.{Bytes, codes, strstr}
use snmediaplayer_new.Common.Decimal.{atoi, digits_from, print, print_onto}
use snmediaplayer_new.Rtsp.Tests.{client-Fits}
use snmediaplayer_new.Player.State.{msg_fastforward, Player, ◌>>◌}
use snmediaplayer_new.Player.Queue.{sendto_mediaplayermsg}
use snmediaplayer_new.Player.Messages.{process_tvod_msg}
use snmediaplayer_new.Player.Vcr.{Answers}
use snmediaplayer_new.Player.After.{Ends, Gives}
use snmediaplayer_new.Common.Text.Matches.{Lacks}
use snmediaplayer_new.Rtsp.Request.{setup_sdv}
use snmediaplayer_new.Player.Json.ChannelUrl.{
  from_code, from_url, from_id, url, getchannelurlfromjson-url,
}
use snmediaplayer_new.Player.Json.{
  quote, find, substr, copy_server, read_content, read_server, getchannelurlfromjson,
  read_stop_time, read_rate, read_license, copy_license, read_media, read_film, media_url,
  getmediaurlfromjson,
}
use snmediaplayer_new.Player.Json.Bounds.{SetupFits, json-SetupFits}
use snmediaplayer_new.Player.Methods.{pause, fast_forward, fast_rewind, resume}
use snmediaplayer_new.Player.Methods.Waits.{Waited, vcr_methods-Waited}
use snmediaplayer_new.Player.Methods.Asks.{sent_message-Answers}
use snmediaplayer_new.Player.Mode.{get_playback_mode}
use snmediaplayer_new.Player.Mode.Reported.{reported, message-reported}
use snmediaplayer_new.Player.Messages.{process_unicast_msg}
use snmediaplayer_new.Player.Tests.{world, player, result}

abbrev film_json : Bytes
film_json =
    codes
      "[{mediaUrl:\"rtsp://192.168.254.159:554/?EntitlementCode=D199A258\", License:\"0\", endTime:5000,entryID:\"entry1\"}]"

abbrev film : Player
film = record player { real_json_str = film_json }

json-SetupFits_example :
    Gives SetupFits (getchannelurlfromjson film) × Gives SetupFits (getmediaurlfromjson film)
json-SetupFits_example = json-SetupFits film client-Fits (omega arith) (omega arith)

takes_film : result (getmediaurlfromjson film) ≡ some (pos 0)
unfolding strstr atoi digits_from find substr copy_server read_content read_server read_stop_time
    read_rate read_license copy_license read_media read_film media_url getmediaurlfromjson
takes_film = refl

-- Nothing happens.
abbrev idle : Player → Player
idle p = p

abbrev answers : Player → Player
answers p = record p { trick_ok_flag = true }

vcr_methods-Waited_example :
    Ends Waited (pause world idle (λ n. answers) player)
    × Ends Waited (fast_forward world idle (λ n. answers) (pos 8) player)
    × Ends Waited (fast_rewind world idle (λ n. answers) (pos 8) player)
    × Ends Waited (resume world idle (λ n. answers) player)
vcr_methods-Waited_example = vcr_methods-Waited (λ n. answers) world idle (pos 8) player

sent_message-Answers_example :
    Gives
      (λ g q. Answers (record player { queue = [] }) msg_fastforward g q × (q.trick_ok_flag ≡ true))
      ((sendto_mediaplayermsg world msg_fastforward >> process_tvod_msg world 3)
        (record player { queue = [] }))
sent_message-Answers_example =
    sent_message-Answers world 3 msg_fastforward player refl (omega arith) refl
      (refl, refl, refl, refl, refl)

abbrev asked : Player
asked = record player { playspeed = pos 16 }

message-reported_example :
    Gives
      (λ g q. get_playback_mode q ≡ reported msg_fastforward (pos 16))
      (process_unicast_msg world 3 msg_fastforward asked)
message-reported_example =
    message-reported world 3 msg_fastforward asked (refl, refl, refl, refl, refl) refl
      (inr (inr (inr (inl refl))))

-- A channel in the form of the comment in the source.
abbrev before_id : Bytes
before_id = codes "ChannelID=\"2\", ChannelName=\"Channel2\", "

abbrev server_ip : Bytes
server_ip = codes "192.168.10.60"

abbrev entitlement : Bytes
entitlement = codes "D199A258-4379-45E6-477F-3ED9FDB139A0"

abbrev behind_url : Bytes
behind_url = codes ", TimeShift=\"1\""

abbrev channel_json : Bytes
channel_json =
    before_id
    ++ from_id (codes "2") (codes ", ") (from_url server_ip 554 (codes "/?") entitlement behind_url)

abbrev lacks : ℕ → Bytes → Bool
lacks c [] = true
lacks c (x ∷ s) = not (c == x) && lacks c s

lacks-Lacks : (c : ℕ) (s : Bytes) → lacks c s ≡ true → Lacks c s
lacks-Lacks c [] h = tt
lacks-Lacks c (x ∷ s) h = (ground arith, lacks-Lacks c s (ground arith))

first_id :
    strstr channel_json (codes "UserChannelID")
    ≡ some (
        from_id
          (codes "2")
          (codes ", ")
          (from_url server_ip 554 (codes "/?") entitlement behind_url))
unfolding strstr print print_onto
first_id = refl

first_url :
    strstr channel_json (codes "ChannelURL=\"")
    ≡ some (from_url server_ip 554 (codes "/?") entitlement behind_url)
unfolding strstr print print_onto
first_url = refl

first_code :
    strstr channel_json (codes "EntitlementCode")
    ≡ some (from_code entitlement (quote ++ behind_url))
unfolding strstr print print_onto
first_code = refl

url_plain : lacks 34 (url server_ip 554 (codes "/?") entitlement) ≡ true
unfolding print print_onto
url_plain = refl

channel_length : length channel_json < 4294967295
unfolding print print_onto
channel_length = omega arith

getchannelurlfromjson-url_example :
    getchannelurlfromjson (record player { real_json_str = channel_json })
    ≡ some (
      pos 0,
      record player {
        real_json_str = channel_json;
        setup_type = setup_sdv;
        session = record player.session { ip = server_ip; port = 554; content_id = entitlement };
      },
    )
getchannelurlfromjson-url_example =
    getchannelurlfromjson-url channel_json before_id (codes "2") (codes ", ") server_ip 554
      (codes "/?") entitlement behind_url refl channel_length (lacks-Lacks 58 server_ip refl)
      (record player { real_json_str = channel_json }) refl first_id first_url first_code (refl, tt)
      (omega arith) (lacks-Lacks 34 (url server_ip 554 (codes "/?") entitlement) url_plain) refl
      refl (omega arith) (omega arith) (omega arith)
