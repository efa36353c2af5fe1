-- ===== src/Rtsp/Request.antt =====
-- The texts of the requests, by the `sprintf` of each method.
use snmediaplayer_new.Common.{List, [], ◌∷◌, ◌++◌, if◌then◌else◌, ◌==◌}
use snmediaplayer_new.Common.Int.{ℤ, is_minus_one}
use snmediaplayer_new.Common.Text.{Bytes, codes}
use snmediaplayer_new.Common.Decimal.{print, print_int, print_long}
use snmediaplayer_new.Rtsp.State.{Client, M, ◌>>◌, modify}
use snmediaplayer_new.Rtsp.Wire.{put_tx, next_cseq, wrap_cseq}

-- SETUP_SDV, SETUP_VOD, NO_SETUP, SETUP_TVS and SETUP_TVOD.
pub data SetupType : Type 0 where
  setup_sdv setup_vod no_setup setup_tvs setup_tvod : SetupType

-- The pieces of a format and of its arguments, one after the other.
abbrev pub concat : List Bytes → Bytes
concat [] = []
concat (p ∷ ps) = p ++ concat ps

abbrev pub rtsp_ver : Bytes
rtsp_ver = codes "RTSP/1.0"

-- `rtsp://%s:%u/?EntitlementCode=%s`, the head of each SETUP.
abbrev setup_head : Client → List Bytes → List Bytes
setup_head c rest =
    codes "SETUP rtsp://"
    ∷ c.ip
    ∷ codes ":"
    ∷ print c.port
    ∷ codes "/?EntitlementCode="
    ∷ c.content_id
    ∷ rest

-- From the blank behind the URL to the transport.
abbrev setup_version : Client → List Bytes → List Bytes
setup_version c rest =
    codes " "
    ∷ rtsp_ver
    ∷ codes "\r\nCSeq: "
    ∷ print c.cseq_tx
    ∷ codes "\r\nUser-Agent: stb123\r\nTransport: MP2T/DVBC/QAM;unicast;"
    ∷ rest

-- From the service group on.
abbrev setup_user : Client → List Bytes → List Bytes
setup_user c rest =
    codes "ServiceGroup="
    ∷ print c.service_group
    ∷ codes "\r\nx-userID: "
    ∷ c.user_id
    ∷ codes "\r\nEntitlementCode: "
    ∷ c.content_id
    ∷ rest

abbrev end_of_request : List Bytes
end_of_request = codes "\r\n\r\n" ∷ []

unfoldable pub setup_npt : Client → List Bytes
setup_npt c =
    if c.media_stop_time == 0
    then codes "\r\nRange: npt=" ∷ print_long c.media_start_time ∷ codes "-" ∷ end_of_request
    else codes "\r\nRange: npt="
      ∷ print_long c.media_start_time
      ∷ codes "-"
      ∷ print_long c.media_stop_time
      ∷ end_of_request

unfoldable pub setup_parts : SetupType → Client → List Bytes
setup_parts setup_sdv c =
    setup_head c (codes "&type=sdv" ∷ setup_version c (setup_user c end_of_request))
setup_parts setup_vod c = setup_head c (
    setup_version c
      (codes "bit_rate=" ∷ print_long c.bit_rate ∷ codes ";" ∷ setup_user c end_of_request))
setup_parts no_setup c = []
setup_parts setup_tvs c = setup_head c (setup_version c (setup_user c (setup_npt c)))
setup_parts setup_tvod c = setup_head c (setup_version c (setup_user c (setup_npt c)))

-- `CSeq`, `User-Agent`, and the two session headers of the media server's requests; `sp` is the
-- blank behind each colon, which some of the formats leave out.
abbrev ms_headers : Bytes → Client → List Bytes → List Bytes
ms_headers sp c rest =
    codes "\r\nCSeq: "
    ∷ print c.cseq_tx
    ∷ codes "\r\nUser-Agent:"
    ∷ sp
    ∷ codes "123\r\nGlobalSession:"
    ∷ sp
    ∷ c.ms_global_session_id
    ∷ codes "\r\nSession:"
    ∷ sp
    ∷ c.ms_session_id
    ∷ rest

abbrev play_head : Client → List Bytes → List Bytes
play_head c rest =
    codes "PLAY rtsp://" ∷ c.ip ∷ codes ":" ∷ print c.port ∷ codes " " ∷ rtsp_ver ∷ rest

-- `rtspPLAY`: -1 stands for now.
abbrev npt_start : ℤ → Bytes
npt_start time = if is_minus_one time then codes "now" else print_int time

unfoldable pub play_parts : ℤ → Client → List Bytes
play_parts time c = play_head c (
    ms_headers (codes " ") c
      (codes "\r\nRange: npt=" ∷ npt_start time ∷ codes "-\r\nScale: 1\r\n\r\n" ∷ []))

-- `%f` of a float that holds an integer of at most 24 bits, as the callers pass it.
abbrev print_float : ℤ → Bytes
print_float v = print_int v ++ codes ".000000"

unfoldable pub forward_parts : ℤ → Client → List Bytes
forward_parts scale c =
    play_head c
      (ms_headers [] c (codes "\r\nRange:npt=now-\r\nScale:" ∷ print_float scale ∷ end_of_request))

unfoldable pub backward_parts : ℤ → Client → List Bytes
backward_parts scale c =
    play_head c
      (ms_headers [] c (codes "\r\nRange:npt=now-\r\nScale:-" ∷ print_float scale ∷ end_of_request))

unfoldable pub jump_parts : ℤ → Client → List Bytes
jump_parts time c =
    play_head c (
      ms_headers [] c (codes "\r\nRange:npt=" ∷ print_int time ∷ codes "-\r\nScale:1\r\n\r\n" ∷ []))

unfoldable pub pause_parts : Client → List Bytes
pause_parts c = codes "PAUSE * " ∷ rtsp_ver ∷ ms_headers (codes " ") c end_of_request

unfoldable pub teardown_parts : Client → List Bytes
teardown_parts c =
    codes "TEARDOWN * "
    ∷ rtsp_ver
    ∷ codes "\r\nCSeq: "
    ∷ print c.cseq_tx
    ∷ codes "\r\nUser-Agent: stb123\r\nSession: "
    ∷ c.session_id
    ∷ codes "\r\nGlobalSession: "
    ∷ c.global_session_id
    ∷ end_of_request

-- The heartbeat: `rtspGETPARAMETER` passes the ids of the session server, `rtspGETPARAMETER_notime`
-- those of the media server.
unfoldable pub heartbeat_parts : Bytes → Bytes → Client → List Bytes
heartbeat_parts global_id id c =
    codes "GET_PARAMETER * "
    ∷ rtsp_ver
    ∷ codes "\r\nCSeq: "
    ∷ print c.cseq_tx
    ∷ codes "\r\nUser-Agent: 123\r\nGlobalSession: "
    ∷ global_id
    ∷ codes "\r\nSession: "
    ∷ id
    ∷ codes "\r\nContent-Length: 0\r\n\r\n"
    ∷ []

unfoldable pub gettime_parts : Client → List Bytes
gettime_parts c =
    codes "GET_PARAMETER * "
    ∷ rtsp_ver
    ∷ codes "\r\nCSeq: "
    ∷ print c.cseq_tx
    ∷ codes "\r\nUser-Agent: stb123\r\nSession: "
    ∷ c.ms_session_id
    ∷ codes "\r\nGlobalSession: "
    ∷ c.ms_global_session_id
    ∷ codes "\r\nContent-Length: 8\r\n\r\nposition\r\n"
    ∷ []

-- The answer to an ANNOUNCE.
unfoldable pub announce_parts : Bytes → Bytes → Client → List Bytes
announce_parts event_code reason c =
    rtsp_ver ∷ codes " " ∷ event_code ∷ codes " " ∷ reason ∷ ms_headers (codes " ") c end_of_request

-- `sprintf` with `cseq_tx++` among its arguments.
unfoldable pub request : (Client → List Bytes) → M (Unit {0})
unfolding put_tx
request parts = do
  λ c. put_tx (concat (parts c)) c
  modify (λ c. record c { cseq_tx = next_cseq c.cseq_tx })

-- The same in the methods that then test the number for 999999999.
unfoldable pub request_wrapping : (Client → List Bytes) → M (Unit {0})
unfolding request
request_wrapping parts = do request parts; modify (λ c. record c { cseq_tx = wrap_cseq c.cseq_tx })
