-- ===== src/Player/Network.antt =====
-- `Network_Init` and `Network_Release`, with `ss_keep_alive_begin`, `ms_keep_alive_begin` and
-- `ss_keep_alive_end` of the clients. A loop over the redirections is watched for a number of rounds.
pub mod Kept
pub mod SessionSockets
pub mod StreamSockets
pub mod Sockets
use snmediaplayer_new.Common.{
  ℕ, zero, suc, ◌+◌, Bool, true, false, ◌&&◌, ◌||◌, Option, none, some, if◌then◌else◌, ◌==◌,
}
use snmediaplayer_new.Common.Int.{ℤ, pos, negsuc, is_zero}
use snmediaplayer_new.Rtsp.State.{Net, Client}
use snmediaplayer_new.Rtsp.Request.{SetupType, setup_tvs, setup_tvod}
use snmediaplayer_new.Rtsp.Setup.{rtsp_setup, has_control}
use snmediaplayer_new.Rtsp.Vcr.{rtsp_teardown}
use snmediaplayer_new.Rtsp.Connect.{init, establish_connection, destroy_connection}
use snmediaplayer_new.Player.State.{
  World, M, pure, ◌>>=◌, ◌>>◌, modify, branch, alive, on_session, on_streaming,
}
use snmediaplayer_new.Player.Queue.{player_recv_stop_key}

abbrev establish_times : ℕ
establish_times = 3

abbrev setup_times : ℕ
setup_times = 3

-- What the loop over `rtspSETUP` leads to: success, `goto Redirect`, SM_SETUP_FAIL, or the end
-- without a connection.
pub data SetupEnd : Type 0 where
  set_up redirected setup_failed unconnected : SetupEnd

-- `ret == 302`.
abbrev is_redirect : ℤ → Bool
is_redirect (pos n) = n == 302
is_redirect (negsuc n) = false

-- The loop over `establishConnection`: whether one of the attempts connected.
unfoldable pub try_connect : Net → ℕ → Client → Option (Bool × Client)
try_connect net zero c = some (false, c)
try_connect net (suc n) c = elim (establish_connection net c) [
  | none ↦ none
  | some (ok, d) ↦ elim ok [ true ↦ some (true, d) | false ↦ try_connect net n d ]
]

module _ (world : World) where
  -- The loop over `rtspSETUP`.
  unfoldable pub try_setup : ℕ → M SetupEnd
  try_setup zero p = some (setup_failed, p)
  try_setup (suc n) p = elim (on_session (λ c. rtsp_setup world.session_net p.setup_type c) p) [
    | none ↦ none
    | some (ret, q) ↦ elim (is_zero ret) [
      | true ↦ some (set_up, q)
      | false ↦ elim (is_redirect ret) [
        | true ↦ some (redirected, q)
        | false ↦ elim (player_recv_stop_key q) [
          | none ↦ none
          | some (stop, r) ↦ elim stop [ true ↦ some (setup_failed, r) | false ↦ try_setup n r ]
        ]
      ]
    ]
  ]

  -- From the label Redirect to the end of the loop over `rtspSETUP`.
  unfoldable pub if_connected : Bool → M SetupEnd
  if_connected true p = try_setup setup_times p
  if_connected false p = some (unconnected, p)

  unfoldable pub connect_session : M SetupEnd
  connect_session = do
    on_session init
    ok ← on_session (try_connect world.session_net establish_times)
    if_connected ok

  -- With the redirections: `none` if the last of the rounds was redirected, too.
  unfoldable pub follow_redirects : ℕ → M (Option SetupEnd)
  follow_redirects zero p = some (none, p)
  follow_redirects (suc n) p = elim (connect_session p) [
    | none ↦ none
    | some (end, q) ↦ elim end [
      | redirected ↦ elim (on_session (destroy_connection world.session_net) q) [
        | none ↦ none
        | some (_, r) ↦ follow_redirects n r
      ]
      | other ↦ some (some other, q)
    ]
  ]

  -- `pthread_create`, with its return code.
  abbrev create : M ℤ
  create p = some (world.create_code p.creations, record p { creations = p.creations + 1 })

  -- 0, or 1.
  unfoldable pub ss_keep_alive_begin : M ℤ
  ss_keep_alive_begin = do
    ret ← create
    λ p.
        some (
          if is_zero ret then pos 0 else pos 1,
          record p { ss_thread = is_zero ret || p.ss_thread },
        )

  unfoldable pub ms_keep_alive_begin : M ℤ
  ms_keep_alive_begin = do
    ret ← create
    λ p.
        some (
          if is_zero ret then pos 0 else pos 1,
          record p { ms_thread = is_zero ret || p.ms_thread },
        )

  -- `ss_keep_alive_id` stays if the thread cannot be cancelled or joined.
  unfoldable pub ss_keep_alive_end : M ℤ
  ss_keep_alive_end p =
      if p.ss_thread
      then if is_zero world.cancel_code && is_zero world.join_code
        then some (pos 0, record p { ss_thread = false })
        else some (negsuc 0, p)
      else some (pos 0, p)

  -- The media server's ids and timeout, for its client.
  abbrev hand_over_ids : M (Unit {0})
  hand_over_ids = modify (λ p. record p {
    streaming = record p.streaming {
      ms_global_session_id = p.session.ms_global_session_id;
      ms_session_id = p.session.ms_session_id;
      session_timeout = p.session.ms_session_timeout;
    };
  })

  abbrev hand_over_address : M (Unit {0})
  hand_over_address = modify (λ p. record p {
    streaming = record p.streaming { ip = p.session.ms_ip; port = p.session.ms_port };
  })

  unfoldable pub end_session : M (Unit {0})
  end_session = do
    ss_keep_alive_end
    on_session (rtsp_teardown world.session_net)
    modify (λ p. record p { if_sm_setup = false })

  -- The label MS_FAIL.
  unfoldable pub ms_fail : M ℤ
  unfolding end_session
  ms_fail = do λ p. branch p.if_sm_setup end_session (pure tt) p; pure (negsuc 0)

  -- The connection to the media server.
  unfoldable pub begin_streaming : Bool → M ℤ
  begin_streaming false p = ms_fail p
  begin_streaming true p =
      (do ret ← ms_keep_alive_begin; pure (if is_zero ret then pos 0 else negsuc 0)) p

  unfoldable pub connect_streaming : M ℤ
  connect_streaming = do
    hand_over_address
    on_streaming init
    ok ← on_streaming (try_connect world.streaming_net establish_times)
    begin_streaming ok

  -- Behind the session server's SETUP.
  unfoldable pub after_session_thread : ℤ → M ℤ
  after_session_thread ret p =
      if is_zero ret
      then (do
        modify (λ p. record p { if_sm_setup = true })
        λ p. branch (has_control p.setup_type) connect_streaming (pure (pos 0)) p)
          p
      else (do on_session (rtsp_teardown world.session_net); pure (negsuc 0)) p

  unfoldable pub begin_session : M ℤ
  begin_session = do hand_over_ids; ret ← ss_keep_alive_begin; after_session_thread ret

  unfoldable pub after_setup : Option SetupEnd → M (Option ℤ)
  after_setup none p = some (none, p)
  after_setup (some set_up) p = (do ret ← begin_session; pure (some ret)) p
  after_setup (some setup_failed) p =
      (do on_session (destroy_connection world.session_net); pure (some (negsuc 0))) p
  after_setup (some _) p = some (some (negsuc 0), p)

  -- The times of a TVS or a TVOD are passed on to the request.
  abbrev takes_times : SetupType → Bool
  takes_times setup_tvs = true
  takes_times setup_tvod = true
  takes_times _ = false

  abbrev pub pass_times : M (Unit {0})
  pass_times p =
      branch (takes_times p.setup_type)
        (modify (λ p. record p {
          session = record p.session {
            media_start_time = p.media_start_time;
            media_stop_time = p.media_stop_time;
          };
        }))
        (pure tt) p

  -- The result, or `none` if the session server still redirects in the last of the rounds.
  unfoldable pub network_init : ℕ → M (Option ℤ)
  network_init rounds = do alive; pass_times; end ← follow_redirects rounds; after_setup end

-- `delete` of the two clients; deleting them again is undefined. What `Quit_Multicast` and
-- `Quit_Unicast` do is not in the repository.
unfoldable pub network_release : M (Unit {0})
network_release = do alive; modify (λ p. record p { freed = true; status_network = pos 0 })
