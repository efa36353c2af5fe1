-- ===== src/Player/Lifetime.antt =====
-- The start and the end of a player: `Init_StreamMediaPlayer`, `Release_StreamMediaPlayer` and the
-- destructor.
pub mod Twice
pub mod Running
use snmediaplayer_new.Common.{ℕ, Bool, true, false, Option, none, some, if◌then◌else◌}
use snmediaplayer_new.Common.Int.{ℤ, pos, negsuc, is_zero}
use snmediaplayer_new.Common.Text.{Bytes}
use snmediaplayer_new.Tsplayer.Init.{dvbplay_init}
use snmediaplayer_new.Tsplayer.Close.{dvbplay_close}
use snmediaplayer_new.Rtsp.State.{Client}
use snmediaplayer_new.Player.State.{
  Message, msg_quit, Player, World, M, pure, ◌>>=◌, ◌>>◌, modify, on_dvb,
}
use snmediaplayer_new.Player.Queue.{sendto_mediaplayermsg}
use snmediaplayer_new.Player.Network.{network_release}

-- `setting.xml` and the scan for the service group: the return code and the text of
-- `Read_Xml_Setting`, and the group, or `none` for -1.
pub record Startup : Type 0 where
  pub account_code : ℤ
  pub account_name : Bytes
  pub service_group : Option ℕ
  -- What `new RTSPClient_prv` gives for each server: the constructor clears some of the fields.
  pub session : Client
  pub streaming : Client

module _ (world : World) where
  abbrev with_group : Option ℕ → Client → Client
  with_group none c = c
  with_group (some g) c = record c { service_group = g }

  -- Behind `Read_Xml_Setting`.
  unfoldable pub read_account : Startup → M ℤ
  read_account startup p =
      if is_zero startup.account_code
      then some (
        pos 0,
        record p {
          session =
              with_group startup.service_group
                (record p.session { user_id = startup.account_name });
          status_decoder = true;
        },
      )
      else some (negsuc 0, p)

  unfoldable pub after_decoder : Startup → ℤ × ℕ × ℕ → M ℤ
  after_decoder startup (ret, avplay, win) p =
      if is_zero ret
      then read_account startup (record p { havplay = avplay; hwin = win; cur_freq = 0 })
      else some (negsuc 0, record p { havplay = avplay; hwin = win })

  -- What `request_to_open_channel` returns is only reported.
  unfoldable pub init_stream_media_player : Startup → M ℤ
  init_stream_media_player startup = do
    modify (λ p. record p {
      volumesize = p.real_volume;
      status_decoder = false;
      status_network = pos 0;
      session = startup.session;
      streaming = startup.streaming;
      freed = false;
    })
    λ p. (do ret ← on_dvb (dvbplay_init world.board p.havplay p.hwin); after_decoder startup ret) p

  unfoldable pub close_decoder : M (Unit {0})
  close_decoder p =
      if p.status_decoder
      then (do
        λ p. on_dvb (dvbplay_close world.board p.havplay p.hwin) p
        modify (λ p. record p { status_decoder = false }))
          p
      else some (tt, p)

  -- What `request_to_close_channel` returns is only reported.
  unfoldable pub release_stream_media_player : M ℤ
  release_stream_media_player = do network_release; close_decoder; pure (pos 0)

  -- `pthread_join`: `thread` is what the player's thread does until it ends, `none` if that is
  -- undefined or does not come.
  unfoldable pub quit_and_join : (Player → Option Player) → M (Unit {0})
  quit_and_join thread p =
      if p.mediaplayer_thread
      then (do
        sendto_mediaplayermsg world msg_quit
        λ q. elim (thread q) [
          | none ↦ none
          | some r ↦ some (tt, record r { mediaplayer_thread = false })
        ])
          p
      else some (tt, p)

  -- `~StreamMediaPlayer`.
  unfoldable pub delete_player : (Player → Option Player) → M (Unit {0})
  delete_player thread = do quit_and_join thread; release_stream_media_player; pure tt
