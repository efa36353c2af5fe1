-- ===== src/Mediaplayer/Stream.antt =====
-- StreamMediaPlayer as the class of the instances: the attributes that it keeps as a
-- RealizeSNmediaplayer, its window, and the methods as the interface has them. `Set_Player_Window` has
-- no definition in the repository; it is a parameter.
pub mod Window
pub mod Ended
pub mod Reports
use snmediaplayer_new.Common.{
  ℕ, Bool, true, false, not, ◌&&◌, ◌||◌, Option, none, some, if◌then◌else◌,
}
use snmediaplayer_new.Common.Int.{ℤ, pos, int_eq}
use snmediaplayer_new.Player.State.{Player, World}
use snmediaplayer_new.Player.Lifetime.{Startup, init_stream_media_player, delete_player}
use snmediaplayer_new.Player.Methods
use snmediaplayer_new.Mediaplayer.{
  Flag, native_ui_flag, mute_ui_flag, audio_volume_ui_flag, audio_track_ui_flag,
  progress_bar_ui_flag, channel_no_ui_flag, subtitile_flag, allow_trickmode_flag, Control,
  PlayerRect, Attributes, Native,
}

-- `real` has the attributes as the base class keeps them (`real_…`).
pub record StreamPlayer : Type 0 where
  pub player : Player
  pub real : Attributes
  pub iftvfullscreen : Bool
  pub sallow_trickmode : ℤ

-- DFB_OSD_WIDTH and DFB_OSD_HEIGHT.
abbrev pub whole_screen : PlayerRect
whole_screen = record { x = pos 0; y = pos 0; width = pos 1280; height = pos 720 }

abbrev pub fills : PlayerRect → Bool
fills r = int_eq r.height (pos 720) && int_eq r.width (pos 1280)

abbrev pub all_zero : ℤ → ℤ → ℤ → ℤ → Bool
all_zero a b c d = int_eq a (pos 0) && int_eq b (pos 0) && int_eq c (pos 0) && int_eq d (pos 0)

-- The setters of RealizeSNmediaplayer; those of the other attributes do nothing, but for
-- `setAllowTrickmodeFlag`.
abbrev pub real_flag : Flag → ℤ → Attributes → Attributes
real_flag native_ui_flag v a = record a { sn_native_ui_flag = v }
real_flag mute_ui_flag v a = record a { sn_mute_ui_flag = v }
real_flag audio_volume_ui_flag v a = record a { sn_audio_volume_ui_flag = v }
real_flag audio_track_ui_flag v a = record a { sn_audio_track_ui_flag = v }
real_flag progress_bar_ui_flag v a = record a { sn_progress_bar_ui_flag = v }
real_flag channel_no_ui_flag v a = record a { sn_channel_no_ui_flag = v }
real_flag subtitile_flag v a = record a { sn_subtitile_flag = v }
real_flag _ v a = a

-- `setAllowTrickmodeFlag` stores its flag in a field of StreamMediaPlayer.
unfoldable pub set_flag : Flag → ℤ → StreamPlayer → StreamPlayer
set_flag allow_trickmode_flag v s = record s { sallow_trickmode = v }
set_flag flag v s = record s { real = real_flag flag v s.real }

module _ (set_player_window : PlayerRect → Player → Player) where
  abbrev put_rect : PlayerRect → Bool → StreamPlayer → StreamPlayer
  put_rect r full s = record s {
    real = record s.real { sn_video_displayrect = r };
    iftvfullscreen = full;
  }

  -- The two tests in front of `Set_Player_Window`.
  unfoldable pub choose_rect : (top left width height : ℤ) → StreamPlayer → StreamPlayer
  choose_rect top left width height s =
      let r : PlayerRect = record { x = top; y = left; width = width; height = height } in
      if all_zero top left width height
      then put_rect whole_screen true s
      else if int_eq s.real.sn_video_display_mode (pos 1)
      then put_rect whole_screen true s
      else put_rect r (fills r) s

  unfoldable pub player_setwindowparms :
      (top left width height : ℤ) → StreamPlayer → Option (ℤ × StreamPlayer)
  player_setwindowparms top left width height s =
      let t = choose_rect top left width height s in
      some (pos 0, record t { player = set_player_window t.real.sn_video_displayrect t.player })

  -- The other modes leave the function without a result.
  unfoldable pub refresh_video_display : StreamPlayer → Option (ℤ × StreamPlayer)
  refresh_video_display s =
      let mode = s.real.sn_video_display_mode in
      let r = s.real.sn_video_displayrect in
      if int_eq mode (pos 0) || int_eq mode (pos 2) || int_eq mode (pos 3)
      then player_setwindowparms r.x r.y r.width r.height s
      else if int_eq mode (pos 1)
      then player_setwindowparms (pos 0) (pos 0) (pos 1280) (pos 720) s
      else if int_eq mode (pos 255)
      then player_setwindowparms (pos 0) (pos 0) (pos 0) (pos 0) s
      else none

  -- What the other threads do beside the methods, and until the thread of the player ends.
  module _ (world : World) (between : Player → Player) (during : ℕ → Player → Player)
      (thread : Player → Option Player) (startup : Startup) (blank : StreamPlayer) where
    abbrev pub with_player : StreamPlayer → Option (ℤ × Player) → Option (ℤ × StreamPlayer)
    with_player s none = none
    with_player s (some (ret, p)) = some (ret, record s { player = p })

    abbrev with_wait : StreamPlayer → Option (ℕ × Player) → Option (ℤ × StreamPlayer)
    with_wait s none = none
    with_wait s (some (sleeps, p)) = some (pos 0, record s { player = p })

    abbrev initialised : Attributes → Option (ℤ × Player) → Option StreamPlayer
    initialised a none = none
    initialised a (some (ret, p)) = some (record blank {
      player = record p { mediaplayer_thread = false; mspeed = pos 1 };
      real = a;
      iftvfullscreen = int_eq a.sn_video_display_mode (pos 1) || fills a.sn_video_displayrect;
    })

    -- The constructor: what `Init_StreamMediaPlayer` returns is not looked at. `blank` has what the
    -- memory held before, with the volume of the object.
    unfoldable pub new_stream_media_player : ℕ → Attributes → Option StreamPlayer
    new_stream_media_player i a = initialised a (
        init_stream_media_player world startup (record blank.player {
          real_json_str = a.sn_json_str;
          real_muteflag = not (int_eq a.sn_muteflag (pos 0));
          trans_time = 0;
          media_start_time = 0;
        }))

    unfoldable pub control : Control → StreamPlayer → Option (ℤ × StreamPlayer)
    control Control.pause s = with_wait s (Methods.pause world between during s.player)
    control (Control.fast_forward v) s =
        with_wait s (Methods.fast_forward world between during v s.player)
    control (Control.fast_rewind v) s =
        with_wait s (Methods.fast_rewind world between during v s.player)
    control Control.resume s = with_wait s (Methods.resume world between during s.player)
    control _ s = some (pos 0, s)

    abbrev dropped : Option (Unit {0} × Player) → Option (Unit {0})
    dropped none = none
    dropped (some _) = some tt

    abbrev pub stream_media_player : Native StreamPlayer
    stream_media_player = record {
      create = new_stream_media_player;
      delete = λ s. dropped (delete_player world thread s.player);
      join_channel = λ id info s. with_player s (Methods.join_channel world id info s.player);
      leave_channel = λ s. with_player s (Methods.leave_channel world thread s.player);
      set_single_media = λ json s. with_player s (Methods.set_single_media world json s.player);
      play_from_start = λ s. with_player s (Methods.play_from_start world s.player);
      play_by_time =
          λ type timestamp speed s. with_player s (Methods.play_by_time world speed s.player);
      stop = λ s. with_player s (Methods.stop world thread s.player);
      control = control;
      refresh_video_display = refresh_video_display;
      set_video_display_mode =
          λ v s. record s { real = record s.real { sn_video_display_mode = v } };
      set_video_display_area =
          λ r s. record s { real = record s.real { sn_video_displayrect = r } };
      set_flag = set_flag;
    }
