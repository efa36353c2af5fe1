-- ===== src/Mediaplayer/Stream/Window.antt =====
-- The window that `refreshVideoDisplay` shows.
use snmediaplayer_new.Common.{◌≡◌, Option, none, some, if◌then◌else◌, arith}
use snmediaplayer_new.Common.Int.{ℤ, pos}
use snmediaplayer_new.Player.State.{Player}
use snmediaplayer_new.Mediaplayer.{PlayerRect}
use snmediaplayer_new.Mediaplayer.Stream.{
  StreamPlayer, whole_screen, fills, all_zero, choose_rect, player_setwindowparms,
  refresh_video_display,
}

-- The modes of display that the interface documents.
pub data DisplayMode : Type 0 where
  by_area full_screen by_width by_height closed : DisplayMode

abbrev pub number : DisplayMode → ℤ
number by_area = pos 0
number full_screen = pos 1
number by_width = pos 2
number by_height = pos 3
number closed = pos 255

-- The rectangle for a mode and an area: the whole screen, or the area if it is not empty.
abbrev pub shown : DisplayMode → PlayerRect → PlayerRect
shown full_screen r = whole_screen
shown closed r = whole_screen
shown _ r = if all_zero r.x r.y r.width r.height then whole_screen else r

module _ (set_player_window : PlayerRect → Player → Player) where
  -- The rectangle is shown and kept, and the mark of the full screen says whether it fills the screen.
  abbrev pub Shows : PlayerRect → StreamPlayer → Option (ℤ × StreamPlayer) → Type 0
  Shows r s none = ⊥
  Shows r s (some (ret, t)) =
      (ret ≡ pos 0)
      × (t.real.sn_video_displayrect ≡ r)
      × (t.iftvfullscreen ≡ fills r)
      × (t.player ≡ set_player_window r s.player)

  -- In each of the five documented modes, `refreshVideoDisplay` sets the window to one rectangle: the
  -- area by mode 0, 2 and 3, unless it is all zero, and else the whole screen. The player keeps the
  -- rectangle, and `iftvfullscreen` says whether it has the size of the screen. This is not what the
  -- modes are documented to do by 2 and 3, the full width and the full height with the aspect kept, and
  -- by 255, no window.
  pub refresh-Shows :
      (mode : DisplayMode) (s : StreamPlayer)
      → s.real.sn_video_display_mode ≡ number mode
      → Shows (shown mode s.real.sn_video_displayrect) s (refresh_video_display set_player_window s)
  unfolding refresh_video_display player_setwindowparms choose_rect
  refresh-Shows by_area s m = ground (arith, m)
  refresh-Shows full_screen s m = ground (arith, m)
  refresh-Shows by_width s m = ground (arith, m)
  refresh-Shows by_height s m = ground (arith, m)
  refresh-Shows closed s m = ground (arith, m)
