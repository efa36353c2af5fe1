-- ===== src/Tsplayer/Window.antt =====
-- `DSP_DVBplay_setwindow`: from the 1280x720 plane of the pages to the output resolution.
use snmediaplayer_new.Common.{ℕ, Bool, Option, none, some, if◌then◌else◌, ◌||◌, is_some}
use snmediaplayer_new.Common.Int.{ℤ, scale, is_zero, is_one, is_minus_one}
use snmediaplayer_new.Common.Text.{Bytes, codes, str_eq, strstr}
use snmediaplayer_new.Tsplayer.State.{Call, Board, Dvb, call, hi_success}

abbrev has : Bytes → Bytes → Bool
has hay needle = is_some (strstr hay needle)

-- The chain of `strstr` tests on the setting `videoresolution`. `none` is an `osdw` that was never
-- assigned; `osd` is the size after the failed read.
unfoldable pub resolution_size : Bytes → Option (ℕ × ℕ) → Option (ℕ × ℕ)
unfolding strstr
resolution_size r osd =
    if has r (codes "720x480i") || has r (codes "720x480p")
    then some (720, 480)
    else if has r (codes "720x576i") || has r (codes "720x576p")
    then some (720, 576)
    else if has r (codes "1280x720i") || has r (codes "1280x720p")
    then some (1280, 720)
    else if has r (codes "1920x1080i") || has r (codes "1920x1080p")
    then some (1920, 1080)
    else osd

-- The setting `videomode`, PAL if it cannot be read.
unfoldable pub mode_size : Bytes → Option (ℕ × ℕ)
mode_size mode =
    if str_eq mode (codes "PAL")
    then some (720, 576)
    else if str_eq mode (codes "NTSC")
    then some (720, 480)
    else none

-- `x*osdw/1280` and the like.
unfoldable pub scale_rect : ℤ → ℤ → ℤ → ℤ → ℕ → ℕ → ℤ × ℤ × ℤ × ℤ
scale_rect x y h w osdw osdh =
    (scale x osdw 1280, scale y osdh 720, scale h osdh 720, scale w osdw 1280)

module _ (board : Board) where
  -- `osdw` and `osdh`, by the video set mode and the settings file.
  unfoldable pub osd_size : Dvb → Option (ℕ × ℕ) × Dvb
  osd_size s0 =
      let (vmode, s1) = call board Call.get_videosetmode s0 in
      let resolution = codes "videoresolution" in
      let mode = codes "videomode" in
      let (ret_r, s_r) = call board (Call.read_xml_setting resolution) s1 in
      let (ret_m, s_m) = call board (Call.read_xml_setting mode) s1 in
      let osd = if is_minus_one ret_r then some (1280, 720) else none in
      let text_m = if is_minus_one ret_m then codes "PAL" else board.setting s1.calls mode in
      if is_zero vmode
      then (resolution_size (board.setting s1.calls resolution) osd, s_r)
      else if is_one vmode
      then (mode_size text_m, s_m)
      else (none, s1)

  unfoldable pub set_window : ℤ → ℤ → ℤ → ℤ → ℕ → Option (ℕ × ℕ) → Dvb → Option (ℤ × Dvb)
  set_window x y h w win none s = none
  set_window x y h w win (some (osdw, osdh)) s =
      let (x', y', h', w') = scale_rect x y h w osdw osdh in
      let (_, t) = call board (Call.vo_set_window_attr win x' y' w' h') s in some (hi_success, t)

  -- `none` is the use of a size that was never assigned.
  unfoldable pub dvbplay_setwindow : ℤ → ℤ → ℤ → ℤ → ℕ → Dvb → Option (ℤ × Dvb)
  dvbplay_setwindow x y h w win s0 =
      let (_, s1) = call board (Call.vo_get_window_attr win) s0 in
      let (size, s2) = osd_size s1 in set_window x y h w win size s2
