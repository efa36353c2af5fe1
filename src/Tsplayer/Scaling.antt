-- ===== src/Tsplayer/Scaling.antt =====
-- Where `DSP_DVBplay_setwindow` puts a rectangle of the 1280x720 plane.
use snmediaplayer_new.Common.{
  ◌≢◌, ℕ, ◌+◌, ◌*◌, ◌/◌, ◌≤◌, ◌≡◌, ◌⊎◌, ◌↔◌, inl, inr, true, false, Option, none, some, List, ◌∷◌,
  arith, if◌then◌else◌, Option-cases,
}
use snmediaplayer_new.Common.Int.{ℤ, pos, is_zero, is_one, is_minus_one}
use snmediaplayer_new.Common.Text.{Bytes, codes, str_eq, strstr}
use snmediaplayer_new.Tsplayer.State.{Call, Board, Dvb}
use snmediaplayer_new.Tsplayer.Window.{
  resolution_size, mode_size, scale_rect, osd_size, set_window, dvbplay_setwindow,
}

mul_mono : (a b n : ℕ) → a ≤ b → a * n ≤ b * n
mul_mono a b n h = grind arith

horizontal_le : (a b n : ℕ) → a + b ≤ 1280 → a * n / 1280 + b * n / 1280 ≤ n
horizontal_le a b n h = omega (arith, mul_mono (a + b) 1280 n h)

vertical_le : (a b n : ℕ) → a + b ≤ 720 → a * n / 720 + b * n / 720 ≤ n
vertical_le a b n h = omega (arith, mul_mono (a + b) 720 n h)

-- On a 1280x720 output every rectangle is passed on as it is, one with negative numbers too.
pub scale_rect_720p : (x y h w : ℤ) → scale_rect x y h w 1280 720 ≡ (x, y, h, w)
unfolding scale_rect
scale_rect_720p x y h w = ground arith

-- The four output sizes.
abbrev pub IsMode : ℕ × ℕ → Type 0
IsMode m = (m ≡ (720, 480)) ⊎ (m ≡ (720, 576)) ⊎ (m ≡ (1280, 720)) ⊎ (m ≡ (1920, 1080))

resolution_size-IsMode :
    (r : Bytes) (osd : Option (ℕ × ℕ)) {m : ℕ × ℕ}
    → (osd ≡ none) ⊎ (osd ≡ some (1280, 720))
    → resolution_size r osd ≡ some m
    → IsMode m
unfolding resolution_size
resolution_size-IsMode r osd h e = ground arith

-- None of the eight names occurs in the setting.
abbrev pub NoResolution : Bytes → Type 0
NoResolution r =
    (strstr r (codes "720x480i") ≡ none)
    × (strstr r (codes "720x480p") ≡ none)
    × (strstr r (codes "720x576i") ≡ none)
    × (strstr r (codes "720x576p") ≡ none)
    × (strstr r (codes "1280x720i") ≡ none)
    × (strstr r (codes "1280x720p") ≡ none)
    × (strstr r (codes "1920x1080i") ≡ none)
    × (strstr r (codes "1920x1080p") ≡ none)

abbrev pub NoMode : Bytes → Type 0
NoMode mode = (str_eq mode (codes "PAL") ≡ false) × (str_eq mode (codes "NTSC") ≡ false)

resolution_size-none_only : (r : Bytes) → (resolution_size r none ≡ none) → NoResolution r
unfolding resolution_size
resolution_size-none_only r e = ground arith

resolution_size-none_if : (r : Bytes) → NoResolution r → (resolution_size r none ≡ none)
unfolding resolution_size
resolution_size-none_if r h = ground arith

resolution_size-none : (r : Bytes) → (resolution_size r none ≡ none) ↔ NoResolution r
resolution_size-none r = (resolution_size-none_only r, resolution_size-none_if r)

resolution_size-some : (r : Bytes) (osd : ℕ × ℕ) → resolution_size r (some osd) ≢ none
unfolding resolution_size
resolution_size-some r osd e = ground arith

mode_size-IsMode : (r : Bytes) {m : ℕ × ℕ} → mode_size r ≡ some m → IsMode m
unfolding mode_size
mode_size-IsMode r e = ground arith

module _ (board : Board) where
  osd_size-IsMode : (s : Dvb) {m : ℕ × ℕ} → (osd_size board s).0 ≡ some m → IsMode m
  unfolding osd_size
  osd_size-IsMode s {m} e = ground (
    arith,
    resolution_size-IsMode (board.setting s1 (codes "videoresolution"))
        (if is_minus_one (board.code s1 (Call.read_xml_setting (codes "videoresolution")))
          then some (1280, 720)
          else none)
        {m = m},
    mode_size-IsMode
        (if is_minus_one (board.code s1 (Call.read_xml_setting (codes "videomode")))
          then codes "PAL"
          else board.setting s1 (codes "videomode"))
        {m = m},
  )
    where
      s1 : List Call
      s1 = Call.get_videosetmode ∷ s.calls

  -- A rectangle within the 1280x720 plane is put within the output size that the settings and the video
  -- set mode give, which is one of four.
  pub setwindow-inside :
      (x y h w win : ℕ) (s : Dvb) {r : ℤ} {t : Dvb}
      → x + w ≤ 1280
      → y + h ≤ 720
      → dvbplay_setwindow board (pos x) (pos y) (pos h) (pos w) win s ≡ some (r, t)
      → (ow oh x' y' w' h' : ℕ) × (rest : List Call) × ((osd_size board
            (record s { calls = Call.vo_get_window_attr win ∷ s.calls })).0
          ≡ some (ow, oh))
        × IsMode (ow, oh)
        × (t.calls ≡ Call.vo_set_window_attr win (pos x') (pos y') (pos w') (pos h') ∷ rest)
        × (x' + w' ≤ ow)
        × (y' + h' ≤ oh)
  unfolding dvbplay_setwindow set_window scale_rect
  setwindow-inside x y h w win s {r} {t} p q e = elim (Option-cases (osd_size board s1).0) [
    | inl unknown ↦ ground arith
    | inr ((ow, oh), size) ↦ (
      ow,
      oh,
      x * ow / 1280,
      y * oh / 720,
      w * ow / 1280,
      h * oh / 720,
      (osd_size board s1).1.calls,
      size,
      osd_size-IsMode s1 {m = (ow, oh)} size,
      ground arith,
      horizontal_le x w ow p,
      vertical_le y h oh q,
    )
  ]
    where
      s1 : Dvb
      s1 = record s { calls = Call.vo_get_window_attr win ∷ s.calls }

  -- The setting was read and names no known size, or the video set mode is neither 0 nor 1.
  abbrev pub Unassigned : ℕ → Dvb → Type 0
  Unassigned win s =
      let h0 = Call.vo_get_window_attr win ∷ s.calls in
      let h1 = Call.get_videosetmode ∷ h0 in
      let vmode = board.code h0 Call.get_videosetmode in
      let resolution = codes "videoresolution" in
      let mode = codes "videomode" in
      ((is_zero vmode ≡ true)
        × (is_minus_one (board.code h1 (Call.read_xml_setting resolution)) ≡ false)
        × NoResolution (board.setting h1 resolution))
      ⊎ ((is_one vmode ≡ true)
          × (is_minus_one (board.code h1 (Call.read_xml_setting mode)) ≡ false)
          × NoMode (board.setting h1 mode))
      ⊎ ((is_zero vmode ≡ false) × (is_one vmode ≡ false))

  -- The size is used without having been assigned exactly when the setting that the video set mode
  -- asks for was read and names no known size, or the video set mode is neither 0 nor 1.
  setwindow-Unassigned :
      (x y h w : ℤ) (win : ℕ) (s : Dvb)
      → (dvbplay_setwindow board x y h w win s ≡ none) ↔ Unassigned win s
  unfolding dvbplay_setwindow set_window osd_size mode_size
  setwindow-Unassigned x y h w win s = (
    λ e. ground (
      arith,
      resolution_size-none (board.setting h1 (codes "videoresolution")),
      resolution_size-some (board.setting h1 (codes "videoresolution")) (1280, 720),
    ),
    λ e. ground (arith, resolution_size-none (board.setting h1 (codes "videoresolution"))),
  )
    where
      h1 : List Call
      h1 = Call.get_videosetmode ∷ Call.vo_get_window_attr win ∷ s.calls
