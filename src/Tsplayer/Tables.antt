-- ===== src/Tsplayer/Tables.antt =====
-- The program tables that the SDK stores and that the calls free.
use snmediaplayer_new.Common.{
  ℕ, ◌+◌, ◌≡◌, Option, none, some, List, [], ◌∷◌, arith, if◌then◌else◌, ◌==◌,
}
use snmediaplayer_new.Common.Int.{ℤ}
use snmediaplayer_new.Common.Text.{Bytes}
use snmediaplayer_new.Tsplayer.State.{Call, ProgTbl, Board, Dvb}
use snmediaplayer_new.Tsplayer.Search.{dvbplay_search}
use snmediaplayer_new.Tsplayer.Play.{descramble_if, dvbplay}
use snmediaplayer_new.Tsplayer.Close.{dvbplay_stop, dvbplay_close}
use snmediaplayer_new.Tsplayer.Control.{dvbplay_tplay, dvbplay_resume, dvbplay_setvolume}
use snmediaplayer_new.Tsplayer.Init.{dvbplay_tune}
use snmediaplayer_new.Tsplayer.Window.{osd_size, set_window, dvbplay_setwindow}

module _ (k : ℕ) where
  -- Whether this is the table with the address `k`.
  abbrev pub held : Option ProgTbl → ℕ
  held none = 0
  held (some t) = if t.id == k then 1 else 0

  abbrev frees : Call → ℕ
  frees (Call.search_free_all_pmt t) = if t == k then 1 else 0
  frees _ = 0

  -- How often the table with the address `k` was freed.
  abbrev pub freed : List Call → ℕ
  freed [] = 0
  freed (c ∷ h) = frees c + freed h

  abbrev stores : Board → Call → List Call → ℕ
  stores board Call.search_get_all_pmt h = held (board.table h)
  stores board _ h = 0

  -- How often the SDK stored it.
  abbrev pub stored : Board → List Call → ℕ
  stored board [] = 0
  stored board (c ∷ h) = stores board c h + stored board h

module _ (board : Board) (k : ℕ) where
  -- The table with the address `k` was freed as often as it was stored, but for the one that is in
  -- `g_pProgTbl`.
  abbrev pub IsBalanced : Dvb → Type 0
  IsBalanced s = stored k board s.calls ≡ freed k s.calls + held k s.prog_tbl

  pub stop-IsBalanced :
      (avplay : ℕ) (s : Dvb) → IsBalanced s → IsBalanced (dvbplay_stop board avplay s).1
  unfolding dvbplay_stop
  stop-IsBalanced avplay s h = ground arith

  pub tune-IsBalanced : (f : ℕ) (s : Dvb) → IsBalanced s → IsBalanced (dvbplay_tune board f s).1
  unfolding dvbplay_tune
  tune-IsBalanced avplay s h = ground arith

  pub tplay-IsBalanced : (f : ℕ) (s : Dvb) → IsBalanced s → IsBalanced (dvbplay_tplay board f s).1
  unfolding dvbplay_tplay
  tplay-IsBalanced avplay s h = ground arith

  pub close-IsBalanced :
      (avplay win : ℕ) (s : Dvb) → IsBalanced s → IsBalanced (dvbplay_close board avplay win s).1
  unfolding dvbplay_close
  close-IsBalanced avplay win s h = ground arith

  descramble_if_keeps :
      (avplay : ℕ) (key : Option Bytes) (s : Dvb)
      → ((descramble_if board avplay key s).1.prog_tbl ≡ s.prog_tbl)
        × (stored k board (descramble_if board avplay key s).1.calls ≡ stored k board s.calls)
        × (freed k (descramble_if board avplay key s).1.calls ≡ freed k s.calls)
  unfolding descramble_if
  descramble_if_keeps avplay key s = ground arith

  pub play-IsBalanced :
      (avplay p : ℕ) (key : Option Bytes) (s : Dvb) {r : ℤ} {t : Dvb}
      → IsBalanced s
      → dvbplay board avplay p key s ≡ some (r, t)
      → IsBalanced t
  unfolding dvbplay
  play-IsBalanced avplay p key s h e = ground (arith, descramble_if_keeps avplay key s)

  pub search-IsBalanced :
      (p : ℕ) (s : Dvb) {r : ℤ} {t : Dvb}
      → s.prog_tbl ≡ none
      → IsBalanced s
      → dvbplay_search board p s ≡ some (r, t)
      → IsBalanced t
  unfolding dvbplay_search
  search-IsBalanced p s f h e = ground arith

  pub resume-IsBalanced :
      (avplay : ℕ) (s : Dvb) → IsBalanced s → IsBalanced (dvbplay_resume board avplay s).1
  unfolding dvbplay_resume
  resume-IsBalanced avplay s h = ground arith

  pub setvolume-IsBalanced :
      (volume : ℕ) (s : Dvb) → IsBalanced s → IsBalanced (dvbplay_setvolume board volume s).1
  unfolding dvbplay_setvolume
  setvolume-IsBalanced volume s h = ground arith

  osd_size-IsBalanced : (s : Dvb) → IsBalanced s → IsBalanced (osd_size board s).1
  unfolding osd_size
  osd_size-IsBalanced s h = ground arith

  pub setwindow-IsBalanced :
      (x y h w : ℤ) (win : ℕ) (s : Dvb) {r : ℤ} {t : Dvb}
      → IsBalanced s
      → dvbplay_setwindow board x y h w win s ≡ some (r, t)
      → IsBalanced t
  unfolding dvbplay_setwindow set_window
  setwindow-IsBalanced x y h w win s b e =
      ground
        (arith, osd_size-IsBalanced (record s { calls = Call.vo_get_window_attr win ∷ s.calls }))

  -- What a client does: it searches only when no table is held.
  pub data Step : Dvb → Dvb → Type 0 where
    tuned : (freq : ℕ) (s : Dvb) → Step s (dvbplay_tune board freq s).1
    searched :
        (pnid : ℕ) (s : Dvb) {r : ℤ} {t : Dvb}
        → s.prog_tbl ≡ none
        → dvbplay_search board pnid s ≡ some (r, t)
        → Step s t
    played :
        (avplay pnid : ℕ) (cas_key : Option Bytes) (s : Dvb) {r : ℤ} {t : Dvb}
        → dvbplay board avplay pnid cas_key s ≡ some (r, t)
        → Step s t
    windowed :
        (x y h w : ℤ) (win : ℕ) (s : Dvb) {r : ℤ} {t : Dvb}
        → dvbplay_setwindow board x y h w win s ≡ some (r, t)
        → Step s t
    stopped : (avplay : ℕ) (s : Dvb) → Step s (dvbplay_stop board avplay s).1
    tricked : (avplay : ℕ) (s : Dvb) → Step s (dvbplay_tplay board avplay s).1
    resumed : (avplay : ℕ) (s : Dvb) → Step s (dvbplay_resume board avplay s).1
    louder : (volume : ℕ) (s : Dvb) → Step s (dvbplay_setvolume board volume s).1
    closed : (avplay win : ℕ) (s : Dvb) → Step s (dvbplay_close board avplay win s).1

  pub data Reach (s : Dvb) : Dvb → Type 0 where
    here : Reach s s
    next : {t u : Dvb} → Reach s t → Step t u → Reach s u

  Step-IsBalanced : {s t : Dvb} → Step s t → IsBalanced s → IsBalanced t
  Step-IsBalanced (tuned freq s) h = tune-IsBalanced freq s h
  Step-IsBalanced (searched pnid s {r} {t} free e) h =
      search-IsBalanced pnid s {r = r} {t = t} free h e
  Step-IsBalanced (played avplay pnid key s {r} {t} e) h =
      play-IsBalanced avplay pnid key s {r = r} {t = t} h e
  Step-IsBalanced (windowed x y ht w win s {r} {t} e) h =
      setwindow-IsBalanced x y ht w win s {r = r} {t = t} h e
  Step-IsBalanced (stopped avplay s) h = stop-IsBalanced avplay s h
  Step-IsBalanced (tricked avplay s) h = tplay-IsBalanced avplay s h
  Step-IsBalanced (resumed avplay s) h = resume-IsBalanced avplay s h
  Step-IsBalanced (louder volume s) h = setvolume-IsBalanced volume s h
  Step-IsBalanced (closed avplay win s) h = close-IsBalanced avplay win s h

  -- Along every run of tune, search, play, setwindow, stop, tplay, resume, setvolume and close in which
  -- each search starts with no table held, the table with each address has been freed as often as the
  -- SDK stored it, but for the one that `g_pProgTbl` holds, if that was so at the start of the run.
  pub Reach-IsBalanced : {s t : Dvb} → IsBalanced s → Reach s t → IsBalanced t
  Reach-IsBalanced h here = h
  Reach-IsBalanced h (next r st) = Step-IsBalanced st (Reach-IsBalanced h r)
