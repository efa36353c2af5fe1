-- ===== src/Tsplayer/Tests.antt =====
-- Runs of tsplayer.c on a board that answers every call with success.
use snmediaplayer_new.Common.{
  ℕ, suc, ◌+◌, ◌≤◌, ◌≡◌, ◌⊎◌, refl, false, none, some, List, [], ◌∷◌, arith,
}
use snmediaplayer_new.Common.Int.{pos, negsuc}
use snmediaplayer_new.Common.Text.{codes, strstr}
use snmediaplayer_new.Tsplayer.State.{Call, Board, Dvb, ProgTbl, hi_success, hi_failure, call}
use snmediaplayer_new.Tsplayer.Search.{find_prog, get_all_pmt, search_table, dvbplay_search}
use snmediaplayer_new.Tsplayer.Play.{descramble_if, dvbplay}
use snmediaplayer_new.Tsplayer.Window.{
  resolution_size, mode_size, scale_rect, osd_size, set_window, dvbplay_setwindow,
}
use snmediaplayer_new.Tsplayer.Close.{dvbplay_stop, dvbplay_close}
use snmediaplayer_new.Tsplayer.Programs.{
  FirstAt, GivesTable, Found, NotFound, search-Found, search-play,
}
use snmediaplayer_new.Tsplayer.Tables.{IsBalanced, here, next, searched, closed, Reach-IsBalanced}
use snmediaplayer_new.Tsplayer.Scaling.{IsMode, setwindow-inside}
use snmediaplayer_new.Tsplayer.Descrambler.{created, destroyed, keyed_play, play-stop_descrambler}

-- Two programs, the second with the number 7.
abbrev table0 : ProgTbl
table0 = record { id = 1; prog_ids = 5 ∷ 7 ∷ [] }

abbrev board0 : Board
board0 = record {
  code = λ _ _. pos 0;
  output = λ _ _. some 1;
  table = λ _. some table0;
  setting = λ _ _. codes "1920x1080i_50";
}

-- Every call fails.
abbrev broken : Board
broken = record board0 { code = λ _ _. negsuc 0 }

abbrev start : Dvb
start = record {
  tuner_freq = 0;
  tuner_srate = 0;
  tuner_qam = 0;
  prog_tbl = none;
  key = 0;
  aud_chn = 0;
  vid_chn = 0;
  is_scramble = false;
  calls = [];
}

abbrev found : Dvb
found = record start {
  prog_tbl = some table0;
  calls = Call.search_get_all_pmt ∷ Call.search_init ∷ [];
}

found_in_table : dvbplay_search board0 7 start ≡ some (hi_success, found)
unfolding dvbplay_search get_all_pmt search_table find_prog
found_in_table = refl

gives : GivesTable board0
gives h e = refl

search-Found_example :
    ((hi_success ≡ hi_success) × Found board0 7 start found)
    ⊎ ((hi_success ≡ hi_failure) × (found.prog_tbl ≡ none) × NotFound board0 7 start)
search-Found_example = search-Found board0 7 start {r = hi_success} {t = found} gives found_in_table

search-play_example :
    (tbl : ProgTbl) × (j : ℕ) × (found.prog_tbl ≡ some tbl)
    × FirstAt 7 tbl.prog_ids j
    × (dvbplay board0 3 7 (some (codes "key")) found
        ≡ some (
            call board0
              (Call.avplay_play_prog 3 tbl.id j)
              (descramble_if board0 3 (some (codes "key")) found).1))
search-play_example =
    search-play board0 7 3 (some (codes "key")) start {t = found} gives (omega arith) found_in_table

Reach-IsBalanced_example : IsBalanced board0 1 (dvbplay_close board0 3 4 found).1
Reach-IsBalanced_example =
    Reach-IsBalanced board0 1 {s = start} {t = (dvbplay_close board0 3 4 found).1} refl (
      next (next here (searched 7 start {r = hi_success} {t = found} refl found_in_table))
        (closed 3 4 found))

abbrev placed : Dvb
placed = record start {
  calls =
      Call.vo_set_window_attr 4 (pos 150) (pos 300) (pos 960) (pos 540)
      ∷ Call.read_xml_setting (codes "videoresolution")
      ∷ Call.get_videosetmode
      ∷ Call.vo_get_window_attr 4
      ∷ [];
}

placed_in_full_hd :
    dvbplay_setwindow board0 (pos 100) (pos 200) (pos 360) (pos 640) 4 start ≡ some (pos 0, placed)
unfolding osd_size resolution_size mode_size strstr set_window scale_rect dvbplay_setwindow
placed_in_full_hd = refl

setwindow-inside_example :
    (ow oh x' y' w' h' : ℕ) × (rest : List Call) × ((osd_size board0
        (record start { calls = Call.vo_get_window_attr 4 ∷ start.calls })).0
      ≡ some (ow, oh))
    × IsMode (ow, oh)
    × (placed.calls ≡ Call.vo_set_window_attr 4 (pos x') (pos y') (pos w') (pos h') ∷ rest)
    × (x' + w' ≤ ow)
    × (y' + h' ≤ oh)
setwindow-inside_example =
    setwindow-inside board0 100 200 360 640 4 start {r = pos 0} {t = placed} (omega arith)
      (omega arith) placed_in_full_hd

play-stop_descrambler_example :
    let t = (keyed_play broken 3 (codes "key") 1 1 found).1 in
    let u = (dvbplay_stop broken 3 t).1 in
    (dvbplay broken 3 7 (some (codes "key")) found
      ≡ some (keyed_play broken 3 (codes "key") 1 1 found))
    × (u.is_scramble ≡ false)
    × (destroyed u.calls ≡ suc (destroyed found.calls))
    × (created broken u.calls ≡ 0 + created broken found.calls)
play-stop_descrambler_example =
    play-stop_descrambler broken 3 7 1 (codes "key") table0 found refl ((λ e. ground arith), refl)
