-- ===== src/Tsplayer/Search.antt =====
-- `DSP_DVBplay_search`, and the release of the program table that it shares with the stop calls.
use snmediaplayer_new.Common.{ℕ, suc, ◌%◌, Option, none, some, List, [], ◌∷◌, if◌then◌else◌, ◌==◌}
use snmediaplayer_new.Common.Int.{ℤ, is_zero}
use snmediaplayer_new.Tsplayer.State.{Call, ProgTbl, Board, Dvb, M, call, hi_success, hi_failure}

-- The loop over `proginfo`: the first index whose ProgID is `pnid`, counted from `index`.
unfoldable pub find_prog : ℕ → ℕ → List ℕ → Option ℕ
find_prog pnid index [] = none
find_prog pnid index (p ∷ ps) =
    let rest = find_prog pnid (suc index) ps in if p == pnid then some index else rest

module _ (board : Board) where
  -- `if (g_pProgTbl) { HIADP_Search_FreeAllPmt(g_pProgTbl); } g_pProgTbl = HI_NULL;`
  unfoldable pub free_table : Option ProgTbl → Dvb → Dvb
  free_table none s = record s { prog_tbl = none }
  free_table (some t) s = record ((call board (Call.search_free_all_pmt t.id) s).1) {
    prog_tbl = none;
  }

  -- The label FAILURE.
  unfoldable pub search_failure : Dvb → ℤ × Dvb
  unfolding free_table
  search_failure s = (hi_failure, free_table s.prog_tbl s)

  -- `HIADP_Search_GetAllPmt(0, &g_pProgTbl)`.
  unfoldable pub get_all_pmt : M ℤ
  get_all_pmt s = (
    board.code s.calls Call.search_get_all_pmt,
    record s {
      prog_tbl = elim (board.table s.calls) [ none ↦ s.prog_tbl | some t ↦ some t ];
      calls = Call.search_get_all_pmt ∷ s.calls;
    },
  )

  -- The two tests of the table; `prog_num == 0` fails as an unknown program does.
  unfoldable pub search_table : ℕ → Option ProgTbl → Dvb → Option (ℤ × Dvb)
  unfolding search_failure
  search_table pnid none s = none
  search_table pnid (some t) s = elim (find_prog pnid 0 t.prog_ids) [
    | some index ↦ some (hi_success, s)
    | none ↦ some (search_failure s)
  ]

  -- The argument is an HI_U16. `none` is the read through a null `g_pProgTbl`.
  unfoldable pub dvbplay_search : ℕ → Dvb → Option (ℤ × Dvb)
  unfolding search_table get_all_pmt
  dvbplay_search pnid s0 =
      let (_, s1) = call board Call.search_init s0 in
      let (ret, s2) = get_all_pmt s1 in
      if is_zero ret then search_table (pnid % 65536) s2.prog_tbl s2 else some (search_failure s2)
