-- ===== src/Tsplayer/Programs.antt =====
-- The programs of `DSP_DVBplay_search` and `DSP_DVBplay`.
use snmediaplayer_new.Common.{
  ℕ, zero, suc, ◌+◌, ◌%◌, ◌<◌, ◌≡◌, ◌≢◌, ◌⊎◌, inl, inr, true, false, Option, none, some, List, [],
  ◌∷◌, arith, ◌==◌, is_some, Option-cases, Bool-cases,
}
use snmediaplayer_new.Common.Int.{ℤ, is_zero}
use snmediaplayer_new.Common.Text.{Bytes}
use snmediaplayer_new.Tsplayer.State.{Call, ProgTbl, Board, Dvb, call, hi_success, hi_failure}
use snmediaplayer_new.Tsplayer.Search.{find_prog, search_table, dvbplay_search}
use snmediaplayer_new.Tsplayer.Play.{descramble_if, play_table, dvbplay}

-- `p` stands at index `j` of `ps`, and not before it.
abbrev pub FirstAt : ℕ → List ℕ → ℕ → Type 0
FirstAt p [] j = ⊥
FirstAt p (q ∷ ps) zero = q ≡ p
FirstAt p (q ∷ ps) (suc j) = (q ≢ p) × FirstAt p ps j

-- `p` is none of `ps`.
abbrev pub Absent : ℕ → List ℕ → Type 0
Absent p [] = Unit
Absent p (q ∷ ps) = (q ≢ p) × Absent p ps

-- The SDK stores a table whenever `HIADP_Search_GetAllPmt` returns HI_SUCCESS.
abbrev pub GivesTable : Board → Type 0
GivesTable board =
    (h : List Call)
    → is_zero (board.code h Call.search_get_all_pmt) ≡ true
    → is_some (board.table h) ≡ true

find_prog-some :
    (p i : ℕ) (ps : List ℕ) {j : ℕ}
    → find_prog p i ps ≡ some j
    → (k : ℕ) × (j ≡ i + k) × FirstAt p ps k
unfolding find_prog
find_prog-some p i [] e = cc
find_prog-some p i (q ∷ ps) {j} e = elim (Bool-cases (q == p)) [
  | inl same ↦ (0, ground arith, ground arith)
  | inr other ↦
      let (k, at, first) = find_prog-some p (suc i) ps {j = j} (ground arith) in
      (suc k, omega arith, (ground arith, first))
]

pub find_prog-FirstAt : (p : ℕ) (ps : List ℕ) {j : ℕ} → find_prog p 0 ps ≡ some j → FirstAt p ps j
find_prog-FirstAt p ps {j} e = let (k, at, first) = find_prog-some p 0 ps {j = j} e in ground arith

pub find_prog-Absent : (p i : ℕ) (ps : List ℕ) → find_prog p i ps ≡ none → Absent p ps
unfolding find_prog
find_prog-Absent p i [] e = tt
find_prog-Absent p i (q ∷ ps) e = ground (arith, find_prog-Absent p (suc i) ps)

pub FirstAt-find_prog : (p i j : ℕ) (ps : List ℕ) → FirstAt p ps j → find_prog p i ps ≡ some (i + j)
unfolding find_prog
FirstAt-find_prog p i j [] h = absurd h
FirstAt-find_prog p i zero (q ∷ ps) h = ground arith
FirstAt-find_prog p i (suc j) (q ∷ ps) h = ground (arith, FirstAt-find_prog p (suc i) j ps h.1)

search_table-cases :
    (board : Board) (p : ℕ) (tbl : ProgTbl) (s : Dvb) {r : ℤ} {t : Dvb}
    → search_table board p (some tbl) s ≡ some (r, t)
    → ((r ≡ hi_success) × (t ≡ s) × (j : ℕ) × FirstAt p tbl.prog_ids j)
      ⊎ ((r ≡ hi_failure) × (t.prog_tbl ≡ none) × Absent p tbl.prog_ids)
unfolding search_table
search_table-cases board p tbl s e = elim (Option-cases (find_prog p 0 tbl.prog_ids)) [
  | inl no_index ↦ inr (ground arith, ground arith, find_prog-Absent p 0 tbl.prog_ids no_index)
  | inr (j, index) ↦ inl (ground arith, ground arith, j, find_prog-FirstAt p tbl.prog_ids index)
]

-- The log at the moment of `HIADP_Search_GetAllPmt`.
abbrev pub asked : Dvb → List Call
asked s = Call.search_init ∷ s.calls

-- The program stands in the table that the SDK stored, and the table is kept.
abbrev pub Found : Board → ℕ → Dvb → Dvb → Type 0
Found board pnid s t =
    (tbl : ProgTbl) × (j : ℕ) × (board.table (asked s) ≡ some tbl)
    × (t.prog_tbl ≡ some tbl)
    × FirstAt pnid tbl.prog_ids j

-- The SDK failed, or the program is not in its table.
abbrev pub NotFound : Board → ℕ → Dvb → Type 0
NotFound board pnid s =
    (is_zero (board.code (asked s) Call.search_get_all_pmt) ≡ false)
    ⊎ ((tbl : ProgTbl) × (board.table (asked s) ≡ some tbl) × Absent pnid tbl.prog_ids)

module _ (board : Board) where
  -- If the SDK gives a table with each success, a search returns HI_SUCCESS and holds the table in
  -- which the program stands, or returns HI_FAILURE and holds none.
  pub search-Found :
      (pnid : ℕ) (s : Dvb) {r : ℤ} {t : Dvb}
      → GivesTable board
      → dvbplay_search board pnid s ≡ some (r, t)
      → ((r ≡ hi_success) × Found board (pnid % 65536) s t)
        ⊎ ((r ≡ hi_failure) × (t.prog_tbl ≡ none) × NotFound board (pnid % 65536) s)
  unfolding dvbplay_search
  search-Found pnid s {r} {t} g e =
      elim (Bool-cases (is_zero (board.code (asked s) Call.search_get_all_pmt))) [
        | inr failed ↦ inr (ground arith, ground arith, inl failed)
        | inl done ↦ elim (Option-cases (board.table (asked s))) [
          | inl no_table ↦ ground (arith, g (asked s))
          | inr (tbl, stored) ↦
              let s2 = record s {
                prog_tbl = some tbl;
                calls = Call.search_get_all_pmt ∷ asked s;
              } in
              elim (search_table-cases board (pnid % 65536) tbl s2 {r = r} {t = t} (ground arith)) [
                | inl (r_ok, kept, j, first) ↦ inl (r_ok, (tbl, j, stored, ground arith, first))
                | inr (r_bad, none_held, absent) ↦ inr (r_bad, none_held, inr (tbl, stored, absent))
              ]
        ]
      ]

  -- If the SDK gives a table with each success, a search does not read through a null table.
  pub search_total :
      (pnid : ℕ) (s : Dvb) → GivesTable board → is_some (dvbplay_search board pnid s) ≡ true
  unfolding dvbplay_search
  search_total pnid s g = ground (arith, g (Call.search_init ∷ s.calls))

  -- After a search that returned HI_SUCCESS for a 16-bit program number, playing that program does not
  -- read through a null table: it descrambles if there is a key, then plays the program at its first
  -- index in the table that is held, and returns the SDK's code.
  pub search-play :
      (pnid avplay : ℕ) (cas_key : Option Bytes) (s : Dvb) {t : Dvb}
      → GivesTable board
      → pnid < 65536
      → dvbplay_search board pnid s ≡ some (hi_success, t)
      → (tbl : ProgTbl) × (j : ℕ) × (t.prog_tbl ≡ some tbl)
        × FirstAt pnid tbl.prog_ids j
        × (dvbplay board avplay pnid cas_key t
            ≡ some (
                call board
                  (Call.avplay_play_prog avplay tbl.id j)
                  (descramble_if board avplay cas_key t).1))
  unfolding dvbplay
  search-play pnid avplay k s {t} g w e = elim (search-Found pnid s {r = hi_success} {t = t} g e) [
    | inr (r_bad, _, _) ↦ cc
    | inl (_, found) ↦
        let (tbl, j, _, kept, first) = found in
        let here : FirstAt pnid tbl.prog_ids j = rw narrow at first in
        (
          tbl,
          j,
          kept,
          here,
          rw (kept, play_table) (ground (arith, FirstAt-find_prog pnid 0 j tbl.prog_ids here)),
        )
  ]
    where
      narrow : pnid % 65536 ≡ pnid
      narrow = omega arith
