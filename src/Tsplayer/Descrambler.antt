-- ===== src/Tsplayer/Descrambler.antt =====
-- The descrambler that `DSP_DVBplay` creates and that the stop calls destroy.
use snmediaplayer_new.Common.{
  ℕ, suc, ◌+◌, ◌≡◌, true, false, none, some, List, [], ◌∷◌, arith, if◌then◌else◌,
}
use snmediaplayer_new.Common.Int.{ℤ, is_zero}
use snmediaplayer_new.Common.Text.{Bytes}
use snmediaplayer_new.Tsplayer.State.{Call, ProgTbl, Board, Dvb, call}
use snmediaplayer_new.Tsplayer.Play.{descramble, descramble_if, play_table, dvbplay}
use snmediaplayer_new.Tsplayer.Programs.{FirstAt, FirstAt-find_prog}
use snmediaplayer_new.Tsplayer.Close.{dvbplay_stop}

abbrev pub destroyed : List Call → ℕ
destroyed [] = 0
destroyed (c ∷ h) = (elim c [ Call.dmx_destroy_descrambler k ↦ 1 | _ ↦ 0 ]) + destroyed h

module _ (board : Board) where
  abbrev creates : Call → List Call → ℕ
  creates Call.dmx_create_descrambler h =
      if is_zero (board.code h Call.dmx_create_descrambler) then 1 else 0
  creates _ h = 0

  -- The descramblers that the SDK created.
  abbrev pub created : List Call → ℕ
  created [] = 0
  created (c ∷ h) = creates c h + created h

  descramble_counts :
      (avplay : ℕ) (cas_key : Bytes) (s : Dvb)
      → let t = (descramble board avplay cas_key s).1 in
        (created t.calls
          ≡ (if is_zero (board.code s.calls Call.dmx_create_descrambler) then 1 else 0)
            + created s.calls)
        × (destroyed t.calls ≡ destroyed s.calls)
        × (t.is_scramble ≡ true)
  unfolding descramble
  descramble_counts avplay cas_key s = ground arith

  stop_counts :
      (avplay : ℕ) (s : Dvb)
      → let t = (dvbplay_stop board avplay s).1 in
        (created t.calls ≡ created s.calls)
        × (destroyed t.calls ≡ (if s.is_scramble then 1 else 0) + destroyed s.calls)
        × (t.is_scramble ≡ false)
        × (t.prog_tbl ≡ none)
  unfolding dvbplay_stop
  stop_counts avplay s = ground arith

  -- The state after a play with a key has descrambled and started the program at index `j`.
  abbrev pub keyed_play : ℕ → Bytes → ℕ → ℕ → Dvb → ℤ × Dvb
  keyed_play avplay cas_key table j s =
      call board (Call.avplay_play_prog avplay table j) (descramble board avplay cas_key s).1

  keyed_play_counts :
      (avplay table j : ℕ) (cas_key : Bytes) (s : Dvb)
      → let t = (keyed_play avplay cas_key table j s).1 in
        (created t.calls
          ≡ (if is_zero (board.code s.calls Call.dmx_create_descrambler) then 1 else 0)
            + created s.calls)
        × (destroyed t.calls ≡ destroyed s.calls)
        × (t.is_scramble ≡ true)
  keyed_play_counts avplay table j cas_key s = ground (arith, descramble_counts avplay cas_key s)

  -- Playing with a key a program that the held table has, then stopping, destroys one descrambler and
  -- resets the scramble flag, while the SDK has created one only if its creation call succeeded: the
  -- two are unequal when it failed.
  pub play-stop_descrambler :
      (avplay pnid j : ℕ) (cas_key : Bytes) (tbl : ProgTbl) (s : Dvb)
      → s.prog_tbl ≡ some tbl
      → FirstAt pnid tbl.prog_ids j
      → let t = (keyed_play avplay cas_key tbl.id j s).1 in
        let u = (dvbplay_stop board avplay t).1 in
        (dvbplay board avplay pnid (some cas_key) s ≡ some (keyed_play avplay cas_key tbl.id j s))
        × (u.is_scramble ≡ false)
        × (destroyed u.calls ≡ suc (destroyed s.calls))
        × (created u.calls
            ≡ (if is_zero (board.code s.calls Call.dmx_create_descrambler) then 1 else 0)
              + created s.calls)
  unfolding dvbplay descramble_if
  play-stop_descrambler avplay pnid j cas_key tbl s kept first =
      let counts = keyed_play_counts avplay tbl.id j cas_key s in
      let after = stop_counts avplay (keyed_play avplay cas_key tbl.id j s).1 in
      (
        rw (kept, play_table) (ground (arith, FirstAt-find_prog pnid 0 j tbl.prog_ids first)),
        ground arith,
        ground arith,
        ground arith,
      )
