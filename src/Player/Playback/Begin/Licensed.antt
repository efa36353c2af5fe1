-- ===== src/Player/Playback/Begin/Licensed.antt =====
-- What the licence of a film and the start of the decoder leave alone.
use snmediaplayer_new.Common.{ℕ, ◌≡◌, Option, none, some, arith}
use snmediaplayer_new.Common.Int.{ℤ}
use snmediaplayer_new.Common.Text.{Bytes}
use snmediaplayer_new.Tsplayer.State.{ProgTbl, Dvb}
use snmediaplayer_new.Tsplayer.Play.{dvbplay, play_table, descramble_if, descramble}
use snmediaplayer_new.Player.State.{Player, World}
use snmediaplayer_new.Player.After.{Gives}
use snmediaplayer_new.Player.License.{
  parse_cw_from_license, after_open, write_file, after_write, after_preprocess, film_key,
}
use snmediaplayer_new.Player.Playback.Begin.{Connects}

-- Only the log of the DRM calls differs.
abbrev pub Licensed : Player → {A : Type 0} → A → Player → Type 0
Licensed p a q = Connects p q × (q.cur_freq ≡ p.cur_freq) × (q.dvb ≡ p.dvb)

-- The program table is the one that was held.
abbrev pub DvbHolds : Dvb → Option (ℤ × Dvb) → Type 0
DvbHolds s none = Unit
DvbHolds s (some (r, t)) = t.prog_tbl ≡ s.prog_tbl

module _ (world : World) where
  film_key-Licensed :
      (info : ℤ × Bytes) (key : Bytes) (p : Player) → Gives (Licensed p) (film_key world info key p)
  unfolding film_key
  film_key-Licensed info key p = ground arith

  preprocess-Licensed :
      (r : ℤ) (key : Bytes) (p : Player) → Gives (Licensed p) (after_preprocess world r key p)
  unfolding after_preprocess
  preprocess-Licensed r key p = grind (arith, film_key-Licensed)

  after_write-Licensed :
      (r : ℤ) (key : Bytes) (p : Player) → Gives (Licensed p) (after_write world r key p)
  unfolding after_write
  after_write-Licensed r key p = grind (arith, preprocess-Licensed)

  write_file-Licensed :
      (hex : Option Bytes) (key : Bytes) (p : Player)
      → Gives (Licensed p) (write_file world hex key p)
  unfolding write_file
  write_file-Licensed hex key p = grind (arith, after_write-Licensed)

  after_open-Licensed :
      (r : ℤ) (l key : Bytes) (p : Player) → Gives (Licensed p) (after_open world r l key p)
  unfolding after_open
  after_open-Licensed r l key p = grind (arith, write_file-Licensed)

  pub parse_cw-Licensed :
      (l key : Bytes) (p : Player) → Gives (Licensed p) (parse_cw_from_license world l key p)
  unfolding parse_cw_from_license
  parse_cw-Licensed l key p = grind (arith, after_open-Licensed)

  play_table-Held :
      (avplay n : ℕ) (key : Option Bytes) (t : Option ProgTbl) (s : Dvb)
      → DvbHolds s (play_table world.board avplay n key t s)
  unfolding play_table descramble_if descramble
  play_table-Held avplay n key t s = ground arith

  pub play-Held :
      (avplay n : ℕ) (key : Option Bytes) (s : Dvb)
      → DvbHolds s (dvbplay world.board avplay n key s)
  unfolding dvbplay
  play-Held avplay n key s = play_table-Held avplay n key s.prog_tbl s
