-- ===== src/Player/Pts.antt =====
-- The position in a film: `update_play_pts` and `getCurrentPlayTime`, on unsigned integers of 32 bits.
pub mod Steps
use snmediaplayer_new.Common.{
  ℕ, ◌+◌, ◌-◌, ◌/◌, ◌%◌, Bool, not, ◌&&◌, ◌||◌, Option, none, some, if◌then◌else◌, leb, ◌==◌,
}
use snmediaplayer_new.Player.State.{Player, World, M}

abbrev pub pts_max_offset : ℕ
pts_max_offset = 300000

-- `~0` as an unsigned int.
abbrev pub no_pts : ℕ
no_pts = 4294967295

-- `a - b`.
abbrev pub sub32 : ℕ → ℕ → ℕ
sub32 a b = (a + 4294967296 - b) % 4294967296

-- The test of a new last PTS against the one before.
abbrev pub is_near : ℕ → ℕ → Bool
is_near last old = leb (sub32 last old) pts_max_offset || leb (sub32 old last) pts_max_offset

-- What is done with the first and the last PTS of the decoder; `none` if it has no status.
unfoldable pub take_pts : Option (ℕ × ℕ) → Player → Player
take_pts none p = p
take_pts (some (first, last)) p =
    if first == no_pts
    then p
    else if p.play_first_pts == no_pts && not (first == 0)
    then record p { play_first_pts = first; play_last_pts = last }
    else if is_near last p.play_last_pts
    then record p { play_last_pts = last }
    else p

unfoldable pub update_play_pts : World → M (Unit {0})
update_play_pts world p = some (
  tt,
  take_pts (world.status_info p.status_infos) (record p { status_infos = p.status_infos + 1 }),
)

unfoldable pub get_current_play_time : Player → ℕ
get_current_play_time p =
    if p.play_first_pts == no_pts then 0 else sub32 p.play_last_pts p.play_first_pts / 1000
