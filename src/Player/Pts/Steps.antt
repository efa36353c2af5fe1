-- ===== src/Player/Pts/Steps.antt =====
-- How far one update moves the position.
use snmediaplayer_new.Common.{
  ℕ, ◌+◌, ◌-◌, ◌≤◌, ◌<◌, ◌≡◌, ◌≢◌, refl, ap, false, Option, none, some, if◌then◌else◌, leb, ◌==◌,
  arith,
}
use snmediaplayer_new.Player.State.{Player, World}
use snmediaplayer_new.Player.Pts.{
  pts_max_offset, no_pts, is_near, take_pts, update_play_pts, get_current_play_time,
}

-- The distance of two positions on the circle of the 32-bit numbers.
abbrev pub circle : ℕ → ℕ → ℕ
circle a b =
    let d = if leb a b then b - a else a - b in if leb d (4294967296 - d) then d else 4294967296 - d

abbrev pub Is32 : Option (ℕ × ℕ) → Type 0
Is32 none = Unit
Is32 (some (first, last)) = (first < 4294967296) × (last < 4294967296)

-- The position after a status of the decoder: a last PTS within 300000 of the position replaces it.
abbrev pub follow : Option (ℕ × ℕ) → ℕ → ℕ
follow none old = old
follow (some (first, last)) old =
    if first == no_pts then old else if leb (circle last old) pts_max_offset then last else old

near-circle :
    (a b : ℕ) → a < 4294967296 → b < 4294967296 → is_near a b ≡ leb (circle a b) pts_max_offset
near-circle a b h k = ground arith

unset : (a : ℕ) → a ≢ no_pts → (a == no_pts) ≡ false
unset a n = ground arith

take_pts-follow :
    (info : Option (ℕ × ℕ)) (p : Player)
    → Is32 info
    → p.play_first_pts ≢ no_pts
    → p.play_last_pts < 4294967296
    → take_pts info p ≡ record p { play_last_pts = follow info p.play_last_pts }
unfolding take_pts
take_pts-follow none p i n l = refl
take_pts-follow (some (first, last)) p i n l =
    rw (unset p.play_first_pts n, near-circle last p.play_last_pts i.1 l) (ground arith)

follow-near :
    (info : Option (ℕ × ℕ)) (old : ℕ)
    → Is32 info
    → old < 4294967296
    → (follow info old < 4294967296) × (circle (follow info old) old ≤ pts_max_offset)
follow-near info old i l = ground arith

get_current_play_time-le : (p : Player) → get_current_play_time p ≤ 4294967
unfolding get_current_play_time
get_current_play_time-le p = ground arith

-- Once the first PTS of a film is known, an update follows the decoder's last PTS exactly if the two
-- are at most 300000 apart on the circle of the 32-bit numbers, and else, or without a valid status,
-- keeps the position; so the position moves by at most 300000, and the time reported from it stays
-- within 4294967 seconds.
pub update_play_pts-follow :
    (world : World) (p : Player)
    → Is32 (world.status_info p.status_infos)
    → p.play_first_pts ≢ no_pts
    → p.play_last_pts < 4294967296
    → let q = record p {
      status_infos = p.status_infos + 1;
      play_last_pts = follow (world.status_info p.status_infos) p.play_last_pts;
    } in
      (update_play_pts world p ≡ some (tt, q))
      × (circle q.play_last_pts p.play_last_pts ≤ pts_max_offset)
      × (get_current_play_time q ≤ 4294967)
unfolding update_play_pts
update_play_pts-follow world p i n l = (
  ap (λ q. some (tt, q))
      (take_pts-follow (world.status_info p.status_infos)
        (record p { status_infos = p.status_infos + 1 }) i n l),
  (follow-near (world.status_info p.status_infos) p.play_last_pts i l).1,
  get_current_play_time-le _,
)
