-- ===== src/Settings/Tests.antt =====
-- Settings in an association list.
use snmediaplayer_new.Common.{
  ◌*◌, ◌/◌, ◌≡◌, refl, true, Option, none, some, List, [], ◌∷◌, if◌then◌else◌, arith,
}
use snmediaplayer_new.Common.Int.{pos}
use snmediaplayer_new.Common.Text.{Bytes, str_eq}
use snmediaplayer_new.Settings.{Store, IsStore, Facade, get_volume, set_volume}
use snmediaplayer_new.Settings.RoundTrip.{get_volume-set_volume}
use snmediaplayer_new.Player.Tests.{world, player}
use snmediaplayer_new.Settings.Loudness.{Loud, NextRound, set_volume-Loud}

abbrev lookup : List (Bytes × Bytes) → Bytes → Option Bytes
lookup [] name = none
lookup ((key, value) ∷ rest) name = if str_eq key name then some value else lookup rest name

abbrev entries : Store (List (Bytes × Bytes))
entries = record { read = lookup; write = λ s name value. (name, value) ∷ s }

str_eq_refl : (s : Bytes) → str_eq s s ≡ true
str_eq_refl [] = refl
str_eq_refl (x ∷ s) = grind (arith, str_eq_refl s)

entries-IsStore : IsStore entries
entries-IsStore = record {
  read_written = λ s name value. rw (str_eq_refl name) refl;
  read_other = λ s name other value d. rw d refl;
}

abbrev facade : Facade (List (Bytes × Bytes))
facade = record { sn_volume = pos 10; sn_muteflag = true; settings = []; player = none }

get_volume-set_volume_example :
    (get_volume entries (set_volume entries world (pos 37) facade)).0 ≡ pos (37 / 2 * 2)
get_volume-set_volume_example = get_volume-set_volume entries entries-IsStore world 37 facade

set_volume-Loud_example :
    NextRound world 1
      (Loud 37 player)
      (set_volume entries world
        (pos 37)
        (record facade { player = some (record player { queue = [] }) })).player
set_volume-Loud_example =
    set_volume-Loud entries world 1 37 facade player (omega arith) (omega arith)
