-- ===== src/Mediaplayer/Channels.antt =====
-- The list of channels: `registerChannelInfo`, `registerChannel` and `joinChannel`.
pub mod Lookup
use snmediaplayer_new.Common.{
  ℕ, zero, suc, ◌+◌, ◌-◌, Bool, true, false, ◌&&◌, Option, none, some, List, [], ◌∷◌, ◌++◌,
  if◌then◌else◌, ◌==◌,
}
use snmediaplayer_new.Common.Int.{ℤ, pos, negsuc, int_eq}
use snmediaplayer_new.Common.Text.{Bytes, codes, str_eq}
use snmediaplayer_new.Common.Decimal.{atoi}
use snmediaplayer_new.Player.Json.{npos, find, substr}
use snmediaplayer_new.Mediaplayer.{Native, Mediaplayer, M, ensured}

-- The number from one position to another, or 0; `none` would be an exception of `substr`.
unfoldable pub id_between : Bytes → ℕ → ℕ → Option ℤ
id_between info start end =
    if end == npos
    then some (pos 0)
    else elim (substr info start (end - start)) [ none ↦ none | some text ↦ some (atoi text) ]

-- The number in `UserChannelID="…"`, or 0.
unfoldable pub user_channel_id : Bytes → Option ℤ
user_channel_id info =
    let at = find info (codes "UserChannelID=\"") 0 in
    if at == npos
    then some (pos 0)
    else id_between info (at + 15) (find info (codes "\"") (at + 15))

-- The loop of `joinChannel`: the first channel with the id, or `none` if there is none. The outer
-- `none` is an exception of `at`.
unfoldable pub find_channel : List Bytes → List ℤ → ℤ → Option (Option Bytes)
find_channel [] ids id = some none
find_channel (c ∷ cs) [] id = none
find_channel (c ∷ cs) (k ∷ ks) id =
    let rest = find_channel cs ks id in if int_eq k id then some (some c) else rest

module _ {A : Type 0} where
  unfoldable pub push_channel : Bytes → Option ℤ → M A ℤ
  push_channel info none m = none
  push_channel info (some id) m = some (
    pos 0,
    record m {
      sn_channel_list = m.sn_channel_list ++ (info ∷ []);
      userchannelid_list = m.userchannelid_list ++ (id ∷ []);
    },
  )

  unfoldable pub register_channel : Bytes → M A ℤ
  register_channel info m = push_channel info (user_channel_id info) m

  unfoldable pub register_channel_info : Bytes → Bytes → M A ℤ
  register_channel_info name value m =
      if str_eq name (codes "Channel")
      then register_channel value m
      else if str_eq name (codes "Channel_Init")
      then some (pos 0, record m { sn_channel_list = []; userchannelid_list = [] })
      else some (pos 0, m)

  module _ (native : Native A) where
    unfoldable pub join_found : ℤ → Option (Option Bytes) → M A ℤ
    join_found id none m = none
    join_found id (some none) m = some (negsuc 0, m)
    join_found id (some (some info)) m = ensured native (native.join_channel id info) m

    unfoldable pub join_channel : ℤ → M A ℤ
    join_channel id m = join_found id (find_channel m.sn_channel_list m.userchannelid_list id) m
