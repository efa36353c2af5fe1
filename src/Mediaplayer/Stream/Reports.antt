-- ===== src/Mediaplayer/Stream/Reports.antt =====
-- The getters of SNmediaplayer: those of the attributes, and those that ask the bound instance.
use snmediaplayer_new.Common.{ℕ, zero, suc, ◌≡◌, refl, ap, Option, none, some, arith, ◌+◌}
use snmediaplayer_new.Common.Int.{ℤ, negsuc}
use snmediaplayer_new.Common.Text.{Bytes}
use snmediaplayer_new.Player.State.{PlayState, preinit, Player, World}
use snmediaplayer_new.Player.After.{Gives}
use snmediaplayer_new.Player.Lifetime.{Startup}
use snmediaplayer_new.Player.Methods
use snmediaplayer_new.Player.Methods.Joined.{join_channel-channel}
use snmediaplayer_new.Player.Mode.{get_playback_mode}
use snmediaplayer_new.Player.Pts.{no_pts, get_current_play_time}
use snmediaplayer_new.Mediaplayer.{
  Flag, native_ui_flag, mute_ui_flag, audio_volume_ui_flag, audio_track_ui_flag,
  progress_bar_ui_flag, channel_no_ui_flag, subtitile_flag, video_alpha, allow_trickmode_flag,
  cycle_flag, random_flag, pip_video_mode, PlayerRect, Attributes, Native, Slots, Mediaplayer,
  slot_at, set_slot, store, call_if, if_there, with_result, call_new, ensured, set_flag,
}
use snmediaplayer_new.Mediaplayer.Channels.{find_channel, join_found, join_channel}
use snmediaplayer_new.Mediaplayer.Stream
use snmediaplayer_new.Mediaplayer.Stream.{StreamPlayer, with_player, stream_media_player}

-- The getter of the attribute.
unfoldable pub get_flag : Flag → Attributes → ℤ
get_flag native_ui_flag a = a.sn_native_ui_flag
get_flag mute_ui_flag a = a.sn_mute_ui_flag
get_flag audio_volume_ui_flag a = a.sn_audio_volume_ui_flag
get_flag audio_track_ui_flag a = a.sn_audio_track_ui_flag
get_flag progress_bar_ui_flag a = a.sn_progress_bar_ui_flag
get_flag channel_no_ui_flag a = a.sn_channel_no_ui_flag
get_flag subtitile_flag a = a.sn_subtitile_flag
get_flag video_alpha a = a.sn_video_alpha
get_flag allow_trickmode_flag a = a.sn_allow_trickmode_flag
get_flag cycle_flag a = a.sn_cycle_flag
get_flag random_flag a = a.sn_random_flag
get_flag pip_video_mode a = a.sn_pipmode

-- `if(!sn_real_mediaplayer[sn_instanceid]) return …; return …->…();`; `none` outside the array.
abbrev asked : {B : Type 0} → (Player → B) → B → Option (Option StreamPlayer) → Option B
asked f code none = none
asked f code (some none) = some code
asked f code (some (some s)) = some (f s.player)

unfoldable pub get_play_state : Mediaplayer StreamPlayer → Option PlayState
get_play_state m = asked (λ p. p.playerstate) preinit (slot_at m.sn_instanceid m.slots)

-- -1 is an unsigned long of 32 bits.
unfoldable pub current_play_time : Mediaplayer StreamPlayer → Option ℕ
current_play_time m = asked get_current_play_time no_pts (slot_at m.sn_instanceid m.slots)

-- `none` inside is NULL.
unfoldable pub playback_mode : Mediaplayer StreamPlayer → Option (Option Bytes)
playback_mode m = asked (λ p. some (get_playback_mode p)) none (slot_at m.sn_instanceid m.slots)

unfoldable pub get_channel_num : Mediaplayer StreamPlayer → Option ℤ
get_channel_num m = asked (λ p. p.channel) (negsuc 0) (slot_at m.sn_instanceid m.slots)

stored : (f : Flag) (v : ℤ) (a : Attributes) → get_flag f (store f v a) ≡ v
unfolding get_flag
stored native_ui_flag v a = refl
stored mute_ui_flag v a = refl
stored audio_volume_ui_flag v a = refl
stored audio_track_ui_flag v a = refl
stored progress_bar_ui_flag v a = refl
stored channel_no_ui_flag v a = refl
stored subtitile_flag v a = refl
stored video_alpha v a = refl
stored allow_trickmode_flag v a = refl
stored cycle_flag v a = refl
stored random_flag v a = refl
stored pip_video_mode v a = refl

-- Nothing else is changed: the old value brings back the old attributes.
restored : (f : Flag) (v : ℤ) (a : Attributes) → store f (get_flag f a) (store f v a) ≡ a
unfolding get_flag
restored native_ui_flag v a = refl
restored mute_ui_flag v a = refl
restored audio_volume_ui_flag v a = refl
restored audio_track_ui_flag v a = refl
restored progress_bar_ui_flag v a = refl
restored channel_no_ui_flag v a = refl
restored subtitile_flag v a = refl
restored video_alpha v a = refl
restored allow_trickmode_flag v a = refl
restored cycle_flag v a = refl
restored random_flag v a = refl
restored pip_video_mode v a = refl

-- If the call is defined, the object behind it is such.
abbrev pub Leaves :
    (ℤ → Mediaplayer StreamPlayer → Type 0) → Option (ℤ × Mediaplayer StreamPlayer) → Type 0
Leaves P none = Unit
Leaves P (some (r, q)) = P r q

-- The call is defined, and the object behind it is such.
abbrev Does :
    (ℤ → Mediaplayer StreamPlayer → Type 0) → Option (ℤ × Mediaplayer StreamPlayer) → Type 0
Does P none = ⊥
Does P (some (r, q)) = P r q

-- The number that is reported behind the search in the list.
abbrev reported : ℤ → Option (Option Bytes) → Option ℤ → Option ℤ
reported id (some (some info)) before = some id
reported id _ before = before

kept_slot :
    (i : ℕ) (s : StreamPlayer) (o : Option StreamPlayer) (t : Slots StreamPlayer)
    → slot_at i t ≡ some o
    → slot_at i (set_slot i (some s) t) ≡ some (some s)
kept_slot zero s o t e = refl
kept_slot (suc zero) s o t e = refl
kept_slot (suc (suc i)) s o t e = absurd (ground arith)

module _ (set_player_window : PlayerRect → Player → Player) (world : World)
    (between : Player → Player) (during : ℕ → Player → Player) (thread : Player → Option Player)
    (startup : Startup) (blank : StreamPlayer) where
  abbrev native : Native StreamPlayer
  native = stream_media_player set_player_window world between during thread startup blank

  -- Behind a join that has found the channel.
  abbrev Numbered : ℤ → ℤ → Mediaplayer StreamPlayer → Type 0
  Numbered id r q = get_channel_num q ≡ some id

  put-Numbered :
      (id : ℤ) (o : Option StreamPlayer) (m : Mediaplayer StreamPlayer) (r : ℤ) (s : StreamPlayer)
      → slot_at m.sn_instanceid m.slots ≡ some o
      → s.player.channel ≡ id
      → Numbered id r (record m { slots = set_slot m.sn_instanceid (some s) m.slots })
  unfolding get_channel_num
  put-Numbered id o m r s e c = rw (kept_slot m.sn_instanceid s o m.slots e) (ap some c)

  result-Numbered :
      (id : ℤ) (info : Bytes) (o : Option StreamPlayer) (m : Mediaplayer StreamPlayer)
      (s : StreamPlayer)
      → slot_at m.sn_instanceid m.slots ≡ some o
      → Leaves (Numbered id) (with_result native m.sn_instanceid m (native.join_channel id info s))
  result-Numbered id info o m s e =
      by_case (Methods.join_channel world id info s.player)
        (join_channel-channel world id info s.player)
    where
      by_case :
          (j : Option (ℤ × Player))
          → Gives (λ _ q. q.channel ≡ id) j
          → Leaves (Numbered id) (
              with_result native m.sn_instanceid m
                (with_player set_player_window world between during thread startup blank s j))
      by_case none h = tt
      by_case (some (r, p)) h = put-Numbered id o m r (record s { player = p }) e h

  call_new-Numbered :
      (id : ℤ) (info : Bytes) (o : Option StreamPlayer) (m : Mediaplayer StreamPlayer)
      → slot_at m.sn_instanceid m.slots ≡ some o
      → Leaves (Numbered id) (call_new native (native.join_channel id info) o m)
  unfolding call_new
  call_new-Numbered id info (some s) m e = result-Numbered id info (some s) m s e
  call_new-Numbered id info none m e = by_case (native.create m.sn_instanceid m.attributes)
    where
      by_case :
          (c : Option StreamPlayer)
          → Leaves (Numbered id) (elim c [
            | none ↦ none
            | some a ↦
                with_result native m.sn_instanceid
                  (record m { created = m.created + 1 })
                  (native.join_channel id info a)
          ])
      by_case none = tt
      by_case (some a) = result-Numbered id info none (record m { created = m.created + 1 }) a e

  ensured-Numbered :
      (id : ℤ) (info : Bytes) (m : Mediaplayer StreamPlayer)
      → Leaves (Numbered id) (ensured native (native.join_channel id info) m)
  unfolding ensured
  ensured-Numbered id info m = by_case (slot_at m.sn_instanceid m.slots) refl
    where
      by_case :
          (o : Option (Option StreamPlayer))
          → slot_at m.sn_instanceid m.slots ≡ o
          → Leaves
              (Numbered id)
              (elim o [ none ↦ none | some v ↦ call_new native (native.join_channel id info) v m ])
      by_case none e = tt
      by_case (some v) e = call_new-Numbered id info v m e

  -- If `joinChannel` is defined, `getChannelNum` behind it reports the number asked for if a channel is
  -- registered under it, also where the join is refused for its text, and also if the instance was only
  -- created for it; with no such channel it reports what it did before.
  pub join_channel-get_channel_num :
      (id : ℤ) (m : Mediaplayer StreamPlayer) (found : Option (Option Bytes))
      → find_channel m.sn_channel_list m.userchannelid_list id ≡ found
      → Leaves
          (λ r q. get_channel_num q ≡ reported id found (get_channel_num m))
          (join_channel native id m)
  unfolding join_channel join_found
  join_channel-get_channel_num id m none e = rw (join_channel, e, join_found) tt
  join_channel-get_channel_num id m (some none) e = rw (join_channel, e, join_found) refl
  join_channel-get_channel_num id m (some (some info)) e =
      rw (join_channel, e, join_found) (ensured-Numbered id info m)

  -- The instance behind the setter of a flag.
  abbrev with_flag : Flag → ℤ → Option StreamPlayer → Option StreamPlayer
  with_flag f v none = none
  with_flag f v (some s) = some (Stream.set_flag f v s)

  -- The flag is stored and nothing else of the object, and the bound instance has taken the call.
  abbrev HasFlag :
      Flag
      → ℤ
      → Option StreamPlayer
      → Mediaplayer StreamPlayer
      → ℤ
      → Mediaplayer StreamPlayer
      → Type 0
  HasFlag f v o m r q =
      (get_flag f q.attributes ≡ v)
      × (store f (get_flag f m.attributes) q.attributes ≡ m.attributes)
      × (slot_at m.sn_instanceid q.slots ≡ some (with_flag f v o))

  -- A setter of a flag is undefined only with an instance outside the array. Otherwise the getter gives
  -- the value behind it, every other attribute is as before, and the bound instance, if there is one,
  -- has taken the same call.
  set_flag-get_flag :
      (f : Flag) (v : ℤ) (m : Mediaplayer StreamPlayer) (o : Option StreamPlayer)
      → slot_at m.sn_instanceid m.slots ≡ some o
      → Does (HasFlag f v o m) (set_flag native f v m)
  unfolding set_flag if_there call_if
  set_flag-get_flag f v m none e =
      rw (set_flag, if_there, e, call_if) (stored f v m.attributes, restored f v m.attributes, e)
  set_flag-get_flag f v m (some s) e =
      rw (set_flag, if_there, e, call_if)
        (
          stored f v m.attributes,
          restored f v m.attributes,
          kept_slot m.sn_instanceid (Stream.set_flag f v s) (some s) m.slots e,
        )
