-- ===== src/Mediaplayer.antt =====
-- class SNmediaplayer: the object that the browser calls, and the two instances of players that all
-- objects share. The class of the instances is an interface, `Native`.
pub mod Channels
pub mod Operations
pub mod Stream
pub mod Tests
use snmediaplayer_new.Common.{
  ℕ, zero, suc, ◌+◌, Bool, true, false, ◌&&◌, Option, none, some, List, [], ◌∷◌, if◌then◌else◌, ltb,
}
use snmediaplayer_new.Common.Int.{ℤ, pos, negsuc, is_zero}
use snmediaplayer_new.Common.Text.{Bytes}

-- The attributes with a setter of the same form.
pub data Flag : Type 0 where
  native_ui_flag mute_ui_flag audio_volume_ui_flag audio_track_ui_flag : Flag
  progress_bar_ui_flag channel_no_ui_flag subtitile_flag video_alpha : Flag
  allow_trickmode_flag cycle_flag random_flag pip_video_mode : Flag

-- The methods that only ask the instance, with their speeds.
pub data Control : Type 0 where
  pause resume goto_end goto_start : Control
  fast_forward fast_rewind : ℤ → Control
  switch_audio_channel switch_audio_track switch_subtitle : Control

pub record PlayerRect : Type 0 where
  pub x : ℤ
  pub y : ℤ
  pub width : ℤ
  pub height : ℤ

-- The attributes that a new player is given.
pub record Attributes : Type 0 where
  pub sn_native_ui_flag : ℤ
  pub sn_mute_ui_flag : ℤ
  pub sn_audio_volume_ui_flag : ℤ
  pub sn_audio_track_ui_flag : ℤ
  pub sn_progress_bar_ui_flag : ℤ
  pub sn_channel_no_ui_flag : ℤ
  pub sn_subtitile_flag : ℤ
  pub sn_video_alpha : ℤ
  pub sn_allow_trickmode_flag : ℤ
  pub sn_cycle_flag : ℤ
  pub sn_random_flag : ℤ
  pub sn_pipmode : ℤ
  pub sn_video_display_mode : ℤ
  pub sn_video_displayrect : PlayerRect
  pub sn_muteflag : ℤ
  pub sn_playlist_flag : ℤ
  pub sn_auto_del_flag : ℤ
  pub sn_json_str : Bytes

-- The methods of RealizeSNmediaplayer that the object calls; `none` is undefined behaviour.
pub record Native (A : Type 0) : Type 0 where
  pub create : ℕ → Attributes → Option A
  pub delete : A → Option (Unit {0})
  pub join_channel : ℤ → Bytes → A → Option (ℤ × A)
  pub leave_channel : A → Option (ℤ × A)
  pub set_single_media : Bytes → A → Option (ℤ × A)
  pub play_from_start : A → Option (ℤ × A)
  pub play_by_time : ℤ → ℤ → ℤ → A → Option (ℤ × A)
  pub stop : A → Option (ℤ × A)
  pub control : Control → A → Option (ℤ × A)
  pub refresh_video_display : A → Option (ℤ × A)
  pub set_video_display_mode : ℤ → A → A
  pub set_video_display_area : PlayerRect → A → A
  pub set_flag : Flag → ℤ → A → A

-- `sn_real_mediaplayer`.
pub record Slots (A : Type 0) : Type 0 where
  pub first : Option A
  pub second : Option A

-- The object and the static members; `created` and `deleted` count the players that were made with
-- `new` and given to `delete`.
pub record Mediaplayer (A : Type 0) : Type 0 where
  pub sn_instanceid : ℕ
  pub attributes : Attributes
  pub slots : Slots A
  pub sn_channel_list : List Bytes
  pub userchannelid_list : List ℤ
  pub created : ℕ
  pub deleted : ℕ

abbrev pub M : Type 0 → Type 0 → Type 0
M A B = Mediaplayer A → Option (B × Mediaplayer A)

abbrev pub is_some : {B : Type 0} → Option B → Bool
is_some none = false
is_some (some _) = true

unfoldable pub get_native_player_instance_id_by_type : ℕ → ℕ
get_native_player_instance_id_by_type (suc (suc zero)) = 1
get_native_player_instance_id_by_type _ = 0

abbrev pub store : Flag → ℤ → Attributes → Attributes
store native_ui_flag v a = record a { sn_native_ui_flag = v }
store mute_ui_flag v a = record a { sn_mute_ui_flag = v }
store audio_volume_ui_flag v a = record a { sn_audio_volume_ui_flag = v }
store audio_track_ui_flag v a = record a { sn_audio_track_ui_flag = v }
store progress_bar_ui_flag v a = record a { sn_progress_bar_ui_flag = v }
store channel_no_ui_flag v a = record a { sn_channel_no_ui_flag = v }
store subtitile_flag v a = record a { sn_subtitile_flag = v }
store video_alpha v a = record a { sn_video_alpha = v }
store allow_trickmode_flag v a = record a { sn_allow_trickmode_flag = v }
store cycle_flag v a = record a { sn_cycle_flag = v }
store random_flag v a = record a { sn_random_flag = v }
store pip_video_mode v a = record a { sn_pipmode = v }

-- The arguments of `initMediaPlayer` behind the instance.
abbrev pub initialised :
    (playlist mode : ℤ)
    → PlayerRect
    → (mute native_ui subtitle alpha cycle random auto_del : ℤ) → Attributes
    → Attributes
initialised playlist mode rect mute native_ui subtitle alpha cycle random auto_del a = record a {
  sn_playlist_flag = playlist;
  sn_video_display_mode = mode;
  sn_video_displayrect = rect;
  sn_muteflag = mute;
  sn_native_ui_flag = native_ui;
  sn_subtitile_flag = subtitle;
  sn_video_alpha = alpha;
  sn_cycle_flag = cycle;
  sn_random_flag = random;
  sn_auto_del_flag = auto_del;
}

-- The attributes of a new object; `sn_pipmode` is not set, and `sn_muteflag` is what `ifmute` returns.
abbrev pub default_attributes : (mute pipmode : ℤ) → Attributes
default_attributes mute pipmode = record {
  sn_native_ui_flag = pos 1;
  sn_mute_ui_flag = pos 1;
  sn_audio_volume_ui_flag = pos 1;
  sn_audio_track_ui_flag = pos 1;
  sn_progress_bar_ui_flag = pos 1;
  sn_channel_no_ui_flag = pos 1;
  sn_subtitile_flag = pos 0;
  sn_video_alpha = pos 0;
  sn_allow_trickmode_flag = pos 1;
  sn_cycle_flag = pos 0;
  sn_random_flag = pos 0;
  sn_pipmode = pipmode;
  sn_video_display_mode = pos 0;
  sn_video_displayrect = record { x = pos 0; y = pos 0; width = pos 1280; height = pos 720 };
  sn_muteflag = mute;
  sn_playlist_flag = pos 0;
  sn_auto_del_flag = pos 0;
  sn_json_str = [];
}

module _ {A : Type 0} where
  -- `sn_real_mediaplayer[i]`; `none` outside the array.
  abbrev pub slot_at : ℕ → Slots A → Option (Option A)
  slot_at zero s = some s.first
  slot_at (suc zero) s = some s.second
  slot_at (suc (suc i)) s = none

  abbrev pub set_slot : ℕ → Option A → Slots A → Slots A
  set_slot zero v s = record s { first = v }
  set_slot (suc i) v s = record s { second = v }

  -- The instance that the constructor takes.
  unfoldable pub choose_instance : Slots A → ℕ
  choose_instance s =
      if is_some s.first && is_some s.second then 0 else if is_some s.first then 1 else 0

  unfoldable pub bind_native_player_instance : ℕ → M A ℤ
  bind_native_player_instance i m =
      if ltb i 2 then some (pos 0, record m { sn_instanceid = i }) else some (negsuc 0, m)

  -- The constructor, in front of the static members that are there.
  unfoldable pub new_mediaplayer : (mute pipmode : ℤ) → Mediaplayer A → Mediaplayer A
  new_mediaplayer mute pipmode m = record m {
    sn_instanceid = choose_instance m.slots;
    attributes = default_attributes mute pipmode;
  }

  -- The instance is not looked at.
  unfoldable pub init_media_player :
      ℕ
      → (playlist mode : ℤ) → PlayerRect
      → (mute native_ui subtitle alpha cycle random auto_del : ℤ) → M A ℤ
  init_media_player i playlist mode rect mute native_ui subtitle alpha cycle random auto_del m =
      some (
        pos 0,
        record m {
          sn_instanceid = i;
          attributes =
              initialised playlist mode rect mute native_ui subtitle alpha cycle random auto_del
                m.attributes;
        },
      )

  module _ (native : Native A) where
    -- `delete` of what the slot holds, and the slot is emptied.
    unfoldable pub delete_slot : ℕ → Option A → M A ℤ
    delete_slot i none m = some (pos 0, record m { slots = set_slot i none m.slots })
    delete_slot i (some a) m = elim (native.delete a) [
      | none ↦ none
      | some _ ↦ some (pos 0, record m { slots = set_slot i none m.slots; deleted = m.deleted + 1 })
    ]

    unfoldable pub release_slot : ℕ → M A ℤ
    release_slot i m = elim (slot_at i m.slots) [ none ↦ none | some v ↦ delete_slot i v m ]

    unfoldable pub release_media_player : ℕ → M A ℤ
    release_media_player i m = release_slot i m

    -- The argument is not looked at.
    unfoldable pub release_native_player : ℕ → M A ℤ
    release_native_player i m = release_slot m.sn_instanceid m

    -- A method of the instance, which must be there.
    abbrev pub with_result : ℕ → Mediaplayer A → Option (ℤ × A) → Option (ℤ × Mediaplayer A)
    with_result i m none = none
    with_result i m (some (ret, a)) = some (ret, record m { slots = set_slot i (some a) m.slots })

    unfoldable pub call_if : (A → Option (ℤ × A)) → ℤ → Option A → M A ℤ
    call_if f code none m = some (code, m)
    call_if f code (some a) m = with_result m.sn_instanceid m (f a)

    -- `if(!sn_real_mediaplayer[sn_instanceid]) return code; return …->method(…);`
    unfoldable pub if_there : (A → Option (ℤ × A)) → ℤ → M A ℤ
    if_there f code m = elim (slot_at m.sn_instanceid m.slots) [
      | none ↦ none
      | some v ↦ call_if f code v m
    ]

    -- `if(!sn_real_mediaplayer[sn_instanceid]) … = new StreamMediaPlayer(…);` and the method.
    unfoldable pub call_new : (A → Option (ℤ × A)) → Option A → M A ℤ
    call_new f (some a) m = with_result m.sn_instanceid m (f a)
    call_new f none m = elim (native.create m.sn_instanceid m.attributes) [
      | none ↦ none
      | some a ↦ with_result m.sn_instanceid (record m { created = m.created + 1 }) (f a)
    ]

    unfoldable pub ensured : (A → Option (ℤ × A)) → M A ℤ
    ensured f m = elim (slot_at m.sn_instanceid m.slots) [ none ↦ none | some v ↦ call_new f v m ]

    -- The result of the method is dropped for 0.
    abbrev pub dropped : Option (ℤ × A) → Option (ℤ × A)
    dropped none = none
    dropped (some (_, a)) = some (pos 0, a)

    unfoldable pub leave_channel : M A ℤ
    leave_channel m = if_there (λ a. dropped (native.leave_channel a)) (pos 0) m

    unfoldable pub stop : M A ℤ
    stop m = if_there (λ a. dropped (native.stop a)) (pos 0) m

    -- Without an instance, -1.
    unfoldable pub control : Control → M A ℤ
    control c m = if_there (native.control c) (negsuc 0) m

    unfoldable pub refresh_video_display : M A ℤ
    refresh_video_display m = if_there native.refresh_video_display (pos 0) m

    unfoldable pub set_single_media : Bytes → M A ℤ
    set_single_media json m =
        ensured (native.set_single_media json)
          (record m { attributes = record m.attributes { sn_json_str = json } })

    unfoldable pub play_from_start : M A ℤ
    play_from_start m = ensured native.play_from_start m

    unfoldable pub play_by_time : ℤ → ℤ → ℤ → M A ℤ
    play_by_time type timestamp speed m = ensured (native.play_by_time type timestamp speed) m

    abbrev pub both : (A → A) → (Attributes → Attributes) → M A ℤ
    both f change m =
        if_there (λ a. some (pos 0, f a)) (pos 0) (record m { attributes = change m.attributes })

    unfoldable pub set_video_display_mode : ℤ → M A ℤ
    set_video_display_mode v m =
        both (native.set_video_display_mode v) (λ a. record a { sn_video_display_mode = v }) m

    unfoldable pub set_video_display_area : PlayerRect → M A ℤ
    set_video_display_area r m =
        both (native.set_video_display_area r) (λ a. record a { sn_video_displayrect = r }) m

    unfoldable pub set_flag : Flag → ℤ → M A ℤ
    set_flag flag v m = both (native.set_flag flag v) (store flag v) m
