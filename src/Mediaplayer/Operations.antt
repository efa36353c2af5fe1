-- ===== src/Mediaplayer/Operations.antt =====
-- Sequences of calls of SNmediaplayer.
use snmediaplayer_new.Common.{
  ℕ, zero, suc, ◌+◌, ◌≤◌, ◌<◌, ◌≡◌, ◌≢◌, refl, Bool, true, false, Option, none, some, List, [], ◌∷◌,
  length, length-append, drop, arith,
}
use snmediaplayer_new.Common.Int.{ℤ, pos, negsuc}
use snmediaplayer_new.Common.Text.{Bytes, codes, strstr}
use native.Mathlib.Decide.{dec_lt}
use snmediaplayer_new.Player.Json.{npos, find, substr}
use snmediaplayer_new.Mediaplayer.{
  Flag, Control, PlayerRect, Attributes, Native, Mediaplayer, M, is_some, slot_at, choose_instance,
  new_mediaplayer, bind_native_player_instance, init_media_player, delete_slot, release_slot,
  release_media_player, release_native_player, call_if, dropped, if_there, call_new, ensured,
  leave_channel, stop, control, refresh_video_display, set_single_media, play_from_start,
  play_by_time, set_video_display_mode, set_video_display_area, set_flag,
}
use snmediaplayer_new.Mediaplayer.Channels.{
  id_between, user_channel_id, find_channel, push_channel, register_channel, register_channel_info,
  join_found, join_channel,
}

-- The calls, `new` of another object included.
pub data Operation : Type 0 where
  op_new : (mute pipmode : ℤ) → Operation
  op_bind op_release op_release_native : ℕ → Operation
  op_init :
      ℕ → ℤ → ℤ → PlayerRect → (mute native_ui subtitle alpha cycle random auto_del : ℤ) → Operation
  op_register : Bytes → Operation
  op_register_info : Bytes → Bytes → Operation
  op_join : ℤ → Operation
  op_leave op_stop op_refresh op_play_from_start : Operation
  op_set_single_media : Bytes → Operation
  op_play_by_time : ℤ → ℤ → ℤ → Operation
  op_display_mode : ℤ → Operation
  op_control : Control → Operation
  op_display_area : PlayerRect → Operation
  op_flag : Flag → ℤ → Operation

abbrev HasResult : {B : Type 0} → Option B → Type 0
HasResult none = ⊥
HasResult (some b) = Unit

-- A method of an instance, or its constructor, that is undefined.
pub data Faults {A : Type 0} (native : Native A) : Type 0 where
  creating : (i : ℕ) (v : Attributes) → native.create i v ≡ none → Faults native
  deleting : (a : A) → native.delete a ≡ none → Faults native
  joining : (id : ℤ) (info : Bytes) (a : A) → native.join_channel id info a ≡ none → Faults native
  leaving : (a : A) → native.leave_channel a ≡ none → Faults native
  setting : (json : Bytes) (a : A) → native.set_single_media json a ≡ none → Faults native
  starting : (a : A) → native.play_from_start a ≡ none → Faults native
  playing_at : (t s v : ℤ) (a : A) → native.play_by_time t s v a ≡ none → Faults native
  stopping : (a : A) → native.stop a ≡ none → Faults native
  controlling : (c : Control) (a : A) → native.control c a ≡ none → Faults native
  refreshing : (a : A) → native.refresh_video_display a ≡ none → Faults native

-- The call is defined, or there is the reason `F`.
abbrev OrFault : Type 0 → {B : Type 0} → Option B → Type 0
OrFault F none = F
OrFault F (some b) = Unit

or_fault : {B : Type 0} {F : Type 0} (o : Option B) → (o ≡ none → F) → OrFault F o
or_fault none f = f refl
or_fault (some b) f = tt

abbrev one_if : Bool → ℕ
one_if true = 1
one_if false = 0

module _ {A : Type 0} where
  -- The bound instance is one of the two, each channel has an id, and the players that were created and
  -- not deleted are those of the array.
  abbrev pub IsValid : Mediaplayer A → Type 0
  IsValid m =
      (m.sn_instanceid < 2)
      × (length m.sn_channel_list ≡ length m.userchannelid_list)
      × (m.created ≡ m.deleted + one_if (is_some m.slots.first) + one_if (is_some m.slots.second))

  abbrev pub Ends : {B : Type 0} → (Mediaplayer A → Type 0) → Option (B × Mediaplayer A) → Type 0
  Ends P none = ⊥
  Ends P (some (b, m)) = P m

  -- If the call is defined, the object behind it is such; if not, there is the reason `F`.
  abbrev pub Unless :
      Type 0 → {B : Type 0} → (Mediaplayer A → Type 0) → Option (B × Mediaplayer A) → Type 0
  Unless F P none = F
  Unless F P (some (b, m)) = P m

  module _ (native : Native A) where
    unfoldable pub step : Operation → M A ℤ
    step (op_new mute pipmode) m = some (pos 0, new_mediaplayer mute pipmode m)
    step (op_bind i) m = bind_native_player_instance i m
    step (op_release i) m = release_media_player native i m
    step (op_release_native i) m = release_native_player native i m
    step (op_init i playlist mode rect mute ui subtitle alpha cycle random del) m =
        init_media_player i playlist mode rect mute ui subtitle alpha cycle random del m
    step (op_register info) m = register_channel info m
    step (op_register_info name value) m = register_channel_info name value m
    step (op_join id) m = join_channel native id m
    step op_leave m = leave_channel native m
    step op_stop m = stop native m
    step (op_control c) m = control native c m
    step op_refresh m = refresh_video_display native m
    step op_play_from_start m = play_from_start native m
    step (op_set_single_media json) m = set_single_media native json m
    step (op_play_by_time t s v) m = play_by_time native t s v m
    step (op_display_mode v) m = set_video_display_mode native v m
    step (op_display_area r) m = set_video_display_area native r m
    step (op_flag flag v) m = set_flag native flag v m

    -- The calls in a row; `none` if one of them is undefined.
    unfoldable pub run : List Operation → M A ℤ
    run [] m = some (pos 0, m)
    run (op ∷ ops) m = elim (step op m) [ none ↦ none | some (_, q) ↦ run ops q ]

-- The instance that is passed is one of the array.
abbrev pub InBound : Operation → Type 0
InBound (op_release i) = i < 2
InBound (op_init i _ _ _ _ _ _ _ _ _ _) = i < 2
InBound _ = Unit

abbrev pub InBounds : List Operation → Type 0
InBounds [] = Unit
InBounds (op ∷ ops) = InBound op × InBounds ops

drop_nil : (n : ℕ) (s : Bytes) → length s < n → drop n s ≡ []
drop_nil zero s h = absurd (omega arith)
drop_nil (suc n) [] h = refl
drop_nil (suc n) (c ∷ s) h = drop_nil n s (omega arith)

-- A quotation mark behind the end is not found, so `substr` does not throw.
find_behind :
    (s needle : Bytes) (n : ℕ) → strstr [] needle ≡ none → length s < n → find s needle n ≡ npos
unfolding find
find_behind s needle n e h = rw (find, drop_nil n s h, e) refl

id_between-HasResult :
    (info : Bytes) (start : ℕ) → HasResult (id_between info start (find info (codes "\"") start))
unfolding id_between substr strstr
id_between-HasResult info start = elim (dec_lt (length info) start) [
  | yes h ↦ rw (find_behind info (codes "\"") start refl h) tt
  | no n ↦ ground arith
]

user_channel_id-HasResult : (info : Bytes) → HasResult (user_channel_id info)
unfolding user_channel_id
user_channel_id-HasResult info = grind (arith, id_between-HasResult)

module _ {A : Type 0} (native : Native A) where
  deletes : (a : A) → OrFault (Faults native) (native.delete a)
  deletes a = or_fault (native.delete a) (deleting a)

  creates : (i : ℕ) (v : Attributes) → OrFault (Faults native) (native.create i v)
  creates i v = or_fault (native.create i v) (creating i v)

  dropped_fault :
      (o : Option (ℤ × A)) → OrFault (Faults native) o → OrFault (Faults native) (dropped native o)
  dropped_fault none h = h
  dropped_fault (some r) h = tt

  delete-IsValid :
      (i : ℕ) (m : Mediaplayer A)
      → i < 2
      → IsValid m
      → Unless (Faults native) IsValid (release_slot native i m)
  unfolding release_slot delete_slot
  delete-IsValid i m b v = grind (arith, deletes)

  if_there-IsValid :
      (f : A → Option (ℤ × A)) (code : ℤ) (m : Mediaplayer A)
      → ((a : A) → OrFault (Faults native) (f a))
      → IsValid m
      → Unless (Faults native) IsValid (if_there native f code m)
  unfolding if_there call_if
  if_there-IsValid f code m h v = grind (arith, h)

  ensured-IsValid :
      (f : A → Option (ℤ × A)) (m : Mediaplayer A)
      → ((a : A) → OrFault (Faults native) (f a))
      → IsValid m
      → Unless (Faults native) IsValid (ensured native f m)
  unfolding ensured call_new
  ensured-IsValid f m h v = grind (arith, h, creates)

  register-IsValid :
      (info : Bytes) (m : Mediaplayer A)
      → HasResult (user_channel_id info)
      → IsValid m
      → Unless (Faults native) IsValid (register_channel info m)
  unfolding register_channel push_channel
  register-IsValid info m h v = grind (arith, length-append)

  -- With as many ids as channels, `at` does not throw.
  find_channel-HasResult :
      (cs : List Bytes) (ks : List ℤ) (id : ℤ)
      → length cs ≡ length ks
      → HasResult (find_channel cs ks id)
  unfolding find_channel
  find_channel-HasResult [] ks id e = tt
  find_channel-HasResult (c ∷ cs) [] id e = absurd (omega arith)
  find_channel-HasResult (c ∷ cs) (k ∷ ks) id e =
      grind (arith, find_channel-HasResult cs ks id (omega arith))

  join_found-IsValid :
      (id : ℤ) (found : Option (Option Bytes)) (m : Mediaplayer A)
      → HasResult found
      → IsValid m
      → Unless (Faults native) IsValid (join_found native id found m)
  unfolding join_found
  join_found-IsValid id none m h v = absurd h
  join_found-IsValid id (some none) m h v = v
  join_found-IsValid id (some (some info)) m h v =
      ensured-IsValid (native.join_channel id info) m
        (λ a. or_fault (native.join_channel id info a) (joining id info a)) v

  join-IsValid :
      (id : ℤ) (m : Mediaplayer A)
      → IsValid m
      → Unless (Faults native) IsValid (join_channel native id m)
  unfolding join_channel
  join-IsValid id m v =
      join_found-IsValid id _ m
        (find_channel-HasResult m.sn_channel_list m.userchannelid_list id v.1) v

  register_info-IsValid :
      (name value : Bytes) (m : Mediaplayer A)
      → IsValid m
      → Unless (Faults native) IsValid (register_channel_info name value m)
  unfolding register_channel_info
  register_info-IsValid name value m v = grind (arith, register-IsValid, user_channel_id-HasResult)

  step-IsValid :
      (op : Operation) (m : Mediaplayer A)
      → InBound op
      → IsValid m
      → Unless (Faults native) IsValid (step native op m)
  unfolding step new_mediaplayer choose_instance bind_native_player_instance init_media_player
      release_media_player release_native_player leave_channel stop control refresh_video_display
      play_from_start set_single_media play_by_time set_video_display_mode set_video_display_area
      set_flag
  step-IsValid (op_new mute pipmode) m b v = grind (arith)
  step-IsValid (op_bind i) m b v = grind (arith)
  step-IsValid (op_release i) m b v = delete-IsValid i m b v
  step-IsValid (op_release_native i) m b v = delete-IsValid m.sn_instanceid m v.0 v
  step-IsValid (op_init i _ _ _ _ _ _ _ _ _ _) m b v = (b, v.1, v.2)
  step-IsValid (op_register info) m b v = register-IsValid info m (user_channel_id-HasResult info) v
  step-IsValid (op_register_info name value) m b v = register_info-IsValid name value m v
  step-IsValid (op_join id) m b v = join-IsValid id m v
  step-IsValid op_leave m b v =
      if_there-IsValid _ (pos 0) m
        (λ a.
          dropped_fault (native.leave_channel a) (or_fault (native.leave_channel a) (leaving a)))
        v
  step-IsValid op_stop m b v =
      if_there-IsValid _ (pos 0) m
        (λ a. dropped_fault (native.stop a) (or_fault (native.stop a) (stopping a))) v
  step-IsValid (op_control c) m b v =
      if_there-IsValid _ (negsuc 0) m (λ a. or_fault (native.control c a) (controlling c a)) v
  step-IsValid op_refresh m b v =
      if_there-IsValid _ (pos 0) m (λ a. or_fault (native.refresh_video_display a) (refreshing a)) v
  step-IsValid op_play_from_start m b v =
      ensured-IsValid _ m (λ a. or_fault (native.play_from_start a) (starting a)) v
  step-IsValid (op_set_single_media json) m b v =
      ensured-IsValid _ _ (λ a. or_fault (native.set_single_media json a) (setting json a)) v
  step-IsValid (op_play_by_time t s w) m b v =
      ensured-IsValid _ m (λ a. or_fault (native.play_by_time t s w a) (playing_at t s w a)) v
  step-IsValid (op_display_mode w) m b v = if_there-IsValid _ (pos 0) _ (λ a. tt) v
  step-IsValid (op_display_area r) m b v = if_there-IsValid _ (pos 0) _ (λ a. tt) v
  step-IsValid (op_flag flag w) m b v = if_there-IsValid _ (pos 0) _ (λ a. tt) v

then_run :
    {A : Type 0} (F : Type 0) (o : Option (ℤ × Mediaplayer A))
    (k : Mediaplayer A → Option (ℤ × Mediaplayer A))
    → Unless F IsValid o
    → ((q : Mediaplayer A) → IsValid q → Unless F IsValid (k q))
    → Unless F IsValid
        (elim o as (λ _. Option (ℤ × Mediaplayer A)) [ none ↦ none | some (_, q) ↦ k q ])
then_run F none k h f = h
then_run F (some (r, q)) k h f = f q h

-- If the instances that are passed are instances of the array and the state is valid, a sequence of
-- calls is undefined only because a method of an instance, its constructor or its destructor is;
-- otherwise it leaves a valid state: the bound instance is one of the two, each channel has its id, and
-- as many players were created and not deleted as stand in the array.
pub run-IsValid :
    {A : Type 0} (native : Native A) (ops : List Operation) (m : Mediaplayer A)
    → InBounds ops
    → IsValid m
    → Unless (Faults native) IsValid (run native ops m)
unfolding run
run-IsValid native [] m b v = v
run-IsValid native (op ∷ ops) m b v =
    then_run (Faults native) (step native op m) (run native ops) (step-IsValid native op m b.0 v)
      (λ q w. run-IsValid native ops q b.1 w)

-- `initMediaPlayer` takes an instance that is not one of the two, and the next call reads behind the
-- array.
init_unchecked :
    {A : Type 0} (native : Native A) (i : ℕ) (playlist mode : ℤ) (rect : PlayerRect)
    (mute native_ui subtitle alpha cycle random auto_del : ℤ) (m : Mediaplayer A)
    → 2 ≤ i
    → run native
        (op_init i playlist mode rect mute native_ui subtitle alpha cycle random auto_del
          ∷ op_play_from_start
          ∷ [])
        m
      ≡ none
unfolding run step init_media_player play_from_start ensured
init_unchecked native i playlist mode rect mute native_ui subtitle alpha cycle random auto_del m h =
    ground arith

-- Releasing the other instance by `releaseNativePlayer` deletes the bound one instead: the other player
-- stays in the array, and the bound slot is empty.
release_native-bound :
    {A : Type 0} (native : Native A) (bound other : ℕ) (a b : A) (m : Mediaplayer A)
    → bound < 2
    → other < 2
    → bound ≢ other
    → slot_at bound m.slots ≡ some (some a)
    → slot_at other m.slots ≡ some (some b)
    → HasResult (native.delete a)
    → Ends
        (λ q. (slot_at bound q.slots ≡ some none) × (slot_at other q.slots ≡ some (some b)))
        (run native (op_bind bound ∷ op_release_native other ∷ []) m)
unfolding run step bind_native_player_instance release_native_player release_slot delete_slot
release_native-bound native bound other a b m lb lo n ea eb d = ground arith
