-- ===== src/Settings.antt =====
-- common_setting.c, and the volume in SNmediaplayer.cpp. The settings file is a `Store`: what
-- `Read_Xml_Setting` and `Write_Xml_Setting` do to it is not in the repository.
pub mod RoundTrip
pub mod Loudness
pub mod Tests
use snmediaplayer_new.Common.{
  ℕ, ◌+◌, ◌*◌, ◌/◌, ◌≡◌, Bool, true, false, Option, none, some, List, [], ◌∷◌, ◌==◌, if◌then◌else◌,
}
use snmediaplayer_new.Common.Int.{ℤ, pos, negsuc}
use snmediaplayer_new.Common.Text.{Bytes, codes, str_eq}
use snmediaplayer_new.Common.Decimal.{atoi, print_int}
use snmediaplayer_new.Player.State.{msg_volumechange, Player, World}
use snmediaplayer_new.Player.Queue.{sendto_mediaplayermsg}

-- `read` gives the text of a setting, or `none` for a return code that is not 0.
pub record Store (S : Type 0) : Type 0 where
  pub read : S → Bytes → Option Bytes
  pub write : S → Bytes → Bytes → S

-- What is written is read back, and other settings stay.
pub record IsStore {S : Type 0} (store : Store S) : Type 0 where
  pub read_written :
      (s : S) (name value : Bytes) → store.read (store.write s name value) name ≡ some value
  pub read_other :
      (s : S) (name other value : Bytes)
      → str_eq name other ≡ false
      → store.read (store.write s name value) other ≡ store.read s other

abbrev pub volume_name : Bytes
volume_name = codes "Volume"

abbrev pub mute_name : Bytes
mute_name = codes "Mute"

-- `volume >> 1` and `volume << 1`.
abbrev pub halve : ℤ → ℤ
halve (pos n) = pos (n / 2)
halve (negsuc n) = negsuc (n / 2)

abbrev pub double : ℤ → ℤ
double (pos n) = pos (n * 2)
double (negsuc n) = negsuc (n * 2 + 1)

-- `xmlvalue[0] == '1'`.
abbrev begins_with_one : Bytes → Bool
begins_with_one [] = false
begins_with_one (c ∷ _) = c == b'1'

abbrev text_of : Option Bytes → Bytes
text_of none = []
text_of (some text) = text

-- The fields of SNmediaplayer that the volume functions use, and the settings; `player` is
-- `sn_real_mediaplayer[sn_instanceid]`.
pub record Facade (S : Type 0) : Type 0 where
  pub sn_volume : ℤ
  pub sn_muteflag : Bool
  pub settings : S
  pub player : Option Player

module _ {S : Type 0} (store : Store S) where
  -- A read that fails leaves the buffer empty.
  unfoldable pub ifmute : S → Bool
  ifmute s = begins_with_one (text_of (store.read s mute_name))

  unfoldable pub setmute : S → S
  setmute s = store.write s mute_name (codes "1")

  unfoldable pub unsetmute : S → S
  unsetmute s = store.write s mute_name (codes "0")

  unfoldable pub save_volume_index : ℤ → S → S
  save_volume_index volume s = store.write s volume_name (print_int volume)

  -- The return code and the caller's variable, which keeps its value `old` if nothing is read.
  unfoldable pub read_volume_index : ℤ → S → ℤ × ℤ
  read_volume_index old s = elim (store.read s volume_name) [
    | none ↦ (negsuc 0, old)
    | some text ↦ (pos 0, atoi text)
  ]

  unfoldable pub get_volume : Facade S → ℤ × Facade S
  get_volume f =
      let volume = double (read_volume_index f.sn_volume f.settings).1 in
      (volume, record f { sn_volume = volume })

  -- `player_setvolume` of the instance.
  unfoldable pub player_setvolume : World → ℤ → Player → Option Player
  player_setvolume world volume p =
      elim (sendto_mediaplayermsg world msg_volumechange
        (record p { volumesize = volume; real_volume = volume })) [
          | none ↦ none
          | some (_, q) ↦ some q
        ]

  unfoldable pub set_volume : World → ℤ → Facade S → Facade S
  set_volume world volume f = record f {
    sn_volume = volume;
    settings = save_volume_index (halve volume) f.settings;
    sn_muteflag = false;
    player = elim f.player [ none ↦ none | some p ↦ player_setvolume world volume p ];
  }

  -- The setting is written only if there is an instance; `setMuteFlag` of the instance is empty.
  unfoldable pub set_mute_flag : Bool → Facade S → Facade S
  set_mute_flag flag f = record f {
    sn_muteflag = flag;
    settings = elim f.player [
      | none ↦ f.settings
      | some p ↦ if flag then setmute f.settings else unsetmute f.settings
    ];
  }

  unfoldable pub get_mute_flag : Facade S → Bool × Facade S
  get_mute_flag f = let flag = ifmute f.settings in (flag, record f { sn_muteflag = flag })
