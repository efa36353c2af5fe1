-- ===== src/Settings/RoundTrip.antt =====
-- What is read from the settings after it was written.
use mathlib.Core.List.{append-nil}
use snmediaplayer_new.Common.{
  ℕ, ◌*◌, ◌/◌, ◌≡◌, refl, sym, ap, ◌∙◌, Bool, true, false, Option, none, some, [], if◌then◌else◌,
}
use snmediaplayer_new.Common.Int.{ℤ, pos}
use snmediaplayer_new.Common.Text.{codes}
use snmediaplayer_new.Common.Decimal.{atoi, print, print_int}
use snmediaplayer_new.Common.Decimal.RoundTrip.{atoi-print}
use snmediaplayer_new.Player.State.{Player, World}
use snmediaplayer_new.Settings.{
  Store, IsStore, Facade, double, volume_name, mute_name, ifmute, setmute, unsetmute,
  save_volume_index, read_volume_index, get_volume, set_volume, halve, set_mute_flag, get_mute_flag,
}

-- Whether the object has an instance.
abbrev there : Option Player → Bool
there none = false
there (some p) = true

module _ {S : Type 0} (store : Store S) (law : IsStore store) where
  read_saved :
      (n : ℕ) (old : ℤ) (s : S)
      → read_volume_index store old (save_volume_index store (pos n) s) ≡ (pos 0, pos n)
  unfolding read_volume_index save_volume_index print_int
  read_saved n old s =
      rw (read_volume_index, law.read_written s volume_name (print n)) (ap (λ v. (pos 0, v)) back)
    where
      back : atoi (print n) ≡ pos n
      back = ap atoi (sym (append-nil (print n))) ∙ atoi-print n [] tt

  -- After `setVolume` with a volume that is not negative, `getVolume` gives that volume, rounded down to
  -- an even number, if the settings file keeps what is written.
  pub get_volume-set_volume :
      (world : World) (n : ℕ) (f : Facade S)
      → (get_volume store (set_volume store world (pos n) f)).0 ≡ pos (n / 2 * 2)
  unfolding get_volume set_volume
  get_volume-set_volume world n f = ap (λ r. double (r.1)) (read_saved (n / 2) (pos n) f.settings)

  -- Mute and unmute are read back, and leave the volume that `read_volume_index` gives, as saving a
  -- volume leaves the mute flag.
  pub mute_and_volume :
      (s : S) (old volume : ℤ)
      → (ifmute store (setmute store s) ≡ true)
        × (ifmute store (unsetmute store s) ≡ false)
        × (ifmute store (save_volume_index store volume s) ≡ ifmute store s)
        × (read_volume_index store old (setmute store s) ≡ read_volume_index store old s)
  unfolding ifmute setmute unsetmute save_volume_index read_volume_index
  mute_and_volume s old volume = (
    rw (ifmute, law.read_written) refl,
    rw (ifmute, law.read_written) refl,
    rw (ifmute, law.read_other s volume_name mute_name (print_int volume) refl) refl,
    rw (read_volume_index, law.read_other s mute_name volume_name (codes "1") refl) refl,
  )

  saved_mute :
      (flag : Bool) (player : Option Player) (f : Facade S)
      → player ≡ f.player
      → (get_mute_flag store (set_mute_flag store flag f)).0
        ≡ (if there f.player then flag else ifmute store f.settings)
  unfolding get_mute_flag set_mute_flag
  saved_mute flag none f e = rw (sym e) refl
  saved_mute true (some p) f e = rw (sym e) (mute_and_volume f.settings f.sn_volume f.sn_volume).0
  saved_mute false (some p) f e = rw (sym e) (mute_and_volume f.settings f.sn_volume f.sn_volume).1

  kept_mute :
      (world : World) (volume : ℤ) (f : Facade S)
      → (get_mute_flag store (set_volume store world volume f)).0 ≡ ifmute store f.settings
  unfolding get_mute_flag set_volume
  kept_mute world volume f = (mute_and_volume f.settings volume (halve volume)).2

  -- `getMuteFlag` gives what the last `setMuteFlag` was called with if there was an instance then, and
  -- else what the settings file had before; `setVolume`, which resets the flag of the object, does not
  -- change it. This holds if the settings file keeps what is written.
  mute_flag_kept :
      (world : World) (flag : Bool) (volume : ℤ) (f : Facade S)
      → ((get_mute_flag store (set_mute_flag store flag f)).0
          ≡ (if there f.player then flag else ifmute store f.settings))
        × ((get_mute_flag store (set_volume store world volume f)).0 ≡ ifmute store f.settings)
        × ((set_volume store world volume f).sn_muteflag ≡ false)
  unfolding set_volume
  mute_flag_kept world flag volume f =
      (saved_mute flag f.player f refl, kept_mute world volume f, refl)

-- If the volume cannot be read, each `getVolume` doubles the volume that it gives.
get_volume-unreadable :
    {S : Type 0} (store : Store S) (f : Facade S)
    → store.read f.settings volume_name ≡ none
    → (get_volume store (get_volume store f).1).0 ≡ double (double f.sn_volume)
unfolding get_volume read_volume_index
get_volume-unreadable store f e =
    ap double (kept (get_volume store f).1.sn_volume ∙ ap double (kept f.sn_volume))
  where
    kept : (old : ℤ) → (read_volume_index store old f.settings).1 ≡ old
    kept old = rw (read_volume_index, e) refl
