-- ===== src/Player/License.antt =====
-- `parse_cw_from_license`: the control word of a film from the licence in the JSON text.
use snmediaplayer_new.Common.{
  ℕ, zero, suc, ◌+◌, ◌-◌, ◌*◌, ◌%◌, Bool, ◌&&◌, Option, none, some, [], ◌∷◌, if◌then◌else◌, leb,
}
use snmediaplayer_new.Common.Int.{ℤ, pos, negsuc, is_zero, is_minus_one}
use snmediaplayer_new.Common.Text.{Bytes, codes, str_eq}
use snmediaplayer_new.Player.State.{
  open_license, close_license, chmod_license, write_license, drmc_init, drmc_preprocess,
  drmc_get_film_sec_info, World, M, ◌>>=◌, ◌>>◌, pure, drm_call,
}

abbrev pub vod_scramble : ℤ
vod_scramble = pos 1

abbrev pub vod_no_scramble : ℤ
vod_no_scramble = pos 0

abbrev pub drm_license_len : ℕ
drm_license_len = 128

abbrev between : ℕ → ℕ → ℕ → Bool
between low high c = leb low c && leb c high

-- The value of a digit, an unsigned char, and its lower half.
unfoldable pub nibble : ℕ → ℕ
nibble c =
    if between 48 57 c
    then (c - 48) % 16
    else if between 65 90 c
    then (c - 65 + 10) % 16
    else (c + 169) % 256 % 16

abbrev pub hex_byte : ℕ → ℕ → ℕ
hex_byte a b = nibble a * 16 + nibble b

-- The loop over `license_hex`; `none` if it reads behind the terminator of the text, where the array
-- holds what earlier licences left.
unfoldable pub decode_license : ℕ → Bytes → Option Bytes
decode_license zero s = some []
decode_license (suc n) [] = none
decode_license (suc zero) (a ∷ []) = some (hex_byte a 0 ∷ [])
decode_license (suc (suc n)) (a ∷ []) = none
decode_license (suc n) (a ∷ b ∷ s) = elim (decode_license n s) [
  | none ↦ none
  | some rest ↦ some (hex_byte a b ∷ rest)
]

-- The switch over `cryptMode`.
abbrev pub crypt_mode : ℤ → ℤ
crypt_mode (pos zero) = vod_no_scramble
crypt_mode (pos (suc (suc zero))) = vod_scramble
crypt_mode _ = negsuc 0

module _ (world : World) where
  -- `DRMCFuncGetFilmSecInfo` and the switch; the key stays if the call fails.
  unfoldable pub film_key : ℤ × Bytes → Bytes → M (ℤ × Bytes)
  film_key info key = do
    ret ← drm_call world drmc_get_film_sec_info
    pure (if is_zero ret then (crypt_mode info.0, info.1) else (negsuc 0, key))

  unfoldable pub after_preprocess : ℤ → Bytes → M (ℤ × Bytes)
  after_preprocess ret key p =
      if is_zero ret
      then film_key (world.drm.sec_info p.drm_calls) key p
      else some ((negsuc 0, key), p)

  -- The file is written.
  unfoldable pub after_write : ℤ → Bytes → M (ℤ × Bytes)
  after_write written key p =
      if is_minus_one written
      then some ((negsuc 0, key), p)
      else (do
        drm_call world chmod_license
        drm_call world drmc_init
        ret ← drm_call world drmc_preprocess
        after_preprocess ret key)
          p

  unfoldable pub write_file : Option Bytes → Bytes → M (ℤ × Bytes)
  write_file none key p = none
  write_file (some hex) key p =
      (do
        written ← drm_call world (write_license hex)
        drm_call world close_license
        after_write written key)
        p

  unfoldable pub after_open : ℤ → Bytes → Bytes → M (ℤ × Bytes)
  after_open fp license key p =
      if is_minus_one fp
      then some ((negsuc 0, key), p)
      else write_file (decode_license drm_license_len license) key p

  -- The result and the key.
  unfoldable pub parse_cw_from_license : Bytes → Bytes → M (ℤ × Bytes)
  parse_cw_from_license license key p =
      if str_eq license (codes "0")
      then some ((vod_no_scramble, key), p)
      else (do fp ← drm_call world open_license; after_open fp license key) p
