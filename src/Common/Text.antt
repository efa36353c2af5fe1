-- ===== src/Common/Text.antt =====
-- NUL-terminated strings as lists of bytes, none of them 0. A `char *` into a buffer is the suffix
-- that it points at, a null pointer is `none`, and a difference of pointers is one of lengths.
pub mod Matches
use Prim.Native.Nat.{ℕ, zero, suc, ◌+◌, ◌-◌, ◌≤◌, ◌<◌}
use Prim.Native.Char.{code}
use Prim.Native.String.{String}
use mathlib.Core.Path.{◌≡◌, refl}
use mathlib.Core.Bool.{Bool, true, false, ◌&&◌}
use mathlib.Core.Option.{Option, none, some}
use mathlib.Core.List.{List, [], ◌∷◌, ◌++◌}
use native.Mathlib.Omega.{arith}
use snmediaplayer_new.Common.Tests.{◌==◌, ltb, leb, if◌then◌else◌}
use snmediaplayer_new.Common.Lists.{length, take, drop}

abbrev pub Bytes : Type 0
Bytes = List ℕ

-- The bytes of an ASCII literal.
abbrev pub codes : String → Bytes
codes String.[] = []
codes (String.◌∷◌ c s) = code c ∷ codes s

-- `strcmp(a, b) == 0`.
abbrev pub str_eq : Bytes → Bytes → Bool
str_eq [] [] = true
str_eq (x ∷ xs) (y ∷ ys) = x == y && str_eq xs ys
str_eq _ _ = false

abbrev pub starts_with : Bytes → Bytes → Bool
starts_with [] ys = true
starts_with (x ∷ xs) [] = false
starts_with (x ∷ xs) (y ∷ ys) = x == y && starts_with xs ys

-- `strstr(hay, needle)`.
unfoldable pub strstr : Bytes → Bytes → Option Bytes
strstr [] needle = if starts_with needle [] then some [] else none
strstr (c ∷ hay) needle =
    let rest = strstr hay needle in if starts_with needle (c ∷ hay) then some (c ∷ hay) else rest

-- `strchr(hay, c)`.
unfoldable pub strchr : Bytes → ℕ → Option Bytes
strchr [] c = none
strchr (x ∷ hay) c = let rest = strchr hay c in if x == c then some (x ∷ hay) else rest

-- The pointer behind a match of `needle`.
abbrev pub after : Bytes → Bytes → Option Bytes
after hay needle = elim (strstr hay needle) [ none ↦ none | some p ↦ some (drop (length needle) p) ]

-- `p + n`; `none` if that lies behind the end of the text.
abbrev pub skip : ℕ → Bytes → Option Bytes
skip n p = if leb n (length p) then some (drop n p) else none

-- `q - p - n` for two pointers into one text; `none` if it is negative, a size that no buffer has.
abbrev pub gap : Bytes → Bytes → ℕ → Option ℕ
gap q p n = if leb (length q + n) (length p) then some (length p - length q - n) else none

-- `strncpy(dst, src, n)` into a buffer of `size` bytes that holds the text `old`. `none` if the copy
-- fills or leaves the buffer, which then holds no text.
abbrev pub strncpy : ℕ → Bytes → Bytes → ℕ → Option Bytes
strncpy size old src n =
    if ltb n size then some (if ltb (length src) n then src else take n src ++ drop n old) else none
