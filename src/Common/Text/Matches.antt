-- ===== src/Common/Text/Matches.antt =====
-- Where `strstr` finds its needle.
use Prim.Native.Nat.{ℕ, zero, suc, ◌+◌, ◌-◌, ◌≤◌, ◌<◌}
use mathlib.Core.Path.{◌≡◌, refl, ◌∙◌, ap}
use mathlib.Core.Bool.{true, false}
use mathlib.Core.Option.{some}
use mathlib.Core.List.{[], ◌∷◌, ◌++◌, append-nil}
use native.Mathlib.Omega.{arith}
use snmediaplayer_new.Common.Tests.{◌==◌, ltb, leb}
use snmediaplayer_new.Common.Lists.{length, take, drop, length-append}
use snmediaplayer_new.Common.Text.{Bytes, strstr, skip, gap, strncpy}

-- The byte does not occur in the text.
abbrev pub Lacks : ℕ → Bytes → Type 0
Lacks c [] = Unit
Lacks c (x ∷ s) = ((c == x) ≡ false) × Lacks c s

-- `strstr` passes over a text that lacks the needle's first byte.
pub strstr-Lacks :
    (c : ℕ) (needle field rest : Bytes)
    → Lacks c field
    → strstr (field ++ rest) (c ∷ needle) ≡ strstr rest (c ∷ needle)
unfolding strstr
strstr-Lacks c needle [] rest h = refl
strstr-Lacks c needle (x ∷ field) rest h = rw h.0 (strstr-Lacks c needle field rest h.1)

pub take-append : (n : ℕ) (s t : Bytes) → length s ≡ n → take n (s ++ t) ≡ s
take-append zero [] t h = refl
take-append zero (x ∷ s) t h = absurd (omega arith)
take-append (suc n) [] t h = absurd (omega arith)
take-append (suc n) (x ∷ s) t h = ap (λ (r : Bytes). x ∷ r) (take-append n s t (omega arith))

pub drop-all : (n : ℕ) (s : Bytes) → length s ≤ n → drop n s ≡ []
drop-all zero [] h = refl
drop-all zero (x ∷ s) h = absurd (omega arith)
drop-all (suc n) [] h = refl
drop-all (suc n) (x ∷ s) h = drop-all n s (omega arith)

pub drop-append : (s t : Bytes) → drop (length s) (s ++ t) ≡ t
drop-append [] t = refl
drop-append (x ∷ s) t = drop-append s t

-- Over a literal.
pub skip-append : (s t : Bytes) → skip (length s) (s ++ t) ≡ some t
skip-append s t = rw fits (ap some (drop-append s t))
  where
    fits : leb (length s) (length (s ++ t)) ≡ true
    fits = grind (arith, length-append)

-- The length of a field, from the pointers behind it and to the literal before it.
pub gap-field : (s field t : Bytes) → gap t (s ++ (field ++ t)) (length s) ≡ some (length field)
gap-field s field t = rw (length-append, length-append) (ground arith)

-- Into an empty buffer.
pub strncpy-take :
    (size n : ℕ) (src : Bytes)
    → n ≤ length src
    → n < size
    → strncpy size [] src n ≡ some (take n src)
strncpy-take size n src l h = rw (fits, long, drop-all n [] (omega arith), append-nil) refl
  where
    fits : ltb n size ≡ true
    fits = ground arith

    long : ltb (length src) n ≡ false
    long = ground arith

pub strncpy-field :
    (size : ℕ) (field t : Bytes)
    → length field < size
    → strncpy size [] (field ++ t) (length field) ≡ some field
strncpy-field size field t h =
    strncpy-take size (length field) (field ++ t) (rw length-append (omega arith)) h
    ∙ ap some (take-append (length field) field t refl)

-- The same, if the pointer before it is followed by `n` bytes that do not count.
pub gap-over :
    (n : ℕ) (s field t : Bytes)
    → n ≤ length s + length field
    → gap t (s ++ (field ++ t)) n ≡ some (length s + length field - n)
gap-over n s field t h = rw (length-append, length-append) (ground arith)

pub take-within : (n : ℕ) (s t : Bytes) → n ≤ length s → take n (s ++ t) ≡ take n s
take-within zero s t h = refl
take-within (suc n) [] t h = absurd (omega arith)
take-within (suc n) (x ∷ s) t h = ap (λ (r : Bytes). x ∷ r) (take-within n s t (omega arith))

-- Into a buffer with an old text, of which the bytes behind the copy stay.
pub strncpy-over :
    (size : ℕ) (old field t : Bytes)
    → length field < size
    → strncpy size old (field ++ t) (length field) ≡ some (field ++ drop (length field) old)
strncpy-over size old field t h = rw (fits, long, take-append (length field) field t refl) refl
  where
    fits : ltb (length field) size ≡ true
    fits = ground arith

    long : ltb (length (field ++ t)) (length field) ≡ false
    long = grind (arith, length-append)

-- The same up to the last byte in front of the pointer.
pub gap-before :
    (c : ℕ) (s field t : Bytes)
    → gap t (s ++ (field ++ (c ∷ t))) (length s + 1) ≡ some (length field)
gap-before c s field t = rw (length-append, length-append) (ground arith)
