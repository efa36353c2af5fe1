-- ===== src/Common/Decimal/RoundTrip.antt =====
-- Reading a number that `%u` printed.
use Prim.Native.Nat.{ℕ, zero, suc, ◌+◌, ◌*◌, ◌/◌, ◌%◌, ◌<◌}
use mathlib.Core.Path.{◌≡◌, refl, ◌∙◌, ap}
use mathlib.Core.Logic.{inl, inr}
use mathlib.Core.Bool.{true, false}
use mathlib.Core.List.{[], ◌∷◌, ◌++◌}
use native.Mathlib.Omega.{arith}
use snmediaplayer_new.Common.Tests.{◌==◌, ltb, Bool-cases}
use snmediaplayer_new.Common.Int.{pos}
use snmediaplayer_new.Common.Text.{Bytes}
use snmediaplayer_new.Common.Text.Matches.{Lacks}
use snmediaplayer_new.Common.Decimal.{is_digit, digits_from, atoi, print_onto, print}

-- No digit stands at the head of the text.
abbrev pub NoDigit : Bytes → Type 0
NoDigit [] = Unit
NoDigit (c ∷ s) = is_digit c ≡ false

digits_from-NoDigit : (n : ℕ) (rest : Bytes) → NoDigit rest → digits_from n rest ≡ n
unfolding digits_from
digits_from-NoDigit n [] h = refl
digits_from-NoDigit n (c ∷ s) h = ground arith

is_digit_mod : (n : ℕ) → is_digit (b'0' + n % 10) ≡ true
is_digit_mod n = ground arith

digits_from-digit :
    (acc n : ℕ) (tail : Bytes)
    → digits_from acc ((b'0' + n % 10) ∷ tail) ≡ digits_from (acc * 10 + n % 10) tail
unfolding digits_from
digits_from-digit acc n tail = rw is_digit_mod (ap (λ (k : ℕ). digits_from k tail) (omega arith))

digits_from-print_onto :
    (f n : ℕ) (tail : Bytes) → n < f → digits_from 0 (print_onto f n tail) ≡ digits_from n tail
unfolding print_onto
digits_from-print_onto zero n tail h = elim h [ ]
digits_from-print_onto (suc f) n tail h = elim (Bool-cases (ltb n 10)) [
  | inl small ↦
      rw small (digits_from-digit 0 n tail ∙ ap (λ (k : ℕ). digits_from k tail) (ground arith))
  | inr large ↦ rw large (
      digits_from-print_onto f (n / 10) ((b'0' + n % 10) ∷ tail) (ground arith)
      ∙ digits_from-digit (n / 10) n tail
      ∙ ap (λ (k : ℕ). digits_from k tail) (omega arith))
]

print_onto-append :
    (f n : ℕ) (tail rest : Bytes) → print_onto f n tail ++ rest ≡ print_onto f n (tail ++ rest)
unfolding print_onto
print_onto-append zero n tail rest = refl
print_onto-append (suc f) n tail rest = elim (Bool-cases (ltb n 10)) [
  | inl small ↦ rw small
  | inr large ↦ rw large (print_onto-append f (n / 10) ((b'0' + n % 10) ∷ tail) rest)
]

-- A digit stands at the head of the text.
abbrev HasDigit : Bytes → Type 0
HasDigit [] = ⊥
HasDigit (c ∷ s) = is_digit c ≡ true

print_onto-HasDigit : (f n : ℕ) (tail : Bytes) → HasDigit tail → HasDigit (print_onto f n tail)
unfolding print_onto
print_onto-HasDigit zero n tail h = h
print_onto-HasDigit (suc f) n tail h = elim (Bool-cases (ltb n 10)) [
  | inl small ↦ rw small (ground arith)
  | inr large ↦ rw large (print_onto-HasDigit f (n / 10) ((b'0' + n % 10) ∷ tail) (ground arith))
]

print_onto-starts : (f n : ℕ) (tail : Bytes) → HasDigit (print_onto (suc f) n tail)
unfolding print_onto
print_onto-starts f n tail = elim (Bool-cases (ltb n 10)) [
  | inl small ↦ rw small (ground arith)
  | inr large ↦ rw large (print_onto-HasDigit f (n / 10) ((b'0' + n % 10) ∷ tail) (ground arith))
]

atoi-HasDigit : (s : Bytes) → HasDigit s → atoi s ≡ pos (digits_from 0 s)
unfolding atoi
atoi-HasDigit [] h = absurd h
atoi-HasDigit (c ∷ s) h = ground arith

pub atoi-print : (n : ℕ) (rest : Bytes) → NoDigit rest → atoi (print n ++ rest) ≡ pos n
unfolding print
atoi-print n rest h = rw print_onto-append (
    atoi-HasDigit (print_onto (suc n) n rest) (print_onto-starts n n rest)
    ∙ ap pos (digits_from-print_onto (suc n) n rest (omega arith) ∙ digits_from-NoDigit n rest h))

other_digit : (c n : ℕ) → is_digit c ≡ false → (c == b'0' + n % 10) ≡ false
other_digit c n d = ground arith

print_onto-Lacks :
    (c f n : ℕ) (tail : Bytes) → is_digit c ≡ false → Lacks c tail → Lacks c (print_onto f n tail)
unfolding print_onto
print_onto-Lacks c zero n tail d h = h
print_onto-Lacks c (suc f) n tail d h = elim (Bool-cases (ltb n 10)) [
  | inl small ↦ rw small (other_digit c n d, h)
  | inr large ↦
      rw large (print_onto-Lacks c f (n / 10) ((b'0' + n % 10) ∷ tail) d (other_digit c n d, h))
]

-- A printed number has digits only.
pub print-Lacks : (c n : ℕ) → is_digit c ≡ false → Lacks c (print n)
unfolding print
print-Lacks c n d = print_onto-Lacks c (suc n) n [] d tt
